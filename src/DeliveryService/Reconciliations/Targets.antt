-- ===== src/DeliveryService/Reconciliations/Targets.antt =====
-- src/user_actor_delivery.py: the inboxes that a recovered mutation is sent to.
use discord_fediverse_bridge.Base.{
  ℕ, ◌≡◌, refl, sym, ◌∙◌, String, Bool, true, false, ◌&&◌, ◌||◌, any-none, Option, some, List, [],
  ◌∷◌, arith, ◌==◌, nat_eq, string_eq, any, any-true, any-false, filter, filter-In, In-filter,
  sort_by, In-sort_by, sort_by-In, Bool-cases, inl, inr, contains,
}
use discord_fediverse_bridge.Relay.Subscribers.{
  RemoteSubscriber, accepted, subscriber_status_eq, list_remote_subscribers,
}
use discord_fediverse_bridge.Mutation.{Published, MutationStore}
use discord_fediverse_bridge.Mutation.Desired.{published_of}
use discord_fediverse_bridge.DeliveryService.Requests.{Attempt, returns, raises}
use discord_fediverse_bridge.DeliveryService.Reconciliations.{
  Surroundings, when_allowed, allowed_inboxes, listed, replay_target_inboxes,
}

-- the policy has answered that the inbox is allowed
abbrev pub allows : Attempt Bool → Bool
allows (raises e) = false
allows (returns allowed) = allowed

-- an accepted subscriber of the community with the inbox, which the policy allows
abbrev pub is_target : (String → Attempt Bool) → ℕ → String → RemoteSubscriber → Bool
is_target decision community inbox r =
    (r.local_community_id == community && r.status == accepted)
    && (inbox == r.remote_inbox_url && allows (decision r.remote_inbox_url))

any-sort_by :
    {A : Type 0} (le : A → A → Bool) (p q : A → Bool) (xs : List A)
    → any q (sort_by le (filter p xs)) ≡ any (λ x. p x && q x) xs
any-sort_by le p q xs = elim (Bool-cases (any (λ x. p x && q x) xs)) [
  | inl hit ↦
      let (x, stored, both) = any-true (λ x. p x && q x) xs hit in
      let there = sort_by-In le (filter p xs) x (filter-In p xs x stored (ground (arith, both))) in
      elim (Bool-cases (any q (sort_by le (filter p xs)))) [
        | inl found ↦ found ∙ sym hit
        | inr missed ↦
            absurd (ground (arith, both, any-false q (sort_by le (filter p xs)) x missed there))
      ]
  | inr free ↦
      any-none q (sort_by le (filter p xs)) (λ x there.
        let (stored, e) = In-filter p xs x (In-sort_by le (filter p xs) x there) in
        ground (arith, e, any-false (λ x. p x && q x) xs x free stored))
      ∙ sym free
]

module _ (decision : String → Attempt Bool) (inbox : String) where
  when_allowed-contains :
      (url : String) (a : Attempt Bool) (rest : Attempt (List String)) (b : Bool)
      (inboxes : List String)
      → ((xs : List String) → rest ≡ returns xs → contains xs inbox ≡ b)
      → when_allowed url a rest ≡ returns inboxes
      → contains inboxes inbox ≡ (inbox == url && allows a || b)
  when_allowed-contains url (raises x) rest b inboxes h e = cc
  when_allowed-contains url (returns false) rest b inboxes h e = ground (arith, h inboxes e)
  when_allowed-contains url (returns true) (raises x) b inboxes h e = cc
  when_allowed-contains url (returns true) (returns xs) b inboxes h e =
      let made : url ∷ xs ≡ inboxes = cc in rw (← made) ground (arith, h xs refl)

  allowed_inboxes-contains :
      (rows : List RemoteSubscriber) (inboxes : List String)
      → allowed_inboxes decision rows ≡ returns inboxes
      → contains inboxes inbox
        ≡ any (λ r. inbox == r.remote_inbox_url && allows (decision r.remote_inbox_url)) rows
  unfolding allowed_inboxes any
  allowed_inboxes-contains [] inboxes e =
      let made : ◌≡◌ {A = List String} [] inboxes = cc in rw (← made) refl
  allowed_inboxes-contains (r ∷ rows) inboxes e =
      when_allowed-contains r.remote_inbox_url (decision r.remote_inbox_url)
        (allowed_inboxes decision rows) _ inboxes (allowed_inboxes-contains rows) e

listed-returns :
    (a : Attempt (List String)) (targets : Option (List String))
    → listed a ≡ returns targets
    → (inboxes : List String) × (a ≡ returns inboxes) × (targets ≡ some inboxes)
listed-returns (raises e) targets h = cc
listed-returns (returns inboxes) targets h = (inboxes, refl, cc)

pub replay_target_inboxes-contains :
    (d : Surroundings) (object_id url : String) (community : ℕ) (s : MutationStore) (p : Published)
    (targets : Option (List String))
    → published_of object_id s ≡ some p
    → p.community_actor_url ≡ some url
    → d.local_community_by_actor_url url ≡ some community
    → replay_target_inboxes d object_id s ≡ returns targets
    → (inboxes : List String) × (targets ≡ some inboxes)
      × ((inbox : String)
          → contains inboxes inbox
            ≡ any (is_target d.federation_decision community inbox) (d.subscribers object_id))
unfolding replay_target_inboxes list_remote_subscribers
replay_target_inboxes-contains d object_id url community s p targets there of_url local e =
    let rows = list_remote_subscribers community (some accepted) (d.subscribers object_id) in
    let same : replay_target_inboxes d object_id s
        ≡ listed (allowed_inboxes d.federation_decision rows) =
      rw (replay_target_inboxes, there) rw of_url rw local refl in
    let (inboxes, made, explicit) =
      listed-returns (allowed_inboxes d.federation_decision rows) targets (sym same ∙ e) in
    (
      inboxes,
      explicit,
      λ inbox.
          allowed_inboxes-contains d.federation_decision inbox rows inboxes made
          ∙ any-sort_by _ _ _ (d.subscribers object_id),
    )
