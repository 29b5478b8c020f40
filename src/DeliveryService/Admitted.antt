-- ===== src/DeliveryService/Admitted.antt =====
-- src/user_actor_delivery.py: what the gateway is given.
use discord_fediverse_bridge.Base.{
  ℕ, ◌≡◌, refl, String, Bool, true, false, ◌&&◌, List, [], ◌∷◌, In, arith, inl, inr, All, All-In,
  All-concat, ◌⊎◌, ◌==◌, string_eq, Bool-cases,
}
use discord_fediverse_bridge.Delivery.{Store, Claim}
use discord_fediverse_bridge.Delivery.Claims.Batch.{claim_due}
use discord_fediverse_bridge.Delivery.Outcomes.{mark_submitted}
use discord_fediverse_bridge.DeliveryService.{
  World, Reply, answers, fails, Session, Group, add_group, admit_claim, admit_claims, submit,
  any_allowed, or_allowed, both_allowed, decide_claim, drain_deliveries,
}

-- what the policy has said of a claim
pub record Allowed (decision : String → Reply Bool) (c : Claim) : Type 0 where
  pub endpoint : decision c.target_endpoint_url ≡ answers true
  pub actor : String
  pub represented : In actor c.represented_actor_ids
  pub allowed : decision actor ≡ answers true

or_allowed-cases :
    (r rest : Reply Bool)
    → or_allowed r rest ≡ answers true
    → (r ≡ answers true) ⊎ (rest ≡ answers true)
or_allowed-cases (fails e) rest h = cc
or_allowed-cases (answers true) rest h = inl refl
or_allowed-cases (answers false) rest h = inr h

any_allowed-In :
    (decision : String → Reply Bool) (ids : List String)
    → any_allowed decision ids ≡ answers true
    → (a : String) × In a ids × (decision a ≡ answers true)
unfolding any_allowed
any_allowed-In decision [] h = absurd (ground (arith, h))
any_allowed-In decision (a ∷ ids) h =
    elim (or_allowed-cases (decision a) (any_allowed decision ids) h) [
      | inl p ↦ (a, inl refl, p)
      | inr p ↦ let (b, m, q) = any_allowed-In decision ids p in (b, inr m, q)
    ]

both_allowed-true :
    (r rest : Reply Bool)
    → both_allowed r rest ≡ answers true
    → (r ≡ answers true) × (rest ≡ answers true)
both_allowed-true (fails e) rest h = (cc, cc)
both_allowed-true (answers a) (fails e) h = (cc, cc)
both_allowed-true (answers true) (answers true) h = (refl, refl)
both_allowed-true (answers false) (answers b) h = (cc, cc)
both_allowed-true (answers true) (answers false) h = (cc, cc)

decide_claim-Allowed :
    (decision : String → Reply Bool) (c : Claim)
    → decide_claim decision c ≡ answers true
    → Allowed decision c
decide_claim-Allowed decision c h =
    let (e, a) =
      both_allowed-true (decision c.target_endpoint_url)
        (any_allowed decision c.represented_actor_ids) h in
    let (actor, m, p) = any_allowed-In decision c.represented_actor_ids a in
    record { endpoint = e; actor = actor; represented = m; allowed = p }

-- a claim in a group of its actor, with what the policy has said of it
pub record Sent (w : World) (batch : List Claim) (url name : String) (c : Claim) : Type 0 where
  pub claimed : In c batch
  pub same_actor : url ≡ c.actor_url
  pub same_name : name ≡ c.actor_username
  pub permission : Allowed (w.federation_decision c) c

abbrev AllSent : World → List Claim → List Group → Type 0
AllSent w batch = All (λ (g : Group). All (Sent w batch g.actor_url g.actor_username) g.claims)

module _ (w : World) (batch : List Claim) where
  add_group-AllSent :
      (c : Claim)
      → In c batch
      → Allowed (w.federation_decision c) c
      → (gs : List Group) → AllSent w batch gs
      → AllSent w batch (add_group c gs)
  unfolding add_group
  add_group-AllSent c m p [] all =
      ((record { claimed = m; same_actor = refl; same_name = refl; permission = p }, tt), tt)
  add_group-AllSent c m p (g ∷ gs) all =
      elim (Bool-cases (g.actor_url == c.actor_url && g.actor_username == c.actor_username)) [
        | inl e ↦ rw e (
          All-concat (Sent w batch g.actor_url g.actor_username) g.claims c all.0 (record {
            claimed = m;
            same_actor = ground (arith, e);
            same_name = ground (arith, e);
            permission = p;
          }),
          all.1,
        )
        | inr e ↦ rw e (all.0, add_group-AllSent c m p gs all.1)
      ]

  submit-AllSent :
      (c : Claim) (t : Session) (r : Bool × Store)
      → In c batch
      → Allowed (w.federation_decision c) c
      → AllSent w batch t.groups
      → AllSent w batch (submit c t r).groups
  submit-AllSent c t (true, s) m p all = add_group-AllSent c m p t.groups all
  submit-AllSent c t (false, s) m p all = all

  admit_claim-AllSent :
      (now : ℕ) (c : Claim) (r : Reply Bool) (t : Session)
      → In c batch
      → (r ≡ answers true → Allowed (w.federation_decision c) c)
      → AllSent w batch t.groups
      → AllSent w batch (admit_claim now c r t).groups
  unfolding admit_claim
  admit_claim-AllSent now c (fails e) t m p all = all
  admit_claim-AllSent now c (answers false) t m p all = all
  admit_claim-AllSent now c (answers true) t m p all =
      submit-AllSent c t (mark_submitted now c.delivery_id c.claim_token t.store) m (p refl) all

  admit_claims-AllSent :
      (cs : List Claim) (t : Session)
      → ((c : Claim) → In c cs → In c batch)
      → AllSent w batch t.groups
      → AllSent w batch (admit_claims w cs t).groups
  unfolding admit_claims
  admit_claims-AllSent [] t sub all = all
  admit_claims-AllSent (c ∷ cs) t sub all =
      admit_claims-AllSent cs _ (λ x m. sub x (inr m))
        (admit_claim-AllSent (w.admitted_at c) c (decide_claim (w.federation_decision c) c) t
          (sub c (inl refl)) (decide_claim-Allowed (w.federation_decision c) c) all)

-- Each delivery that a drain hands to the gateway is a claim of its batch, goes out under the actor
-- URL and the name of its own claim, and has a yes of the policy for its endpoint and for one of the
-- actors that it represents.
pub drain_deliveries-Sent :
    (w : World) (token_hex : ℕ → String) (now limit : ℕ) (s : Store) (g : Group) (c : Claim)
    → In g (drain_deliveries w token_hex now limit s).groups
    → In c g.claims
    → Sent w (claim_due token_hex now 5 limit 300 s).0 g.actor_url g.actor_username c
unfolding drain_deliveries
drain_deliveries-Sent w token_hex now limit s g c sent m =
    let batch = claim_due token_hex now 5 limit 300 s in
    let start : Session = record { store = batch.1; groups = [] } in
    All-In (Sent w batch.0 g.actor_url g.actor_username) g.claims
      (All-In (λ (h : Group). All (Sent w batch.0 h.actor_url h.actor_username) h.claims)
        (admit_claims w batch.0 start).groups
        (admit_claims-AllSent w batch.0 batch.0 start (λ x n. n) tt) sent)
      m
