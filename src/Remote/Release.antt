-- ===== src/Remote/Release.antt =====
-- src/operations/unsubscribe.py: what an unsubscribe that is applied leaves behind.
use discord_fediverse_bridge.Base.{
  ℕ, suc, ◌≡◌, ◌≤◌, refl, arith, String, Bool, true, false, Option, none, some, List, [], ◌∷◌, In,
  inl, inr, ◌⊎◌, leb, nat_eq, string_eq, any, any-true, find, In-find, filter, length, Bool-cases,
  Option-cases,
}
use discord_fediverse_bridge.Base.Table.{delete_first, delete_first-last, find-none}
use discord_fediverse_bridge.Remote.{
  Follow, Subscription, RemoteStore, in_channel, of_community, follows_community,
  get_subscription_by_channel, get_bridge_actor_follow, delete_subscription,
  delete_bridge_actor_follow, count_subscriptions_for_community,
}
use discord_fediverse_bridge.Remote.Operations.{
  applied, undo_of, begin_last, begin_unsubscribe, unsubscribe_begin, unsubscribe_finish,
  resume_undo, unsubscribe,
}

module _ {A : Type 0} where
  -- one row less, whichever it is
  length-delete_first :
      (p q : A → Bool) (xs : List A)
      → length (filter q xs) ≤ suc (length (filter q (delete_first p xs)))
  unfolding filter delete_first
  length-delete_first p q [] = omega arith
  length-delete_first p q (x ∷ xs) = ground (arith, length-delete_first p q xs)

  some-any : (q : A → Bool) (xs : List A) → 1 ≤ length (filter q xs) → any q xs ≡ true
  unfolding filter any
  some-any q [] h = ground (arith, h)
  some-any q (x ∷ xs) h = ground (arith, h, some-any q xs)

-- The channel is free. Either another channel shows the community, and the Follows are as they were,
-- or the bridge does not follow it any more.
abbrev pub Released : ℕ → String → RemoteStore → RemoteStore → Type 0
Released channel community s t =
    (get_subscription_by_channel channel t.subscriptions ≡ none)
    × ((((x : Subscription) × In x t.subscriptions × (x.lemmy_community_actor_id ≡ community))
          × (t.follows ≡ s.follows))
        ⊎ (get_bridge_actor_follow community t.follows ≡ none))

freed :
    (channel : ℕ) (s : RemoteStore) (sub : Subscription)
    → find (in_channel channel) s.subscriptions ≡ some sub
    → length (filter (in_channel channel) s.subscriptions) ≤ 1
    → find (in_channel channel) (delete_first (in_channel channel) s.subscriptions) ≡ none
freed channel s sub found few =
    find-none (in_channel channel) (delete_first (in_channel channel) s.subscriptions) (
      delete_first-last (in_channel channel) (in_channel channel) s.subscriptions sub few found
        (In-find (in_channel channel) s.subscriptions sub found).1)

-- a row of the community is left where there were two
shared :
    (channel : ℕ) (community : String) (s : RemoteStore)
    → leb (length (filter (of_community community) s.subscriptions)) 1 ≡ false
    → (x : Subscription) × In x (delete_first (in_channel channel) s.subscriptions)
      × (x.lemmy_community_actor_id ≡ community)
shared channel community s many =
    let rest = delete_first (in_channel channel) s.subscriptions in
    let left = length-delete_first (in_channel channel) (of_community community) s.subscriptions in
    let (x, here, same) =
      any-true (of_community community) rest
        (some-any (of_community community) rest (ground (arith, many, left))) in
    (x, here, ground (arith, same))

missing :
    (community : String) (follows : List Follow)
    → find (follows_community community) follows ≡ none
    → find (follows_community community) (delete_first (follows_community community) follows) ≡ none
unfolding find delete_first
missing community [] e = e
missing community (f ∷ fs) e = ground (arith, e, missing community fs)

unfollowed :
    (community : String) (follows : List Follow)
    → length (filter (follows_community community) follows) ≤ 1
    → find (follows_community community) (delete_first (follows_community community) follows) ≡ none
unfollowed community follows few =
    elim (Option-cases (find (follows_community community) follows)) [
      | inl e ↦ missing community follows e
      | inr (f, e) ↦
          find-none (follows_community community)
            (delete_first (follows_community community) follows)
            (delete_first-last (follows_community community) (follows_community community) follows f
              few e (In-find (follows_community community) follows f e).1)
    ]

-- the last channel
last-Released :
    (allowed answer : Bool) (channel : ℕ) (community : String) (activity : Option String)
    (s : RemoteStore)
    → find (in_channel channel) (delete_first (in_channel channel) s.subscriptions) ≡ none
    → length (filter (follows_community community) s.follows) ≤ 1
    → (resume_undo answer (begin_last allowed channel community activity s)).0 ≡ applied
    → Released channel community s
        (resume_undo answer (begin_last allowed channel community activity s)).1
unfolding unsubscribe_finish delete_subscription delete_bridge_actor_follow get_bridge_actor_follow
    get_subscription_by_channel
last-Released allowed answer channel community none s free few e = ground (arith, e)
last-Released false answer channel community (some activity) s free few e = ground (arith, e)
last-Released true false channel community (some activity) s free few e = ground (arith, e)
last-Released true true channel community (some activity) s free few e =
    (free, inr (unfollowed community s.follows few))

-- A channel shows a community, and the UNIQUE constraints on channels and on Follows hold. If an
-- undisturbed unsubscribe of the channel answers that it is applied, without a reservation, then the
-- channel has no subscription any more; and either another channel still shows the community and no
-- Follow has changed, or the bridge does not follow the community any more.
pub unsubscribe-Released :
    (allowed answer : Bool) (channel : ℕ) (s : RemoteStore) (sub : Subscription)
    → get_subscription_by_channel channel s.subscriptions ≡ some sub
    → length (filter (in_channel channel) s.subscriptions) ≤ 1
    → length (filter (follows_community sub.lemmy_community_actor_id) s.follows) ≤ 1
    → (unsubscribe allowed answer channel s).0 ≡ applied
    → Released channel sub.lemmy_community_actor_id s (unsubscribe allowed answer channel s).1
unfolding unsubscribe unsubscribe_begin begin_unsubscribe get_subscription_by_channel
    count_subscriptions_for_community delete_subscription
unsubscribe-Released allowed answer channel s sub found one few e =
    let community = sub.lemmy_community_actor_id in
    let free = freed channel s sub found one in
    elim (Bool-cases (leb (length (filter (of_community community) s.subscriptions)) 1)) [
      | inl last ↦ rw found (
          rw last (
            last-Released allowed answer channel community
              (undo_of (get_bridge_actor_follow community s.follows)) s free few
              (rw last at (rw found at e))))
      | inr more ↦ rw found (rw more (free, inl (shared channel community s more, refl)))
    ]
