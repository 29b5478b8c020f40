-- ===== src/Remote/Race.antt =====
-- src/operations/unsubscribe.py and subscribe.py: a subscribe that comes in while an unsubscribe of
-- the same community awaits the answer to its Undo.
use discord_fediverse_bridge.Base.{
  In-last, ℕ, ◌≡◌, ◌≤◌, refl, ◌∙◌, arith, String, Bool, true, false, Option, none, some, [], ◌∷◌,
  ◌++◌, In, inl, inr, nat_eq, string_eq, leb, find, In-find, filter, length, Bool-cases,
  Option-cases,
}
use discord_fediverse_bridge.Base.Table.{
  delete_first, delete_first-last, find-none, absent-free, next_id,
}
use discord_fediverse_bridge.Remote.{
  accepted, follow_status_eq, Follow, Subscription, RemoteStore, in_channel, follows_community,
  get_subscription_by_channel, get_bridge_actor_follow, create_subscription, new_subscription,
  delete_subscription, delete_bridge_actor_follow, count_subscriptions_for_community,
}
use discord_fediverse_bridge.Remote.Operations.{
  SubscribeInput, applied, done, awaits, Undo, undo_of, begin_last, begin_unsubscribe,
  unsubscribe_begin, unsubscribe_finish, begin_with, begin_subscribe, subscribe_begin, row_for,
}

-- an unsubscribe has not touched the Follows when it awaits its answer
begin_last-follows :
    (allowed : Bool) (channel : ℕ) (community : String) (activity : Option String)
    (s t : RemoteStore) (u : Undo)
    → begin_last allowed channel community activity s ≡ awaits u t
    → t.follows ≡ s.follows
unfolding delete_subscription
begin_last-follows allowed channel community none s t u e = ground (arith, e)
begin_last-follows true channel community (some activity) s t u e = ground (arith, e)
begin_last-follows false channel community (some activity) s t u e = ground (arith, e)

unsubscribe_begin-follows :
    (allowed : Bool) (channel : ℕ) (s t : RemoteStore) (u : Undo)
    → unsubscribe_begin allowed channel s ≡ awaits u t
    → t.follows ≡ s.follows
unfolding unsubscribe_begin begin_unsubscribe
unsubscribe_begin-follows allowed channel s t u e =
    elim (Option-cases (get_subscription_by_channel channel s.subscriptions)) [
      | inl absent ↦ ground (arith, rw absent at e)
      | inr (sub, found) ↦
          let run = rw found at e in
          let community = sub.lemmy_community_actor_id in
          elim (Bool-cases (leb (count_subscriptions_for_community community s.subscriptions) 1)) [
            | inl last ↦
                begin_last-follows allowed channel community
                  (undo_of (get_bridge_actor_follow community s.follows)) s t u (rw last at run)
            | inr more ↦ ground (arith, rw more at run)
          ]
    ]

-- the channel joins the Follow, which is still there
joins :
    (now : ℕ) (allowed : Bool) (i : SubscribeInput) (s : RemoteStore) (f : Follow)
    → get_subscription_by_channel i.channel_id s.subscriptions ≡ none
    → get_bridge_actor_follow i.actor_id s.follows ≡ some f
    → f.status ≡ accepted
    → (row : Subscription) × (subscribe_begin now true allowed i s
        ≡ done applied (record s { subscriptions = s.subscriptions ++ row ∷ [] }))
      × (row.status ≡ accepted)
      × (row.lemmy_community_actor_id ≡ i.actor_id)
unfolding subscribe_begin begin_subscribe begin_with create_subscription get_subscription_by_channel
    follow_status_eq
joins now allowed i s f new found live =
    let free = absent-free (in_channel i.channel_id) s.subscriptions new in
    let row = new_subscription now (next_id (λ (r : Subscription). r.id) s.subscriptions) (
      row_for i i.actor_id f.community_inbox_url f.follow_activity_id (some i.discord_user_id)
        f.status) in
    (row, rw (new, found, live, free) refl, live, refl)

-- An unsubscribe of the last channel of a community awaits the answer to its Undo, and the Follow is
-- accepted. A registered user's subscribe of a channel without a subscription to the same community, in between, is
-- applied at once, with an accepted row. When the answer then comes that the Undo is accepted, the
-- Follow is deleted and the row stays: the channel has an accepted subscription to a community that
-- the bridge does not follow.
pub unsubscribe_finish-subscribe_begin :
    (now channel : ℕ) (allowed : Bool) (i : SubscribeInput) (s t : RemoteStore) (u : Undo)
    (f : Follow)
    → unsubscribe_begin true channel s ≡ awaits u t
    → get_bridge_actor_follow u.community s.follows ≡ some f
    → f.status ≡ accepted
    → length (filter (follows_community u.community) s.follows) ≤ 1
    → i.actor_id ≡ u.community
    → get_subscription_by_channel i.channel_id t.subscriptions ≡ none
    → (row : Subscription) × (v : RemoteStore) × (subscribe_begin now true allowed i t
        ≡ done applied v)
      × (row.status ≡ accepted)
      × (row.lemmy_community_actor_id ≡ u.community)
      × In row (unsubscribe_finish true u v).1.subscriptions
      × (get_bridge_actor_follow u.community (unsubscribe_finish true u v).1.follows ≡ none)
unfolding unsubscribe_finish delete_bridge_actor_follow get_bridge_actor_follow
unsubscribe_finish-subscribe_begin now channel allowed i s t u f begun found live few same new =
    let kept = unsubscribe_begin-follows true channel s t u begun in
    let (row, run, status, community) = joins now allowed i t f new (rw (kept, same) found) live in
    let alone : length (filter (follows_community u.community) t.follows) ≤ 1 = rw kept few in
    let there : find (follows_community u.community) t.follows ≡ some f = rw kept found in
    let own : follows_community u.community f ≡ true =
      (In-find (follows_community u.community) t.follows f there).1 in
    let gone =
      delete_first-last (follows_community u.community) (follows_community u.community) t.follows f
        alone there own in
    (
      row,
      _,
      run,
      status,
      community ∙ same,
      In-last t.subscriptions row,
      find-none (follows_community u.community)
          (delete_first (follows_community u.community) t.follows) gone,
    )
