-- ===== src/Remote/Commands.antt =====
-- src/operations/subscribe.py and unsubscribe.py: what an undisturbed command keeps of the two tables.
use discord_fediverse_bridge.Base.{
  ℕ, ◌≡◌, ◌≤◌, refl, ap, arith, String, Bool, true, false, Option, none, some, ◌==◌, nat_eq,
  string_eq, leb, filter, any-false, find, length, Result, ok, raised, Bool-cases, inl, inr,
}
use discord_fediverse_bridge.Base.Table.{delete_first-last, delete_first}
use discord_fediverse_bridge.Remote.{
  pending, accepted, failed, follow_status_eq, Follow, Subscription, RemoteStore, in_channel,
  of_community, follows_community, get_bridge_actor_follow, get_subscription_by_channel,
  count_subscriptions_for_community, create_subscription, delete_subscription,
}
use discord_fediverse_bridge.Remote.Operations.{
  SubscribeInput, FollowResult, Outcome, applied, Begun, done, awaits, Undo, row_for, then_call,
  finished, without_failed, is_failed, share, ask, begin_with, begin_subscribe, has_no_subscription,
  subscribe_begin, subscribe_finish, resume, subscribe, begin_last, undo_of, begin_unsubscribe,
  unsubscribe_begin, unsubscribe_finish, resume_undo, unsubscribe,
}
use discord_fediverse_bridge.Remote.Follows.{follow_status, status_of}
use discord_fediverse_bridge.Remote.Linked.{
  IsLinked, Unused, create_subscription-IsLinked, delete_subscription-IsLinked,
  create_bridge_actor_follow-IsLinked, delete_bridge_actor_follow-IsLinked, absent-Unused,
}

then_call-IsLinked :
    (r : Result RemoteStore) (s : RemoteStore) (next : RemoteStore → Outcome × RemoteStore)
    → IsLinked s
    → ((t : RemoteStore) → r ≡ ok t → IsLinked (next t).1)
    → IsLinked (then_call r s next).1
then_call-IsLinked (raised e) s next h k = h
then_call-IsLinked (ok t) s next h k = k t refl

-- what an operation leaves before the gateway is called
abbrev BegunLinked : Begun (Unit {0}) → Type 0
BegunLinked (done o s) = IsLinked s
BegunLinked (awaits a s) = IsLinked s

finished-IsLinked : (p : Outcome × RemoteStore) → IsLinked p.1 → BegunLinked (finished p)
finished-IsLinked (o, s) h = h

without_failed-IsLinked :
    (channel : ℕ) (sub : Option Subscription) (s : RemoteStore)
    → IsLinked s
    → IsLinked (without_failed channel sub s)
without_failed-IsLinked channel sub s h = elim (Bool-cases (is_failed sub)) [
  | inl e ↦ rw e (delete_subscription-IsLinked channel s h)
  | inr e ↦ rw e h
]

without_failed-follows :
    (channel : ℕ) (sub : Option Subscription) (s : RemoteStore)
    → (without_failed channel sub s).follows ≡ s.follows
unfolding delete_subscription
without_failed-follows channel sub s = elim (Bool-cases (is_failed sub)) [
  | inl e ↦ rw e refl
  | inr e ↦ rw e refl
]

ask-IsLinked : (allowed : Bool) (s : RemoteStore) → IsLinked s → BegunLinked (ask allowed s)
ask-IsLinked true s h = h
ask-IsLinked false s h = h

-- the row of a channel that joins a Follow has the status of the Follow
share-IsLinked :
    (now : ℕ) (i : SubscribeInput) (f : Follow) (s : RemoteStore)
    → IsLinked s
    → follow_status i.actor_id s.follows ≡ some f.status
    → BegunLinked (share now i f s)
share-IsLinked now i f s h st =
    let row =
      row_for i i.actor_id f.community_inbox_url f.follow_activity_id (some i.discord_user_id)
        f.status in
    finished-IsLinked (then_call (create_subscription now row s) s (λ t. (applied, t))) (
      then_call-IsLinked (create_subscription now row s) s (λ t. (applied, t)) h
        (λ t made.
          create_subscription-IsLinked now row s t h
            (λ a. ground (arith, st, a), λ a. ground (arith, st, a)) made))

begin_with-IsLinked :
    (now : ℕ) (allowed : Bool) (i : SubscribeInput) (f : Option Follow) (s : RemoteStore)
    → IsLinked s
    → find (follows_community i.actor_id) s.follows ≡ f
    → BegunLinked (begin_with now allowed i f s)
unfolding begin_with
begin_with-IsLinked now allowed i none s h found = ask-IsLinked allowed s h
begin_with-IsLinked now allowed i (some f) s h found =
    let st : follow_status i.actor_id s.follows ≡ some f.status = ap status_of found in
    elim (Bool-cases (f.status == failed)) [
      | inl e ↦ rw e (
          ask-IsLinked allowed _ (
            delete_bridge_actor_follow-IsLinked i.actor_id s h (
              absent-Unused i.actor_id s h (λ p. ground (arith, p, st, e))
                (λ p. ground (arith, p, st, e)))))
      | inr e ↦ rw e (share-IsLinked now i f s h st)
    ]

begin_subscribe-IsLinked :
    (now : ℕ) (allowed : Bool) (i : SubscribeInput) (s : RemoteStore)
    → IsLinked s
    → BegunLinked (begin_subscribe now allowed i s)
unfolding begin_subscribe get_bridge_actor_follow
begin_subscribe-IsLinked now allowed i s h =
    let sub = get_subscription_by_channel i.channel_id s.subscriptions in
    begin_with-IsLinked now allowed i (find (follows_community i.actor_id) s.follows)
      (without_failed i.channel_id sub s) (without_failed-IsLinked i.channel_id sub s h)
      (ap (find (follows_community i.actor_id)) (without_failed-follows i.channel_id sub s))

subscribe_begin-IsLinked :
    (now : ℕ) (registered allowed : Bool) (i : SubscribeInput) (s : RemoteStore)
    → IsLinked s
    → BegunLinked (subscribe_begin now registered allowed i s)
unfolding subscribe_begin
subscribe_begin-IsLinked now false allowed i s h = h
subscribe_begin-IsLinked now true allowed i s h =
    let existing = get_subscription_by_channel i.channel_id s.subscriptions in
    elim (Bool-cases (has_no_subscription accepted existing)) [
      | inl e ↦ elim (Bool-cases (has_no_subscription pending existing)) [
        | inl k ↦ rw e (rw k (begin_subscribe-IsLinked now allowed i s h))
        | inr k ↦ rw e (rw k h)
      ]
      | inr e ↦ rw e h
    ]

subscribe_finish-IsLinked :
    (now : ℕ) (i : SubscribeInput) (answer : Option FollowResult) (s : RemoteStore)
    → IsLinked s
    → IsLinked (subscribe_finish now i answer s).1
unfolding subscribe_finish
subscribe_finish-IsLinked now i none s h = then_call-IsLinked _ s _ h (λ t made.
    let (l, st, same) =
      create_bridge_actor_follow-IsLinked now i.actor_id none none failed s t h made in
    then_call-IsLinked _ t _ l (λ u added.
      create_subscription-IsLinked now (row_for i i.actor_id none none none failed) t u l
        (λ a. ground (arith, a), λ a. ground (arith, a)) added))
subscribe_finish-IsLinked now i (some r) s h = then_call-IsLinked _ s _ h (λ t made.
    let (l, st, same) =
      create_bridge_actor_follow-IsLinked now r.community_actor_url (some r.follow_activity_id)
        (some r.community_inbox_url) pending s t h made in
    then_call-IsLinked _ t _ l (λ u added.
      create_subscription-IsLinked now
        (row_for i r.community_actor_url (some r.community_inbox_url) (some r.follow_activity_id)
          (some i.discord_user_id) pending)
        t u l (λ a. ground (arith, a), λ a. st) added))

resume-IsLinked :
    (next : RemoteStore → Outcome × RemoteStore) (b : Begun (Unit {0}))
    → ((t : RemoteStore) → IsLinked t → IsLinked (next t).1)
    → BegunLinked b
    → IsLinked (resume next b).1
resume-IsLinked next (done o s) k h = h
resume-IsLinked next (awaits a s) k h = k s h

pub subscribe-IsLinked :
    (now : ℕ) (registered allowed : Bool) (answer : Option FollowResult) (i : SubscribeInput)
    (s : RemoteStore)
    → IsLinked s
    → IsLinked (subscribe now registered allowed answer i s).1
unfolding subscribe
subscribe-IsLinked now registered allowed answer i s h =
    resume-IsLinked (subscribe_finish now i answer) (subscribe_begin now registered allowed i s)
      (λ t l. subscribe_finish-IsLinked now i answer t l)
      (subscribe_begin-IsLinked now registered allowed i s h)

-- an unsubscribe that awaits the gateway has left no channel of the community
abbrev BegunUndo : Begun Undo → Type 0
BegunUndo (done o s) = IsLinked s
BegunUndo (awaits u s) = IsLinked s × Unused u.community s

begin_last-IsLinked :
    (allowed : Bool) (channel : ℕ) (community : String) (activity : Option String) (s : RemoteStore)
    → IsLinked s
    → Unused community (delete_subscription channel s).1
    → BegunUndo (begin_last allowed channel community activity s)
begin_last-IsLinked allowed channel community none s h u = h
begin_last-IsLinked true channel community (some activity) s h u =
    (delete_subscription-IsLinked channel s h, u)
begin_last-IsLinked false channel community (some activity) s h u =
    delete_subscription-IsLinked channel s h

last-Unused :
    (channel : ℕ) (s : RemoteStore) (sub : Subscription)
    → find (in_channel channel) s.subscriptions ≡ some sub
    → length (filter (of_community sub.lemmy_community_actor_id) s.subscriptions) ≤ 1
    → Unused sub.lemmy_community_actor_id (delete_subscription channel s).1
unfolding delete_subscription
last-Unused channel s sub found few x m live e =
    let gone =
      delete_first-last (in_channel channel) (of_community sub.lemmy_community_actor_id)
        s.subscriptions sub few found (ground arith) in
    let miss =
      any-false (of_community sub.lemmy_community_actor_id)
        (delete_first (in_channel channel) s.subscriptions) x gone m in
    ground (arith, miss, e)

begin_unsubscribe-IsLinked :
    (allowed : Bool) (channel : ℕ) (sub : Option Subscription) (s : RemoteStore)
    → IsLinked s
    → find (in_channel channel) s.subscriptions ≡ sub
    → BegunUndo (begin_unsubscribe allowed channel sub s)
unfolding begin_unsubscribe count_subscriptions_for_community
begin_unsubscribe-IsLinked allowed channel none s h found = h
begin_unsubscribe-IsLinked allowed channel (some sub) s h found =
    let community = sub.lemmy_community_actor_id in
    elim (Bool-cases (leb (length (filter (of_community community) s.subscriptions)) 1)) [
      | inl e ↦ rw e (
          begin_last-IsLinked allowed channel community
            (undo_of (get_bridge_actor_follow community s.follows)) s h
            (last-Unused channel s sub found (ground (arith, e))))
      | inr e ↦ rw e (delete_subscription-IsLinked channel s h)
    ]

resume_undo-IsLinked :
    (answer : Bool) (b : Begun Undo) → BegunUndo b → IsLinked (resume_undo answer b).1
unfolding unsubscribe_finish
resume_undo-IsLinked answer (done o s) h = h
resume_undo-IsLinked true (awaits u s) h = delete_bridge_actor_follow-IsLinked u.community s h.0 h.1
resume_undo-IsLinked false (awaits u s) h = h.0

pub unsubscribe-IsLinked :
    (allowed answer : Bool) (channel : ℕ) (s : RemoteStore)
    → IsLinked s
    → IsLinked (unsubscribe allowed answer channel s).1
unfolding unsubscribe unsubscribe_begin get_subscription_by_channel
unsubscribe-IsLinked allowed answer channel s h = resume_undo-IsLinked answer _ (
    begin_unsubscribe-IsLinked allowed channel (find (in_channel channel) s.subscriptions) s h refl)
