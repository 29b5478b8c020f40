-- ===== src/Remote/Operations.antt =====
-- src/operations/subscribe.py and unsubscribe.py, and the handler of an Accept in
-- src/activitypub_handlers.py. The gateway is called between `begin` and `finish`: whatever other
-- commands do while its answer is awaited happens there.
use discord_fediverse_bridge.Base.{
  ℕ, String, Bool, true, false, not, Option, none, some, ◌==◌, ◌!=◌, leb, nat_eq, string_eq,
  option_eq, if◌then◌else◌, length, Result, ok, raised, Error, ◌>>=◌,
}
use discord_fediverse_bridge.Remote.{
  FollowStatus, pending, accepted, failed, follow_status_eq, Follow, Subscription, NewSubscription,
  RemoteStore, get_subscription_by_channel, create_subscription, delete_subscription,
  count_subscriptions_for_community, get_bridge_actor_follow,
  get_bridge_actor_follow_by_follow_activity_id, create_bridge_actor_follow,
  delete_bridge_actor_follow, mark_bridge_actor_follow_accepted,
  get_pending_channel_subscriptions_for_community,
}

-- The fields of `SubscribeInput` that the tables get.
pub record SubscribeInput : Type 0 where
  pub discord_user_id : String
  pub channel_id : ℕ
  pub actor_id : String
  pub community_name : Option String
  pub numeric_id : Option ℕ
  pub community_handle : String
  pub guild_id : Option ℕ

-- what the gateway answers to `follow_community`
pub record FollowResult : Type 0 where
  pub community_actor_url : String
  pub follow_activity_id : String
  pub community_inbox_url : String

-- `OperationResult`, or the exception of a call of the tables
pub data Outcome : Type 0 where
  applied : Outcome
  applied_with : String → Outcome
  rejected : String → Outcome
  error : Error → Outcome

-- `_has_no_accepted_channel_subscription` and `_has_no_pending_channel_subscription`
abbrev pub has_no_subscription : FollowStatus → Option Subscription → Bool
has_no_subscription st none = true
has_no_subscription st (some sub) = sub.status != st

abbrev pub is_failed : Option Subscription → Bool
is_failed none = false
is_failed (some sub) = sub.status == failed

-- the values of the row for the channel
abbrev pub row_for :
    SubscribeInput
    → String
    → Option String
    → Option String
    → Option String
    → FollowStatus
    → NewSubscription
row_for i community inbox activity user st = record {
  discord_channel_id = i.channel_id;
  discord_guild_id = i.guild_id;
  lemmy_community_actor_id = community;
  lemmy_community_name = i.community_name;
  lemmy_community_id = i.numeric_id;
  community_handle = some i.community_handle;
  community_inbox_url = inbox;
  follow_activity_id = activity;
  initiated_by_discord_user_id = user;
  status = st;
}

-- a call of the tables, each in a transaction of its own, and what follows it
abbrev pub then_call :
    Result RemoteStore → RemoteStore → (RemoteStore → Outcome × RemoteStore) → Outcome × RemoteStore
then_call (raised e) s next = (error e, s)
then_call (ok t) s next = next t

-- what the first part of an operation comes to
pub data Begun (A : Type 0) : Type 0 where
  done : Outcome → RemoteStore → Begun A
  awaits : A → RemoteStore → Begun A

abbrev pub finished : Outcome × RemoteStore → Begun (Unit {0})
finished (o, s) = done o s

-- a stale failed row of the channel goes first
abbrev pub without_failed : ℕ → Option Subscription → RemoteStore → RemoteStore
without_failed channel sub s = if is_failed sub then (delete_subscription channel s).1 else s

abbrev pub share : ℕ → SubscribeInput → Follow → RemoteStore → Begun (Unit {0})
share now i f s = finished (
    then_call
      (create_subscription now
        (row_for i i.actor_id f.community_inbox_url f.follow_activity_id (some i.discord_user_id)
          f.status)
        s)
      s (λ t. (applied, t)))

-- the decision of the policy on a fresh Follow
abbrev pub ask : Bool → RemoteStore → Begun (Unit {0})
ask true s = awaits tt s
ask false s = done (rejected "federation_policy_denied") s

unfoldable pub begin_with :
    ℕ → Bool → SubscribeInput → Option Follow → RemoteStore → Begun (Unit {0})
begin_with now allowed i none s = ask allowed s
begin_with now allowed i (some f) s =
    if f.status == failed
    then ask allowed (delete_bridge_actor_follow i.actor_id s).1
    else share now i f s

-- `_body` of subscribe up to the call of `follow_community`
unfoldable pub begin_subscribe : ℕ → Bool → SubscribeInput → RemoteStore → Begun (Unit {0})
begin_subscribe now allowed i s =
    begin_with now allowed i (get_bridge_actor_follow i.actor_id s.follows)
      (without_failed i.channel_id (get_subscription_by_channel i.channel_id s.subscriptions) s)

-- the preconditions, and the body
unfoldable pub subscribe_begin : ℕ → Bool → Bool → SubscribeInput → RemoteStore → Begun (Unit {0})
subscribe_begin now registered allowed i s =
    let existing = get_subscription_by_channel i.channel_id s.subscriptions in
    if not registered
    then done (rejected "discord_user_not_registered") s
    else if not (has_no_subscription accepted existing)
    then done (rejected "channel_subscription_already_accepted") s
    else if not (has_no_subscription pending existing)
    then done (rejected "channel_subscription_already_pending") s
    else begin_subscribe now allowed i s

-- the rest, with the answer of the gateway, which is absent when it raises
unfoldable pub subscribe_finish :
    ℕ → SubscribeInput → Option FollowResult → RemoteStore → Outcome × RemoteStore
subscribe_finish now i none s =
    then_call (create_bridge_actor_follow now i.actor_id none none failed s) s (λ t.
      then_call (create_subscription now (row_for i i.actor_id none none none failed) t) t
        (λ u. (rejected "follow_dispatch_failed", u)))
subscribe_finish now i (some r) s =
    then_call
      (create_bridge_actor_follow now r.community_actor_url (some r.follow_activity_id)
        (some r.community_inbox_url) pending s)
      s
      (λ t.
        then_call
          (create_subscription now
            (row_for i r.community_actor_url (some r.community_inbox_url)
              (some r.follow_activity_id) (some i.discord_user_id) pending)
            t)
          t (λ u. (applied, u)))

-- an undisturbed run of the whole operation
abbrev pub resume : (RemoteStore → Outcome × RemoteStore) → Begun (Unit {0}) → Outcome × RemoteStore
resume next (done o s) = (o, s)
resume next (awaits u s) = next s

unfoldable pub subscribe :
    ℕ → Bool → Bool → Option FollowResult → SubscribeInput → RemoteStore → Outcome × RemoteStore
subscribe now registered allowed answer i s =
    resume (subscribe_finish now i answer) (subscribe_begin now registered allowed i s)

-- the Follow that an unsubscribe has to undo
pub record Undo : Type 0 where
  pub community : String
  pub follow_activity_id : String

abbrev pub undo_of : Option Follow → Option String
undo_of none = none
undo_of (some f) = f.follow_activity_id

-- the last channel of a community: its Follow has to be known, and is undone unless the policy denies
abbrev pub begin_last : Bool → ℕ → String → Option String → RemoteStore → Begun Undo
begin_last allowed channel community none s = done (rejected "follow_activity_id_missing") s
begin_last true channel community (some activity) s =
    awaits (record { community = community; follow_activity_id = activity })
      (delete_subscription channel s).1
begin_last false channel community (some activity) s =
    done (applied_with "remote_unfollow_skipped_by_policy") (delete_subscription channel s).1

unfoldable pub begin_unsubscribe : Bool → ℕ → Option Subscription → RemoteStore → Begun Undo
begin_unsubscribe allowed channel none s = done (rejected "channel_subscription_not_found") s
begin_unsubscribe allowed channel (some sub) s =
    let community = sub.lemmy_community_actor_id in
    if leb (count_subscriptions_for_community community s.subscriptions) 1
    then begin_last allowed channel community
        (undo_of (get_bridge_actor_follow community s.follows)) s
    else done applied (delete_subscription channel s).1

-- `_body` of unsubscribe up to the call of `unfollow_community`
unfoldable pub unsubscribe_begin : Bool → ℕ → RemoteStore → Begun Undo
unsubscribe_begin allowed channel s =
    begin_unsubscribe allowed channel (get_subscription_by_channel channel s.subscriptions) s

-- the rest; a gateway that raises is one that does not accept
unfoldable pub unsubscribe_finish : Bool → Undo → RemoteStore → Outcome × RemoteStore
unsubscribe_finish true u s = (applied, (delete_bridge_actor_follow u.community s).1)
unsubscribe_finish false u s = (rejected "remote_unfollow_failed", s)

abbrev pub resume_undo : Bool → Begun Undo → Outcome × RemoteStore
resume_undo answer (done o s) = (o, s)
resume_undo answer (awaits u s) = unsubscribe_finish answer u s

unfoldable pub unsubscribe : Bool → Bool → ℕ → RemoteStore → Outcome × RemoteStore
unsubscribe allowed answer channel s = resume_undo answer (unsubscribe_begin allowed channel s)

-- the rest of `handle_follow_accepted`, with the number of channels that are told
abbrev pub accept_with : ℕ → Option Follow → RemoteStore → Result (ℕ × RemoteStore)
accept_with now none s = ok (0, s)
accept_with now (some f) s =
    if f.status == accepted
    then ok (0, s)
    else (mark_bridge_actor_follow_accepted now f.community_actor_id s >>= λ t. ok (
      length (get_pending_channel_subscriptions_for_community f.community_actor_id s.subscriptions),
      t,
    ))

unfoldable pub handle_follow_accepted : ℕ → String → RemoteStore → Result (ℕ × RemoteStore)
handle_follow_accepted now activity s =
    accept_with now (get_bridge_actor_follow_by_follow_activity_id activity s.follows) s

-- a Follow that is pending is taken as accepted
abbrev pub promote : ℕ → String → Option Follow → RemoteStore → Result (ℕ × RemoteStore)
promote now community none s = ok (0, s)
promote now community (some f) s =
    if f.status == pending
    then (mark_bridge_actor_follow_accepted now community s >>= λ t.
        ok (length (get_pending_channel_subscriptions_for_community community s.subscriptions), t))
    else ok (0, s)

-- `_maybe_implicit_accept`, when an event of the community comes in
unfoldable pub maybe_implicit_accept : ℕ → String → RemoteStore → Result (ℕ × RemoteStore)
maybe_implicit_accept now community s =
    promote now community (get_bridge_actor_follow community s.follows) s
