-- ===== src/Relay/Subscribers.antt =====
-- src/db/repositories/remote_subscribers.py: the remote actors that follow a local community.
use discord_fediverse_bridge.Base.{
  ℕ, String, Bool, true, false, ◌&&◌, ◌||◌, not, Option, none, some, List, [], ◌∷◌, ◌++◌, map, ◌==◌,
  ◌!=◌, nat_eq, string_eq, Eq, filter, any, find, length, take, drop, sort_by, leb, if◌then◌else◌,
  Result, ok, raised, value_error, integrity_error,
}
use discord_fediverse_bridge.Base.Table.{update_where, delete_first, next_id}

pub data SubscriberStatus : Type 0 where
  pending accepted : SubscriberStatus

SubscriberStatus-discrete : Discrete SubscriberStatus
SubscriberStatus-discrete = hlevel

instance unfoldable pub subscriber_status_eq : Eq SubscriberStatus
unfolding SubscriberStatus-discrete
subscriber_status_eq = record { dec = SubscriberStatus-discrete }

pub record RemoteSubscriber : Type 0 where
  pub id : ℕ
  pub local_community_id : ℕ
  pub remote_actor_id : String
  pub remote_inbox_url : String
  pub follow_activity_id : String
  pub status : SubscriberStatus
  pub created_at : ℕ
  pub updated_at : ℕ

abbrev pub is_relation : ℕ → String → RemoteSubscriber → Bool
is_relation community actor r = r.local_community_id == community && r.remote_actor_id == actor

abbrev pub has_follow : String → RemoteSubscriber → Bool
has_follow activity r = r.follow_activity_id == activity

abbrev pub new_subscriber :
    ℕ → ℕ → ℕ → String → String → String → SubscriberStatus → RemoteSubscriber
new_subscriber now id community actor inbox activity st = record {
  id = id;
  local_community_id = community;
  remote_actor_id = actor;
  remote_inbox_url = inbox;
  follow_activity_id = activity;
  status = st;
  created_at = now;
  updated_at = now;
}

-- the two UNIQUE constraints
unfoldable pub create_remote_subscriber :
    ℕ
    → ℕ
    → String
    → String
    → String
    → SubscriberStatus
    → List RemoteSubscriber
    → Result (RemoteSubscriber × List RemoteSubscriber)
create_remote_subscriber now community actor inbox activity st rows =
    let row =
      new_subscriber now (next_id (λ (r : RemoteSubscriber). r.id) rows) community actor inbox
        activity st in
    if any (is_relation community actor) rows || any (has_follow activity) rows
    then raised integrity_error
    else ok (row, rows ++ row ∷ [])

abbrev pub refreshed_row :
    ℕ → String → String → SubscriberStatus → RemoteSubscriber → RemoteSubscriber
refreshed_row now inbox activity st r = record r {
  remote_inbox_url = inbox;
  follow_activity_id = activity;
  status = st;
  updated_at = now;
}

-- another row has the Follow
abbrev pub clashes : ℕ → String → RemoteSubscriber → Bool
clashes id activity r = has_follow activity r && r.id != id

-- an UPDATE of the row, which the constraint on Follow ids may refuse
unfoldable pub refresh :
    ℕ
    → String
    → String
    → SubscriberStatus
    → RemoteSubscriber
    → List RemoteSubscriber
    → Result (RemoteSubscriber × List RemoteSubscriber)
refresh now inbox activity st r rows =
    if any (clashes r.id activity) rows
    then raised integrity_error
    else ok (
      refreshed_row now inbox activity st r,
      update_where (λ (x : RemoteSubscriber). x.id == r.id) (refreshed_row now inbox activity st)
          rows,
    )

pub data TransitionKind : Type 0 where
  created refreshed : TransitionKind

pub record Transition : Type 0 where
  pub remote_subscriber_id : ℕ
  pub transition : TransitionKind

-- the Follow id belongs to another relationship
abbrev pub is_owned_elsewhere : ℕ → String → Option RemoteSubscriber → Bool
is_owned_elsewhere community actor none = false
is_owned_elsewhere community actor (some o) = not (is_relation community actor o)

abbrev pub with_transition :
    TransitionKind
    → Result (RemoteSubscriber × List RemoteSubscriber)
    → Result (Transition × List RemoteSubscriber)
with_transition kind (raised e) = raised e
with_transition kind (ok (r, rows)) =
    ok (record { remote_subscriber_id = r.id; transition = kind }, rows)

abbrev pub write_accepted :
    ℕ
    → ℕ
    → String
    → String
    → String
    → Option RemoteSubscriber
    → List RemoteSubscriber
    → Result (Transition × List RemoteSubscriber)
write_accepted now community actor inbox activity none rows =
    with_transition created
      (create_remote_subscriber now community actor inbox activity accepted rows)
write_accepted now community actor inbox activity (some r) rows =
    with_transition refreshed (refresh now inbox activity accepted r rows)

unfoldable pub get_remote_subscriber : ℕ → String → List RemoteSubscriber → Option RemoteSubscriber
get_remote_subscriber community actor rows = find (is_relation community actor) rows

unfoldable pub get_remote_subscriber_by_follow_activity_id :
    String → List RemoteSubscriber → Option RemoteSubscriber
get_remote_subscriber_by_follow_activity_id activity rows = find (has_follow activity) rows

-- `FollowActivityIdCollision` is a `ValueError`
unfoldable pub create_or_refresh_accepted :
    ℕ
    → ℕ
    → String
    → String
    → String
    → List RemoteSubscriber
    → Result (Transition × List RemoteSubscriber)
create_or_refresh_accepted now community actor inbox activity rows =
    if is_owned_elsewhere community actor (find (has_follow activity) rows)
    then raised value_error
    else write_accepted now community actor inbox activity (find (is_relation community actor) rows)
        rows

abbrev refresh_found :
    ℕ
    → String
    → String
    → SubscriberStatus
    → Option RemoteSubscriber
    → List RemoteSubscriber
    → Result (Option RemoteSubscriber × List RemoteSubscriber)
refresh_found now inbox activity st none rows = ok (none, rows)
refresh_found now inbox activity st (some r) rows = elim (refresh now inbox activity st r rows) [
  | ok (x, t) ↦ ok (some x, t)
  | raised e ↦ raised e
]

unfoldable pub update_remote_subscriber_acceptance :
    ℕ
    → ℕ
    → String
    → String
    → String
    → SubscriberStatus
    → List RemoteSubscriber
    → Result (Option RemoteSubscriber × List RemoteSubscriber)
update_remote_subscriber_acceptance now community actor inbox activity st rows =
    refresh_found now inbox activity st (find (is_relation community actor) rows) rows

unfoldable pub delete_remote_subscriber :
    ℕ → String → List RemoteSubscriber → Bool × List RemoteSubscriber
delete_remote_subscriber community actor rows =
    (any (is_relation community actor) rows, delete_first (is_relation community actor) rows)

abbrev has_subscriber_status : Option SubscriberStatus → RemoteSubscriber → Bool
has_subscriber_status none r = true
has_subscriber_status (some st) r = r.status == st

abbrev by_creation_id : RemoteSubscriber → RemoteSubscriber → Bool
by_creation_id a b =
    if a.created_at == b.created_at then leb a.id b.id else leb a.created_at b.created_at

unfoldable pub list_remote_subscribers :
    ℕ → Option SubscriberStatus → List RemoteSubscriber → List RemoteSubscriber
list_remote_subscribers community st rows = sort_by by_creation_id (
    filter
      (λ (r : RemoteSubscriber). r.local_community_id == community && has_subscriber_status st r)
      rows)

unfoldable pub count_accepted_for_community : ℕ → List RemoteSubscriber → ℕ
count_accepted_for_community community rows = length (
    filter (λ (r : RemoteSubscriber). r.local_community_id == community && r.status == accepted)
      rows)

unfoldable pub list_accepted_actor_ids_for_community :
    ℕ → ℕ → ℕ → List RemoteSubscriber → List String
list_accepted_actor_ids_for_community community offset limit rows =
    map (λ (r : RemoteSubscriber). r.remote_actor_id)
      (take limit (drop offset (list_remote_subscribers community (some accepted) rows)))

abbrev by_community : RemoteSubscriber → RemoteSubscriber → Bool
by_community a b =
    if a.local_community_id == b.local_community_id
    then by_creation_id a b
    else leb a.local_community_id b.local_community_id

unfoldable pub list_remote_subscribers_for_all :
    Option SubscriberStatus → List RemoteSubscriber → List RemoteSubscriber
list_remote_subscribers_for_all st rows =
    sort_by by_community (filter (has_subscriber_status st) rows)
