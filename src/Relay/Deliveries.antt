-- ===== src/Relay/Deliveries.antt =====
-- src/db/repositories/local_community_relay.py: the activities that are relayed and their targets.
use discord_fediverse_bridge.Base.{
  ℕ, ◌+◌, String, Bool, ◌&&◌, Option, none, some, text_or, List, [], ◌∷◌, ◌++◌, ◌==◌, nat_eq,
  string_eq, Eq, filter, any, find, sort_by, leb, if◌then◌else◌,
}
use discord_fediverse_bridge.Base.Table.{update_where, next_id}

pub data Operation : Type 0 where
  create update delete : Operation

pub data RelayStatus : Type 0 where
  pending delivered failed : RelayStatus

Operation-discrete : Discrete Operation
Operation-discrete = hlevel

RelayStatus-discrete : Discrete RelayStatus
RelayStatus-discrete = hlevel

instance unfoldable pub operation_eq : Eq Operation
unfolding Operation-discrete
operation_eq = record { dec = Operation-discrete }

instance unfoldable pub relay_status_eq : Eq RelayStatus
unfolding RelayStatus-discrete
relay_status_eq = record { dec = RelayStatus-discrete }

-- `LocalCommunityRelaySourceActivity`
pub record RelaySource : Type 0 where
  pub id : ℕ
  pub local_community_id : ℕ
  pub object_kind : String
  pub operation : Operation
  pub source_object_ap_id : String
  pub source_activity_id : String
  pub source_announce_id : Option String
  pub origin_remote_actor_id : String
  pub source_activity_json : String
  pub created_at : ℕ

-- the columns that a new source is given
pub record NewSource : Type 0 where
  pub local_community_id : ℕ
  pub object_kind : String
  pub operation : Operation
  pub source_object_ap_id : String
  pub source_activity_id : String
  pub source_announce_id : Option String
  pub origin_remote_actor_id : String
  pub source_activity_json : String

-- `LocalCommunityRelayDelivery`
pub record RelayDelivery : Type 0 where
  pub id : ℕ
  pub source_activity_row_id : ℕ
  pub local_community_id : ℕ
  pub object_kind : String
  pub operation : Operation
  pub source_object_ap_id : String
  pub source_activity_id : String
  pub origin_remote_actor_id : String
  pub target_remote_actor_id : String
  pub target_inbox_url : String
  pub delivery_profile : String
  pub relay_activity_id : Option String
  pub status : RelayStatus
  pub attempt_count : ℕ
  pub last_attempted_at : Option ℕ
  pub last_error : Option String
  pub created_at : ℕ
  pub updated_at : ℕ

pub record Target : Type 0 where
  pub remote_actor_id : String
  pub remote_inbox_url : String
  pub delivery_profile : String

abbrev pub is_source : ℕ → Operation → String → String → RelaySource → Bool
is_source community op object activity x =
    x.local_community_id == community
    && x.operation == op
    && x.source_object_ap_id == object
    && x.source_activity_id == activity

unfoldable pub get_local_community_relay_source_activity :
    ℕ → Operation → String → String → List RelaySource → Option RelaySource
get_local_community_relay_source_activity community op object activity sources =
    find (is_source community op object activity) sources

abbrev pub new_relay_source : ℕ → ℕ → NewSource → RelaySource
new_relay_source now id n = record {
  id = id;
  local_community_id = n.local_community_id;
  object_kind = n.object_kind;
  operation = n.operation;
  source_object_ap_id = n.source_object_ap_id;
  source_activity_id = n.source_activity_id;
  source_announce_id = n.source_announce_id;
  origin_remote_actor_id = n.origin_remote_actor_id;
  source_activity_json = n.source_activity_json;
  created_at = now;
}

abbrev or_new_source :
    ℕ → NewSource → Option RelaySource → List RelaySource → RelaySource × List RelaySource
or_new_source now n (some x) sources = (x, sources)
or_new_source now n none sources =
    let row = new_relay_source now (next_id (λ (r : RelaySource). r.id) sources) n in
    (row, sources ++ row ∷ [])

unfoldable pub get_or_create_local_community_relay_source_activity :
    ℕ → NewSource → List RelaySource → RelaySource × List RelaySource
get_or_create_local_community_relay_source_activity now n sources =
    or_new_source now n
      (find (is_source n.local_community_id n.operation n.source_object_ap_id n.source_activity_id)
        sources)
      sources

abbrev pub of_source : ℕ → RelayDelivery → Bool
of_source source d = d.source_activity_row_id == source

abbrev pub of_target : ℕ → String → RelayDelivery → Bool
of_target source actor d = of_source source d && d.target_remote_actor_id == actor

abbrev by_creation_id : RelayDelivery → RelayDelivery → Bool
by_creation_id a b =
    if a.created_at == b.created_at then leb a.id b.id else leb a.created_at b.created_at

unfoldable pub list_local_community_relay_deliveries_for_source :
    ℕ → List RelayDelivery → List RelayDelivery
list_local_community_relay_deliveries_for_source source deliveries =
    sort_by by_creation_id (filter (of_source source) deliveries)

abbrev pub new_relay_delivery : ℕ → ℕ → RelaySource → Target → RelayDelivery
new_relay_delivery now id x t = record {
  id = id;
  source_activity_row_id = x.id;
  local_community_id = x.local_community_id;
  object_kind = x.object_kind;
  operation = x.operation;
  source_object_ap_id = x.source_object_ap_id;
  source_activity_id = x.source_activity_id;
  origin_remote_actor_id = x.origin_remote_actor_id;
  target_remote_actor_id = t.remote_actor_id;
  target_inbox_url = t.remote_inbox_url;
  delivery_profile = t.delivery_profile;
  relay_activity_id = none;
  status = pending;
  attempt_count = 0;
  last_attempted_at = none;
  last_error = none;
  created_at = now;
  updated_at = now;
}

-- A target of the source, unless `by_actor` has it.
abbrev pub add_target : ℕ → RelaySource → Target → List RelayDelivery → List RelayDelivery
add_target now x t deliveries =
    if any (of_target x.id t.remote_actor_id) deliveries
    then deliveries
    else deliveries
      ++ new_relay_delivery now (next_id (λ (r : RelayDelivery). r.id) deliveries) x t ∷ []

unfoldable pub add_targets : ℕ → RelaySource → List Target → List RelayDelivery → List RelayDelivery
add_targets now x [] deliveries = deliveries
add_targets now x (t ∷ ts) deliveries = add_targets now x ts (add_target now x t deliveries)

-- The rows that `by_actor` has at the end: all rows of the source, the new ones last. A source has one
-- row for a target, by the UNIQUE constraint.
unfoldable pub create_missing_local_community_relay_deliveries :
    ℕ → RelaySource → List Target → List RelayDelivery → List RelayDelivery × List RelayDelivery
create_missing_local_community_relay_deliveries now x targets deliveries =
    let after = add_targets now x targets deliveries in (filter (of_source x.id) after, after)

abbrev pub is_delivered_create : ℕ → String → RelayDelivery → Bool
is_delivered_create community object d =
    d.local_community_id == community
    && d.operation == create
    && d.source_object_ap_id == object
    && d.status == delivered

unfoldable pub list_delivered_local_community_create_relay_targets :
    ℕ → String → List RelayDelivery → List RelayDelivery
list_delivered_local_community_create_relay_targets community object deliveries =
    sort_by by_creation_id (filter (is_delivered_create community object) deliveries)

abbrev pub with_result :
    ℕ → RelayStatus → Option String → Option String → RelayDelivery → RelayDelivery
with_result now st activity error d = record d {
  status = st;
  relay_activity_id = text_or activity d.relay_activity_id;
  last_error = error;
  last_attempted_at = some now;
  attempt_count = d.attempt_count + 1;
  updated_at = now;
}

-- a delivery that is not there is left alone
unfoldable pub mark_local_community_relay_delivery_result :
    ℕ → ℕ → RelayStatus → Option String → Option String → List RelayDelivery → List RelayDelivery
mark_local_community_relay_delivery_result now id st activity error deliveries =
    update_where (λ (d : RelayDelivery). d.id == id) (with_result now st activity error) deliveries
