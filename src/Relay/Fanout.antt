-- ===== src/Relay/Fanout.antt =====
-- src/local_communities/federation_fanout.py: `LocalCommunityFederationFanout`. The policy, the
-- renderer and the gateway are arguments.
use discord_fediverse_bridge.Base.{
  ℕ, String, Bool, ◌&&◌, ◌||◌, not, Option, none, some, List, [], ◌∷◌, ◌==◌, ◌!=◌, nat_eq,
  string_eq, filter, map, find, contains, length, if◌then◌else◌, Result, ok, raised,
}
use discord_fediverse_bridge.Relay.Subscribers.{RemoteSubscriber, accepted, list_remote_subscribers}
use discord_fediverse_bridge.Relay.Deliveries.{
  Operation, create, pending, delivered, failed, relay_status_eq, RelaySource, NewSource,
  RelayDelivery, Target, get_or_create_local_community_relay_source_activity,
  create_missing_local_community_relay_deliveries,
  list_delivered_local_community_create_relay_targets, mark_local_community_relay_delivery_result,
}

pub record RelayStore : Type 0 where
  pub subscribers : List RemoteSubscriber
  pub sources : List RelaySource
  pub deliveries : List RelayDelivery

-- what the fanout reads of an event; a text of JSON stands for its value
pub record InboundEvent : Type 0 where
  pub actor_id : String
  pub delivery_id : String
  pub object_ap_id : String
  pub source_activity_id : Option String
  pub source_announce_id : Option String
  pub source_activity_json : Option String

-- the columns of `LocalCommunity` that the fanout reads
pub record LocalCommunity : Type 0 where
  pub id : ℕ
  pub actor_url : String
  pub slug : String

-- `SendLocalCommunityRelayDelivery`
pub record Outbound : Type 0 where
  pub delivery_id : ℕ
  pub target_remote_actor_id : String
  pub target_inbox_url : String
  pub activity_json : String

-- one outcome of the gateway
pub record RelayOutcome : Type 0 where
  pub delivery_id : ℕ
  pub ok : Bool
  pub activity_id : Option String
  pub error : Option String

pub record RelayFanoutSummary : Type 0 where
  pub attempted : ℕ
  pub delivered : ℕ
  pub failed : ℕ

-- `render_local_community_relay_activity`, of the source's JSON, the event, the actor URL and the slug
-- of the community, the profile and the kind
pub record World : Type 0 where
  pub federation_allowed : String → Bool
  pub render : String → InboundEvent → String → String → String → String → String
  pub send_local_community_relay : String → List Outbound → Result (List RelayOutcome)

abbrev default_profile : String
default_profile = "threadiverse_group"

-- `a or b`, for texts
abbrev first_text : String → String → String
first_text a b = if a == "" then b else a

abbrev pub is_permitted : (String → Bool) → Target → Bool
is_permitted allowed t = allowed (first_text t.remote_inbox_url t.remote_actor_id)

-- the JSON of an event that can be relayed
abbrev pub relayable_json : Option String → Option String
relayable_json none = none
relayable_json (some text) = if text == "" || text == "{}" then none else some text

abbrev pub activity_of : InboundEvent → String
activity_of e = elim e.source_activity_id [
  | none ↦ e.delivery_id
  | some activity ↦ first_text activity e.delivery_id
]

abbrev pub source_values : InboundEvent → LocalCommunity → String → Operation → String → NewSource
source_values e c kind op json = record {
  local_community_id = c.id;
  object_kind = kind;
  operation = op;
  source_object_ap_id = e.object_ap_id;
  source_activity_id = activity_of e;
  source_announce_id = e.source_announce_id;
  origin_remote_actor_id = e.actor_id;
  source_activity_json = json;
}

abbrev pub is_open : List String → RelayDelivery → Bool
is_open actors d =
    (d.status == pending || d.status == failed) && contains actors d.target_remote_actor_id

abbrev pub outbound_of : World → InboundEvent → LocalCommunity → String → RelayDelivery → Outbound
outbound_of w e c json d = record {
  delivery_id = d.id;
  target_remote_actor_id = d.target_remote_actor_id;
  target_inbox_url = d.target_inbox_url;
  activity_json = w.render json e c.actor_url c.slug d.delivery_profile d.object_kind;
}

-- what is handed to the gateway, and the store by then
unfoldable pub plan_with :
    World
    → ℕ
    → InboundEvent
    → LocalCommunity
    → String
    → Operation
    → List Target
    → Option String
    → RelayStore
    → List Outbound × RelayStore
plan_with w now e c kind op targets none s = ([], s)
plan_with w now e c kind op targets (some json) s =
    let (source, sources) =
      get_or_create_local_community_relay_source_activity now (source_values e c kind op json)
        s.sources in
    let (rows, deliveries) =
      create_missing_local_community_relay_deliveries now source targets s.deliveries in
    (
      map (outbound_of w e c source.source_activity_json)
          (filter (is_open (map (λ (t : Target). t.remote_actor_id) targets)) rows),
      record s { sources = sources; deliveries = deliveries },
    )

unfoldable pub plan :
    World
    → ℕ
    → InboundEvent
    → LocalCommunity
    → String
    → Operation
    → List Target
    → RelayStore
    → List Outbound × RelayStore
unfolding plan_with
plan w now e c kind op targets s =
    plan_with w now e c kind op (filter (is_permitted w.federation_allowed) targets)
      (relayable_json e.source_activity_json) s

abbrev pub record_relay_outcome : ℕ → RelayOutcome → List RelayDelivery → List RelayDelivery
record_relay_outcome now o deliveries =
    mark_local_community_relay_delivery_result now o.delivery_id
      (if o.ok then delivered else failed) o.activity_id (if o.ok then none else o.error) deliveries

unfoldable pub record_outcomes : ℕ → List RelayOutcome → List RelayDelivery → List RelayDelivery
record_outcomes now [] deliveries = deliveries
record_outcomes now (o ∷ os) deliveries =
    record_outcomes now os (record_relay_outcome now o deliveries)

abbrev summary_of : List Outbound → List RelayOutcome → RelayFanoutSummary
summary_of outbound outcomes = record {
  attempted = length outbound;
  delivered = length (filter (λ (o : RelayOutcome). o.ok) outcomes);
  failed = length (filter (λ (o : RelayOutcome). not o.ok) outcomes);
}

-- the gateway raises to the caller; the rows are kept
unfoldable pub send :
    World → ℕ → LocalCommunity → List Outbound → RelayStore → Result RelayFanoutSummary × RelayStore
unfolding record_outcomes
send w now c [] s = (ok (record { attempted = 0; delivered = 0; failed = 0 }), s)
send w now c (o ∷ os) s = elim (w.send_local_community_relay c.actor_url (o ∷ os)) [
  | raised e ↦ (raised e, s)
  | ok outcomes ↦ (
    ok (summary_of (o ∷ os) outcomes),
    record s { deliveries = record_outcomes now outcomes s.deliveries },
  )
]

-- `_relay_to_targets`
unfoldable pub relay_to_targets :
    World
    → ℕ
    → InboundEvent
    → LocalCommunity
    → String
    → Operation
    → List Target
    → RelayStore
    → Result RelayFanoutSummary × RelayStore
unfolding plan send
relay_to_targets w now e c kind op targets s =
    let (outbound, t) = plan w now e c kind op targets s in send w now c outbound t

abbrev pub target_of : RemoteSubscriber → Target
target_of r = record {
  remote_actor_id = r.remote_actor_id;
  remote_inbox_url = r.remote_inbox_url;
  delivery_profile = default_profile;
}

-- every accepted subscriber but the author
unfoldable pub create_targets : InboundEvent → LocalCommunity → RelayStore → List Target
create_targets e c s = map target_of (
    filter (λ (r : RemoteSubscriber). r.remote_actor_id != e.actor_id)
      (list_remote_subscribers c.id (some accepted) s.subscribers))

unfoldable pub relay_create :
    World
    → ℕ
    → InboundEvent
    → LocalCommunity
    → String
    → RelayStore
    → Result RelayFanoutSummary × RelayStore
unfolding relay_to_targets create_targets
relay_create w now e c kind s = relay_to_targets w now e c kind create (create_targets e c s) s

-- the dictionary of accepted subscribers by actor
abbrev pub subscriber_of : List RemoteSubscriber → String → Option RemoteSubscriber
subscriber_of rows actor = find (λ (r : RemoteSubscriber). r.remote_actor_id == actor) rows

abbrev pub add_current : Option RemoteSubscriber → List Target → List Target
add_current none targets = targets
add_current (some r) targets = target_of r ∷ targets

unfoldable pub current_targets : List RemoteSubscriber → List RelayDelivery → List Target
current_targets rows [] = []
current_targets rows (d ∷ ds) =
    add_current (subscriber_of rows d.target_remote_actor_id) (current_targets rows ds)

-- the accepted subscribers that got the Create
unfoldable pub mutation_targets : InboundEvent → LocalCommunity → RelayStore → List Target
unfolding current_targets
mutation_targets e c s =
    current_targets (list_remote_subscribers c.id (some accepted) s.subscribers)
      (list_delivered_local_community_create_relay_targets c.id e.object_ap_id s.deliveries)

unfoldable pub relay_update_or_delete :
    World
    → ℕ
    → InboundEvent
    → LocalCommunity
    → String
    → Operation
    → RelayStore
    → Result RelayFanoutSummary × RelayStore
unfolding relay_to_targets mutation_targets
relay_update_or_delete w now e c kind op s =
    relay_to_targets w now e c kind op (mutation_targets e c s) s
