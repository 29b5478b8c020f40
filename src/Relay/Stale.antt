-- ===== src/Relay/Stale.antt =====
-- src/local_communities/federation_fanout.py: the inbox that a delivery is tried at again.
use discord_fediverse_bridge.Base.{
  ℕ, ◌≡◌, ◌≢◌, refl, arith, String, true, some, List, [], ◌∷◌, nat_eq, string_eq, filter, map,
  map-In, filter-In, find, any, In-contains, In, In-before, Bool-cases, inl, inr,
}
use discord_fediverse_bridge.Base.Table.{next_id}
use discord_fediverse_bridge.Relay.Subscribers.{RemoteSubscriber, accepted}
use discord_fediverse_bridge.Relay.Deliveries.{
  create, failed, relay_status_eq, RelaySource, RelayDelivery, Target, of_target, of_source,
  is_source, new_relay_delivery, add_target, add_targets,
  create_missing_local_community_relay_deliveries,
  get_or_create_local_community_relay_source_activity,
}
use discord_fediverse_bridge.Relay.Fanout.{
  RelayStore, InboundEvent, LocalCommunity, Outbound, World, is_permitted, relayable_json,
  activity_of, is_open, outbound_of, plan_with, plan, target_of, create_targets,
}
use discord_fediverse_bridge.Relay.Reaches.{create_targets-has}

add_target-In :
    (now : ℕ) (x : RelaySource) (t : Target) (ds : List RelayDelivery) (d : RelayDelivery)
    → In d ds
    → In d (add_target now x t ds)
add_target-In now x t ds d m = elim (Bool-cases (any (of_target x.id t.remote_actor_id) ds)) [
  | inl e ↦ rw e m
  | inr e ↦
      rw e
        (In-before ds (new_relay_delivery now (next_id (λ (r : RelayDelivery). r.id) ds) x t) d m)
]

add_targets-In :
    (now : ℕ) (x : RelaySource) (ts : List Target) (ds : List RelayDelivery) (d : RelayDelivery)
    → In d ds
    → In d (add_targets now x ts ds)
unfolding add_targets
add_targets-In now x [] ds d m = m
add_targets-In now x (t ∷ ts) ds d m =
    add_targets-In now x ts (add_target now x t ds) d (add_target-In now x t ds d m)

-- A Create is relayed again, and its source is there. An accepted subscriber but the author, whose
-- current inbox the policy permits, has a row for the source that has failed. Then the gateway gets
-- the activity for the inbox that the row has kept, whatever the policy says of that inbox and whether
-- or not the subscriber still has it.
pub plan-keeps_inbox :
    (w : World) (now : ℕ) (e : InboundEvent) (c : LocalCommunity) (kind json : String)
    (s : RelayStore) (r : RemoteSubscriber) (x : RelaySource) (d : RelayDelivery)
    → relayable_json e.source_activity_json ≡ some json
    → In r s.subscribers
    → r.local_community_id ≡ c.id
    → r.status ≡ accepted
    → r.remote_actor_id ≢ e.actor_id
    → is_permitted w.federation_allowed (target_of r) ≡ true
    → find (is_source c.id create e.object_ap_id (activity_of e)) s.sources ≡ some x
    → In d s.deliveries
    → of_target x.id r.remote_actor_id d ≡ true
    → d.status ≡ failed
    → (o : Outbound) × In o (plan w now e c kind create (create_targets e c s) s).0
      × (o.target_remote_actor_id ≡ r.remote_actor_id)
      × (o.target_inbox_url ≡ d.target_inbox_url)
unfolding plan plan_with create_missing_local_community_relay_deliveries
    get_or_create_local_community_relay_source_activity
plan-keeps_inbox w now e c kind json s r x d given here community live other allowed known there is
      failing =
    let targets = filter (is_permitted w.federation_allowed) (create_targets e c s) in
    let actors = map (λ (t : Target). t.remote_actor_id) targets in
    let wanted : In (target_of r) targets =
      filter-In (is_permitted w.federation_allowed) (create_targets e c s) (target_of r)
        (create_targets-has e c s r here community live other) allowed in
    let listed =
      In-contains actors r.remote_actor_id
        (map-In (λ (t : Target). t.remote_actor_id) targets (target_of r) wanted) in
    let after = add_targets now x targets s.deliveries in
    rw given (
      rw known (
        outbound_of w e c x.source_activity_json d,
        map-In (outbound_of w e c x.source_activity_json)
            (filter (is_open actors) (filter (of_source x.id) after)) d
            (filter-In (is_open actors) (filter (of_source x.id) after) d
              (filter-In (of_source x.id) after d
                (add_targets-In now x targets s.deliveries d there) (ground (arith, is)))
              (ground (arith, is, failing, listed))),
        ground (arith, is),
        refl,
      ))
