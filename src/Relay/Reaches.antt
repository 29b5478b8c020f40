-- ===== src/Relay/Reaches.antt =====
-- src/local_communities/federation_fanout.py: nobody who should get an activity is left out.
use discord_fediverse_bridge.Base.{
  ℕ, ◌≡◌, ◌≢◌, refl, arith, String, Bool, true, false, some, List, [], ◌∷◌, ◌++◌, ◌==◌, nat_eq,
  string_eq, filter, map, map-In, filter-In, sort_by-In, any, find, In-find, In-last, contains,
  any-true, In-contains, In, Bool-cases, Option-cases, inl, inr, ◌⊎◌,
}
use discord_fediverse_bridge.Base.Table.{next_id}
use discord_fediverse_bridge.Relay.Subscribers.{
  RemoteSubscriber, accepted, subscriber_status_eq, list_remote_subscribers,
}
use discord_fediverse_bridge.Relay.Deliveries.{
  pending, failed, create, operation_eq, delivered, relay_status_eq, RelaySource, NewSource,
  new_relay_source, RelayDelivery, Target, of_target, of_source, is_source, new_relay_delivery,
  add_target, add_targets, create_missing_local_community_relay_deliveries,
  get_or_create_local_community_relay_source_activity,
}
use discord_fediverse_bridge.Relay.Fanout.{
  RelayStore, InboundEvent, LocalCommunity, Outbound, World, is_permitted, relayable_json,
  source_values, activity_of, is_open, outbound_of, plan_with, plan, target_of, create_targets,
}

any-append :
    {A : Type 0} (p : A → Bool) (xs : List A) (y : A)
    → any p xs ≡ true
    → any p (xs ++ y ∷ []) ≡ true
unfolding any
any-append p [] y h = ground (arith, h)
any-append p (x ∷ xs) y h = ground (arith, any-append p xs y)

any-appended :
    {A : Type 0} (p : A → Bool) (xs : List A) (y : A) → p y ≡ true → any p (xs ++ y ∷ []) ≡ true
unfolding any
any-appended p [] y h = ground (arith, h)
any-appended p (x ∷ xs) y h = ground (arith, any-appended p xs y h)

add_target-keeps :
    (now : ℕ) (x : RelaySource) (t : Target) (p : RelayDelivery → Bool) (ds : List RelayDelivery)
    → any p ds ≡ true
    → any p (add_target now x t ds) ≡ true
add_target-keeps now x t p ds h = elim (Bool-cases (any (of_target x.id t.remote_actor_id) ds)) [
  | inl e ↦ rw e h
  | inr e ↦
      rw e
        (any-append p ds (new_relay_delivery now (next_id (λ (r : RelayDelivery). r.id) ds) x t) h)
]

add_targets-keeps :
    (now : ℕ) (x : RelaySource) (ts : List Target) (p : RelayDelivery → Bool)
    (ds : List RelayDelivery)
    → any p ds ≡ true
    → any p (add_targets now x ts ds) ≡ true
unfolding add_targets
add_targets-keeps now x [] p ds h = h
add_targets-keeps now x (t ∷ ts) p ds h =
    add_targets-keeps now x ts p (add_target now x t ds) (add_target-keeps now x t p ds h)

add_target-has :
    (now : ℕ) (x : RelaySource) (t : Target) (ds : List RelayDelivery)
    → any (of_target x.id t.remote_actor_id) (add_target now x t ds) ≡ true
add_target-has now x t ds = elim (Bool-cases (any (of_target x.id t.remote_actor_id) ds)) [
  | inl e ↦ rw e e
  | inr e ↦ rw e (
      any-appended (of_target x.id t.remote_actor_id) ds
        (new_relay_delivery now (next_id (λ (r : RelayDelivery). r.id) ds) x t) (ground arith))
]

-- every target has a row
add_targets-has :
    (now : ℕ) (x : RelaySource) (ts : List Target) (t : Target) (ds : List RelayDelivery)
    → In t ts
    → any (of_target x.id t.remote_actor_id) (add_targets now x ts ds) ≡ true
unfolding add_targets
add_targets-has now x [] t ds m = absurd m
add_targets-has now x (u ∷ us) t ds (inl e) =
    add_targets-keeps now x us (of_target x.id t.remote_actor_id) (add_target now x u ds)
      (rw e (add_target-has now x u ds))
add_targets-has now x (u ∷ us) t ds (inr m) = add_targets-has now x us t (add_target now x u ds) m

pub create_targets-has :
    (e : InboundEvent) (c : LocalCommunity) (s : RelayStore) (r : RemoteSubscriber)
    → In r s.subscribers
    → r.local_community_id ≡ c.id
    → r.status ≡ accepted
    → r.remote_actor_id ≢ e.actor_id
    → In (target_of r) (create_targets e c s)
unfolding create_targets list_remote_subscribers
create_targets-has e c s r here community live other = map-In target_of _ r (
    filter-In _ _ r
      (sort_by-In _ _ r (filter-In _ s.subscribers r here (ground (arith, community, live))))
      (ground (arith, other)))

-- the source of a relay is a row of the table with the identity that was asked for
source-In :
    (now : ℕ) (n : NewSource) (sources : List RelaySource)
    → In
        (get_or_create_local_community_relay_source_activity now n sources).0
        (get_or_create_local_community_relay_source_activity now n sources).1
      × (is_source n.local_community_id n.operation n.source_object_ap_id n.source_activity_id
            (get_or_create_local_community_relay_source_activity now n sources).0
          ≡ true)
unfolding get_or_create_local_community_relay_source_activity
source-In now n sources =
    let p = is_source n.local_community_id n.operation n.source_object_ap_id n.source_activity_id in
    elim (Option-cases (find p sources)) [
      | inl e ↦ rw e (
        In-last sources (new_relay_source now (next_id (λ (r : RelaySource). r.id) sources) n),
        ground arith,
      )
      | inr (x, e) ↦ rw e (In-find p sources x e)
    ]

-- a row that is not delivered is open
still_open :
    (actors : List String) (actor : String) (d : RelayDelivery)
    → (d.status == delivered) ≡ false
    → contains actors actor ≡ true
    → d.target_remote_actor_id ≡ actor
    → is_open actors d ≡ true
still_open actors actor d waits listed same =
    elim d.status as (λ st. d.status ≡ st → is_open actors d ≡ true) [
      | pending ↦ λ p. ground (arith, p, listed, same)
      | delivered ↦ λ p. ground (arith, p, waits)
      | failed ↦ λ p. ground (arith, p, listed, same)
    ]
      refl

-- An inbound Create with its JSON is relayed. Every accepted subscriber of the community but the
-- author, whose inbox the policy permits, is among those that the gateway gets the activity for,
-- unless it has a delivered row for the very source already.
pub plan-Reaches :
    (w : World) (now : ℕ) (e : InboundEvent) (c : LocalCommunity) (kind json : String)
    (s : RelayStore) (r : RemoteSubscriber)
    → relayable_json e.source_activity_json ≡ some json
    → In r s.subscribers
    → r.local_community_id ≡ c.id
    → r.status ≡ accepted
    → r.remote_actor_id ≢ e.actor_id
    → is_permitted w.federation_allowed (target_of r) ≡ true
    → ((o : Outbound) × In o (plan w now e c kind create (create_targets e c s) s).0
        × (o.target_remote_actor_id ≡ r.remote_actor_id))
      ⊎ ((x : RelaySource) × (d : RelayDelivery) × In x
            (plan w now e c kind create (create_targets e c s) s).1.sources
          × (is_source c.id create e.object_ap_id (activity_of e) x ≡ true)
          × In d (plan w now e c kind create (create_targets e c s) s).1.deliveries
          × (of_target x.id r.remote_actor_id d ≡ true)
          × (d.status ≡ delivered))
unfolding plan plan_with create_missing_local_community_relay_deliveries
plan-Reaches w now e c kind json s r given here community live other allowed =
    let n = source_values e c kind create json in
    let x = (get_or_create_local_community_relay_source_activity now n s.sources).0 in
    let targets = filter (is_permitted w.federation_allowed) (create_targets e c s) in
    let actors = map (λ (t : Target). t.remote_actor_id) targets in
    let wanted : In (target_of r) targets =
      filter-In (is_permitted w.federation_allowed) (create_targets e c s) (target_of r)
        (create_targets-has e c s r here community live other) allowed in
    let after = add_targets now x targets s.deliveries in
    let (d, there, is) =
      any-true (of_target x.id r.remote_actor_id) after
        (add_targets-has now x targets (target_of r) s.deliveries wanted) in
    rw given (elim (Bool-cases (d.status == delivered)) [
      | inl done ↦
          let (at, identity) = source-In now n s.sources in
          inr (x, d, at, identity, there, is, ground (arith, done))
      | inr waits ↦
          let listed =
            In-contains actors r.remote_actor_id
              (map-In (λ (t : Target). t.remote_actor_id) targets (target_of r) wanted) in
          inl (
            outbound_of w e c x.source_activity_json d,
            map-In (outbound_of w e c x.source_activity_json)
                (filter (is_open actors) (filter (of_source x.id) after)) d
                (filter-In (is_open actors) (filter (of_source x.id) after) d
                  (filter-In (of_source x.id) after d there (ground (arith, is)))
                  (still_open actors r.remote_actor_id d waits listed (ground (arith, is)))),
            ground (arith, is),
          )
    ])
