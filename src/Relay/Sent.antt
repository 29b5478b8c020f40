-- ===== src/Relay/Sent.antt =====
-- src/local_communities/federation_fanout.py: to whom a relay hands an activity.
use discord_fediverse_bridge.Base.{
  ℕ, ◌≡◌, ◌≢◌, refl, sym, ap, ◌∙◌, subst, arith, String, true, List, [], ◌∷◌, ◌==◌, ◌!=◌, nat_eq,
  string_eq, filter, map, contains-In, All, All-of_In, In, In-map, In-filter, In-find, In-sort_by,
  Option-cases, inl, inr,
}
use discord_fediverse_bridge.Relay.Subscribers.{
  RemoteSubscriber, accepted, subscriber_status_eq, list_remote_subscribers,
}
use discord_fediverse_bridge.Relay.Deliveries.{
  Operation, create, operation_eq, relay_status_eq, RelayDelivery, Target, is_delivered_create,
  list_delivered_local_community_create_relay_targets,
}
use discord_fediverse_bridge.Relay.Fanout.{
  RelayStore, InboundEvent, LocalCommunity, Outbound, World, is_permitted, relayable_json, is_open,
  outbound_of, plan_with, plan, target_of, create_targets, subscriber_of, current_targets,
  mutation_targets,
}

-- an outbound delivery is for one of the targets, which the policy permits
plan-Target :
    (w : World) (now : ℕ) (e : InboundEvent) (c : LocalCommunity) (kind : String) (op : Operation)
    (targets : List Target) (s : RelayStore) (o : Outbound)
    → In o (plan w now e c kind op targets s).0
    → (t : Target) × In t targets
      × (is_permitted w.federation_allowed t ≡ true)
      × (o.target_remote_actor_id ≡ t.remote_actor_id)
unfolding plan plan_with
plan-Target w now e c kind op targets s o m =
    let permitted = filter (is_permitted w.federation_allowed) targets in
    let actors = map (λ (t : Target). t.remote_actor_id) permitted in
    elim (Option-cases (relayable_json e.source_activity_json)) [
      | inl none_given ↦ absurd (rw none_given at m)
      | inr (json, given) ↦
          let (d, there, made) = In-map (outbound_of w e c _) _ o (rw given at m) in
          let (row, wanted) = In-filter (is_open actors) _ d there in
          let (t, here, same) =
            In-map (λ (t : Target). t.remote_actor_id) permitted d.target_remote_actor_id
              (contains-In actors d.target_remote_actor_id (ground (arith, wanted))) in
          let (target, allowed) = In-filter (is_permitted w.federation_allowed) targets t here in
          (
            t,
            target,
            allowed,
            subst (λ (x : Outbound). x.target_remote_actor_id ≡ t.remote_actor_id) (sym made) same,
          )
    ]

create_targets-In :
    (e : InboundEvent) (c : LocalCommunity) (s : RelayStore) (t : Target)
    → In t (create_targets e c s)
    → (r : RemoteSubscriber) × In r s.subscribers
      × (r.local_community_id ≡ c.id)
      × (r.status ≡ accepted)
      × (r.remote_actor_id ≢ e.actor_id)
      × (t ≡ target_of r)
unfolding create_targets list_remote_subscribers
create_targets-In e c s t m =
    let (r, there, made) = In-map target_of _ t m in
    let (listed, other) =
      In-filter (λ (r : RemoteSubscriber). r.remote_actor_id != e.actor_id) _ r there in
    let (here, kind) = In-filter _ s.subscribers r (In-sort_by _ _ r listed) in
    (r, here, ground (arith, kind), ground (arith, kind), ground (arith, other), made)

current_targets-In :
    (rows : List RemoteSubscriber) (ds : List RelayDelivery) (t : Target)
    → In t (current_targets rows ds)
    → (r : RemoteSubscriber) × (d : RelayDelivery) × In r rows
      × In d ds
      × (d.target_remote_actor_id ≡ r.remote_actor_id)
      × (t ≡ target_of r)
unfolding current_targets
current_targets-In rows [] t m = absurd m
current_targets-In rows (d ∷ ds) t m =
    elim (Option-cases (subscriber_of rows d.target_remote_actor_id)) [
      | inl gone ↦
          let (r, x, here, there, same, made) = current_targets-In rows ds t (rw gone at m) in
          (r, x, here, inr there, same, made)
      | inr (r, found) ↦
          let (here, same) =
            In-find (λ (x : RemoteSubscriber). x.remote_actor_id == d.target_remote_actor_id) rows r
              found in
          elim (rw found at m) [
            | inl made ↦ (r, d, here, inl refl, ground (arith, same), made)
            | inr later ↦
                let (x, y, at, there, also, made) = current_targets-In rows ds t later in
                (x, y, at, inr there, also, made)
          ]
    ]

mutation_targets-In :
    (e : InboundEvent) (c : LocalCommunity) (s : RelayStore) (t : Target)
    → In t (mutation_targets e c s)
    → (r : RemoteSubscriber) × (d : RelayDelivery) × In r s.subscribers
      × (r.local_community_id ≡ c.id)
      × (r.status ≡ accepted)
      × In d s.deliveries
      × (is_delivered_create c.id e.object_ap_id d ≡ true)
      × (d.target_remote_actor_id ≡ r.remote_actor_id)
      × (t ≡ target_of r)
unfolding mutation_targets list_remote_subscribers
    list_delivered_local_community_create_relay_targets
mutation_targets-In e c s t m =
    let (r, d, listed, got, same, made) = current_targets-In _ _ t m in
    let (here, kind) = In-filter _ s.subscribers r (In-sort_by _ _ r listed) in
    let (there, is) =
      In-filter (is_delivered_create c.id e.object_ap_id) s.deliveries d (In-sort_by _ _ d got) in
    (r, d, here, ground (arith, kind), ground (arith, kind), there, is, same, made)

-- An accepted subscriber of the community, whose current inbox the policy permits.
pub record IsEligible (w : World) (c : LocalCommunity) (s : RelayStore) (actor : String)
    : Type 0 where
  pub subscriber : RemoteSubscriber
  pub there : In subscriber s.subscribers
  pub community_id : subscriber.local_community_id ≡ c.id
  pub is_accepted : subscriber.status ≡ accepted
  pub permitted : is_permitted w.federation_allowed (target_of subscriber) ≡ true
  pub actor_id : actor ≡ subscriber.remote_actor_id

abbrev pub HasCreate : InboundEvent → LocalCommunity → RelayStore → String → Type 0
HasCreate e c s actor =
    (d : RelayDelivery) × In d s.deliveries
    × (is_delivered_create c.id e.object_ap_id d ≡ true)
    × (d.target_remote_actor_id ≡ actor)

eligible :
    (w : World) (c : LocalCommunity) (s : RelayStore) (actor : String) (r : RemoteSubscriber)
    (t : Target)
    → In r s.subscribers
    → r.local_community_id ≡ c.id
    → r.status ≡ accepted
    → is_permitted w.federation_allowed t ≡ true
    → t ≡ target_of r
    → actor ≡ r.remote_actor_id
    → IsEligible w c s actor
eligible w c s actor r t here community live allowed made same = record {
  subscriber = r;
  there = here;
  community_id = community;
  is_accepted = live;
  permitted = subst (λ (x : Target). is_permitted w.federation_allowed x ≡ true) made allowed;
  actor_id = same;
}

-- Whatever a relay hands to the gateway is for an actor that is at that moment an accepted subscriber
-- of the community, whose current inbox the policy permits. A Create never goes back to its author,
-- and any other activity goes only to actors with a delivered Create of the same object.
pub plan-Sent :
    (w : World) (now : ℕ) (e : InboundEvent) (c : LocalCommunity) (kind : String) (op : Operation)
    (s : RelayStore)
    → All
        (λ (o : Outbound).
          IsEligible w c s o.target_remote_actor_id × (o.target_remote_actor_id ≢ e.actor_id))
        (plan w now e c kind create (create_targets e c s) s).0
      × All
          (λ (o : Outbound).
            IsEligible w c s o.target_remote_actor_id × HasCreate e c s o.target_remote_actor_id)
          (plan w now e c kind op (mutation_targets e c s) s).0
plan-Sent w now e c kind op s = (
  All-of_In _ _ (λ o m.
      let (t, wanted, allowed, to) =
        plan-Target w now e c kind create (create_targets e c s) s o m in
      let (r, here, community, live, other, made) = create_targets-In e c s t wanted in
      let same : o.target_remote_actor_id ≡ r.remote_actor_id =
        to ∙ ap (λ (x : Target). x.remote_actor_id) made in
      (
        eligible w c s o.target_remote_actor_id r t here community live allowed made same,
        λ p. other (sym same ∙ p),
      )),
  All-of_In _ _ (λ o m.
      let (t, wanted, allowed, to) = plan-Target w now e c kind op (mutation_targets e c s) s o m in
      let (r, d, here, community, live, there, is, match, made) =
        mutation_targets-In e c s t wanted in
      let same : o.target_remote_actor_id ≡ r.remote_actor_id =
        to ∙ ap (λ (x : Target). x.remote_actor_id) made in
      (
        eligible w c s o.target_remote_actor_id r t here community live allowed made same,
        (d, there, is, match ∙ sym same),
      )),
)
