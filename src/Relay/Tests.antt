-- ===== src/Relay/Tests.antt =====
-- src/db/repositories/remote_subscribers.py and src/local_communities/federation_fanout.py: a community
-- with two remote subscribers, one of which is the author.
use discord_fediverse_bridge.Base.{
  String, ◌≡◌, ◌≢◌, ◌⊎◌, refl, ap, sym, find, nat_eq, ◌==◌, arith, true, false, Bool, none, some,
  List, [], ◌∷◌, All, In, inl, inr, ok, string_eq,
}
use discord_fediverse_bridge.Relay.Subscribers.{
  RemoteSubscriber, accepted, new_subscriber, create_or_refresh_accepted,
}
use discord_fediverse_bridge.Relay.Unique.{IsUnique, Answered, create_or_refresh_accepted-Answered}
use discord_fediverse_bridge.Relay.Deliveries.{
  create, update, delivered, failed, operation_eq, RelaySource, RelayDelivery, is_source, of_target,
}
use discord_fediverse_bridge.Relay.Fanout.{
  RelayStore, InboundEvent, LocalCommunity, Outbound, World, is_permitted, target_of,
  relayable_json, activity_of, plan, create_targets, mutation_targets,
}
use discord_fediverse_bridge.Relay.Sent.{IsEligible, HasCreate, plan-Sent}
use discord_fediverse_bridge.Relay.Reaches.{plan-Reaches}
use discord_fediverse_bridge.Relay.Stale.{plan-keeps_inbox}

abbrev author : RemoteSubscriber
author =
    new_subscriber 10 1 4 "https://a.example/u/ann" "https://a.example/inbox"
      "https://a.example/f/1" accepted

abbrev reader : RemoteSubscriber
reader =
    new_subscriber 10 2 4 "https://b.example/u/ben" "https://b.example/inbox"
      "https://b.example/f/1" accepted

abbrev subscribers : List RemoteSubscriber
subscribers = author ∷ reader ∷ []

abbrev is_ann : String → Bool
is_ann text = text == "https://a.example/u/ann"

abbrev is_first_follow : String → Bool
is_first_follow text = text == "https://a.example/f/1"

actors : author.remote_actor_id ≢ reader.remote_actor_id
unfolding string_eq
actors e = let wrong : true ≡ false = ap is_ann e in ground (arith, wrong)

follows : author.follow_activity_id ≢ reader.follow_activity_id
unfolding string_eq
follows e = let wrong : true ≡ false = ap is_first_follow e in ground (arith, wrong)

subscribers-IsUnique : IsUnique subscribers
subscribers-IsUnique = record {
  by_id = λ x y m n k. ground (arith, m, n, k);
  by_relation = λ x y m n k l. ground (arith, m, n, k, l, actors);
  by_follow = λ x y m n k. ground (arith, m, n, k, follows);
}

create_or_refresh_accepted-Answered_example :
    Answered 4 "https://b.example/u/ben" "https://b.example/inbox2" "https://b.example/f/2"
      subscribers
      (create_or_refresh_accepted 20 4 "https://b.example/u/ben" "https://b.example/inbox2"
        "https://b.example/f/2" subscribers)
create_or_refresh_accepted-Answered_example =
    create_or_refresh_accepted-Answered 20 4 "https://b.example/u/ben" "https://b.example/inbox2"
      "https://b.example/f/2" subscribers subscribers-IsUnique

abbrev world : World
world = record {
  federation_allowed = λ text. true;
  render = λ json e url slug profile kind. json;
  send_local_community_relay = λ url deliveries. ok [];
}

abbrev community : LocalCommunity
community = record { id = 4; actor_url = "https://bridge.example/c/cats"; slug = "cats" }

abbrev event : InboundEvent
event = record {
  actor_id = "https://a.example/u/ann";
  delivery_id = "d1";
  object_ap_id = "https://a.example/p/1";
  source_activity_id = some "https://a.example/act/1";
  source_announce_id = none;
  source_activity_json = some "{\"type\":\"Create\"}";
}

abbrev store : RelayStore
store = record { subscribers = subscribers; sources = []; deliveries = [] }

given : relayable_json event.source_activity_json ≡ some "{\"type\":\"Create\"}"
unfolding string_eq
given = refl

others : reader.remote_actor_id ≢ event.actor_id
others e = actors (sym e)

plan-Reaches_example :
    ((o : Outbound) × In o
        (plan world 20 event community "post" create (create_targets event community store) store).0
      × (o.target_remote_actor_id ≡ "https://b.example/u/ben"))
    ⊎ ((x : RelaySource) × (d : RelayDelivery) × In x
          (plan world 20 event community "post" create
            (create_targets event community store)
            store).1.sources
        × (is_source 4 create "https://a.example/p/1" (activity_of event) x ≡ true)
        × In d
            (plan world 20 event community "post" create
              (create_targets event community store)
              store).1.deliveries
        × (of_target x.id "https://b.example/u/ben" d ≡ true)
        × (d.status ≡ delivered))
plan-Reaches_example =
    plan-Reaches world 20 event community "post" "{\"type\":\"Create\"}" store reader given
      (inr (inl refl)) refl refl others refl

-- the second subscriber has got the Create
abbrev received : RelayDelivery
received = record {
  id = 1;
  source_activity_row_id = 1;
  local_community_id = 4;
  object_kind = "post";
  operation = create;
  source_object_ap_id = "https://a.example/p/1";
  source_activity_id = "https://a.example/act/1";
  origin_remote_actor_id = "https://a.example/u/ann";
  target_remote_actor_id = "https://b.example/u/ben";
  target_inbox_url = "https://b.example/inbox";
  delivery_profile = "threadiverse_group";
  relay_activity_id = none;
  status = delivered;
  attempt_count = 1;
  last_attempted_at = some 15;
  last_error = none;
  created_at = 11;
  updated_at = 15;
}

abbrev later : RelayStore
later = record { subscribers = subscribers; sources = []; deliveries = received ∷ [] }

plan-Sent_example :
    All
      (λ (o : Outbound).
        IsEligible world community later o.target_remote_actor_id
        × (o.target_remote_actor_id ≢ event.actor_id))
      (plan world 20 event community "post" create (create_targets event community later) later).0
    × All
        (λ (o : Outbound).
          IsEligible world community later o.target_remote_actor_id
          × HasCreate event community later o.target_remote_actor_id)
        (plan world 20 event community "post" update
          (mutation_targets event community later)
          later).0
plan-Sent_example = plan-Sent world 20 event community "post" update later

-- The second subscriber has moved to an inbox that the policy permits, from one that it denies.
abbrev moved : RemoteSubscriber
moved = record reader { remote_inbox_url = "https://c.example/inbox" }

abbrev wary : World
wary = record world { federation_allowed = λ text. text == "https://c.example/inbox" }

abbrev source : RelaySource
source = record {
  id = 1;
  local_community_id = 4;
  object_kind = "post";
  operation = create;
  source_object_ap_id = "https://a.example/p/1";
  source_activity_id = "https://a.example/act/1";
  source_announce_id = none;
  origin_remote_actor_id = "https://a.example/u/ann";
  source_activity_json = "{\"type\":\"Create\"}";
  created_at = 11;
}

abbrev missed : RelayDelivery
missed = record received { status = failed }

abbrev retried : RelayStore
retried = record {
  subscribers = author ∷ moved ∷ [];
  sources = source ∷ [];
  deliveries = missed ∷ [];
}

denied : wary.federation_allowed missed.target_inbox_url ≡ false
unfolding string_eq
denied = refl

permitted : is_permitted wary.federation_allowed (target_of moved) ≡ true
unfolding string_eq
permitted = refl

known :
    find (is_source 4 create "https://a.example/p/1" (activity_of event)) retried.sources
    ≡ some source
unfolding find nat_eq operation_eq string_eq
known = refl

misses : of_target 1 "https://b.example/u/ben" missed ≡ true
unfolding nat_eq string_eq
misses = refl

plan-keeps_inbox_example :
    (o : Outbound) × In o
      (plan wary 20 event community "post" create
        (create_targets event community retried)
        retried).0
    × (o.target_remote_actor_id ≡ "https://b.example/u/ben")
    × (o.target_inbox_url ≡ "https://b.example/inbox")
plan-keeps_inbox_example =
    plan-keeps_inbox wary 20 event community "post" "{\"type\":\"Create\"}" retried moved source
      missed given (inr (inl refl)) refl refl others permitted known (inl refl) misses refl
