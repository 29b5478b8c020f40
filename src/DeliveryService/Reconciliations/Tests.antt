-- ===== src/DeliveryService/Reconciliations/Tests.antt =====
-- src/user_actor_delivery.py: a post of a local community with one subscriber.
use discord_fediverse_bridge.Base.{
  ◌≡◌, refl, String, true, some, List, [], ◌∷◌, any, find, filter, sort_by, insert_by, contains,
  nat_eq, string_eq,
}
use discord_fediverse_bridge.Relay.Subscribers.{
  RemoteSubscriber, accepted, subscriber_status_eq, list_remote_subscribers,
}
use discord_fediverse_bridge.Mutation.{delete}
use discord_fediverse_bridge.Mutation.Desired.{published_of}
use discord_fediverse_bridge.Mutation.Tests.{before, post, post_id}
use discord_fediverse_bridge.DeliveryService.Requests.{returns}
use discord_fediverse_bridge.DeliveryService.Reconciliations.{
  Surroundings, gone, allowed_inboxes, replay_target_inboxes,
}
use discord_fediverse_bridge.DeliveryService.Reconciliations.Targets.{
  is_target, replay_target_inboxes-contains,
}

abbrev inbox : String
inbox = "https://far.example/inbox"

abbrev subscriber : RemoteSubscriber
subscriber = record {
  id = 1;
  local_community_id = 4;
  remote_actor_id = "https://far.example/u/ann";
  remote_inbox_url = inbox;
  follow_activity_id = "https://far.example/follow/1";
  status = accepted;
  created_at = 10;
  updated_at = 10;
}

abbrev around : Surroundings
around = record {
  discord_message_reader = some (λ channel_id message_id. returns gone);
  meanwhile = λ object_id s. s;
  local_community_by_actor_url = λ url. some 4;
  subscribers = λ object_id. subscriber ∷ [];
  federation_decision = λ url. returns true;
  error_text = λ e. "error";
  failed_at = λ object_id. 104;
}

found : published_of post_id before ≡ some (post delete)
unfolding published_of find string_eq
found = refl

replays : replay_target_inboxes around post_id before ≡ returns (some (inbox ∷ []))
unfolding replay_target_inboxes published_of list_remote_subscribers allowed_inboxes find filter
    sort_by insert_by nat_eq string_eq subscriber_status_eq
replays = refl

replay_target_inboxes-contains_example :
    (inboxes : List String) × (some (inbox ∷ []) ≡ some inboxes)
    × ((x : String)
        → contains inboxes x
          ≡ any (is_target around.federation_decision 4 x) (around.subscribers post_id))
replay_target_inboxes-contains_example =
    replay_target_inboxes-contains around post_id "https://lemmy.example/c/cats" 4 before
      (post delete) (some (inbox ∷ [])) found refl refl replays
