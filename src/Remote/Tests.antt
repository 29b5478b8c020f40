-- ===== src/Remote/Tests.antt =====
-- src/operations/subscribe.py and unsubscribe.py: one community and two channels.
use discord_fediverse_bridge.Base.{
  ℕ, String, ◌≡◌, ◌≤◌, length, refl, arith, true, none, some, [], ◌∷◌, In, option_eq, nat_eq,
  string_eq, find, filter, any, transaction,
}
use discord_fediverse_bridge.Base.Table.{delete_first}
use discord_fediverse_bridge.Remote.{
  accepted, follow_status_eq, Follow, Subscription, RemoteStore, delete_subscription,
  get_subscription_by_channel, in_channel, follows_community, get_bridge_actor_follow, new_follow,
  new_subscription, count_subscriptions_for_community,
}
use discord_fediverse_bridge.Remote.Operations.{
  SubscribeInput, FollowResult, applied, done, awaits, Undo, row_for, subscribe, subscribe_begin,
  unsubscribe_begin, unsubscribe_finish, unsubscribe, begin_unsubscribe, handle_follow_accepted,
}
use discord_fediverse_bridge.Remote.Linked.{IsLinked}
use discord_fediverse_bridge.Remote.Steps.{RemoteStep, here, next, RemoteReach-IsLinked}
use discord_fediverse_bridge.Remote.Release.{Released, unsubscribe-Released}
use discord_fediverse_bridge.Remote.Race.{unsubscribe_finish-subscribe_begin}

abbrev community : String
community = "https://lemmy.example/c/cats"

abbrev activity : String
activity = "https://bridge.example/activities/1"

abbrev wish : ℕ → SubscribeInput
wish channel = record {
  discord_user_id = "7";
  channel_id = channel;
  actor_id = community;
  community_name = some "cats";
  numeric_id = none;
  community_handle = "!cats@lemmy.example";
  guild_id = some 9;
}

abbrev sent : FollowResult
sent = record {
  community_actor_url = community;
  follow_activity_id = activity;
  community_inbox_url = "https://lemmy.example/inbox";
}

abbrev empty : RemoteStore
empty = record { follows = []; subscriptions = [] }

empty-IsLinked : IsLinked empty
empty-IsLinked = record { links = λ sub m. absurd m }

abbrev asked : RemoteStore
asked = (subscribe 10 true true (some sent) (wish 1) empty).1

abbrev agreed : RemoteStore
agreed = (transaction asked (handle_follow_accepted 20 activity asked)).1

RemoteReach-IsLinked_example : IsLinked (subscribe 30 true true none (wish 2) agreed).1
RemoteReach-IsLinked_example = RemoteReach-IsLinked empty-IsLinked (
    next
      (next (next here (RemoteStep.subscribes 10 true true (some sent) (wish 1)))
        (RemoteStep.accepts 20 activity))
      (RemoteStep.subscribes 30 true true none (wish 2)))

-- one channel with an accepted subscription
abbrev followed : Follow
followed = new_follow 10 1 community (some activity) none accepted

abbrev first : Subscription
first = new_subscription 10 1 (row_for (wish 1) community none (some activity) (some "7") accepted)

abbrev one_channel : RemoteStore
one_channel = record { follows = followed ∷ []; subscriptions = first ∷ [] }

abbrev no_channel : RemoteStore
no_channel = record { follows = followed ∷ []; subscriptions = [] }

abbrev undo : Undo
undo = record { community = community; follow_activity_id = activity }

begins : unsubscribe_begin true 1 one_channel ≡ awaits undo no_channel
unfolding unsubscribe_begin begin_unsubscribe get_subscription_by_channel get_bridge_actor_follow
    find filter delete_subscription delete_first count_subscriptions_for_community nat_eq string_eq
    any
begins = refl

found : get_bridge_actor_follow community (followed ∷ []) ≡ some followed
unfolding get_bridge_actor_follow find string_eq
found = refl

free : get_subscription_by_channel 2 [] ≡ none
unfolding get_subscription_by_channel find
free = refl

few : length (filter (follows_community community) (followed ∷ [])) ≤ 1
unfolding filter string_eq
few = omega arith

unsubscribe_finish-subscribe_begin_example :
    (row : Subscription) × (v : RemoteStore) × (subscribe_begin 40 true true (wish 2) no_channel
      ≡ done applied v)
    × (row.status ≡ accepted)
    × (row.lemmy_community_actor_id ≡ community)
    × In row (unsubscribe_finish true undo v).1.subscriptions
    × (get_bridge_actor_follow community (unsubscribe_finish true undo v).1.follows ≡ none)
unsubscribe_finish-subscribe_begin_example =
    unsubscribe_finish-subscribe_begin 40 1 true (wish 2) one_channel no_channel undo followed
      begins found refl few refl free

unsubscribes : (unsubscribe true true 1 one_channel).0 ≡ applied
unfolding unsubscribe unsubscribe_begin unsubscribe_finish begin_unsubscribe
    get_subscription_by_channel get_bridge_actor_follow find filter
    count_subscriptions_for_community nat_eq string_eq
unsubscribes = refl

known : get_subscription_by_channel 1 one_channel.subscriptions ≡ some first
unfolding get_subscription_by_channel find nat_eq
known = refl

one : length (filter (in_channel 1) one_channel.subscriptions) ≤ 1
unfolding filter nat_eq
one = omega arith

unsubscribe-Released_example :
    Released 1 community one_channel (unsubscribe true true 1 one_channel).1
unsubscribe-Released_example =
    unsubscribe-Released true true 1 one_channel first known one few unsubscribes
