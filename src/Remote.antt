-- ===== src/Remote.antt =====
-- src/db/repositories/remote_subscriptions.py and bridge_actor_follows.py: which channels show which
-- remote community, and which communities the bridge follows.
pub mod Operations
mod Follows
mod Linked
mod Commands
mod Steps
mod Race
mod Release
mod Tests
use discord_fediverse_bridge.Base.{
  ℕ, String, Bool, true, false, ◌&&◌, Option, none, some, List, [], ◌∷◌, ◌++◌, ◌==◌, nat_eq,
  string_eq, option_eq, Eq, filter, any, find, length, sort_by, leb, if◌then◌else◌, Result, ok,
  raised, integrity_error, runtime_error,
}
use discord_fediverse_bridge.Base.Table.{update_where, update_first, delete_first, next_id}

pub data FollowStatus : Type 0 where
  pending accepted failed : FollowStatus

FollowStatus-discrete : Discrete FollowStatus
FollowStatus-discrete = hlevel

instance unfoldable pub follow_status_eq : Eq FollowStatus
unfolding FollowStatus-discrete
follow_status_eq = record { dec = FollowStatus-discrete }

-- `BridgeActorFollow`
pub record Follow : Type 0 where
  pub id : ℕ
  pub community_actor_id : String
  pub follow_activity_id : Option String
  pub community_inbox_url : Option String
  pub status : FollowStatus
  pub created_at : ℕ
  pub updated_at : ℕ

-- `ChannelCommunitySubscription`
pub record Subscription : Type 0 where
  pub id : ℕ
  pub discord_channel_id : ℕ
  pub discord_guild_id : Option ℕ
  pub lemmy_community_actor_id : String
  pub lemmy_community_name : Option String
  pub lemmy_community_id : Option ℕ
  pub community_handle : Option String
  pub community_inbox_url : Option String
  pub follow_activity_id : Option String
  pub initiated_by_discord_user_id : Option String
  pub status : FollowStatus
  pub created_at : ℕ
  pub updated_at : ℕ

-- the values of a new row of subscriptions
pub record NewSubscription : Type 0 where
  pub discord_channel_id : ℕ
  pub discord_guild_id : Option ℕ
  pub lemmy_community_actor_id : String
  pub lemmy_community_name : Option String
  pub lemmy_community_id : Option ℕ
  pub community_handle : Option String
  pub community_inbox_url : Option String
  pub follow_activity_id : Option String
  pub initiated_by_discord_user_id : Option String
  pub status : FollowStatus

pub record RemoteStore : Type 0 where
  pub follows : List Follow
  pub subscriptions : List Subscription

abbrev pub in_channel : ℕ → Subscription → Bool
in_channel channel sub = sub.discord_channel_id == channel

abbrev pub of_community : String → Subscription → Bool
of_community community sub = sub.lemmy_community_actor_id == community

unfoldable pub get_subscription_by_channel : ℕ → List Subscription → Option Subscription
get_subscription_by_channel channel subs = find (in_channel channel) subs

unfoldable pub get_subscriptions_by_community : String → List Subscription → List Subscription
get_subscriptions_by_community community subs =
    filter (λ (s : Subscription). of_community community s && s.status == accepted) subs

abbrev by_creation : Subscription → Subscription → Bool
by_creation a b = leb a.created_at b.created_at

unfoldable pub get_all_subscriptions : List Subscription → List Subscription
get_all_subscriptions subs = sort_by by_creation subs

abbrev has_status : Option FollowStatus → Subscription → Bool
has_status none sub = true
has_status (some st) sub = sub.status == st

abbrev by_creation_id : Subscription → Subscription → Bool
by_creation_id a b =
    if a.created_at == b.created_at then leb a.id b.id else leb a.created_at b.created_at

unfoldable pub list_subscriptions : Option FollowStatus → List Subscription → List Subscription
list_subscriptions status subs = sort_by by_creation_id (filter (has_status status) subs)

unfoldable pub get_subscriptions_by_guild : ℕ → List Subscription → List Subscription
get_subscriptions_by_guild guild subs =
    sort_by by_creation (filter (λ (s : Subscription). s.discord_guild_id == some guild) subs)

abbrev pub new_subscription : ℕ → ℕ → NewSubscription → Subscription
new_subscription now id n = record {
  id = id;
  discord_channel_id = n.discord_channel_id;
  discord_guild_id = n.discord_guild_id;
  lemmy_community_actor_id = n.lemmy_community_actor_id;
  lemmy_community_name = n.lemmy_community_name;
  lemmy_community_id = n.lemmy_community_id;
  community_handle = n.community_handle;
  community_inbox_url = n.community_inbox_url;
  follow_activity_id = n.follow_activity_id;
  initiated_by_discord_user_id = n.initiated_by_discord_user_id;
  status = n.status;
  created_at = now;
  updated_at = now;
}

-- the UNIQUE constraint holds a channel to one subscription
unfoldable pub create_subscription : ℕ → NewSubscription → RemoteStore → Result RemoteStore
create_subscription now n s =
    let id = next_id (λ (r : Subscription). r.id) s.subscriptions in
    if any (in_channel n.discord_channel_id) s.subscriptions
    then raised integrity_error
    else ok (record s { subscriptions = s.subscriptions ++ new_subscription now id n ∷ [] })

abbrev follow_state :
    ℕ → Option String → Option String → Option String → FollowStatus → Subscription → Subscription
follow_state now handle inbox activity st sub = record sub {
  community_handle = handle;
  community_inbox_url = inbox;
  follow_activity_id = activity;
  status = st;
  updated_at =
      if sub.community_handle == handle
        && sub.community_inbox_url == inbox
        && sub.follow_activity_id == activity
        && sub.status == st
      then sub.updated_at
      else now;
}

unfoldable pub update_subscription_follow_state :
    ℕ
    → ℕ
    → Option String
    → Option String
    → Option String
    → FollowStatus
    → RemoteStore
    → Result RemoteStore
update_subscription_follow_state now channel handle inbox activity st s =
    if any (in_channel channel) s.subscriptions
    then ok (record s {
      subscriptions =
          update_first (in_channel channel) (follow_state now handle inbox activity st)
            s.subscriptions;
    })
    else raised runtime_error

unfoldable pub delete_subscription : ℕ → RemoteStore → Bool × RemoteStore
delete_subscription channel s = (
  any (in_channel channel) s.subscriptions,
  record s { subscriptions = delete_first (in_channel channel) s.subscriptions },
)

unfoldable pub count_subscriptions_for_community : String → List Subscription → ℕ
count_subscriptions_for_community community subs = length (filter (of_community community) subs)

abbrev pub is_pending_of : String → Subscription → Bool
is_pending_of community sub = of_community community sub && sub.status == pending

unfoldable pub get_pending_channel_subscriptions_for_community :
    String → List Subscription → List Subscription
get_pending_channel_subscriptions_for_community community subs =
    filter (is_pending_of community) subs

abbrev pub follows_community : String → Follow → Bool
follows_community community f = f.community_actor_id == community

unfoldable pub list_bridge_actor_follows : List Follow → List Follow
list_bridge_actor_follows follows =
    sort_by
      (λ (a b : Follow).
        if a.created_at == b.created_at then leb a.id b.id else leb a.created_at b.created_at)
      follows

unfoldable pub get_bridge_actor_follow : String → List Follow → Option Follow
get_bridge_actor_follow community follows = find (follows_community community) follows

unfoldable pub get_bridge_actor_follow_by_follow_activity_id : String → List Follow → Option Follow
get_bridge_actor_follow_by_follow_activity_id activity follows =
    find (λ (f : Follow). f.follow_activity_id == some activity) follows

abbrev pub new_follow : ℕ → ℕ → String → Option String → Option String → FollowStatus → Follow
new_follow now id community activity inbox st = record {
  id = id;
  community_actor_id = community;
  follow_activity_id = activity;
  community_inbox_url = inbox;
  status = st;
  created_at = now;
  updated_at = now;
}

-- the UNIQUE constraint holds a community to one follow
unfoldable pub create_bridge_actor_follow :
    ℕ → String → Option String → Option String → FollowStatus → RemoteStore → Result RemoteStore
create_bridge_actor_follow now community activity inbox st s =
    let id = next_id (λ (r : Follow). r.id) s.follows in
    if any (follows_community community) s.follows
    then raised integrity_error
    else ok (record s { follows = s.follows ++ new_follow now id community activity inbox st ∷ [] })

abbrev pub accept_follow : ℕ → Follow → Follow
accept_follow now f = record f { status = accepted; updated_at = now }

abbrev pub accept_subscription : ℕ → Subscription → Subscription
accept_subscription now sub = record sub { status = accepted; updated_at = now }

unfoldable pub mark_bridge_actor_follow_accepted : ℕ → String → RemoteStore → Result RemoteStore
mark_bridge_actor_follow_accepted now community s =
    if any (follows_community community) s.follows
    then ok (record {
      follows = update_first (follows_community community) (accept_follow now) s.follows;
      subscriptions =
          update_where (is_pending_of community) (accept_subscription now) s.subscriptions;
    })
    else raised runtime_error

unfoldable pub delete_bridge_actor_follow : String → RemoteStore → Bool × RemoteStore
delete_bridge_actor_follow community s = (
  any (follows_community community) s.follows,
  record s { follows = delete_first (follows_community community) s.follows },
)
