-- ===== src/Delivery.antt =====
-- src/models.py and src/db/repositories/user_actor_delivery_types.py: the rows of the durable
-- outbound deliveries of a User Actor, and the tables that the repositories read. A timestamp is
-- a number of seconds; a JSON column holds the canonical text of its value.
pub mod Diagnostics
pub mod Lease
pub mod Claims
pub mod Outcomes
pub mod Admin
pub mod Render
pub mod Sources
pub mod Lifecycle
pub mod Tests
use discord_fediverse_bridge.Base.{ℕ, String, Option, List, Bool, true, false, Eq}

pub data SourceKind : Type 0 where
  profile_update content_create content_update content_delete : SourceKind

pub data SourceState : Type 0 where
  render_pending ready render_failed : SourceState

pub data Status : Type 0 where
  pending sending delivered failed ineligible superseded : Status

SourceKind-discrete : Discrete SourceKind
SourceKind-discrete = hlevel

SourceState-discrete : Discrete SourceState
SourceState-discrete = hlevel

Status-discrete : Discrete Status
Status-discrete = hlevel

instance unfoldable pub source_kind_eq : Eq SourceKind
unfolding SourceKind-discrete
source_kind_eq = record { dec = SourceKind-discrete }

instance unfoldable pub source_state_eq : Eq SourceState
unfolding SourceState-discrete
source_state_eq = record { dec = SourceState-discrete }

instance unfoldable pub status_eq : Eq Status
unfolding Status-discrete
status_eq = record { dec = Status-discrete }

-- `UserActorOutboundSource`
pub record Source : Type 0 where
  pub id : ℕ
  pub user_id : ℕ
  pub source_kind : SourceKind
  pub ordering_key : String
  pub logical_version : ℕ
  pub activity_id : String
  pub published_object_id : Option ℕ
  pub snapshot_json : String
  pub activity_json : Option String
  pub state : SourceState
  pub render_attempt_count : ℕ
  pub last_render_attempted_at : Option ℕ
  pub last_error : Option String
  pub next_attempt_at : Option ℕ

-- `UserActorOutboundDelivery`
pub record Delivery : Type 0 where
  pub id : ℕ
  pub source_id : ℕ
  pub target_endpoint_url : String
  pub status : Status
  pub claim_token : Option String
  pub claimed_at : Option ℕ
  pub attempt_count : ℕ
  pub last_attempted_at : Option ℕ
  pub delivered_at : Option ℕ
  pub last_error : Option String
  pub next_attempt_at : Option ℕ

-- `UserActorOutboundDeliveryFollower`
pub record Audience : Type 0 where
  pub id : ℕ
  pub delivery_id : ℕ
  pub relationship_id_snapshot : ℕ
  pub remote_actor_id : String
  pub snapshotted_endpoint_url : String

-- `UserActorOutboundSourceMedia`
pub record SourceMedia : Type 0 where
  pub id : ℕ
  pub source_id : ℕ
  pub media_asset_id : ℕ
  pub slot_kind : String

-- The columns of `UserActorFollower` that deliveries read. A CHECK constraint holds its status
-- to `accepted`, so the status is left out.
pub record Follower : Type 0 where
  pub id : ℕ
  pub user_id : ℕ
  pub remote_actor_id : String
  pub remote_inbox_url : String
  pub remote_shared_inbox_url : Option String

-- The columns of `User` that deliveries read.
pub record User : Type 0 where
  pub id : ℕ
  pub activitypub_username : String
  pub actor_url : String

pub record Store : Type 0 where
  pub sources : List Source
  pub deliveries : List Delivery
  pub audience : List Audience
  pub media : List SourceMedia
  pub followers : List Follower
  pub users : List User

-- `ClaimedUserActorDelivery`
pub record Claim : Type 0 where
  pub delivery_id : ℕ
  pub source_id : ℕ
  pub user_id : ℕ
  pub logical_version : ℕ
  pub activity_id : String
  pub actor_username : String
  pub actor_url : String
  pub target_endpoint_url : String
  pub represented_actor_ids : List String
  pub activity_json : Option String
  pub claim_token : String

-- pending, failed and sending rows still owe a transport
abbrev pub is_unfinished : Status → Bool
is_unfinished pending = true
is_unfinished failed = true
is_unfinished sending = true
is_unfinished _ = false
