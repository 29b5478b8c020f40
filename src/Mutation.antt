-- ===== src/Mutation.antt =====
-- src/db/repositories/content_mutations.py: the desired state of a published object, the
-- reservations that carry it out, and the rows of src/models.py that hold them.
pub mod Desired
pub mod Reserve
pub mod Claims
pub mod Reports
pub mod Commit
pub mod Reconcile
pub mod Lifecycle
pub mod Fencing
pub mod Tests
use discord_fediverse_bridge.Base.{ℕ, String, Option, List, Bool, true, false, Eq, Result}
use discord_fediverse_bridge.IdentityUrls.{Urllib}
use discord_fediverse_bridge.Delivery
use discord_fediverse_bridge.Delivery.{SourceKind}

pub data DesiredKind : Type 0 where
  unchanged update delete : DesiredKind

pub data MutationState : Type 0 where
  reserved dispatching ambiguous canonical_ready committed aborted_pre_send : MutationState

pub data SideEffect : Type 0 where
  not_dispatched send_possible canonical_received : SideEffect

-- the outcomes that the calls on the desired state answer with
pub data Answer : Type 0 where
  missing deleted stale duplicate conflict accepted not_needed : Answer

DesiredKind-discrete : Discrete DesiredKind
DesiredKind-discrete = hlevel

MutationState-discrete : Discrete MutationState
MutationState-discrete = hlevel

Answer-discrete : Discrete Answer
Answer-discrete = hlevel

instance unfoldable pub desired_kind_eq : Eq DesiredKind
unfolding DesiredKind-discrete
desired_kind_eq = record { dec = DesiredKind-discrete }

instance unfoldable pub mutation_state_eq : Eq MutationState
unfolding MutationState-discrete
mutation_state_eq = record { dec = MutationState-discrete }

instance unfoldable pub answer_eq : Eq Answer
unfolding Answer-discrete
answer_eq = record { dec = Answer-discrete }

-- The columns of `PublishedActivityObject` that mutations use. A timestamp is a number of seconds
-- in UTC, which is what a naive one is taken for.
pub record Published : Type 0 where
  pub id : ℕ
  pub actor_username : String
  pub actor_url : String
  pub publication_context : String
  pub community_actor_url : Option String
  pub object_id : String
  pub kind : String
  pub title : Option String
  pub body_markdown : String
  pub in_reply_to_object_id : Option String
  pub conversation_root_object_id : Option String
  pub discord_channel_id : Option ℕ
  pub discord_message_id : Option ℕ
  pub content_revision : ℕ
  pub deleted_at : Option ℕ
  pub desired_kind : DesiredKind
  pub desired_title : Option String
  pub desired_body_markdown : Option String
  pub desired_edited_timestamp : Option ℕ
  pub desired_fingerprint : Option String
  pub reconciliation_needed : Bool
  pub reconciliation_attempt_count : ℕ
  pub reconciliation_next_attempt_at : Option ℕ
  pub reconciliation_last_error : Option String

-- The request of a mutation, and, with a few fields left out for a Delete, what its identity is made of.
pub record Request : Type 0 where
  pub actor_username : String
  pub publication_context : String
  pub community_actor_url : Option String
  pub conversation_root_object_id : Option String
  pub ap_object_id : String
  pub kind : Option String
  pub title : Option String
  pub body_markdown : Option String
  pub in_reply_to_object_id : Option String
  pub target_inbox_urls : Option (List String)
  pub mutation_timestamp : Option ℕ

-- what `operation_id` is the SHA-256 of
pub record Identity : Type 0 where
  pub object_id : String
  pub kind : SourceKind
  pub expected_revision : ℕ
  pub next_revision : ℕ
  pub request : Request

-- `UserActorContentMutation`; the column `request_json` is the request with the two ids beside it
pub record Mutation : Type 0 where
  pub id : ℕ
  pub published_object_id : ℕ
  pub user_id : ℕ
  pub kind : SourceKind
  pub expected_revision : ℕ
  pub next_revision : ℕ
  pub operation_id : String
  pub activity_id : String
  pub request : Request
  pub request_fingerprint : String
  pub state : MutationState
  pub canonical_activity_json : Option String
  pub claim_token : Option String
  pub side_effect_classification : SideEffect
  pub lease_expires_at : Option ℕ
  pub claimed_at : Option ℕ
  pub attempt_count : ℕ
  pub next_attempt_at : Option ℕ
  pub last_error : Option String

pub record MutationStore : Type 0 where
  pub published : List Published
  pub mutations : List Mutation
  pub outbound : discord_fediverse_bridge.Delivery.Store

-- What the code uses of Python's library: `urllib.parse`, and the SHA-256 digests and the JSON texts
-- of the values that it builds.
pub record Library : Type 0 where
  pub urllib : Urllib
  pub content_digest : DesiredKind → Option String → Option String → String
  pub operation_digest : Identity → String
  pub request_digest : Request → String → String → String
  pub snapshot_json : String → SourceKind → ℕ → String

-- the states that hold the reservation of an object
abbrev pub is_active : MutationState → Bool
is_active reserved = true
is_active dispatching = true
is_active ambiguous = true
is_active canonical_ready = true
is_active _ = false
