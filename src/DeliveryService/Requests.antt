-- ===== src/DeliveryService/Requests.antt =====
-- src/user_actor_delivery.py and src/fedify_gateway_client.py: what the service asks of the gateway for
-- a reservation, and how that may end.
use discord_fediverse_bridge.Base.{
  ℕ, String, Bool, true, ◌&&◌, ◌||◌, not, Option, none, some, List, is_some, if◌then◌else◌, ◌==◌,
  string_eq, option_eq, Result, ok, raised, Error, value_error,
}
use discord_fediverse_bridge.Delivery.{content_update, content_delete, source_kind_eq}
use discord_fediverse_bridge.Mutation.{MutationStore}
use discord_fediverse_bridge.Mutation.Claims.{MutationClaim}
use discord_fediverse_bridge.Mutation.Commit.{body_or_empty}

-- The exceptions that the handlers tell apart, with their texts: a ValueError, of which the
-- `json.JSONDecodeError` of an answer that cannot be read is one; a CancelledError; any other.
pub data Exception : Type 0 where
  invalid : String → Exception
  cancelled : Exception
  failure : String → Exception

pub data Attempt (A : Type 0) : Type 0 where
  returns : A → Attempt A
  raises : Exception → Attempt A

pub record DeleteContentRequest : Type 0 where
  pub actor_username : String
  pub community_actor_url : Option String
  pub publication_context : String
  pub ap_object_id : String
  pub target_inbox_urls : Option (List String)
  pub operation_id : String
  pub activity_id : String
  pub mutation_timestamp : Option ℕ
  pub expected_revision : ℕ
  pub next_revision : ℕ

pub record UpdateContentRequest : Type 0 where
  pub actor_username : String
  pub community_actor_url : Option String
  pub publication_context : String
  pub ap_object_id : String
  pub kind : Option String
  pub title : Option String
  pub body_markdown : String
  pub in_reply_to_object_id : Option String
  pub target_inbox_urls : Option (List String)
  pub operation_id : String
  pub activity_id : String
  pub mutation_timestamp : Option ℕ
  pub expected_revision : ℕ
  pub next_revision : ℕ

-- The gateway answers with the text of the activity. `meanwhile` is the change that other tasks make
-- to the tables while the call for a claim is awaited; `error_text` is the text of an exception of
-- the tables.
pub record Outside : Type 0 where
  pub delete_content : DeleteContentRequest → Attempt String
  pub update_content : UpdateContentRequest → Attempt String
  pub meanwhile : MutationClaim → MutationStore → MutationStore
  pub error_text : Error → String
  pub committed_at : MutationClaim → ℕ
  pub failed_at : MutationClaim → ℕ

-- the exception of a call of the tables
abbrev pub exception_of : {A : Type 0} → (Error → String) → Result A → Option Exception
exception_of text (ok a) = none
exception_of text (raised value_error) = some (invalid (text value_error))
exception_of text (raised e) = some (failure (text e))

abbrev pub is_community : MutationClaim → Bool
is_community c = c.request.publication_context == "community"

abbrev pub is_personal_feed : MutationClaim → Bool
is_personal_feed c = c.request.publication_context == "personal_feed"

-- `not text`, for a text that may be missing
abbrev pub is_empty : Option String → Bool
is_empty none = true
is_empty (some text) = text == ""

abbrev pub has_object_kind : MutationClaim → Bool
has_object_kind c = c.request.kind == some "post" || c.request.kind == some "comment"

-- The text of the ValueError, if there is one. The object, the user and the two ids stand in every
-- claim as the reservation wrote them, so their tests never fail.
unfoldable pub validate_mutation_request : MutationClaim → Option String
validate_mutation_request c =
    if not (is_community c || is_personal_feed c)
    then some "mutation reservation has an unsupported publication context"
    else if is_community c && is_empty c.request.community_actor_url
    then some "community mutation is missing community ownership"
    else if is_personal_feed c && is_some c.request.community_actor_url
    then some "personal-feed mutation cannot carry community ownership"
    else if c.kind == content_update && not (has_object_kind c)
    then some "mutation reservation has an unsupported object kind"
    else none

abbrev pub delete_request : MutationClaim → DeleteContentRequest
delete_request c = record {
  actor_username = c.request.actor_username;
  community_actor_url = c.request.community_actor_url;
  publication_context = c.request.publication_context;
  ap_object_id = c.request.ap_object_id;
  target_inbox_urls = c.request.target_inbox_urls;
  operation_id = c.operation_id;
  activity_id = c.activity_id;
  mutation_timestamp = c.request.mutation_timestamp;
  expected_revision = c.expected_revision;
  next_revision = c.next_revision;
}

abbrev pub update_request : MutationClaim → UpdateContentRequest
update_request c = record {
  actor_username = c.request.actor_username;
  community_actor_url = c.request.community_actor_url;
  publication_context = c.request.publication_context;
  ap_object_id = c.request.ap_object_id;
  kind = c.request.kind;
  title = c.request.title;
  body_markdown = body_or_empty c.request.body_markdown;
  in_reply_to_object_id = c.request.in_reply_to_object_id;
  target_inbox_urls = c.request.target_inbox_urls;
  operation_id = c.operation_id;
  activity_id = c.activity_id;
  mutation_timestamp = c.request.mutation_timestamp;
  expected_revision = c.expected_revision;
  next_revision = c.next_revision;
}

unfoldable pub send_content : Outside → MutationClaim → Attempt String
send_content w c =
    if c.kind == content_delete
    then w.delete_content (delete_request c)
    else w.update_content (update_request c)
