-- ===== src/IdentityUrls.antt =====
-- src/activitypub_identity_urls.py: the typed URLs of User Actor activities.
pub mod Address
mod Paths
mod Origins
mod RoundTrip
mod Tests
use Prim.Native.Char.{code}
use Prim.Native.String.{[], ◌∷◌}
use discord_fediverse_bridge.Base.{
  String, ◌<>◌, Bool, true, false, ◌&&◌, ◌||◌, not, Option, none, some, leb, ◌==◌, ◌!=◌, string_eq,
  nat_eq, Result, ok, raised, value_error, is_none, if◌then◌else◌, ◌>>=◌, ◌>>◌, ℕ,
}

-- What `urllib.parse.urlsplit` says of a text; a port that is no number raises when it is read.
pub record Url : Type 0 where
  pub scheme : String
  pub netloc : String
  pub username : Option String
  pub password : Option String
  pub path : String
  pub query : String
  pub fragment : String
  pub hostname : Option String
  pub port : Result (Option String)

-- The functions of `urllib.parse` that the code calls.
pub record Urllib : Type 0 where
  pub urlsplit : String → Result Url
  pub quote : String → String
  pub unquote : String → String

abbrev pub require : Bool → Result {0} Unit
require true = ok tt
require false = raised value_error

abbrev pub or_raise {ℓ} : {A : Type ℓ} → Option A → Result A
or_raise none = raised value_error
or_raise (some a) = ok a

abbrev pub port_suffix : Option String → String
port_suffix none = ""
port_suffix (some port) = ":" <> port

-- `[a-z0-9_-]`
unfoldable pub is_identifier_char : ℕ → Bool
is_identifier_char c = leb 97 c && leb c 122 || leb 48 c && leb c 57 || c == 95 || c == 45

unfoldable pub all_identifier_chars : String → Bool
unfolding is_identifier_char
all_identifier_chars [] = true
all_identifier_chars (c ∷ s) = is_identifier_char (code c) && all_identifier_chars s

-- `char in text`
unfoldable pub has_char : ℕ → String → Bool
has_char k [] = false
has_char k (c ∷ s) = code c == k || has_char k s

-- `LocalActorKind`
pub data ActorKind : Type 0 where
  service user community : ActorKind

-- the text of a kind, and `_coerce_kind` of a text
abbrev pub kind_value : ActorKind → String
kind_value service = "service"
kind_value user = "user"
kind_value community = "community"

unfoldable pub coerce_kind : String → Result ActorKind
coerce_kind text =
    if text == "service"
    then ok service
    else if text == "user"
    then ok user
    else if text == "community"
    then ok community
    else raised value_error

-- `_KIND_TO_SEGMENT`
abbrev pub kind_segment : ActorKind → String
kind_segment service = "services"
kind_segment user = "users"
kind_segment community = "communities"

-- `_SEGMENT_TO_KIND`
unfoldable pub segment_kind : String → Option ActorKind
segment_kind text =
    if text == "services"
    then some service
    else if text == "users"
    then some user
    else if text == "communities"
    then some community
    else none

-- `_validate_user_identifier`
unfoldable pub validate_user_identifier : String → Result {0} Unit
unfolding all_identifier_chars
validate_user_identifier identifier = require (identifier != "" && all_identifier_chars identifier)

-- `_validate_community_identifier`
unfoldable pub validate_community_identifier : String → Result {0} Unit
unfolding all_identifier_chars
validate_community_identifier identifier =
    require (identifier != "" && all_identifier_chars identifier)

-- `_validate_service_identifier`
unfoldable pub validate_service_identifier : String → Result {0} Unit
validate_service_identifier identifier = require (
    identifier != ""
    && not (has_char b'/' identifier || has_char b'?' identifier || has_char b'#' identifier))

unfoldable pub validate_identifier : ActorKind → String → Result {0} Unit
validate_identifier user identifier = validate_user_identifier identifier
validate_identifier community identifier = validate_community_identifier identifier
validate_identifier service identifier = validate_service_identifier identifier

abbrev pub is_http : String → Bool
is_http scheme = scheme == "http" || scheme == "https"

-- the four tests of `_normalize_origin`, all of which raise ValueError
unfoldable pub is_origin : Url → Bool
is_origin parsed =
    is_http parsed.scheme
    && parsed.netloc != ""
    && (is_none parsed.username && is_none parsed.password)
    && (parsed.path == "" || parsed.path == "/")
    && (parsed.query == "" && parsed.fragment == "")

abbrev pub origin_text : String → String → Option String → String
origin_text scheme host port = scheme <> "://" <> host <> port_suffix port

abbrev pub origin_parts : String → Option String → Result (Option String) → Result String
origin_parts scheme none port = raised value_error
origin_parts scheme (some host) (raised e) = raised e
origin_parts scheme (some host) (ok port) = ok (origin_text scheme host port)

-- the scheme, host and port of a URL in one spelling
unfoldable pub url_origin : Url → Result String
url_origin parsed = origin_parts parsed.scheme parsed.hostname parsed.port

module _ (lib : Urllib) where
  -- `_normalize_origin`
  unfoldable pub normalize_origin : String → Result String
  normalize_origin origin = do
    parsed ← lib.urlsplit origin
    require (is_origin parsed)
    url_origin parsed

  -- `_segment`
  unfoldable pub segment : String → Result String
  segment text = do require (text != ""); ok (lib.quote text)

  -- `_actor_root`
  unfoldable pub actor_root : String → ActorKind → String → Result String
  actor_root origin kind identifier = do
    root ← normalize_origin origin
    validate_identifier kind identifier
    name ← segment identifier
    ok (root <> "/actors/" <> kind_segment kind <> "/" <> name)

  unfoldable pub user_root : String → String → Result String
  user_root origin username = actor_root origin user username

  unfoldable pub community_root : String → String → Result String
  community_root origin slug = actor_root origin community slug

  unfoldable pub service_root : String → String → Result String
  service_root origin identifier = actor_root origin service identifier

  -- a URL below the root of an actor: its f-string with the text between the root and the last part
  below : Result String → String → String → Result String
  below actor middle part = do root ← actor; last ← segment part; ok (root <> middle <> last)

  unfoldable pub build_user_post_object_id : String → String → String → Result String
  unfolding below
  build_user_post_object_id origin username part =
      below (user_root origin username) "/objects/posts/" part

  unfoldable pub build_user_comment_object_id : String → String → String → Result String
  unfolding below
  build_user_comment_object_id origin username part =
      below (user_root origin username) "/objects/comments/" part

  unfoldable pub build_user_create_post_activity_id : String → String → String → Result String
  unfolding below
  build_user_create_post_activity_id origin username part =
      below (user_root origin username) "/activities/create/posts/" part

  unfoldable pub build_user_create_comment_activity_id : String → String → String → Result String
  unfolding below
  build_user_create_comment_activity_id origin username part =
      below (user_root origin username) "/activities/create/comments/" part

  unfoldable pub build_user_update_post_activity_id : String → String → String → Result String
  unfolding below
  build_user_update_post_activity_id origin username part =
      below (user_root origin username) "/activities/update/posts/" part

  unfoldable pub build_user_update_comment_activity_id : String → String → String → Result String
  unfolding below
  build_user_update_comment_activity_id origin username part =
      below (user_root origin username) "/activities/update/comments/" part

  unfoldable pub build_user_delete_post_activity_id : String → String → String → Result String
  unfolding below
  build_user_delete_post_activity_id origin username part =
      below (user_root origin username) "/activities/delete/posts/" part

  unfoldable pub build_user_delete_comment_activity_id : String → String → String → Result String
  unfolding below
  build_user_delete_comment_activity_id origin username part =
      below (user_root origin username) "/activities/delete/comments/" part

  unfoldable pub build_user_accept_follow_activity_id : String → String → String → Result String
  unfolding below
  build_user_accept_follow_activity_id origin username part =
      below (user_root origin username) "/activities/accept/follows/" part

  unfoldable pub build_user_profile_update_activity_id : String → String → String → Result String
  unfolding below
  build_user_profile_update_activity_id origin username part =
      below (user_root origin username) "/activities/update/profile/" part

  unfoldable pub build_community_post_object_id : String → String → String → Result String
  unfolding below
  build_community_post_object_id origin slug part =
      below (community_root origin slug) "/objects/posts/" part

  unfoldable pub build_community_comment_object_id : String → String → String → Result String
  unfolding below
  build_community_comment_object_id origin slug part =
      below (community_root origin slug) "/objects/comments/" part

  unfoldable pub build_community_create_post_activity_id : String → String → String → Result String
  unfolding below
  build_community_create_post_activity_id origin slug part =
      below (community_root origin slug) "/activities/create/posts/" part

  unfoldable pub build_community_create_comment_activity_id :
      String → String → String → Result String
  unfolding below
  build_community_create_comment_activity_id origin slug part =
      below (community_root origin slug) "/activities/create/comments/" part

  unfoldable pub build_community_announce_post_activity_id :
      String → String → String → Result String
  unfolding below
  build_community_announce_post_activity_id origin slug part =
      below (community_root origin slug) "/activities/announce/posts/" part

  unfoldable pub build_community_announce_comment_activity_id :
      String → String → String → Result String
  unfolding below
  build_community_announce_comment_activity_id origin slug part =
      below (community_root origin slug) "/activities/announce/comments/" part

  unfoldable pub build_community_update_post_activity_id : String → String → String → Result String
  unfolding below
  build_community_update_post_activity_id origin slug part =
      below (community_root origin slug) "/activities/update/posts/" part

  unfoldable pub build_community_update_comment_activity_id :
      String → String → String → Result String
  unfolding below
  build_community_update_comment_activity_id origin slug part =
      below (community_root origin slug) "/activities/update/comments/" part

  unfoldable pub build_community_delete_post_activity_id : String → String → String → Result String
  unfolding below
  build_community_delete_post_activity_id origin slug part =
      below (community_root origin slug) "/activities/delete/posts/" part

  unfoldable pub build_community_delete_comment_activity_id :
      String → String → String → Result String
  unfolding below
  build_community_delete_comment_activity_id origin slug part =
      below (community_root origin slug) "/activities/delete/comments/" part

  unfoldable pub build_community_accept_follow_activity_id :
      String → String → String → Result String
  unfolding below
  build_community_accept_follow_activity_id origin slug part =
      below (community_root origin slug) "/activities/accept/follows/" part

  unfoldable pub build_service_follow_activity_id : String → String → String → Result String
  unfolding below
  build_service_follow_activity_id origin identifier part =
      below (service_root origin identifier) "/activities/follow/" part

  unfoldable pub build_service_undo_follow_activity_id : String → String → String → Result String
  unfolding below
  build_service_undo_follow_activity_id origin identifier part =
      below (service_root origin identifier) "/activities/undo/follows/" part
