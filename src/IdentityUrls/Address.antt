-- ===== src/IdentityUrls/Address.antt =====
-- src/activitypub_identity_urls.py: the family of URLs of an actor, and the parser of an actor URL.
use Prim.Native.Char.{Char, code}
use Prim.Native.String.{[], ◌∷◌}
use discord_fediverse_bridge.Base.{
  String, ◌<>◌, Bool, false, ◌&&◌, ◌||◌, not, Option, none, some, List, ◌==◌, ◌!=◌, string_eq,
  nat_eq, if◌then◌else◌, Result, ok, raised, ◌>>=◌, ◌>>◌,
}
use discord_fediverse_bridge.IdentityUrls.{
  Url, Urllib, ActorKind, kind_value, coerce_kind, segment_kind, has_char, normalize_origin,
  actor_root, is_http, url_origin, require, or_raise,
}

-- `ActorAddress`
pub record Address : Type 0 where
  pub kind : ActorKind
  pub identifier : String
  pub actor_url : String
  pub inbox_url : String
  pub outbox_url : String
  pub followers_url : String
  pub public_key_url : String

abbrev pub address_of : ActorKind → String → String → Address
address_of kind identifier url = record {
  kind = kind;
  identifier = identifier;
  actor_url = url;
  inbox_url = url <> "/inbox";
  outbox_url = url <> "/outbox";
  followers_url = url <> "/followers";
  public_key_url = url <> "#main-key";
}

-- `split("/")`
abbrev put_char : Char → List String → List String
put_char c List.[] = List.◌∷◌ (c ∷ []) List.[]
put_char c (List.◌∷◌ p ps) = List.◌∷◌ (c ∷ p) ps

unfoldable pub split_path : String → List String
split_path [] = List.◌∷◌ "" List.[]
split_path (c ∷ s) =
    let rest = split_path s in if code c == b'/' then List.◌∷◌ "" rest else put_char c rest

-- the segment of the kind and the last one, of a path of four parts
unfoldable pub typed_parts : List String → Option (String × String)
typed_parts (List.◌∷◌ root (List.◌∷◌ actors (List.◌∷◌ kind (List.◌∷◌ name List.[])))) =
    if root == "" && actors == "actors" then some (kind, name) else none
typed_parts parts = none

-- a text that is neither absent nor empty
abbrev is_given : Option String → Bool
is_given none = false
is_given (some text) = text != ""

abbrev pub to_option {ℓ} : {A : Type ℓ} → Result A → Option A
to_option (ok a) = some a
to_option (raised e) = none

-- the tests on a URL that is taken apart, each of which ends in `return None`
unfoldable pub is_actor_url : Url → Bool
is_actor_url parsed =
    not (
      parsed.query != ""
      || parsed.fragment != ""
      || is_given parsed.username
      || is_given parsed.password)
    && (is_http parsed.scheme && parsed.netloc != "")

module _ (lib : Urllib) where
  unfoldable pub build_actor_address : String → String → String → Result Address
  build_actor_address origin kind identifier = do
    actor_kind ← coerce_kind kind
    url ← actor_root lib origin actor_kind identifier
    ok (address_of actor_kind identifier url)

  -- the part behind the path: the segments name a kind and an identifier
  unfoldable pub parse_parts : String → Option (String × String) → Result Address
  parse_parts origin parts = do
    part ← or_raise parts
    kind ← or_raise (segment_kind part.0)
    require (part.1 != "")
    require (not (has_char b'/' (lib.unquote part.1)))
    build_actor_address origin (kind_value kind) (lib.unquote part.1)

  unfoldable pub parse_url : String → Url → Result Address
  parse_url normalized parsed = do
    require (is_actor_url parsed)
    own ← url_origin parsed
    require (own == normalized)
    parse_parts normalized (typed_parts (split_path parsed.path))

  -- `return None` and the handlers of ValueError both end in none
  unfoldable pub parse_local_actor_url : String → String → Option Address
  parse_local_actor_url origin actor_url = to_option (do
    normalized ← normalize_origin lib origin
    parsed ← lib.urlsplit actor_url
    parse_url normalized parsed)
