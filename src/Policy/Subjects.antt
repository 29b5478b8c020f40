-- ===== src/Policy/Subjects.antt =====
-- src/bridge_policy.py: the policy types, and how a subject is normalized.
use Prim.Native.Char.{code}
use Prim.Native.String.{[], ◌∷◌}
use discord_fediverse_bridge.Base.{
  ℕ, String, ◌<>◌, Bool, true, false, ◌&&◌, ◌||◌, not, Option, none, some, ◌==◌, nat_eq, string_eq,
  if◌then◌else◌, has_text, Result, ok, raised, value_error, ◌>>=◌, ◌>>◌, Eq,
}
use discord_fediverse_bridge.IdentityUrls.{require, or_raise}
use discord_fediverse_bridge.Delivery.Diagnostics.{is_space}

-- What the code calls of Python's library: the decimal digits of Unicode, the host of a split URL,
-- which raises on a malformed one, an IP address in its short form, none where the text is no
-- address, the IDNA encoding, none where it fails, and small letters.
pub record Python : Type 0 where
  pub is_decimal : ℕ → Bool
  pub hostname : String → Result (Option String)
  pub ip_compressed : String → Option String
  pub idna : String → Option String
  pub lower : String → String

pub data PolicyType : Type 0 where
  federation_allow federation_block discord_guild_allow discord_guild_block bridge_super_admin :
      PolicyType

PolicyType-discrete : Discrete PolicyType
PolicyType-discrete = hlevel

instance unfoldable pub policy_type_eq : Eq PolicyType
unfolding PolicyType-discrete
policy_type_eq = record { dec = PolicyType-discrete }

abbrev pub policy_value : PolicyType → String
policy_value federation_allow = "federation_allow"
policy_value federation_block = "federation_block"
policy_value discord_guild_allow = "discord_guild_allow"
policy_value discord_guild_block = "discord_guild_block"
policy_value bridge_super_admin = "bridge_super_admin"

-- `PolicyType(value)`
unfoldable pub parse_policy_type : String → Result PolicyType
parse_policy_type value =
    if value == "federation_allow"
    then ok federation_allow
    else if value == "federation_block"
    then ok federation_block
    else if value == "discord_guild_allow"
    then ok discord_guild_allow
    else if value == "discord_guild_block"
    then ok discord_guild_block
    else if value == "bridge_super_admin"
    then ok bridge_super_admin
    else raised value_error

any_space : String → Bool
unfolding is_space
any_space [] = false
any_space (c ∷ s) = is_space (code c) || any_space s

-- `host.rstrip(".")`
strip_dots : String → String
strip_dots [] = []
strip_dots (c ∷ s) =
    let rest = strip_dots s in if code c == b'.' && rest == "" then [] else c ∷ rest

-- an empty part of `normalized.split(".")`, from the start of a part or inside one
has_empty_label : Bool → String → Bool
has_empty_label at_start [] = at_start
has_empty_label at_start (c ∷ s) =
    let here = at_start || has_empty_label true s in
    let inside = has_empty_label false s in if code c == b'.' then here else inside

module _ (python : Python) where
  all_decimal : String → Bool
  all_decimal [] = true
  all_decimal (c ∷ s) = python.is_decimal (code c) && all_decimal s

  unfoldable pub normalize_snowflake : String → Result String
  unfolding all_decimal
  normalize_snowflake text = require (not (text == "") && all_decimal text) >> ok text

  -- the DNS name, where the host is no IP address
  unfoldable pub normalize_name : String → Result String
  unfolding has_empty_label
  normalize_name host = do
    encoded ← or_raise (python.idna host)
    let normalized = python.lower encoded in
        require (not (normalized == "" || has_empty_label true normalized)) >> ok normalized

  unfoldable pub normalize_host : String → Result String
  normalize_host host = elim (python.ip_compressed host) [
    | some address ↦ ok (python.lower address)
    | none ↦ normalize_name host
  ]

  unfoldable pub normalize_instance_subject : String → Result String
  unfolding any_space strip_dots
  normalize_instance_subject value = do
    require (not (value == "" || any_space value))
    parsed ← python.hostname (if has_text "://" value then value else "//" <> value)
    host ← or_raise parsed
    require (not (host == ""))
    normalize_host (strip_dots host)

  unfoldable pub normalize_subject : PolicyType → String → Result String
  normalize_subject federation_allow subject = normalize_instance_subject subject
  normalize_subject federation_block subject = normalize_instance_subject subject
  normalize_subject discord_guild_allow subject = normalize_snowflake subject
  normalize_subject discord_guild_block subject = normalize_snowflake subject
  normalize_subject bridge_super_admin subject = normalize_snowflake subject
