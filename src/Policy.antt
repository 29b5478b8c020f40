-- ===== src/Policy.antt =====
-- src/bridge_policy.py: who may use the bridge, merged from the settings and the policy rows.
-- src/db/repositories/bridge_policy_entries.py: the rows.
pub mod Subjects
pub mod Entries
mod Admission
mod Merge
mod Removal
mod Tests
use discord_fediverse_bridge.Base.{
  ℕ, ◌≡◌, String, Bool, true, false, ◌&&◌, ◌||◌, not, Option, none, some, List, [], ◌∷◌, map, ◌==◌,
  string_eq, contains, filter, sort_by, if◌then◌else◌, text_leb, Result, ok, raised, ◌>>=◌, Eq,
}
use discord_fediverse_bridge.Policy.Subjects.{
  Python, PolicyType, federation_allow, federation_block, discord_guild_allow, discord_guild_block,
  bridge_super_admin, policy_type_eq, policy_value, parse_policy_type, normalize_snowflake,
  normalize_instance_subject, normalize_subject,
}
use discord_fediverse_bridge.Policy.Entries.{PolicyRow, list_all_active}

pub data Origin : Type 0 where
  bootstrap dynamic : Origin

-- `EffectivePolicyEntry`
pub record PolicyEntry : Type 0 where
  pub policy_type : PolicyType
  pub subject : String
  pub origin : Origin

pub data FederationReason : Type 0 where
  allowed blocklisted not_allowlisted invalid_host : FederationReason

-- `FederationPolicyDecision`
pub record FederationDecision : Type 0 where
  pub admits : Bool
  pub reason : FederationReason
  pub host : Option String

-- The lists of `settings`.
pub record Settings : Type 0 where
  pub federation_allowlist : List String
  pub federation_blocklist : List String
  pub discord_guild_allowlist : List String
  pub discord_guild_blocklist : List String
  pub bridge_super_admin_user_ids : List String

-- `BridgePolicySnapshot._subjects`
unfoldable pub subjects : PolicyType → List PolicyEntry → List String
unfolding filter
subjects t entries =
    map (λ (e : PolicyEntry). e.subject) (filter (λ (e : PolicyEntry). e.policy_type == t) entries)

abbrev pub is_empty : List String → Bool
is_empty [] = true
is_empty (x ∷ xs) = false

abbrev pub decide_host : List String → List String → String → FederationDecision
decide_host blocked allows host =
    if contains blocked host
    then record { admits = false; reason = blocklisted; host = some host }
    else if not (is_empty allows) && not (contains allows host)
    then record { admits = false; reason = not_allowlisted; host = some host }
    else record { admits = true; reason = allowed; host = some host }

abbrev pub decide_federation : List PolicyEntry → Result String → FederationDecision
decide_federation entries (raised e) = record { admits = false; reason = invalid_host; host = none }
decide_federation entries (ok host) =
    decide_host (subjects federation_block entries) (subjects federation_allow entries) host

abbrev decide_guild : List String → List String → String → Bool
decide_guild blocked allows guild =
    if contains blocked guild then false else is_empty allows || contains allows guild

-- the entries of one type, in the order of their subjects
unfoldable pub list_effective_entries : PolicyType → List PolicyEntry → List PolicyEntry
list_effective_entries t entries =
    sort_by (λ (e f : PolicyEntry). text_leb e.subject f.subject)
      (filter (λ (e : PolicyEntry). e.policy_type == t) entries)

-- the order of the values and subjects, as that of pairs
abbrev pub entry_leb : PolicyEntry → PolicyEntry → Bool
entry_leb e f =
    if policy_value e.policy_type == policy_value f.policy_type
    then text_leb e.subject f.subject
    else text_leb (policy_value e.policy_type) (policy_value f.policy_type)

abbrev pub same_key : PolicyEntry → PolicyEntry → Bool
same_key e f = e.policy_type == f.policy_type && e.subject == f.subject

-- `merged[key] = entry`
unfoldable pub put : PolicyEntry → List PolicyEntry → List PolicyEntry
put e [] = e ∷ []
put e (f ∷ fs) = let rest = put e fs in if same_key e f then e ∷ fs else f ∷ rest

-- `merged.setdefault(key, entry)`
unfoldable pub set_default : PolicyEntry → List PolicyEntry → List PolicyEntry
set_default e [] = e ∷ []
set_default e (f ∷ fs) = let rest = set_default e fs in if same_key e f then f ∷ fs else f ∷ rest

-- the rows of the table, in their order
unfoldable pub merge_rows : List PolicyRow → List PolicyEntry → Result (List PolicyEntry)
merge_rows [] merged = ok merged
merge_rows (row ∷ rows) merged = parse_policy_type row.policy_type >>= λ t. merge_rows rows (
    set_default (record { policy_type = t; subject = row.normalized_subject; origin = dynamic })
      merged)

module _ (python : Python) where
  unfoldable pub is_super_admin : List PolicyEntry → String → Bool
  is_super_admin entries user = elim (normalize_snowflake python user) [
    | raised e ↦ false
    | ok subject ↦ contains (subjects bridge_super_admin entries) subject
  ]

  unfoldable pub is_discord_guild_allowed : List PolicyEntry → Option String → Bool
  is_discord_guild_allowed entries none = true
  is_discord_guild_allowed entries (some guild) = elim (normalize_snowflake python guild) [
    | raised e ↦ false
    | ok subject ↦
        decide_guild (subjects discord_guild_block entries) (subjects discord_guild_allow entries)
          subject
  ]

  unfoldable pub federation_decision : List PolicyEntry → String → FederationDecision
  federation_decision entries url_or_host =
      decide_federation entries (normalize_instance_subject python url_or_host)

  -- one list of the settings
  unfoldable pub merge_values :
      PolicyType → List String → List PolicyEntry → Result (List PolicyEntry)
  merge_values t [] merged = ok merged
  merge_values t (raw ∷ values) merged = normalize_subject python t raw >>= λ subject.
      merge_values t values
        (put (record { policy_type = t; subject = subject; origin = bootstrap }) merged)

  unfoldable pub merge_bootstrap : Settings → Result (List PolicyEntry)
  merge_bootstrap settings = do
    a ← merge_values federation_allow settings.federation_allowlist []
    b ← merge_values federation_block settings.federation_blocklist a
    c ← merge_values discord_guild_allow settings.discord_guild_allowlist b
    d ← merge_values discord_guild_block settings.discord_guild_blocklist c
    merge_values bridge_super_admin settings.bridge_super_admin_user_ids d

  -- `BridgePolicyService.snapshot`
  unfoldable pub snapshot : Settings → List PolicyRow → Result (List PolicyEntry)
  snapshot settings rows = do
    merged ← merge_bootstrap settings
    all ← merge_rows (list_all_active rows) merged
    ok (sort_by entry_leb all)
