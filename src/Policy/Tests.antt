-- ===== src/Policy/Tests.antt =====
-- src/bridge_policy.py: a small policy of one blocked instance and two rows, one of them inactive.
use Prim.Native.String.{[], ◌∷◌}
use discord_fediverse_bridge.Base.{
  ℕ, ◌≡◌, ◌↔◌, refl, String, Bool, true, false, ◌&&◌, ◌||◌, leb, none, some, List, [], ◌∷◌, any,
  ◌==◌, string_eq, nat_eq, contains, filter, insert_by, sort_by, ok, inl, ap, arith, find,
  option_eq,
}
use discord_fediverse_bridge.Base.Table.{update_where, get}
use discord_fediverse_bridge.Delivery.Diagnostics.{is_space}
use discord_fediverse_bridge.Policy.Subjects.{
  Python, PolicyType, federation_allow, federation_block, policy_type_eq, parse_policy_type,
  normalize_snowflake, normalize_instance_subject, normalize_host, normalize_name,
  normalize_subject,
}
use discord_fediverse_bridge.Policy.Entries.{PolicyRow, deactivate_in_session, list_all_active}
use discord_fediverse_bridge.Policy.{
  PolicyEntry, Settings, blocklisted, bootstrap, dynamic, subjects, put, set_default, merge_rows,
  merge_values, merge_bootstrap, snapshot, federation_decision,
}
use discord_fediverse_bridge.Policy.Merge.{snapshot-subjects, is_value_for, is_row_for, values_of}
use discord_fediverse_bridge.Policy.Removal.{deactivate_lifts_policy}
use discord_fediverse_bridge.Policy.Removal.{key_of}
use discord_fediverse_bridge.Base.Distinct.{Distinct}
use discord_fediverse_bridge.Policy.Admission.{
  federation_decision_admits, federation_blocklist_holds, Admits,
}

-- the host of a text that starts with two slashes
abbrev drop_slashes : String → String
drop_slashes [] = []
drop_slashes (a ∷ []) = []
drop_slashes (a ∷ (b ∷ s)) = s

abbrev python : Python
python = record {
  is_decimal = λ c. leb 48 c && leb c 57;
  hostname = λ text. ok (some (drop_slashes text));
  ip_compressed = λ host. none;
  idna = λ host. some host;
  lower = λ text. text;
}

abbrev settings : Settings
settings = record {
  federation_allowlist = List.[];
  federation_blocklist = List.◌∷◌ "bad.example" List.[];
  discord_guild_allowlist = List.[];
  discord_guild_blocklist = List.[];
  bridge_super_admin_user_ids = List.◌∷◌ "42" List.[];
}

abbrev row : ℕ → String → String → String → PolicyRow
row id policy_type subject status = record {
  id = id;
  policy_type = policy_type;
  normalized_subject = subject;
  status = status;
  reason = none;
  created_by_discord_user_id = "42";
  updated_by_discord_user_id = "42";
  created_at = 100;
  updated_at = 100;
}

abbrev rows : List PolicyRow
rows =
    List.◌∷◌ (row 1 "federation_allow" "good.example" "active")
      (List.◌∷◌ (row 2 "federation_block" "good.example" "inactive") List.[])

abbrev entry : PolicyType → String → PolicyEntry
entry t subject = record { policy_type = t; subject = subject; origin = bootstrap }

abbrev entries : List PolicyEntry
entries = List.◌∷◌ (entry PolicyType.bridge_super_admin "42") (
    List.◌∷◌ (record (entry federation_allow "good.example") { origin = dynamic })
      (List.◌∷◌ (entry federation_block "bad.example") List.[]))

normalizes_bad : normalize_instance_subject python "bad.example" ≡ ok "bad.example"
unfolding normalize_instance_subject normalize_host normalize_name is_space string_eq nat_eq
normalizes_bad = refl

makes_entries : snapshot python settings rows ≡ ok entries
unfolding snapshot merge_bootstrap merge_values merge_rows put set_default list_all_active filter
    sort_by insert_by parse_policy_type normalize_subject normalize_instance_subject normalize_host
    normalize_name normalize_snowflake is_space string_eq nat_eq policy_type_eq
makes_entries = refl

federation_blocklist_holds_example :
    federation_decision python entries "bad.example"
    ≡ record { admits = false; reason = blocklisted; host = some "bad.example" }
federation_blocklist_holds_example =
    federation_blocklist_holds python settings rows entries "bad.example" "bad.example"
      "bad.example" makes_entries (inl refl) normalizes_bad normalizes_bad

snapshot-subjects_example : contains (subjects federation_allow entries) "good.example" ≡ (
    any (is_value_for federation_allow "good.example" python) (values_of federation_allow settings)
    || any
        (λ (r : PolicyRow). r.status == "active" && is_row_for federation_allow "good.example" r)
        rows)
snapshot-subjects_example =
    snapshot-subjects python settings rows entries federation_allow "good.example" makes_entries

federation_decision_admits_example :
    ((federation_decision python entries "bad.example").admits ≡ true) ↔ (
      (host : String) × (normalize_instance_subject python "bad.example" ≡ ok host)
      × Admits entries host)
federation_decision_admits_example = federation_decision_admits python entries "bad.example"

-- the first row, removed
abbrev removed_row : PolicyRow
removed_row = record (row 1 "federation_allow" "good.example" "inactive") {
  updated_by_discord_user_id = "7";
  updated_at = 200;
}

abbrev rows_after : List PolicyRow
rows_after =
    List.◌∷◌ removed_row (List.◌∷◌ (row 2 "federation_block" "good.example" "inactive") List.[])

removes : deactivate_in_session 200 1 "7" rows ≡ ok (removed_row, rows_after)
unfolding deactivate_in_session get find update_where string_eq nat_eq option_eq
removes = refl

abbrev entries_after : List PolicyEntry
entries_after =
    List.◌∷◌ (entry PolicyType.bridge_super_admin "42")
      (List.◌∷◌ (entry federation_block "bad.example") List.[])

makes_entries_after : snapshot python settings rows_after ≡ ok entries_after
unfolding snapshot merge_bootstrap merge_values merge_rows put set_default list_all_active filter
    sort_by insert_by parse_policy_type normalize_subject normalize_instance_subject normalize_host
    normalize_name normalize_snowflake is_space string_eq nat_eq policy_type_eq
makes_entries_after = refl

abbrev is_allow_key : String × String → Bool
is_allow_key key = key.0 == "federation_allow"

rows_keys : Distinct key_of rows
unfolding string_eq
rows_keys =
    ((λ e. let wrong : false ≡ true = ap is_allow_key e in ground (arith, wrong), tt), (tt, tt))

deactivate_lifts_policy_example :
    contains (subjects federation_allow entries_after) removed_row.normalized_subject
    ≡ any
        (is_value_for federation_allow removed_row.normalized_subject python)
        (values_of federation_allow settings)
deactivate_lifts_policy_example =
    deactivate_lifts_policy python settings 200 1 "7" rows rows_after removed_row entries_after
      federation_allow rows_keys removes refl makes_entries_after
