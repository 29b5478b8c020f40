-- ===== src/Policy/Entries.antt =====
-- src/db/repositories/bridge_policy_entries.py: the dynamic policy rows.
use discord_fediverse_bridge.Base.{
  ℕ, String, Bool, ◌&&◌, Option, none, some, List, [], ◌∷◌, ◌++◌, ◌==◌, nat_eq, string_eq,
  option_eq, filter, any, find, sort_by, if◌then◌else◌, text_leb, Result, ok, raised,
  integrity_error, lookup_error,
}
use discord_fediverse_bridge.Base.Table.{update_where, get, next_id}

-- `BridgePolicyEntry`
pub record PolicyRow : Type 0 where
  pub id : ℕ
  pub policy_type : String
  pub normalized_subject : String
  pub status : String
  pub reason : Option String
  pub created_by_discord_user_id : String
  pub updated_by_discord_user_id : String
  pub created_at : ℕ
  pub updated_at : ℕ

abbrev pub is_row_of : String → String → PolicyRow → Bool
is_row_of policy_type subject row =
    row.policy_type == policy_type && row.normalized_subject == subject

unfoldable pub get_by_type_and_subject : String → String → List PolicyRow → Option PolicyRow
get_by_type_and_subject policy_type subject rows = find (is_row_of policy_type subject) rows

abbrev pub row_leb : PolicyRow → PolicyRow → Bool
row_leb r s =
    if r.policy_type == s.policy_type
    then text_leb r.normalized_subject s.normalized_subject
    else text_leb r.policy_type s.policy_type

unfoldable pub list_active_by_type : String → List PolicyRow → List PolicyRow
list_active_by_type policy_type rows =
    sort_by (λ (r s : PolicyRow). text_leb r.normalized_subject s.normalized_subject)
      (filter (λ (r : PolicyRow). r.policy_type == policy_type && r.status == "active") rows)

unfoldable pub list_all_active : List PolicyRow → List PolicyRow
list_all_active rows = sort_by row_leb (filter (λ (r : PolicyRow). r.status == "active") rows)

abbrev pub new_row : ℕ → ℕ → String → String → String → Option String → PolicyRow
new_row now id policy_type subject actor reason = record {
  id = id;
  policy_type = policy_type;
  normalized_subject = subject;
  status = "active";
  reason = reason;
  created_by_discord_user_id = actor;
  updated_by_discord_user_id = actor;
  created_at = now;
  updated_at = now;
}

-- a flush writes a row, with its `onupdate` time, only where a column has a new value
abbrev pub flushed : ℕ → PolicyRow → PolicyRow → PolicyRow
flushed now old new =
    if old.status == new.status
      && old.reason == new.reason
      && old.updated_by_discord_user_id == new.updated_by_discord_user_id
    then old
    else record new { updated_at = now }

-- what `PolicyActivationResult` keeps of a row, before and after
pub record Summary : Type 0 where
  pub status : String
  pub reason : Option String

abbrev pub summary : PolicyRow → Summary
summary row = record { status = row.status; reason = row.reason }

pub data PolicyKind : Type 0 where
  created reactivated : PolicyKind

-- `PolicyActivationResult`
pub record PolicyActivation : Type 0 where
  pub entry : PolicyRow
  pub kind : PolicyKind
  pub before : Option Summary
  pub after : Summary

unfoldable pub create_active_in_session :
    ℕ
    → String
    → String
    → String
    → Option String
    → List PolicyRow
    → Result (PolicyActivation × List PolicyRow)
create_active_in_session now policy_type subject actor reason rows =
    let row =
      new_row now (next_id (λ (r : PolicyRow). r.id) rows) policy_type subject actor reason in
    if any (is_row_of policy_type subject) rows
    then raised integrity_error
    else ok (
      record { entry = row; kind = created; before = none; after = summary row },
      rows ++ row ∷ [],
    )

abbrev pub activated_row : ℕ → String → Option String → PolicyRow → PolicyRow
activated_row now actor reason row =
    flushed now row
      (record row { status = "active"; reason = reason; updated_by_discord_user_id = actor })

abbrev pub restored_row :
    ℕ
    → ℕ
    → String
    → Option String
    → List PolicyRow
    → Option PolicyRow
    → Result (PolicyActivation × List PolicyRow)
restored_row now entry_id actor reason rows none = raised lookup_error
restored_row now entry_id actor reason rows (some row) = ok (
  record {
    entry = activated_row now actor reason row;
    kind = reactivated;
    before = some (summary row);
    after = record { status = "active"; reason = reason };
  },
  update_where (λ (r : PolicyRow). r.id == entry_id) (activated_row now actor reason) rows,
)

unfoldable pub reactivate_in_session :
    ℕ → ℕ → String → Option String → List PolicyRow → Result (PolicyActivation × List PolicyRow)
reactivate_in_session now entry_id actor reason rows =
    restored_row now entry_id actor reason rows (get (λ (r : PolicyRow). r.id) entry_id rows)

abbrev pub deactivated_row : ℕ → String → PolicyRow → PolicyRow
deactivated_row now actor row =
    flushed now row (record row { status = "inactive"; updated_by_discord_user_id = actor })

abbrev pub dropped_row :
    ℕ → ℕ → String → List PolicyRow → Option PolicyRow → Result (PolicyRow × List PolicyRow)
dropped_row now entry_id actor rows none = raised lookup_error
dropped_row now entry_id actor rows (some row) = ok (
  deactivated_row now actor row,
  update_where (λ (r : PolicyRow). r.id == entry_id) (deactivated_row now actor) rows,
)

unfoldable pub deactivate_in_session :
    ℕ → ℕ → String → List PolicyRow → Result (PolicyRow × List PolicyRow)
deactivate_in_session now entry_id actor rows =
    dropped_row now entry_id actor rows (get (λ (r : PolicyRow). r.id) entry_id rows)
