-- ===== src/Policy/Removal.antt =====
-- src/db/repositories/bridge_policy_entries.py, src/bridge_policy.py: what a removed row leaves.
use discord_fediverse_bridge.Base.{
  ℕ, ◌≡◌, refl, sym, ap, ◌∙◌, String, Bool, true, false, ◌&&◌, Option, none, some, List, [], ◌∷◌,
  In, arith, ◌==◌, option_eq, string_eq, nat_eq, contains, any, find, In-find, ok, Bool-cases, inl,
  inr,
}
use discord_fediverse_bridge.Base.Distinct.{Distinct, Distinct-unique}
use discord_fediverse_bridge.Base.Table.{update_where, get, In-of_update}
use discord_fediverse_bridge.Policy.Subjects.{Python, PolicyType, policy_value}
use discord_fediverse_bridge.Policy.Entries.{
  PolicyRow, deactivated_row, dropped_row, deactivate_in_session,
}
use discord_fediverse_bridge.Policy.{PolicyEntry, Settings, subjects, snapshot}
use discord_fediverse_bridge.Policy.Merge.{
  snapshot-subjects, ok-injective, is_value_for, is_row_for, values_of,
}

-- the key of the UNIQUE constraint
abbrev pub key_of : PolicyRow → String × String
key_of row = (row.policy_type, row.normalized_subject)

any-false_all :
    {A : Type 0} (p : A → Bool) (xs : List A) → ((x : A) → In x xs → p x ≡ false) → any p xs ≡ false
unfolding any
any-false_all p [] h = refl
any-false_all p (x ∷ xs) h = ground (arith, h x (inl refl), any-false_all p xs (λ y m. h y (inr m)))

inactive_differs : (text : String) → text ≡ "inactive" → (text == "active") ≡ false
unfolding string_eq
inactive_differs text e = rw e refl

deactivated_row-inactive :
    (now : ℕ) (actor : String) (row : PolicyRow)
    → (deactivated_row now actor row).status ≡ "inactive"
deactivated_row-inactive now actor row = ground arith

deactivated_row-key :
    (now : ℕ) (actor : String) (row : PolicyRow)
    → key_of (deactivated_row now actor row) ≡ key_of row
deactivated_row-key now actor row = ground arith

-- the row that a removal finds
record Removal (now id : ℕ) (actor : String) (rows : List PolicyRow) (row : PolicyRow)
    (after : List PolicyRow) : Type 0 where
  pub old : PolicyRow
  pub here : In old rows
  pub has_id : (old.id == id) ≡ true
  pub written : row ≡ deactivated_row now actor old
  pub table : after ≡ update_where (λ (r : PolicyRow). r.id == id) (deactivated_row now actor) rows

dropped_row-Removal :
    (now id : ℕ) (actor : String) (rows : List PolicyRow) (row : PolicyRow) (after : List PolicyRow)
    (found : Option PolicyRow)
    → find (λ (r : PolicyRow). r.id == id) rows ≡ found
    → dropped_row now id actor rows found ≡ ok (row, after)
    → Removal now id actor rows row after
dropped_row-Removal now id actor rows row after none f h = cc
dropped_row-Removal now id actor rows row after (some old) f h =
    let pair = ok-injective h in
    let (here, has_id) = In-find (λ (r : PolicyRow). r.id == id) rows old f in
    record {
      old = old;
      here = here;
      has_id = has_id;
      written = sym (ap (λ (p : PolicyRow × List PolicyRow). p.0) pair);
      table = sym (ap (λ (p : PolicyRow × List PolicyRow). p.1) pair);
    }

deactivate_in_session-Removal :
    (now id : ℕ) (actor : String) (rows : List PolicyRow) (row : PolicyRow) (after : List PolicyRow)
    → deactivate_in_session now id actor rows ≡ ok (row, after)
    → Removal now id actor rows row after
unfolding deactivate_in_session get
deactivate_in_session-Removal now id actor rows row after h =
    dropped_row-Removal now id actor rows row after (find (λ (r : PolicyRow). r.id == id) rows) refl
      h

abbrev is_active_for : PolicyType → String → PolicyRow → Bool
is_active_for t x row = row.status == "active" && is_row_for t x row

-- the removed row was the only one of its type and subject
no_active_row :
    (now id : ℕ) (actor : String) (rows after : List PolicyRow) (row : PolicyRow) (t : PolicyType)
    → Distinct key_of rows
    → Removal now id actor rows row after
    → row.policy_type ≡ policy_value t
    → (y : PolicyRow)
    → In y (update_where (λ (r : PolicyRow). r.id == id) (deactivated_row now actor) rows)
    → is_active_for t row.normalized_subject y ≡ false
no_active_row now id actor rows after row t single m typed y there =
    let (x, here, c) =
      In-of_update (λ (r : PolicyRow). r.id == id) (deactivated_row now actor) rows y there in
    elim c [
      | inl (hit, e) ↦ ground (
        arith,
        inactive_differs y.status
            (ap (λ (r : PolicyRow). r.status) e ∙ deactivated_row-inactive now actor x),
      )
      | inr (miss, e) ↦ elim (Bool-cases (is_active_for t row.normalized_subject y)) [
        | inr passive ↦ passive
        | inl active ↦
            let same_type : y.policy_type ≡ row.policy_type = ground (arith, active, typed) in
            let same_subject : y.normalized_subject ≡ row.normalized_subject =
              ground (arith, active) in
            let same_key : key_of y ≡ key_of row = rw (same_type, same_subject) refl in
            let k : key_of x ≡ key_of m.old =
              ap key_of (sym e)
              ∙ same_key
              ∙ ap key_of m.written
              ∙ deactivated_row-key now actor m.old in
            let same = Distinct-unique key_of x m.old rows single here m.here k in
            ground (arith, m.has_id, ap (λ (r : PolicyRow). r.id) same)
      ]
    ]

-- After the removal of a row of a policy type, a snapshot has its subject for that type exactly when a value of the settings is that subject, if no
-- two rows of the table share their type and subject.
pub deactivate_lifts_policy :
    (python : Python) (settings : Settings) (now id : ℕ) (actor : String)
    (rows after : List PolicyRow) (row : PolicyRow) (entries : List PolicyEntry) (t : PolicyType)
    → Distinct key_of rows
    → deactivate_in_session now id actor rows ≡ ok (row, after)
    → row.policy_type ≡ policy_value t
    → snapshot python settings after ≡ ok entries
    → contains (subjects t entries) row.normalized_subject
      ≡ any (is_value_for t row.normalized_subject python) (values_of t settings)
deactivate_lifts_policy python settings now id actor rows after row entries t single h typed made =
    let m = deactivate_in_session-Removal now id actor rows row after h in
    let x = row.normalized_subject in
    let none_left : any (is_active_for t x) after ≡ false =
      ap (any (is_active_for t x)) m.table
      ∙ any-false_all (is_active_for t x) _
          (no_active_row now id actor rows after row t single m typed) in
    ground (arith, none_left, snapshot-subjects python settings after entries t x made)
