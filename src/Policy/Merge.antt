-- ===== src/Policy/Merge.antt =====
-- src/bridge_policy.py: what the merge of settings and rows has.
use discord_fediverse_bridge.Base.{
  ◌≡◌, refl, sym, ap, ◌∙◌, String, Bool, false, ◌&&◌, ◌||◌, List, [], ◌∷◌, arith, ◌==◌, string_eq,
  contains, any, filter, insert_by, sort_by, Result, ok, raised, ◌>>=◌, bind-ok,
}
use discord_fediverse_bridge.Policy.Subjects.{
  Python, PolicyType, federation_allow, federation_block, discord_guild_allow, discord_guild_block,
  bridge_super_admin, policy_type_eq, policy_value, parse_policy_type, normalize_subject,
}
use discord_fediverse_bridge.Policy.Entries.{PolicyRow, list_all_active, row_leb}
use discord_fediverse_bridge.Policy.{
  PolicyEntry, Settings, bootstrap, dynamic, subjects, put, set_default, merge_rows, merge_values,
  merge_bootstrap, snapshot, entry_leb,
}

any-insert_by :
    {A : Type 0} (p : A → Bool) (le : A → A → Bool) (x : A) (xs : List A)
    → any p (insert_by le x xs) ≡ (p x || any p xs)
unfolding any insert_by
any-insert_by p le x [] = refl
any-insert_by p le x (y ∷ ys) = ground (arith, any-insert_by p le x ys)

any-sort_by :
    {A : Type 0} (p : A → Bool) (le : A → A → Bool) (xs : List A) → any p (sort_by le xs) ≡ any p xs
unfolding any sort_by
any-sort_by p le [] = refl
any-sort_by p le (x ∷ xs) =
    any-insert_by p le x (sort_by le xs) ∙ ap (◌||◌ (p x)) (any-sort_by p le xs)

any-filter :
    {A : Type 0} (p q : A → Bool) (xs : List A) → any p (filter q xs) ≡ any (λ x. q x && p x) xs
unfolding any filter
any-filter p q [] = refl
any-filter p q (x ∷ xs) = ground (arith, any-filter p q xs)

parse-policy_value : (t : PolicyType) → parse_policy_type (policy_value t) ≡ ok t
unfolding parse_policy_type string_eq
parse-policy_value federation_allow = refl
parse-policy_value federation_block = refl
parse-policy_value discord_guild_allow = refl
parse-policy_value discord_guild_block = refl
parse-policy_value bridge_super_admin = refl

pub ok-injective : {A : Type 0} {t u : A} → ok t ≡ ok u → t ≡ u
ok-injective e = cc

policy_value_injective : (t u : PolicyType) → policy_value t ≡ policy_value u → t ≡ u
policy_value_injective t u e =
    ok-injective (sym (parse-policy_value t) ∙ ap parse_policy_type e ∙ parse-policy_value u)

parsed-value :
    (value : String) (t : PolicyType) → parse_policy_type value ≡ ok t → value ≡ policy_value t
unfolding parse_policy_type
parsed-value value t h = ground arith

-- the list of the settings for a type
abbrev pub values_of : PolicyType → Settings → List String
values_of federation_allow settings = settings.federation_allowlist
values_of federation_block settings = settings.federation_blocklist
values_of discord_guild_allow settings = settings.discord_guild_allowlist
values_of discord_guild_block settings = settings.discord_guild_blocklist
values_of bridge_super_admin settings = settings.bridge_super_admin_user_ids

abbrev pub is_named : String → Result String → Bool
is_named x (raised e) = false
is_named x (ok subject) = subject == x

module _ (t : PolicyType) (x : String) where
  -- an entry of this type and subject
  abbrev is_for : PolicyEntry → Bool
  is_for e = e.policy_type == t && e.subject == x

  contains-subjects : (es : List PolicyEntry) → contains (subjects t es) x ≡ any is_for es
  unfolding subjects filter any
  contains-subjects [] = refl
  contains-subjects (e ∷ es) = ground (arith, contains-subjects es)

  any-put :
      (e : PolicyEntry) (es : List PolicyEntry)
      → any is_for (put e es) ≡ (is_for e || any is_for es)
  unfolding put any
  any-put e [] = refl
  any-put e (f ∷ fs) = ground (arith, any-put e fs)

  any-set_default :
      (e : PolicyEntry) (es : List PolicyEntry)
      → any is_for (set_default e es) ≡ (is_for e || any is_for es)
  unfolding set_default any
  any-set_default e [] = refl
  any-set_default e (f ∷ fs) = ground (arith, any-set_default e fs)

  -- a row of this type and subject
  abbrev pub is_row_for : PolicyRow → Bool
  is_row_for row = row.policy_type == policy_value t && row.normalized_subject == x

  row-entry :
      (row : PolicyRow) (u : PolicyType)
      → row.policy_type ≡ policy_value u
      → is_row_for row ≡ (u == t && row.normalized_subject == x)
  row-entry row u e = ground (arith, policy_value_injective u t)

  any-merge_rows :
      (rows : List PolicyRow) (es all : List PolicyEntry)
      → merge_rows rows es ≡ ok all
      → any is_for all ≡ (any is_row_for rows || any is_for es)
  unfolding merge_rows any
  any-merge_rows [] es all h = ground arith
  any-merge_rows (row ∷ rows) es all h =
      let entry : PolicyType → PolicyEntry =
        λ u. record { policy_type = u; subject = row.normalized_subject; origin = dynamic } in
      let (u, p, rest) =
        bind-ok (parse_policy_type row.policy_type)
          (λ u. merge_rows rows (set_default (entry u) es)) all h in
      ground (
        arith,
        row-entry row u (parsed-value row.policy_type u p),
        any-merge_rows rows (set_default (entry u) es) all rest,
        any-set_default (entry u) es,
      )

  -- a value of the settings that is this subject
  abbrev pub is_value_for : Python → String → Bool
  is_value_for python raw = is_named x (normalize_subject python t raw)

  value-entry :
      (python : Python) (u : PolicyType) (raw s : String)
      → normalize_subject python u raw ≡ ok s
      → (u == t && is_value_for python raw) ≡ (u == t && s == x)
  value-entry python u raw s p = ground (arith, p)

  any-merge_values :
      (python : Python) (u : PolicyType) (values : List String) (es all : List PolicyEntry)
      → merge_values python u values es ≡ ok all
      → any is_for all ≡ (u == t && any (is_value_for python) values || any is_for es)
  unfolding merge_values any
  any-merge_values python u [] es all h = ground arith
  any-merge_values python u (raw ∷ values) es all h =
      let entry : String → PolicyEntry =
        λ s. record { policy_type = u; subject = s; origin = bootstrap } in
      let (s, p, rest) =
        bind-ok (normalize_subject python u raw)
          (λ s. merge_values python u values (put (entry s) es)) all h in
      ground (
        arith,
        value-entry python u raw s p,
        any-merge_values python u values (put (entry s) es) all rest,
        any-put (entry s) es,
      )

  -- the lists in the order in which the merge adds them, the last first
  abbrev merged_values : Python → Settings → Bool
  merged_values python settings =
      let has = any (is_value_for python) in
      bridge_super_admin == t && has settings.bridge_super_admin_user_ids
      || (discord_guild_block == t && has settings.discord_guild_blocklist
          || (discord_guild_allow == t && has settings.discord_guild_allowlist
              || (federation_block == t && has settings.federation_blocklist
                  || (federation_allow == t && has settings.federation_allowlist || false))))

  merged_values-of_type :
      (python : Python) (settings : Settings)
      → merged_values python settings ≡ any (is_value_for python) (values_of t settings)
  merged_values-of_type python settings = ground arith

  any-merge_bootstrap :
      (python : Python) (settings : Settings) (all : List PolicyEntry)
      → merge_bootstrap python settings ≡ ok all
      → any is_for all ≡ any (is_value_for python) (values_of t settings)
  unfolding merge_bootstrap any
  any-merge_bootstrap python settings all h =
      let (a, p, h1) = bind-ok _ _ all h in
      let (b, q, h2) = bind-ok _ _ all h1 in
      let (c, r, h3) = bind-ok _ _ all h2 in
      let (d, u, h4) = bind-ok _ _ all h3 in
      let e4 =
        any-merge_values python bridge_super_admin settings.bridge_super_admin_user_ids d all h4 in
      let e3 = any-merge_values python discord_guild_block settings.discord_guild_blocklist c d u in
      let e2 = any-merge_values python discord_guild_allow settings.discord_guild_allowlist b c r in
      let e1 = any-merge_values python federation_block settings.federation_blocklist a b q in
      let e0 = any-merge_values python federation_allow settings.federation_allowlist [] a p in
      ground (arith, e0, e1, e2, e3, e4) ∙ merged_values-of_type python settings

-- A snapshot has a subject of a type exactly when a value of that type's list in the settings
-- normalizes to it, or an active row of the table has that type and subject.
pub snapshot-subjects :
    (python : Python) (settings : Settings) (rows : List PolicyRow) (entries : List PolicyEntry)
    (t : PolicyType) (x : String)
    → snapshot python settings rows ≡ ok entries
    → contains (subjects t entries) x ≡ (
        any (is_value_for t x python) (values_of t settings)
        || any (λ (row : PolicyRow). row.status == "active" && is_row_for t x row) rows)
unfolding snapshot list_all_active
snapshot-subjects python settings rows entries t x h =
    let (merged, p, h1) =
      bind-ok (merge_bootstrap python settings)
        (λ merged. merge_rows (list_all_active rows) merged >>= λ all. ok (sort_by entry_leb all))
        entries h in
    let (all, q, h2) =
      bind-ok (merge_rows (list_all_active rows) merged) (λ all. ok (sort_by entry_leb all)) entries
        h1 in
    let sorted : sort_by entry_leb all ≡ entries = ok-injective h2 in
    let active =
      any-sort_by (is_row_for t x) row_leb (filter (λ (r : PolicyRow). r.status == "active") rows)
      ∙ any-filter (is_row_for t x) (λ (r : PolicyRow). r.status == "active") rows in
    ground (
      arith,
      contains-subjects t x entries,
      sorted,
      any-sort_by (is_for t x) entry_leb all,
      any-merge_rows t x (list_all_active rows) merged all q,
      any-merge_bootstrap t x python settings merged p,
      active,
    )
