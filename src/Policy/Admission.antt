-- ===== src/Policy/Admission.antt =====
-- src/bridge_policy.py: whom the decisions admit.
use discord_fediverse_bridge.Base.{
  ◌≡◌, ◌↔◌, ◌⊎◌, refl, ap, ◌∙◌, String, Bool, true, false, ◌||◌, some, List, [], ◌∷◌, In, arith,
  any, string_eq, contains, contains-In, In-contains, subst, ==_self, Result, ok, raised, inl, inr,
  Bool-cases,
}
use discord_fediverse_bridge.Policy.Subjects.{
  Python, federation_allow, federation_block, normalize_instance_subject, normalize_subject,
}
use discord_fediverse_bridge.Policy.Entries.{PolicyRow}
use discord_fediverse_bridge.Policy.{
  PolicyEntry, Settings, blocklisted, subjects, is_empty, decide_host, decide_federation,
  federation_decision, snapshot,
}
use discord_fediverse_bridge.Policy.Merge.{snapshot-subjects, is_named, is_value_for}

-- what a policy asks of a host
abbrev pub Admits : List PolicyEntry → String → Type 0
Admits entries host =
    (¬ In host (subjects federation_block entries))
    × ((subjects federation_allow entries ≡ []) ⊎ In host (subjects federation_allow entries))

is_empty-nil : (xs : List String) → is_empty xs ≡ true → xs ≡ []
is_empty-nil [] h = refl
is_empty-nil (x ∷ xs) h = ground arith

decide_host-admits :
    (blocked allows : List String) (host : String)
    → (decide_host blocked allows host).admits ≡ true
    → (¬ In host blocked) × ((allows ≡ []) ⊎ In host allows)
decide_host-admits blocked allows host h =
    let not_blocked : contains blocked host ≡ false = ground arith in
    let admitted : (is_empty allows || contains allows host) ≡ true = ground arith in
    (
      λ m. ground (arith, In-contains blocked host m),
      elim (Bool-cases (is_empty allows)) [
        | inl e ↦ inl (is_empty-nil allows e)
        | inr e ↦ inr (contains-In allows host (ground arith))
      ],
    )

admits-decide_host :
    (blocked allows : List String) (host : String)
    → (¬ In host blocked)
    → ((allows ≡ []) ⊎ In host allows)
    → (decide_host blocked allows host).admits ≡ true
admits-decide_host blocked allows host n m =
    let not_blocked : contains blocked host ≡ false = elim (Bool-cases (contains blocked host)) [
      | inl e ↦ absurd (n (contains-In blocked host e))
      | inr e ↦ e
    ] in
    let admitted : (is_empty allows || contains allows host) ≡ true = elim m [
      | inl e ↦ rw e refl
      | inr k ↦ ground (arith, In-contains allows host k)
    ] in
    ground arith

decide_federation-admits :
    (entries : List PolicyEntry) (r : Result String)
    → ((decide_federation entries r).admits ≡ true)
      ↔ ((host : String) × (r ≡ ok host) × Admits entries host)
decide_federation-admits entries (raised e) = (λ h. ground arith, λ (host, p, a). cc)
decide_federation-admits entries (ok host) =
    let blocked = subjects federation_block entries in
    let allows = subjects federation_allow entries in
    (
      λ h. (host, refl, decide_host-admits blocked allows host h),
      λ (other, p, a).
          let same : other ≡ host = cc in
          admits-decide_host blocked allows host (subst (Admits entries) same a).0
            (subst (Admits entries) same a).1,
    )

-- An instance is admitted exactly when its text normalizes to a host that no block entry names and,
-- if there are allow entries, one of them names.
pub federation_decision_admits :
    (python : Python) (entries : List PolicyEntry) (text : String)
    → ((federation_decision python entries text).admits ≡ true)
      ↔ ((host : String) × (normalize_instance_subject python text ≡ ok host) × Admits entries host)
unfolding federation_decision
federation_decision_admits python entries text =
    decide_federation-admits entries (normalize_instance_subject python text)

refuses :
    (blocked allows : List String) (host : String)
    → contains blocked host ≡ true
    → decide_host blocked allows host
      ≡ record { admits = false; reason = blocklisted; host = some host }
refuses blocked allows host h = ground arith

any-of_In :
    {A : Type 0} (p : A → Bool) (xs : List A) (x : A) → In x xs → p x ≡ true → any p xs ≡ true
unfolding any
any-of_In p [] x m h = absurd m
any-of_In p (y ∷ ys) x m h = ground (arith, any-of_In p ys x)

-- An instance that the block list of the settings names is refused as blocklisted by every snapshot
-- that is made, whatever rows the table has.
pub federation_blocklist_holds :
    (python : Python) (settings : Settings) (rows : List PolicyRow) (entries : List PolicyEntry)
    (raw text host : String)
    → snapshot python settings rows ≡ ok entries
    → In raw settings.federation_blocklist
    → normalize_instance_subject python raw ≡ ok host
    → normalize_instance_subject python text ≡ ok host
    → federation_decision python entries text
      ≡ record { admits = false; reason = blocklisted; host = some host }
unfolding federation_decision normalize_subject
federation_blocklist_holds python settings rows entries raw text host made listed p q =
    let value : is_value_for federation_block host python raw ≡ true =
      ap (is_named host) p ∙ ==_self host in
    let blocked : contains (subjects federation_block entries) host ≡ true = ground (
      arith,
      snapshot-subjects python settings rows entries federation_block host made,
      any-of_In (is_value_for federation_block host python) settings.federation_blocklist raw listed
          value,
    ) in
    ap (decide_federation entries) q
    ∙ refuses (subjects federation_block entries) (subjects federation_allow entries) host blocked
