-- ===== src/Delivery/Admin/Owner.antt =====
-- src/db/repositories/user_actor_delivery_admin.py: an operator's retry for one user.
use discord_fediverse_bridge.Base.{
  ℕ, ◌≡◌, ◌≢◌, refl, sym, ap, ◌∙◌, String, true, false, ◌&&◌, Option, some, List, [], ◌∷◌, In,
  arith, ◌==◌, ◌!=◌, nat_eq, string_eq, contains, contains-In, any, any-false, inl, inr, filter,
  length, Bool-cases, Option-cases, subst, ◌⊎◌,
}
use discord_fediverse_bridge.Base.Distinct.{Distinct, Distinct-unique}
use discord_fediverse_bridge.Base.Table.{In-update_miss}
use discord_fediverse_bridge.Delivery.{status_eq, Delivery, Store}
use discord_fediverse_bridge.Delivery.Admin.{
  owner_of, matches_id, selected, ids_of, is_retryable, reset, is_other_owner, retry_failed,
}

-- where a selected row comes from
abbrev Row : Store → List Delivery → ℕ → String → Type 0
Row s ds k owner = (d : Delivery) × In d ds × (d.id ≡ k) × (owner_of s d ≡ some owner)

Row-later :
    (s : Store) (d : Delivery) (ds : List Delivery) (k : ℕ) (owner : String)
    → Row s ds k owner
    → Row s (d ∷ ds) k owner
Row-later s d ds k owner (x, m, e, o) = (x, inr m, e, o)

-- a row is left out, or it is selected with its owner
selected-cons :
    (delivery_id source_id : Option ℕ) (s : Store) (d : Delivery) (ds : List Delivery)
    → (selected delivery_id source_id s (d ∷ ds) ≡ selected delivery_id source_id s ds)
      ⊎ ((owner : String) × (owner_of s d ≡ some owner)
          × (selected delivery_id source_id s (d ∷ ds)
              ≡ (d.id, owner) ∷ selected delivery_id source_id s ds))
unfolding selected
selected-cons delivery_id source_id s d ds = elim (Option-cases (owner_of s d)) [
  | inl e ↦ inl (rw (selected, e) refl)
  | inr (o, e) ↦
      elim (Bool-cases (matches_id delivery_id d.id && matches_id source_id d.source_id)) [
        | inl b ↦ inr (o, e, rw (selected, e, b) refl)
        | inr b ↦ inl (rw (selected, e, b) refl)
      ]
]

-- a selected row is one of the table, with its owner
In-selected :
    (delivery_id source_id : Option ℕ) (s : Store) (ds : List Delivery) (k : ℕ) (owner : String)
    → In (k, owner) (selected delivery_id source_id s ds)
    → Row s ds k owner
unfolding selected
In-selected delivery_id source_id s [] k owner m = absurd m
In-selected delivery_id source_id s (d ∷ ds) k owner m =
    let later = In-selected delivery_id source_id s ds k owner in
    elim (selected-cons delivery_id source_id s d ds) [
      | inl e ↦ Row-later s d ds k owner (later (subst (In (k, owner)) e m))
      | inr (o, e, here) ↦ elim (subst (In (k, owner)) here m) [
        | inl p ↦ (
          d,
          inl refl,
          sym (ap (λ (x : ℕ × String). x.0) p),
          e ∙ sym (ap (λ (x : ℕ × String). some x.1) p),
        )
        | inr there ↦ Row-later s d ds k owner (later there)
      ]
    ]

In-ids_of :
    (rows : List (ℕ × String)) (k : ℕ) → In k (ids_of rows) → (owner : String) × In (k, owner) rows
In-ids_of [] k m = absurd m
In-ids_of ((j, owner) ∷ rows) k (inl e) = (owner, inl (ap (λ i. (i, owner)) e))
In-ids_of ((j, owner) ∷ rows) k (inr m) = let (o, there) = In-ids_of rows k m in (o, inr there)

same-owner : (owner username : String) → (owner != username) ≡ false → owner ≡ username
same-owner owner username h = ground arith

-- with no row of another owner, every selected id is of a row of the named user
selected-owner :
    (delivery_id source_id : Option ℕ) (username : String) (s : Store) (d : Delivery)
    → Distinct (λ (e : Delivery). e.id) s.deliveries
    → In d s.deliveries
    → any (is_other_owner (some username)) (selected delivery_id source_id s s.deliveries) ≡ false
    → contains (ids_of (selected delivery_id source_id s s.deliveries)) d.id ≡ true
    → owner_of s d ≡ some username
selected-owner delivery_id source_id username s d unique here none_other h =
    let rows = selected delivery_id source_id s s.deliveries in
    let (owner, m) = In-ids_of rows d.id (contains-In (ids_of rows) d.id h) in
    let (x, there, same_id, owned) =
      In-selected delivery_id source_id s s.deliveries d.id owner m in
    let same =
      Distinct-unique (λ (e : Delivery). e.id) x d s.deliveries unique there here same_id in
    let is_user =
      same-owner owner username
        (any-false (is_other_owner (some username)) rows (d.id, owner) none_other m) in
    ap (owner_of s) (sym same) ∙ owned ∙ ap some is_user

other-not_retryable :
    (ids : List ℕ) (d : Delivery) (P : Type 0)
    → (contains ids d.id ≡ true → P)
    → ¬ P
    → is_retryable ids d ≡ false
unfolding is_retryable
other-not_retryable ids d P f n = elim (Bool-cases (contains ids d.id)) [
  | inl e ↦ absurd (n (f e))
  | inr e ↦ rw e refl
]

-- A retry for one user leaves every delivery of other users in the table unchanged, whatever
-- delivery or source it names, if the ids of the deliveries are a primary key.
pub retry_failed_others :
    (delivery_id source_id : Option ℕ) (username : String) (s : Store) (d : Delivery)
    → Distinct (λ (e : Delivery). e.id) s.deliveries
    → In d s.deliveries
    → owner_of s d ≢ some username
    → In d (retry_failed delivery_id source_id (some username) s).1.deliveries
unfolding retry_failed
retry_failed_others delivery_id source_id username s d unique here other =
    let rows = selected delivery_id source_id s s.deliveries in
    let ids = ids_of rows in
    elim (Bool-cases (length rows == 0)) [
      | inl e ↦ rw e here
      | inr e ↦ rw e (elim (Bool-cases (any (is_other_owner (some username)) rows)) [
        | inl o ↦ rw o here
        | inr o ↦ rw o (elim (Bool-cases (length (filter (is_retryable ids) s.deliveries) == 0)) [
          | inl k ↦ rw k here
          | inr k ↦ rw k (
              In-update_miss (is_retryable ids) reset s.deliveries d here (
                other-not_retryable ids d (owner_of s d ≡ some username)
                  (selected-owner delivery_id source_id username s d unique here o) other))
        ])
      ])
    ]
