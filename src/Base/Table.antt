-- ===== src/Base/Table.antt =====
-- Tables as lists of rows in the order of their ids, and what an UPDATE does to them row by row.
use mathlib.Core.Path.{◌≡◌, refl, sym, subst}
use mathlib.Core.Logic.{◌⊎◌, inl, inr}
use mathlib.Core.Bool.{Bool, true, false}
use mathlib.Core.Option.{Option, none, some}
use mathlib.Core.List.{List, [], ◌∷◌}
use native.Mathlib.Omega.{arith}
use Prim.Native.Nat.{ℕ, ◌+◌, ◌≤◌, ◌<◌, max}
use discord_fediverse_bridge.Base.Equality.{◌==◌, nat_eq}
use discord_fediverse_bridge.Base.Tests.{if◌then◌else◌, Bool-cases}
use discord_fediverse_bridge.Base.Lists.{In, All, any, find, filter, length}

module _ {ℓ} {R : Type ℓ} where
  -- UPDATE … SET f WHERE p
  unfoldable pub update_where : (R → Bool) → (R → R) → List R → List R
  update_where p f [] = []
  update_where p f (r ∷ rows) = (if p r then f r else r) ∷ update_where p f rows

  -- an UPDATE of no row changes nothing
  pub update_where_none :
      (p : R → Bool) (f : R → R) (xs : List R) → any p xs ≡ false → update_where p f xs ≡ xs
  unfolding update_where any
  update_where_none p f [] h = refl
  update_where_none p f (x ∷ xs) h = ground (arith, update_where_none p f xs)

  pub filter_none : (p : R → Bool) (xs : List R) → any p xs ≡ false → length (filter p xs) ≡ 0
  unfolding filter any
  filter_none p [] h = refl
  filter_none p (x ∷ xs) h = ground (arith, filter_none p xs)

  pub find-none : (p : R → Bool) (xs : List R) → any p xs ≡ false → find p xs ≡ none
  unfolding find any
  find-none p [] h = refl
  find-none p (x ∷ xs) h = ground (arith, find-none p xs)

  pub absent-free : (p : R → Bool) (xs : List R) → find p xs ≡ none → any p xs ≡ false
  unfolding find any
  absent-free p [] e = refl
  absent-free p (x ∷ xs) e = ground (arith, e, absent-free p xs)

  -- `session.get`: the row with a primary key
  unfoldable pub get : (R → ℕ) → ℕ → List R → Option R
  unfolding find
  get id_of k rows = find (λ r. id_of r == k) rows

  -- the id that SQLite gives to a new row: one more than the greatest
  unfoldable pub next_id : (R → ℕ) → List R → ℕ
  next_id id_of [] = 1
  next_id id_of (r ∷ rows) = max (id_of r + 1) (next_id id_of rows)

-- Two states of one table, compared row by row.
module _ {R : Type 0} (P : R → R → Type 0) where
  abbrev pub Rows : List R → List R → Type 0
  Rows [] [] = Unit
  Rows (x ∷ xs) (y ∷ ys) = P x y × Rows xs ys
  Rows _ _ = ⊥

  pub Rows-refl : ((r : R) → P r r) → (xs : List R) → Rows xs xs
  Rows-refl h [] = tt
  Rows-refl h (x ∷ xs) = (h x, Rows-refl h xs)

  pub Rows-trans :
      ((x y z : R) → P x y → P y z → P x z)
      → (xs ys zs : List R) → Rows xs ys
      → Rows ys zs
      → Rows xs zs
  Rows-trans h [] [] [] a b = tt
  Rows-trans h (x ∷ xs) (y ∷ ys) (z ∷ zs) a b = (h x y z a.0 b.0, Rows-trans h xs ys zs a.1 b.1)
  Rows-trans h [] [] (z ∷ zs) a b = absurd b
  Rows-trans h [] (y ∷ ys) zs a b = absurd a
  Rows-trans h (x ∷ xs) [] zs a b = absurd a
  Rows-trans h (x ∷ xs) (y ∷ ys) [] a b = absurd b

  pub Rows-update_where :
      (p : R → Bool) (f : R → R) (xs : List R)
      → ((r : R) → P r r)
      → ((r : R) → In r xs → p r ≡ true → P r (f r))
      → Rows xs (update_where p f xs)
  unfolding update_where
  Rows-update_where p f [] same h = tt
  Rows-update_where p f (x ∷ xs) same h = (
    elim (Bool-cases (p x)) [
      | inl e ↦ subst (λ b. P x (if b then f x else x)) (sym e) (h x (inl refl) e)
      | inr e ↦ subst (λ b. P x (if b then f x else x)) (sym e) (same x)
    ],
    Rows-update_where p f xs same (λ r m. h r (inr m)),
  )

  -- each row of the later state comes from a row of the earlier one
  pub Rows-In : (xs ys : List R) (y : R) → Rows xs ys → In y ys → (x : R) × In x xs × P x y
  Rows-In [] [] y h m = elim m [ ]
  Rows-In [] (z ∷ zs) y h m = absurd h
  Rows-In (x ∷ xs) [] y h m = absurd h
  Rows-In (x ∷ xs) (z ∷ zs) y h (inl e) = (x, inl refl, subst (λ w. P x w) (sym e) h.0)
  Rows-In (x ∷ xs) (z ∷ zs) y h (inr m) =
      let (w, here, step) = Rows-In xs zs y h.1 m in (w, inr here, step)

  pub Rows-any :
      (p q : R → Bool)
      → ((x y : R) → P x y → q y ≡ true → p x ≡ true)
      → (xs ys : List R) → Rows xs ys
      → any q ys ≡ true
      → any p xs ≡ true
  unfolding any
  Rows-any p q h [] [] r e = e
  Rows-any p q h [] (y ∷ ys) r e = absurd r
  Rows-any p q h (x ∷ xs) [] r e = absurd r
  Rows-any p q h (x ∷ xs) (y ∷ ys) r e = ground (arith, h x y r.0, Rows-any p q h xs ys r.1)

module _ {R : Type 0} where
  pub All-Rows :
      (P : R → R → Type 0) (Q : R → Type 0)
      → ((x y : R) → P x y → Q x → Q y)
      → (xs ys : List R) → Rows P xs ys
      → All Q xs
      → All Q ys
  All-Rows P Q h [] [] r a = tt
  All-Rows P Q h [] (y ∷ ys) r a = absurd r
  All-Rows P Q h (x ∷ xs) [] r a = absurd r
  All-Rows P Q h (x ∷ xs) (y ∷ ys) r a = (h x y r.0 a.0, All-Rows P Q h xs ys r.1 a.1)

  pub In-update_where :
      (p : R → Bool) (f : R → R) (xs : List R) (x : R)
      → In x xs
      → In (if p x then f x else x) (update_where p f xs)
  unfolding update_where
  In-update_where p f [] x m = elim m [ ]
  In-update_where p f (y ∷ ys) x (inl e) =
      inl (subst (λ w. (if p w then f w else w) ≡ (if p y then f y else y)) (sym e) refl)
  In-update_where p f (y ∷ ys) x (inr m) = inr (In-update_where p f ys x m)

module _ {R : Type 0} (P : R → R → Type 0) where
  -- each row of the earlier state has one in the later
  pub In-Rows : (xs ys : List R) (x : R) → Rows P xs ys → In x xs → (y : R) × In y ys × P x y
  In-Rows [] ys x r m = elim m [ ]
  In-Rows (w ∷ xs) [] x r m = absurd r
  In-Rows (w ∷ xs) (y ∷ ys) x r (inl e) = (y, inl refl, subst (λ z. P z y) (sym e) r.0)
  In-Rows (w ∷ xs) (y ∷ ys) x r (inr m) =
      let (z, here, step) = In-Rows xs ys x r.1 m in (z, inr here, step)

-- an UPDATE of the later state, with what is known of a row that it writes and of one that it leaves
pub Rows-then_update :
    {R : Type 0} (P Q : R → R → Type 0) (p : R → Bool) (f : R → R) (xs ys : List R)
    → Rows P xs ys
    → ((x y : R) → In x xs → P x y → p y ≡ true → Q x (f y))
    → ((x y : R) → In x xs → P x y → p y ≡ false → Q x y)
    → Rows Q xs (update_where p f ys)
unfolding update_where
Rows-then_update P Q p f [] [] r h k = tt
Rows-then_update P Q p f [] (y ∷ ys) r h k = absurd r
Rows-then_update P Q p f (x ∷ xs) [] r h k = absurd r
Rows-then_update P Q p f (x ∷ xs) (y ∷ ys) r h k = (
  elim (Bool-cases (p y)) [
    | inl e ↦ subst (λ b. Q x (if b then f y else y)) (sym e) (h x y (inl refl) r.0 e)
    | inr e ↦ subst (λ b. Q x (if b then f y else y)) (sym e) (k x y (inl refl) r.0 e)
  ],
  Rows-then_update P Q p f xs ys r.1 (λ w z m. h w z (inr m)) (λ w z m. k w z (inr m)),
)

pub Rows-weaken :
    {R : Type 0} (P Q : R → R → Type 0) (xs ys : List R)
    → ((x y : R) → In x xs → P x y → Q x y)
    → Rows P xs ys
    → Rows Q xs ys
Rows-weaken P Q [] [] h r = tt
Rows-weaken P Q [] (y ∷ ys) h r = absurd r
Rows-weaken P Q (x ∷ xs) [] h r = absurd r
Rows-weaken P Q (x ∷ xs) (y ∷ ys) h r =
    (h x y (inl refl) r.0, Rows-weaken P Q xs ys (λ w z m. h w z (inr m)) r.1)

module _ {R : Type 0} (p : R → Bool) (f : R → R) (xs : List R) (x : R) (m : In x xs) where
  -- a row that matches is written, and one that does not stays
  pub In-update_hit : p x ≡ true → In (f x) (update_where p f xs)
  In-update_hit e =
      subst (λ b. In (if b then f x else x) (update_where p f xs)) e (In-update_where p f xs x m)

  pub In-update_miss : p x ≡ false → In x (update_where p f xs)
  In-update_miss e =
      subst (λ b. In (if b then f x else x) (update_where p f xs)) e (In-update_where p f xs x m)

-- a row of an updated table is a written row that matched, or an untouched one that did not
pub In-of_update :
    {R : Type 0} (p : R → Bool) (f : R → R) (xs : List R) (y : R)
    → In y (update_where p f xs)
    → (x : R) × In x xs × (((p x ≡ true) × (y ≡ f x)) ⊎ ((p x ≡ false) × (y ≡ x)))
unfolding update_where
In-of_update p f [] y m = absurd m
In-of_update p f (x ∷ xs) y (inl e) = (x, inl refl, ground arith)
In-of_update p f (x ∷ xs) y (inr m) = let (z, here, h) = In-of_update p f xs y m in (z, inr here, h)

-- a new id is no other row's
pub next_id-fresh :
    {R : Type 0} (id_of : R → ℕ) (xs : List R) (x : R) → In x xs → id_of x < next_id id_of xs
unfolding next_id
next_id-fresh id_of [] x m = absurd m
next_id-fresh id_of (y ∷ ys) x (inl e) = rw e omega arith
next_id-fresh id_of (y ∷ ys) x (inr m) = omega (arith, next_id-fresh id_of ys x m)

pub In-find-none :
    {R : Type 0} (p : R → Bool) (xs : List R) (x : R) → find p xs ≡ none → In x xs → p x ≡ false
unfolding find
In-find-none p [] x h m = absurd m
In-find-none p (y ∷ ys) x h m = ground (arith, In-find-none p ys x)

module _ {R : Type 0} where
  -- a change of the row that a query finds, and its deletion
  unfoldable pub update_first : (R → Bool) → (R → R) → List R → List R
  update_first p f [] = []
  update_first p f (x ∷ xs) = let rest = update_first p f xs in if p x then f x ∷ xs else x ∷ rest

  unfoldable pub delete_first : (R → Bool) → List R → List R
  delete_first p [] = []
  delete_first p (x ∷ xs) = let rest = delete_first p xs in if p x then xs else x ∷ rest

  -- what the deletion of a row leaves of a query for others
  pub find-delete_first :
      (p q : R → Bool) (xs : List R)
      → ((x : R) → p x ≡ true → q x ≡ false)
      → find q (delete_first p xs) ≡ find q xs
  unfolding find delete_first
  find-delete_first p q [] h = refl
  find-delete_first p q (x ∷ xs) h = ground (arith, h x, find-delete_first p q xs h)

  pub In-delete_first : (p : R → Bool) (xs : List R) (x : R) → In x (delete_first p xs) → In x xs
  unfolding delete_first
  In-delete_first p [] x m = m
  In-delete_first p (y ∷ ys) x m = ground (arith, In-delete_first p ys x)

  any-length : (q : R → Bool) (xs : List R) → any q xs ≡ true → 1 ≤ length (filter q xs)
  unfolding any filter
  any-length q [] h = ground arith
  any-length q (x ∷ xs) h = ground (arith, any-length q xs)

  find-any :
      (p q : R → Bool) (xs : List R) (x : R) → find p xs ≡ some x → q x ≡ true → any q xs ≡ true
  unfolding find any
  find-any p q [] x h k = cc
  find-any p q (y ∷ ys) x h k = ground (arith, find-any p q ys x)

  -- no row of one kind is left when the only one is deleted
  pub delete_first-last :
      (p q : R → Bool) (xs : List R) (x : R)
      → length (filter q xs) ≤ 1
      → find p xs ≡ some x
      → q x ≡ true
      → any q (delete_first p xs) ≡ false
  unfolding find delete_first filter any
  delete_first-last p q [] x few h k = cc
  delete_first-last p q (y ∷ ys) x few h k = elim (Bool-cases (any q ys)) [
    | inl e ↦ ground (arith, e, any-length q ys e, delete_first-last p q ys x)
    | inr e ↦ ground (arith, e, delete_first-last p q ys x, find-any p q ys x)
  ]
