-- ===== src/Base/Distinct.antt =====
-- Lists without two elements of one key, such as the rows of a table with a primary key.
use Prim.Native.Nat.{ℕ, zero, suc}
use mathlib.Core.Path.{◌≡◌, refl, sym, ap, ◌∙◌, subst}
use mathlib.Core.Logic.{◌≢◌, inl, inr}
use mathlib.Core.Bool.{Bool}
use mathlib.Core.List.{List, [], ◌∷◌, ◌++◌}
use discord_fediverse_bridge.Base.Tests.{Bool-cases}
use discord_fediverse_bridge.Base.Lists.{In, insert_by, sort_by, take}
use discord_fediverse_bridge.Base.Table.{Rows}

-- Sorting keeps what holds of all elements, and that no two of them share a key.
module _ {A : Type 0} {K : Type 0} (key : A → K) where
  abbrev pub Absent : K → List A → Type 0
  Absent k [] = Unit
  Absent k (y ∷ ys) = (key y ≢ k) × Absent k ys

  abbrev pub Distinct : List A → Type 0
  Distinct [] = Unit
  Distinct (x ∷ xs) = Absent (key x) xs × Distinct xs

  Absent-insert_by :
      (le : A → A → Bool) (k : K) (x : A) (xs : List A)
      → key x ≢ k
      → Absent k xs
      → Absent k (insert_by le x xs)
  unfolding insert_by
  Absent-insert_by le k x [] h a = (h, tt)
  Absent-insert_by le k x (y ∷ ys) h a = elim (Bool-cases (le x y)) [
    | inl e ↦ rw e (h, a)
    | inr e ↦ rw e (a.0, Absent-insert_by le k x ys h a.1)
  ]

  Distinct-insert_by :
      (le : A → A → Bool) (x : A) (xs : List A)
      → Absent (key x) xs
      → Distinct xs
      → Distinct (insert_by le x xs)
  unfolding insert_by
  Distinct-insert_by le x [] a d = (tt, tt)
  Distinct-insert_by le x (y ∷ ys) a d = elim (Bool-cases (le x y)) [
    | inl e ↦ rw e (a, d)
    | inr e ↦ rw e (
      Absent-insert_by le (key y) x ys (λ p. a.0 (sym p)) d.0,
      Distinct-insert_by le x ys a.1 d.1,
    )
  ]

  Absent-sort_by :
      (le : A → A → Bool) (k : K) (xs : List A) → Absent k xs → Absent k (sort_by le xs)
  unfolding sort_by
  Absent-sort_by le k [] a = tt
  Absent-sort_by le k (x ∷ xs) a =
      Absent-insert_by le k x (sort_by le xs) a.0 (Absent-sort_by le k xs a.1)

  pub Distinct-sort_by : (le : A → A → Bool) (xs : List A) → Distinct xs → Distinct (sort_by le xs)
  unfolding sort_by
  Distinct-sort_by le [] d = tt
  Distinct-sort_by le (x ∷ xs) d =
      Distinct-insert_by le x (sort_by le xs) (Absent-sort_by le (key x) xs d.0)
        (Distinct-sort_by le xs d.1)

  pub Absent-ne : (k : K) (x : A) (xs : List A) → Absent k xs → In x xs → key x ≢ k
  Absent-ne k x [] a m = absurd m
  Absent-ne k x (y ∷ ys) a (inl e) = subst (λ z. key z ≢ k) (sym e) a.0
  Absent-ne k x (y ∷ ys) a (inr m) = Absent-ne k x ys a.1 m

  -- an element is determined by its key
  pub Distinct-unique :
      (x y : A) (xs : List A) → Distinct xs → In x xs → In y xs → key x ≡ key y → x ≡ y
  Distinct-unique x y [] d m n e = absurd m
  Distinct-unique x y (z ∷ zs) d (inl p) (inl q) e = p ∙ sym q
  Distinct-unique x y (z ∷ zs) d (inl p) (inr n) e =
      absurd (Absent-ne (key z) y zs d.0 n (sym e ∙ ap key p))
  Distinct-unique x y (z ∷ zs) d (inr m) (inl q) e =
      absurd (Absent-ne (key z) x zs d.0 m (e ∙ ap key q))
  Distinct-unique x y (z ∷ zs) d (inr m) (inr n) e = Distinct-unique x y zs d.1 m n e

  Absent-concat : (k : K) (xs : List A) (y : A) → Absent k xs → key y ≢ k → Absent k (xs ++ y ∷ [])
  Absent-concat k [] y a h = (h, tt)
  Absent-concat k (x ∷ xs) y a h = (a.0, Absent-concat k xs y a.1 h)

  pub Distinct-concat :
      (xs : List A) (y : A)
      → Distinct xs
      → ((x : A) → In x xs → key x ≢ key y)
      → Distinct (xs ++ y ∷ [])
  Distinct-concat [] y d h = (tt, tt)
  Distinct-concat (x ∷ xs) y d h = (
    Absent-concat (key x) xs y d.0 (λ e. h x (inl refl) (sym e)),
    Distinct-concat xs y d.1 (λ z m. h z (inr m)),
  )

  -- rows that keep their keys keep them distinct
  module _ (P : A → A → Type 0) (h : (x y : A) → P x y → key y ≡ key x) where
    Absent-Rows : (k : K) (xs ys : List A) → Rows P xs ys → Absent k xs → Absent k ys
    Absent-Rows k [] [] r a = tt
    Absent-Rows k [] (y ∷ ys) r a = absurd r
    Absent-Rows k (x ∷ xs) [] r a = absurd r
    Absent-Rows k (x ∷ xs) (y ∷ ys) r a =
        (λ e. a.0 (sym (h x y r.0) ∙ e), Absent-Rows k xs ys r.1 a.1)

    pub Distinct-Rows : (xs ys : List A) → Rows P xs ys → Distinct xs → Distinct ys
    Distinct-Rows [] [] r d = tt
    Distinct-Rows [] (y ∷ ys) r d = absurd r
    Distinct-Rows (x ∷ xs) [] r d = absurd r
    Distinct-Rows (x ∷ xs) (y ∷ ys) r d = (
      subst (λ k. Absent k ys) (sym (h x y r.0)) (Absent-Rows (key x) xs ys r.1 d.0),
      Distinct-Rows xs ys r.1 d.1,
    )

  Absent-take : (n : ℕ) (k : K) (xs : List A) → Absent k xs → Absent k (take n xs)
  unfolding take
  Absent-take zero k xs a = tt
  Absent-take (suc n) k [] a = tt
  Absent-take (suc n) k (x ∷ xs) a = (a.0, Absent-take n k xs a.1)

  pub Distinct-take : (n : ℕ) (xs : List A) → Distinct xs → Distinct (take n xs)
  unfolding take
  Distinct-take zero xs d = tt
  Distinct-take (suc n) [] d = tt
  Distinct-take (suc n) (x ∷ xs) d = (Absent-take n (key x) xs d.0, Distinct-take n xs d.1)
