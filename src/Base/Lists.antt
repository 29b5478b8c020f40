-- ===== src/Base/Lists.antt =====
-- Lists as query results: filters by a Boolean test, predicates, lengths, stable sorting.
use Prim.Native.Nat.{ℕ, zero, suc, ◌≤◌}
use mathlib.Core.Path.{◌≡◌, refl, sym, ap, subst}
use mathlib.Core.Bool.{Bool, true, false, ◌||◌}
use mathlib.Core.Option.{Option, none, some}
use mathlib.Core.Logic.{◌⊎◌, inl, inr}
use mathlib.Core.List.{List, [], ◌∷◌, ◌++◌, map}
use native.Mathlib.Omega.{arith}
use discord_fediverse_bridge.Base.Tests.{if◌then◌else◌, Bool-cases}

module _ {ℓ} {A : Type ℓ} where
  abbrev pub length : List A → ℕ
  length [] = 0
  length (x ∷ xs) = suc (length xs)

  unfoldable pub filter : (A → Bool) → List A → List A
  filter p [] = []
  filter p (x ∷ xs) = let rest = filter p xs in if p x then x ∷ rest else rest

  unfoldable pub any : (A → Bool) → List A → Bool
  any p [] = false
  any p (x ∷ xs) = p x || any p xs

  -- the first match
  unfoldable pub find : (A → Bool) → List A → Option A
  find p [] = none
  find p (x ∷ xs) = let rest = find p xs in if p x then some x else rest

  -- `LIMIT n`
  unfoldable pub take : ℕ → List A → List A
  take zero xs = []
  take (suc n) [] = []
  take (suc n) (x ∷ xs) = x ∷ take n xs

  -- `OFFSET n`
  unfoldable pub drop : ℕ → List A → List A
  drop zero xs = xs
  drop (suc n) [] = []
  drop (suc n) (x ∷ xs) = drop n xs

  -- insertion sort: stable, so ties keep the order of the rows
  unfoldable pub insert_by : (A → A → Bool) → A → List A → List A
  insert_by le x [] = x ∷ []
  insert_by le x (y ∷ ys) = let rest = insert_by le x ys in if le x y then x ∷ y ∷ ys else y ∷ rest

  unfoldable pub sort_by : (A → A → Bool) → List A → List A
  unfolding insert_by
  sort_by le [] = []
  sort_by le (x ∷ xs) = insert_by le x (sort_by le xs)

  abbrev pub All {κ} : (A → Type κ) → List A → Type κ
  All P [] = Unit
  All P (x ∷ xs) = P x × All P xs

-- Membership that computes, for the case splits of the proofs.
abbrev pub In : {A : Type 0} → A → List A → Type 0
In x [] = ⊥
In x (y ∷ ys) = (x ≡ y) ⊎ In x ys

module _ {κ} {A : Type 0} (P : A → Type κ) where
  pub All-In : {x : A} (xs : List A) → All P xs → In x xs → P x
  All-In [] h m = elim m [ ]
  All-In (y ∷ ys) h (inl p) = subst P (sym p) h.0
  All-In (y ∷ ys) h (inr m) = All-In ys h.1 m

  pub All-of_In : (xs : List A) → ((x : A) → In x xs → P x) → All P xs
  All-of_In [] h = tt
  All-of_In (x ∷ xs) h = (h x (inl refl), All-of_In xs (λ y m. h y (inr m)))

module _ {A : Type 0} where
  pub In-filter : (p : A → Bool) (xs : List A) (x : A) → In x (filter p xs) → In x xs × (p x ≡ true)
  unfolding filter
  In-filter p [] x m = elim m [ ]
  In-filter p (y ∷ ys) x m = ground (arith, In-filter p ys x)

  pub In-find : (p : A → Bool) (xs : List A) (x : A) → find p xs ≡ some x → In x xs × (p x ≡ true)
  unfolding find
  In-find p [] x h = cc
  In-find p (y ∷ ys) x h = ground (arith, In-find p ys x)

  pub any-false : (p : A → Bool) (xs : List A) (x : A) → any p xs ≡ false → In x xs → p x ≡ false
  unfolding any
  any-false p [] x h m = absurd m
  any-false p (y ∷ ys) x h m = ground (arith, any-false p ys x)

  pub filter-In : (p : A → Bool) (xs : List A) (x : A) → In x xs → p x ≡ true → In x (filter p xs)
  unfolding filter
  filter-In p [] x m h = absurd m
  filter-In p (y ∷ ys) x m h = ground (arith, h, m, filter-In p ys x)

  pub any-true : (p : A → Bool) (xs : List A) → any p xs ≡ true → (x : A) × In x xs × (p x ≡ true)
  unfolding any
  any-true p [] h = absurd (ground (arith, h))
  any-true p (y ∷ ys) h = elim (Bool-cases (p y)) [
    | inl e ↦ (y, inl refl, e)
    | inr e ↦ let (x, here, hit) = any-true p ys (ground (arith, h, e)) in (x, inr here, hit)
  ]

  insert_by-In :
      (le : A → A → Bool) (y : A) (xs : List A) (x : A)
      → (x ≡ y) ⊎ In x xs
      → In x (insert_by le y xs)
  unfolding insert_by
  insert_by-In le y [] x m = m
  insert_by-In le y (z ∷ zs) x m = ground (arith, m, insert_by-In le y zs x)

  pub sort_by-In : (le : A → A → Bool) (xs : List A) (x : A) → In x xs → In x (sort_by le xs)
  unfolding sort_by
  sort_by-In le [] x m = m
  sort_by-In le (y ∷ ys) x (inl e) = insert_by-In le y (sort_by le ys) x (inl e)
  sort_by-In le (y ∷ ys) x (inr m) =
      insert_by-In le y (sort_by le ys) x (inr (sort_by-In le ys x m))

  pub any-none : (p : A → Bool) (xs : List A) → ((x : A) → In x xs → p x ≡ false) → any p xs ≡ false
  unfolding any
  any-none p [] h = refl
  any-none p (y ∷ ys) h = ground (arith, h y (inl refl), any-none p ys (λ x m. h x (inr m)))

  pub In-take : (n : ℕ) (xs : List A) (x : A) → In x (take n xs) → In x xs
  unfolding take
  In-take zero xs x m = elim m [ ]
  In-take (suc n) [] x m = elim m [ ]
  In-take (suc n) (y ∷ ys) x (inl p) = inl p
  In-take (suc n) (y ∷ ys) x (inr m) = inr (In-take n ys x m)

  pub length-take-le : (n : ℕ) (xs : List A) → length (take n xs) ≤ n
  unfolding take
  length-take-le zero xs = omega arith
  length-take-le (suc n) [] = omega arith
  length-take-le (suc n) (x ∷ xs) = omega (arith, length-take-le n xs)

  In-insert_by :
      (le : A → A → Bool) (y : A) (xs : List A) (x : A)
      → In x (insert_by le y xs)
      → (x ≡ y) ⊎ In x xs
  unfolding insert_by
  In-insert_by le y [] x m = m
  In-insert_by le y (z ∷ zs) x m = ground (arith, In-insert_by le y zs x)

  pub In-sort_by : (le : A → A → Bool) (xs : List A) (x : A) → In x (sort_by le xs) → In x xs
  unfolding sort_by
  In-sort_by le [] x m = m
  In-sort_by le (y ∷ ys) x m = elim (In-insert_by le y (sort_by le ys) x m) [
    | inl p ↦ inl p
    | inr rest ↦ inr (In-sort_by le ys x rest)
  ]

module _ {κ} {A : Type 0} (P : A → Type κ) where
  pub All-concat : (xs : List A) (y : A) → All P xs → P y → All P (xs ++ y ∷ [])
  All-concat [] y h p = (p, tt)
  All-concat (x ∷ xs) y h p = (h.0, All-concat xs y h.1 p)

  pub All-weaken :
      {Q : A → Type 0} (xs : List A) → ((x : A) → In x xs → P x → Q x) → All P xs → All Q xs
  All-weaken [] f h = tt
  All-weaken (x ∷ xs) f h = (f x (inl refl) h.0, All-weaken xs (λ y m. f y (inr m)) h.1)

pub In-concat : {A : Type 0} (xs : List A) (y x : A) → In x (xs ++ y ∷ []) → In x xs ⊎ (x ≡ y)
In-concat [] y x (inl e) = inr e
In-concat [] y x (inr m) = absurd m
In-concat (z ∷ zs) y x (inl e) = inl (inl e)
In-concat (z ∷ zs) y x (inr m) = elim (In-concat zs y x m) [ inl h ↦ inl (inr h) | inr e ↦ inr e ]

pub In-last : {A : Type 0} (xs : List A) (x : A) → In x (xs ++ x ∷ [])
In-last [] x = inl refl
In-last (y ∷ ys) x = inr (In-last ys x)

pub In-map :
    {A : Type 0} {B : Type 0} (f : A → B) (xs : List A) (y : B)
    → In y (map f xs)
    → (x : A) × In x xs × (y ≡ f x)
In-map f [] y m = absurd m
In-map f (x ∷ xs) y (inl e) = (x, inl refl, e)
In-map f (x ∷ xs) y (inr m) = let (z, here, e) = In-map f xs y m in (z, inr here, e)

pub map-In :
    {A : Type 0} {B : Type 0} (f : A → B) (xs : List A) (x : A) → In x xs → In (f x) (map f xs)
map-In f [] x m = absurd m
map-In f (y ∷ ys) x (inl e) = inl (ap f e)
map-In f (y ∷ ys) x (inr m) = inr (map-In f ys x m)

pub In-before : {A : Type 0} (xs : List A) (y x : A) → In x xs → In x (xs ++ y ∷ [])
In-before [] y x m = absurd m
In-before (z ∷ zs) y x (inl e) = inl e
In-before (z ∷ zs) y x (inr m) = inr (In-before zs y x m)
