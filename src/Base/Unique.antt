-- ===== src/Base/Unique.antt =====
-- Tables whose rows are unique in a key, when a row comes in or changes.
use mathlib.Core.Path.{◌≡◌, sym, ap, ◌∙◌, subst}
use mathlib.Core.Logic.{inl, inr}
use mathlib.Core.Bool.{Bool, true, false}
use mathlib.Core.List.{List, [], ◌∷◌, ◌++◌}
use discord_fediverse_bridge.Base.Lists.{In, In-concat}
use discord_fediverse_bridge.Base.Table.{update_where, In-of_update}

-- rows with one more are unique in a key that no earlier row has
pub concat_unique :
    {A : Type 0} (K : A → A → Type 0) (rows : List A) (row : A)
    → ((x y : A) → K x y → K y x)
    → ((x y : A) → In x rows → In y rows → K x y → x ≡ y)
    → ((x : A) → In x rows → K x row → ⊥)
    → (x y : A) → In x (rows ++ row ∷ [])
    → In y (rows ++ row ∷ [])
    → K x y
    → x ≡ y
concat_unique K rows row flip old new x y m n k = elim (In-concat rows row x m) [
  | inl a ↦ elim (In-concat rows row y n) [
    | inl b ↦ old x y a b k
    | inr e ↦ absurd (new x a (subst (K x) e k))
  ]
  | inr e ↦ elim (In-concat rows row y n) [
    | inl b ↦ absurd (new y b (subst (K y) e (flip x y k)))
    | inr d ↦ e ∙ sym d
  ]
]

-- rows stay unique in a key when the one row that changes does not take the key of another
pub updated_unique :
    {A : Type 0} (K : A → A → Type 0) (p : A → Bool) (f : A → A) (rows : List A)
    → ((x y : A) → K x y → K y x)
    → ((x y : A) → In x rows → In y rows → K x y → x ≡ y)
    → ((x y : A) → In x rows → In y rows → p x ≡ true → p y ≡ true → x ≡ y)
    → ((x y : A) → In x rows → In y rows → p x ≡ true → p y ≡ false → K (f x) y → ⊥)
    → (x y : A) → In x (update_where p f rows)
    → In y (update_where p f rows)
    → K x y
    → x ≡ y
updated_unique K p f rows flip old one new x y m n k =
    let (v, here, c) = In-of_update p f rows x m in
    let (w, there, d) = In-of_update p f rows y n in
    elim c [
      | inl (hit, e) ↦ elim d [
        | inl (hits, g) ↦ e ∙ ap f (one v w here there hit hits) ∙ sym g
        | inr (miss, g) ↦
            absurd (new v w here there hit miss (subst (K (f v)) g (subst (λ z. K z y) e k)))
      ]
      | inr (miss, e) ↦ elim d [
        | inl (hit, g) ↦
            absurd
              (new w v there here hit miss (flip v (f w) (subst (K v) g (subst (λ z. K z y) e k))))
        | inr (misses, g) ↦ e ∙ old v w here there (subst (K v) g (subst (λ z. K z y) e k)) ∙ sym g
      ]
    ]
