-- ===== src/Forum/Texts.antt =====
-- src/discord_forum_placement.py: which characters its functions on texts write, and how many.
use Prim.Native.Char.{Char, code}
use Prim.Native.String.{[], ◌∷◌, ◌++◌, count}
use Prim.Native.String.count
use text.Mathlib.TextLemmas.{nil-append, cons-append}
use discord_fediverse_bridge.Base.{
  ℕ, zero, suc, ◌≤◌, ◌≡◌, refl, arith, String, Bool, true, false, ◌&&◌, not, ◌==◌, nat_eq,
  string_eq, if◌then◌else◌, Bool-cases, inl, inr, ◌⊎◌,
}
use discord_fediverse_bridge.Delivery.Diagnostics.{take_chars}
use discord_fediverse_bridge.Forum.{
  is_dash, is_name_code, drop_while, keep_last, rstrip, strip, replace_others, Run, no_dash, many,
  one_dash, longer, written, collapse, or_community, digit,
}

abbrev pub has_only : (ℕ → Bool) → String → Bool
has_only p [] = true
has_only p (c ∷ s) = p (code c) && has_only p s

module _ (p : ℕ → Bool) where
  pub has_only-append :
      (s t : String) → has_only p s ≡ true → has_only p t ≡ true → has_only p (s ++ t) ≡ true
  has_only-append [] t h k = rw (nil-append t) k
  has_only-append (c ∷ s) t h k = rw (cons-append c s t) (ground (arith, h, has_only-append s t, k))

  pub has_only-take_chars :
      (n : ℕ) (s : String) → has_only p s ≡ true → has_only p (take_chars n s) ≡ true
  unfolding take_chars
  has_only-take_chars zero s h = refl
  has_only-take_chars (suc n) [] h = refl
  has_only-take_chars (suc n) (c ∷ s) h = ground (arith, h, has_only-take_chars n s)

  has_only-drop_while :
      (q : ℕ → Bool) (s : String) → has_only p s ≡ true → has_only p (drop_while q s) ≡ true
  unfolding drop_while
  has_only-drop_while q [] h = refl
  has_only-drop_while q (c ∷ s) h = ground (arith, h, has_only-drop_while q s)

  has_only-keep_last :
      (q : ℕ → Bool) (c : Char) (s : String)
      → p (code c) ≡ true
      → has_only p s ≡ true
      → has_only p (keep_last q c s) ≡ true
  unfolding keep_last
  has_only-keep_last q c [] h k = elim (Bool-cases (q (code c))) [
    | inl e ↦ rw e refl
    | inr e ↦ rw e (ground (arith, h))
  ]
  has_only-keep_last q c (d ∷ s) h k = ground (arith, h, k)

  pub has_only-rstrip :
      (q : ℕ → Bool) (s : String) → has_only p s ≡ true → has_only p (rstrip q s) ≡ true
  unfolding rstrip
  has_only-rstrip q [] h = refl
  has_only-rstrip q (c ∷ s) h =
      has_only-keep_last q c (rstrip q s) (ground (arith, h))
        (has_only-rstrip q s (ground (arith, h)))

  pub has_only-strip :
      (q : ℕ → Bool) (s : String) → has_only p s ≡ true → has_only p (strip q s) ≡ true
  unfolding strip
  has_only-strip q s h = has_only-rstrip q (drop_while q s) (has_only-drop_while q s h)

count-keep_last : (q : ℕ → Bool) (c : Char) (s : String) → count (keep_last q c s) ≤ suc (count s)
unfolding keep_last
count-keep_last q c [] = elim (Bool-cases (q (code c))) [
  | inl e ↦ rw e (omega arith)
  | inr e ↦ rw e (omega (arith, count.cons c []))
]
count-keep_last q c (d ∷ s) = omega (arith, count.cons c (d ∷ s))

pub count-rstrip : (q : ℕ → Bool) (s : String) → count (rstrip q s) ≤ count s
unfolding rstrip
count-rstrip q [] = omega arith
count-rstrip q (c ∷ s) =
    omega (arith, count.cons c s, count-keep_last q c (rstrip q s), count-rstrip q s)

pub count-drop_while : (q : ℕ → Bool) (s : String) → count (drop_while q s) ≤ count s
unfolding drop_while
count-drop_while q [] = omega arith
count-drop_while q (c ∷ s) = elim (Bool-cases (q (code c))) [
  | inl e ↦ rw e (omega (arith, count.cons c s, count-drop_while q s))
  | inr e ↦ rw e (omega (arith, count.cons c s))
]

dash : (in_run : Bool) → has_only is_name_code (if in_run then "" else "-") ≡ true
unfolding is_name_code is_dash nat_eq
dash true = refl
dash false = refl

-- letters, digits and dashes are all that is written
replaced-has_only :
    (in_run : Bool) (c : Char)
    → has_only is_name_code (if is_name_code (code c) then c ∷ [] else if in_run then "" else "-")
      ≡ true
replaced-has_only in_run c = elim (Bool-cases (is_name_code (code c))) [
  | inl e ↦ rw e (ground (arith, e))
  | inr e ↦ rw e (dash in_run)
]

pub replace_others-has_only :
    (in_run : Bool) (s : String) → has_only is_name_code (replace_others in_run s) ≡ true
unfolding replace_others
replace_others-has_only in_run [] = refl
replace_others-has_only in_run (c ∷ s) =
    has_only-append is_name_code
      (if is_name_code (code c) then c ∷ [] else if in_run then "" else "-")
      (replace_others (not (is_name_code (code c))) s) (replaced-has_only in_run c)
      (replace_others-has_only (not (is_name_code (code c))) s)

-- dashes that wait to be written
abbrev IsDashes : Run → Type 0
IsDashes (one_dash d) = is_dash (code d) ≡ true
IsDashes _ = Unit

written-has_only : (r : Run) → IsDashes r → has_only is_name_code (written r) ≡ true
unfolding written is_name_code is_dash nat_eq
written-has_only no_dash h = refl
written-has_only many h = refl
written-has_only (one_dash d) h = ground (arith, h)

longer-IsDashes : (r : Run) (c : Char) → is_dash (code c) ≡ true → IsDashes (longer r c)
unfolding longer
longer-IsDashes no_dash c h = h
longer-IsDashes many c h = tt
longer-IsDashes (one_dash d) c h = tt

pub collapse-has_only :
    (r : Run) (s : String)
    → IsDashes r
    → has_only is_name_code s ≡ true
    → has_only is_name_code (collapse r s) ≡ true
unfolding collapse
collapse-has_only r [] d h = written-has_only r d
collapse-has_only r (c ∷ s) d h = elim (Bool-cases (is_dash (code c))) [
  | inl e ↦ rw e (
      rw (nil-append (collapse (longer r c) s))
        (collapse-has_only (longer r c) s (longer-IsDashes r c e) (ground (arith, h))))
  | inr e ↦ rw e (
      has_only-append is_name_code (written r ++ (c ∷ [])) (collapse no_dash s)
        (has_only-append is_name_code (written r) (c ∷ []) (written-has_only r d)
          (ground (arith, h)))
        (collapse-has_only no_dash s tt (ground (arith, h))))
]

pub or_community-cases : (s : String) → (or_community s ≡ "community") ⊎ (or_community s ≡ s)
or_community-cases s = elim (Bool-cases (s == "")) [
  | inl e ↦ inl (rw e refl)
  | inr e ↦ inr (rw e refl)
]

pub or_community-has_only :
    (s : String) → has_only is_name_code s ≡ true → has_only is_name_code (or_community s) ≡ true
unfolding is_name_code is_dash nat_eq
or_community-has_only s h = elim (or_community-cases s) [ inl e ↦ rw e refl | inr e ↦ rw e h ]

pub count-or_community : (s : String) (n : ℕ) → count s ≤ n → 9 ≤ n → count (or_community s) ≤ n
count-or_community s n h k = elim (or_community-cases s) [
  | inl e ↦ rw e (omega (arith, k))
  | inr e ↦ rw e h
]

pub digit-cases : (n : ℕ) → (count (digit n) ≡ 1) × (has_only is_name_code (digit n) ≡ true)
unfolding digit is_name_code is_dash nat_eq
digit-cases zero = (refl, refl)
digit-cases (suc zero) = (refl, refl)
digit-cases (suc (suc zero)) = (refl, refl)
digit-cases (suc (suc (suc zero))) = (refl, refl)
digit-cases (suc (suc (suc (suc zero)))) = (refl, refl)
digit-cases (suc (suc (suc (suc (suc zero))))) = (refl, refl)
digit-cases (suc (suc (suc (suc (suc (suc zero)))))) = (refl, refl)
digit-cases (suc (suc (suc (suc (suc (suc (suc zero))))))) = (refl, refl)
digit-cases (suc (suc (suc (suc (suc (suc (suc (suc zero)))))))) = (refl, refl)
digit-cases (suc (suc (suc (suc (suc (suc (suc (suc (suc n))))))))) = (refl, refl)
