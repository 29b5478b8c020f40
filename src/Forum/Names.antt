-- ===== src/Forum/Names.antt =====
-- src/discord_forum_placement.py: the name of a new channel is one that Discord takes, and is free.
use Prim.Native.Nat.{◌/◌, ◌%◌}
use Prim.Native.String.{[], ◌∷◌, ◌++◌, count}
use Prim.Native.String.count
use text.Mathlib.TextLemmas.{length-append}
use discord_fediverse_bridge.Base.{
  ℕ, zero, suc, ◌+◌, ◌-◌, ◌≤◌, ◌<◌, ◌≡◌, refl, arith, String, Bool, true, false, Option, none, some,
  List, ltb, ◌==◌, nat_eq, string_eq, if◌then◌else◌, Bool-cases, inl, inr,
}
use discord_fediverse_bridge.Delivery.Diagnostics.{is_space, take_chars, count-take_chars}
use discord_fediverse_bridge.Forum.{
  channel_name_limit, is_dash, is_name_code, lower_case, drop_while, rstrip, strip, replace_others,
  no_dash, collapse, or_community, normalize_forum_channel_name, digit, decimal, suffix_text,
  candidate, is_taken, first_free, unique_forum_channel_name,
}
use discord_fediverse_bridge.Forum.Texts.{
  has_only, has_only-append, has_only-take_chars, has_only-rstrip, has_only-strip, count-rstrip,
  count-drop_while, replace_others-has_only, collapse-has_only, or_community-cases,
  or_community-has_only, count-or_community, digit-cases,
}

-- A name that Discord takes.
pub record IsName (name : String) : Type 0 where
  pub only : has_only is_name_code name ≡ true
  pub some_character : 1 ≤ count name
  pub few : count name ≤ channel_name_limit

count-or_community_pos : (s : String) → 1 ≤ count (or_community s)
unfolding string_eq
count-or_community_pos [] = omega arith
count-or_community_pos (c ∷ s) = elim (or_community-cases (c ∷ s)) [
  | inl e ↦ rw e (omega arith)
  | inr e ↦ rw e (omega (arith, count.cons c s))
]

normalize_forum_channel_name-IsName : (value : String) → IsName (normalize_forum_channel_name value)
unfolding normalize_forum_channel_name strip
normalize_forum_channel_name-IsName value =
    let others = replace_others false (lower_case (strip is_space value)) in
    let joined = collapse no_dash others in
    let normalized = or_community (strip is_dash joined) in
    let cut = take_chars channel_name_limit normalized in
    record {
      only = or_community-has_only (strip is_dash cut) (
          has_only-strip is_name_code is_dash cut (
            has_only-take_chars is_name_code channel_name_limit normalized (
              or_community-has_only (strip is_dash joined) (
                has_only-strip is_name_code is_dash joined (
                  collapse-has_only no_dash others tt
                    (replace_others-has_only false (lower_case (strip is_space value))))))));
      some_character = count-or_community_pos (strip is_dash cut);
      few =
          count-or_community (strip is_dash cut) channel_name_limit
            (omega (
              arith,
              count-rstrip is_dash (drop_while is_dash cut),
              count-drop_while is_dash cut,
              count-take_chars channel_name_limit normalized,
            ))
            (omega arith);
    }

place-cases :
    (b : Bool) (n : ℕ)
    → (count (if b then "" else digit n) ≤ 1)
      × (has_only is_name_code (if b then "" else digit n) ≡ true)
place-cases true n = (omega arith, refl)
place-cases false n = (omega (arith, (digit-cases n).0), (digit-cases n).1)

suffix_text-cases :
    (n : ℕ) → (count (suffix_text n) ≤ 4) × (has_only is_name_code (suffix_text n) ≡ true)
unfolding decimal is_name_code is_dash nat_eq
suffix_text-cases n =
    let hundreds = if ltb n 100 then "" else digit (n / 100) in
    let tens = if ltb n 10 then "" else digit ((n / 10) % 10) in
    let ones = digit (n % 10) in
    let (a, p) = place-cases (ltb n 100) (n / 100) in
    let (b, q) = place-cases (ltb n 10) ((n / 10) % 10) in
    let (c, r) = digit-cases (n % 10) in
    (
      omega (
        arith,
        a,
        b,
        c,
        length-append "-" (hundreds ++ tens ++ ones),
        length-append hundreds (tens ++ ones),
        length-append tens ones,
      ),
      has_only-append is_name_code "-" (hundreds ++ tens ++ ones) refl (
          has_only-append is_name_code hundreds (tens ++ ones) p
            (has_only-append is_name_code tens ones q r)),
    )

-- a suffix takes the place of the end of a long name
candidate-IsName :
    (base : String) (suffix : ℕ)
    → has_only is_name_code base ≡ true
    → IsName (candidate base suffix)
unfolding candidate
candidate-IsName base suffix h =
    let room = channel_name_limit - count (suffix_text suffix) in
    let cut = take_chars room base in
    let trimmed = or_community (rstrip is_dash cut) in
    let (short, only) = suffix_text-cases suffix in
    let fits : count trimmed ≤ room =
      count-or_community (rstrip is_dash cut) room
        (omega (arith, count-rstrip is_dash cut, count-take_chars room base))
        (omega (arith, short)) in
    record {
      only =
          has_only-append is_name_code trimmed (suffix_text suffix)
            (or_community-has_only (rstrip is_dash cut) (
              has_only-rstrip is_name_code is_dash cut
                (has_only-take_chars is_name_code room base h)))
            only;
      some_character = omega (
        arith,
        length-append trimmed (suffix_text suffix),
        count-or_community_pos (rstrip is_dash cut),
      );
      few = omega (arith, length-append trimmed (suffix_text suffix), fits, short);
    }

-- What comes of the search for a name that no channel of the guild has.
pub data Chosen (names : List String) (base : String) : Option String → Type 0 where
  chosen :
      (name : String) → IsName name → is_taken names name ≡ false → Chosen names base (some name)
  exhausted :
      is_taken names base ≡ true
      → ((k : ℕ) → 2 ≤ k → k ≤ 100 → is_taken names (candidate base k) ≡ true)
      → Chosen names base none

-- what the suffixes from one on come to
data Searched (names : List String) (base : String) (left suffix : ℕ) : Option String → Type 0 where
  free :
      (name : String)
      → IsName name
      → is_taken names name ≡ false
      → Searched names base left suffix (some name)
  taken :
      ((k : ℕ) → suffix ≤ k → k < suffix + left → is_taken names (candidate base k) ≡ true)
      → Searched names base left suffix none

one_more :
    (names : List String) (base : String) (left suffix : ℕ) (found : Option String)
    → is_taken names (candidate base suffix) ≡ true
    → Searched names base left (suc suffix) found
    → Searched names base (suc left) suffix found
one_more names base left suffix found here (free name is not_taken) = free name is not_taken
one_more names base left suffix found here (taken later) = taken (λ k low high.
    elim (Bool-cases (k == suffix)) [
      | inl e ↦ let same : k ≡ suffix = ground (arith, e) in rw same here
      | inr e ↦ later k (ground (arith, low, e)) (omega (arith, high))
    ])

first_free-Searched :
    (names : List String) (base : String) (left suffix : ℕ)
    → has_only is_name_code base ≡ true
    → Searched names base left suffix (first_free names base left suffix)
unfolding first_free
first_free-Searched names base zero suffix h =
    taken (λ k low high. absurd (omega (arith, low, high)))
first_free-Searched names base (suc left) suffix h =
    elim (Bool-cases (is_taken names (candidate base suffix))) [
      | inl e ↦ rw e (
          one_more names base left suffix (first_free names base left (suc suffix)) e
            (first_free-Searched names base left (suc suffix) h))
      | inr e ↦ rw e (free (candidate base suffix) (candidate-IsName base suffix h) e)
    ]

Searched-Chosen :
    (names : List String) (base : String) (found : Option String)
    → is_taken names base ≡ true
    → Searched names base 99 2 found
    → Chosen names base found
Searched-Chosen names base found h (free name is not_taken) = chosen name is not_taken
Searched-Chosen names base found h (taken all) =
    exhausted h (λ k low high. all k low (omega (arith, high)))

-- Whatever text is wished for and whatever channels the guild has: the name that is chosen has between
-- one and 100 characters, all of them small letters, digits, dashes and underscores, and no channel of
-- the guild has it, whatever its capitals. Without a name, the normalized wish and all its candidates
-- with a suffix from 2 to 100 are taken.
pub unique_forum_channel_name-Chosen :
    (names : List String) (desired : String)
    → Chosen names (normalize_forum_channel_name desired) (unique_forum_channel_name names desired)
unfolding unique_forum_channel_name
unique_forum_channel_name-Chosen names desired =
    let base = normalize_forum_channel_name desired in
    let is = normalize_forum_channel_name-IsName desired in
    elim (Bool-cases (is_taken names base)) [
      | inl e ↦ rw e (
          Searched-Chosen names base (first_free names base 99 2) e
            (first_free-Searched names base 99 2 is.only))
      | inr e ↦ rw e (chosen base is e)
    ]
