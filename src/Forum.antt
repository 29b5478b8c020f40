-- ===== src/Forum.antt =====
-- src/discord_forum_placement.py: the names of the forum channels that the bridge makes. Python's `re`
-- and the methods of its texts are written out.
mod Letters
mod Texts
mod Names
mod Tests
use Prim.Native.Char.{Char, code}
use Prim.Native.Nat.{◌/◌, ◌%◌}
use Prim.Native.String.{[], ◌∷◌, ◌++◌, count}
use discord_fediverse_bridge.Base.{
  ℕ, zero, suc, ◌+◌, ◌-◌, String, Bool, true, false, ◌&&◌, ◌||◌, not, Option, none, some, List, leb,
  ltb, ◌==◌, nat_eq, string_eq, contains, map, if◌then◌else◌,
}
use discord_fediverse_bridge.Forum.Letters.{small_form}
use discord_fediverse_bridge.Delivery.Diagnostics.{is_space, take_chars}

abbrev pub channel_name_limit : ℕ
channel_name_limit = 100

abbrev max_unique_suffix : ℕ
max_unique_suffix = 100

-- `[-_]`
unfoldable pub is_dash : ℕ → Bool
is_dash c = c == b'-' || c == b'_'

-- `[a-z0-9_-]`
unfoldable pub is_name_code : ℕ → Bool
unfolding is_dash
is_name_code c = (leb 97 c && leb c 122) || (leb 48 c && leb c 57) || is_dash c

-- `str.lower`
unfoldable pub lower_case : String → String
unfolding small_form
lower_case [] = []
lower_case (c ∷ s) = elim (small_form (code c)) [
  | some small ↦ small ++ lower_case s
  | none ↦ c ∷ lower_case s
]

unfoldable pub drop_while : (ℕ → Bool) → String → String
drop_while p [] = []
drop_while p (c ∷ s) = let rest = drop_while p s in if p (code c) then rest else c ∷ s

-- a text to the right of a character, of which nothing but such characters may be left out
unfoldable pub keep_last : (ℕ → Bool) → Char → String → String
keep_last p c [] = if p (code c) then [] else c ∷ []
keep_last p c (d ∷ s) = c ∷ d ∷ s

-- `rstrip` and `strip`
unfoldable pub rstrip : (ℕ → Bool) → String → String
rstrip p [] = []
rstrip p (c ∷ s) = keep_last p c (rstrip p s)

unfoldable pub strip : (ℕ → Bool) → String → String
unfolding drop_while rstrip keep_last
strip p s = rstrip p (drop_while p s)

-- `re.sub(r"[^a-z0-9_-]+", "-", text)`; in a run, after its dash
unfoldable pub replace_others : Bool → String → String
replace_others in_run [] = []
replace_others in_run (c ∷ s) =
    let named = is_name_code (code c) in
    (if named then c ∷ [] else if in_run then "" else "-") ++ replace_others (not named) s

-- the dashes before a character: none, one, or more
pub data Run : Type 0 where
  no_dash many : Run
  one_dash : Char → Run

unfoldable pub longer : Run → Char → Run
longer no_dash c = one_dash c
longer many c = many
longer (one_dash d) c = many

unfoldable pub written : Run → String
written no_dash = ""
written many = "-"
written (one_dash d) = d ∷ []

-- `re.sub(r"[-_]{2,}", "-", text)`
unfoldable pub collapse : Run → String → String
unfolding longer written
collapse r [] = written r
collapse r (c ∷ s) =
    let dash = is_dash (code c) in
    (if dash then "" else written r ++ (c ∷ []))
    ++ collapse (if dash then longer r c else no_dash) s

abbrev pub or_community : String → String
or_community s = if s == "" then "community" else s

unfoldable pub normalize_forum_channel_name : String → String
unfolding lower_case drop_while rstrip strip keep_last replace_others collapse longer written
normalize_forum_channel_name value =
    let normalized =
      strip is_dash (collapse no_dash (replace_others false (lower_case (strip is_space value)))) in
    or_community (strip is_dash (take_chars channel_name_limit (or_community normalized)))

unfoldable pub digit : ℕ → String
digit zero = "0"
digit (suc zero) = "1"
digit (suc (suc zero)) = "2"
digit (suc (suc (suc zero))) = "3"
digit (suc (suc (suc (suc zero)))) = "4"
digit (suc (suc (suc (suc (suc zero))))) = "5"
digit (suc (suc (suc (suc (suc (suc zero)))))) = "6"
digit (suc (suc (suc (suc (suc (suc (suc zero))))))) = "7"
digit (suc (suc (suc (suc (suc (suc (suc (suc zero)))))))) = "8"
digit (suc (suc (suc (suc (suc (suc (suc (suc (suc n))))))))) = "9"

-- the digits of a number below 1000
unfoldable pub decimal : ℕ → String
unfolding digit
decimal n =
    (if ltb n 100 then "" else digit (n / 100))
    ++ (if ltb n 10 then "" else digit ((n / 10) % 10))
    ++ digit (n % 10)

abbrev pub suffix_text : ℕ → String
suffix_text suffix = "-" ++ decimal suffix

unfoldable pub candidate : String → ℕ → String
unfolding decimal rstrip keep_last
candidate base suffix =
    or_community
      (rstrip is_dash (take_chars (channel_name_limit - count (suffix_text suffix)) base))
    ++ suffix_text suffix

-- `_existing_channel_names`, of the names of the guild's channels that have one
abbrev pub is_taken : List String → String → Bool
is_taken names name = contains (map lower_case names) (lower_case name)

-- the first free suffix among as many from one on
unfoldable pub first_free : List String → String → ℕ → ℕ → Option String
unfolding candidate
first_free names base zero suffix = none
first_free names base (suc left) suffix =
    let rest = first_free names base left (suc suffix) in
    if is_taken names (candidate base suffix) then rest else some (candidate base suffix)

-- `_unique_forum_channel_name`; without a name, the error is raised
unfoldable pub unique_forum_channel_name : List String → String → Option String
unfolding normalize_forum_channel_name first_free
unique_forum_channel_name names desired =
    let base = normalize_forum_channel_name desired in
    if is_taken names base then first_free names base (max_unique_suffix - 1) 2 else some base

-- `text.split(…, 1)[0]`, and `text.rsplit(…, 1)[-1]` of a text with another before it
up_to : (ℕ → Bool) → String → String
up_to p [] = []
up_to p (c ∷ s) = let rest = up_to p s in if p (code c) then [] else c ∷ rest

after_last : (ℕ → Bool) → String → String → String
after_last p before [] = before
after_last p before (c ∷ s) = after_last p (if p (code c) then s else before) s

-- `if text:`, and what is done with it
abbrev or_next : Option String → (String → String) → String → String
or_next none f next = next
or_next (some text) f next = if text == "" then next else f text

-- The part of a handle, of an actor's id, or the name itself.
pub derive_channel_name_from_community : Option String → Option String → Option String → String
derive_channel_name_from_community name handle actor_id =
    let of_actor =
      or_next actor_id
        (λ id.
          let trimmed = rstrip (λ c. c == b'/') id in
          let segment = after_last (λ c. c == b'/') trimmed trimmed in
          if segment == "" then "community" else normalize_forum_channel_name segment)
        "community" in
    let of_handle =
      or_next handle
        (λ text.
          let local_part = up_to (λ c. c == b'@') (drop_while (λ c. c == b'!') text) in
          if local_part == "" then of_actor else normalize_forum_channel_name local_part)
        of_actor in
    or_next name normalize_forum_channel_name of_handle
