-- ===== src/Delivery/Diagnostics.antt =====
-- src/db/repositories/user_actor_delivery_types.py: `bound_delivery_error`, which redacts and bounds
-- an error before it is stored or shown. Python's `re` and `str.split` are written out.
use Prim.Native.Char.{code}
use Prim.Native.String.{[], ◌∷◌, ◌++◌, count}
use Prim.Native.String.count
use discord_fediverse_bridge.Base.{
  ℕ, zero, suc, ◌+◌, ◌≤◌, String, Bool, true, false, ◌&&◌, ◌||◌, not, Option, none, some, arith,
  leb, ◌==◌, nat_eq, if◌then◌else◌,
}

abbrev pub error_limit : ℕ
error_limit = 500

-- `\s` and `str.isspace`
unfoldable pub is_space : ℕ → Bool
is_space c =
    leb 9 c && leb c 13
    || leb 28 c && leb c 32
    || c == 133
    || c == 160
    || c == 5760
    || leb 8192 c && leb c 8202
    || c == 8232
    || c == 8233
    || c == 8239
    || c == 8287
    || c == 12288

-- What IGNORECASE identifies with a small ASCII letter: its capital, and for i and k the dotted
-- capital I, the dotless i and the Kelvin sign.
fold_case : ℕ → ℕ
fold_case c =
    if leb 65 c && leb c 90
    then c + 32
    else if c == 304 || c == 305
    then 105
    else if c == 8490
    then 107
    else c

-- the rest of a text behind a literal in small letters
match_literal : String → String → Option String
match_literal [] s = some s
match_literal (p ∷ ps) [] = none
match_literal (p ∷ ps) (c ∷ s) =
    let rest = match_literal ps s in if fold_case (code c) == code p then rest else none

-- the text up to the first dash, and the text from it
before_dash : String → String
before_dash [] = []
before_dash (c ∷ s) = let rest = before_dash s in if code c == b'-' then [] else c ∷ rest

from_dash : String → String
from_dash [] = []
from_dash (c ∷ s) = let rest = from_dash s in if code c == b'-' then c ∷ s else rest

ends_with_literal : String → String → Bool
ends_with_literal p [] = false
ends_with_literal p (c ∷ s) = elim (match_literal p (c ∷ s)) [
  | some [] ↦ true
  | _ ↦ ends_with_literal p s
]

-- `[^-]*PRIVATE KEY-----`: the class stops at the first dash
match_key_tail : String → Option String
match_key_tail s =
    if ends_with_literal "private key" (before_dash s)
    then match_literal "-----" (from_dash s)
    else none

match_marker : String → String → Option String
match_marker literal s = elim (match_literal literal s) [ none ↦ none | some r ↦ match_key_tail r ]

-- `.*?` with DOTALL: the first place where the END marker matches
find_end : String → Option String
find_end [] = none
find_end (c ∷ s) = elim (match_marker "-----end " (c ∷ s)) [ some r ↦ some r | none ↦ find_end s ]

match_key_block : String → Option String
match_key_block s = elim (match_marker "-----begin " s) [ none ↦ none | some r ↦ find_end r ]

drop_spaces : String → String
drop_spaces [] = []
drop_spaces (c ∷ s) = let rest = drop_spaces s in if is_space (code c) then rest else c ∷ s

is_token : ℕ → Bool
is_token c = not (is_space c) && not (c == b',') && not (c == b';')

drop_token : String → String
drop_token [] = []
drop_token (c ∷ s) = let rest = drop_token s in if is_token (code c) then rest else c ∷ s

starts_with_space : String → Bool
starts_with_space [] = false
starts_with_space (c ∷ s) = is_space (code c)

starts_with_token : String → Bool
starts_with_token [] = false
starts_with_token (c ∷ s) = is_token (code c)

-- `(?i)bearer\s+[^\s,;]+`
match_bearer : String → Option String
match_bearer s = elim (match_literal "bearer" s) [
  | none ↦ none
  | some r ↦
      if starts_with_space r && starts_with_token (drop_spaces r)
      then some (drop_token (drop_spaces r))
      else none
]

-- `re.sub`: each match is replaced, and the scan goes on behind it. Each round consumes a character,
-- so a text's length is fuel enough.
substitute : (String → Option String) → String → ℕ → String → String
substitute pattern replacement zero s = s
substitute pattern replacement (suc fuel) [] = []
substitute pattern replacement (suc fuel) (c ∷ s) = elim (pattern (c ∷ s)) [
  | some rest ↦ replacement ++ substitute pattern replacement fuel rest
  | none ↦ c ∷ substitute pattern replacement fuel s
]

redact : String → String
redact error =
    let no_keys = substitute match_key_block "[redacted private key]" (count error) error in
    substitute match_bearer "Bearer [redacted]" (count no_keys) no_keys

-- `" ".join(text.split())`; `started` after a first word, `gap` after white space
join_words : Bool → Bool → String → String
join_words started gap [] = []
join_words started gap (c ∷ s) = elim (is_space (code c)) [
  | true ↦ join_words started true s
  | false ↦ (if started && gap then " " else "") ++ (c ∷ join_words true false s)
]

-- `text[:n]`
unfoldable pub take_chars : ℕ → String → String
take_chars zero s = []
take_chars (suc n) [] = []
take_chars (suc n) (c ∷ s) = c ∷ take_chars n s

unfoldable pub bound_delivery_error : String → String
unfolding redact substitute match_key_block match_marker match_key_tail match_literal
    ends_with_literal find_end before_dash from_dash match_bearer is_space is_token fold_case
    drop_spaces drop_token starts_with_space starts_with_token join_words take_chars
bound_delivery_error error = take_chars error_limit (join_words false false (redact error))

-- The text that a column of an error holds is bounded.
abbrev pub IsBounded : Option String → Type 0
IsBounded none = Unit
IsBounded (some e) = count e ≤ error_limit

pub count-take_chars : (n : ℕ) (s : String) → count (take_chars n s) ≤ n
unfolding take_chars
count-take_chars zero s = omega arith
count-take_chars (suc n) [] = omega arith
count-take_chars (suc n) (c ∷ s) =
    omega (arith, count.cons c (take_chars n s), count-take_chars n s)

-- Whatever the error, the text that is stored of it has at most 500 characters.
pub bound_delivery_error-IsBounded : (e : String) → IsBounded (some (bound_delivery_error e))
unfolding bound_delivery_error
bound_delivery_error-IsBounded e = count-take_chars error_limit _
