-- ===== src/Forum/Letters.antt =====
-- src/discord_forum_placement.py: Python's `str.lower`, character by character.
use discord_fediverse_bridge.Base.{ℕ, String, Option, none, some, List, [], ◌∷◌, ◌==◌, nat_eq, find}

-- `str.lower`, where it matters here: the characters with a small form in `[a-z0-9_-]`, which are the
-- capitals, the dotted capital I and the Kelvin sign. All others stay outside of that class.
abbrev small_forms : List (ℕ × String)
small_forms =
    (65, "a")
    ∷ (66, "b")
    ∷ (67, "c")
    ∷ (68, "d")
    ∷ (69, "e")
    ∷ (70, "f")
    ∷ (71, "g")
    ∷ (72, "h")
    ∷ (73, "i")
    ∷ (74, "j")
    ∷ (75, "k")
    ∷ (76, "l")
    ∷ (77, "m")
    ∷ (78, "n")
    ∷ (79, "o")
    ∷ (80, "p")
    ∷ (81, "q")
    ∷ (82, "r")
    ∷ (83, "s")
    ∷ (84, "t")
    ∷ (85, "u")
    ∷ (86, "v")
    ∷ (87, "w")
    ∷ (88, "x")
    ∷ (89, "y")
    ∷ (90, "z")
    ∷ (304, "i̇")
    ∷ (8490, "k")
    ∷ []

abbrev text_of : Option (ℕ × String) → Option String
text_of none = none
text_of (some p) = some p.1

unfoldable pub small_form : ℕ → Option String
unfolding find
small_form c = text_of (find (λ (p : ℕ × String). p.0 == c) small_forms)
