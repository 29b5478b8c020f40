-- ===== src/Base/Membership.antt =====
-- Python's `in` on a list says whether the element occurs.
use mathlib.Core.Path.{◌≡◌}
use mathlib.Core.Logic.{inl, inr}
use mathlib.Core.Bool.{true}
use mathlib.Core.List.{List, [], ◌∷◌}
use native.Mathlib.Omega.{arith}
use discord_fediverse_bridge.Base.Equality.{Eq, contains}
use discord_fediverse_bridge.Base.Lists.{In}

module _ {A : Type 0} ⦃e : Eq A⦄ where
  pub contains-In : (xs : List A) (x : A) → contains xs x ≡ true → In x xs
  contains-In [] x h = ground arith
  contains-In (y ∷ ys) x h = ground (arith, contains-In ys x)

  pub In-contains : (xs : List A) (x : A) → In x xs → contains xs x ≡ true
  In-contains [] x m = absurd m
  In-contains (y ∷ ys) x (inl p) = ground arith
  In-contains (y ∷ ys) x (inr m) = ground (arith, In-contains ys x m)
