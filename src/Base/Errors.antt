-- ===== src/Base/Errors.antt =====
-- A call that may raise, and a transaction that is rolled back when its body raises.
use mathlib.Core.Path.{◌≡◌, refl}

pub data Error : Type 0 where
  integrity_error lookup_error value_error runtime_error : Error

pub data Result {ℓ} (A : Type ℓ) : Type ℓ where
  ok : A → Result A
  raised : Error → Result A

infixl 5 ◌>>=◌
abbrev pub ◌>>=◌ {ℓ κ} : {A : Type ℓ} {B : Type κ} → Result A → (A → Result B) → Result B
ok a >>= f = f a
raised e >>= f = raised e

-- `with self.session() as session`: commit on success, roll back to the state before on an error.
abbrev pub transaction {ℓ κ} : {S : Type ℓ} {A : Type κ} → S → Result (A × S) → Result A × S
transaction s (ok (a, t)) = (ok a, t)
transaction s (raised e) = (raised e, s)

infixl 5 ◌>>◌
abbrev pub ◌>>◌ {ℓ κ} : {A : Type ℓ} {B : Type κ} → Result A → Result B → Result B
ok a >> next = next
raised e >> next = raised e

-- what a call gives that is made of two
pub bind-ok {ℓ κ} :
    {A : Type ℓ} {B : Type κ} (r : Result A) (f : A → Result B) (b : B)
    → (r >>= f) ≡ ok b
    → (a : A) × (r ≡ ok a) × (f a ≡ ok b)
bind-ok (ok a) f b e = (a, refl, e)
bind-ok (raised x) f b e = cc

-- what holds before a transaction and of each of its results holds after it
pub transaction-cases {κ} :
    {S : Type 0} {A : Type 0} (Q : S → Type κ) (s : S) (r : Result (A × S))
    → Q s
    → ((a : A) (t : S) → r ≡ ok (a, t) → Q t)
    → Q (transaction s r).1
transaction-cases Q s (ok (a, t)) before after = after a t refl
transaction-cases Q s (raised x) before after = before
