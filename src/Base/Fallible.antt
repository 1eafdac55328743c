-- ===== src/Base/Fallible.antt =====
-- `Result`, and the test of a text for white space.
use Prim.Native.Nat.{ℕ}
use Prim.Native.Char.{code}
use Prim.Native.String.{String}
use mathlib.Core.Path.{◌≡◌, refl}
use mathlib.Core.Logic.{◌⊎◌, inl, inr}
use mathlib.Core.Bool.{Bool, true, false, ◌&&◌, ◌||◌}
use spectraplex.Base.Tests.{leb, ◌==◌}

pub data Result {ℓ κ} (E : Type ℓ) (A : Type κ) : Type (ℓ ⊔ κ) where
  err : E → Result E A
  ok : A → Result E A

abbrev pub is_ok {ℓ κ} : {E : Type ℓ} {A : Type κ} → Result E A → Bool
is_ok (err e) = false
is_ok (ok a) = true

pub Result-cases {ℓ κ} :
    {E : Type ℓ} {A : Type κ} (r : Result E A) → ((e : E) × (r ≡ err e)) ⊎ ((a : A) × (r ≡ ok a))
Result-cases (err e) = inl (e, refl)
Result-cases (ok a) = inr (a, refl)

-- `?` on a result, and `ensure!` before one.
module _ {ℓ κ ι} {E : Type ℓ} {A : Type κ} {B : Type ι} where
  abbrev pub and_then : Result E A → (A → Result E B) → Result E B
  and_then (err e) f = err e
  and_then (ok a) f = f a

  pub and_then_ok :
      (r : Result E A) (f : A → Result E B) {b : B}
      → and_then r f ≡ ok b
      → (a : A) × (r ≡ ok a) × (f a ≡ ok b)
  and_then_ok (err e) f h = cc
  and_then_ok (ok a) f h = (a, refl, h)

module _ {ℓ κ} {E : Type ℓ} {A : Type κ} where
  abbrev pub or_fail : Bool → E → Result E A → Result E A
  or_fail true e r = r
  or_fail false e r = err e

  pub or_fail_ok : (c : Bool) (e : E) {r : Result E A} {a : A} → or_fail c e r ≡ ok a → r ≡ ok a
  or_fail_ok true e h = h
  or_fail_ok false e h = cc

-- Unicode's White_Space, which `str::trim` takes off.
abbrev pub is_white_space : ℕ → Bool
is_white_space n =
    (leb 9 n && leb n 13)
    || n == 32
    || n == 133
    || n == 160
    || n == 5760
    || (leb 8192 n && leb n 8202)
    || n == 8232
    || n == 8233
    || n == 8239
    || n == 8287
    || n == 12288

-- `trim().is_empty()`
abbrev pub is_blank : String → Bool
is_blank String.[] = true
is_blank (String.◌∷◌ c s) = is_white_space (code c) && is_blank s
