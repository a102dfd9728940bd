-- ===== src/Base/Outcome.antt =====
-- What a C function can end in: a value, or a fault that ends the process or has no meaning in C.
use mathlib.Core.Path.{◌≡◌, refl, ap}
use mathlib.Core.Bool.{Bool, true, false}
use mathlib.Core.Option.{Option, none, some}

-- A use of a freed object, a use of NULL, a write past an array, a failed `assert`, the overflow of a signed `int`, and a loop of the model
-- that ran out of its rounds.
pub data Fault : Type 0 where
  use_after_free null_pointer out_of_bounds assertion overflow out_of_fuel : Fault

pub data Run {ℓ} (A : Type ℓ) : Type ℓ where
  ok : A → Run A
  fault : Fault → Run A

-- What follows runs on the value; a fault ends the whole function.
infixl 5 ◌>>=◌
abbrev pub ◌>>=◌ {ℓ ℓ'} : {V : Type ℓ} {W : Type ℓ'} → Run V → (V → Run W) → Run W
fault why >>= next = fault why
ok v >>= next = next v

-- Stops with the fault unless the test holds.
abbrev pub guard : Bool → Fault → Run (Unit {0})
guard holds why = elim holds [ true ↦ ok tt | false ↦ fault why ]

-- A read through a pointer: `none` is an object that is no longer there.
abbrev pub deref {ℓ} : {A : Type ℓ} → Option A → Run A
deref none = fault use_after_free
deref (some a) = ok a

-- A read through a pointer that may be NULL.
abbrev pub non_null {ℓ} : {A : Type ℓ} → Option A → Run A
non_null none = fault null_pointer
non_null (some a) = ok a

infixl 5 ◌>>◌
abbrev pub ◌>>◌ {ℓ} : {W : Type ℓ} → Run (Unit {0}) → Run W → Run W
first >> second = first >>= λ _. second

-- A bind that returned: its first part returned a value, and the rest ran on it.
pub >>=-eq-ok {ℓ ℓ'} :
    {V : Type ℓ} {W : Type ℓ'} (first : Run V) (next : V → Run W) {w : W}
    → (first >>= next) ≡ ok w
    → (v : V) × (first ≡ ok v) × (next v ≡ ok w)
>>=-eq-ok (ok v) next run = (v, refl, run)
>>=-eq-ok (fault why) next run = cc

pub ok-injective {ℓ} : {A : Type ℓ} {a b : A} → ok a ≡ ok b → a ≡ b
ok-injective e = cc

pub deref-some {ℓ} : {A : Type ℓ} (o : Option A) (a : A) → deref o ≡ ok a → o ≡ some a
deref-some none a e = cc
deref-some (some x) a e = ap some (ok-injective e)

-- What follows a guard runs.
pub >>-guard {ℓ} :
    {W : Type ℓ} (holds : Bool) (why : Fault) (next : Run W) {w : W}
    → (guard holds why >> next) ≡ ok w
    → next ≡ ok w
>>-guard true why next e = e
>>-guard false why next e = cc
