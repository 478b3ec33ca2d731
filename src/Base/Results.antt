-- ===== src/Base/Results.antt =====
-- What a function that may throw returns (server/lib/error/error.ts). `http` is an error made by
-- `newError` with its message and status code, `failed` any other exception.
use Prim.Native.Nat.{ℕ}
use Prim.Native.String.{String}
use mathlib.Core.Path.{◌≡◌, refl}
use native.Mathlib.Omega.{arith}
use mathlib.Core.Bool.{Bool, true, false}

pub data Failure : Type 0 where
  http : String → ℕ → Failure
  failed : Failure

pub data Outcome {ℓ} (A : Type ℓ) : Type ℓ where
  ok : A → Outcome A
  err : Failure → Outcome A

infixl 5 ◌>>=◌
abbrev pub ◌>>=◌ {ℓ κ} : {A : Type ℓ} {B : Type κ} → Outcome A → (A → Outcome B) → Outcome B
ok value >>= next = next value
err failure >>= next = err failure

-- `if (!test) throw newError(message, status)`
abbrev pub require : Bool → String → ℕ → Outcome (Unit {0})
require true message status = ok tt
require false message status = err (http message status)

-- A statement of a `do` block that has no value.
infixl 5 ◌>>◌
abbrev pub ◌>>◌ {ℓ} : {B : Type ℓ} → Outcome (Unit {0}) → Outcome B → Outcome B
err failure >> next = err failure
ok _ >> next = next

-- What succeeds after a step is preceded by a success of that step.
pub bind_inv {ℓ κ} :
    {A : Type ℓ} {B : Type κ} (m : Outcome A) (next : A → Outcome B) (b : B)
    → m >>= next ≡ ok b
    → (a : A) × (m ≡ ok a) × (next a ≡ ok b)
bind_inv (ok a) next b h = (a, refl, h)
bind_inv (err failure) next b h = absurd (ground arith)

pub seq_inv {ℓ} :
    {B : Type ℓ} (m : Outcome (Unit {0})) (rest : Outcome B) (b : B)
    → m >> rest ≡ ok b
    → (m ≡ ok tt) × (rest ≡ ok b)
seq_inv (ok tt) rest b h = (refl, h)
seq_inv (err failure) rest b h = absurd (ground arith)
