-- ===== src/Prelude/Action.antt =====
-- Methods that change an object and may throw: what was written before a throw stays written, so
-- the state comes back beside the error too.
use Prim.Native.Nat.{ℕ}
use Prim.Native.String.{String}
use mathlib.Core.List.{List}

-- The errors that the modelled code throws itself.
pub data Failure : Type 0 where
  task_not_found not_queued unknown_instruction : String → Failure
  thrown : String → Failure
  request_failed : (method : String) → (status : ℕ) → Failure
  git_failed : (message : List ℕ) → Failure

pub data Result {ℓ} (A : Type ℓ) : Type ℓ where
  ok : A → Result A
  err : Failure → Result A

abbrev pub Action {ℓ} : Type ℓ → Type ℓ → Type ℓ
Action S A = S → Result A × S

module _ {ℓ} {S A B : Type ℓ} where
  abbrev pub after : Result A × S → (A → Action S B) → Result B × S
  after (ok a, s) f = f a s
  after (err e, s) f = (err e, s)

  infixl 10 ◌>>=◌
  abbrev pub ◌>>=◌ : Action S A → (A → Action S B) → Action S B
  ◌>>=◌ m f s = after (m s) f
