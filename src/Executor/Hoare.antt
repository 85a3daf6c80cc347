-- ===== src/Executor/Hoare.antt =====
-- crates/tinywasm/src/interpreter/executor.rs: what holds before and after a part of an instruction.
use tinywasm.Prelude.{◌≡◌, refl, Option, none, some}
use tinywasm.Trap.{Trap, Result, ok, err}
use tinywasm.Executor.State.{
  Executor, Run, after, ◌>>=◌, ◌>>◌, expect, read, change, lift, return, trap,
}
use tinywasm.Executor.Calm.{Quiet, Calm, Post}

-- What holds of a computation that ends well; a panic or a trap ends the run.
abbrev pub Ends : {A : Type 0} → (A → Executor → Type 0) → Option (Result A × Executor) → Type 0
Ends Q none = Unit {0}
Ends Q (some (err e, x)) = Unit {0}
Ends Q (some (ok a, x)) = Q a x

pub record Triple {A : Type 0} (P : Executor → Type 0) (run : Run A) (Q : A → Executor → Type 0)
    : Type 0 where
  pub holds : (x : Executor) → P x → Ends Q (run x)

module _ {A B : Type 0} where
  Ends-after :
      (Q : A → Executor → Type 0) (R : B → Executor → Type 0) (o : Option (Result A × Executor))
      (k : A → Run B)
      → Ends Q o
      → ((a : A) → Triple (Q a) (k a) R)
      → Ends R (after o k)
  Ends-after Q R none k h t = tt
  Ends-after Q R (some (err e, x)) k h t = tt
  Ends-after Q R (some (ok a, x)) k h t = (t a).holds x h

  pub bind-Triple :
      {P : Executor → Type 0} (Q : A → Executor → Type 0) {R : B → Executor → Type 0} {run : Run A}
      {k : A → Run B}
      → Triple P run Q
      → ((a : A) → Triple (Q a) (k a) R)
      → Triple P (run >>= k) R
  unfolding ◌>>=◌
  bind-Triple Q {R} {run} {k} t s = record {
    holds = λ x p. Ends-after Q R (run x) k (t.holds x p) s;
  }

  pub seq-Triple :
      {P : Executor → Type 0} (Q : A → Executor → Type 0) {R : B → Executor → Type 0} {run : Run A}
      {next : Run B}
      → Triple P run Q
      → ((a : A) → Triple (Q a) next R)
      → Triple P (run >> next) R
  unfolding ◌>>◌
  seq-Triple Q {R} {run} {next} t s = record {
    holds = λ x p. Ends-after Q R (run x) (λ _. next) (t.holds x p) s;
  }

pub change-Triple :
    {P Q : Executor → Type 0} (f : Executor → Executor)
    → ((x : Executor) → P x → Q (f x))
    → Triple P (change f) (λ _. Q)
unfolding change
change-Triple f step = record { holds = step }

pub read-Triple :
    {A : Type 0} {P : Executor → Type 0} {f : Executor → A}
    → Triple P (read f) (λ a x. (f x ≡ a) × P x)
unfolding read
read-Triple = record { holds = λ x p. (refl, p) }

pub expect-Triple :
    {A : Type 0} {P : Executor → Type 0} (o : Option A)
    → Triple P (expect o) (λ a x. (o ≡ some a) × P x)
unfolding expect
expect-Triple none = record { holds = λ x p. tt }
expect-Triple (some a) = record { holds = λ x p. (refl, p) }

pub return-Triple : {A : Type 0} {P : Executor → Type 0} (a : A) → Triple P (return a) (λ _. P)
unfolding return
return-Triple a = record { holds = λ x p. p }

pub lift-Triple : {A : Type 0} {P : Executor → Type 0} (r : Result A) → Triple P (lift r) (λ _. P)
unfolding lift
lift-Triple (ok a) = record { holds = λ x p. p }
lift-Triple (err e) = record { holds = λ x p. tt }

pub trap-Triple :
    {A : Type 0} {P : Executor → Type 0} {Q : A → Executor → Type 0} (e : Trap)
    → Triple P (trap e) Q
unfolding trap
trap-Triple e = record { holds = λ x p. tt }

-- A condition that an access to the stack cannot change.
abbrev pub Stable : (Executor → Type 0) → Type 0
Stable P = (x y : Executor) → Quiet x y → P x → P y

pub Calm-Triple :
    {A : Type 0} {P : Executor → Type 0}
    → Stable P
    → (run : Run A) → Calm run
    → Triple P run (λ _. P)
unfolding Calm
Calm-Triple {A} {P} stable run calm = record { holds = λ x p. kept x p (run x) (calm x) }
  where
    kept :
        (x : Executor)
        → P x
        → (o : Option (Result A × Executor)) → Post (Quiet x) o
        → Ends (λ _. P) o
    kept x p none h = tt
    kept x p (some (err e, y)) h = tt
    kept x p (some (ok a, y)) h = stable x y h p
