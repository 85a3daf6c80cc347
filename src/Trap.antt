-- ===== src/Trap.antt =====
-- crates/tinywasm/src/error.rs: the traps of the runtime, and results that carry one.
use Prim.Native.String.{String}
use tinywasm.Prelude.{ℕ, Option, none, some}

-- `Trap`. The error in `host_function` and the two types in `indirect_call_type_mismatch` are
-- opaque to the runtime: they stand here as the numbers of what the caller sees.
pub data Trap : Type 0 where
  unreachable : Trap
  host_function : ℕ → Trap
  memory_out_of_bounds : (offset len max : ℕ) → Trap
  table_out_of_bounds : (offset len max : ℕ) → Trap
  division_by_zero : Trap
  invalid_conversion_to_int : Trap
  invalid_store : Trap
  integer_overflow : Trap
  call_stack_overflow : Trap
  value_stack_overflow : Trap
  out_of_memory : Trap
  undefined_element : (index : ℕ) → Trap
  uninitialized_element : (index : ℕ) → Trap
  indirect_call_type_mismatch : (expected actual : ℕ) → Trap
  other : String → Trap

pub data Result {ℓ} (A : Type ℓ) : Type ℓ where
  ok : A → Result A
  err : Trap → Result A

-- Rust's `?`
infixl 5 ◌>>=◌ ◌>>◌
abbrev pub ◌>>=◌ {ℓ κ} : {A : Type ℓ} {B : Type κ} → Result A → (A → Result B) → Result B
ok a >>= f = f a
err e >>= f = err e

abbrev pub ◌>>◌ {ℓ κ} : {A : Type ℓ} {B : Type κ} → Result A → Result B → Result B
m >> k = m >>= λ _. k

-- `option.ok_or(e)`
abbrev pub ok_or {ℓ} : {A : Type ℓ} → Option A → Trap → Result A
ok_or none e = err e
ok_or (some a) e = ok a
