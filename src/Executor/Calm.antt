-- ===== src/Executor/Calm.antt =====
-- crates/tinywasm/src/interpreter/executor.rs: what an access to the stack, the locals and the
-- globals leaves as it was.
use tinywasm.Prelude.{ℕ, ◌+◌, ◌≡◌, refl, ◌∙◌, Option, none, some}
use tinywasm.Trap.{Trap, Result, ok, err}
use tinywasm.Stack.Lane
use tinywasm.Stack.Values.{TinyWasmValue}
use tinywasm.Stack.ValueStack.{ValueStack}
use tinywasm.Executor.State.{
  Context, Executor, Run, after, ◌>>=◌, ◌>>◌, expect, read, change, lift, return, trap, set_stack,
}
use tinywasm.Executor.Access.{
  Slot, slot_32, stack_push, stack_pop, stack_peek, local_get, local_set, local_update, local_copy,
  on_stack, get_global, set_global_val, exec_global_get, exec_global_set, exec_global_set_32,
}

-- The function, its module and the fuel are the same.
pub record Quiet (x y : Executor) : Type 0 where
  pub same_addr : y.cf.func_addr ≡ x.cf.func_addr
  pub same_func : y.func ≡ x.func
  pub same_module : y.module_instance ≡ x.module_instance
  pub same_fuel : y.store.execution_fuel ≡ x.store.execution_fuel

abbrev pub still : {x : Executor} → Quiet x x
still = record { same_addr = refl; same_func = refl; same_module = refl; same_fuel = refl }

abbrev pub moved : {x : Executor} {s : ValueStack} → Quiet x (set_stack s x)
moved = record { same_addr = refl; same_func = refl; same_module = refl; same_fuel = refl }

pub Quiet-trans : {x y z : Executor} → Quiet x y → Quiet y z → Quiet x z
Quiet-trans p q = record {
  same_addr = q.same_addr ∙ p.same_addr;
  same_func = q.same_func ∙ p.same_func;
  same_module = q.same_module ∙ p.same_module;
  same_fuel = q.same_fuel ∙ p.same_fuel;
}

-- What holds of the executor after a computation that does not panic, also when it traps.
abbrev pub Post : {A : Type 0} → (Executor → Type 0) → Option (Result A × Executor) → Type 0
Post P none = Unit {0}
Post P (some p) = P p.1

unfoldable pub Calm : {A : Type 0} → Run A → Type 0
Calm run = (x : Executor) → Post (Quiet x) (run x)

module _ {A B : Type 0} where
  Post-after :
      (x : Executor) (o : Option (Result A × Executor)) (k : A → Run B)
      → Post (Quiet x) o
      → ((a : A) → Calm (k a))
      → Post (Quiet x) (after o k)
  unfolding Calm
  Post-after x none k h calm = tt
  Post-after x (some (err e, y)) k h calm = h
  Post-after x (some (ok a, y)) k h calm = further (k a y) (calm a y)
    where
      further : (o : Option (Result B × Executor)) → Post (Quiet y) o → Post (Quiet x) o
      further none g = tt
      further (some p) g = Quiet-trans h g

  pub bind-Calm :
      (run : Run A) (k : A → Run B) → Calm run → ((a : A) → Calm (k a)) → Calm (run >>= k)
  unfolding Calm ◌>>=◌
  bind-Calm run k c calm x = Post-after x (run x) k (c x) calm

  pub seq-Calm : (run : Run A) (next : Run B) → Calm run → Calm next → Calm (run >> next)
  unfolding Calm ◌>>◌
  seq-Calm run next c calm x = Post-after x (run x) (λ _. next) (c x) (λ _. calm)

pub expect-Calm : {A : Type 0} (o : Option A) → Calm (expect o)
unfolding Calm expect
expect-Calm none x = tt
expect-Calm (some a) x = still

pub read-Calm : {A : Type 0} (f : Executor → A) → Calm (read f)
unfolding Calm read
read-Calm f x = still

pub change-Calm : (f : Executor → Executor) → ((x : Executor) → Quiet x (f x)) → Calm (change f)
unfolding Calm change
change-Calm f quiet x = quiet x

pub lift-Calm : {A : Type 0} (r : Result A) → Calm (lift r)
unfolding Calm lift
lift-Calm r x = still

pub return-Calm : {A : Type 0} (a : A) → Calm (return a)
unfolding Calm return
return-Calm a x = still

pub trap-Calm : (A : Type 0) (e : Trap) → Calm (trap {A = A} e)
unfolding Calm trap
trap-Calm A e x = still

module _ {T : Type 0} (slot : Slot T) where
  pub stack_push-Calm : (ctx : Context) (v : T) → Calm (stack_push ctx slot v)
  unfolding stack_push Calm
  stack_push-Calm ctx v x = moved

  pub stack_pop-Calm : Calm (stack_pop slot)
  unfolding stack_pop Calm
  stack_pop-Calm x = popped (Lane.pop (slot.lane x.store.value_stack))
    where
      popped :
          (o : Option (T × Lane.Stack T))
          → Post (Quiet x) (elim o [
            | none ↦ none
            | some p ↦ some (ok p.0, set_stack (slot.with_lane x.store.value_stack p.1) x)
          ])
      popped none = tt
      popped (some p) = moved

  pub stack_peek-Calm : Calm (stack_peek slot)
  unfolding stack_peek Calm expect
  stack_peek-Calm x = expect-Calm (Lane.last (slot.lane x.store.value_stack)) x

  pub local_get-Calm : (i : ℕ) → Calm (local_get slot i)
  unfolding local_get Calm
  local_get-Calm i x =
      expect-Calm (Lane.get (slot.lane x.store.value_stack) (slot.base x.cf.locals_base + i)) x

  lane_set :
      (x : Executor) (o : Option (Lane.Stack T))
      → Post {A = Unit {0}} (Quiet x) (elim o [
        | none ↦ none
        | some l ↦ some (ok tt, set_stack (slot.with_lane x.store.value_stack l) x)
      ])
  lane_set x none = tt
  lane_set x (some l) = moved

  pub local_set-Calm : (i : ℕ) (v : T) → Calm (local_set slot i v)
  unfolding local_set Calm
  local_set-Calm i v x =
      lane_set x (Lane.set_at (slot.lane x.store.value_stack) (slot.base x.cf.locals_base + i) v)

  pub local_update-Calm : (i : ℕ) (f : T → T) → Calm (local_update slot i f)
  unfolding local_update
  local_update-Calm i f = bind-Calm _ _ (local_get-Calm i) λ v. local_set-Calm i (f v)

  pub local_copy-Calm : (from to : ℕ) → Calm (local_copy slot from to)
  unfolding local_copy Calm
  local_copy-Calm from to x = lane_set x (
      Lane.copy (slot.lane x.store.value_stack) (slot.base x.cf.locals_base + from)
        (slot.base x.cf.locals_base + to))

pub on_stack-Calm : (f : ValueStack → Option (Result (Unit {0}) × ValueStack)) → Calm (on_stack f)
unfolding on_stack Calm
on_stack-Calm f x = applied (f x.store.value_stack)
  where
    applied :
        (o : Option (Result (Unit {0}) × ValueStack))
        → Post (Quiet x) (elim o [ none ↦ none | some p ↦ some (p.0, set_stack p.1 x) ])
    applied none = tt
    applied (some p) = moved

pub get_global-Calm : (global : ℕ) → Calm (get_global global)
unfolding get_global
get_global-Calm global =
    bind-Calm _ _ (read-Calm _)
      λ o. bind-Calm _ _ (expect-Calm o) λ addr. bind-Calm _ _ (read-Calm _) λ g. expect-Calm g

pub exec_global_get-Calm : (ctx : Context) (global : ℕ) → Calm (exec_global_get ctx global)
unfolding exec_global_get
exec_global_get-Calm ctx global = bind-Calm _ _ (get_global-Calm global) λ found. on_stack-Calm _

set_global_val-Calm : (global : ℕ) (v : TinyWasmValue) → Calm (set_global_val global v)
unfolding set_global_val
set_global_val-Calm global v = bind-Calm _ _ (get_global-Calm global) λ found.
    bind-Calm _ _ (read-Calm _) λ o. bind-Calm _ _ (expect-Calm o) λ addr.
      change-Calm _
        λ x. record { same_addr = refl; same_func = refl; same_module = refl; same_fuel = refl }

pub exec_global_set-Calm :
    {T : Type 0} (slot : Slot T) (into : T → TinyWasmValue) (global : ℕ)
    → Calm (exec_global_set slot into global)
unfolding exec_global_set
exec_global_set-Calm slot into global =
    bind-Calm _ _ (stack_pop-Calm slot) λ v. set_global_val-Calm global (into v)

pub exec_global_set_32-Calm : (global : ℕ) → Calm (exec_global_set_32 global)
unfolding exec_global_set_32
exec_global_set_32-Calm global = bind-Calm _ _ (stack_pop-Calm slot_32) λ raw.
    bind-Calm _ _ (get_global-Calm global)
      λ found. bind-Calm _ _ (expect-Calm _) λ v. set_global_val-Calm global v
