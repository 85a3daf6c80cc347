-- ===== src/Executor/Access.antt =====
-- crates/tinywasm/src/interpreter/values.rs: `InternalValue`, the places of the values of a size on
-- the stack and in the locals; and the accesses to globals of executor.rs.
use tinywasm.Prelude.{ℕ, ◌+◌, Option, none, some, List, get_elem?, set}
use tinywasm.Trap.{Result, ok}
use tinywasm.Stack.Counts.{StackBase}
use tinywasm.Stack.Lane
use tinywasm.Stack.Lane.{Stack}
use tinywasm.Stack.Values.{
  WasmType, i_32, i_64, f_32, f_64, v_128, ref_func, ref_extern, TinyWasmValue, value_32, value_ref,
}
use tinywasm.Stack.ValueStack.{ValueStack, push_dyn}
use tinywasm.Executor.State.{Context, GlobalInstance, Run, ◌>>=◌, expect, read, change, set_stack}

-- The parameters `$stack` and `$stack_base` of `impl_internalvalue!`.
pub record Slot (T : Type 0) : Type 0 where
  pub lane : ValueStack → Stack T
  pub with_lane : ValueStack → Stack T → ValueStack
  pub base : StackBase → ℕ

abbrev pub slot_32 : Slot ℕ
slot_32 = record {
  lane = λ s. s.stack_32;
  with_lane = λ s l. record s { stack_32 = l };
  base = λ b. b.s_32;
}

abbrev pub slot_64 : Slot ℕ
slot_64 = record {
  lane = λ s. s.stack_64;
  with_lane = λ s l. record s { stack_64 = l };
  base = λ b. b.s_64;
}

abbrev pub slot_128 : Slot (List ℕ)
slot_128 = record {
  lane = λ s. s.stack_128;
  with_lane = λ s l. record s { stack_128 = l };
  base = λ b. b.s_128;
}

module _ {T : Type 0} where
  unfoldable pub stack_push : Context → Slot T → T → Run (Unit {0})
  stack_push ctx slot value x =
      let s : ValueStack = x.store.value_stack in
      let (r, l) = Lane.push ctx.host (slot.lane s) value in
      some (r, set_stack (slot.with_lane s l) x)

  unfoldable pub stack_pop : Slot T → Run T
  stack_pop slot x =
      let s : ValueStack = x.store.value_stack in
      elim (Lane.pop (slot.lane s)) [
        | none ↦ none
        | some p ↦ some (ok p.0, set_stack (slot.with_lane s p.1) x)
      ]

  unfoldable pub stack_peek : Slot T → Run T
  stack_peek slot x = expect (Lane.last (slot.lane x.store.value_stack)) x

  unfoldable pub local_get : Slot T → ℕ → Run T
  local_get slot index x =
      expect (Lane.get (slot.lane x.store.value_stack) (slot.base x.cf.locals_base + index)) x

  unfoldable pub local_set : Slot T → ℕ → T → Run (Unit {0})
  local_set slot index value x =
      let s : ValueStack = x.store.value_stack in
      elim (Lane.set_at (slot.lane s) (slot.base x.cf.locals_base + index) value) [
        | none ↦ none
        | some l ↦ some (ok tt, set_stack (slot.with_lane s l) x)
      ]

  unfoldable pub local_update : Slot T → ℕ → (T → T) → Run (Unit {0})
  unfolding local_get local_set
  local_update slot index f = do value ← local_get slot index; local_set slot index (f value)

  unfoldable pub local_copy : Slot T → (from to : ℕ) → Run (Unit {0})
  local_copy slot from to x =
      let s : ValueStack = x.store.value_stack in
      let base : ℕ = slot.base x.cf.locals_base in
      elim (Lane.copy (slot.lane s) (base + from) (base + to)) [
        | none ↦ none
        | some l ↦ some (ok tt, set_stack (slot.with_lane s l) x)
      ]

-- An operation on the value stack as a whole.
unfoldable pub on_stack : (ValueStack → Option (Result (Unit {0}) × ValueStack)) → Run (Unit {0})
on_stack f x = elim (f x.store.value_stack) [ none ↦ none | some p ↦ some (p.0, set_stack p.1 x) ]

-- `get_global` of what `resolve_global_addr` gives
unfoldable pub get_global : ℕ → Run GlobalInstance
get_global global = do
  addr ← read (λ x. get_elem? x.module_instance.global_addrs global)
  addr ← expect addr
  found ← read (λ x. get_elem? x.store.globals addr)
  expect found

unfoldable pub exec_global_get : Context → ℕ → Run (Unit {0})
unfolding get_global
exec_global_get ctx global = do
  found ← get_global global
  on_stack (λ s. some (push_dyn ctx.host s found.value))

-- `set_global_val`
unfoldable pub set_global_val : ℕ → TinyWasmValue → Run (Unit {0})
unfolding get_global
set_global_val global value = do
  found ← get_global global
  addr ← read (λ x. get_elem? x.module_instance.global_addrs global)
  addr ← expect addr
  change (λ x. record x {
    store = record x.store { globals = set x.store.globals addr (record found { value = value }) };
  })

unfoldable pub exec_global_set : {T : Type 0} → Slot T → (T → TinyWasmValue) → ℕ → Run (Unit {0})
unfolding stack_pop set_global_val
exec_global_set slot into global = do value ← stack_pop slot; set_global_val global (into value)

-- The value of a global with 32 bits is a number or a reference; `none` is the `unreachable!`.
abbrev value_of_32 : WasmType → ℕ → Option TinyWasmValue
value_of_32 i_32 raw = some (value_32 raw)
value_of_32 f_32 raw = some (value_32 raw)
value_of_32 ref_extern raw = some (value_ref raw)
value_of_32 ref_func raw = some (value_ref raw)
value_of_32 i_64 raw = none
value_of_32 f_64 raw = none
value_of_32 v_128 raw = none

unfoldable pub exec_global_set_32 : ℕ → Run (Unit {0})
unfolding stack_pop set_global_val get_global
exec_global_set_32 global = do
  raw ← stack_pop slot_32
  found ← get_global global
  value ← expect (value_of_32 found.ty raw)
  set_global_val global value
