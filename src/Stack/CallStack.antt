-- ===== src/Stack/CallStack.antt =====
-- crates/tinywasm/src/interpreter/stack/call_stack.rs: the frames of the functions that are active.
-- The first element of `stack` is the outermost frame.
pub mod Frames
use tinywasm.Prelude.{
  ℕ, ◌+◌, ◌-◌, ◌*◌, ◌%◌, ◌^◌, min, max, Bool, true, false, not, Option, none, some, List, [], ◌∷◌,
  ◌++◌, ltb, leb, ◌==◌, ◌||◌, if◌then◌else◌, length, take, get_elem?,
}
use tinywasm.Prelude.Word.{saturating_mul}
use tinywasm.Host.{Host}
use tinywasm.Trap.{Result, ok, err, call_stack_overflow}
use tinywasm.Config.{Config}
use tinywasm.Stack.Counts.{ValueCounts, StackBase}

pub record CallFrame : Type 0 where
  pub instr_ptr : ℕ
  pub func_addr : ℕ
  pub locals_base : StackBase
  pub stack_offset : ValueCounts

pub record CallStack : Type 0 where
  pub stack : List CallFrame
  -- `stack.capacity()`
  pub capacity : ℕ
  pub max_size : ℕ
  pub dynamic : Bool

unfoldable pub new_frame : ℕ → StackBase → ValueCounts → CallFrame
new_frame func_addr locals_base stack_offset = record {
  instr_ptr = 0;
  func_addr = func_addr;
  locals_base = locals_base;
  stack_offset = stack_offset;
}

-- Where the operands of the function start, behind its locals; `u32` sums of a release build.
unfoldable pub stack_base : CallFrame → StackBase
stack_base f = record {
  s_32 = (f.locals_base.s_32 + f.stack_offset.c_32) % 2 ^ 32;
  s_64 = (f.locals_base.s_64 + f.stack_offset.c_64) % 2 ^ 32;
  s_128 = (f.locals_base.s_128 + f.stack_offset.c_128) % 2 ^ 32;
}

unfoldable pub incr_instr_ptr : CallFrame → CallFrame
incr_instr_ptr f = record f { instr_ptr = f.instr_ptr + 1 }

-- `none` is the abort of an allocation that fails.
unfoldable pub new : Host → Config → Option CallStack
new host config = elim (host.reserve_slots config.call_stack.initial_size) [
  | none ↦ none
  | some capacity ↦ some (record {
    stack = [];
    capacity = capacity;
    max_size = config.call_stack.max_size;
    dynamic = config.call_stack.dynamic;
  })
]

unfoldable pub clear : CallStack → CallStack
clear s = record s { stack = [] }

-- as a `u32`
unfoldable pub len : CallStack → ℕ
len s = length s.stack % 2 ^ 32

unfoldable pub truncate_to : CallStack → ℕ → CallStack
truncate_to s n = record s { stack = take n s.stack }

-- `None` when the frames above `base` are used up, or when there is none.
unfoldable pub pop_frame : CallStack → ℕ → Option CallFrame × CallStack
unfolding len
pop_frame s base = if len s == base then (none, s) else (
  get_elem? s.stack (length s.stack - 1),
  record s { stack = take (length s.stack - 1) s.stack },
)

unfoldable pub ensure_capacity_for : Host → CallStack → ℕ → Result (Unit {0}) × CallStack
ensure_capacity_for host s required_len =
    let doubled : ℕ = saturating_mul (max s.capacity 1) 2 in
    let target_capacity : ℕ = min (max required_len doubled) s.max_size in
    let additional : ℕ = target_capacity - length s.stack in
    if ltb s.capacity required_len
    then (if ltb s.max_size required_len || not s.dynamic
        then (err call_stack_overflow, s)
        else elim (host.reserve_slots (length s.stack + additional)) [
          | none ↦ (err call_stack_overflow, s)
          | some capacity ↦ (ok tt, record s { capacity = capacity })
        ])
    else (ok tt, s)

unfoldable pub push : Host → CallStack → CallFrame → Result (Unit {0}) × CallStack
unfolding ensure_capacity_for incr_instr_ptr
push host s call_frame =
    let (room, s') = ensure_capacity_for host s (length s.stack + 1) in
    elim room [
      | err e ↦ (err e, s')
      | ok u ↦ (ok tt, record s' { stack = s'.stack ++ incr_instr_ptr call_frame ∷ [] })
    ]
