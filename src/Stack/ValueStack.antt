-- ===== src/Stack/ValueStack.antt =====
-- crates/tinywasm/src/interpreter/stack/value_stack.rs: `ValueStack`, the three lanes together.
pub mod RoundTrip
pub mod Blocks
use tinywasm.Prelude.{
  ℕ, ◌+◌, ◌%◌, ◌^◌, Bool, true, false, not, Option, none, some, List, [], ◌∷◌, ◌==◌, if◌then◌else◌,
  replicate, to_unsigned, to_signed,
}
use tinywasm.Host.{Host}
use tinywasm.Trap.{Result, ok, err}
use tinywasm.Config.{Config}
use tinywasm.Stack.Counts.{ValueCounts, StackBase}
use tinywasm.Stack.Lane
use tinywasm.Stack.Lane.{Stack}
use tinywasm.Stack.Values.{
  WasmType, i_32, i_64, f_32, f_64, v_128, ref_func, ref_extern, WasmValue, int_32, int_64,
  float_32, float_64, vec_128, extern, func, TinyWasmValue, value_32, value_64, value_128,
  value_ref,
}

-- A 128-bit value is its sixteen bytes.
pub record ValueStack : Type 0 where
  pub stack_32 : Stack ℕ
  pub stack_64 : Stack ℕ
  pub stack_128 : Stack (List ℕ)

unfoldable pub clear : ValueStack → ValueStack
unfolding Lane.clear
clear s = record {
  stack_32 = Lane.clear s.stack_32;
  stack_64 = Lane.clear s.stack_64;
  stack_128 = Lane.clear s.stack_128;
}

-- `as u32`
unfoldable pub base : ValueStack → StackBase
base s = record {
  s_32 = Lane.len s.stack_32 % 2 ^ 32;
  s_64 = Lane.len s.stack_64 % 2 ^ 32;
  s_128 = Lane.len s.stack_128 % 2 ^ 32;
}

unfoldable pub len : ValueStack → ℕ
len s = Lane.len s.stack_32 + Lane.len s.stack_64 + Lane.len s.stack_128

-- A push on one lane, within the value stack.
unfoldable pub push_32 : Host → ValueStack → ℕ → Result (Unit {0}) × ValueStack
push_32 host s v = let (r, l) = Lane.push host s.stack_32 v in (r, record s { stack_32 = l })

unfoldable pub push_64 : Host → ValueStack → ℕ → Result (Unit {0}) × ValueStack
push_64 host s v = let (r, l) = Lane.push host s.stack_64 v in (r, record s { stack_64 = l })

unfoldable pub push_128 : Host → ValueStack → List ℕ → Result (Unit {0}) × ValueStack
push_128 host s v = let (r, l) = Lane.push host s.stack_128 v in (r, record s { stack_128 = l })

unfoldable pub push_dyn : Host → ValueStack → TinyWasmValue → Result (Unit {0}) × ValueStack
unfolding push_32 push_64 push_128
push_dyn host s (value_32 v) = push_32 host s v
push_dyn host s (value_64 v) = push_64 host s v
push_dyn host s (value_128 v) = push_128 host s v
push_dyn host s (value_ref v) = push_32 host s v

-- A pop from one lane. `none` is the panic of an underflow.
unfoldable pub pop_32 : ValueStack → Option (ℕ × ValueStack)
pop_32 s = elim (Lane.pop s.stack_32) [
  | none ↦ none
  | some p ↦ some (p.0, record s { stack_32 = p.1 })
]

unfoldable pub pop_64 : ValueStack → Option (ℕ × ValueStack)
pop_64 s = elim (Lane.pop s.stack_64) [
  | none ↦ none
  | some p ↦ some (p.0, record s { stack_64 = p.1 })
]

unfoldable pub pop_128 : ValueStack → Option (List ℕ × ValueStack)
pop_128 s = elim (Lane.pop s.stack_128) [
  | none ↦ none
  | some p ↦ some (p.0, record s { stack_128 = p.1 })
]

-- What is popped, with the constructor of its type.
unfoldable pub typed :
    {A : Type 0} → (A → WasmValue) → Option (A × ValueStack) → Option (WasmValue × ValueStack)
typed f none = none
typed f (some p) = some (f p.0, p.1)

unfoldable pub pop_wasmvalue : ValueStack → WasmType → Option (WasmValue × ValueStack)
unfolding typed pop_32 pop_64 pop_128
pop_wasmvalue s i_32 = typed (λ v. int_32 (to_signed 32 v)) (pop_32 s)
pop_wasmvalue s i_64 = typed (λ v. int_64 (to_signed 64 v)) (pop_64 s)
pop_wasmvalue s f_32 = typed float_32 (pop_32 s)
pop_wasmvalue s f_64 = typed float_64 (pop_64 s)
pop_wasmvalue s v_128 = typed vec_128 (pop_128 s)
pop_wasmvalue s ref_func = typed func (pop_32 s)
pop_wasmvalue s ref_extern = typed extern (pop_32 s)

-- The values that the iterator yields, in the order of the types.
unfoldable pub pop_types : ValueStack → List WasmType → Option (List WasmValue × ValueStack)
unfolding pop_wasmvalue
pop_types s [] = some ([], s)
pop_types s (ty ∷ types) = elim (pop_wasmvalue s ty) [
  | none ↦ none
  | some p ↦ elim (pop_types p.1 types) [ none ↦ none | some q ↦ some (p.0 ∷ q.0, q.1) ]
]

-- One round of `extend_from_wasmvalues`.
unfoldable pub push_wasmvalue : Host → ValueStack → WasmValue → Result (Unit {0}) × ValueStack
unfolding push_32 push_64 push_128
push_wasmvalue host s (int_32 v) = push_32 host s (to_unsigned 32 v)
push_wasmvalue host s (int_64 v) = push_64 host s (to_unsigned 64 v)
push_wasmvalue host s (float_32 v) = push_32 host s v
push_wasmvalue host s (float_64 v) = push_64 host s v
push_wasmvalue host s (extern v) = push_32 host s v
push_wasmvalue host s (func v) = push_32 host s v
push_wasmvalue host s (vec_128 v) = push_128 host s v

unfoldable pub extend_from_wasmvalues :
    Host → ValueStack → List WasmValue → Result (Unit {0}) × ValueStack
unfolding push_wasmvalue
extend_from_wasmvalues host s [] = (ok tt, s)
extend_from_wasmvalues host s (value ∷ values) =
    let (r, s') = push_wasmvalue host s value in
    elim r [ err e ↦ (err e, s') | ok u ↦ extend_from_wasmvalues host s' values ]

unfoldable pub truncate_keep_counts : ValueStack → StackBase → ValueCounts → ValueStack
truncate_keep_counts s b keep = record {
  stack_32 = Lane.truncate_keep s.stack_32 b.s_32 keep.c_32;
  stack_64 = Lane.truncate_keep s.stack_64 b.s_64 keep.c_64;
  stack_128 = Lane.truncate_keep s.stack_128 b.s_128 keep.c_128;
}

unfoldable pub truncate_to_base : ValueStack → StackBase → ValueStack
truncate_to_base s b = record {
  stack_32 = Lane.truncate_to s.stack_32 b.s_32;
  stack_64 = Lane.truncate_to s.stack_64 b.s_64;
  stack_128 = Lane.truncate_to s.stack_128 b.s_128;
}

-- A lane that overflows leaves the lanes before it entered.
unfoldable pub enter_locals :
    Host → ValueStack → ValueCounts → ValueCounts → Result StackBase × ValueStack
enter_locals host s params locals =
    let (r_32, l_32) = Lane.enter_locals host 0 s.stack_32 params.c_32 locals.c_32 in
    let (r_64, l_64) = Lane.enter_locals host 0 s.stack_64 params.c_64 locals.c_64 in
    let (r_128, l_128) =
      Lane.enter_locals host (replicate 16 0) s.stack_128 params.c_128 locals.c_128 in
    elim r_32 [
      | err e ↦ (err e, record s { stack_32 = l_32 })
      | ok b_32 ↦ elim r_64 [
        | err e ↦ (err e, record s { stack_32 = l_32; stack_64 = l_64 })
        | ok b_64 ↦ elim r_128 [
          | err e ↦ (err e, record { stack_32 = l_32; stack_64 = l_64; stack_128 = l_128 })
          | ok b_128 ↦ (
            ok (record { s_32 = b_32; s_64 = b_64; s_128 = b_128 }),
            record { stack_32 = l_32; stack_64 = l_64; stack_128 = l_128 },
          )
        ]
      ]
    ]

infixl 5 ◌>>=◌
abbrev ◌>>=◌ : {A B : Type 0} → Option A → (A → Option B) → Option B
none >>= f = none
some a >>= f = f a

unfoldable pub select_multi : ValueStack → ValueCounts → Option ValueStack
unfolding pop_32
select_multi s counts = do
  p ← pop_32 s
  let condition : Bool = not (p.0 == 0)
  l_32 ← Lane.select_many p.1.stack_32 counts.c_32 condition
  l_64 ← Lane.select_many p.1.stack_64 counts.c_64 condition
  l_128 ← Lane.select_many p.1.stack_128 counts.c_128 condition
  some (record { stack_32 = l_32; stack_64 = l_64; stack_128 = l_128 })

-- `stack_select` of the three lanes: the first value stays when the condition is not zero.
unfoldable pub select_32 : Host → ValueStack → Option (Result (Unit {0}) × ValueStack)
unfolding pop_32 push_32
select_32 host s = do
  cond ← pop_32 s
  val_2 ← pop_32 cond.1
  elim (cond.0 == 0) [
    | false ↦ some (ok tt, val_2.1)
    | true ↦ pop_32 val_2.1 >>= λ val_1. some (push_32 host val_1.1 val_2.0)
  ]

unfoldable pub select_64 : Host → ValueStack → Option (Result (Unit {0}) × ValueStack)
unfolding pop_32 pop_64 push_64
select_64 host s = do
  cond ← pop_32 s
  val_2 ← pop_64 cond.1
  elim (cond.0 == 0) [
    | false ↦ some (ok tt, val_2.1)
    | true ↦ pop_64 val_2.1 >>= λ val_1. some (push_64 host val_1.1 val_2.0)
  ]

unfoldable pub select_128 : Host → ValueStack → Option (Result (Unit {0}) × ValueStack)
unfolding pop_32 pop_128 push_128
select_128 host s = do
  cond ← pop_32 s
  val_2 ← pop_128 cond.1
  elim (cond.0 == 0) [
    | false ↦ some (ok tt, val_2.1)
    | true ↦ pop_128 val_2.1 >>= λ val_1. some (push_128 host val_1.1 val_2.0)
  ]
