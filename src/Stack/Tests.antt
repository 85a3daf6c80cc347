-- ===== src/Stack/Tests.antt =====
-- Runs of the stacks, and instances of the theorems on them.
use tinywasm.Prelude.{ℕ, ◌≡◌, refl, true, false, some, [], ◌∷◌, arith}
use tinywasm.Host.{generous, ReservesEnough}
use tinywasm.Trap.{ok, err, value_stack_overflow}
use tinywasm.Prelude.{List, pos, negsuc}
use tinywasm.Stack.Values.{
  WasmValue, i_32, i_64, ref_func, int_32, int_64, func, val_type, attach_type, from_wasm,
  attach_type_lem,
}
use tinywasm.Stack.ValueStack.{
  ValueStack, push_32, push_64, push_128, push_wasmvalue, extend_from_wasmvalues, pop_types,
  truncate_keep_counts, select_multi,
}
use tinywasm.Stack.ValueStack.RoundTrip.{Back, pop_types-extend}
use tinywasm.Stack.ValueStack.Blocks.{truncate_keep_counts_lem, select_multi_lem}
use tinywasm.Stack.Lane.{
  Stack, push, ensure_capacity_for, pop, truncate_keep, truncate_to_one_tail, enter_locals,
  reserve_locals, select_many,
}
use tinywasm.Stack.Lane.Pushing.{Outcome, push_lem, enter_locals_lem}
use tinywasm.Stack.Lane.Moving.{truncate_to_one_tail_lem, select_many_lem}
use tinywasm.Stack.CallStack
use tinywasm.Stack.CallStack.{CallFrame, CallStack, pop_frame}
use tinywasm.Stack.CallStack.Frames
use tinywasm.Stack.CallStack.Frames.{push_frame_lem, pop_frame_lem}

generous-ReservesEnough : ReservesEnough generous
generous-ReservesEnough n c e = ground (arith, e)

-- A lane that is full, and may grow to six values.
abbrev lane : Stack ℕ
lane = record { slots = 1 ∷ 2 ∷ 3 ∷ 4 ∷ []; capacity = 4; max_size = 6; dynamic = true }

push-lane :
    (push generous lane 5 ≡ (ok tt, record lane { slots = 1 ∷ 2 ∷ 3 ∷ 4 ∷ 5 ∷ []; capacity = 6 }))
    × (push generous (record lane { dynamic = false }) 5
        ≡ (err value_stack_overflow, record lane { dynamic = false }))
unfolding push ensure_capacity_for
push-lane = (refl, refl)

-- Two parameters, one more local, and room made for it.
enter_locals-lane :
    enter_locals generous 0 lane 2 3
    ≡ (ok 2, record lane { slots = 1 ∷ 2 ∷ 3 ∷ 4 ∷ 0 ∷ []; capacity = 6 })
unfolding enter_locals reserve_locals
enter_locals-lane = refl

push_lem_example : Outcome generous lane 5 (1 ∷ 2 ∷ 3 ∷ 4 ∷ 5 ∷ []) tt (push generous lane 5)
push_lem_example = push_lem generous generous-ReservesEnough lane (omega arith) 5

enter_locals_lem_example :
    Outcome generous lane 5 (1 ∷ 2 ∷ 3 ∷ 4 ∷ 0 ∷ []) 2 (enter_locals generous 0 lane 2 3)
enter_locals_lem_example =
    enter_locals_lem generous generous-ReservesEnough lane (omega arith) 0 2 3 (omega arith)
      (omega arith) (omega arith)

pop-lane : pop lane ≡ some (4, record lane { slots = 1 ∷ 2 ∷ 3 ∷ [] })
unfolding pop
pop-lane = refl

truncate_to_one_tail_lem_example : truncate_to_one_tail lane 1 ≡ some (truncate_keep lane 1 1)
truncate_to_one_tail_lem_example = truncate_to_one_tail_lem lane (1 ∷ []) (2 ∷ 3 ∷ []) 4 refl

select_many_lem_example : select_many lane 2 false ≡ some (record lane { slots = 3 ∷ 4 ∷ [] })
select_many_lem_example =
    select_many_lem lane [] (1 ∷ 2 ∷ []) (3 ∷ 4 ∷ []) false refl refl (omega arith)

abbrev frame : CallFrame
frame = record {
  instr_ptr = 7;
  func_addr = 2;
  locals_base = record { s_32 = 1; s_64 = 0; s_128 = 0 };
  stack_offset = record { c_32 = 2; c_64 = 0; c_128 = 0 };
}

abbrev calls : CallStack
calls = record { stack = frame ∷ []; capacity = 1; max_size = 1; dynamic = true }

push_frame_lem_example : Frames.Outcome generous calls frame (CallStack.push generous calls frame)
push_frame_lem_example = push_frame_lem generous calls frame generous-ReservesEnough (omega arith)

pop_frame_lem_example : pop_frame calls 0 ≡ (some frame, record calls { stack = [] })
pop_frame_lem_example = pop_frame_lem calls [] frame 0 refl (omega arith)

abbrev values : List WasmValue
values = int_32 (negsuc 4) ∷ int_64 (pos 9) ∷ func 3 ∷ []

abbrev three_lanes : ValueStack
three_lanes = record {
  stack_32 = record { slots = 8 ∷ []; capacity = 4; max_size = 4; dynamic = false };
  stack_64 = record { slots = []; capacity = 1; max_size = 1; dynamic = false };
  stack_128 = record { slots = []; capacity = 1; max_size = 1; dynamic = false };
}

abbrev loaded : ValueStack
loaded = record three_lanes {
  stack_32 = record {
    slots = 8 ∷ 4294967291 ∷ 3 ∷ [];
    capacity = 4;
    max_size = 4;
    dynamic = false;
  };
  stack_64 = record { slots = 9 ∷ []; capacity = 1; max_size = 1; dynamic = false };
}

extend-three_lanes : extend_from_wasmvalues generous three_lanes values ≡ (ok tt, loaded)
unfolding extend_from_wasmvalues push_wasmvalue push_32 push_64 push_128 tinywasm.Stack.Lane.push
    ensure_capacity_for
extend-three_lanes = refl

attach_type_lem_example :
    attach_type (from_wasm (int_32 (negsuc 4))) i_32 ≡ some (int_32 (negsuc 4))
unfolding val_type
attach_type_lem_example = attach_type_lem (int_32 (negsuc 4)) (omega arith)

pop_types-extend_example :
    Back three_lanes
      (func 3 ∷ int_64 (pos 9) ∷ int_32 (negsuc 4) ∷ [])
      (pop_types loaded (ref_func ∷ i_64 ∷ i_32 ∷ []))
unfolding val_type extend_from_wasmvalues push_wasmvalue push_32 push_64 push_128
    tinywasm.Stack.Lane.push ensure_capacity_for
pop_types-extend_example =
    pop_types-extend generous three_lanes loaded values (omega arith, (omega arith, (tt, tt))) refl
      (record { lane_32 = refl; lane_64 = refl; lane_128 = refl })

truncate_keep_counts_lem_example :
    truncate_keep_counts loaded
      (record { s_32 = 1; s_64 = 0; s_128 = 0 })
      (record { c_32 = 1; c_64 = 1; c_128 = 0 })
    ≡ record loaded {
      stack_32 = record { slots = 8 ∷ 3 ∷ []; capacity = 4; max_size = 4; dynamic = false };
    }
truncate_keep_counts_lem_example =
    truncate_keep_counts_lem loaded
      (record { below = 8 ∷ []; first = 4294967291 ∷ []; second = 3 ∷ []; parts = refl })
      (record { below = []; first = []; second = 9 ∷ []; parts = refl })
      (record { below = []; first = []; second = []; parts = refl })

select_multi_lem_example :
    select_multi loaded (record { c_32 = 1; c_64 = 0; c_128 = 0 })
    ≡ some (record loaded {
      stack_32 = record { slots = 8 ∷ []; capacity = 4; max_size = 4; dynamic = false };
    })
select_multi_lem_example =
    select_multi_lem loaded 3 (8 ∷ 4294967291 ∷ [])
      (record { below = []; first = 8 ∷ []; second = 4294967291 ∷ []; parts = refl })
      (record { below = 9 ∷ []; first = []; second = []; parts = refl })
      (record { below = []; first = []; second = []; parts = refl }) refl refl refl refl
      (omega arith) (omega arith) (omega arith)
