-- ===== src/Stack/Counts.antt =====
-- crates/types/src/lib.rs: `ValueCounts`, and crates/tinywasm/src/interpreter/stack/call_stack.rs:
-- `StackBase`; numbers of values in the three lanes, and places in them.
use tinywasm.Prelude.{ℕ, ◌+◌, ◌%◌, ◌^◌, Bool, ◌&&◌, ◌==◌, List, [], ◌∷◌}
use tinywasm.Stack.Values.{WasmType, i_32, i_64, f_32, f_64, v_128, ref_func, ref_extern}

pub record ValueCounts : Type 0 where
  pub c_32 : ℕ
  pub c_64 : ℕ
  pub c_128 : ℕ

pub record StackBase : Type 0 where
  pub s_32 : ℕ
  pub s_64 : ℕ
  pub s_128 : ℕ

unfoldable is_empty : ValueCounts → Bool
is_empty counts = counts.c_32 == 0 && (counts.c_64 == 0) && (counts.c_128 == 0)

-- One round of `from_iter`; the counters are `u16`, as a release build adds to them.
unfoldable count : ValueCounts → WasmType → ValueCounts
count counts i_32 = record counts { c_32 = (counts.c_32 + 1) % 2 ^ 16 }
count counts f_32 = record counts { c_32 = (counts.c_32 + 1) % 2 ^ 16 }
count counts ref_extern = record counts { c_32 = (counts.c_32 + 1) % 2 ^ 16 }
count counts ref_func = record counts { c_32 = (counts.c_32 + 1) % 2 ^ 16 }
count counts i_64 = record counts { c_64 = (counts.c_64 + 1) % 2 ^ 16 }
count counts f_64 = record counts { c_64 = (counts.c_64 + 1) % 2 ^ 16 }
count counts v_128 = record counts { c_128 = (counts.c_128 + 1) % 2 ^ 16 }

unfoldable count_all : ValueCounts → List WasmType → ValueCounts
unfolding count
count_all counts [] = counts
count_all counts (ty ∷ types) = count_all (count counts ty) types

unfoldable from_iter : List WasmType → ValueCounts
unfolding count_all
from_iter types = count_all (record { c_32 = 0; c_64 = 0; c_128 = 0 }) types
