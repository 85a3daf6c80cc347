-- ===== src/Table/Tests.antt =====
-- Runs of the tables, and instances of the theorems on them.
use tinywasm.Prelude.{◌≡◌, refl, some, [], ◌∷◌, arith}
use tinywasm.Host.{generous}
use tinywasm.MemoryType.{i_32}
use tinywasm.Trap.{ok, err, table_out_of_bounds}
use tinywasm.Stack.Values.{ref_func, func, null_ref, from_addr}
use tinywasm.Table.{
  uninitialized, initialized, TableInstance, trap_oob, addr, get, get_wasm_val, checked_range,
  in_range, fill, resolve_func_ref, copy_within, init, size_limit, grow,
}
use tinywasm.Table.Ranges.{Growth, Valid, init_lem, copy_elements_lem, grow_table_lem}

abbrev table : TableInstance
table = record {
  elements = initialized 4 ∷ uninitialized ∷ initialized 6 ∷ [];
  kind = record { arch = i_32; element_type = ref_func; size_initial = 3; size_max = some 4 };
}

table-Valid : Valid table
unfolding size_limit
table-Valid = omega arith

get_wasm_val-table :
    (get_wasm_val table 0 ≡ ok (func 4))
    × ((get_wasm_val table 1 ≡ ok (func null_ref))
        × (get_wasm_val table 3 ≡ err (table_out_of_bounds 3 1 3)))
unfolding get_wasm_val get addr from_addr trap_oob
get_wasm_val-table = (refl, (refl, refl))

-- The second function of the module is the store's function 9.
fill-table :
    fill table (8 ∷ 9 ∷ []) 1 2 (initialized 1)
    ≡ some (ok tt, record table { elements = initialized 4 ∷ initialized 9 ∷ initialized 9 ∷ [] })
unfolding fill resolve_func_ref in_range checked_range
fill-table = refl

init_lem_example :
    init table 2 (initialized 1 ∷ initialized 2 ∷ []) ≡ (err (table_out_of_bounds 2 2 3), table)
init_lem_example = init_lem table 2 (initialized 1 ∷ initialized 2 ∷ []) table-Valid

copy_elements_lem_example :
    copy_within table 1 0 2
    ≡ (ok tt, record table { elements = initialized 4 ∷ initialized 4 ∷ uninitialized ∷ [] })
copy_elements_lem_example = copy_elements_lem table 1 0 2 table-Valid

grow_table_lem_example :
    Growth generous table 1 (initialized 7) (grow generous table 1 (initialized 7))
grow_table_lem_example = grow_table_lem generous table 1 (initialized 7) table-Valid (omega arith)
