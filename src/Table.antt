-- ===== src/Table.antt =====
-- crates/tinywasm/src/store/table.rs: the tables of a module; store/element.rs and store/data.rs:
-- the segments of elements and of bytes. A fixed range of the elements is `overwrite` or `slice`.
pub mod Ranges
mod Tests
use tinywasm.Prelude.{
  ℕ, ◌+◌, ◌-◌, ◌^◌, min, Bool, true, false, Option, none, some, List, ltb, leb, if◌then◌else◌,
  length, get_elem?, set, replicate, slice, overwrite, fill_range, move_within, resize,
}
use tinywasm.Prelude.Word.{usize_mod, checked_add}
use tinywasm.Host.{Host}
use tinywasm.MemoryType.{MemoryArch}
use tinywasm.Trap.{Trap, Result, ok, err, ◌>>=◌, ok_or, table_out_of_bounds, out_of_memory, other}
use tinywasm.Stack.Values.{
  WasmType, i_32, i_64, f_32, f_64, v_128, ref_func, ref_extern, WasmValue, func, extern, from_addr,
}

abbrev pub max_table_size : ℕ
max_table_size = 10000000

pub data TableElement : Type 0 where
  uninitialized : TableElement
  initialized : ℕ → TableElement

unfoldable pub addr : TableElement → Option ℕ
addr uninitialized = none
addr (initialized a) = some a

pub record TableType : Type 0 where
  pub arch : MemoryArch
  pub element_type : WasmType
  pub size_initial : ℕ
  pub size_max : Option ℕ

pub record TableInstance : Type 0 where
  pub elements : List TableElement
  pub kind : TableType

unfoldable new_with_init : Host → TableType → TableElement → Result TableInstance
new_with_init host kind init =
    if ltb max_table_size kind.size_initial
    then err out_of_memory
    else (if host.reserves_elements kind.size_initial
        then ok (record { elements = replicate kind.size_initial init; kind = kind })
        else err out_of_memory)

unfoldable pub new : Host → TableType → Result TableInstance
unfolding new_with_init
new host kind = new_with_init host kind uninitialized

unfoldable pub trap_oob : TableInstance → ℕ → ℕ → Trap
trap_oob t a n = table_out_of_bounds a n (length t.elements)

-- The start and the end of the range.
unfoldable pub checked_range : TableInstance → ℕ → ℕ → Result (ℕ × ℕ)
unfolding trap_oob
checked_range t a n = elim (checked_add a n) [
  | none ↦ err (trap_oob t a n)
  | some end ↦ if ltb (length t.elements) end then err (trap_oob t a n) else ok (a, end)
]

unfoldable pub get : TableInstance → ℕ → Result TableElement
unfolding trap_oob
get t a = ok_or (get_elem? t.elements a) (trap_oob t a 1)

unfoldable pub get_wasm_val : TableInstance → ℕ → Result WasmValue
unfolding get addr from_addr
get_wasm_val t a = get t a >>= λ e. elim t.kind.element_type [
  | ref_func ↦ ok (func (from_addr (addr e)))
  | ref_extern ↦ ok (extern (from_addr (addr e)))
  | _ ↦ err (other "non-ref table")
]

-- The change of the elements in a range, if it lies in the table.
unfoldable pub in_range :
    TableInstance → ℕ → ℕ → List TableElement → Result (Unit {0}) × TableInstance
unfolding checked_range
in_range t a n elements = elim (checked_range t a n) [
  | err e ↦ (err e, t)
  | ok range ↦ (ok tt, record t { elements = elements })
]

unfoldable pub copy_from_slice :
    TableInstance → ℕ → List TableElement → Result (Unit {0}) × TableInstance
unfolding in_range
copy_from_slice t dst src = in_range t dst (length src) (overwrite t.elements dst src)

unfoldable pub init : TableInstance → ℕ → List TableElement → Result (Unit {0}) × TableInstance
unfolding in_range
init t offset items = in_range t offset (length items) (overwrite t.elements offset items)

unfoldable set_element : TableInstance → ℕ → TableElement → Result (Unit {0}) × TableInstance
unfolding in_range
set_element t table_idx value = in_range t table_idx 1 (set t.elements table_idx value)

unfoldable load : TableInstance → ℕ → ℕ → Result (List TableElement)
unfolding checked_range
load t a n = checked_range t a n >>= λ range. ok (slice t.elements a n)

unfoldable pub copy_within : TableInstance → ℕ → ℕ → ℕ → Result (Unit {0}) × TableInstance
unfolding checked_range in_range
copy_within t dst src n = elim (checked_range t src n) [
  | err e ↦ (err e, t)
  | ok range ↦ in_range t dst n (move_within t.elements src n dst)
]

-- `none` is the panic on an index of a function that is not there.
unfoldable pub resolve_func_ref : TableInstance → List ℕ → ℕ → Option ℕ
resolve_func_ref t func_addrs a = elim t.kind.element_type [
  | ref_func ↦ get_elem? func_addrs a
  | _ ↦ some a
]

-- The reference is resolved before the range is tested.
unfoldable pub fill :
    TableInstance → List ℕ → ℕ → ℕ → TableElement → Option (Result (Unit {0}) × TableInstance)
unfolding resolve_func_ref in_range
fill t func_addrs a n uninitialized =
    some (in_range t a n (fill_range t.elements a n uninitialized))
fill t func_addrs a n (initialized val) = elim (resolve_func_ref t func_addrs val) [
  | none ↦ none
  | some f ↦ some (in_range t a n (fill_range t.elements a n (initialized f)))
]

-- `declared_max.min(MAX_TABLE_SIZE)`
unfoldable pub size_limit : TableInstance → ℕ
size_limit t = min (elim t.kind.size_max [ none ↦ usize_mod - 1 | some max ↦ max ]) max_table_size

unfoldable pub grow : Host → TableInstance → ℕ → TableElement → Result (Unit {0}) × TableInstance
unfolding size_limit
grow host t n init = elim (checked_add n (length t.elements)) [
  | none ↦ (err out_of_memory, t)
  | some len ↦
      if ltb (size_limit t) len
      then (err (table_out_of_bounds len 1 (length t.elements)), t)
      else (if host.reserves_elements len
          then (ok tt, record t { elements = resize t.elements len init })
          else (err out_of_memory, t))
]

unfoldable pub size : TableInstance → ℕ
size t = length t.elements

-- A segment of elements, until it is dropped.
pub record ElementInstance : Type 0 where
  pub items : Option (List TableElement)

unfoldable pub drop : ElementInstance → ElementInstance
drop e = record { items = none }

unfoldable from_option : Option ℕ → TableElement
from_option none = uninitialized
from_option (some a) = initialized a

-- A segment of bytes, until it is dropped (crates/tinywasm/src/store/data.rs).
pub record DataInstance : Type 0 where
  pub bytes : Option (List ℕ)

unfoldable drop_bytes : DataInstance → DataInstance
drop_bytes d = record { bytes = none }
