-- ===== src/Stack/Values.antt =====
-- crates/types/src/value.rs: values with their types; crates/types/src/reference.rs: references;
-- crates/tinywasm/src/interpreter/values.rs: untyped values. A float is the number of its bits.
use tinywasm.Prelude.{pos, replicate}
use tinywasm.Prelude.{
  ℕ, ◌-◌, ◌^◌, ◌≡◌, refl, Option, none, some, List, ◌==◌, if◌then◌else◌, ℤ, Fits, to_unsigned,
  to_signed, to_signed-to_unsigned_32, to_signed-to_unsigned_64, ap, arith,
}

pub data WasmType : Type 0 where
  i_32 : WasmType
  i_64 : WasmType
  f_32 : WasmType
  f_64 : WasmType
  v_128 : WasmType
  ref_func : WasmType
  ref_extern : WasmType

-- The constructors are `I32` to `RefFunc`, named apart from the types. A reference is its raw number.
pub data WasmValue : Type 0 where
  int_32 : ℤ → WasmValue
  int_64 : ℤ → WasmValue
  float_32 : ℕ → WasmValue
  float_64 : ℕ → WasmValue
  vec_128 : List ℕ → WasmValue
  extern : ℕ → WasmValue
  func : ℕ → WasmValue

abbrev pub null_ref : ℕ
null_ref = 2 ^ 32 - 1

-- `addr` of `ExternRef`, `FuncRef` and `ValueRef`, and `ValueRef::from_addr`
unfoldable pub addr : ℕ → Option ℕ
addr raw = if raw == null_ref then none else some raw

unfoldable pub from_addr : Option ℕ → ℕ
from_addr none = null_ref
from_addr (some a) = a

pub data TinyWasmValue : Type 0 where
  value_32 : ℕ → TinyWasmValue
  value_64 : ℕ → TinyWasmValue
  value_128 : List ℕ → TinyWasmValue
  value_ref : ℕ → TinyWasmValue

-- `WasmType::from(&WasmValue)`
unfoldable pub val_type : WasmValue → WasmType
val_type (int_32 z) = i_32
val_type (int_64 z) = i_64
val_type (float_32 b) = f_32
val_type (float_64 b) = f_64
val_type (vec_128 bs) = v_128
val_type (extern r) = ref_extern
val_type (func r) = ref_func

-- `TinyWasmValue::from(&WasmValue)`
unfoldable pub from_wasm : WasmValue → TinyWasmValue
unfolding addr from_addr
from_wasm (int_32 z) = value_32 (to_unsigned 32 z)
from_wasm (int_64 z) = value_64 (to_unsigned 64 z)
from_wasm (float_32 b) = value_32 b
from_wasm (float_64 b) = value_64 b
from_wasm (vec_128 bs) = value_128 bs
from_wasm (extern r) = value_ref (from_addr (addr r))
from_wasm (func r) = value_ref (from_addr (addr r))

unfoldable pub attach_type : TinyWasmValue → WasmType → Option WasmValue
attach_type (value_32 v) i_32 = some (int_32 (to_signed 32 v))
attach_type (value_32 v) f_32 = some (float_32 v)
attach_type (value_32 v) i_64 = none
attach_type (value_32 v) f_64 = none
attach_type (value_32 v) v_128 = none
attach_type (value_32 v) ref_func = none
attach_type (value_32 v) ref_extern = none
attach_type (value_64 v) i_64 = some (int_64 (to_signed 64 v))
attach_type (value_64 v) f_64 = some (float_64 v)
attach_type (value_64 v) i_32 = none
attach_type (value_64 v) f_32 = none
attach_type (value_64 v) v_128 = none
attach_type (value_64 v) ref_func = none
attach_type (value_64 v) ref_extern = none
attach_type (value_128 v) v_128 = some (vec_128 v)
attach_type (value_128 v) i_32 = none
attach_type (value_128 v) i_64 = none
attach_type (value_128 v) f_32 = none
attach_type (value_128 v) f_64 = none
attach_type (value_128 v) ref_func = none
attach_type (value_128 v) ref_extern = none
attach_type (value_ref v) ref_extern = some (extern v)
attach_type (value_ref v) ref_func = some (func v)
attach_type (value_ref v) i_32 = none
attach_type (value_ref v) i_64 = none
attach_type (value_ref v) f_32 = none
attach_type (value_ref v) f_64 = none
attach_type (value_ref v) v_128 = none

-- `none` for a value of another size
unfoldable pub as_32 : TinyWasmValue → Option ℕ
as_32 (value_32 v) = some v
as_32 (value_64 v) = none
as_32 (value_128 v) = none
as_32 (value_ref v) = none

unfoldable pub as_64 : TinyWasmValue → Option ℕ
as_64 (value_64 v) = some v
as_64 (value_32 v) = none
as_64 (value_128 v) = none
as_64 (value_ref v) = none

unfoldable as_128 : TinyWasmValue → Option (List ℕ)
as_128 (value_128 v) = some v
as_128 (value_32 v) = none
as_128 (value_64 v) = none
as_128 (value_ref v) = none

unfoldable as_ref : TinyWasmValue → Option ℕ
as_ref (value_ref v) = some v
as_ref (value_32 v) = none
as_ref (value_64 v) = none
as_ref (value_128 v) = none

-- The float `0.0` has no bit set.
unfoldable default_for : WasmType → WasmValue
default_for i_32 = int_32 (pos 0)
default_for i_64 = int_64 (pos 0)
default_for f_32 = float_32 0
default_for f_64 = float_64 0
default_for v_128 = vec_128 (replicate 16 0)
default_for ref_func = func null_ref
default_for ref_extern = extern null_ref

-- The integers are in the range of their types.
abbrev pub InRange : WasmValue → Type 0
InRange (int_32 z) = Fits 32 z
InRange (int_64 z) = Fits 64 z
InRange (float_32 b) = Unit {0}
InRange (float_64 b) = Unit {0}
InRange (vec_128 bs) = Unit {0}
InRange (extern r) = Unit {0}
InRange (func r) = Unit {0}

from_addr-addr : (r : ℕ) → from_addr (addr r) ≡ r
unfolding from_addr addr
from_addr-addr r = ground arith

-- A value in the range of its type survives the loss of its type and the return to it.
pub attach_type_lem : (v : WasmValue) → InRange v → attach_type (from_wasm v) (val_type v) ≡ some v
unfolding attach_type from_wasm val_type
attach_type_lem (int_32 z) h = ap (λ t. some (int_32 t)) (to_signed-to_unsigned_32 z h)
attach_type_lem (int_64 z) h = ap (λ t. some (int_64 t)) (to_signed-to_unsigned_64 z h)
attach_type_lem (float_32 b) h = refl
attach_type_lem (float_64 b) h = refl
attach_type_lem (vec_128 bs) h = refl
attach_type_lem (extern r) h = ap (λ (t : ℕ). some (extern t)) (from_addr-addr r)
attach_type_lem (func r) h = ap (λ (t : ℕ). some (func t)) (from_addr-addr r)
