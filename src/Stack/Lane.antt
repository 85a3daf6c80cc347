-- ===== src/Stack/Lane.antt =====
-- crates/tinywasm/src/interpreter/stack/value_stack.rs: `Stack`, one lane of the value stack. The
-- bottom is the first element of `slots`, the source's `data`. `none` is a panic: an index out of range, or an underflow.
pub mod Pushing
pub mod Moving
use tinywasm.Prelude.{
  ℕ, ◌+◌, ◌-◌, ◌*◌, ◌%◌, ◌^◌, min, max, Bool, true, false, not, Option, none, some, List, [], ◌∷◌,
  ◌++◌, ltb, leb, ◌==◌, ◌||◌, if◌then◌else◌, length, take, get_elem?, set, move_within, resize,
}
use tinywasm.Prelude.Word.{saturating_mul, checked_mul}
use tinywasm.Host.{Host}
use tinywasm.Trap.{Result, ok, err, value_stack_overflow}
use tinywasm.Config.{StackConfig}

pub record Stack (T : Type 0) : Type 0 where
  pub slots : List T
  -- `data.capacity()`
  pub capacity : ℕ
  pub max_size : ℕ
  pub dynamic : Bool

module _ {T : Type 0} where
  -- `none` is the abort of an allocation that fails.
  unfoldable pub new : Host → StackConfig → Option (Stack T)
  new host config = elim (host.reserve_slots config.initial_size) [
    | none ↦ none
    | some capacity ↦ some (record {
      slots = [];
      capacity = capacity;
      max_size = config.max_size;
      dynamic = config.dynamic;
    })
  ]

  unfoldable pub clear : Stack T → Stack T
  clear s = record s { slots = [] }

  unfoldable pub len : Stack T → ℕ
  len s = length s.slots

  unfoldable pub ensure_capacity_for : Host → Stack T → ℕ → Bool × Stack T
  ensure_capacity_for host s required_len =
      let doubled : ℕ = saturating_mul (max s.capacity 1) 2 in
      let target : ℕ = min (max required_len doubled) s.max_size in
      let additional : ℕ = target - s.capacity in
      if ltb s.capacity required_len
      then (if ltb s.max_size required_len || not s.dynamic
          then (false, s)
          else elim (host.reserve_slots (length s.slots + additional)) [
            | none ↦ (false, s)
            | some capacity ↦ (true, record s { capacity = capacity })
          ])
      else (true, s)

  unfoldable pub push : Host → Stack T → T → Result (Unit {0}) × Stack T
  unfolding ensure_capacity_for
  push host s value =
      let (room, s') = ensure_capacity_for host s (length s.slots + 1) in
      if room
      then (ok tt, record s' { slots = s'.slots ++ value ∷ [] })
      else (err value_stack_overflow, s')

  unfoldable pub last : Stack T → Option T
  last s = get_elem? s.slots (length s.slots - 1)

  unfoldable pub pop : Stack T → Option (T × Stack T)
  unfolding last
  pop s = elim (last s) [
    | none ↦ none
    | some value ↦ some (value, record s { slots = take (length s.slots - 1) s.slots })
  ]

  unfoldable pub get : Stack T → ℕ → Option T
  get s index = get_elem? s.slots index

  unfoldable pub set_at : Stack T → ℕ → T → Option (Stack T)
  set_at s index value =
      if ltb index (length s.slots)
      then some (record s { slots = set s.slots index value })
      else none

  unfoldable pub copy : Stack T → ℕ → ℕ → Option (Stack T)
  unfolding set_at
  copy s from to = elim (get_elem? s.slots from) [ none ↦ none | some value ↦ set_at s to value ]

  unfoldable pub truncate_keep : Stack T → ℕ → ℕ → Stack T
  truncate_keep s n end_keep =
      let keep : ℕ = min (length s.slots - n) end_keep in
      if leb (length s.slots) n
      then s
      else record s { slots = take (n + keep) (move_within s.slots (length s.slots - keep) keep n) }

  unfoldable pub truncate_to : Stack T → ℕ → Stack T
  truncate_to s n = record s { slots = take n s.slots }

  unfoldable pub truncate_to_one_tail : Stack T → ℕ → Option (Stack T)
  unfolding pop
  truncate_to_one_tail s n = elim (pop s) [
    | none ↦ none
    | some popped ↦ some (record s { slots = take n popped.1.slots ++ popped.0 ∷ [] })
  ]

  -- The room for the locals, when they exceed the capacity.
  unfoldable pub reserve_locals : Host → Stack T → ℕ → Result (Stack T)
  reserve_locals host s end =
      let target : ℕ = min (max end (saturating_mul (max s.capacity 1) 2)) s.max_size in
      if ltb s.capacity end
      then (if ltb s.max_size end || not s.dynamic
          then err value_stack_overflow
          else elim (host.reserve_slots (length s.slots + (target - length s.slots))) [
            | none ↦ err value_stack_overflow
            | some capacity ↦ ok (record s { capacity = capacity })
          ])
      else ok s

  -- `len - param_count` wraps in a release build, which the assertion before it excludes.
  unfoldable pub enter_locals : Host → T → Stack T → ℕ → ℕ → Result ℕ × Stack T
  unfolding reserve_locals
  enter_locals host default s param_count local_count =
      let start : ℕ = length s.slots - param_count in
      let end : ℕ = start + local_count in
      elim (reserve_locals host s end) [
        | err e ↦ (err e, s)
        | ok s' ↦ (ok (start % 2 ^ 32), record s' { slots = resize s'.slots end default })
      ]

  unfoldable pub select_many : Stack T → ℕ → Bool → Option (Stack T)
  select_many s count condition = if count == 0 then some s else elim (checked_mul count 2) [
    | none ↦ none
    | some needed ↦
        let n : ℕ = length s.slots in
        let moved : List T =
          if condition then s.slots else move_within s.slots (n - count) count (n - needed) in
        if ltb n needed then none else some (record s { slots = take (n - count) moved })
  ]
