-- ===== src/Stack/Lane/Pushing.antt =====
-- Room for values: what `push` and `enter_locals` do to one lane of the value stack.
use tinywasm.Prelude.{
  ℕ, ◌+◌, ◌-◌, ◌%◌, ◌^◌, ◌≤◌, ◌<◌, ◌≡◌, ◌⊎◌, refl, ap, inl, inr, min, max, true, List, [], ◌∷◌,
  ◌++◌, length, replicate, resize, arith, length-append, length-resize, take_all,
}
use native.Mathlib.Nat.{mod-eq_of_lt}
use tinywasm.Prelude.Word.{saturating_mul}
use tinywasm.Host.{Host, ReservesEnough}
use tinywasm.Trap.{Result, ok, err, value_stack_overflow}
use tinywasm.Stack.Room.{Full, no_memory, there, barred, refused, made, rooms}
use tinywasm.Stack.Lane.{Stack, ensure_capacity_for, push, reserve_locals, enter_locals}

module _ {T : Type 0} where
  -- The values fit the buffer.
  abbrev pub Valid : Stack T → Type 0
  Valid s = length s.slots ≤ s.capacity

  -- What becomes of a lane that needs room for `n` values and gets `xs` as its values: it has them,
  -- in a buffer that only a dynamic stack has enlarged; or it is full, and left as it was.
  pub data Outcome {R : Type 0} (host : Host) (s : Stack T) (n : ℕ) (xs : List T) (r : R)
      (out : Result R × Stack T) : Type 0 where
    fits :
        out.0 ≡ ok r
        → out.1.slots ≡ xs
        → Valid out.1
        → (out.1.capacity ≡ s.capacity) ⊎ ((s.dynamic ≡ true) × (n ≤ s.max_size))
        → Outcome host s n xs r out
    overflows :
        s.capacity < n
        → Full host s.max_size s.dynamic n
        → out ≡ (err value_stack_overflow, s)
        → Outcome host s n xs r out

  module _ (host : Host) (enough : ReservesEnough host) (s : Stack T) (v : Valid s) where
    -- `push` puts the value on a lane whose values fit its buffer, and enlarges the buffer only of
    -- a dynamic lane below its maximum; or it fails with `ValueStackOverflow` and changes nothing,
    -- and then the buffer is full and the lane fixed, at its maximum, or refused memory. The
    -- allocator gives at least what it is asked for.
    pub push_lem :
        (x : T) → Outcome host s (length s.slots + 1) (s.slots ++ x ∷ []) tt (push host s x)
    unfolding push ensure_capacity_for
    push_lem x =
        let n : ℕ = length s.slots + 1 in
        let target : ℕ = min (max n (saturating_mul (max s.capacity 1) 2)) s.max_size in
        let size : length (s.slots ++ x ∷ []) ≡ n = length-append s.slots (x ∷ []) in
        elim (rooms host s.capacity s.max_size s.dynamic n
          (length s.slots + (target - s.capacity))) [
            | there e h ↦ rw e (fits refl refl (omega (arith, size, h)) (inl refl))
            | barred e f lt full ↦ rw (e, f) (overflows lt full refl)
            | refused e f g lt ↦ rw (e, f, g) (overflows lt (no_memory _ g) refl)
            | made e f c g lt le dyn ↦
                let got : length s.slots + (target - s.capacity) ≤ c = enough _ c g in
                rw (e, f, g) (fits refl refl (omega (arith, size, got, v)) (inr (dyn, le)))
          ]

    -- `enter_locals` takes the parameters on top as the first locals, adds the others with their
    -- default, and returns where they start; or it fails with `ValueStackOverflow` and changes
    -- nothing, for the reasons that `push` has. There are as many values as parameters, as many
    -- locals, and fewer than `2 ^ 32` values.
    pub enter_locals_lem :
        (default : T) (param_count local_count : ℕ)
        → param_count ≤ length s.slots
        → param_count ≤ local_count
        → length s.slots < 2 ^ 32
        → Outcome host s
            (length s.slots - param_count + local_count)
            (s.slots ++ replicate (local_count - param_count) default)
            (length s.slots - param_count)
            (enter_locals host default s param_count local_count)
    unfolding enter_locals reserve_locals
    enter_locals_lem default param_count local_count h k w =
        let start : ℕ = length s.slots - param_count in
        let n : ℕ = start + local_count in
        let target : ℕ = min (max n (saturating_mul (max s.capacity 1) 2)) s.max_size in
        let base : start % 2 ^ 32 ≡ start = mod-eq_of_lt (omega arith) in
        let locals : resize s.slots n default
            ≡ s.slots ++ replicate (local_count - param_count) default =
          rw (take_all s.slots n (omega arith)) (
            ap (λ (t : ℕ). s.slots ++ replicate t default) {x = n - length s.slots}
              {y = local_count - param_count} (omega arith)) in
        let size : length (resize s.slots n default) ≡ n =
          length-resize s.slots n default (omega arith) in
        elim (rooms host s.capacity s.max_size s.dynamic n
          (length s.slots + (target - length s.slots))) [
            | there e g ↦
                rw (enter_locals, reserve_locals, e)
                  (fits (ap ok base) locals (omega (arith, size, g)) (inl refl))
            | barred e f lt full ↦ rw (enter_locals, reserve_locals, e, f) (overflows lt full refl)
            | refused e f g lt ↦
                rw (enter_locals, reserve_locals, e, f, g) (overflows lt (no_memory _ g) refl)
            | made e f c g lt le dyn ↦
                let got : length s.slots + (target - length s.slots) ≤ c = enough _ c g in
                rw (enter_locals, reserve_locals, e, f, g)
                  (fits (ap ok base) locals (omega (arith, size, got, le)) (inr (dyn, le)))
          ]
