-- ===== src/Stack/CallStack/Frames.antt =====
-- Frames that are pushed and popped.
use tinywasm.Prelude.{
  ℕ, ◌+◌, ◌-◌, ◌%◌, ◌^◌, ◌≤◌, ◌<◌, ◌≡◌, ◌⊎◌, refl, ◌∙◌, inl, inr, ap, min, max, true, none, some,
  List, [], ◌∷◌, ◌++◌, ◌==◌, if◌then◌else◌, length, arith, length-append, take, get_elem?,
}
use native.Mathlib.Nat.{mod-eq_of_lt}
use tinywasm.Prelude.Word.{saturating_mul}
use tinywasm.Host.{Host, ReservesEnough}
use tinywasm.Trap.{Result, ok, err, call_stack_overflow}
use tinywasm.Stack.Room.{Full, no_memory, there, barred, refused, made, rooms}
use tinywasm.Stack.CallStack.{
  CallFrame, CallStack, incr_instr_ptr, ensure_capacity_for, push, pop_frame, len,
}
use tinywasm.Stack.Lane.Moving.{take-append, get_elem?-middle}

abbrev pub Valid : CallStack → Type 0
Valid s = length s.stack ≤ s.capacity

-- A frame is pushed, to resume behind the instruction that called; or the stack is full and as it was.
pub data Outcome (host : Host) (s : CallStack) (frame : CallFrame)
    (out : Result (Unit {0}) × CallStack) : Type 0 where
  pushed :
      out.0 ≡ ok tt
      → out.1.stack ≡ s.stack ++ record frame { instr_ptr = frame.instr_ptr + 1 } ∷ []
      → Valid out.1
      → (out.1.capacity ≡ s.capacity) ⊎ ((s.dynamic ≡ true) × (length s.stack < s.max_size))
      → Outcome host s frame out
  overflows :
      s.capacity ≤ length s.stack
      → Full host s.max_size s.dynamic (length s.stack + 1)
      → out ≡ (err call_stack_overflow, s)
      → Outcome host s frame out

-- A frame is pushed, to resume behind its instruction, on a stack whose frames fit its buffer, and
-- the buffer is enlarged only if the stack is dynamic and below its maximum; or the push fails with
-- `CallStackOverflow` and changes nothing, for one of the reasons in `Full`. The allocator gives at
-- least what it is asked for.
pub push_frame_lem :
    (host : Host) (s : CallStack) (frame : CallFrame)
    → ReservesEnough host
    → Valid s
    → Outcome host s frame (push host s frame)
unfolding push ensure_capacity_for incr_instr_ptr
push_frame_lem host s frame enough v =
    let n : ℕ = length s.stack + 1 in
    let target : ℕ = min (max n (saturating_mul (max s.capacity 1) 2)) s.max_size in
    let size : length (s.stack ++ incr_instr_ptr frame ∷ []) ≡ n =
      length-append s.stack (incr_instr_ptr frame ∷ []) in
    let room = ensure_capacity_for host s n in
    elim (rooms host s.capacity s.max_size s.dynamic n
      (length s.stack + (target - length s.stack))) [
        | there e h ↦
            let is : room ≡ (ok tt, s) = rw e refl in
            rw (push, ap (λ t. t.0) is, ap (λ t. t.1) is)
              (pushed refl refl (omega (arith, size, h)) (inl refl))
        | barred e f lt full ↦
            let is : room ≡ (err call_stack_overflow, s) = rw (e, f) refl in
            rw (push, ap (λ t. t.0) is, ap (λ t. t.1) is) (overflows (omega arith) full refl)
        | refused e f g lt ↦
            let is : room ≡ (err call_stack_overflow, s) = rw (e, f, g) refl in
            rw (push, ap (λ t. t.0) is, ap (λ t. t.1) is)
              (overflows (omega arith) (no_memory _ g) refl)
        | made e f c g lt le dyn ↦
            let got : length s.stack + (target - length s.stack) ≤ c = enough _ c g in
            let is : room ≡ (ok tt, record s { capacity = c }) = rw (e, f, g) refl in
            rw (push, ap (λ t. t.0) is, ap (λ t. t.1) is)
              (pushed refl refl (omega (arith, size, got, le)) (inr (dyn, omega arith)))
      ]

-- `pop_frame` returns the last frame and removes it, unless the number of frames is the base, when
-- it returns nothing; there are fewer than `2 ^ 32` frames.
pub pop_frame_lem :
    (s : CallStack) (frames : List CallFrame) (frame : CallFrame) (base : ℕ)
    → s.stack ≡ frames ++ frame ∷ []
    → length frames + 1 < 2 ^ 32
    → pop_frame s base
      ≡ (if length frames + 1 == base then (none, s) else (some frame, record s { stack = frames }))
unfolding pop_frame len
pop_frame_lem s frames frame base e h =
    let size : length s.stack ≡ length frames + 1 =
      ap length e ∙ length-append frames (frame ∷ []) in
    let small : length s.stack % 2 ^ 32 ≡ length frames + 1 =
      mod-eq_of_lt (omega (arith, size)) ∙ size in
    let below : length s.stack - 1 ≡ length frames = omega (arith, size) in
    let back : take (length s.stack - 1) s.stack ≡ frames =
      rw (below, e) (take-append frames (frame ∷ []) _ refl) in
    let top : get_elem? s.stack (length s.stack - 1) ≡ some frame =
      rw (below, e) (get_elem?-middle frames [] frame _ refl) in
    rw (pop_frame, len, small, top, back) refl
