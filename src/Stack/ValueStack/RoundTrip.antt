-- ===== src/Stack/ValueStack/RoundTrip.antt =====
-- Arguments that are pushed come back when they are popped in reverse, as calls of and from the host
-- do with them.
use tinywasm.Prelude.{
  arith, ℕ, ◌+◌, ◌-◌, ◌≡◌, refl, sym, ap, ◌∙◌, inl, inr, Option, none, some, List, [], ◌∷◌, ◌++◌,
  min, max, length, map, to_unsigned, Bool-cases, Option-cases, ◌⊎◌, to_signed-to_unsigned_32,
  to_signed-to_unsigned_64,
}
use tinywasm.Prelude.Word.{saturating_mul}
use tinywasm.Host.{Host}
use tinywasm.Trap.{Trap, Result, ok, err}
use tinywasm.Stack.Room.{there, barred, refused, made, rooms}
use tinywasm.Stack.Lane
use tinywasm.Stack.Lane.{Stack, ensure_capacity_for}
use tinywasm.Stack.Lane.Moving.{pop_lem}
use tinywasm.Stack.Values.{
  WasmType, WasmValue, int_32, int_64, float_32, float_64, vec_128, extern, func, val_type, InRange,
}
use tinywasm.Stack.ValueStack.{
  ValueStack, push_32, push_64, push_128, pop_32, pop_64, pop_128, typed, pop_wasmvalue, pop_types,
  push_wasmvalue, extend_from_wasmvalues,
}

abbrev pub reverse : {A : Type 0} → List A → List A
reverse [] = []
reverse (x ∷ xs) = reverse xs ++ x ∷ []

-- Value stacks with the same values, whatever the capacities of their lanes.
pub record Same (s t : ValueStack) : Type 0 where
  pub lane_32 : s.stack_32.slots ≡ t.stack_32.slots
  pub lane_64 : s.stack_64.slots ≡ t.stack_64.slots
  pub lane_128 : s.stack_128.slots ≡ t.stack_128.slots

-- A lane that takes a value has it on top.
module _ {T : Type 0} (host : Host) (s : Stack T) where
  kept : (n : ℕ) → (ensure_capacity_for host s n).1.slots ≡ s.slots
  unfolding ensure_capacity_for
  kept n =
      let target : ℕ = min (max n (saturating_mul (max s.capacity 1) 2)) s.max_size in
      elim (rooms host s.capacity s.max_size s.dynamic n (length s.slots + (target - s.capacity))) [
        | there e h ↦ rw e refl
        | barred e f lt full ↦ rw (e, f) refl
        | refused e f g lt ↦ rw (e, f, g) refl
        | made e f c g lt le dyn ↦ rw (e, f, g) refl
      ]

  pushed :
      (x : T) → (Lane.push host s x).0 ≡ ok tt → (Lane.push host s x).1.slots ≡ s.slots ++ x ∷ []
  unfolding tinywasm.Stack.Lane.push
  pushed x e = elim (Bool-cases (ensure_capacity_for host s (length s.slots + 1)).0) [
    | inl room ↦ rw room (ap (λ t. t ++ x ∷ []) (kept (length s.slots + 1)))
    | inr full ↦ let bad = rw full at e in absurd (ground arith)
  ]

-- A value that was pushed on a lane of `s` comes off it again.
abbrev pub Back : {A : Type 0} → ValueStack → A → Option (A × ValueStack) → Type 0
Back s x out = (u : ValueStack) × ((out ≡ some (x, u)) × Same u s)

module _ (host : Host) (s t : ValueStack) where
  push_32-Back :
      (x : ℕ) → (push_32 host s x).0 ≡ ok tt → Same t (push_32 host s x).1 → Back s x (pop_32 t)
  unfolding push_32 pop_32
  push_32-Back x e same = (
    record t { stack_32 = record t.stack_32 { slots = s.stack_32.slots } },
    (
      rw (pop_32, pop_lem t.stack_32 s.stack_32.slots x (same.lane_32 ∙ pushed host s.stack_32 x e))
          refl,
      record { lane_32 = refl; lane_64 = same.lane_64; lane_128 = same.lane_128 },
    ),
  )

  push_64-Back :
      (x : ℕ) → (push_64 host s x).0 ≡ ok tt → Same t (push_64 host s x).1 → Back s x (pop_64 t)
  unfolding push_64 pop_64
  push_64-Back x e same = (
    record t { stack_64 = record t.stack_64 { slots = s.stack_64.slots } },
    (
      rw (pop_64, pop_lem t.stack_64 s.stack_64.slots x (same.lane_64 ∙ pushed host s.stack_64 x e))
          refl,
      record { lane_32 = same.lane_32; lane_64 = refl; lane_128 = same.lane_128 },
    ),
  )

  push_128-Back :
      (x : List ℕ)
      → (push_128 host s x).0 ≡ ok tt
      → Same t (push_128 host s x).1
      → Back s x (pop_128 t)
  unfolding push_128 pop_128
  push_128-Back x e same = (
    record t { stack_128 = record t.stack_128 { slots = s.stack_128.slots } },
    (
      rw
          (
            pop_128,
            pop_lem t.stack_128 s.stack_128.slots x (same.lane_128 ∙ pushed host s.stack_128 x e),
          )
          refl,
      record { lane_32 = same.lane_32; lane_64 = same.lane_64; lane_128 = refl },
    ),
  )

-- The constructor of a type, put on what came off.
typed-Back :
    {A : Type 0} (s : ValueStack) (f : A → WasmValue) (x : A) (v : WasmValue)
    (out : Option (A × ValueStack))
    → f x ≡ v
    → Back s x out
    → Back s v (typed f out)
unfolding typed
typed-Back s f x v out e b = (b.0, (ap (typed f) b.1.0 ∙ ap (λ t. some (t, b.0)) e, b.1.1))

push_wasmvalue-Back :
    (host : Host) (s t : ValueStack) (v : WasmValue)
    → InRange v
    → (push_wasmvalue host s v).0 ≡ ok tt
    → Same t (push_wasmvalue host s v).1
    → Back s v (pop_wasmvalue t (val_type v))
unfolding push_wasmvalue pop_wasmvalue val_type
push_wasmvalue-Back host s t (int_32 z) h e same =
    typed-Back s _ (to_unsigned 32 z) (int_32 z) (pop_32 t)
      (ap int_32 (to_signed-to_unsigned_32 z h)) (push_32-Back host s t _ e same)
push_wasmvalue-Back host s t (int_64 z) h e same =
    typed-Back s _ (to_unsigned 64 z) (int_64 z) (pop_64 t)
      (ap int_64 (to_signed-to_unsigned_64 z h)) (push_64-Back host s t _ e same)
push_wasmvalue-Back host s t (float_32 b) h e same =
    typed-Back s float_32 b _ (pop_32 t) refl (push_32-Back host s t b e same)
push_wasmvalue-Back host s t (float_64 b) h e same =
    typed-Back s float_64 b _ (pop_64 t) refl (push_64-Back host s t b e same)
push_wasmvalue-Back host s t (vec_128 b) h e same =
    typed-Back s vec_128 b _ (pop_128 t) refl (push_128-Back host s t b e same)
push_wasmvalue-Back host s t (extern r) h e same =
    typed-Back s extern r _ (pop_32 t) refl (push_32-Back host s t r e same)
push_wasmvalue-Back host s t (func r) h e same =
    typed-Back s func r _ (pop_32 t) refl (push_32-Back host s t r e same)

-- One more type to pop at the end.
abbrev then_pop :
    WasmType → Option (List WasmValue × ValueStack) → Option (List WasmValue × ValueStack)
then_pop ty none = none
then_pop ty (some q) = elim (pop_wasmvalue q.1 ty) [
  | none ↦ none
  | some p ↦ some (q.0 ++ p.0 ∷ [], p.1)
]

then_pop-some :
    (ty : WasmType) (q : List WasmValue × ValueStack) (p : WasmValue × ValueStack)
    → pop_wasmvalue q.1 ty ≡ some p
    → then_pop ty (some q) ≡ some (q.0 ++ p.0 ∷ [], p.1)
then_pop-some ty q p e = rw (then_pop, e) refl

abbrev before :
    WasmValue → Option (List WasmValue × ValueStack) → Option (List WasmValue × ValueStack)
before x none = none
before x (some q) = some (x ∷ q.0, q.1)

before-then_pop :
    (x : WasmValue) (ty : WasmType) (o : Option (List WasmValue × ValueStack))
    → before x (then_pop ty o) ≡ then_pop ty (before x o)
before-then_pop x ty none = refl
before-then_pop x ty (some q) = elim (Option-cases (pop_wasmvalue q.1 ty)) [
  | inl e ↦ rw (before, then_pop, e) refl
  | inr got ↦ rw (before, then_pop, got.1) refl
]

pop_types-cons :
    (t : ValueStack) (ty : WasmType) (types : List WasmType) (p : WasmValue × ValueStack)
    → pop_wasmvalue t ty ≡ some p
    → pop_types t (ty ∷ types) ≡ before p.0 (pop_types p.1 types)
unfolding pop_types
pop_types-cons t ty types p e =
    rw (pop_types, e)
      (elim (Option-cases (pop_types p.1 types)) [ inl f ↦ rw f refl | inr got ↦ rw got.1 refl ])

pop_types-append :
    (t : ValueStack) (types : List WasmType) (ty : WasmType)
    → pop_types t (types ++ ty ∷ []) ≡ then_pop ty (pop_types t types)
unfolding pop_types
pop_types-append t [] ty = refl
pop_types-append t (type ∷ types) ty = elim (Option-cases (pop_wasmvalue t type)) [
  | inl e ↦ rw (pop_types, e) refl
  | inr got ↦
      pop_types-cons t type (types ++ ty ∷ []) got.0 got.1
      ∙ ap (before got.0.0) (pop_types-append got.0.1 types ty)
      ∙ before-then_pop got.0.0 ty (pop_types got.0.1 types)
      ∙ ap (then_pop ty) (sym (pop_types-cons t type types got.0 got.1))
]

Result-cases : (r : Result (Unit {0})) → (r ≡ ok tt) ⊎ ((x : Trap) × (r ≡ err x))
Result-cases (ok u) = inl refl
Result-cases (err x) = inr (x, refl)

abbrev pub AllInRange : List WasmValue → Type 0
AllInRange [] = Unit {0}
AllInRange (v ∷ vs) = InRange v × AllInRange vs

-- Values in the range of their types, pushed one after the other without an overflow, are popped by
-- their types in reverse order, from a stack with the same values, and leave what was below.
pub pop_types-extend :
    (host : Host) (s t : ValueStack) (values : List WasmValue)
    → AllInRange values
    → (extend_from_wasmvalues host s values).0 ≡ ok tt
    → Same t (extend_from_wasmvalues host s values).1
    → Back s (reverse values) (pop_types t (reverse (map val_type values)))
unfolding extend_from_wasmvalues pop_types
pop_types-extend host s t [] h e same = (t, (refl, same))
pop_types-extend host s t (v ∷ vs) h e same = elim (Result-cases (push_wasmvalue host s v).0) [
  | inr failed ↦ let bad = rw (extend_from_wasmvalues, failed.1) at e in absurd (ground arith)
  | inl done ↦
      let s' : ValueStack = (push_wasmvalue host s v).1 in
      let rest : Back s' (reverse vs) (pop_types t (reverse (map val_type vs))) =
        pop_types-extend host s' t vs h.1 (rw (extend_from_wasmvalues, done) at e)
          (rw (extend_from_wasmvalues, done) at same) in
      let one : Back s v (pop_wasmvalue rest.0 (val_type v)) =
        push_wasmvalue-Back host s rest.0 v h.0 done rest.1.1 in
      (
        one.0,
        (
          pop_types-append t (reverse (map val_type vs)) (val_type v)
              ∙ ap (then_pop (val_type v)) rest.1.0
              ∙ then_pop-some (val_type v) (reverse vs, rest.0) (v, one.0) one.1.0,
          one.1.1,
        ),
      )
]
