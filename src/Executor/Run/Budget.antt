-- ===== src/Executor/Run/Budget.antt =====
-- crates/tinywasm/src/interpreter/executor.rs: a run on fuel ends, and what it leaves.
use tinywasm.Prelude.{
  ℕ, zero, suc, ◌+◌, ◌*◌, ◌/◌, ◌%◌, ◌≤◌, ◌<◌, ◌≡◌, refl, ◌==◌, Bool, true, false, if◌then◌else◌,
  Option, none, some, get_elem?, Option-cases, inl, inr, arith, subst, sym, ap, ◌∙◌,
}
use native.Mathlib.Nat.{div-add-mod', mod-lt}
use tinywasm.Trap.{ok}
use tinywasm.Stack.CallStack.{CallFrame}
use tinywasm.Executor.State.{
  Context, Executor, Store, ◌>>=◌, ◌>>◌, read, change, return, get_wasm_func,
}
use tinywasm.Executor.Step.{exec}
use tinywasm.Executor.Run.{
  ExecState, completed, suspended, out_of_rounds, new, is_over, batch, spend, run_rounds, refuel,
  run_with_fuel,
}
use tinywasm.Executor.Hoare.{
  Ends, Triple, bind-Triple, seq-Triple, change-Triple, read-Triple, return-Triple,
}
use tinywasm.Executor.Coherent.{Coherent, Behaved, Kept}
use tinywasm.Executor.Preserved.{exec-Triple}

abbrev Given : {A : Type 0} → (A → Type 0) → Option A → Type 0
Given P none = Unit {0}
Given P (some a) = P a

new-Given :
    (ctx : Context) (store : Store) (cf : CallFrame)
    → Behaved ctx
    → Given (Coherent ctx) (new ctx store cf)
unfolding new
new-Given ctx store cf behaved = elim (Option-cases (get_wasm_func ctx cf.func_addr)) [
  | inl g ↦ rw (new, g) tt
  | inr f ↦ elim (Option-cases (get_elem? ctx.modules f.0.owner)) [
    | inl g ↦ rw (new, f.1, g) tt
    | inr m ↦
        let idx : m.0.idx ≡ f.0.owner = behaved.indexed f.0.owner m.0 m.1 in
        rw (new, f.1, m.1)
          (record {
            owner = f.0.owner;
            runs = f.1;
            owned = sym idx;
            listed = subst (λ i. get_elem? ctx.modules i ≡ some m.0) (sym idx) m.1;
          })
  ]
]

-- The executor that `new` makes holds the function and the module of its frame. The store lists
-- its modules under their index.
pub new-Coherent :
    (ctx : Context) (store : Store) (cf : CallFrame) (x : Executor)
    → Behaved ctx
    → new ctx store cf ≡ some x
    → Coherent ctx x
new-Coherent ctx store cf x behaved e =
    subst (Given (Coherent ctx)) e (new-Given ctx store cf behaved)

-- How a run on fuel may end: it is over; or it is suspended at its frame, with its fuel used up.
abbrev pub Finished : Context → ExecState → Executor → Type 0
Finished ctx completed x = Coherent ctx x
Finished ctx (suspended cf) x = Coherent ctx x × (x.store.execution_fuel ≡ 0) × (x.cf ≡ cf)
Finished ctx out_of_rounds x = ⊥

module _ (ctx : Context) (behaved : Behaved ctx) where
  more :
      (n k : ℕ)
      → Triple (Kept ctx n) (batch ctx k) (λ _. Kept ctx n)
      → (over : Option (Unit {0}))
      → Triple (Kept ctx n) (if is_over over then return true else batch ctx k) (λ _. Kept ctx n)
  more n k ih none = ih
  more n k ih (some u) = return-Triple true

  batch-Triple : (n k : ℕ) → Triple (Kept ctx n) (batch ctx k) (λ _. Kept ctx n)
  unfolding batch
  batch-Triple n zero = return-Triple false
  batch-Triple n (suc k) = bind-Triple _ (exec-Triple ctx behaved n) (more n k (batch-Triple n k))

  -- Fuel is left, and no more than the rounds to come use up.
  abbrev Left : ℕ → Executor → Type 0
  Left rounds x = Kept ctx (rounds * 128) x × (0 < x.store.execution_fuel)

  spent : (n : ℕ) → Triple (Kept ctx (n + 128)) (change spend) (λ _. Kept ctx n)
  spent n = change-Triple spend λ x p. (
    record { owner = p.0.owner; runs = p.0.runs; owned = p.0.owned; listed = p.0.listed },
    omega (arith, p.1),
  )

  module _ (rounds : ℕ) (ih : Triple (Left rounds) (run_rounds ctx rounds) (Finished ctx)) where
    settled :
        (x : Executor) (b : Bool)
        → (x.store.execution_fuel == 0) ≡ b
        → Triple
            (λ y. (y ≡ x) × Kept ctx (rounds * 128) y)
            (if b then return (suspended x.cf) else run_rounds ctx rounds)
            (Finished ctx)
    unfolding return
    settled x true e = record {
      holds = λ y p.
          let none_left : x.store.execution_fuel ≡ 0 = ground arith in
          (
            p.1.0,
            ap (λ (z : Executor). z.store.execution_fuel) p.0 ∙ none_left,
            ap (λ (z : Executor). z.cf) p.0,
          );
    }
    settled x false e = record {
      holds = λ y p.
          let some_left : 0 < x.store.execution_fuel = ground arith in
          let same : y.store.execution_fuel ≡ x.store.execution_fuel =
            ap (λ (z : Executor). z.store.execution_fuel) p.0 in
          ih.holds y (p.1, omega (arith, some_left, same));
    }

    round :
        (over : Bool)
        → Triple
            (Kept ctx (suc rounds * 128))
            (if over
              then return completed
              else (change spend
                  >> (read (λ x. x) >>= λ x.
                      if x.store.execution_fuel == 0
                      then return (suspended x.cf)
                      else run_rounds ctx rounds)))
            (Finished ctx)
    unfolding return
    round true = record { holds = λ x p. p.0 }
    round false =
        seq-Triple (λ _. Kept ctx (rounds * 128))
          (record { holds = λ x p. (spent (rounds * 128)).holds x (p.0, omega (arith, p.1)) })
          λ _. bind-Triple _ read-Triple λ x. settled x _ refl

  run_rounds-Triple : (rounds : ℕ) → Triple (Left rounds) (run_rounds ctx rounds) (Finished ctx)
  unfolding run_rounds
  run_rounds-Triple zero = record { holds = λ x p. absurd (omega (arith, p.0.1, p.1)) }
  run_rounds-Triple (suc rounds) =
      bind-Triple _ (record { holds = λ x p. (batch-Triple (suc rounds * 128) 128).holds x p.0 })
        (round rounds (run_rounds-Triple rounds))

  -- The rounds that `run_with_fuel` may need.
  enough : (fuel : ℕ) → fuel ≤ (fuel / 128 + 1) * 128
  enough fuel =
      let rest : fuel % 128 < 128 = mod-lt fuel (omega arith) in
      omega (arith, div-add-mod' fuel 128, rest)

  -- A run with fuel ends within `fuel / 128 + 1` rounds of 128 instructions, whatever the program:
  -- it panics or traps, or it is over, or it is suspended at the frame it has reached and its fuel
  -- is used up; and when it does not panic or trap, the executor is coherent as it was before. The
  -- store lists its modules under their index, and host functions add no fuel.
  pub run_with_fuel_lem :
      (fuel : ℕ) (x : Executor) → Coherent ctx x → Ends (Finished ctx) (run_with_fuel ctx fuel x)
  unfolding run_with_fuel return
  run_with_fuel_lem fuel x c = run.holds x c
    where
      started :
          (y : Executor) (b : Bool)
          → (fuel == 0) ≡ b
          → Triple
              (λ z. (z ≡ y) × (Coherent ctx z × (z.store.execution_fuel ≡ fuel)))
              (if b then return (suspended y.cf) else run_rounds ctx (fuel / 128 + 1))
              (Finished ctx)
      started y true e = record {
        holds = λ z p.
            let none_left : fuel ≡ 0 = ground arith in
            (p.1.0, p.1.1 ∙ none_left, ap (λ (w : Executor). w.cf) p.0);
      }
      started y false e = record {
        holds = λ z p.
            let some_left : 0 < fuel = ground arith in
            (run_rounds-Triple (fuel / 128 + 1)).holds z
              ((p.1.0, omega (arith, p.1.1, enough fuel)), omega (arith, p.1.1, some_left));
      }

      run : Triple (Coherent ctx) (run_with_fuel ctx fuel) (Finished ctx)
      run =
          seq-Triple (λ _ z. Coherent ctx z × (z.store.execution_fuel ≡ fuel))
            (change-Triple (refuel fuel) λ z p.
              (record { owner = p.owner; runs = p.runs; owned = p.owned; listed = p.listed }, refl))
            λ _. bind-Triple _ read-Triple λ y. started y _ refl

-- The executors that a run goes through.
pub data Reaches (ctx : Context) (x : Executor) : Executor → Type 0 where
  start : Reaches ctx x x
  after : {y z : Executor} → Reaches ctx x y → exec ctx y ≡ some (ok none, z) → Reaches ctx x z

-- The function and the module of a coherent executor are those that `new` finds for its frame.
new-same : (ctx : Context) (x : Executor) → Coherent ctx x → new ctx x.store x.cf ≡ some x
unfolding new
new-same ctx x c =
    let there : get_elem? ctx.modules c.owner ≡ some x.module_instance = rw c.owned c.listed in
    rw (new, c.runs, there) refl

-- A run that is suspended can be resumed: the executor that `new` makes from the store that the run
-- has left and the frame that it returns is the one that stopped, with its function and its module,
-- however many calls and returns there were since `new` made the executor that was started. The
-- store lists its modules under their index, and host functions add no fuel.
pub new-run_with_fuel :
    (ctx : Context) (store : Store) (cf cf' : CallFrame) (fuel : ℕ) (x y : Executor)
    → Behaved ctx
    → new ctx store cf ≡ some x
    → run_with_fuel ctx fuel x ≡ some (ok (suspended cf'), y)
    → new ctx y.store cf' ≡ some y
new-run_with_fuel ctx store cf cf' fuel x y behaved made stopped =
    let end : Finished ctx (suspended cf') y =
      subst (Ends (Finished ctx)) stopped
        (run_with_fuel_lem ctx behaved fuel x (new-Coherent ctx store cf x behaved made)) in
    subst (λ f. new ctx y.store f ≡ some y) end.2 (new-same ctx y end.0)
