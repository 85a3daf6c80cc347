-- ===== src/Stack/Room.antt =====
-- The tests before a stack grows, which the lanes of the value stack and the call stack share.
use tinywasm.Prelude.{
  ℕ, ◌≤◌, ◌<◌, ◌≡◌, refl, inl, inr, Bool, true, false, not, none, some, ltb, ◌||◌, Bool-cases,
  Option-cases, ltb→lt, ltb→le,
}
use tinywasm.Host.{Host}

-- Why a stack cannot hold `n` values: its size is fixed, or they exceed its maximum, or the
-- allocator refuses.
pub data Full (host : Host) (max_size : ℕ) (dynamic : Bool) (n : ℕ) : Type 0 where
  is_fixed : dynamic ≡ false → Full host max_size dynamic n
  above_max : max_size < n → Full host max_size dynamic n
  no_memory : (k : ℕ) → host.reserve_slots k ≡ none → Full host max_size dynamic n

-- The answers of the tests, when the reservation would be of `k` slots.
pub data Room (host : Host) (capacity max_size : ℕ) (dynamic : Bool) (n k : ℕ) : Type 0 where
  there : ltb capacity n ≡ false → n ≤ capacity → Room host capacity max_size dynamic n k
  barred :
      ltb capacity n ≡ true
      → (ltb max_size n || not dynamic) ≡ true
      → capacity < n
      → Full host max_size dynamic n
      → Room host capacity max_size dynamic n k
  refused :
      ltb capacity n ≡ true
      → (ltb max_size n || not dynamic) ≡ false
      → host.reserve_slots k ≡ none
      → capacity < n
      → Room host capacity max_size dynamic n k
  made :
      ltb capacity n ≡ true
      → (ltb max_size n || not dynamic) ≡ false
      → (c : ℕ) → host.reserve_slots k ≡ some c
      → capacity < n
      → n ≤ max_size
      → dynamic ≡ true
      → Room host capacity max_size dynamic n k

pub rooms :
    (host : Host) (capacity max_size : ℕ) (dynamic : Bool) (n k : ℕ)
    → Room host capacity max_size dynamic n k
rooms host capacity max_size dynamic n k = elim (Bool-cases (ltb capacity n)) [
  | inr fits ↦ there fits (ltb→le _ _ fits)
  | inl tight ↦ elim (Bool-cases (ltb max_size n)) [
    | inl over ↦ barred tight (rw over refl) (ltb→lt _ _ tight) (above_max (ltb→lt _ _ over))
    | inr below ↦ elim (Bool-cases dynamic) [
      | inr is ↦ barred tight (rw (below, is) refl) (ltb→lt _ _ tight) (is_fixed is)
      | inl grows ↦ elim (Option-cases (host.reserve_slots k)) [
        | inl out ↦ refused tight (rw (below, grows) refl) out (ltb→lt _ _ tight)
        | inr got ↦
            made tight (rw (below, grows) refl) got.0 got.1 (ltb→lt _ _ tight) (ltb→le _ _ below)
              grows
      ]
    ]
  ]
]
