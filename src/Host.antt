-- ===== src/Host.antt =====
-- Rust's allocator, which is not part of the repository: which reservations succeed. A theorem
-- holds for every host, or names the answers that it needs.
use tinywasm.Prelude.{ℕ, ◌≤◌, ◌≡◌, Bool, true, leb, ◌&&◌, Option, some}
use tinywasm.Prelude.Word.{isize_max}

pub record Host : Type 0 where
  -- a byte buffer of that length (the vector memory, or one chunk of the paged memory)
  pub reserves_bytes : ℕ → Bool
  -- a chunk table with room for that many chunks
  pub reserves_chunks : ℕ → Bool
  -- the capacity of a stack's buffer after a reservation of that many slots in all
  pub reserve_slots : ℕ → Option ℕ
  -- a table with room for that many elements
  pub reserves_elements : ℕ → Bool

-- `Vec<u8>::try_reserve_exact` up to a total of `n` bytes; `Vec` refuses what exceeds `isize::MAX`.
unfoldable pub try_reserve_bytes : Host → ℕ → Bool
try_reserve_bytes host n = leb n isize_max && host.reserves_bytes n

-- What `Vec` documents of `with_capacity`, `try_reserve` and `try_reserve_exact`: the capacity is
-- at least what was asked for.
abbrev pub ReservesEnough : Host → Type 0
ReservesEnough host = (n capacity : ℕ) → host.reserve_slots n ≡ some capacity → n ≤ capacity

-- An allocator that always has room, and gives just what it is asked for.
abbrev pub generous : Host
generous = record {
  reserves_bytes = λ n. true;
  reserves_chunks = λ n. true;
  reserve_slots = λ n. some n;
  reserves_elements = λ n. true;
}
