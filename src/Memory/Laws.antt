-- ===== src/Memory/Laws.antt =====
-- What a linear memory promises, against the flat list of its bytes: the contract of the trait
-- `LinearMemory` that the callers in memory/instance.rs rely on.
use tinywasm.Prelude.{
  ℕ, ◌+◌, ◌≤◌, ◌<◌, ◌≡◌, Bool, true, false, none, some, List, leb, if◌then◌else◌, length, take,
  slice, overwrite, fill_range, move_within, resize,
}
use tinywasm.Prelude.Word.{isize_max}
use tinywasm.Trap.{Result, ok, err, out_of_memory}
use tinywasm.Memory.Interface.{LinearMemory, memory_oob}

-- `[a, a + n)` lies in the flat memory.
abbrev pub within : List ℕ → ℕ → ℕ → Bool
within bs a n = leb (a + n) (length bs)

-- What one short read returns: some bytes of the memory, and no more than asked for.
pub record ReadsSome (bs : List ℕ) (a : ℕ) (dst : List ℕ) (out : ℕ × List ℕ) : Type 0 where
  pub some_read : 0 < out.0
  pub in_buffer : out.0 ≤ length dst
  pub in_memory : a + out.0 ≤ length bs
  pub bytes : out.1 ≡ overwrite dst 0 (slice bs a out.0)

pub record WritesSome {M : Type 0} (Models : M → List ℕ → Type 0) (bs : List ℕ) (a : ℕ)
    (src : List ℕ) (out : ℕ × M) : Type 0 where
  pub some_written : 0 < out.0
  pub in_source : out.0 ≤ length src
  pub in_memory : a + out.0 ≤ length bs
  pub after : Models out.1 (overwrite bs a (take out.0 src))

-- The outcome of an operation that changes the range it is given, or nothing if that is out of range.
pub record Updates {M : Type 0} (Models : M → List ℕ → Type 0) (bs : List ℕ) (inside : Bool)
    (bs' : List ℕ) (out : Bool × M) : Type 0 where
  pub done : out.0 ≡ inside
  pub after : Models out.1 (if inside then bs' else bs)

-- Growth adds zeroes, or fails for want of memory and leaves the bytes.
pub data Grows {M : Type 0} (Models : M → List ℕ → Type 0) (bs : List ℕ) (n : ℕ)
    (out : Result (Unit {0}) × M) : Type 0 where
  grown : out.0 ≡ ok tt → Models out.1 (resize bs n 0) → Grows Models bs n out
  refused : out.0 ≡ err out_of_memory → Models out.1 bs → Grows Models bs n out

pub record Laws {M : Type 0} (ops : LinearMemory M) (Models : M → List ℕ → Type 0) : Type 0 where
  pub models_len : (m : M) (bs : List ℕ) → Models m bs → ops.len m ≡ length bs
  pub bounded : (m : M) (bs : List ℕ) → Models m bs → length bs ≤ isize_max
  pub reads :
      (m : M) (bs : List ℕ) (a : ℕ) (dst : List ℕ)
      → Models m bs
      → a < length bs
      → 0 < length dst
      → ReadsSome bs a dst (ops.read m a dst)
  pub writes :
      (m : M) (bs : List ℕ) (a : ℕ) (src : List ℕ)
      → Models m bs
      → a < length bs
      → 0 < length src
      → WritesSome Models bs a src (ops.write m a src)
  pub grows :
      (m : M) (bs : List ℕ) (n : ℕ)
      → Models m bs
      → length bs ≤ n
      → n ≤ isize_max
      → Grows Models bs n (ops.grow_to m n)
  pub reads_exact :
      (m : M) (bs : List ℕ) (a : ℕ) (dst : List ℕ)
      → Models m bs
      → ops.read_exact m a dst
        ≡ (if within bs a (length dst) then (true, slice bs a (length dst)) else (false, dst))
  pub reads_vec :
      (m : M) (bs : List ℕ) (a n : ℕ)
      → Models m bs
      → ops.read_vec m a n ≡ (if within bs a n then some (slice bs a n) else none)
  pub writes_all :
      (m : M) (bs : List ℕ) (a : ℕ) (src : List ℕ)
      → Models m bs
      → Updates Models bs (within bs a (length src)) (overwrite bs a src) (ops.write_all m a src)
  pub fills :
      (m : M) (bs : List ℕ) (a n v : ℕ)
      → Models m bs
      → Updates Models bs (within bs a n) (fill_range bs a n v) (ops.fill m a n v)
  pub copies :
      (m : M) (bs : List ℕ) (dst src n : ℕ)
      → Models m bs
      → Updates Models bs
          (if within bs src n then within bs dst n else false)
          (move_within bs src n dst)
          (ops.copy_within m dst src n)
  pub reads_fixed :
      (m : M) (bs : List ℕ) (n a : ℕ)
      → Models m bs
      → 0 < n
      → ops.read_fixed n m a
        ≡ (if within bs a n then ok (slice bs a n) else err (memory_oob a n (length bs)))
  pub writes_fixed :
      (m : M) (bs : List ℕ) (n a : ℕ) (bytes : List ℕ)
      → Models m bs
      → 0 < n
      → length bytes ≡ n
      → ((ops.write_fixed n m a bytes).0
          ≡ (if within bs a n then ok tt else err (memory_oob a n (length bs))))
        × Models
            (ops.write_fixed n m a bytes).1
            (if within bs a n then overwrite bs a bytes else bs)
