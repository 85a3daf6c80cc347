-- ===== src/Memory/LazyMemory.antt =====
-- crates/tinywasm/src/store/memory/lazy.rs: a linear memory that makes its storage on the first
-- change. The backend is a parameter: what it gives for the memory's type and so many bytes, where
-- `none` is an error that is no trap. A result of `none` is a panic.
pub mod Contract
mod Tests
use tinywasm.Prelude.{
  ℕ, ◌-◌, min, Bool, true, false, Option, none, some, List, leb, ◌==◌, ◌&&◌, ◌||◌, if◌then◌else◌,
  length, replicate, overwrite,
}
use tinywasm.Trap.{Result, ok, err}
use tinywasm.Memory.Interface.{LinearMemory, range_fits}

pub record LazyLinearMemory (M : Type 0) : Type 0 where
  pub initial_len : ℕ
  pub inner : Option M

abbrev pub is_none : {M : Type 0} → Option M → Bool
is_none none = true
is_none (some i) = false

module _ {M : Type 0} (ops : LinearMemory M) (create : ℕ → Option (Result M)) where
  unfoldable pub len : LazyLinearMemory M → ℕ
  len m = elim m.inner [ none ↦ m.initial_len | some inner ↦ ops.len inner ]

  abbrev created : Option (Result M) → Option M
  created none = none
  created (some (err e)) = none
  created (some (ok inner)) = some inner

  unfoldable pub materialize : LazyLinearMemory M → Option M
  materialize m = elim m.inner [ none ↦ created (create m.initial_len) | some inner ↦ some inner ]

  unfoldable pub try_materialize : LazyLinearMemory M → Option (Result M)
  try_materialize m = elim m.inner [ none ↦ create m.initial_len | some inner ↦ some (ok inner) ]

  abbrev pub changed :
      {A : Type 0} → LazyLinearMemory M → (M → A × M) → Option M → Option (A × LazyLinearMemory M)
  changed m f none = none
  changed m f (some inner) = let (a, inner') = f inner in some (a, record m { inner = some inner' })

  abbrev pub grown :
      LazyLinearMemory M → ℕ → Option (Result M) → Option (Result (Unit {0}) × LazyLinearMemory M)
  grown m new_len none = none
  grown m new_len (some (err e)) = some (err e, m)
  grown m new_len (some (ok inner)) =
      let (r, inner') = ops.grow_to inner new_len in some (r, record m { inner = some inner' })

  unfoldable pub grow_to : LazyLinearMemory M → ℕ → Option (Result (Unit {0}) × LazyLinearMemory M)
  unfolding try_materialize
  grow_to m new_len = grown m new_len (try_materialize m)

  unfoldable pub read : LazyLinearMemory M → ℕ → List ℕ → ℕ × List ℕ
  read m addr dst = elim m.inner [
    | some inner ↦ ops.read inner addr dst
    | none ↦
        let read_len : ℕ = min (length dst) (m.initial_len - addr) in
        if leb m.initial_len addr
        then (0, dst)
        else (read_len, overwrite dst 0 (replicate read_len 0))
  ]

  unfoldable pub write : LazyLinearMemory M → ℕ → List ℕ → Option (ℕ × LazyLinearMemory M)
  unfolding len materialize
  write m addr src =
      if length src == 0 || leb (len m) addr
      then some (0, m)
      else changed m (λ inner. ops.write inner addr src) (materialize m)

  unfoldable pub write_all : LazyLinearMemory M → ℕ → List ℕ → Option (Bool × LazyLinearMemory M)
  unfolding len materialize range_fits
  write_all m addr src =
      if range_fits (len m) addr (length src)
      then (if length src == 0
          then some (true, m)
          else changed m (λ inner. ops.write_all inner addr src) (materialize m))
      else some (false, m)

  unfoldable pub fill : LazyLinearMemory M → ℕ → ℕ → ℕ → Option (Bool × LazyLinearMemory M)
  unfolding len materialize range_fits
  fill m addr n val =
      if range_fits (len m) addr n
      then (if n == 0 || (val == 0 && is_none m.inner)
          then some (true, m)
          else changed m (λ inner. ops.fill inner addr n val) (materialize m))
      else some (false, m)

  unfoldable pub copy_within : LazyLinearMemory M → ℕ → ℕ → ℕ → Option (Bool × LazyLinearMemory M)
  unfolding len materialize range_fits
  copy_within m dst src n =
      if range_fits (len m) src n
      then (if range_fits (len m) dst n
          then (if is_none m.inner || (n == 0 || (dst == src))
              then some (true, m)
              else changed m (λ inner. ops.copy_within inner dst src n) (materialize m))
          else some (false, m))
      else some (false, m)
