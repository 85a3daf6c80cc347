-- ===== src/Prelude/Slices.antt =====
-- Rust's slice operations on a list: a sub-slice, `copy_from_slice` into one, `copy_within`, `fill`
-- and `Vec::resize`.
use Prim.Native.Nat.{ℕ, zero, suc, ◌+◌, ◌-◌, ◌≤◌, ◌<◌}
use mathlib.Core.Path.{◌≡◌, refl, ap, ◌∙◌}
use mathlib.Core.List.{List, [], ◌∷◌, ◌++◌}
use native.Mathlib.Omega.{arith}
use tinywasm.Prelude.Lists.{
  length, get_or, take, drop, replicate, length-take, length-drop, get_or-take, get_or-drop,
}

module _ {ℓ} {A : Type ℓ} where
  -- `xs[a..a + n]`; callers establish the bound that Rust checks
  abbrev pub slice : List A → ℕ → ℕ → List A
  slice xs a n = take n (drop a xs)

  -- `xs[a..a + ys.len()].copy_from_slice(ys)`; what reaches past the end is dropped
  abbrev pub overwrite : List A → ℕ → List A → List A
  overwrite [] a ys = []
  overwrite (x ∷ xs) zero [] = x ∷ xs
  overwrite (x ∷ xs) zero (y ∷ ys) = y ∷ overwrite xs zero ys
  overwrite (x ∷ xs) (suc a) ys = x ∷ overwrite xs a ys

module _ {ℓ} {A : Type ℓ} where
  -- `xs.copy_within(src..src + n, dst)`
  abbrev pub move_within : List A → ℕ → ℕ → ℕ → List A
  move_within xs src n dst = overwrite xs dst (slice xs src n)

  -- `xs[a..a + n].fill(v)`
  abbrev pub fill_range : List A → ℕ → ℕ → A → List A
  fill_range xs a n v = overwrite xs a (replicate n v)

  -- `xs.resize(n, v)`
  abbrev pub resize : List A → ℕ → A → List A
  resize xs n v = take n xs ++ replicate (n - length xs) v

  pub length-overwrite :
      (xs : List A) (a : ℕ) (ys : List A) → length (overwrite xs a ys) ≡ length xs
  length-overwrite [] a ys = refl
  length-overwrite (x ∷ xs) zero [] = refl
  length-overwrite (x ∷ xs) zero (y ∷ ys) = ap suc (length-overwrite xs zero ys)
  length-overwrite (x ∷ xs) (suc a) ys = ap suc (length-overwrite xs a ys)

  pub length-slice : (xs : List A) (a n : ℕ) → a + n ≤ length xs → length (slice xs a n) ≡ n
  length-slice xs a n h = omega (arith, length-take n (drop a xs), length-drop a xs)

  get_or-slice :
      (xs : List A) (a n i : ℕ) (d : A) → i < n → get_or (slice xs a n) i d ≡ get_or xs (a + i) d
  get_or-slice xs a n i d h = get_or-take n (drop a xs) i d h ∙ get_or-drop a xs i d

  -- Inside the window the new value, outside it the old one.
  get_or-overwrite_out :
      (xs : List A) (a : ℕ) (ys : List A) (i : ℕ) (d : A)
      → i < a
      → get_or (overwrite xs a ys) i d ≡ get_or xs i d
  get_or-overwrite_out [] a ys i d h = refl
  get_or-overwrite_out (x ∷ xs) zero ys i d h = absurd (omega arith)
  get_or-overwrite_out (x ∷ xs) (suc a) ys zero d h = refl
  get_or-overwrite_out (x ∷ xs) (suc a) ys (suc i) d h =
      get_or-overwrite_out xs a ys i d (omega arith)

  get_or-overwrite_past :
      (xs : List A) (a : ℕ) (ys : List A) (i : ℕ) (d : A)
      → a + length ys ≤ i
      → get_or (overwrite xs a ys) i d ≡ get_or xs i d
  get_or-overwrite_past [] a ys i d h = refl
  get_or-overwrite_past (x ∷ xs) zero [] i d h = refl
  get_or-overwrite_past (x ∷ xs) zero (y ∷ ys) zero d h = absurd (omega arith)
  get_or-overwrite_past (x ∷ xs) zero (y ∷ ys) (suc i) d h =
      get_or-overwrite_past xs zero ys i d (omega arith)
  get_or-overwrite_past (x ∷ xs) (suc a) ys zero d h = refl
  get_or-overwrite_past (x ∷ xs) (suc a) ys (suc i) d h =
      get_or-overwrite_past xs a ys i d (omega arith)

  get_or-overwrite_in :
      (xs : List A) (a : ℕ) (ys : List A) (j : ℕ) (d : A)
      → j < length ys
      → a + length ys ≤ length xs
      → get_or (overwrite xs a ys) (a + j) d ≡ get_or ys j d
  get_or-overwrite_in xs a [] j d h k = absurd (omega arith)
  get_or-overwrite_in [] a (y ∷ ys) j d h k = absurd (omega arith)
  get_or-overwrite_in (x ∷ xs) zero (y ∷ ys) zero d h k = refl
  get_or-overwrite_in (x ∷ xs) zero (y ∷ ys) (suc j) d h k =
      ap (λ (t : ℕ). get_or (y ∷ overwrite xs 0 ys) t d) step
      ∙ get_or-overwrite_in xs zero ys j d (omega arith) (omega arith)
    where
      step : 0 + suc j ≡ suc (0 + j)
      step = omega arith
  get_or-overwrite_in (x ∷ xs) (suc a) (y ∷ ys) j d h k =
      ap (λ (t : ℕ). get_or (x ∷ overwrite xs a (y ∷ ys)) t d) step
      ∙ get_or-overwrite_in xs a (y ∷ ys) j d h (omega arith)
    where
      step : suc a + j ≡ suc (a + j)
      step = omega arith

  pub overwrite-nil : (xs : List A) (a : ℕ) → overwrite xs a [] ≡ xs
  overwrite-nil [] a = refl
  overwrite-nil (x ∷ xs) zero = refl
  overwrite-nil (x ∷ xs) (suc a) = ap (λ t. x ∷ t) (overwrite-nil xs a)
