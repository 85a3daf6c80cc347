-- ===== src/Prelude/Writes.antt =====
-- Writes that follow one another, and what lies beside a write.
use Prim.Native.Nat.{ℕ, zero, suc, ◌+◌, ◌≤◌}
use mathlib.Core.Path.{◌≡◌, refl, sym, ap, ◌∙◌}
use mathlib.Core.Logic.{◌⊎◌, inl, inr}
use mathlib.Core.List.{List, [], ◌∷◌, ◌++◌}
use native.Mathlib.Omega.{arith}
use tinywasm.Prelude.Lists.{length, take, drop, replicate, length-replicate}
use tinywasm.Prelude.Lists.{set, get_or}
use tinywasm.Prelude.Slices.{slice, overwrite, move_within, length-slice, overwrite-nil}
use tinywasm.Prelude.Windows.{overwrite-append, replicate-append, slice-append, slice-nil}

module _ {ℓ} {A : Type ℓ} where
  -- Two writes, the second just before the first, are one write of both.
  overwrite-prepend :
      (xs : List A) (a : ℕ) (ys zs : List A)
      → overwrite (overwrite xs (a + length ys) zs) a ys ≡ overwrite xs a (ys ++ zs)
  overwrite-prepend [] a ys zs = refl
  overwrite-prepend (x ∷ xs) zero [] zs =
      overwrite-nil (overwrite (x ∷ xs) (0 + 0) zs) 0
      ∙ ap (λ (t : ℕ). overwrite (x ∷ xs) t zs) {x = 0 + 0} {y = 0} (omega arith)
  overwrite-prepend (x ∷ xs) zero (y ∷ ys) zs =
      ap (λ (t : ℕ). overwrite (overwrite (x ∷ xs) t zs) 0 (y ∷ ys)) step
      ∙ ap (λ t. y ∷ t) (overwrite-prepend xs zero ys zs)
    where
      step : 0 + suc (length ys) ≡ suc (0 + length ys)
      step = omega arith
  overwrite-prepend (x ∷ xs) (suc a) ys zs =
      ap (λ (t : ℕ). overwrite (overwrite (x ∷ xs) t zs) (suc a) ys) step
      ∙ ap (λ t. x ∷ t) (overwrite-prepend xs a ys zs)
    where
      step : suc a + length ys ≡ suc (a + length ys)
      step = omega arith

  -- What lies before or behind a write reads as it did.
  drop-overwrite_past :
      (xs : List A) (a : ℕ) (ys : List A) (p : ℕ)
      → a + length ys ≤ p
      → drop p (overwrite xs a ys) ≡ drop p xs
  drop-overwrite_past [] a ys p h = refl
  drop-overwrite_past (x ∷ xs) zero [] p h = refl
  drop-overwrite_past (x ∷ xs) zero (y ∷ ys) zero h = absurd (omega arith)
  drop-overwrite_past (x ∷ xs) zero (y ∷ ys) (suc p) h =
      drop-overwrite_past xs zero ys p (omega arith)
  drop-overwrite_past (x ∷ xs) (suc a) ys zero h = absurd (omega arith)
  drop-overwrite_past (x ∷ xs) (suc a) ys (suc p) h = drop-overwrite_past xs a ys p (omega arith)

  pub slice-overwrite_past :
      (xs : List A) (a : ℕ) (ys : List A) (p n : ℕ)
      → a + length ys ≤ p
      → slice (overwrite xs a ys) p n ≡ slice xs p n
  slice-overwrite_past xs a ys p n h = ap (λ t. take n t) (drop-overwrite_past xs a ys p h)

  pub slice-overwrite_before :
      (xs : List A) (a : ℕ) (ys : List A) (p n : ℕ)
      → p + n ≤ a
      → slice (overwrite xs a ys) p n ≡ slice xs p n
  slice-overwrite_before [] a ys p n h = refl
  slice-overwrite_before (x ∷ xs) zero ys zero zero h = refl
  slice-overwrite_before (x ∷ xs) zero ys zero (suc n) h = absurd (omega arith)
  slice-overwrite_before (x ∷ xs) zero ys (suc p) n h = absurd (omega arith)
  slice-overwrite_before (x ∷ xs) (suc a) ys zero zero h = refl
  slice-overwrite_before (x ∷ xs) (suc a) ys zero (suc n) h =
      ap (λ t. x ∷ t) (slice-overwrite_before xs a ys zero n (omega arith))
  slice-overwrite_before (x ∷ xs) (suc a) ys (suc p) n h =
      slice-overwrite_before xs a ys p n (omega arith)

  pub overwrite-replicates :
      (xs : List A) (a n m : ℕ) (v : A)
      → overwrite (overwrite xs a (replicate n v)) (a + n) (replicate m v)
        ≡ overwrite xs a (replicate (n + m) v)
  overwrite-replicates xs a n m v =
      ap (λ (t : ℕ). overwrite (overwrite xs a (replicate n v)) (a + t) (replicate m v))
        (sym (length-replicate n v))
      ∙ overwrite-append xs a (replicate n v) (replicate m v)
      ∙ ap (λ t. overwrite xs a t) (replicate-append n m v)

  pub overwrite-slices_before :
      (xs : List A) (o : ℕ) (bs : List A) (p n m : ℕ)
      → p + n ≤ length bs
      → overwrite (overwrite xs (o + n) (slice bs (p + n) m)) o (slice bs p n)
        ≡ overwrite xs o (slice bs p (n + m))
  overwrite-slices_before xs o bs p n m h =
      ap (λ (t : ℕ). overwrite (overwrite xs (o + t) (slice bs (p + n) m)) o (slice bs p n))
        (sym (length-slice bs p n h))
      ∙ overwrite-prepend xs o (slice bs p n) (slice bs (p + n) m)
      ∙ ap (λ t. overwrite xs o t) (slice-append bs p n m)

  pub overwrite-slice_self : (xs : List A) (a n : ℕ) → overwrite xs a (slice xs a n) ≡ xs
  overwrite-slice_self [] a n = refl
  overwrite-slice_self (x ∷ xs) zero zero = refl
  overwrite-slice_self (x ∷ xs) zero (suc n) = ap (λ t. x ∷ t) (overwrite-slice_self xs zero n)
  overwrite-slice_self (x ∷ xs) (suc a) n = ap (λ t. x ∷ t) (overwrite-slice_self xs a n)

  -- A move of nothing, or to where the bytes are, changes nothing.
  pub move_within_still :
      (xs : List A) (src n dst : ℕ) → (n ≡ 0) ⊎ (dst ≡ src) → move_within xs src n dst ≡ xs
  move_within_still xs src n dst (inl e) =
      ap (λ t. overwrite xs dst t) (slice-nil xs src n e) ∙ overwrite-nil xs dst
  move_within_still xs src n dst (inr e) =
      ap (λ (t : ℕ). overwrite xs t (slice xs src n)) e ∙ overwrite-slice_self xs src n

  pub set-overwrite :
      (bs : List A) (a : ℕ) (xs : List A) (d : A)
      → length xs ≡ 1
      → set bs a (get_or xs 0 d) ≡ overwrite bs a xs
  set-overwrite [] a xs d h = refl
  set-overwrite (b ∷ bs) zero [] d h = absurd (omega arith)
  set-overwrite (b ∷ bs) zero (x ∷ []) d h = ap (λ t. x ∷ t) (sym (overwrite-nil bs 0))
  set-overwrite (b ∷ bs) zero (x ∷ y ∷ xs) d h = absurd (omega arith)
  set-overwrite (b ∷ bs) (suc a) xs d h = ap (λ t. b ∷ t) (set-overwrite bs a xs d h)

  pub slice_one :
      (bs : List A) (a : ℕ) (d : A) → a + 1 ≤ length bs → slice bs a 1 ≡ get_or bs a d ∷ []
  slice_one [] a d h = absurd (omega arith)
  slice_one (b ∷ bs) zero d h = refl
  slice_one (b ∷ bs) (suc a) d h = slice_one bs a d (omega arith)
