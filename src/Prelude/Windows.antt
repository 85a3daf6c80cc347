-- ===== src/Prelude/Windows.antt =====
-- How sub-slices and writes into a list meet the parts of a concatenation.
use Prim.Native.Nat.{ℕ, zero, suc, ◌+◌, ◌-◌, ◌≤◌}
use mathlib.Core.Path.{◌≡◌, refl, sym, ap, ◌∙◌}
use mathlib.Core.List.{List, [], ◌∷◌, ◌++◌}
use native.Mathlib.Omega.{arith}
use tinywasm.Prelude.Lists.{length, take, drop, length-take, replicate}
use tinywasm.Prelude.Lists.{length-append, length-replicate}
use tinywasm.Prelude.Slices.{
  resize, slice, overwrite, length-overwrite, length-slice, overwrite-nil,
}

module _ {ℓ} {A : Type ℓ} where
  -- Two writes, the second where the first ends, are one write of both.
  pub overwrite-append :
      (xs : List A) (a : ℕ) (ys zs : List A)
      → overwrite (overwrite xs a ys) (a + length ys) zs ≡ overwrite xs a (ys ++ zs)
  overwrite-append [] a ys zs = refl
  overwrite-append (x ∷ xs) zero [] zs =
      ap (λ (t : ℕ). overwrite (x ∷ xs) t zs) {x = 0 + 0} {y = 0} (omega arith)
  overwrite-append (x ∷ xs) zero (y ∷ ys) zs =
      ap (λ (t : ℕ). overwrite (y ∷ overwrite xs 0 ys) t zs) step
      ∙ ap (λ t. y ∷ t) (overwrite-append xs zero ys zs)
    where
      step : 0 + suc (length ys) ≡ suc (0 + length ys)
      step = omega arith
  overwrite-append (x ∷ xs) (suc a) ys zs =
      ap (λ (t : ℕ). overwrite (x ∷ overwrite xs a ys) t zs) step
      ∙ ap (λ t. x ∷ t) (overwrite-append xs a ys zs)
    where
      step : suc a + length ys ≡ suc (a + length ys)
      step = omega arith

  -- A write that stays in the left part leaves the right part.
  pub overwrite-append_left :
      (xs ws : List A) (a : ℕ) (ys : List A)
      → a + length ys ≤ length xs
      → overwrite (xs ++ ws) a ys ≡ overwrite xs a ys ++ ws
  overwrite-append_left [] ws zero [] h = overwrite-nil ws 0
  overwrite-append_left [] ws zero (y ∷ ys) h = absurd (omega arith)
  overwrite-append_left [] ws (suc a) ys h = absurd (omega arith)
  overwrite-append_left (x ∷ xs) ws zero [] h = refl
  overwrite-append_left (x ∷ xs) ws zero (y ∷ ys) h =
      ap (λ t. y ∷ t) (overwrite-append_left xs ws zero ys (omega arith))
  overwrite-append_left (x ∷ xs) ws (suc a) ys h =
      ap (λ t. x ∷ t) (overwrite-append_left xs ws a ys (omega arith))

  pub overwrite-append_right :
      (xs ws : List A) (a : ℕ) (ys : List A)
      → overwrite (xs ++ ws) (length xs + a) ys ≡ xs ++ overwrite ws a ys
  overwrite-append_right [] ws a ys = ap (λ (t : ℕ). overwrite ws t ys) (omega arith)
  overwrite-append_right (x ∷ xs) ws a ys =
      ap (λ (t : ℕ). overwrite (x ∷ xs ++ ws) t ys) step
      ∙ ap (λ t. x ∷ t) (overwrite-append_right xs ws a ys)
    where
      step : suc (length xs) + a ≡ suc (length xs + a)
      step = omega arith

  pub overwrite_whole : (xs ys : List A) → length xs ≡ length ys → overwrite xs 0 ys ≡ ys
  overwrite_whole [] [] h = refl
  overwrite_whole [] (y ∷ ys) h = absurd (omega arith)
  overwrite_whole (x ∷ xs) [] h = absurd (omega arith)
  overwrite_whole (x ∷ xs) (y ∷ ys) h = ap (λ t. y ∷ t) (overwrite_whole xs ys (omega arith))

  pub slice-append_left :
      (xs ws : List A) (a n : ℕ) → a + n ≤ length xs → slice (xs ++ ws) a n ≡ slice xs a n
  slice-append_left [] ws zero zero h = refl
  slice-append_left [] ws zero (suc n) h = absurd (omega arith)
  slice-append_left [] ws (suc a) n h = absurd (omega arith)
  slice-append_left (x ∷ xs) ws zero zero h = refl
  slice-append_left (x ∷ xs) ws zero (suc n) h =
      ap (λ t. x ∷ t) (slice-append_left xs ws zero n (omega arith))
  slice-append_left (x ∷ xs) ws (suc a) n h = slice-append_left xs ws a n (omega arith)

  pub slice-append_right :
      (xs ws : List A) (a n : ℕ) → slice (xs ++ ws) (length xs + a) n ≡ slice ws a n
  slice-append_right [] ws a n = ap (λ (t : ℕ). slice ws t n) (omega arith)
  slice-append_right (x ∷ xs) ws a n =
      ap (λ (t : ℕ). slice (x ∷ xs ++ ws) t n) step ∙ slice-append_right xs ws a n
    where
      step : suc (length xs) + a ≡ suc (length xs + a)
      step = omega arith

  take-append_take-drop :
      (xs : List A) (n m : ℕ) → take n xs ++ take m (drop n xs) ≡ take (n + m) xs
  take-append_take-drop xs zero m = ap (λ (t : ℕ). take t xs) (omega arith)
  take-append_take-drop [] (suc n) zero =
      ap (λ (t : ℕ). take {A = A} t []) {x = suc n} {y = suc n + 0} (omega arith)
  take-append_take-drop [] (suc n) (suc m) = ap (λ (t : ℕ). take t []) step
    where
      step : suc (n + suc m) ≡ suc n + suc m
      step = omega arith
  take-append_take-drop (x ∷ xs) (suc n) m =
      ap (λ t. x ∷ t) (take-append_take-drop xs n m) ∙ ap (λ (t : ℕ). take t (x ∷ xs)) step
    where
      step : suc (n + m) ≡ suc n + m
      step = omega arith

  drop-drop : (xs : List A) (n m : ℕ) → drop m (drop n xs) ≡ drop (n + m) xs
  drop-drop xs zero m = ap (λ (t : ℕ). drop t xs) (omega arith)
  drop-drop [] (suc n) zero =
      ap (λ (t : ℕ). drop {A = A} t []) {x = suc n} {y = suc n + 0} (omega arith)
  drop-drop [] (suc n) (suc m) = ap (λ (t : ℕ). drop t []) step
    where
      step : suc (n + suc m) ≡ suc n + suc m
      step = omega arith
  drop-drop (x ∷ xs) (suc n) m = drop-drop xs n m ∙ ap (λ (t : ℕ). drop t (x ∷ xs)) step
    where
      step : suc (n + m) ≡ suc n + m
      step = omega arith

  -- Neighbouring slices join.
  pub slice-append :
      (xs : List A) (a n m : ℕ) → slice xs a n ++ slice xs (a + n) m ≡ slice xs a (n + m)
  slice-append xs a n m =
      ap (λ t. slice xs a n ++ take m t) (sym (drop-drop xs a n))
      ∙ take-append_take-drop (drop a xs) n m

  pub replicate-append : (n m : ℕ) (v : A) → replicate n v ++ replicate m v ≡ replicate (n + m) v
  replicate-append zero m v = ap (λ (t : ℕ). replicate t v) (omega arith)
  replicate-append (suc n) m v =
      ap (λ t. v ∷ t) (replicate-append n m v) ∙ ap (λ (t : ℕ). replicate t v) step
    where
      step : suc (n + m) ≡ suc n + m
      step = omega arith

  -- A write into the rest of a buffer, put back, is a write into the buffer.
  pub overwrite-overwrite :
      (xs : List A) (a : ℕ) (ys : List A)
      → overwrite xs a (overwrite (drop a xs) 0 ys) ≡ overwrite xs a ys
  overwrite-overwrite [] a ys = refl
  overwrite-overwrite (x ∷ xs) zero [] = overwrite_whole (x ∷ xs) (x ∷ xs) refl
  overwrite-overwrite (x ∷ xs) zero (y ∷ ys) =
      overwrite_whole (x ∷ xs) (y ∷ overwrite xs 0 ys) (ap suc (sym (length-overwrite xs 0 ys)))
  overwrite-overwrite (x ∷ xs) (suc a) ys = ap (λ t. x ∷ t) (overwrite-overwrite xs a ys)

  pub slice-nil : (xs : List A) (a n : ℕ) → n ≡ 0 → slice xs a n ≡ []
  slice-nil xs a zero h = refl
  slice-nil xs a (suc n) h = absurd (omega arith)

  pub replicate-nil : (v : A) (n : ℕ) → n ≡ 0 → replicate n v ≡ []
  replicate-nil v zero h = refl
  replicate-nil v (suc n) h = absurd (omega arith)

  pub drop_all : (xs : List A) (n : ℕ) → length xs ≤ n → drop n xs ≡ []
  drop_all [] zero h = refl
  drop_all [] (suc n) h = refl
  drop_all (x ∷ xs) zero h = absurd (omega arith)
  drop_all (x ∷ xs) (suc n) h = drop_all xs n (omega arith)

  pub take_all : (xs : List A) (n : ℕ) → length xs ≤ n → take n xs ≡ xs
  take_all [] zero h = refl
  take_all [] (suc n) h = refl
  take_all (x ∷ xs) zero h = absurd (omega arith)
  take_all (x ∷ xs) (suc n) h = ap (λ t. x ∷ t) (take_all xs n (omega arith))

  pub append_nil : (xs : List A) → xs ++ [] ≡ xs
  append_nil [] = refl
  append_nil (x ∷ xs) = ap (λ t. x ∷ t) (append_nil xs)

  -- The rest of a list, cut after `n`, goes on with what follows.
  take-drop_append : (xs : List A) (a n : ℕ) → take n (drop a xs) ++ drop (a + n) xs ≡ drop a xs
  take-drop_append xs a n =
      ap (λ t. take n (drop a xs) ++ t) (sym (drop-drop xs a n)) ∙ take_drop (drop a xs) n
    where
      take_drop : (ys : List A) (k : ℕ) → take k ys ++ drop k ys ≡ ys
      take_drop ys zero = refl
      take_drop [] (suc k) = refl
      take_drop (y ∷ ys) (suc k) = ap (λ t. y ∷ t) (take_drop ys k)

  pub overwrite-slices :
      (xs : List A) (o : ℕ) (bs : List A) (p n m : ℕ)
      → p + n ≤ length bs
      → overwrite (overwrite xs o (slice bs p n)) (o + n) (slice bs (p + n) m)
        ≡ overwrite xs o (slice bs p (n + m))
  overwrite-slices xs o bs p n m h =
      ap (λ (t : ℕ). overwrite (overwrite xs o (slice bs p n)) (o + t) (slice bs (p + n) m))
        (sym (length-slice bs p n h))
      ∙ overwrite-append xs o (slice bs p n) (slice bs (p + n) m)
      ∙ ap (λ t. overwrite xs o t) (slice-append bs p n m)

  -- A source written in two parts, cut after `n`.
  pub overwrite-cut :
      (xs : List A) (o : ℕ) (ys : List A) (p n : ℕ)
      → p + n ≤ length ys
      → overwrite (overwrite xs o (slice ys p n)) (o + n) (drop (p + n) ys)
        ≡ overwrite xs o (drop p ys)
  overwrite-cut xs o ys p n h =
      ap (λ (t : ℕ). overwrite (overwrite xs o (slice ys p n)) (o + t) (drop (p + n) ys))
        (sym (length-slice ys p n h))
      ∙ overwrite-append xs o (slice ys p n) (drop (p + n) ys)
      ∙ ap (λ t. overwrite xs o t) (take-drop_append ys p n)

  pub slice-all : (xs : List A) (n : ℕ) → length xs ≡ n → slice xs 0 n ≡ xs
  slice-all xs n h = take_all xs n (omega arith)

  pub slice-replicate : (v : A) (c o n : ℕ) → o + n ≤ c → slice (replicate c v) o n ≡ replicate n v
  slice-replicate v zero zero zero h = refl
  slice-replicate v zero zero (suc n) h = absurd (omega arith)
  slice-replicate v zero (suc o) n h = absurd (omega arith)
  slice-replicate v (suc c) zero zero h = refl
  slice-replicate v (suc c) zero (suc n) h =
      ap (λ t. v ∷ t) (slice-replicate v c zero n (omega arith))
  slice-replicate v (suc c) (suc o) n h = slice-replicate v c o n (omega arith)

  pub take-length : (n : ℕ) (xs : List A) → n ≤ length xs → length (take n xs) ≡ n
  take-length n xs h = omega (arith, length-take n xs)

  pub overwrite_front :
      (xs ys : List A) → length ys ≤ length xs → overwrite xs 0 ys ≡ ys ++ drop (length ys) xs
  overwrite_front [] [] h = refl
  overwrite_front [] (y ∷ ys) h = absurd (omega arith)
  overwrite_front (x ∷ xs) [] h = refl
  overwrite_front (x ∷ xs) (y ∷ ys) h = ap (λ t. y ∷ t) (overwrite_front xs ys (omega arith))

  pub length-resize : (bs : List A) (n : ℕ) (v : A) → length bs ≤ n → length (resize bs n v) ≡ n
  length-resize bs n v h = omega (
    arith,
    length-append (take n bs) (replicate (n - length bs) v),
    length-take n bs,
    length-replicate (n - length bs) v,
  )

  pub resize_same : (bs : List A) (n : ℕ) (v : A) → length bs ≡ n → resize bs n v ≡ bs
  resize_same bs n v h =
      rw (take_all bs n (omega arith), replicate-nil v (n - length bs) (omega arith))
        (append_nil bs)
