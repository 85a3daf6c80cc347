-- ===== src/Prelude/Word.antt =====
-- `usize` and `u64` of a 64-bit host: checked and wrapping operations, masks and shifts.
use Prim.Native.Nat.{digits, bit_and-bitwise}
use mathlib.Core.Path.{◌≡◌, refl, ap, ◌∙◌}
use mathlib.Core.Option.{Option, none, some}
use native.Mathlib.Nat.{
  pow-suc, one-le-pow, mod-one, add-mul-mod_self_right, mod-eq_of_lt, mod-lt, div-add-mod',
}
use native.Mathlib.Omega.{arith}
use Prim.Native.Nat.{ℕ, zero, suc, ◌+◌, ◌-◌, ◌*◌, ◌/◌, ◌%◌, ◌^◌, ◌≤◌, ◌<◌, min, bit_and}
use tinywasm.Prelude.Tests.{ltb, if◌then◌else◌}

-- The number of `usize` values, and the largest size of one Rust allocation (`isize::MAX`).
abbrev pub usize_mod : ℕ
usize_mod = 2 ^ 64

abbrev pub isize_max : ℕ
isize_max = 2 ^ 63 - 1

-- `a.checked_add(b)`
abbrev pub checked_add : ℕ → ℕ → Option ℕ
checked_add a b = if ltb (a + b) usize_mod then some (a + b) else none

-- `a.checked_mul(b)`
abbrev pub checked_mul : ℕ → ℕ → Option ℕ
checked_mul a b = if ltb (a * b) usize_mod then some (a * b) else none

-- `a.saturating_mul(b)`
abbrev pub saturating_mul : ℕ → ℕ → ℕ
saturating_mul a b = min (a * b) (usize_mod - 1)

-- `a + b` and `a - b` as a release build computes them
abbrev pub wrapping_add : ℕ → ℕ → ℕ
wrapping_add a b = (a + b) % usize_mod

abbrev pub wrapping_sub : ℕ → ℕ → ℕ
wrapping_sub a b = (a + usize_mod - b) % usize_mod

-- `a >> s` and `a << s`
abbrev pub shr : ℕ → ℕ → ℕ
shr a s = a / 2 ^ s

abbrev pub shl : ℕ → ℕ → ℕ
shl a s = (a * 2 ^ s) % usize_mod

-- The remainder by `2 * p` has the last digit below the remainder of the half.
mod_double : (a p : ℕ) → 0 < p → a % (p * 2) ≡ (a / 2) % p * 2 + a % 2
mod_double a p h =
    ap (λ (t : ℕ). t % (p * 2)) split
    ∙ add-mul-mod_self_right ((a / 2) % p * 2 + a % 2) (a / 2 / p) (p * 2)
    ∙ mod-eq_of_lt (omega (arith, mod-lt (a / 2) h))
  where
    whole : a / 2 / p * p + (a / 2) % p ≡ a / 2
    whole = div-add-mod' (a / 2) p

    split : a ≡ ((a / 2) % p * 2 + a % 2) + (a / 2 / p) * (p * 2)
    split = omega (arith, whole)

low_ones : ℕ → ℕ
low_ones k = 2 ^ k - 1

low_ones-zero : low_ones 0 ≡ 0
unfolding low_ones
low_ones-zero = refl

low_ones-suc : (k : ℕ) → (low_ones (suc k) / 2 ≡ low_ones k) × (low_ones (suc k) % 2 ≡ 1)
unfolding low_ones
low_ones-suc k =
    (omega (arith, pow-suc 2 k, one-le-pow k 2), omega (arith, pow-suc 2 k, one-le-pow k 2))

-- The digits of the conjunction with `k` ones, read off one at a time.
digits-low_ones : (n k a : ℕ) → a ≤ n → digits (λ b. zero) min n a (low_ones k) ≡ a % 2 ^ k
digits-low_ones zero k zero h = omega (arith, one-le-pow k 2)
digits-low_ones zero k (suc a) h = absurd (omega arith)
digits-low_ones (suc n) k zero h = omega (arith, one-le-pow k 2)
digits-low_ones (suc n) zero (suc a) h =
    let half : low_ones 0 / 2 ≡ low_ones 0 = omega (arith, low_ones-zero) in
    let ih : digits (λ b. zero) min n (suc a / 2) (low_ones 0 / 2) ≡ (suc a / 2) % 2 ^ 0 =
      rw half (digits-low_ones n zero (suc a / 2) (omega arith)) in
    omega (arith, ih, low_ones-zero, mod-one (suc a), mod-one (suc a / 2))
digits-low_ones (suc n) (suc k) (suc a) h =
    let ih : digits (λ b. zero) min n (suc a / 2) (low_ones (suc k) / 2) ≡ (suc a / 2) % 2 ^ k =
      rw (low_ones-suc k).0 (digits-low_ones n k (suc a / 2) (omega arith)) in
    rw (pow-suc 2 k, mod_double (suc a) (2 ^ k) (one-le-pow k 2 (omega arith)))
      (omega (arith, ih, (low_ones-suc k).1))

-- `a & (2 ^ k - 1)` is the remainder by `2 ^ k`.
pub bit_and-low_ones : (k a : ℕ) → bit_and a (2 ^ k - 1) ≡ a % 2 ^ k
unfolding low_ones
bit_and-low_ones k a = bit_and-bitwise a (2 ^ k - 1) ∙ digits-low_ones a k a (omega arith)
