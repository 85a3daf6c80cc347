-- ===== src/Numeric/Tests.antt =====
-- crates/tinywasm/src/interpreter/num_helpers.rs: runs of the integer operations, and instances of
-- the theorems.
use tinywasm.Prelude.{◌+◌, ◌-◌, ◌%◌, ◌^◌, ◌≡◌, refl, arith}
use tinywasm.Trap.{ok, err, division_by_zero, integer_overflow}
use tinywasm.Numeric.{add_128, div_s, rem_s, clz, ctz, popcnt, quot, rem}
use tinywasm.Numeric.Wide.{whole, add_128_lem}

-- The quotient of the least number by -1 traps, and its remainder is 0.
div_s-least :
    (div_s 32 (2 ^ 31) (2 ^ 32 - 1) ≡ err integer_overflow)
    × (rem_s 32 (2 ^ 31) (2 ^ 32 - 1) ≡ ok 0)
    × (div_s 32 7 0 ≡ err division_by_zero)
    × (div_s 32 (2 ^ 32 - 7) 2 ≡ ok (2 ^ 32 - 3))
unfolding div_s rem_s quot rem
div_s-least = (refl, refl, refl, refl)

counts-32 : (clz 32 1 ≡ 31) × (ctz 32 8 ≡ 3) × (ctz 32 0 ≡ 32) × (popcnt 32 255 ≡ 8)
unfolding clz ctz popcnt
counts-32 = (refl, refl, refl, refl)

-- The carry of the low half.
add_128_lem_example :
    whole (add_128 (2 ^ 64 - 1) 2 1 3) ≡ (whole (2 ^ 64 - 1, 2) + whole (1, 3)) % 2 ^ 128
add_128_lem_example =
    add_128_lem (2 ^ 64 - 1) 2 1 3 (omega arith) (omega arith) (omega arith) (omega arith)
