-- ===== src/Optimizer/Inverse.antt =====
-- crates/parser/src/optimize.rs: `inverse_cmp_op`, on the comparisons of the executor.
use tinywasm.Prelude.{
  ℕ, ◌≡◌, refl, Bool, true, false, not, ltb, leb, ◌==◌, ℤ, pos, negsuc, arith, to_signed,
}
use tinywasm.Instructions.{CmpOp, eq, ne, lt_s, lt_u, gt_s, gt_u, le_s, le_u, ge_s, ge_u}
use tinywasm.Numeric.{lt_z, le_z, cmp}
use tinywasm.Optimizer.Operators.{inverse_cmp_op}

not-ltb : (a b : ℕ) → leb b a ≡ not (ltb a b)
not-ltb a b = ground arith

not-leb : (a b : ℕ) → ltb b a ≡ not (leb a b)
not-leb a b = ground arith

not-lt_z : (a b : ℤ) → le_z b a ≡ not (lt_z a b)
not-lt_z (pos m) (pos n) = not-ltb m n
not-lt_z (pos m) (negsuc n) = refl
not-lt_z (negsuc m) (pos n) = refl
not-lt_z (negsuc m) (negsuc n) = not-ltb n m

not-le_z : (a b : ℤ) → lt_z b a ≡ not (le_z a b)
not-le_z (pos m) (pos n) = not-leb m n
not-le_z (pos m) (negsuc n) = refl
not-le_z (negsuc m) (pos n) = refl
not-le_z (negsuc m) (negsuc n) = not-leb n m

not-not : (b : Bool) → b ≡ not (not b)
not-not true = refl
not-not false = refl

-- The comparison that the optimizer puts in place of another, when it inverts a jump, holds exactly
-- when the other does not, signed and unsigned, at every width.
pub inverse_cmp_op_lem :
    (bits lhs rhs : ℕ) (op : CmpOp)
    → cmp bits lhs rhs (inverse_cmp_op op) ≡ not (cmp bits lhs rhs op)
unfolding cmp inverse_cmp_op
inverse_cmp_op_lem bits lhs rhs eq = refl
inverse_cmp_op_lem bits lhs rhs ne = not-not (lhs == rhs)
inverse_cmp_op_lem bits lhs rhs lt_s = not-lt_z (to_signed bits lhs) (to_signed bits rhs)
inverse_cmp_op_lem bits lhs rhs lt_u = not-ltb lhs rhs
inverse_cmp_op_lem bits lhs rhs gt_s = not-lt_z (to_signed bits rhs) (to_signed bits lhs)
inverse_cmp_op_lem bits lhs rhs gt_u = not-ltb rhs lhs
inverse_cmp_op_lem bits lhs rhs le_s = not-le_z (to_signed bits lhs) (to_signed bits rhs)
inverse_cmp_op_lem bits lhs rhs le_u = not-leb lhs rhs
inverse_cmp_op_lem bits lhs rhs ge_s = not-le_z (to_signed bits rhs) (to_signed bits lhs)
inverse_cmp_op_lem bits lhs rhs ge_u = not-leb rhs lhs
