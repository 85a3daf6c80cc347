-- ===== src/Stack/ValueStack/Blocks.antt =====
-- What the value stack keeps when a block or a function ends, and when one of two blocks is selected.
use tinywasm.Prelude.{
  ℕ, ◌*◌, ◌≡◌, ◌<◌, refl, not, some, List, [], ◌∷◌, ◌++◌, length, ◌==◌, if◌then◌else◌,
}
use tinywasm.Prelude.Word.{usize_mod}
use tinywasm.Stack.Lane.Moving.{pop_lem, truncate_keep_lem, select_many_lem}
use tinywasm.Stack.ValueStack.{ValueStack, pop_32, truncate_keep_counts, select_multi}

-- Three blocks of a lane: what is below, and the two above it.
pub record Blocks {T : Type 0} (slots : List T) : Type 0 where
  pub below : List T
  pub first : List T
  pub second : List T
  pub parts : slots ≡ below ++ (first ++ second)

-- `truncate_keep_counts` to the base below the first blocks keeps in each lane what is below and the
-- second block, and nothing else.
pub truncate_keep_counts_lem :
    (s : ValueStack) (a : Blocks s.stack_32.slots) (b : Blocks s.stack_64.slots)
    (c : Blocks s.stack_128.slots)
    → truncate_keep_counts s
        (record { s_32 = length a.below; s_64 = length b.below; s_128 = length c.below })
        (record { c_32 = length a.second; c_64 = length b.second; c_128 = length c.second })
      ≡ record {
        stack_32 = record s.stack_32 { slots = a.below ++ a.second };
        stack_64 = record s.stack_64 { slots = b.below ++ b.second };
        stack_128 = record s.stack_128 { slots = c.below ++ c.second };
      }
unfolding truncate_keep_counts
truncate_keep_counts_lem s a b c =
    rw
      (
        truncate_keep_lem s.stack_32 a.below a.first a.second a.parts,
        truncate_keep_lem s.stack_64 b.below b.first b.second b.parts,
        truncate_keep_lem s.stack_128 c.below c.first c.second c.parts,
      )
      refl

-- `select_multi` takes the condition off the 32-bit lane, and keeps in every lane the first of two
-- blocks of one size if it is not zero, and the second if it is; twice each size is a `usize`.
pub select_multi_lem :
    (s : ValueStack) (condition : ℕ) (rest : List ℕ) (a : Blocks rest) (b : Blocks s.stack_64.slots)
    (c : Blocks s.stack_128.slots)
    → s.stack_32.slots ≡ rest ++ condition ∷ []
    → length a.first ≡ length a.second
    → length b.first ≡ length b.second
    → length c.first ≡ length c.second
    → length a.second * 2 < usize_mod
    → length b.second * 2 < usize_mod
    → length c.second * 2 < usize_mod
    → let chosen = not (condition == 0) in
      select_multi s
        (record { c_32 = length a.second; c_64 = length b.second; c_128 = length c.second })
      ≡ some (record {
        stack_32 = record s.stack_32 { slots = a.below ++ (if chosen then a.first else a.second) };
        stack_64 = record s.stack_64 { slots = b.below ++ (if chosen then b.first else b.second) };
        stack_128 = record s.stack_128 {
          slots = c.below ++ (if chosen then c.first else c.second);
        };
      })
unfolding select_multi pop_32
select_multi_lem s condition rest a b c e sa sb sc ka kb kc =
    rw
      (
        select_multi,
        pop_32,
        pop_lem s.stack_32 rest condition e,
        select_many_lem (record s.stack_32 { slots = rest }) a.below a.first a.second
            (not (condition == 0)) a.parts sa ka,
        select_many_lem s.stack_64 b.below b.first b.second (not (condition == 0)) b.parts sb kb,
        select_many_lem s.stack_128 c.below c.first c.second (not (condition == 0)) c.parts sc kc,
      )
      refl
