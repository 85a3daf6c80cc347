-- ===== src/Stack/Lane/Moving.antt =====
-- What leaves one lane of the value stack: `pop`, the truncations and `select_many`.
use tinywasm.Prelude.{
  ℕ, zero, suc, ◌+◌, ◌-◌, ◌*◌, ◌≤◌, ◌<◌, ◌≡◌, refl, sym, ap, ap₂, ◌∙◌, inl, inr, min, Bool, true,
  false, some, List, [], ◌∷◌, ◌++◌, ltb, leb, ◌==◌, if◌then◌else◌, length, take, get_elem?, slice,
  overwrite, move_within, arith, Bool-cases, leb→le, lt→ltb, le→ltb, length-append, append_assoc,
  slice-all, overwrite_front, drop,
}
use tinywasm.Prelude.Word.{usize_mod}
use tinywasm.Stack.Lane.{Stack, last, pop, truncate_keep, truncate_to_one_tail, select_many}

module _ {T : Type 0} where
  pub take-append : (xs ys : List T) (n : ℕ) → n ≡ length xs → take n (xs ++ ys) ≡ xs
  take-append [] ys zero h = refl
  take-append [] ys (suc n) h = absurd (omega arith)
  take-append (x ∷ xs) ys zero h = absurd (omega arith)
  take-append (x ∷ xs) ys (suc n) h = ap (λ t. x ∷ t) (take-append xs ys n (omega arith))

  pub get_elem?-middle :
      (xs ys : List T) (x : T) (n : ℕ) → n ≡ length xs → get_elem? (xs ++ x ∷ ys) n ≡ some x
  get_elem?-middle [] ys x zero h = refl
  get_elem?-middle [] ys x (suc n) h = absurd (omega arith)
  get_elem?-middle (y ∷ xs) ys x zero h = absurd (omega arith)
  get_elem?-middle (y ∷ xs) ys x (suc n) h = get_elem?-middle xs ys x n (omega arith)

  nil : (xs : List T) → length xs ≡ 0 → xs ≡ []
  nil [] h = refl
  nil (x ∷ xs) h = absurd (omega arith)

  -- `pop` returns the top of a lane that is not empty and leaves what is below.
  pub pop_lem :
      (s : Stack T) (xs : List T) (x : T)
      → s.slots ≡ xs ++ x ∷ []
      → pop s ≡ some (x, record s { slots = xs })
  unfolding pop last
  pop_lem s xs x e =
      let size : length s.slots - 1 ≡ length xs =
        omega (arith, ap length e, length-append xs (x ∷ [])) in
      let back : take (length s.slots - 1) s.slots ≡ xs =
        rw (size, e) (take-append xs (x ∷ []) _ refl) in
      let top : get_elem? s.slots (length s.slots - 1) ≡ some x =
        rw (size, e) (get_elem?-middle xs [] x _ refl) in
      rw (pop, last, top, back) refl

  slice_end : (xs zs : List T) (a : ℕ) → a ≡ length xs → slice (xs ++ zs) a (length zs) ≡ zs
  slice_end [] zs zero h = slice-all zs (length zs) refl
  slice_end [] zs (suc a) h = absurd (omega arith)
  slice_end (x ∷ xs) zs zero h = absurd (omega arith)
  slice_end (x ∷ xs) zs (suc a) h = slice_end xs zs a (omega arith)

  overwrite_end :
      (xs rest zs : List T) (a n : ℕ)
      → a ≡ length xs
      → n ≡ length xs + length zs
      → length zs ≤ length rest
      → take n (overwrite (xs ++ rest) a zs) ≡ xs ++ zs
  overwrite_end [] rest zs zero n h k w =
      rw (overwrite_front rest zs w) (take-append zs (drop (length zs) rest) n (omega arith))
  overwrite_end [] rest zs (suc a) n h k w = absurd (omega arith)
  overwrite_end (x ∷ xs) rest zs zero n h k w = absurd (omega arith)
  overwrite_end (x ∷ xs) rest zs (suc a) zero h k w = absurd (omega arith)
  overwrite_end (x ∷ xs) rest zs (suc a) (suc n) h k w =
      ap (λ t. x ∷ t) (overwrite_end xs rest zs a n (omega arith) (omega arith) w)

  -- The block `zs` at the end moves down over `ys`.
  moved_down :
      (xs ys zs : List T) (src dst n : ℕ)
      → src ≡ length xs + length ys
      → dst ≡ length xs
      → n ≡ length xs + length zs
      → take n (move_within (xs ++ (ys ++ zs)) src (length zs) dst) ≡ xs ++ zs
  moved_down xs ys zs src dst n h k w =
      let block : slice (xs ++ (ys ++ zs)) src (length zs) ≡ zs =
        rw (sym (append_assoc xs ys zs))
          (slice_end (xs ++ ys) zs src (omega (arith, length-append xs ys))) in
      rw block (overwrite_end xs (ys ++ zs) zs dst n k w (omega (arith, length-append ys zs)))

  lengths : (xs ys zs : List T) → length (xs ++ (ys ++ zs)) ≡ length xs + length ys + length zs
  lengths xs ys zs = omega (arith, length-append xs (ys ++ zs), length-append ys zs)

  pub truncate_keep_lem :
      (s : Stack T) (xs ys zs : List T)
      → s.slots ≡ xs ++ (ys ++ zs)
      → truncate_keep s (length xs) (length zs) ≡ record s { slots = xs ++ zs }
  unfolding truncate_keep
  truncate_keep_lem s xs ys zs e =
      let size : length s.slots ≡ length xs + length ys + length zs =
        ap length e ∙ lengths xs ys zs in
      let keep : min (length s.slots - length xs) (length zs) ≡ length zs = omega (arith, size) in
      elim (Bool-cases (leb (length s.slots) (length xs))) [
        | inl nothing ↦
            let z : length ys ≡ 0 = omega (arith, size, leb→le _ _ nothing) in
            rw (truncate_keep, nothing)
              (ap (λ t. record s { slots = t }) (e ∙ ap (λ t. xs ++ (t ++ zs)) (nil ys z)))
        | inr something ↦
            rw (truncate_keep, something, keep)
              (ap (λ t. record s { slots = t })
                (rw e (moved_down xs ys zs _ _ _ (omega (arith, lengths xs ys zs)) refl refl)))
      ]

  -- `truncate_to_one_tail` is `truncate_keep` with one result, for a lane with a value above the
  -- base.
  pub truncate_to_one_tail_lem :
      (s : Stack T) (xs ys : List T) (x : T)
      → s.slots ≡ xs ++ (ys ++ x ∷ [])
      → truncate_to_one_tail s (length xs) ≡ some (truncate_keep s (length xs) 1)
  unfolding truncate_to_one_tail
  truncate_to_one_tail_lem s xs ys x e =
      rw
        (
          truncate_to_one_tail,
          pop_lem s (xs ++ ys) x (e ∙ sym (append_assoc xs ys (x ∷ []))),
          take-append xs ys _ refl,
          truncate_keep_lem s xs ys (x ∷ []) e,
        )
        refl

  -- The block that `select_many` leaves on `xs`.
  chosen :
      (xs ys zs : List T) (condition : Bool) (n src dst : ℕ)
      → length ys ≡ length zs
      → n ≡ length xs + length zs
      → src ≡ n
      → dst ≡ length xs
      → let all = xs ++ (ys ++ zs) in
        take n (if condition then all else move_within all src (length zs) dst)
        ≡ xs ++ (if condition then ys else zs)
  chosen xs ys zs true n src dst same h k w =
      rw (sym (append_assoc xs ys zs))
        (take-append (xs ++ ys) zs n (omega (arith, length-append xs ys)))
  chosen xs ys zs false n src dst same h k w = moved_down xs ys zs src dst n (omega arith) w h

  -- Of two blocks of one size on top, `select_many` keeps the first when the condition holds and
  -- the second otherwise, and leaves what is below; twice the size is a `usize`.
  pub select_many_lem :
      (s : Stack T) (xs ys zs : List T) (condition : Bool)
      → s.slots ≡ xs ++ (ys ++ zs)
      → length ys ≡ length zs
      → length zs * 2 < usize_mod
      → select_many s (length zs) condition
        ≡ some (record s { slots = xs ++ (if condition then ys else zs) })
  unfolding select_many
  select_many_lem s xs ys zs condition e same h =
      let size : length s.slots ≡ length xs + length ys + length zs =
        ap length e ∙ lengths xs ys zs in
      let product : ltb (length zs * 2) usize_mod ≡ true = lt→ltb _ _ h in
      let deep : ltb (length s.slots) (length zs * 2) ≡ false = le→ltb _ _ (omega (arith, size)) in
      elim (Bool-cases (length zs == 0)) [
        | inl nothing ↦
            let z : length zs ≡ 0 = ground (arith, nothing) in
            let both : (if condition then ys else zs) ≡ [] = elim (Bool-cases condition) [
              | inl c ↦ rw c (nil ys (omega arith))
              | inr c ↦ rw c (nil zs z)
            ] in
            rw (select_many, nothing, both)
              (ap (λ t. some (record s { slots = t }))
                (e ∙ ap₂ (λ t u. xs ++ (t ++ u)) (nil ys (omega arith)) (nil zs z)))
        | inr something ↦
            rw (select_many, something, product, deep)
              (ap (λ t. some (record s { slots = t }))
                (rw e (
                  chosen xs ys zs condition _ _ _ same (omega (arith, lengths xs ys zs)) refl
                    (omega (arith, lengths xs ys zs)))))
      ]
