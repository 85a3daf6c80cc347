-- ===== src/Memory/LazyMemory/Contract.antt =====
-- crates/tinywasm/src/store/memory/lazy.rs: a lazy memory changes as the memory would that its
-- backend makes, also before there is one.
use tinywasm.Prelude.{
  ℕ, suc, ◌+◌, ◌≤◌, ◌≡◌, refl, sym, ◌∙◌, ap, subst, inl, inr, Bool, true, false, Option, none, some,
  List, [], ◌∷◌, ◌==◌, ◌&&◌, ◌||◌, if◌then◌else◌, length, replicate, overwrite, fill_range,
  move_within, arith, leb→le, length-replicate, slice-replicate, move_within_still, overwrite-nil,
  Bool-cases,
}
use tinywasm.Prelude.Word.{isize_max}
use tinywasm.Trap.{Result, ok}
use tinywasm.Memory.Interface.{LinearMemory}
use tinywasm.Memory.Laws.{within, Updates, Laws}
use tinywasm.Memory.Defaults.{range_fits-within}
use tinywasm.Memory.LazyMemory.{
  LazyLinearMemory, is_none, len, materialize, changed, write_all, fill, copy_within,
}

-- Zeroes written over zeroes change nothing.
fill_zeroes :
    (size a n : ℕ) → a + n ≤ size → fill_range (replicate {A = ℕ} size 0) a n 0 ≡ replicate size 0
fill_zeroes size a n h =
    ap (λ t. overwrite (replicate {A = ℕ} size 0) a t) (sym (slice-replicate {A = ℕ} 0 size a n h))
    ∙ move_within_still (replicate {A = ℕ} size 0) a n a (inr refl)

move_zeroes :
    (size src n dst : ℕ)
    → src + n ≤ size
    → dst + n ≤ size
    → move_within (replicate {A = ℕ} size 0) src n dst ≡ replicate size 0
move_zeroes size src n dst h k =
    ap (λ t. overwrite (replicate {A = ℕ} size 0) dst t) (slice-replicate {A = ℕ} 0 size src n h)
    ∙ fill_zeroes size dst n k

-- There is a result, and it has the property.
abbrev pub Given : {A : Type 0} → (A → Type 0) → Option A → Type 0
Given P none = ⊥
Given P (some a) = P a

module _ {M : Type 0} (ops : LinearMemory M) (create : ℕ → Option (Result M))
    (Models : M → List ℕ → Type 0) (laws : Laws ops Models) where
  abbrev Held : ℕ → Option M → List ℕ → Type 0
  Held n none bs = (bs ≡ replicate n 0) × (length bs ≤ isize_max)
  Held n (some inner) bs = Models inner bs

  -- Without storage, the bytes are zeroes.
  abbrev pub LazyModels : LazyLinearMemory M → List ℕ → Type 0
  LazyModels m bs = Held m.initial_len m.inner bs

  -- The backend makes a memory of so many zeroes.
  abbrev pub Creates : ℕ → Type 0
  Creates n = (inner : M) × (create n ≡ some (ok inner)) × Models inner (replicate n 0)

  module _ (bs : List ℕ) where
    len_lem : (m : LazyLinearMemory M) → LazyModels m bs → len ops create m ≡ length bs
    unfolding len
    len_lem m h = by_inner m.initial_len m.inner h
      where
        by_inner :
            (n : ℕ) (o : Option M)
            → Held n o bs
            → len ops create (record { initial_len = n; inner = o }) ≡ length bs
        by_inner n none h = sym (ap length h.0 ∙ length-replicate n 0)
        by_inner n (some inner) h = laws.models_len inner bs h

    bound : (m : LazyLinearMemory M) → LazyModels m bs → length bs ≤ isize_max
    bound m h = by_inner m.initial_len m.inner h
      where
        by_inner : (n : ℕ) (o : Option M) → Held n o bs → length bs ≤ isize_max
        by_inner n none h = h.1
        by_inner n (some inner) h = laws.bounded inner bs h

    materialize_lem :
        (n : ℕ) (o : Option M)
        → Creates n
        → Held n o bs
        → (inner : M) × (materialize ops create (record { initial_len = n; inner = o })
            ≡ some inner)
          × Models inner bs
    unfolding materialize
    materialize_lem n none c h = (c.0, rw c.1 refl, subst (Models c.0) (sym h.0) c.2)
    materialize_lem n (some inner) c h = (inner, refl, h)

    module _ (inside : Bool) (after : List ℕ) where
      abbrev Changes : Bool × LazyLinearMemory M → Type 0
      Changes = Updates LazyModels bs inside after

      changed-Given :
          (m : LazyLinearMemory M) (f : M → Bool × M)
          → Creates m.initial_len
          → LazyModels m bs
          → ((i : M) → Models i bs → Updates Models bs inside after (f i))
          → Given Changes (changed ops create m f (materialize ops create m))
      changed-Given m f c h update =
          let found : (inner : M) × (materialize ops create m ≡ some inner) × Models inner bs =
            materialize_lem m.initial_len m.inner c h in
          let u : Updates Models bs inside after (f found.0) = update found.0 found.2 in
          rw found.1 (record { done = u.done; after = u.after })

    write_all-Given :
        (m : LazyLinearMemory M) (a : ℕ) (src : List ℕ)
        → Creates m.initial_len
        → LazyModels m bs
        → Given
            (Changes (within bs a (length src)) (overwrite bs a src))
            (write_all ops create m a src)
    unfolding write_all
    write_all-Given m a src c h = elim (Bool-cases (within bs a (length src))) [
      | inr e ↦
          rw (len_lem m h, range_fits-within bs a (length src) (bound m h), e)
            (record { done = refl; after = h })
      | inl e ↦
          rw (len_lem m h, range_fits-within bs a (length src) (bound m h), e) (some_or_none src e)
    ]
      where
        some_or_none :
            (src : List ℕ)
            → within bs a (length src) ≡ true
            → Given (Changes true (overwrite bs a src)) (
                if length src == 0
                then some (true, m)
                else changed ops create m
                    (λ inner. ops.write_all inner a src)
                    (materialize ops create m))
        some_or_none [] e = record { done = refl; after = rw (overwrite-nil bs a) h }
        some_or_none (x ∷ xs) e =
            let filled : (suc (length xs) == 0) ≡ false = ground arith in
            rw filled (
              changed-Given true (overwrite bs a (x ∷ xs)) m _ c h λ i v.
                subst
                  (λ b. Updates Models bs b (overwrite bs a (x ∷ xs)) (ops.write_all i a (x ∷ xs)))
                  e (laws.writes_all i bs a (x ∷ xs) v))

    -- Nothing is to be done: the fill is empty, or it is of zeroes and there is no storage.
    still_zeroes :
        (n : ℕ) (o : Option M) (a k v : ℕ)
        → (k == 0 || (v == 0 && is_none o)) ≡ true
        → within bs a k ≡ true
        → Held n o bs
        → fill_range bs a k v ≡ bs
    still_zeroes n o a k v e f h = elim (Bool-cases (k == 0)) [
      | inl g ↦ let nothing : k ≡ 0 = ground arith in rw nothing (overwrite-nil bs a)
      | inr g ↦ zeroes o (rw g at e) h
    ]
      where
        zeroes :
            (o : Option M) → (v == 0 && is_none o) ≡ true → Held n o bs → fill_range bs a k v ≡ bs
        zeroes none e h =
            let zero_value : v ≡ 0 = ground arith in
            let inside : a + k ≤ length bs = leb→le _ _ f in
            let size : length bs ≡ n = ap length h.0 ∙ length-replicate n 0 in
            rw (zero_value, h.0) (fill_zeroes n a k (omega (arith, inside, size)))
        zeroes (some inner) e h = absurd (ground arith)

    fill-Given :
        (m : LazyLinearMemory M) (a k v : ℕ)
        → Creates m.initial_len
        → LazyModels m bs
        → Given (Changes (within bs a k) (fill_range bs a k v)) (fill ops create m a k v)
    unfolding fill
    fill-Given m a k v c h = elim (Bool-cases (within bs a k)) [
      | inr e ↦
          rw (len_lem m h, range_fits-within bs a k (bound m h), e)
            (record { done = refl; after = h })
      | inl e ↦ rw (len_lem m h, range_fits-within bs a k (bound m h), e) (by_test _ refl e)
    ]
      where
        by_test :
            (b : Bool)
            → (k == 0 || (v == 0 && is_none m.inner)) ≡ b
            → within bs a k ≡ true
            → Given (Changes true (fill_range bs a k v)) (
                if b
                then some (true, m)
                else changed ops create m
                    (λ inner. ops.fill inner a k v)
                    (materialize ops create m))
        by_test true t e = record {
          done = refl;
          after = rw (still_zeroes m.initial_len m.inner a k v t e h) h;
        }
        by_test false t e = changed-Given true (fill_range bs a k v) m _ c h λ i w.
            subst (λ b. Updates Models bs b (fill_range bs a k v) (ops.fill i a k v)) e
              (laws.fills i bs a k v w)

    -- Nothing is to be done: there are only zeroes, or the bytes are where they should be.
    still_bytes :
        (n : ℕ) (o : Option M) (dst src k : ℕ)
        → (is_none o || (k == 0 || (dst == src))) ≡ true
        → within bs src k ≡ true
        → within bs dst k ≡ true
        → Held n o bs
        → move_within bs src k dst ≡ bs
    still_bytes n none dst src k t e f h =
        let from : src + k ≤ length bs = leb→le _ _ e in
        let to : dst + k ≤ length bs = leb→le _ _ f in
        let size : length bs ≡ n = ap length h.0 ∙ length-replicate n 0 in
        rw h.0 (move_zeroes n src k dst (omega (arith, from, size)) (omega (arith, to, size)))
    still_bytes n (some inner) dst src k t e f h = elim (Bool-cases (k == 0)) [
      | inl g ↦ let nothing : k ≡ 0 = ground arith in move_within_still bs src k dst (inl nothing)
      | inr g ↦ let same : dst ≡ src = ground arith in move_within_still bs src k dst (inr same)
    ]

    copy_within-Given :
        (m : LazyLinearMemory M) (dst src k : ℕ)
        → Creates m.initial_len
        → LazyModels m bs
        → Given
            (Changes
              (if within bs src k then within bs dst k else false)
              (move_within bs src k dst))
            (copy_within ops create m dst src k)
    unfolding copy_within
    copy_within-Given m dst src k c h = elim (Bool-cases (within bs src k)) [
      | inr e ↦
          rw (len_lem m h, range_fits-within bs src k (bound m h), e)
            (record { done = refl; after = h })
      | inl e ↦ elim (Bool-cases (within bs dst k)) [
        | inr f ↦
            rw
              (
                len_lem m h,
                range_fits-within bs src k (bound m h),
                range_fits-within bs dst k (bound m h),
                e,
                f,
              )
              (record { done = refl; after = h })
        | inl f ↦
            rw
              (
                len_lem m h,
                range_fits-within bs src k (bound m h),
                range_fits-within bs dst k (bound m h),
                e,
                f,
              )
              (by_test _ refl e f)
      ]
    ]
      where
        by_test :
            (b : Bool)
            → (is_none m.inner || (k == 0 || (dst == src))) ≡ b
            → within bs src k ≡ true
            → within bs dst k ≡ true
            → Given (Changes true (move_within bs src k dst)) (
                if b
                then some (true, m)
                else changed ops create m
                    (λ inner. ops.copy_within inner dst src k)
                    (materialize ops create m))
        by_test true t e f = record {
          done = refl;
          after = rw (still_bytes m.initial_len m.inner dst src k t e f h) h;
        }
        by_test false t e f = changed-Given true (move_within bs src k dst) m _ c h λ i w.
            let u : Updates Models bs (if within bs src k then within bs dst k else false)
                (move_within bs src k dst) (ops.copy_within i dst src k) =
              laws.copies i bs dst src k w in
            rw (e, f) at u

  -- A lazy memory behaves like the storage that its backend makes, from its first operation on:
  -- `write_all`, `fill` and `copy_within` do not panic, succeed just when their ranges lie in the
  -- memory, and leave the bytes that they should, or else change nothing. The storage keeps the
  -- contract of `LinearMemory`, and the backend makes it, of zeroes, for the memory's length.
  pub lazy_memory_lem :
      (m : LazyLinearMemory M) (bs src : List ℕ) (a dst n v : ℕ)
      → Creates m.initial_len
      → LazyModels m bs
      → Given
          (Updates LazyModels bs (within bs a (length src)) (overwrite bs a src))
          (write_all ops create m a src)
        × Given
            (Updates LazyModels bs (within bs a n) (fill_range bs a n v))
            (fill ops create m a n v)
        × Given
            (Updates LazyModels bs
              (if within bs a n then within bs dst n else false)
              (move_within bs a n dst))
            (copy_within ops create m dst a n)
  lazy_memory_lem m bs src a dst n v c h = (
    write_all-Given bs m a src c h,
    fill-Given bs m a n v c h,
    copy_within-Given bs m dst a n c h,
  )
