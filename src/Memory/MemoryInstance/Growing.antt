-- ===== src/Memory/MemoryInstance/Growing.antt =====
-- MemoryInstance::grow: the number of pages and the number of bytes go together.
use native.Mathlib.Nat.{mul-le-mul_right, mul-le-mul_left, mod-eq_of_lt}
use tinywasm.Prelude.{
  ℕ, ◌+◌, ◌*◌, ◌≤◌, ◌<◌, ◌≡◌, subst, resize_same, refl, sym, inl, inr, Bool, true, false, Option,
  none, some, List, ltb, leb, ◌==◌, if◌then◌else◌, length, resize, ℤ, pos, negsuc, Bool-cases,
  arith, leb→le, leb→lt, le→leb, le→ltb, lt→ltb, length-resize,
}
use tinywasm.Prelude.Word.{isize_max, usize_mod}
use tinywasm.Trap.{Result, ok, err, out_of_memory}
use tinywasm.MemoryType.{page_size, page_count_max, max_size}
use tinywasm.Memory.Interface.{LinearMemory}
use tinywasm.Memory.Laws.{Laws, grown, refused}
use tinywasm.Memory.MemoryInstance.{MemoryInstance, to_i64, grow_inner, grow}

module _ {M : Type 0} (Models : M → List ℕ → Type 0) where
  -- The bytes are whole pages, at most as many as the type allows, and all these pages would fit
  -- the address space.
  pub record Valid (self : MemoryInstance M) (bs : List ℕ) : Type 0 where
    pub holds : Models self.inner bs
    pub whole : length bs ≡ self.page_count * page_size self.kind
    pub most : self.page_count ≤ page_count_max self.kind
    pub paged : 0 < page_size self.kind
    pub fits : page_count_max self.kind * page_size self.kind ≤ isize_max

  -- What `grow` by `d` pages does: it adds zeroed pages and returns the old number of pages; or the
  -- type does not allow as many; or there is no room, which traps if the caller wants that.
  pub data Growth (self : MemoryInstance M) (bs : List ℕ) (d : ℕ) (trap_on_oom : Bool)
      (out : Result (Option ℤ) × MemoryInstance M) : Type 0 where
    grew :
        self.page_count + d ≤ page_count_max self.kind
        → out.0 ≡ ok (some (pos self.page_count))
        → Valid out.1 (resize bs ((self.page_count + d) * page_size self.kind) 0)
        → out.1.page_count ≡ self.page_count + d
        → Growth self bs d trap_on_oom out
    over :
        page_count_max self.kind < self.page_count + d
        → out ≡ (ok none, self)
        → Growth self bs d trap_on_oom out
    no_room :
        self.page_count + d ≤ page_count_max self.kind
        → out.0 ≡ (if trap_on_oom then err out_of_memory else ok none)
        → Valid out.1 bs
        → out.1.page_count ≡ self.page_count
        → Growth self bs d trap_on_oom out

module _ {M : Type 0} (ops : LinearMemory M) (Models : M → List ℕ → Type 0)
    (laws : Laws ops Models) where
  module _ (self : MemoryInstance M) (bs : List ℕ) (v : Valid Models self bs) where
    abbrev page : ℕ
    page = page_size self.kind

    abbrev limit : ℕ
    limit = page_count_max self.kind

    -- A number of pages is at most the number of their bytes.
    pages-le : (k : ℕ) → k ≤ k * page
    pages-le k = omega (arith, mul-le-mul_left k v.paged)

    returned : to_i64 self.page_count ≡ some (pos self.page_count)
    unfolding to_i64
    returned =
        rw
          (le→leb self.page_count isize_max
            (omega (arith, v.most, pages-le (page_count_max self.kind), v.fits)))
          refl

    -- Growth by no page is growth to the same number of bytes.
    no_change : (d : ℕ) → (self.page_count + d) * page ≡ length bs → d ≡ 0
    no_change d e = omega (arith, pages-le d, v.whole)

    more : (d : ℕ) → length bs ≤ (self.page_count + d) * page
    more d = omega (arith, v.whole)

    room : (d : ℕ) → self.page_count + d ≤ limit → (self.page_count + d) * page ≤ isize_max
    room d h = omega (arith, v.fits, mul-le-mul_right page h)

    max_size_lem : max_size self.kind ≡ limit * page
    unfolding max_size
    max_size_lem = mod-eq_of_lt (omega (arith, v.fits))

    grow_inner_lem :
        (d : ℕ) (trap_on_oom : Bool)
        → self.page_count + d ≤ limit
        → Growth Models self bs d trap_on_oom
            (grow_inner ops self (self.page_count + d) ((self.page_count + d) * page) trap_on_oom)
    unfolding grow_inner
    grow_inner_lem d trap_on_oom h =
        elim (Bool-cases ((self.page_count + d) * page == ops.len self.inner)) [
          | inl same ↦
              let e : (self.page_count + d) * page ≡ length bs =
                ground (arith, same, laws.models_len self.inner bs v.holds) in
              rw (same, returned)
                (grew h refl (subst (λ t. Valid Models self t) (sym (resize_same bs _ 0 (sym e))) v)
                  (omega (arith, no_change d e)))
          | inr different ↦
              rw (different, grow_inner)
                (elim (laws.grows self.inner bs ((self.page_count + d) * page) v.holds (more d)
                  (room d h)) [
                    | grown e after ↦
                        rw (e, returned)
                          (grew h refl
                            (record {
                              holds = after;
                              whole = length-resize bs _ 0 (more d);
                              most = h;
                              paged = v.paged;
                              fits = v.fits;
                            })
                            refl)
                    | refused e after ↦ rw e (
                        no_room h refl
                          (record {
                            holds = after;
                            whole = v.whole;
                            most = v.most;
                            paged = v.paged;
                            fits = v.fits;
                          })
                          refl)
                  ])
        ]

  -- A negative number of pages is refused.
  grow_negative :
      (self : MemoryInstance M) (d : ℕ) (trap_on_oom : Bool)
      → grow ops self (negsuc d) trap_on_oom ≡ (ok none, self)
  unfolding grow
  grow_negative self d trap_on_oom = refl

  -- Growth by `d` pages of a memory whose storage keeps the contract, whose bytes are whole pages,
  -- at most its maximum, and whose maximum is at most `isize::MAX` bytes, on every branch: within
  -- the maximum it adds zeroed pages, counts them and returns the old number, or there is no room,
  -- which traps if that is asked for and else returns nothing, with the bytes and the number of
  -- pages as they were; above the maximum it returns nothing and changes nothing. The memory keeps
  -- these conditions.
  pub grow_lem :
      (self : MemoryInstance M) (bs : List ℕ) (d : ℕ) (trap_on_oom : Bool)
      → Valid Models self bs
      → Growth Models self bs d trap_on_oom (grow ops self (pos d) trap_on_oom)
  unfolding grow
  grow_lem self bs d trap_on_oom v =
      let limit_small = pages-le self bs v (page_count_max self.kind) in
      elim (Bool-cases (leb (self.page_count + d) (page_count_max self.kind))) [
        | inl allowed ↦
            let h : self.page_count + d ≤ page_count_max self.kind = leb→le _ _ allowed in
            let bytes = room self bs v d h in
            let sum : ltb (self.page_count + d) usize_mod ≡ true =
              lt→ltb _ _ (omega (arith, limit_small, v.fits)) in
            let below : ltb (page_count_max self.kind) (self.page_count + d) ≡ false =
              le→ltb _ _ h in
            let prod : ltb ((self.page_count + d) * page_size self.kind) usize_mod ≡ true =
              lt→ltb _ _ (omega (arith, bytes)) in
            let largest : ltb (max_size self.kind) ((self.page_count + d) * page_size self.kind)
                ≡ false =
              le→ltb _ _
                (omega (arith, max_size_lem self bs v, mul-le-mul_right (page_size self.kind) h)) in
            rw (grow, sum, below, prod, largest) (grow_inner_lem self bs v d trap_on_oom h)
        | inr too_many ↦
            let h : page_count_max self.kind < self.page_count + d = leb→lt _ _ too_many in
            let above : ltb (page_count_max self.kind) (self.page_count + d) ≡ true =
              lt→ltb _ _ h in
            elim (Bool-cases (ltb (self.page_count + d) usize_mod)) [
              | inl sum ↦ rw (grow, sum, above) (over h refl)
              | inr wide ↦ rw (grow, wide) (over h refl)
            ]
      ]
