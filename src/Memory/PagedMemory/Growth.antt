-- ===== src/Memory/PagedMemory/Growth.antt =====
-- Creation and growth of the paged memory.
use native.Mathlib.Nat.{div-add-mod', mod-lt, mul-le-mul_right}
use tinywasm.Prelude.{
  ℕ, suc, ◌+◌, ◌-◌, ◌*◌, ◌%◌, ◌≤◌, ◌<◌, ◌≡◌, refl, sym, ap, ap₂, ◌∙◌, false, Option, none, List,
  ◌++◌, length, take, replicate, arith, inl, inr, resize, length-append, take_all, leb, leb→le,
  leb→lt, replicate-nil, append_nil, length-resize, length-replicate, replicate-append,
  append_assoc, Bool-cases, true, Bool, if◌then◌else◌, ltb, ltb→le, le→ltb, ◌==◌,
}
use tinywasm.Prelude.Word.{isize_max}
use tinywasm.Host.{Host}
use tinywasm.Trap.{ok, err, out_of_memory}
use tinywasm.Memory.Laws.{Grows, grown, refused}
use tinywasm.Memory.PagedMemory.{PagedMemory, div_ceil, chunk_count, grow_to}
use tinywasm.Memory.PagedMemory.Flat.{flat, AllFull-append, AllFull-none, flat-append, flat-none}
use tinywasm.Memory.PagedMemory.Models.{Models, chunk_size-pos, length-all}

-- The number of chunks that cover `n` bytes, and no more.
div_ceil_lem : (n cs : ℕ) → 0 < cs → (n ≤ div_ceil n cs * cs) × (div_ceil n cs * cs < n + cs)
unfolding div_ceil
div_ceil_lem n cs h = elim (Bool-cases (n % cs == 0)) [
  | inl even ↦ rw even (ground (arith, div-add-mod' n cs))
  | inr odd ↦ rw odd (ground (arith, div-add-mod' n cs, mod-lt n h))
]

pub chunk_count_lem :
    (n cs : ℕ) → 0 < cs → (n ≤ chunk_count n cs * cs) × (chunk_count n cs * cs < n + cs)
unfolding chunk_count
chunk_count_lem n cs h = elim (Bool-cases (n == 0)) [
  | inl z ↦ rw z (ground arith)
  | inr p ↦ rw p (div_ceil_lem n cs h)
]

module _ {host : Host} {m : PagedMemory} {bs : List ℕ} (v : Models host m bs) (n : ℕ) where
  abbrev pub count : ℕ
  count = chunk_count n m.chunk_size

  covers : (n ≤ count * m.chunk_size) × (count * m.chunk_size < n + m.chunk_size)
  covers = chunk_count_lem n m.chunk_size (chunk_size-pos v)

  -- Growth keeps the chunks that are there: their number never goes down.
  count-le : length bs ≤ n → length m.chunks ≤ count
  count-le h = elim (Bool-cases (leb (length m.chunks) count)) [
    | inl le ↦ leb→le _ _ le
    | inr gt ↦
        let more : suc count * m.chunk_size ≤ length m.chunks * m.chunk_size =
          mul-le-mul_right m.chunk_size (leb→lt _ _ gt) in
        absurd (omega (arith, covers.0, v.tight, v.lens))
  ]

  kept : length bs ≤ n → take count m.chunks ≡ m.chunks
  kept h = take_all m.chunks count (count-le h)

  length-resized : length bs ≤ n → length (resize m.chunks count none) ≡ count
  length-resized h = rw (kept h) (
      length-append m.chunks (replicate (count - length m.chunks) none)
      ∙ omega (
        arith,
        length-replicate {A = Option (List ℕ)} (count - length m.chunks) none,
        count-le h,
      ))

  -- The new chunks are zero, and with the spare bytes of the last chunk they make up the growth.
  flat-resized :
      length bs ≤ n
      → flat m.chunk_size (resize m.chunks count none)
        ≡ resize bs n 0 ++ replicate (count * m.chunk_size - n) 0
  flat-resized h =
      let cs : ℕ = m.chunk_size in
      let d : ℕ = count - length m.chunks in
      let area : count * cs ≡ length m.chunks * cs + d * cs = omega (
        arith,
        ap (λ (t : ℕ). t * cs) {x = count} {y = length m.chunks + d} (omega (arith, count-le h)),
      ) in
      let sum : v.spare + d * cs ≡ (n - length bs) + (count * cs - n) =
        omega (arith, length-all v, covers) in
      rw (kept h) (
        flat-append cs m.chunks (replicate d none)
        ∙ ap₂ (λ s t. s ++ t) v.holds (flat-none cs d)
        ∙ append_assoc bs (replicate v.spare 0) (replicate (d * cs) 0)
        ∙ ap (λ t. bs ++ t) (replicate-append v.spare (d * cs) 0)
        ∙ ap (λ (t : ℕ). bs ++ replicate t 0) sum
        ∙ ap (λ t. bs ++ t) (sym (replicate-append (n - length bs) (count * cs - n) 0))
        ∙ sym (append_assoc bs (replicate (n - length bs) 0) (replicate (count * cs - n) 0))
        ∙ ap (λ t. (t ++ replicate (n - length bs) 0) ++ replicate (count * cs - n) 0)
            (sym (take_all bs n h)))

  resized :
      length bs ≤ n
      → n ≤ isize_max
      → Models host (record m { chunks = resize m.chunks count none; len = n }) (resize bs n 0)
  resized h k = record {
    shape = v.shape;
    mask = v.mask;
    room = v.room;
    small = v.small;
    lens = sym (length-resize bs n 0 h);
    bounded = rw (length-resize bs n 0 h) k;
    tight = rw (length-resized h) covers.1;
    full =
        rw (kept h) (AllFull-append m.chunk_size m.chunks _ v.full (AllFull-none m.chunk_size _));
    spare = count * m.chunk_size - n;
    holds = flat-resized h;
  }

  -- With as many chunks as needed, none is added.
  resize_same : length bs ≤ n → count ≤ length m.chunks → resize m.chunks count none ≡ m.chunks
  resize_same h k = rw (kept h) (
      ap (λ t. m.chunks ++ t) (replicate-nil none (count - length m.chunks) (omega arith))
      ∙ append_nil m.chunks)

  not_below : length bs ≤ n → ltb n m.len ≡ false
  not_below h = le→ltb n m.len (omega (arith, v.lens))

  -- Growth fails just when it needs more chunks than there are and the host refuses the table.
  abbrev pub granted : Bool
  granted = if ltb (length m.chunks) count then host.reserves_chunks count else true

  pub grow_to_lem :
      length bs ≤ n
      → n ≤ isize_max
      → ((grow_to host m n).0 ≡ (if granted then ok tt else err out_of_memory))
        × Models host (grow_to host m n).1 (if granted then resize bs n 0 else bs)
  unfolding grow_to
  grow_to_lem h k =
      rw (not_below h) (elim (Bool-cases (ltb (length m.chunks) (chunk_count n m.chunk_size))) [
        | inl more ↦
            rw more (elim (Bool-cases (host.reserves_chunks (chunk_count n m.chunk_size))) [
              | inl room ↦ rw room (refl, resized h k)
              | inr full ↦ rw full (refl, v)
            ])
        | inr enough ↦
            rw (enough, kept h) (refl, rw (resize_same h (ltb→le _ _ enough)) at (resized h k))
      ])

  pub grows : length bs ≤ n → n ≤ isize_max → Grows (Models host) bs n (grow_to host m n)
  grows h k =
      let out = grow_to_lem h k in
      elim (Bool-cases granted) [
        | inl e ↦ grown (rw e at out.0) (rw e at out.1)
        | inr e ↦ refused (rw e at out.0) (rw e at out.1)
      ]
