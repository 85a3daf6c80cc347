-- ===== src/Table/Ranges.antt =====
-- Bounds of the operations on a table.
use tinywasm.Prelude.{
  ℕ, ◌+◌, ◌^◌, ◌≤◌, ◌<◌, ◌≡◌, refl, inl, inr, Bool, true, false, List, ltb, leb, if◌then◌else◌,
  length, overwrite, move_within, resize, Bool-cases, arith, lt→ltb, ltb→lt, ltb→le, length-resize,
}
use tinywasm.Prelude.Word.{usize_mod}
use tinywasm.Host.{Host}
use tinywasm.Trap.{Result, ok, err, table_out_of_bounds, out_of_memory}
use tinywasm.Table.{
  TableElement, TableInstance, max_table_size, checked_range, trap_oob, in_range, copy_within, init,
  size_limit, grow,
}

-- The table is within its limit.
abbrev pub Valid : TableInstance → Type 0
Valid t = length t.elements ≤ size_limit t

limit-le : (t : TableInstance) → size_limit t ≤ max_table_size
unfolding size_limit
limit-le t = omega arith

-- The limit is that of the table's type.
limit-kind :
    (t : TableInstance) (elements : List TableElement)
    → size_limit (record t { elements = elements }) ≡ size_limit t
unfolding size_limit
limit-kind t elements = refl

-- `[a, a + n)` lies in the table.
abbrev pub within : TableInstance → ℕ → ℕ → Bool
within t a n = leb (a + n) (length t.elements)

checked_range_lem :
    (t : TableInstance) (a n : ℕ)
    → Valid t
    → checked_range t a n
      ≡ (if within t a n then ok (a, a + n) else err (table_out_of_bounds a n (length t.elements)))
unfolding checked_range trap_oob
checked_range_lem t a n v = ground (arith, v, limit-le t)

in_range_lem :
    (t : TableInstance) (a n : ℕ) (elements : List TableElement)
    → Valid t
    → in_range t a n elements ≡ (
        if within t a n
        then (ok tt, record t { elements = elements })
        else (err (table_out_of_bounds a n (length t.elements)), t))
unfolding in_range
in_range_lem t a n elements v = elim (Bool-cases (within t a n)) [
  | inl inside ↦ rw (in_range, checked_range_lem t a n v, inside) refl
  | inr outside ↦ rw (in_range, checked_range_lem t a n v, outside) refl
]

-- `table.init` of a table within its limit writes all the items, or traps and writes none of them.
pub init_lem :
    (t : TableInstance) (offset : ℕ) (items : List TableElement)
    → Valid t
    → init t offset items ≡ (
        if within t offset (length items)
        then (ok tt, record t { elements = overwrite t.elements offset items })
        else (err (table_out_of_bounds offset (length items) (length t.elements)), t))
unfolding init
init_lem t offset items v = in_range_lem t offset (length items) _ v

-- `table.copy` inside a table within its limit moves the elements, overlaps included; or it traps
-- with the first range that does not fit, the source's before the destination's, and moves none.
pub copy_elements_lem :
    (t : TableInstance) (dst src n : ℕ)
    → Valid t
    → copy_within t dst src n ≡ (
        if within t src n
        then (if within t dst n
            then (ok tt, record t { elements = move_within t.elements src n dst })
            else (err (table_out_of_bounds dst n (length t.elements)), t))
        else (err (table_out_of_bounds src n (length t.elements)), t))
unfolding copy_within
copy_elements_lem t dst src n v = elim (Bool-cases (within t src n)) [
  | inl inside ↦ rw (copy_within, checked_range_lem t src n v, inside) (in_range_lem t dst n _ v)
  | inr outside ↦ rw (copy_within, checked_range_lem t src n v, outside) refl
]

-- What the growth of a table by `n` elements does: it appends them, or there is no room, or the limit
-- stands against it.
pub data Growth (host : Host) (t : TableInstance) (n : ℕ) (item : TableElement)
    (out : Result (Unit {0}) × TableInstance) : Type 0 where
  grew :
      out ≡ (ok tt, record t { elements = resize t.elements (n + length t.elements) item })
      → Valid out.1
      → length out.1.elements ≡ n + length t.elements
      → Growth host t n item out
  above :
      size_limit t < n + length t.elements
      → out ≡ (err (table_out_of_bounds (n + length t.elements) 1 (length t.elements)), t)
      → Growth host t n item out
  no_room :
      host.reserves_elements (n + length t.elements) ≡ false
      → out ≡ (err out_of_memory, t)
      → Growth host t n item out

-- The growth of a table within its limit by fewer than `2 ^ 63` elements, on every branch: it appends
-- `n` copies of the item and stays within the limit, or it fails for its reason and changes nothing.
pub grow_table_lem :
    (host : Host) (t : TableInstance) (n : ℕ) (item : TableElement)
    → Valid t
    → n < 2 ^ 63
    → Growth host t n item (grow host t n item)
unfolding grow
grow_table_lem host t n item v h =
    let total : ℕ = n + length t.elements in
    let sum : ltb total usize_mod ≡ true = lt→ltb _ _ (omega (arith, v, limit-le t)) in
    let size : length (resize t.elements total item) ≡ total =
      length-resize t.elements total item (omega arith) in
    elim (Bool-cases (ltb (size_limit t) total)) [
      | inl over ↦ rw (grow, sum, over) (above (ltb→lt _ _ over) refl)
      | inr below ↦ elim (Bool-cases (host.reserves_elements total)) [
        | inl room ↦
            rw (grow, sum, below, room)
              (grew refl
                (omega (arith, size, limit-kind t (resize t.elements total item), ltb→le _ _ below))
                size)
        | inr full ↦ rw (grow, sum, below, full) (no_room full refl)
      ]
    ]
