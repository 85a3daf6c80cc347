-- ===== src/Memory/PagedMemory/Flat.antt =====
-- The bytes that a list of chunks stands for: an absent chunk is all zero.
use tinywasm.Prelude.{
  ℕ, zero, suc, ◌+◌, ◌*◌, ◌≤◌, ◌<◌, ◌≡◌, refl, sym, ap, ◌∙◌, Option, none, some, List, [], ◌∷◌,
  ◌++◌, length, get_or, set, replicate, overwrite, slice, arith, length-append, length-replicate,
  overwrite-append_left, overwrite-append_right, slice-append_left, slice-append_right,
  replicate-append, append_assoc,
}

abbrev pub chunk_bytes : ℕ → Option (List ℕ) → List ℕ
chunk_bytes cs none = replicate cs 0
chunk_bytes cs (some chunk) = chunk

abbrev pub flat : ℕ → List (Option (List ℕ)) → List ℕ
flat cs [] = []
flat cs (c ∷ chunks) = chunk_bytes cs c ++ flat cs chunks

-- Every chunk has its full size.
abbrev pub AllFull : ℕ → List (Option (List ℕ)) → Type 0
AllFull cs [] = Unit {0}
AllFull cs (c ∷ chunks) = (length (chunk_bytes cs c) ≡ cs) × AllFull cs chunks

pub length-flat :
    (cs : ℕ) (chunks : List (Option (List ℕ)))
    → AllFull cs chunks
    → length (flat cs chunks) ≡ length chunks * cs
length-flat cs [] h = omega arith
length-flat cs (c ∷ chunks) h =
    omega (arith, length-append (chunk_bytes cs c) (flat cs chunks), h.0, length-flat cs chunks h.1)

pub AllFull-at :
    (cs : ℕ) (chunks : List (Option (List ℕ))) (q : ℕ)
    → AllFull cs chunks
    → q < length chunks
    → length (chunk_bytes cs (get_or chunks q none)) ≡ cs
AllFull-at cs [] q h p = absurd (omega arith)
AllFull-at cs (c ∷ chunks) zero h p = h.0
AllFull-at cs (c ∷ chunks) (suc q) h p = AllFull-at cs chunks q h.1 (omega arith)

pub AllFull-set :
    (cs : ℕ) (chunks : List (Option (List ℕ))) (q : ℕ) (c : Option (List ℕ))
    → AllFull cs chunks
    → length (chunk_bytes cs c) ≡ cs
    → AllFull cs (set chunks q c)
AllFull-set cs [] q c h e = tt
AllFull-set cs (d ∷ chunks) zero c h e = (e, h.1)
AllFull-set cs (d ∷ chunks) (suc q) c h e = (h.0, AllFull-set cs chunks q c h.1 e)

pub AllFull-append :
    (cs : ℕ) (xs ys : List (Option (List ℕ)))
    → AllFull cs xs
    → AllFull cs ys
    → AllFull cs (xs ++ ys)
AllFull-append cs [] ys hx hy = hy
AllFull-append cs (c ∷ xs) ys hx hy = (hx.0, AllFull-append cs xs ys hx.1 hy)

pub AllFull-none : (cs n : ℕ) → AllFull cs (replicate n none)
AllFull-none cs zero = tt
AllFull-none cs (suc n) = (length-replicate cs 0, AllFull-none cs n)

pub flat-append :
    (cs : ℕ) (xs ys : List (Option (List ℕ))) → flat cs (xs ++ ys) ≡ flat cs xs ++ flat cs ys
flat-append cs [] ys = refl
flat-append cs (c ∷ xs) ys =
    ap (λ t. chunk_bytes cs c ++ t) (flat-append cs xs ys)
    ∙ sym (append_assoc (chunk_bytes cs c) (flat cs xs) (flat cs ys))

pub flat-none : (cs n : ℕ) → flat cs (replicate n none) ≡ replicate (n * cs) 0
flat-none cs zero = ap (λ (t : ℕ). replicate {A = ℕ} t 0) {x = 0} {y = 0 * cs} (omega arith)
flat-none cs (suc n) =
    ap (λ t. replicate cs 0 ++ t) (flat-none cs n)
    ∙ replicate-append cs (n * cs) 0
    ∙ ap (λ (t : ℕ). replicate {A = ℕ} t 0) {x = cs + n * cs} {y = suc n * cs} (omega arith)

-- The address `q * cs + r` behind the first chunk.
past_first : (cs q r k : ℕ) → k ≡ cs → suc q * cs + r ≡ k + (q * cs + r)
past_first cs q r k e = omega arith

-- Reads and writes inside chunk `q`, from its byte `r`.
pub slice-flat :
    (cs : ℕ) (chunks : List (Option (List ℕ))) (q r n : ℕ)
    → AllFull cs chunks
    → q < length chunks
    → r + n ≤ cs
    → slice (flat cs chunks) (q * cs + r) n ≡ slice (chunk_bytes cs (get_or chunks q none)) r n
slice-flat cs [] q r n h p k = absurd (omega arith)
slice-flat cs (c ∷ chunks) zero r n h p k =
    ap (λ (t : ℕ). slice (flat cs (c ∷ chunks)) t n) {x = 0 * cs + r} {y = r} (omega arith)
    ∙ slice-append_left (chunk_bytes cs c) (flat cs chunks) r n (omega (arith, h.0))
slice-flat cs (c ∷ chunks) (suc q) r n h p k =
    ap (λ (t : ℕ). slice (flat cs (c ∷ chunks)) t n) (past_first cs q r _ h.0)
    ∙ slice-append_right (chunk_bytes cs c) (flat cs chunks) (q * cs + r) n
    ∙ slice-flat cs chunks q r n h.1 (omega arith) k

pub flat-set :
    (cs : ℕ) (chunks : List (Option (List ℕ))) (q r : ℕ) (xs : List ℕ) (c : Option (List ℕ))
    → AllFull cs chunks
    → q < length chunks
    → r + length xs ≤ cs
    → chunk_bytes cs c ≡ overwrite (chunk_bytes cs (get_or chunks q none)) r xs
    → flat cs (set chunks q c) ≡ overwrite (flat cs chunks) (q * cs + r) xs
flat-set cs [] q r xs c h p k e = absurd (omega arith)
flat-set cs (d ∷ chunks) zero r xs c h p k e =
    ap (λ t. t ++ flat cs chunks) e
    ∙ sym (overwrite-append_left (chunk_bytes cs d) (flat cs chunks) r xs (omega (arith, h.0)))
    ∙ ap (λ (t : ℕ). overwrite (flat cs (d ∷ chunks)) t xs) {x = r} {y = 0 * cs + r} (omega arith)
flat-set cs (d ∷ chunks) (suc q) r xs c h p k e =
    ap (λ t. chunk_bytes cs d ++ t) (flat-set cs chunks q r xs c h.1 (omega arith) k e)
    ∙ sym (overwrite-append_right (chunk_bytes cs d) (flat cs chunks) (q * cs + r) xs)
    ∙ ap (λ (t : ℕ). overwrite (flat cs (d ∷ chunks)) t xs) (sym (past_first cs q r _ h.0))
