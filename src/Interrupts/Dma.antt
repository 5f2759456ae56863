-- ===== src/Interrupts/Dma.antt =====
-- What the DMA descriptors of kernel/isr.c guarantee.
use native.Mathlib.Nat.{mod-eq_of_lt}
use nanos_os.Common.{
  ℕ, zero, suc, ◌+◌, ◌-◌, ◌≡◌, ◌<◌, ◌≤◌, ◌⊎◌, inl, inr, refl, sym, ◌∙◌, Bool, true, false, none,
  some, List, [], ◌∷◌, ◌==◌, leb, ltb, arith, if◌then◌else◌, Bool-cases,
}
use nanos_os.Kernel.{u32_mod}
use nanos_os.Interrupts.{dma_desc_alloc, dma_desc_pool_size, Desc, dma_build_chain}

-- An allocation takes the next `count` descriptors if the pool has as many, and nothing otherwise: what
-- it gives out lies in the pool and behind all that was given out before. The count is such that the
-- sum does not wrap.
pub dma_desc_alloc_lem :
    (count used : ℕ)
    → used ≤ dma_desc_pool_size
    → count < u32_mod - dma_desc_pool_size
    → let (r, used') = dma_desc_alloc count used in
      (used' ≤ dma_desc_pool_size)
      × (((used + count ≤ dma_desc_pool_size) × (r ≡ some used) × (used' ≡ used + count))
          ⊎ ((dma_desc_pool_size < used + count) × (r ≡ none) × (used' ≡ used)))
unfolding dma_desc_alloc
dma_desc_alloc_lem count used u c = ground arith

abbrev pub is_nil {ℓ} : {A : Type ℓ} → List A → Bool
is_nil [] = true
is_nil (x ∷ xs) = false

-- The descriptors, from the one of index `n`, cover the `r` bytes at `p` without gap or overlap, in
-- pieces of at most `max` bytes, linked one after the other. The last one alone is marked as the end
-- and links to nothing.
abbrev pub Covers : ℕ → ℕ → ℕ → ℕ → List Desc → Type 0
Covers max n p r [] = r ≡ 0
Covers max n p r (d ∷ ds) =
    (d.buf ≡ p)
    × (0 < d.len)
    × (d.len ≤ max)
    × (d.size ≡ d.len)
    × (d.owner ≡ true)
    × (d.eof ≡ is_nil ds)
    × (d.next ≡ (if is_nil ds then none else some (n + 1)))
    × (d.len ≤ r)
    × Covers max (n + 1) (p + d.len) (r - d.len) ds

-- There is a descriptor exactly if there are bytes.
Covers-is_nil : (max n p r : ℕ) (ds : List Desc) → Covers max n p r ds → is_nil ds ≡ (r == 0)
Covers-is_nil max n p r [] c = ground (arith, c)
Covers-is_nil max n p r (d ∷ ds) c = ground (arith, c.1, c.7)

-- `dma_build_chain` ends, if its bound exceeds the number of bytes, and its descriptors cover the
-- buffer. The size of a piece is positive and fits into the 12 bits of a descriptor.
pub dma_build_chain-Covers :
    (fuel n ptr total max : ℕ)
    → 0 < max
    → max < 0x1000
    → total < fuel
    → (ds : List Desc) × (dma_build_chain fuel n ptr total max ≡ some ds)
      × Covers max n ptr total ds
unfolding dma_build_chain
dma_build_chain-Covers zero n ptr total max pos fit l = absurd (omega arith)
dma_build_chain-Covers (suc f) n ptr total max pos fit l = elim (Bool-cases (total == 0)) [
  | inl z ↦ ([], rw (z) refl, ground arith)
  | inr z ↦ elim (Bool-cases (ltb max total)) [
    | inl more ↦
        let (ds, e, c) =
          dma_build_chain-Covers f (n + 1) (ptr + max) (total - max) max pos fit (ground arith) in
        let end : is_nil ds ≡ false =
          Covers-is_nil max (n + 1) (ptr + max) (total - max) ds c ∙ ground arith in
        let no_eof : leb total max ≡ false = ground arith in
        (
          record {
            size = max;
            len = max;
            eof = false;
            owner = true;
            buf = ptr;
            next = some (n + 1);
          }
              ∷ ds,
          rw (z, more, mod-eq_of_lt fit, no_eof, e) (rw (more) refl),
          (refl, pos, omega arith, refl, refl, sym end, rw (end) refl, ground arith, c),
        )
    | inr last ↦
        let (ds, e, c) =
          dma_build_chain-Covers f (n + 1) (ptr + total) (total - total) max pos fit
            (ground arith) in
        let end : is_nil ds ≡ true =
          Covers-is_nil max (n + 1) (ptr + total) (total - total) ds c ∙ ground arith in
        let whole : leb total max ≡ true = ground arith in
        let no_next : ltb total total ≡ false = ground arith in
        let small : total < 0x1000 = ground arith in
        (
          record { size = total; len = total; eof = true; owner = true; buf = ptr; next = none }
              ∷ ds,
          rw (z, last, mod-eq_of_lt small, whole, no_next, e) refl,
          (refl, ground arith, ground arith, refl, refl, sym end, rw (end) refl, omega arith, c),
        )
  ]
]
