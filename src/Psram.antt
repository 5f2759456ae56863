-- ===== src/Psram.antt =====
-- mm/allocator.c: the allocator of the external memory.
-- The free list is given by its blocks in order, and `header` by the size that stands in front of
-- each block in use. FREE_BIT, which only marks the blocks of the list, is not in the sizes.
pub mod Disjoint
pub mod Use
mod Tests
use mathlib.Core.Option
use nanos_os.Common.{
  ℕ, ◌+◌, ◌-◌, ◌*◌, ◌/◌, ◌%◌, Bool, true, false, Option, none, some, List, [], ◌∷◌, leb, ◌==◌,
  if◌then◌else◌,
}
use nanos_os.Common.Maps.{update}
use nanos_os.Kernel.{u32_mod}

-- A block in memory, from its header on: `blk_t`
pub record Blk : Type 0 where
  pub addr : ℕ
  pub sz : ℕ

-- `psheap_t`
pub record Psram : Type 0 where
  pub free : List Blk
  pub used : ℕ
  pub header : ℕ → ℕ

abbrev pub psram_base : ℕ
psram_base = 0x3C00_0000

abbrev pub psram_size : ℕ
psram_size = 8 * 1024 * 1024

abbrev pub blk_hdr : ℕ
blk_hdr = 8

-- `mm_psram_init`; the memory that `header` gives is what it was.
unfoldable pub mm_psram_init : (ℕ → ℕ) → Psram
mm_psram_init header = record {
  free = record { addr = psram_base; sz = psram_size } ∷ [];
  used = 0;
  header = header;
}

-- `ALIGN_UP(sz+BLK_HDR,64)`, on 32 bits
unfoldable pub needed : ℕ → ℕ
needed sz = (sz + blk_hdr + 63) % u32_mod / 64 * 64

-- What is put back in the list for a block of which `sz` bytes are taken
unfoldable pub remainder : ℕ → Blk → List Blk → List Blk
remainder sz b rest =
    let r = b.sz - sz in
    if leb (blk_hdr + 64) r then record { addr = b.addr + sz; sz = r } ∷ rest else rest

-- The loop of `k_psram_alloc`: the address of the first block that is large enough, and the list
-- without what is taken from it.
unfoldable pub take_fit : ℕ → List Blk → Option (ℕ × List Blk)
take_fit sz [] = none
take_fit sz (b ∷ bs) =
    let later = Option.map (λ (x : ℕ × List Blk). (x.0, b ∷ x.1)) (take_fit sz bs) in
    if leb sz b.sz then some (b.addr, remainder sz b bs) else later

-- `k_psram_alloc`: the pointer, or none for NULL
unfoldable pub k_psram_alloc : ℕ → Psram → Option ℕ × Psram
k_psram_alloc sz p =
    let n = needed sz in
    elim (take_fit n p.free) [
      | none ↦ (none, p)
      | some x ↦
          let (a, rest) = x in
          (
            some (a + blk_hdr),
            record p { free = rest; used = (p.used + n) % u32_mod; header = update p.header a n },
          )
    ]

-- `k_psram_free` of a pointer that is not NULL
pub k_psram_free : ℕ → Psram → Psram
k_psram_free ptr p =
    let a = ptr - blk_hdr in
    let n = p.header a in
    record p {
      free = record { addr = a; sz = n } ∷ p.free;
      used = (p.used + u32_mod - n) % u32_mod;
    }
