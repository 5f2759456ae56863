-- ===== src/Nfs.antt =====
-- fs/nfs.c: the block cache, the allocation of blocks, and files.
-- The flash memory is behind the ROM's routines: `flash b` are the bytes of the block `b`, from the
-- address `b2a(b)` on, erasing and writing a block are taken to succeed, as the code does not look at
-- their results, and a read may fail. `k_time_ms()` is an argument.
pub mod Lookup
pub mod Cache
pub mod Eviction
pub mod Store
pub mod Blocks
pub mod Files
pub mod Writing
mod Tests
use mathlib.Core.Option
use nanos_os.Common.{
  ℕ, suc, ◌+◌, ◌-◌, Bool, true, false, List, [], ◌∷◌, ◌%◌, ◌==◌, ◌&&◌, ltb, Option, none, some,
  get_or, set, if◌then◌else◌,
}
use nanos_os.Common.Maps.{update}
use nanos_os.Kernel.{u32_mod, u64_mod}

-- `ce_t`; `buf` is what the buffer of the entry holds.
pub record Entry : Type 0 where
  pub blk : ℕ
  pub dirty : Bool
  pub valid : Bool
  pub lu : ℕ
  pub buf : List ℕ

-- What is read where there is no entry
abbrev pub no_entry : Entry
no_entry = record { blk = 0; dirty = false; valid = false; lu = 0; buf = [] }

-- The cache `s_cache`, the counters, and the flash memory
pub record Disk : Type 0 where
  pub cache : List Entry
  pub flash : ℕ → List ℕ
  pub reads : ℕ
  pub writes : ℕ
  pub erases : ℕ
  pub hits : ℕ
  pub miss : ℕ

-- What `nfs_mount` does to the entries
pub reset_cache : List Entry → List Entry
reset_cache [] = []
reset_cache (e ∷ es) = record e { valid = false } ∷ reset_cache es

-- `s_cache[i].valid&&s_cache[i].blk==b`
pub holds : ℕ → Entry → Bool
holds b e = e.valid && (e.blk == b)

-- The index of the entry that `cfind` gives
pub cfind : ℕ → List Entry → Option ℕ
cfind b [] = none
cfind b (e ∷ es) = if holds b e then some 0 else Option.map suc (cfind b es)

-- The loop of `cevict`, from the entry `i` on: the index of the first entry that is not valid, or of
-- the one used longest ago.
pub oldest : ℕ → ℕ → ℕ → List Entry → ℕ
oldest i best ot [] = best
oldest i best ot (e ∷ es) =
    let later = if ltb e.lu ot then oldest (i + 1) i e.lu es else oldest (i + 1) best ot es in
    if e.valid then later else i

abbrev pub victim : List Entry → ℕ
victim es = oldest 0 0 (0x1_0000_0000_0000_0000 - 1) es

-- `cevict` writes the entry back if it is to be evicted and dirty.
pub write_back : ℕ → Disk → Disk
write_back n d =
    let e = get_or d.cache n no_entry in
    if e.valid && e.dirty
    then record d {
      cache = set d.cache n (record e { dirty = false });
      flash = update d.flash e.blk e.buf;
      erases = (d.erases + 1) % u32_mod;
    }
    else d

-- The index of the entry that `cevict` gives, and the disk then
pub cevict : Disk → ℕ × Disk
cevict d = let n = victim d.cache in (n, write_back n d)

-- `rblk` on a miss. `unread` is what the buffer holds if the read of the flash memory fails.
pub rblk_miss : Option (List ℕ) → ℕ → ℕ → Disk → Option (List ℕ) × Disk
rblk_miss unread now b d =
    let (n, d') = cevict (record d { miss = (d.miss + 1) % u32_mod }) in
    let e = get_or d'.cache n no_entry in
    let r = (d'.reads + 1) % u32_mod in
    elim unread [
      | some junk ↦
          (none, record d' { cache = set d'.cache n (record e { buf = junk }); reads = r })
      | none ↦
          let bytes = d'.flash b in
          let e' : Entry = record { blk = b; dirty = false; valid = true; lu = now; buf = bytes } in
          (some bytes, record d' { cache = set d'.cache n e'; reads = r })
    ]

-- `rblk`: the block read, or none if it returns an error
pub rblk : Option (List ℕ) → ℕ → ℕ → Disk → Option (List ℕ) × Disk
rblk unread now b d = elim (cfind b d.cache) [
  | none ↦ rblk_miss unread now b d
  | some n ↦
      let e = get_or d.cache n no_entry in
      (
        some e.buf,
        record d { cache = set d.cache n (record e { lu = now }); hits = (d.hits + 1) % u32_mod },
      )
]

-- `wblk` at the entry `n`
put_block : ℕ → ℕ → ℕ → List ℕ → Disk → Disk
put_block n now b bytes d = record d {
  cache = set d.cache n (record { blk = b; dirty = true; valid = true; lu = now; buf = bytes });
  writes = (d.writes + 1) % u32_mod;
}

pub wblk : ℕ → ℕ → List ℕ → Disk → Disk
wblk now b bytes d = elim (cfind b d.cache) [
  | some n ↦ put_block n now b bytes d
  | none ↦ let (n, d') = cevict d in put_block n now b bytes d'
]
