-- ===== src/Services/Assets.antt =====
-- services/services.c, the asset manager: assets read from the flash memory into a cache of four slots.
-- A read of the flash memory, which is other code, is given by its address, its target and its length.
-- The name of an asset in the table is given by its bytes before the NUL, 48 at most.
pub mod Cache
pub mod Loads
use mathlib.Core.Option
use nanos_os.Common.{
  ℕ, zero, suc, ◌+◌, ◌-◌, Bool, true, false, List, [], ◌∷◌, ◌++◌, Option, none, some, ltb, ◌==◌,
  ◌&&◌, if◌then◌else◌, get_elem?, get_or, set, take, replicate,
}
use nanos_os.Common.Strings.{str_eq}
use nanos_os.Kernel.{u64_mod}
use nanos_os.Psram.{Psram, k_psram_alloc, k_psram_free}

-- `asset_entry_t`, as far as it is used
pub record AssetEntry : Type 0 where
  pub name : List ℕ
  pub offset : ℕ
  pub size : ℕ

-- `asset_cache_slot_t`
pub record CacheSlot : Type 0 where
  pub asset_idx : ℕ
  pub data_ptr : Option ℕ
  pub size : ℕ
  pub last_used : ℕ
  pub valid : Bool

pub record Assets : Type 0 where
  pub table : List AssetEntry
  pub cache : List CacheSlot
  pub mem : Psram
  pub reads : List (ℕ × ℕ × ℕ)

-- `ASSET_PARTITION_OFFSET`
abbrev pub asset_base : ℕ
asset_base = 0xA0_0000

abbrev pub no_slot : CacheSlot
no_slot = record { asset_idx = 0; data_ptr = none; size = 0; last_used = 0; valid = false }

-- `asset_manager_init`, with the header and the entries that the flash memory gives
unfoldable pub asset_manager_init : ℕ → ℕ → List AssetEntry → Psram → Assets
asset_manager_init magic count entries mem = record {
  table = if magic == 0x4153_5354 then take (if ltb count 256 then count else 256) entries else [];
  cache = replicate 4 no_slot;
  mem = mem;
  reads = [];
}

-- `strncmp(..., 48) == 0` in `asset_find`, and its loop
unfoldable pub asset_find : List ℕ → ℕ → List AssetEntry → Option ℕ
asset_find name i [] = none
asset_find name i (e ∷ es) =
    let rest = asset_find name (suc i) es in if str_eq e.name (take 48 name) then some i else rest

abbrev pub holds_asset : ℕ → CacheSlot → Bool
holds_asset idx c = c.valid && (c.asset_idx == idx)

-- The loops over the cache in `asset_load` and `asset_evict`: the first slot that holds the asset
unfoldable pub find_cached : ℕ → ℕ → List CacheSlot → Option ℕ
find_cached idx i [] = none
find_cached idx i (c ∷ cs) =
    let rest = find_cached idx (suc i) cs in if holds_asset idx c then some i else rest

-- The loop of `asset_load` that chooses the slot to evict
unfoldable pub find_evict : ℕ → ℕ → ℕ → List CacheSlot → ℕ
find_evict i evict oldest [] = evict
find_evict i evict oldest (c ∷ cs) =
    let older = find_evict (suc i) i c.last_used cs in
    let rest = find_evict (suc i) evict oldest cs in
    if c.valid then if ltb c.last_used oldest then older else rest else i

-- The slot is emptied, and its block goes back to the external memory.
unfoldable pub release : ℕ → Assets → Assets
release i s =
    let c = get_or s.cache i no_slot in
    elim c.data_ptr [
      | none ↦ s
      | some p ↦ record s {
        cache = set s.cache i (record c { data_ptr = none; valid = false });
        mem = k_psram_free p s.mem;
      }
    ]

-- An asset of the table that is not in the cache is loaded into slot `i`.
unfoldable pub fill_slot : ℕ → ℕ → ℕ → AssetEntry → Assets → Option (ℕ × ℕ) × Assets
fill_slot now idx i e s = elim (k_psram_alloc e.size s.mem).0 [
  | none ↦ (none, record s { mem = (k_psram_alloc e.size s.mem).1 })
  | some p ↦ (
    some (p, e.size),
    record s {
      mem = (k_psram_alloc e.size s.mem).1;
      reads = s.reads ++ (asset_base + e.offset, p, e.size) ∷ [];
      cache = set s.cache i (record {
        asset_idx = idx;
        data_ptr = some p;
        size = e.size;
        last_used = now;
        valid = true;
      });
    },
  )
]

abbrev pub no_asset : AssetEntry
no_asset = record { name = []; offset = 0; size = 0 }

-- A hit: the slot is used now.
unfoldable pub use_slot : ℕ → ℕ → Assets → Option (ℕ × ℕ) × Assets
use_slot now i s =
    let c = get_or s.cache i no_slot in
    (
      Option.map (λ p. (p, c.size)) c.data_ptr,
      record s { cache = set s.cache i (record c { last_used = now }) },
    )

unfoldable pub load_miss : ℕ → ℕ → Assets → Option (ℕ × ℕ) × Assets
load_miss now idx s =
    let i = find_evict 0 0 (u64_mod - 1) s.cache in
    fill_slot now idx i (get_or s.table idx no_asset) (release i s)

-- `asset_load` at the time `now`: the pointer and the size, or none for NULL
unfoldable pub asset_load : ℕ → List ℕ → Assets → Option (ℕ × ℕ) × Assets
asset_load now name s = elim (asset_find name 0 s.table) [
  | none ↦ (none, s)
  | some idx ↦ elim (find_cached idx 0 s.cache) [
    | some i ↦ use_slot now i s
    | none ↦ load_miss now idx s
  ]
]

abbrev pub free_block : Option ℕ → Psram → Psram
free_block none mem = mem
free_block (some p) mem = k_psram_free p mem

-- The slot that `asset_evict` has found is emptied.
unfoldable pub drop_slot : ℕ → Assets → Assets
drop_slot i s =
    let c = get_or s.cache i no_slot in
    record s {
      cache = set s.cache i (record c { data_ptr = none; valid = false });
      mem = free_block c.data_ptr s.mem;
    }

-- `asset_evict`
unfoldable pub asset_evict : List ℕ → Assets → Assets
asset_evict name s = elim (asset_find name 0 s.table) [
  | none ↦ s
  | some idx ↦ elim (find_cached idx 0 s.cache) [ none ↦ s | some i ↦ drop_slot i s ]
]
