-- ===== src/Services/Assets/Loads.antt =====
-- The loads of an asset in services/services.c: what the cache keeps, and loading twice.
pub mod Again
use nanos_os.Common.{
  ℕ, zero, suc, ◌+◌, ◌-◌, ◌≤◌, ◌<◌, ◌≡◌, ◌≢◌, ◌⊎◌, inl, inr, refl, ap, sym, subst, ◌∙◌, Bool, true,
  false, List, [], ◌∷◌, ◌++◌, Option, none, some, ◌==◌, ==_refl, ◌&&◌, if◌then◌else◌, get_or, set,
  length, length-set, get_or-set_self, arith, Bool-cases, Option-cases, All, All-map,
}
use nanos_os.Kernel.{u64_mod}
use nanos_os.Psram.{Psram, k_psram_alloc, k_psram_free}
use nanos_os.Services.Assets.{
  AssetEntry, no_asset, CacheSlot, no_slot, Assets, asset_base, asset_find, holds_asset,
  find_cached, find_evict, release, fill_slot, use_slot, load_miss, asset_load, asset_evict,
  drop_slot,
}
use nanos_os.Services.Assets.Cache.{
  find_cached_found, find_cached-none, find_cached_only, find_cached_again, find_evict_oldest,
}

-- A slot is used when and only when it has a block.
pub data HasBlock (c : CacheSlot) : Type 0 where
  used : (p : ℕ) → c.valid ≡ true → c.data_ptr ≡ some p → HasBlock c
  empty : c.valid ≡ false → c.data_ptr ≡ none → HasBlock c

pub record IsSound (cs : List CacheSlot) : Type 0 where
  pub four : length cs ≡ 4
  pub times : All (λ c. c.last_used < u64_mod) cs
  pub blocks : All HasBlock cs

pub All-set :
    (P : CacheSlot → Type 0) (cs : List CacheSlot) (i : ℕ) (c : CacheSlot)
    → All P cs
    → P c
    → All P (set cs i c)
All-set P [] i c a h = tt
All-set P (d ∷ cs) zero c a h = (h, a.1)
All-set P (d ∷ cs) (suc i) c a h = (a.0, All-set P cs i c a.1 h)

All-get_or :
    (P : CacheSlot → Type 0) (cs : List CacheSlot) (i : ℕ)
    → All P cs
    → P no_slot
    → P (get_or cs i no_slot)
All-get_or P [] i a h = h
All-get_or P (d ∷ cs) zero a h = a.0
All-get_or P (d ∷ cs) (suc i) a h = All-get_or P cs i a.1 h

set-IsSound :
    (cs : List CacheSlot) (i : ℕ) (c : CacheSlot)
    → IsSound cs
    → c.last_used < u64_mod
    → HasBlock c
    → IsSound (set cs i c)
set-IsSound cs i c s t b = record {
  four = length-set cs i c ∙ s.four;
  times = All-set (λ d. d.last_used < u64_mod) cs i c s.times t;
  blocks = All-set HasBlock cs i c s.blocks b;
}

pub at_time : (cs : List CacheSlot) (i : ℕ) → IsSound cs → (get_or cs i no_slot).last_used < u64_mod
at_time cs i s = All-get_or (λ d. d.last_used < u64_mod) cs i s.times (omega arith)

pub at_block : (cs : List CacheSlot) (i : ℕ) → IsSound cs → HasBlock (get_or cs i no_slot)
at_block cs i s = All-get_or HasBlock cs i s.blocks (empty refl refl)

-- Releasing a slot
pub release_cases :
    (i : ℕ) (s : Assets)
    → ((release i s ≡ s) × ((get_or s.cache i no_slot).data_ptr ≡ none))
      ⊎ ((p : ℕ) × (release i s ≡ record s {
        cache =
            set s.cache i (record (get_or s.cache i no_slot) { data_ptr = none; valid = false });
        mem = k_psram_free p s.mem;
      }))
unfolding release
release_cases i s = elim (Option-cases (get_or s.cache i no_slot).data_ptr) [
  | inl e ↦ inl (rw (release, e) refl, e)
  | inr (p, e) ↦ inr (p, rw (release, e) refl)
]

pub release-IsSound : (i : ℕ) (s : Assets) → IsSound s.cache → IsSound (release i s).cache
release-IsSound i s h = elim (release_cases i s) [
  | inl (e, f) ↦ rw e h
  | inr (p, e) ↦ rw e (set-IsSound s.cache i _ h (at_time s.cache i h) (empty refl refl))
]

-- What the allocation says decides how a slot is filled.
pub fill_cases :
    (now idx i : ℕ) (e : AssetEntry) (s : Assets)
    → ((fill_slot now idx i e s).0 ≡ none) × ((fill_slot now idx i e s).1.cache ≡ s.cache)
      ⊎ ((p : ℕ) × ((fill_slot now idx i e s).0 ≡ some (p, e.size))
          × ((fill_slot now idx i e s).1.table ≡ s.table)
          × ((fill_slot now idx i e s).1.cache
              ≡ set s.cache i (record {
                asset_idx = idx;
                data_ptr = some p;
                size = e.size;
                last_used = now;
                valid = true;
              })))
unfolding fill_slot
fill_cases now idx i e s = elim (Option-cases (k_psram_alloc e.size s.mem).0) [
  | inl f ↦ inl (rw (fill_slot, f) refl, rw (fill_slot, f) refl)
  | inr (p, f) ↦ inr (p, rw (fill_slot, f) refl, rw (fill_slot, f) refl, rw (fill_slot, f) refl)
]

fill-IsSound :
    (now idx i : ℕ) (e : AssetEntry) (s : Assets)
    → now < u64_mod
    → IsSound s.cache
    → IsSound (fill_slot now idx i e s).1.cache
fill-IsSound now idx i e s l h = elim (fill_cases now idx i e s) [
  | inl (f, g) ↦ rw g h
  | inr (p, f, t, g) ↦ rw g (set-IsSound s.cache i _ h l (used p refl refl))
]

-- A hit
pub use_cases :
    (now i : ℕ) (s : Assets)
    → ((use_slot now i s).1 ≡ record s {
      cache = set s.cache i (record (get_or s.cache i no_slot) { last_used = now });
    })
      × ((p : ℕ)
          → (get_or s.cache i no_slot).data_ptr ≡ some p
          → (use_slot now i s).0 ≡ some (p, (get_or s.cache i no_slot).size))
unfolding use_slot
use_cases now i s = (refl, λ p e. rw (use_slot, e) refl)

touched_HasBlock : (now : ℕ) (c : CacheSlot) → HasBlock c → HasBlock (record c { last_used = now })
touched_HasBlock now c (used p v d) = used p v d
touched_HasBlock now c (empty v d) = empty v d

use-IsSound :
    (now i : ℕ) (s : Assets) → now < u64_mod → IsSound s.cache → IsSound (use_slot now i s).1.cache
use-IsSound now i s l h =
    rw (use_cases now i s).0
      (set-IsSound s.cache i _ h l (touched_HasBlock now _ (at_block s.cache i h)))

pub load_cases :
    (now : ℕ) (name : List ℕ) (s : Assets)
    → ((asset_load now name s ≡ (none, s)) × (asset_find name 0 s.table ≡ none))
      ⊎ ((idx : ℕ) × (asset_find name 0 s.table ≡ some idx)
          × (((i : ℕ) × (find_cached idx 0 s.cache ≡ some i)
                × (asset_load now name s ≡ use_slot now i s))
              ⊎ ((find_cached idx 0 s.cache ≡ none)
                  × (asset_load now name s ≡ load_miss now idx s))))
unfolding asset_load
load_cases now name s = elim (Option-cases (asset_find name 0 s.table)) [
  | inl e ↦ inl (rw (asset_load, e) refl, e)
  | inr (idx, e) ↦ elim (Option-cases (find_cached idx 0 s.cache)) [
    | inl f ↦ inr (idx, e, inr (f, rw (asset_load, e, f) refl))
    | inr (i, f) ↦ inr (idx, e, inl (i, f, rw (asset_load, e, f) refl))
  ]
]

-- A load, at a time below 2^64, keeps the four slots such that a slot is used when and only when it has a block,
-- whether the asset is found in the cache, in the flash memory or not at all, and when there is no memory
-- for it, too.
pub asset_load-IsSound :
    (now : ℕ) (name : List ℕ) (s : Assets)
    → now < u64_mod
    → IsSound s.cache
    → IsSound (asset_load now name s).1.cache
unfolding load_miss
asset_load-IsSound now name s l h = elim (load_cases now name s) [
  | inl (e, f) ↦ rw e h
  | inr (idx, e, r) ↦ elim r [
    | inl (i, f, g) ↦ rw g (use-IsSound now i s l h)
    | inr (f, g) ↦ rw g (fill-IsSound now idx _ _ (release _ s) l (release-IsSound _ s h))
  ]
]

-- `asset_evict` keeps the four slots such that a slot is used when and only when it has a block.
asset_evict-IsSound :
    (name : List ℕ) (s : Assets) → IsSound s.cache → IsSound (asset_evict name s).cache
unfolding asset_evict drop_slot
asset_evict-IsSound name s h = elim (Option-cases (asset_find name 0 s.table)) [
  | inl e ↦ rw (asset_evict, e) h
  | inr (idx, e) ↦ elim (Option-cases (find_cached idx 0 s.cache)) [
    | inl f ↦ rw (asset_evict, e, f) h
    | inr (i, f) ↦
        rw (asset_evict, e, f) (set-IsSound s.cache i _ h (at_time s.cache i h) (empty refl refl))
  ]
]
