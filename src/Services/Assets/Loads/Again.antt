-- ===== src/Services/Assets/Loads/Again.antt =====
-- An asset that services/services.c loads twice is in the cache the second time.
use nanos_os.Common.{
  ℕ, ◌+◌, ◌-◌, ◌<◌, ◌≡◌, inl, inr, refl, ap, sym, ◌∙◌, true, false, List, none, some, ◌==◌, ==_refl,
  ◌&&◌, get_or, length, length-set, get_or-set_self, arith, All,
}
use nanos_os.Kernel.{u64_mod}
use nanos_os.Services.Assets.{
  no_asset, CacheSlot, no_slot, Assets, asset_find, holds_asset, find_cached, find_evict, release,
  use_slot, load_miss, asset_load,
}
use nanos_os.Services.Assets.Cache.{
  find_cached_found, find_cached-none, find_cached_only, find_cached_again, find_evict_oldest,
}
use nanos_os.Services.Assets.Loads.{
  HasBlock, IsSound, All-set, at_block, release_cases, fill_cases, use_cases, load_cases,
}

-- The asset is in slot `i`, with this block and size.
record IsCached (name : List ℕ) (r : ℕ × ℕ) (s : Assets) : Type 0 where
  pub idx : ℕ
  pub i : ℕ
  pub named : asset_find name 0 s.table ≡ some idx
  pub found : find_cached idx 0 s.cache ≡ some i
  pub block : (get_or s.cache i no_slot).data_ptr ≡ some r.0
  pub size : (get_or s.cache i no_slot).size ≡ r.1

-- Then a load is a hit.
cached_load :
    (now : ℕ) (name : List ℕ) (r : ℕ × ℕ) (s : Assets)
    → IsCached name r s
    → ((asset_load now name s).0 ≡ some r)
      × ((asset_load now name s).1.reads ≡ s.reads)
      × ((asset_load now name s).1.mem ≡ s.mem)
cached_load now name r s c = elim (load_cases now name s) [
  | inl (e, f) ↦ let g : none ≡ some c.idx = sym f ∙ c.named in absurd (cc)
  | inr (idx, e, h) ↦
      let n : some idx ≡ some c.idx = sym e ∙ c.named in
      let m : idx ≡ c.idx = cc in
      elim h [
        | inr (f, g) ↦
            let k : none ≡ some c.i = sym f ∙ ap (λ z. find_cached z 0 s.cache) m ∙ c.found in
            absurd (cc)
        | inl (i, f, g) ↦
            let k : some i ≡ some c.i = sym f ∙ ap (λ z. find_cached z 0 s.cache) m ∙ c.found in
            let j : i ≡ c.i = cc in
            let u = use_cases now c.i s in
            rw (g, j)
              (
                u.1 r.0 c.block ∙ ap (λ z. some (r.0, z)) c.size,
                ap (λ t. t.reads) u.0,
                ap (λ t. t.mem) u.0,
              )
      ]
]

-- A slot that is emptied holds no asset, and the others are as they were.
release_holds :
    (idx i : ℕ) (s : Assets)
    → All (λ c. holds_asset idx c ≡ false) s.cache
    → All (λ c. holds_asset idx c ≡ false) (release i s).cache
release_holds idx i s a = elim (release_cases i s) [
  | inl (e, f) ↦ rw e a
  | inr (p, e) ↦ rw e (All-set (λ c. holds_asset idx c ≡ false) s.cache i _ a refl)
]

release_table : (i : ℕ) (s : Assets) → (release i s).table ≡ s.table
release_table i s = elim (release_cases i s) [ inl (e, f) ↦ rw e refl | inr (p, e) ↦ rw e refl ]

length-release : (i : ℕ) (s : Assets) → length (release i s).cache ≡ length s.cache
length-release i s = elim (release_cases i s) [
  | inl (e, f) ↦ rw e refl
  | inr (p, e) ↦ rw e (length-set s.cache i _)
]

miss-IsCached :
    (now idx : ℕ) (name : List ℕ) (r : ℕ × ℕ) (s : Assets)
    → IsSound s.cache
    → asset_find name 0 s.table ≡ some idx
    → find_cached idx 0 s.cache ≡ none
    → (load_miss now idx s).0 ≡ some r
    → IsCached name r (load_miss now idx s).1
unfolding load_miss
miss-IsCached now idx name r s h n f e =
    let i = find_evict 0 0 (u64_mod - 1) s.cache in
    let v = find_evict_oldest s.cache (omega (arith, h.four)) h.times in
    let l : i < length (release i s).cache = omega (arith, v.0, length-release i s) in
    elim (fill_cases now idx i (get_or s.table idx no_asset) (release i s)) [
      | inl (g, k) ↦ absurd (cc)
      | inr (p, g, t, k) ↦
          let a : some (p, (get_or s.table idx no_asset).size) ≡ some r = sym g ∙ e in
          let b : (p, (get_or s.table idx no_asset).size) ≡ r = cc in
          let w = get_or-set_self (release i s).cache i _ no_slot l in
          record {
            idx = idx;
            i = i;
            named = ap (asset_find name 0) (t ∙ release_table i s) ∙ n;
            found =
                ap (find_cached idx 0) k
                ∙ find_cached_only idx 0 i (release i s).cache _ l
                    (release_holds idx i s (find_cached-none idx 0 s.cache f)) (==_refl idx)
                ∙ ap some (omega arith);
            block =
                ap (λ c. (get_or c i no_slot).data_ptr) k
                ∙ ap (λ c. c.data_ptr) w
                ∙ ap (λ x. some x.0) b;
            size = ap (λ c. (get_or c i no_slot).size) k ∙ ap (λ c. c.size) w ∙ ap (λ x. x.1) b;
          }
    ]

-- A slot that holds an asset has a block.
holds_block :
    (idx : ℕ) (c : CacheSlot)
    → HasBlock c
    → holds_asset idx c ≡ true
    → (p : ℕ) × (c.data_ptr ≡ some p)
holds_block idx c (HasBlock.used p v d) h = (p, d)
holds_block idx c (HasBlock.empty v d) h =
    let e : holds_asset idx c ≡ false = ap (λ b. b && (c.asset_idx == idx)) v in absurd (cc)

hit-IsCached :
    (now idx i : ℕ) (name : List ℕ) (r : ℕ × ℕ) (s : Assets)
    → IsSound s.cache
    → asset_find name 0 s.table ≡ some idx
    → find_cached idx 0 s.cache ≡ some i
    → (use_slot now i s).0 ≡ some r
    → IsCached name r (use_slot now i s).1
hit-IsCached now idx i name r s h n f e =
    let (l, u, g) = find_cached_found idx 0 i s.cache f in
    let z : i - 0 ≡ i = omega arith in
    let held : holds_asset idx (get_or s.cache i no_slot) ≡ true = rw z at g in
    let (p, d) = holds_block idx _ (at_block s.cache i h) held in
    let c = use_cases now i s in
    let m : i < length s.cache = omega (arith, u) in
    let w =
      get_or-set_self s.cache i (record (get_or s.cache i no_slot) { last_used = now }) no_slot m in
    let b : some (p, (get_or s.cache i no_slot).size) ≡ some r = sym (c.1 p d) ∙ e in
    let k : (p, (get_or s.cache i no_slot).size) ≡ r = cc in
    let y : 0 + i ≡ i = omega arith in
    rw c.0 (record {
      idx = idx;
      i = i;
      named = n;
      found = find_cached_again idx 0 i s.cache _ (f ∙ ap some (sym y)) held ∙ ap some y;
      block = ap (λ x. x.data_ptr) w ∙ d ∙ ap (λ x. some x.0) k;
      size = ap (λ x. x.size) w ∙ ap (λ x. x.1) k;
    })

-- When a load at a time below 2^64 gives an asset, from the flash memory or from a cache in which a slot is
-- used when and only when it has a block, the next load of that name at any time gives the same pointer and
-- size, and reads no flash memory and allocates and frees nothing.
pub asset_load_again :
    (now later : ℕ) (name : List ℕ) (r : ℕ × ℕ) (s : Assets)
    → now < u64_mod
    → IsSound s.cache
    → (asset_load now name s).0 ≡ some r
    → ((asset_load later name (asset_load now name s).1).0 ≡ some r)
      × ((asset_load later name (asset_load now name s).1).1.reads
          ≡ (asset_load now name s).1.reads)
      × ((asset_load later name (asset_load now name s).1).1.mem ≡ (asset_load now name s).1.mem)
asset_load_again now later name r s l h e =
    cached_load later name r (asset_load now name s).1 (elim (load_cases now name s) [
      | inl (f, g) ↦ let k : none ≡ some r = sym (ap (λ x. x.0) f) ∙ e in absurd (cc)
      | inr (idx, n, q) ↦ elim q [
        | inl (i, f, g) ↦ rw g (hit-IsCached now idx i name r s h n f (sym (ap (λ x. x.0) g) ∙ e))
        | inr (f, g) ↦ rw g (miss-IsCached now idx name r s h n f (sym (ap (λ x. x.0) g) ∙ e))
      ]
    ])
