-- ===== src/Services/Assets/Cache.antt =====
-- The slots of the asset cache in services/services.c: which is found and which is evicted.
use nanos_os.Common.{
  ℕ, zero, suc, ◌+◌, ◌-◌, ◌≤◌, ◌<◌, ◌≡◌, ◌⊎◌, inl, inr, refl, sym, ◌∙◌, true, false, List, [], ◌∷◌,
  none, some, ltb, get_or, set, length, arith, Bool-cases, All, if_true, if_false, subst,
}
use nanos_os.Kernel.{u64_mod}
use nanos_os.Services.Assets.{CacheSlot, no_slot, holds_asset, find_cached, find_evict}

-- A slot that is found holds the asset, and none before it does.
pub find_cached_found :
    (idx i k : ℕ) (cs : List CacheSlot)
    → find_cached idx i cs ≡ some k
    → (i ≤ k) × (k < i + length cs) × (holds_asset idx (get_or cs (k - i) no_slot) ≡ true)
unfolding find_cached
find_cached_found idx i k [] e = absurd (cc)
find_cached_found idx i k (c ∷ cs) e = elim (Bool-cases (holds_asset idx c)) [
  | inl f ↦
      let g : some i ≡ some k = rw f at e in
      let h : i ≡ k = cc in let z : k - i ≡ 0 = omega arith in (omega arith, omega arith, rw z f)
  | inr f ↦
      let (l, u, h) = find_cached_found idx (suc i) k cs (rw f at e) in
      let z : k - i ≡ suc (k - suc i) = omega arith in (omega arith, omega arith, rw z h)
]

-- A slot that is not found does not hold the asset.
pub find_cached-none :
    (idx i : ℕ) (cs : List CacheSlot)
    → find_cached idx i cs ≡ none
    → All (λ c. holds_asset idx c ≡ false) cs
unfolding find_cached
find_cached-none idx i [] e = tt
find_cached-none idx i (c ∷ cs) e = elim (Bool-cases (holds_asset idx c)) [
  | inl f ↦ let g : some i ≡ none = rw f at e in absurd (cc)
  | inr f ↦ (f, find_cached-none idx (suc i) cs (rw f at e))
]

-- The only slot that holds the asset is found.
pub find_cached_only :
    (idx i k : ℕ) (cs : List CacheSlot) (c : CacheSlot)
    → k < length cs
    → All (λ d. holds_asset idx d ≡ false) cs
    → holds_asset idx c ≡ true
    → find_cached idx i (set cs k c) ≡ some (i + k)
unfolding find_cached
find_cached_only idx i k [] c l a h = absurd (omega arith)
find_cached_only idx i zero (d ∷ cs) c l a h =
    let z : i + 0 ≡ i = omega arith in rw (find_cached, h, z) refl
find_cached_only idx i (suc k) (d ∷ cs) c l a h =
    let z : i + suc k ≡ suc i + k = omega arith in
    rw (find_cached, a.0, z) (find_cached_only idx (suc i) k cs c (omega arith) a.1 h)

-- Finding again after a slot that holds the asset has been replaced by another that does
pub find_cached_again :
    (idx i k : ℕ) (cs : List CacheSlot) (c : CacheSlot)
    → find_cached idx i cs ≡ some (i + k)
    → holds_asset idx c ≡ true
    → find_cached idx i (set cs k c) ≡ some (i + k)
unfolding find_cached
find_cached_again idx i k [] c e h = absurd (cc)
find_cached_again idx i zero (d ∷ cs) c e h =
    let z : i + 0 ≡ i = omega arith in rw (find_cached, h, z) refl
find_cached_again idx i (suc k) (d ∷ cs) c e h = elim (Bool-cases (holds_asset idx d)) [
  | inl f ↦
      let g : some i ≡ some (i + suc k) = rw f at e in
      let n : i ≡ i + suc k = cc in absurd (omega arith)
  | inr f ↦
      let z : i + suc k ≡ suc i + k = omega arith in
      rw (find_cached, f, z) (find_cached_again idx (suc i) k cs c (rw z at (rw f at e)) h)
]

abbrev pub NoneOlder : ℕ → List CacheSlot → Type 0
NoneOlder m cs = All (λ c. (c.valid ≡ true) × (m ≤ c.last_used)) cs

-- The slot is one that is not used, or all slots are used and none is older than it.
abbrev pub IsVictim : List CacheSlot → ℕ → Type 0
IsVictim cs v =
    (v < length cs)
    × (((get_or cs v no_slot).valid ≡ false) ⊎ NoneOlder (get_or cs v no_slot).last_used cs)

NoneOlder-weaken : (l m : ℕ) (cs : List CacheSlot) → l ≤ m → NoneOlder m cs → NoneOlder l cs
NoneOlder-weaken l m [] h a = tt
NoneOlder-weaken l m (c ∷ cs) h a = ((a.0.0, omega (arith, a.0.1)), NoneOlder-weaken l m cs h a.1)

-- What the loop finds in the slots from `i` on: one that is not used, or none that is older than
-- `oldest`, or the oldest of them.
pub data Choice (i evict oldest : ℕ) (cs : List CacheSlot) (v : ℕ) : Type 0 where
  free :
      (k : ℕ)
      → v ≡ i + k
      → k < length cs
      → (get_or cs k no_slot).valid ≡ false
      → Choice i evict oldest cs v
  kept : v ≡ evict → NoneOlder oldest cs → Choice i evict oldest cs v
  older :
      (k m : ℕ)
      → v ≡ i + k
      → k < length cs
      → m ≡ (get_or cs k no_slot).last_used
      → m < oldest
      → NoneOlder m cs
      → Choice i evict oldest cs v

module _ (i evict oldest : ℕ) (c : CacheSlot) (cs : List CacheSlot) where
  evict_free : c.valid ≡ false → Choice i evict oldest (c ∷ cs) (find_evict i evict oldest (c ∷ cs))
  unfolding find_evict
  evict_free f =
      subst (Choice i evict oldest (c ∷ cs)) (sym (if_false _ _ f))
        (free 0 (omega arith) (omega arith) f)

  first :
      {v : ℕ}
      → c.valid ≡ true
      → ltb c.last_used oldest ≡ true
      → Choice (suc i) i c.last_used cs v
      → Choice i evict oldest (c ∷ cs) v
  first f g (free k e u h) = free (suc k) (omega (arith, e)) (omega arith) h
  first f g (kept e a) =
      older 0 c.last_used (omega (arith, e)) (omega arith) refl (ground arith) ((f, omega arith), a)
  first f g (older k m e u h l a) =
      older (suc k) m (omega (arith, e)) (omega arith) h (ground arith) ((f, omega arith), a)

  second :
      {v : ℕ}
      → c.valid ≡ true
      → ltb c.last_used oldest ≡ false
      → Choice (suc i) evict oldest cs v
      → Choice i evict oldest (c ∷ cs) v
  second f g (free k e u h) = free (suc k) (omega (arith, e)) (omega arith) h
  second f g (kept e a) = kept e ((f, ground arith), a)
  second f g (older k m e u h l a) =
      let b : oldest ≤ c.last_used = ground arith in
      older (suc k) m (omega (arith, e)) (omega arith) h l ((f, omega arith), a)

find_evict-Choice :
    (i evict oldest : ℕ) (cs : List CacheSlot)
    → Choice i evict oldest cs (find_evict i evict oldest cs)
unfolding find_evict
find_evict-Choice i evict oldest [] = kept refl tt
find_evict-Choice i evict oldest (c ∷ cs) = elim (Bool-cases c.valid) [
  | inr f ↦ evict_free i evict oldest c cs f
  | inl f ↦ elim (Bool-cases (ltb c.last_used oldest)) [
    | inl g ↦
        subst (Choice i evict oldest (c ∷ cs)) (sym (if_true _ _ f ∙ if_true _ _ g))
          (first i evict oldest c cs f g (find_evict-Choice (suc i) i c.last_used cs))
    | inr g ↦
        subst (Choice i evict oldest (c ∷ cs)) (sym (if_true _ _ f ∙ if_false _ _ g))
          (second i evict oldest c cs f g (find_evict-Choice (suc i) evict oldest cs))
  ]
]

-- In a cache that is not empty, with times below 2^64, the slot that is chosen for an asset is one that is
-- not used, or all slots are used and it is one of those whose last use is the longest ago.
pub find_evict_oldest :
    (cs : List CacheSlot)
    → 0 < length cs
    → All (λ c. c.last_used < u64_mod) cs
    → IsVictim cs (find_evict 0 0 (u64_mod - 1) cs)
find_evict_oldest [] n b = absurd (omega arith)
find_evict_oldest (c ∷ cs) n b = finish (find_evict-Choice 0 0 (u64_mod - 1) (c ∷ cs))
  where
    finish : {v : ℕ} → Choice 0 0 (u64_mod - 1) (c ∷ cs) v → IsVictim (c ∷ cs) v
    finish (free k e u h) = subst (IsVictim (c ∷ cs)) (omega (arith, e)) (u, inl h)
    finish (kept e a) = subst (IsVictim (c ∷ cs)) (sym e) (
      omega arith,
      inr (NoneOlder-weaken c.last_used (u64_mod - 1) (c ∷ cs) (omega (arith, b.0)) a),
    )
    finish (older k m e u h l a) =
        subst (IsVictim (c ∷ cs)) (omega (arith, e))
          (u, inr (subst (λ z. NoneOlder z (c ∷ cs)) h a))
