-- ===== src/Nfs/Store.antt =====
-- Reading and writing blocks through the cache of fs/nfs.c.
use nanos_os.Common.{
  ℕ, zero, suc, ◌+◌, ◌%◌, ◌<◌, ◌≡◌, ◌≢◌, refl, sym, ap, subst, ◌∙◌, inl, inr, true, false, List, [],
  ◌∷◌, arith, length, ◌==◌, ==_iff, ==_refl, Option, none, some, set, Bool-cases, Option-cases,
}
use nanos_os.Common.Maps.{update, update_self, update_ne}
use nanos_os.Kernel.{u32_mod}
use nanos_os.Nfs.{
  Entry, Disk, holds, cfind, victim, write_back, cevict, rblk, rblk_miss, wblk, put_block,
  reset_cache,
}
use nanos_os.Nfs.Lookup.{at, holds_iff, holds_self, cfind-none, cfind-some, victim_inside}
use nanos_os.Nfs.Cache.{
  Coherent, stored, stored_hit, stored_miss, not_true, replaced-Coherent, replaced_self,
  replaced_other,
}
use nanos_os.Nfs.Eviction.{IsEvicted, write_back-IsEvicted}

-- After a write of `bytes` to the block `b`, or a read of it
pub record IsUpdated (b : ℕ) (bytes : List ℕ) (es : List Entry) (fl : ℕ → List ℕ) (es' : List Entry)
    (fl' : ℕ → List ℕ) : Type 0 where
  pub coherent : Coherent es' fl'
  pub this : stored b es' fl' ≡ bytes
  pub others : (b' : ℕ) → b' ≢ b → stored b' es' fl' ≡ stored b' es fl

-- The entry that has the block becomes `e`.
hit-IsUpdated :
    (n b : ℕ) (e : Entry) (es : List Entry) (fl : ℕ → List ℕ)
    → Coherent es fl
    → cfind b es ≡ some n
    → holds b e ≡ true
    → (e.dirty ≡ false → e.buf ≡ fl e.blk)
    → IsUpdated b e.buf es fl (set es n e) fl
hit-IsUpdated n b e es fl v f mine clean = record {
  coherent = replaced-Coherent es fl v n b e r.0 kept mine alone clean;
  this = replaced_self es fl v n b e r.0 kept mine alone clean;
  others = replaced_other es fl v n b e r.0 kept mine alone clean;
}
  where
    r : (n < length es) × (holds b (at es n) ≡ true)
    r = cfind-some b es n f

    kept : (b' : ℕ) → b' ≢ b → holds b' (at es n) ≡ true → (at es n).buf ≡ fl b'
    kept b' ne h = absurd (ne (sym (holds_iff b' _ h).1 ∙ (holds_iff b _ r.1).1))

    alone : (m : ℕ) → m ≢ n → holds b (at es m) ≡ false
    alone m ne = not_true _ (λ p. ne (v.unique b m n p r.1))

-- No entry has the block, and an evicted one becomes `e`.
miss-IsUpdated :
    (n b : ℕ) (e : Entry) (d d₁ : Disk)
    → IsEvicted n d d₁
    → n < length d₁.cache
    → cfind b d.cache ≡ none
    → holds b e ≡ true
    → (e.dirty ≡ false → e.buf ≡ d₁.flash e.blk)
    → IsUpdated b e.buf d.cache d.flash (set d₁.cache n e) d₁.flash
miss-IsUpdated n b e d d₁ v inside f mine clean = record {
  coherent = replaced-Coherent d₁.cache d₁.flash v.coherent n b e inside kept mine alone clean;
  this = replaced_self d₁.cache d₁.flash v.coherent n b e inside kept mine alone clean;
  others = λ b' ne.
      replaced_other d₁.cache d₁.flash v.coherent n b e inside kept mine alone clean b' ne
      ∙ v.same b';
}
  where
    kept : (b' : ℕ) → b' ≢ b → holds b' (at d₁.cache n) ≡ true → (at d₁.cache n).buf ≡ d₁.flash b'
    kept b' ne h = v.kept b' h

    alone : (m : ℕ) → m ≢ n → holds b (at d₁.cache m) ≡ false
    alone m ne = v.held b m (cfind-none b d.cache f m)

-- `cevict` on a coherent cache
evict_lem :
    (d : Disk)
    → Coherent d.cache d.flash
    → let n = victim d.cache in IsEvicted n d (write_back n d) × (n < length (write_back n d).cache)
evict_lem d v =
    let n : victim d.cache < length d.cache = victim_inside d.cache (omega (arith, v.sized)) in
    let e = write_back-IsEvicted (victim d.cache) d n v in
    (e, omega (arith, v.sized, e.coherent.sized, n))

-- A read gives the block as it is stored, and changes no block.
pub rblk_lem :
    (now b : ℕ) (d : Disk)
    → Coherent d.cache d.flash
    → let (r, d') = rblk none now b d in
      (bytes : List ℕ) × (r ≡ some bytes)
      × (bytes ≡ stored b d.cache d.flash)
      × IsUpdated b bytes d.cache d.flash d'.cache d'.flash
unfolding rblk rblk_miss cevict holds
rblk_lem now b d v = elim (Option-cases (cfind b d.cache)) [
  | inl f ↦
      let r = evict_lem (record d { miss = (d.miss + 1) % u32_mod }) v in
      let d₁ = write_back (victim d.cache) (record d { miss = (d.miss + 1) % u32_mod }) in
      rw (rblk, f)
        (
          d₁.flash b,
          refl,
          sym (stored_miss b d₁.cache d₁.flash (λ m. r.0.held b m (cfind-none b d.cache f m)))
              ∙ r.0.same b,
          miss-IsUpdated _ b _ _ _ r.0 r.1 f (==_refl b) (λ z. refl),
        )
  | inr (n, f) ↦
      let h = cfind-some b d.cache n f in
      rw (rblk, f)
        (
          (at d.cache n).buf,
          refl,
          sym (stored_hit b n d.cache d.flash v h.1),
          hit-IsUpdated n b (record (at d.cache n) { lu = now }) d.cache d.flash v f (h.1)
              (v.clean n (holds_iff b (at d.cache n) h.1).0),
        )
]

-- A write changes this block alone.
pub wblk_lem :
    (now b : ℕ) (bytes : List ℕ) (d : Disk)
    → Coherent d.cache d.flash
    → let d' = wblk now b bytes d in IsUpdated b bytes d.cache d.flash d'.cache d'.flash
unfolding wblk put_block cevict holds
wblk_lem now b bytes d v = elim (Option-cases (cfind b d.cache)) [
  | inl f ↦
      let r = evict_lem d v in
      rw (wblk, f) (miss-IsUpdated _ b _ d _ r.0 r.1 f (==_refl b) (λ z. absurd (cc)))
  | inr (n, f) ↦
      rw (wblk, f) (hit-IsUpdated n b _ d.cache d.flash v f (==_refl b) (λ z. absurd (cc)))
]

-- Operations on blocks, each with the time at which it runs
pub data Op : Type 0 where
  read : (now b : ℕ) → Op
  write : (now b : ℕ) → List ℕ → Op

-- What the reads of a sequence of operations give through the cache
pub cached : List Op → Disk → List (Option (List ℕ))
cached [] d = []
cached (read now b ∷ ops) d = let (r, d') = rblk none now b d in r ∷ cached ops d'
cached (write now b bytes ∷ ops) d = cached ops (wblk now b bytes d)

-- And what they give on a plain store of blocks
pub plain : List Op → (ℕ → List ℕ) → List (Option (List ℕ))
plain [] fl = []
plain (read now b ∷ ops) fl = some (fl b) ∷ plain ops fl
plain (write now b bytes ∷ ops) fl = plain ops (update fl b bytes)

-- After an operation every block is as on the plain store.
updated_same :
    (b b' : ℕ) (bytes : List ℕ) (es es' : List Entry) (fl fl' : ℕ → List ℕ)
    → IsUpdated b bytes es fl es' fl'
    → stored b' es' fl' ≡ update (λ k. stored k es fl) b bytes b'
updated_same b b' bytes es es' fl fl' u = elim (Bool-cases (b == b')) [
  | inl q ↦
      let p = (==_iff b b').0 q in
      subst (λ k. stored k es' fl' ≡ update (λ k. stored k es fl) b bytes k) p
        (u.this ∙ sym (update_self (λ k. stored k es fl) b bytes))
  | inr q ↦
      let r : b ≢ b' = λ p. ground arith in
      u.others b' (λ p. r (sym p)) ∙ sym (update_ne (λ k. stored k es fl) b b' bytes r)
]

update_same : (f : ℕ → List ℕ) (b b' : ℕ) → update f b (f b) b' ≡ f b'
update_same f b b' = elim (Bool-cases (b == b')) [
  | inl q ↦ rw (q) (ap f ((==_iff b b').0 q))
  | inr q ↦ rw (q) refl
]

pub read_same :
    (b b' : ℕ) (bytes : List ℕ) (es es' : List Entry) (fl fl' : ℕ → List ℕ)
    → bytes ≡ stored b es fl
    → IsUpdated b bytes es fl es' fl'
    → stored b' es' fl' ≡ stored b' es fl
read_same b b' bytes es es' fl fl' q u =
    updated_same b b' bytes es es' fl fl' u
    ∙ ap (λ x. update (λ k. stored k es fl) b x b') q
    ∙ update_same (λ k. stored k es fl) b b'

-- On a coherent cache the reads give what they give on a plain store of the same blocks.
cached_refines :
    (ops : List Op) (d : Disk)
    → Coherent d.cache d.flash
    → cached ops d ≡ plain ops (λ b. stored b d.cache d.flash)
unfolding cached plain
cached_refines [] d v = refl
cached_refines (read now b ∷ ops) d v =
    let (bytes, r, q, u) = rblk_lem now b d v in
    ap (λ x. x ∷ cached ops (rblk none now b d).1) (r ∙ ap some q)
    ∙ ap (some (stored b d.cache d.flash) ∷◌) (
        cached_refines ops (rblk none now b d).1 u.coherent
        ∙ ap (plain ops) (λ i k. read_same b k bytes d.cache _ d.flash _ q u i))
cached_refines (write now b bytes ∷ ops) d v =
    let u = wblk_lem now b bytes d v in
    cached_refines ops (wblk now b bytes d) u.coherent
    ∙ ap (plain ops) (λ i k. updated_same b k bytes d.cache _ d.flash _ u i)

pub reset_empty : (es : List Entry) (b n : ℕ) → holds b (at (reset_cache es) n) ≡ false
unfolding reset_cache holds
reset_empty [] b n = refl
reset_empty (e ∷ es) b zero = refl
reset_empty (e ∷ es) b (suc n) = reset_empty es b n

length-reset_cache : (es : List Entry) → length (reset_cache es) ≡ length es
unfolding reset_cache
length-reset_cache [] = refl
length-reset_cache (e ∷ es) = ap suc (length-reset_cache es)

pub reset_cache-Coherent :
    (es : List Entry) (fl : ℕ → List ℕ) → length es ≡ 8 → Coherent (reset_cache es) fl
reset_cache-Coherent es fl h = record {
  sized = length-reset_cache es ∙ h;
  unique = λ b n m p q. let r = reset_empty es b n in absurd (cc);
  clean = λ n p q.
      let r = reset_empty es (at (reset_cache es) n).blk n in
      let z = holds_self (at (reset_cache es) n) p in absurd (cc);
}

-- The cache of 8 entries is invisible: from the mount on, the reads of any sequence of `rblk` and `wblk` give what
-- they give on a plain store of blocks that starts with the contents of the flash memory, if the
-- flash memory can be read.
pub cached-reset_refines :
    (ops : List Op) (d : Disk)
    → length d.cache ≡ 8
    → cached ops (record d { cache = reset_cache d.cache }) ≡ plain ops d.flash
cached-reset_refines ops d h =
    cached_refines ops (record d { cache = reset_cache d.cache })
      (reset_cache-Coherent d.cache d.flash h)
    ∙ ap (plain ops) (λ i b. stored_miss b (reset_cache d.cache) d.flash (reset_empty d.cache b) i)
