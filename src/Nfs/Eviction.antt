-- ===== src/Nfs/Eviction.antt =====
-- `cevict` of fs/nfs.c: what it writes back is not lost.
use nanos_os.Common.{
  ℕ, ◌<◌, ◌≡◌, ◌≢◌, refl, sym, ap, subst, ◌∙◌, inl, inr, true, false, List, arith, length, ◌==◌,
  ==_iff, set, Bool-cases, Option-cases, ◌&&◌,
}
use nanos_os.Common.Maps.{update, update_self, update_ne}
use nanos_os.Nfs.{Entry, Disk, holds, cfind, write_back}
use nanos_os.Nfs.Lookup.{at, at-set_self, at-set_ne, holds_iff, holds_self, cfind-none, cfind-some}
use nanos_os.Nfs.Cache.{
  Coherent, stored, stored_hit, stored_miss, not_true, replaced-Coherent, replaced_self,
  replaced_other,
}

-- A block that is held may change in the flash memory.
module _ (es : List Entry) (fl : ℕ → List ℕ) (v : Coherent es fl) (n : ℕ) (x : List ℕ)
    (valid : (at es n).valid ≡ true) (dirty : (at es n).dirty ≡ true) where
  written_clean :
      (m : ℕ)
      → (at es m).valid ≡ true
      → (at es m).dirty ≡ false
      → (at es m).buf ≡ update fl (at es n).blk x (at es m).blk
  written_clean m a c = elim (Bool-cases ((at es n).blk == (at es m).blk)) [
    | inl q ↦
        let p = (==_iff (at es n).blk (at es m).blk).0 q in
        let r =
          v.unique (at es m).blk n m (subst (λ b. holds b (at es n) ≡ true) p (holds_self _ valid))
            (holds_self _ a) in
        let w : (at es m).dirty ≡ true = subst (λ k. (at es k).dirty ≡ true) r dirty in absurd (cc)
    | inr q ↦
        let r : (at es n).blk ≢ (at es m).blk = λ p. ground arith in
        v.clean m a c ∙ sym (update_ne fl _ _ x r)
  ]

  pub written-Coherent : Coherent es (update fl (at es n).blk x)
  written-Coherent = record { sized = v.sized; unique = v.unique; clean = written_clean }

  pub written_lem : (b : ℕ) → stored b es (update fl (at es n).blk x) ≡ stored b es fl
  written_lem b = elim (Option-cases (cfind b es)) [
    | inl f ↦
        let r : (at es n).blk ≢ b = λ p.
          let w = subst (λ k. holds k (at es n) ≡ true) p (holds_self _ valid) in
          let z = cfind-none b es f n in cc in
        stored_miss b es _ (cfind-none b es f)
        ∙ update_ne fl _ _ x r
        ∙ sym (stored_miss b es fl (cfind-none b es f))
    | inr (m, f) ↦
        let h = (cfind-some b es m f).1 in
        stored_hit b m es _ written-Coherent h ∙ sym (stored_hit b m es fl v h)
  ]

-- After `write_back` the same blocks are stored and held, and the entry can be given up.
pub record IsEvicted (n : ℕ) (d d' : Disk) : Type 0 where
  pub coherent : Coherent d'.cache d'.flash
  pub same : (b : ℕ) → stored b d'.cache d'.flash ≡ stored b d.cache d.flash
  pub kept : (b : ℕ) → holds b (at d'.cache n) ≡ true → (at d'.cache n).buf ≡ d'.flash b
  pub held : (b m : ℕ) → holds b (at d.cache m) ≡ false → holds b (at d'.cache m) ≡ false

holds_cleaned : (b : ℕ) (e : Entry) → holds b (record e { dirty = false }) ≡ holds b e
unfolding holds
holds_cleaned b e = refl

-- The entry is clean, or not valid, and is left as it is.
clean-IsEvicted :
    (n : ℕ) (d : Disk)
    → Coherent d.cache d.flash
    → ((at d.cache n).valid && (at d.cache n).dirty) ≡ false
    → IsEvicted n d d
clean-IsEvicted n d v q = record {
  coherent = v;
  same = λ b. refl;
  kept = λ b h.
      let r = holds_iff b (at d.cache n) h in
      v.clean n r.0 (not_true _ (λ w. let z : true ≡ false = rw (r.0, w) at q in cc))
      ∙ ap d.flash r.1;
  held = λ b m h. h;
}

-- The entry is dirty, and is written to the flash memory.
module _ (n : ℕ) (d : Disk) (inside : n < length d.cache) (v : Coherent d.cache d.flash)
    (valid : (at d.cache n).valid ≡ true) (dirty : (at d.cache n).dirty ≡ true) where
  abbrev blk : ℕ
  blk = (at d.cache n).blk

  abbrev e : Entry
  e = record (at d.cache n) { dirty = false }

  abbrev fl : ℕ → List ℕ
  fl = update d.flash blk (at d.cache n).buf

  w : Coherent d.cache fl
  w = written-Coherent d.cache d.flash v n (at d.cache n).buf valid dirty

  kept_there : (b : ℕ) → holds b (at d.cache n) ≡ true → (at d.cache n).buf ≡ fl b
  kept_there b h = sym (ap fl (sym (holds_iff b _ h).1) ∙ update_self d.flash blk _)

  alone : (m : ℕ) → m ≢ n → holds blk (at d.cache m) ≡ false
  alone m h = not_true _ (λ p. h (v.unique _ m n p (holds_self _ valid)))

  mine : holds blk e ≡ true
  mine = holds_cleaned blk (at d.cache n) ∙ holds_self _ valid

  written : e.dirty ≡ false → e.buf ≡ fl e.blk
  written c = sym (update_self d.flash blk _)

  same_blocks : (b : ℕ) → stored b (set d.cache n e) fl ≡ stored b d.cache d.flash
  same_blocks b = elim (Bool-cases (b == blk)) [
    | inl q ↦
        subst (λ k. stored k (set d.cache n e) fl ≡ stored k d.cache d.flash)
          (sym ((==_iff b blk).0 q))
          (replaced_self d.cache fl w n blk e inside (λ b' _ h. kept_there b' h) mine alone written
            ∙ sym (stored_hit blk n d.cache d.flash v (holds_self _ valid)))
    | inr q ↦
        let r : b ≢ blk = λ p. ground arith in
        replaced_other d.cache fl w n blk e inside (λ b' _ h. kept_there b' h) mine alone written b
          r
        ∙ written_lem d.cache d.flash v n _ valid dirty b
  ]

  still_held : (b m : ℕ) → holds b (at d.cache m) ≡ false → holds b (at (set d.cache n e) m) ≡ false
  still_held b m h = elim (Bool-cases (m == n)) [
    | inl q ↦
        let p = (==_iff m n).0 q in
        ap (λ k. holds b (at (set d.cache n e) k)) p
        ∙ ap (holds b) (at-set_self d.cache n e inside)
        ∙ holds_cleaned b (at d.cache n)
        ∙ ap (λ k. holds b (at d.cache k)) (sym p)
        ∙ h
    | inr q ↦ let r : m ≢ n = λ p. ground arith in ap (holds b) (at-set_ne d.cache n m e r) ∙ h
  ]

  dirty-IsEvicted :
      (r : ℕ) → IsEvicted n d (record d { cache = set d.cache n e; flash = fl; erases = r })
  dirty-IsEvicted r = record {
    coherent =
        replaced-Coherent d.cache fl w n blk e inside (λ b' _ h. kept_there b' h) mine alone
          written;
    same = same_blocks;
    kept = λ b h.
        let f = at-set_self d.cache n e inside in
        ap (λ x. x.buf) f
        ∙ kept_there b (sym (holds_cleaned b (at d.cache n)) ∙ ap (holds b) (sym f) ∙ h);
    held = still_held;
  }

pub write_back-IsEvicted :
    (n : ℕ) (d : Disk)
    → n < length d.cache
    → Coherent d.cache d.flash
    → IsEvicted n d (write_back n d)
unfolding write_back
write_back-IsEvicted n d inside v =
    elim (Bool-cases ((at d.cache n).valid && (at d.cache n).dirty)) [
      | inl q ↦ rw (write_back, q) (dirty-IsEvicted n d inside v (ground arith) (ground arith) _)
      | inr q ↦ rw (write_back, q) (clean-IsEvicted n d v q)
    ]
