-- ===== src/Nfs/Cache.antt =====
-- The block cache of fs/nfs.c is a store of blocks.
use nanos_os.Common.{
  ℕ, ◌<◌, ◌≡◌, ◌≢◌, refl, sym, ap, subst, ◌∙◌, inl, inr, Bool, true, false, List, arith, length,
  length-set, ◌==◌, ==_iff, none, some, set, Bool-cases, Option-cases,
}
use nanos_os.Nfs.{Entry, holds, cfind}
use nanos_os.Nfs.Lookup.{at, at-set_self, at-set_ne, holds_iff, cfind-none, cfind-some}

-- No two entries have the same block, and what is not dirty is what the flash memory has.
pub record Coherent (es : List Entry) (fl : ℕ → List ℕ) : Type 0 where
  pub sized : length es ≡ 8
  pub unique : (b n m : ℕ) → holds b (at es n) ≡ true → holds b (at es m) ≡ true → n ≡ m
  pub clean :
      (n : ℕ) → (at es n).valid ≡ true → (at es n).dirty ≡ false → (at es n).buf ≡ fl (at es n).blk

-- The block `b` as the file system sees it
pub stored : ℕ → List Entry → (ℕ → List ℕ) → List ℕ
stored b es fl = elim (cfind b es) [ none ↦ fl b | some n ↦ (at es n).buf ]

pub not_true : (c : Bool) → c ≢ true → c ≡ false
not_true true h = absurd (h refl)
not_true false h = refl

pub stored_hit :
    (b n : ℕ) (es : List Entry) (fl : ℕ → List ℕ)
    → Coherent es fl
    → holds b (at es n) ≡ true
    → stored b es fl ≡ (at es n).buf
unfolding stored
stored_hit b n es fl v h = elim (Option-cases (cfind b es)) [
  | inl f ↦ let q = cfind-none b es f n in absurd (cc)
  | inr (m, f) ↦ rw (stored, f) (ap (λ k. (at es k).buf) (v.unique b m n (cfind-some b es m f).1 h))
]

pub stored_miss :
    (b : ℕ) (es : List Entry) (fl : ℕ → List ℕ)
    → ((n : ℕ) → holds b (at es n) ≡ false)
    → stored b es fl ≡ fl b
unfolding stored
stored_miss b es fl h = elim (Option-cases (cfind b es)) [
  | inl f ↦ rw (stored, f) refl
  | inr (m, f) ↦ let q = h m in let r = (cfind-some b es m f).1 in absurd (cc)
]

-- The entry at `n` becomes one for `b`. If it held another block, the flash memory has that too.
module _ (es : List Entry) (fl : ℕ → List ℕ) (v : Coherent es fl) (n b : ℕ) (e : Entry)
    (inside : n < length es)
    (kept : (b' : ℕ) → b' ≢ b → holds b' (at es n) ≡ true → (at es n).buf ≡ fl b')
    (mine : holds b e ≡ true) (alone : (m : ℕ) → m ≢ n → holds b (at es m) ≡ false) where
  here : at (set es n e) n ≡ e
  here = at-set_self es n e inside

  there : (m : ℕ) → m ≢ n → at (set es n e) m ≡ at es m
  there m h = at-set_ne es n m e h

  -- Another block is held where it was, if it is held at all.
  elsewhere :
      (b' m : ℕ)
      → b' ≢ b
      → holds b' (at (set es n e) m) ≡ true
      → (m ≢ n) × (holds b' (at es m) ≡ true)
  elsewhere b' m ne h = elim (Bool-cases (m == n)) [
    | inl q ↦
        let r = (==_iff m n).0 q in
        let w : holds b' e ≡ true =
          subst (λ x. holds b' x ≡ true) (ap (at (set es n e)) r ∙ here) h in
        absurd (ne (sym (holds_iff b' e w).1 ∙ (holds_iff b e mine).1))
    | inr q ↦ let r : m ≢ n = λ p. ground arith in (r, subst (λ x. holds b' x ≡ true) (there m r) h)
  ]

  only : (m : ℕ) → holds b (at (set es n e) m) ≡ true → m ≡ n
  only m h = elim (Bool-cases (m == n)) [
    | inl q ↦ (==_iff m n).0 q
    | inr q ↦
        let r : m ≢ n = λ p. ground arith in
        let w = subst (λ x. holds b x ≡ true) (there m r) h in let z = alone m r in absurd (cc)
  ]

  replaced_unique :
      (c k m : ℕ) → holds c (at (set es n e) k) ≡ true → holds c (at (set es n e) m) ≡ true → k ≡ m
  replaced_unique c k m h g = elim (Bool-cases (c == b)) [
    | inl q ↦
        let r = (==_iff c b).0 q in
        only k (subst (λ x. holds x (at (set es n e) k) ≡ true) r h)
        ∙ sym (only m (subst (λ x. holds x (at (set es n e) m) ≡ true) r g))
    | inr q ↦
        let r : c ≢ b = λ p. ground arith in
        v.unique c k m (elsewhere c k r h).1 (elsewhere c m r g).1
  ]

  replaced_clean :
      (e.dirty ≡ false → e.buf ≡ fl e.blk)
      → (m : ℕ) → (at (set es n e) m).valid ≡ true
      → (at (set es n e) m).dirty ≡ false
      → (at (set es n e) m).buf ≡ fl (at (set es n e) m).blk
  replaced_clean c m = elim (Bool-cases (m == n)) [
    | inl q ↦
        let r : at (set es n e) m ≡ e = ap (at (set es n e)) ((==_iff m n).0 q) ∙ here in
        subst (λ x. x.valid ≡ true → x.dirty ≡ false → x.buf ≡ fl x.blk) (sym r) (λ _ d. c d)
    | inr q ↦
        let r : m ≢ n = λ p. ground arith in
        subst (λ x. x.valid ≡ true → x.dirty ≡ false → x.buf ≡ fl x.blk) (sym (there m r))
          (v.clean m)
  ]

  pub replaced-Coherent : (e.dirty ≡ false → e.buf ≡ fl e.blk) → Coherent (set es n e) fl
  replaced-Coherent c = record {
    sized = length-set es n e ∙ v.sized;
    unique = replaced_unique;
    clean = replaced_clean c;
  }

  pub replaced_self : (e.dirty ≡ false → e.buf ≡ fl e.blk) → stored b (set es n e) fl ≡ e.buf
  replaced_self c =
      stored_hit b n (set es n e) fl (replaced-Coherent c)
        (subst (λ x. holds b x ≡ true) (sym here) mine)
      ∙ ap (λ x. x.buf) here

  gone :
      (b' : ℕ)
      → b' ≢ b
      → ((m : ℕ) → m ≢ n → holds b' (at es m) ≢ true)
      → stored b' (set es n e) fl ≡ fl b'
  gone b' ne h =
      stored_miss b' (set es n e) fl
        (λ m. not_true _ (λ q. let r = elsewhere b' m ne q in h m r.0 r.1))

  pub replaced_other :
      (e.dirty ≡ false → e.buf ≡ fl e.blk)
      → (b' : ℕ) → b' ≢ b
      → stored b' (set es n e) fl ≡ stored b' es fl
  replaced_other c b' ne = elim (Option-cases (cfind b' es)) [
    | inl f ↦
        gone b' ne (λ m r q. let z = cfind-none b' es f m in cc)
        ∙ sym (stored_miss b' es fl (cfind-none b' es f))
    | inr (m, f) ↦
        let h = (cfind-some b' es m f).1 in
        elim (Bool-cases (m == n)) [
          | inl q ↦
              let p = (==_iff m n).0 q in
              let g = subst (λ k. holds b' (at es k) ≡ true) p h in
              gone b' ne (λ k r w. r (v.unique b' k n w g))
              ∙ sym (stored_hit b' n es fl v g ∙ kept b' ne g)
          | inr q ↦
              let r : m ≢ n = λ p. ground arith in
              stored_hit b' m (set es n e) fl (replaced-Coherent c)
                (subst (λ x. holds b' x ≡ true) (sym (there m r)) h)
              ∙ ap (λ x. x.buf) (there m r)
              ∙ sym (stored_hit b' m es fl v h)
        ]
  ]
