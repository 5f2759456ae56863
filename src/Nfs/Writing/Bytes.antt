-- ===== src/Nfs/Writing/Bytes.antt =====
-- Which bytes of the file a call of `nfs_write` of fs/nfs.c changes.
use nanos_os.Common.{
  ℕ, zero, suc, ◌+◌, ◌-◌, ◌/◌, ◌%◌, ◌<◌, ◌≤◌, ◌≡◌, ◌≢◌, ◌⊎◌, refl, ◌∙◌, ap, sym, subst, inl, inr,
  List, [], ◌∷◌, arith, length, take, drop, get_or, ltb, ◌==◌, ==_iff, Bool-cases,
}
use nanos_os.Common.Bytes.{store, get_or-store_in, get_or-store_before, get_or-store_after}
use nanos_os.Nfs.Files.{Fd, nfs_blk_sz, file_byte}
use nanos_os.Nfs.Files.Reading.{block}
use nanos_os.Nfs.Writing.{File, put_piece}
use nanos_os.Nfs.Writing.Step.{blk, IsOpened, put_piece_lem}

-- The byte of the file at `k`
abbrev pub byte : File → ℕ → ℕ
byte s k = file_byte s.fd (block s.disk) k

-- From `s` to `s'` the bytes from `a` up to `b` have been written, and those outside are kept where
-- the file had a block.
pub record IsWritten (bytes : List ℕ) (pos a b : ℕ) (s s' : File) : Type 0 where
  pub new : (k : ℕ) → pos + a ≤ k → k < pos + b → byte s' k ≡ get_or bytes (k - pos) 0
  pub old :
      (k : ℕ) → (k < pos + a) ⊎ (pos + b ≤ k) → blk s (k / nfs_blk_sz) ≢ 0 → byte s' k ≡ byte s k
  pub still : (i : ℕ) → blk s i ≢ 0 → blk s' i ≢ 0
  pub mapped : (k : ℕ) → pos + a ≤ k → k < pos + b → blk s' (k / nfs_blk_sz) ≢ 0

length-piece : (n i : ℕ) (xs : List ℕ) → i + n ≤ length xs → length (take n (drop i xs)) ≡ n
length-piece zero i xs h = refl
length-piece (suc n) zero [] h = absurd (omega arith)
length-piece (suc n) zero (x ∷ xs) h = ap suc (length-piece n zero xs (omega arith))
length-piece (suc n) (suc i) [] h = absurd (omega arith)
length-piece (suc n) (suc i) (x ∷ xs) h = length-piece (suc n) i xs (omega arith)

get_or-piece :
    (n i j : ℕ) (xs : List ℕ) → j < n → get_or (take n (drop i xs)) j 0 ≡ get_or xs (i + j) 0
get_or-piece zero i j xs h = absurd (omega arith)
get_or-piece (suc n) zero j [] h = refl
get_or-piece (suc n) zero zero (x ∷ xs) h = refl
get_or-piece (suc n) zero (suc j) (x ∷ xs) h =
    let e : 0 + suc j ≡ suc (0 + j) = omega arith in rw (e) (get_or-piece n zero j xs (omega arith))
get_or-piece (suc n) (suc i) j [] h = refl
get_or-piece (suc n) (suc i) j (x ∷ xs) h =
    let e : suc i + j ≡ suc (i + j) = omega arith in rw (e) (get_or-piece (suc n) i j xs h)

-- The bytes after one round that has opened the block at the place
module _ (now ch wr : ℕ) (bytes buf : List ℕ) (s s₁ : File)
    (o : IsOpened ((s.fd.pos + wr) / nfs_blk_sz) s buf s₁)
    (fits : (s.fd.pos + wr) % nfs_blk_sz + ch ≤ nfs_blk_sz) (enough : wr + ch ≤ length bytes) where
  abbrev bi : ℕ
  bi = (s.fd.pos + wr) / nfs_blk_sz

  abbrev bo : ℕ
  bo = (s.fd.pos + wr) % nfs_blk_sz

  abbrev piece : List ℕ
  piece = take ch (drop wr bytes)

  abbrev s₂ : File
  s₂ = (put_piece now bi bo piece buf s₁).1

  sized : length piece ≡ ch
  sized = length-piece ch wr bytes enough

  same_fd : s₂.fd ≡ s₁.fd
  same_fd = unfold put_piece in refl

  same_blk : (i : ℕ) → blk s₂ i ≡ blk s₁ i
  same_blk i = ap (λ (f : Fd). get_or f.db i 0) same_fd

  byte_of :
      (k b : ℕ)
      → blk s₂ (k / nfs_blk_sz) ≡ b
      → byte s₂ k ≡ get_or (block s₂.disk b) (k % nfs_blk_sz) 0
  unfolding file_byte
  byte_of k b e = ap (λ z. get_or (block s₂.disk z) (k % nfs_blk_sz) 0) e

  byte_here :
      (k : ℕ) → k / nfs_blk_sz ≡ bi → byte s₂ k ≡ get_or (store bo piece buf) (k % nfs_blk_sz) 0
  byte_here k e =
      byte_of k (blk s₁ bi) (same_blk (k / nfs_blk_sz) ∙ ap (blk s₁) e)
      ∙ ap (λ z. get_or z (k % nfs_blk_sz) 0) (put_piece_lem now bi bo piece buf s s₁ o).1

  byte_there : (k : ℕ) → k / nfs_blk_sz ≢ bi → byte s₂ k ≡ byte s k
  unfolding file_byte
  byte_there k n =
      byte_of k (blk s (k / nfs_blk_sz)) (same_blk (k / nfs_blk_sz) ∙ o.others (k / nfs_blk_sz) n)
      ∙ ap (λ z. get_or z (k % nfs_blk_sz) 0)
          ((put_piece_lem now bi bo piece buf s s₁ o).2 (blk s (k / nfs_blk_sz)) apart)
    where
      apart : blk s (k / nfs_blk_sz) ≢ blk s₁ bi
      apart e = n (
          sym (
            o.file.distinct bi (k / nfs_blk_sz) o.here (sym e ∙ sym (o.others (k / nfs_blk_sz) n))))

  byte_new :
      (k : ℕ)
      → s.fd.pos + wr ≤ k
      → k < s.fd.pos + (wr + ch)
      → byte s₂ k ≡ get_or bytes (k - s.fd.pos) 0
  byte_new k h l =
      byte_here k (omega (arith, fits))
      ∙ ap (λ z. get_or (store bo piece buf) z 0) place
      ∙ get_or-store_in bo piece buf (k - (s.fd.pos + wr)) 0 (omega (arith, sized))
          (omega (arith, sized, fits, o.full))
      ∙ get_or-piece ch wr (k - (s.fd.pos + wr)) bytes (omega arith)
      ∙ ap (λ z. get_or bytes z 0) (omega arith)
    where
      place : k % nfs_blk_sz ≡ bo + (k - (s.fd.pos + wr))
      place = omega (arith, fits)

  byte_old :
      (k : ℕ)
      → (k < s.fd.pos + wr) ⊎ (s.fd.pos + (wr + ch) ≤ k)
      → blk s (k / nfs_blk_sz) ≢ 0
      → byte s₂ k ≡ byte s k
  unfolding file_byte
  byte_old k h n = elim (Bool-cases (k / nfs_blk_sz == bi)) [
    | inr q ↦ let d : k / nfs_blk_sz ≢ bi = λ z. ground arith in byte_there k d
    | inl q ↦
        let e = (==_iff (k / nfs_blk_sz) bi).0 q in
        let was : blk s bi ≢ 0 = subst (λ i. blk s i ≢ 0) e n in
        byte_here k e
        ∙ outside e
        ∙ ap (λ z. get_or z (k % nfs_blk_sz) 0)
            ((o.kept was).1 ∙ ap (λ i. block s.disk (blk s i)) (sym e))
  ]
    where
      outside :
          k / nfs_blk_sz ≡ bi
          → get_or (store bo piece buf) (k % nfs_blk_sz) 0 ≡ get_or buf (k % nfs_blk_sz) 0
      outside e = elim h [
        | inl l ↦ get_or-store_before bo piece buf (k % nfs_blk_sz) 0 (omega arith)
        | inr l ↦ get_or-store_after bo piece buf (k % nfs_blk_sz) 0 (omega (arith, sized))
      ]

  still_there : (i : ℕ) → blk s i ≢ 0 → blk s₂ i ≢ 0
  still_there i n z = elim (Bool-cases (i == bi)) [
    | inl q ↦ o.here (sym (ap (blk s₁) ((==_iff i bi).0 q)) ∙ sym (same_blk i) ∙ z)
    | inr q ↦ let d : i ≢ bi = λ p. ground arith in n (sym (o.others i d) ∙ sym (same_blk i) ∙ z)
  ]

  mapped_now : (k : ℕ) → s.fd.pos + wr ≤ k → k < s.fd.pos + (wr + ch) → blk s₂ (k / nfs_blk_sz) ≢ 0
  mapped_now k h l z =
      let e : k / nfs_blk_sz ≡ bi = omega (arith, fits) in
      o.here (sym (ap (blk s₁) e) ∙ sym (same_blk (k / nfs_blk_sz)) ∙ z)

  pub put_piece-IsWritten : IsWritten bytes s.fd.pos wr (wr + ch) s s₂
  put_piece-IsWritten = record {
    new = byte_new;
    old = byte_old;
    still = still_there;
    mapped = mapped_now;
  }

-- Two pieces, one behind the other
pub IsWritten-trans :
    (bytes : List ℕ) (pos a b c : ℕ) (s s₂ s' : File)
    → a ≤ b
    → b ≤ c
    → IsWritten bytes pos a b s s₂
    → IsWritten bytes pos b c s₂ s'
    → IsWritten bytes pos a c s s'
IsWritten-trans bytes pos a b c s s₂ s' p q v w = record {
  new = λ k h l. elim (Bool-cases (ltb k (pos + b))) [
    | inl r ↦ let z : k < pos + b = ground arith in w.old k (inl z) (v.mapped k h z) ∙ v.new k h z
    | inr r ↦ w.new k (ground arith) l
  ];
  old = λ k h n. elim h [
    | inl l ↦ w.old k (inl (omega arith)) (v.still _ n) ∙ v.old k (inl l) n
    | inr l ↦ w.old k (inr l) (v.still _ n) ∙ v.old k (inr (omega arith)) n
  ];
  still = λ i n. w.still i (v.still i n);
  mapped = λ k h l. elim (Bool-cases (ltb k (pos + b))) [
    | inl r ↦ w.still _ (v.mapped k h (ground arith))
    | inr r ↦ w.mapped k (ground arith) l
  ];
}
