-- ===== src/Nfs/Files/Reading.antt =====
-- What `nfs_read` of fs/nfs.c returns.
use mathlib.Core.Option
use nanos_os.Common.{
  ℕ, zero, suc, ◌+◌, ◌-◌, ◌*◌, ◌/◌, ◌%◌, ◌<◌, ◌≤◌, ◌≡◌, ◌≢◌, refl, ◌∙◌, ap, sym, inl, inr, true,
  false, none, some, List, ◌++◌, arith, length, take, drop, get_or, leb, ltb, ==_iff, ◌==◌, ◌||◌,
  Bool-cases,
}
use nanos_os.Kernel.{u32_mod}
use nanos_os.Nfs.{Disk, rblk}
use nanos_os.Nfs.Cache.{Coherent, stored}
use nanos_os.Nfs.Store.{rblk_lem, read_same}
use nanos_os.Nfs.Files.{
  Fd, nfs_blk_sz, nfs_direct_blks, min, read_loop, nfs_read, file_bytes, file_bytes-add,
  block_bytes,
}

-- The block `b` of the disk as the file system sees it
abbrev pub block : Disk → ℕ → List ℕ
block d b = stored b d.cache d.flash

-- The cache is coherent, and every block has 4096 bytes.
pub record IsSound (d : Disk) : Type 0 where
  pub coherent : Coherent d.cache d.flash
  pub whole : (b : ℕ) → length (block d b) ≡ nfs_blk_sz

-- A block for each byte below `n`
unfoldable pub IsMapped : Fd → ℕ → Type 0
IsMapped f n =
    (n ≤ nfs_direct_blks * nfs_blk_sz) × ((k : ℕ) → k < n → get_or f.db (k / nfs_blk_sz) 0 ≢ 0)

-- Two pieces of a file, the second read from the same blocks, are one.
joined :
    (f : Fd) (g g₁ : ℕ → List ℕ) (m n k k' total : ℕ)
    → ((b : ℕ) → g₁ b ≡ g b)
    → total ≡ m + n
    → k' ≡ k + m
    → file_bytes f g m k ++ file_bytes f g₁ n k' ≡ file_bytes f g total k
joined f g g₁ m n k k' total h p q =
    ap (λ z. file_bytes f g m k ++ file_bytes f z n k') (λ i b. h b i)
    ∙ ap (λ z. file_bytes f g m k ++ file_bytes f g n z) q
    ∙ sym (file_bytes-add f g m n k)
    ∙ ap (λ z. file_bytes f g z k) (sym p)

module _ (now : ℕ → ℕ) (f : Fd) (len : ℕ) (mapped : IsMapped f (f.pos + len)) where
  -- One round reads a piece of a block.
  read_loop-step :
      (fuel rd : ℕ) (blkbuf : List ℕ) (d : Disk)
      → rd < len
      → IsSound d
      → let ch = min (len - rd) (nfs_blk_sz - (f.pos + rd) % nfs_blk_sz) in
        (d₁ : Disk) × (buf₁ : List ℕ) × IsSound d₁
        × ((b : ℕ) → block d₁ b ≡ block d b)
        × (read_loop now (λ _. none) f len (suc fuel) rd blkbuf d
            ≡ Option.map
                (λ (x : List ℕ × ℕ × Disk).
                  (file_bytes f (block d) ch (f.pos + rd) ++ x.0, x.1, x.2))
                (read_loop now (λ _. none) f len fuel (rd + ch) buf₁ d₁))
  unfolding read_loop IsMapped
  read_loop-step fuel rd blkbuf d l v =
      let b = get_or f.db ((f.pos + rd) / nfs_blk_sz) 0 in
      let (bytes, r, q, u) = rblk_lem (now rd) b d v.coherent in
      let d₁ = (rblk none (now rd) b d).1 in
      (
        d₁,
        bytes,
        record {
          coherent = u.coherent;
          whole = λ k. ap length (read_same b k bytes d.cache _ d.flash _ q u) ∙ v.whole k;
        },
        λ k. read_same b k bytes d.cache _ d.flash _ q u,
        rw (below, there, r, q, copied) refl,
      )
    where
      below : ltb rd len ≡ true
      below = ground arith

      there :
          (leb nfs_direct_blks ((f.pos + rd) / nfs_blk_sz)
            || (get_or f.db ((f.pos + rd) / nfs_blk_sz) 0 == 0))
          ≡ false
      there = let m = mapped.1 (f.pos + rd) (omega arith) in ground (arith, mapped.0)

      copied :
          let ch = min (len - rd) (nfs_blk_sz - (f.pos + rd) % nfs_blk_sz) in
          take ch
            (drop ((f.pos + rd) % nfs_blk_sz) (block d (get_or f.db ((f.pos + rd) / nfs_blk_sz) 0)))
          ≡ file_bytes f (block d) ch (f.pos + rd)
      copied = block_bytes f (block d) _ (f.pos + rd) (v.whole _) (ground arith)

  -- With more rounds than there are bytes left the loop ends, and has read them all.
  read_loop_lem :
      (fuel rd : ℕ) (blkbuf : List ℕ) (d : Disk)
      → rd ≤ len
      → len < fuel + rd
      → IsSound d
      → (d' : Disk) × IsSound d'
        × ((b : ℕ) → block d' b ≡ block d b)
        × (read_loop now (λ _. none) f len fuel rd blkbuf d
            ≡ some (file_bytes f (block d) (len - rd) (f.pos + rd), len, d'))
  unfolding read_loop
  read_loop_lem zero rd blkbuf d h l v = absurd (omega arith)
  read_loop_lem (suc fuel) rd blkbuf d h l v = elim (Bool-cases (ltb rd len)) [
    | inr q ↦
        let e : rd ≡ len = ground arith in
        let z : len - rd ≡ 0 = omega arith in
        (d, v, λ b. refl, rw (q, z, e) (unfold file_bytes in refl))
    | inl q ↦
        let less : rd < len = ground arith in
        let (d₁, buf₁, v₁, same₁, e₁) = read_loop-step fuel rd blkbuf d less v in
        let ch : ℕ = min (len - rd) (nfs_blk_sz - (f.pos + rd) % nfs_blk_sz) in
        let (d', v', same', e') =
          read_loop_lem fuel (rd + ch) buf₁ d₁ (ground arith) (ground arith) v₁ in
        let sum : len - rd ≡ ch + (len - (rd + ch)) = ground arith in
        let at : f.pos + (rd + ch) ≡ f.pos + rd + ch = omega arith in
        (
          d',
          v',
          λ b. same' b ∙ same₁ b,
          e₁
              ∙ rw (e') (
                  ap (λ x. some (x, len, d'))
                    (joined f (block d) (block d₁) ch _ _ _ _ same₁ sum at)),
        )
  ]

-- From the loop to the result
nfs_read-some :
    (fuel : ℕ) (now : ℕ → ℕ) (blkbuf bytes : List ℕ) (len n : ℕ) (f : Fd) (d d' : Disk)
    → f.is_open ≡ true
    → min ((f.sz + u32_mod - f.pos) % u32_mod) len ≡ n
    → (n == 0) ≡ false
    → (f.pos + n) % u32_mod ≡ f.pos + n
    → read_loop now (λ _. none) f n fuel 0 blkbuf d ≡ some (bytes, n, d')
    → nfs_read fuel now (λ _. none) blkbuf len f d
      ≡ some (some (bytes, n), record f { pos = f.pos + n }, d')
unfolding nfs_read
nfs_read-some fuel now blkbuf bytes len n f d d' o small q moved e = rw (small, q, e, moved, o) refl

-- `nfs_read` of an open file, read through a sound disk whose flash memory can be read, with a block
-- for each byte up to its size: it ends within `len + 1` rounds, returns the number of bytes asked
-- for or left in the file, whichever is less, and these are the bytes of the file from the position
-- on. The position goes up by that number, and no block changes.
pub nfs_read_lem :
    (fuel : ℕ) (now : ℕ → ℕ) (blkbuf : List ℕ) (len : ℕ) (f : Fd) (d : Disk)
    → f.is_open ≡ true
    → f.pos ≤ f.sz
    → IsMapped f f.sz
    → len < fuel
    → IsSound d
    → let n = min (f.sz - f.pos) len in
      (d' : Disk) × IsSound d'
      × ((b : ℕ) → block d' b ≡ block d b)
      × (nfs_read fuel now (λ _. none) blkbuf len f d
          ≡ some (some (file_bytes f (block d) n f.pos, n), record f { pos = f.pos + n }, d'))
unfolding nfs_read IsMapped
nfs_read_lem fuel now blkbuf len f d o h mapped l v = elim (Bool-cases (n == 0)) [
  | inl q ↦
      let z : n ≡ 0 = (==_iff n 0).0 q in
      let here : f.pos + 0 ≡ f.pos = omega arith in
      (d, v, λ b. refl, rw (small, o, q, z, here) (unfold file_bytes in refl))
  | inr q ↦
      let (d', v', same, e) =
        read_loop_lem now f n m fuel 0 blkbuf d (omega arith) (ground arith) v in
      let from : f.pos + 0 ≡ f.pos = omega arith in
      let all : n - 0 ≡ n = omega arith in
      let e' : read_loop now (λ _. none) f n fuel 0 blkbuf d
          ≡ some (file_bytes f (block d) n f.pos, n, d') =
        rw (from, all) at e in
      (
        d',
        v',
        same,
        nfs_read-some fuel now blkbuf _ len n f d d' o (ap (λ k. min k len) small) q moved e',
      )
]
  where
    n : ℕ
    n = min (f.sz - f.pos) len

    small : (f.sz + u32_mod - f.pos) % u32_mod ≡ f.sz - f.pos
    small = let s = mapped.0 in omega arith

    inside : f.pos + n ≤ f.sz
    inside = ground arith

    m : IsMapped f (f.pos + n)
    m = (let s = mapped.0 in omega (arith, inside), λ k g. mapped.1 k (omega (arith, inside)))

    moved : (f.pos + n) % u32_mod ≡ f.pos + n
    moved = let s = mapped.0 in omega (arith, inside)
