-- ===== src/Nfs/Files.antt =====
-- Descriptors and `nfs_read` of fs/nfs.c.
pub mod Reading
use nanos_os.Common.{
  ℕ, zero, suc, ◌+◌, ◌-◌, ◌*◌, ◌/◌, ◌%◌, ◌<◌, ◌≤◌, ◌≡◌, ◌≢◌, refl, ◌∙◌, ap, sym, subst, inl, inr,
  Bool, true, false, Option, none, some, List, [], ◌∷◌, ◌++◌, arith, length, take, drop, get_or,
  leb, ltb, ◌==◌, ◌||◌, if◌then◌else◌, Bool-cases,
}
use mathlib.Core.Option
use nanos_os.Kernel.{u32_mod}
use nanos_os.Nfs.{Disk, rblk}
use nanos_os.Nfs.Cache.{Coherent, stored}
use nanos_os.Nfs.Store.{IsUpdated, rblk_lem}

-- Of `fd_t` and its inode, what reading and writing use
pub record Fd : Type 0 where
  pub is_open : Bool
  pub inum : ℕ
  pub sz : ℕ
  pub db : List ℕ
  pub pos : ℕ

abbrev pub nfs_blk_sz : ℕ
nfs_blk_sz = 4096

abbrev pub nfs_direct_blks : ℕ
nfs_direct_blks = 12

-- `MIN`
abbrev pub min : ℕ → ℕ → ℕ
min a b = if ltb a b then a else b

-- The loop of `nfs_read`: the bytes copied from `rd` on, the last `rd`, and the disk. `now` and
-- `unread` are the time and the failure of the access at `rd`; `blkbuf` keeps what it has if the
-- access fails. `pos` and `rd` stay within 12 blocks, so that their sum does not wrap.
module _ (now : ℕ → ℕ) (unread : ℕ → Option (List ℕ)) (f : Fd) (len : ℕ) where
  pub read_loop : ℕ → ℕ → List ℕ → Disk → Option (List ℕ × ℕ × Disk)
  read_loop zero rd blkbuf d = none
  read_loop (suc fuel) rd blkbuf d =
      let bi = (f.pos + rd) / nfs_blk_sz in
      let bo = (f.pos + rd) % nfs_blk_sz in
      let ch = min (len - rd) (nfs_blk_sz - bo) in
      let b = get_or f.db bi 0 in
      let (r, d') = rblk (unread rd) (now rd) b d in
      let blkbuf' : List ℕ = elim r [ none ↦ blkbuf | some x ↦ x ] in
      let rest = read_loop fuel (rd + ch) blkbuf' d' in
      let copied = take ch (drop bo blkbuf') in
      if ltb rd len
      then (if leb nfs_direct_blks bi || b == 0
          then some ([], rd, d)
          else Option.map (λ (x : List ℕ × ℕ × Disk). (copied ++ x.0, x.1, x.2)) rest)
      else some ([], rd, d)

-- `nfs_read` of a descriptor in range: the bytes read and the number returned, or none for -1, with
-- the descriptor and the disk.
pub nfs_read :
    ℕ
    → (ℕ → ℕ)
    → (ℕ → Option (List ℕ))
    → List ℕ
    → ℕ
    → Fd
    → Disk
    → Option (Option (List ℕ × ℕ) × Fd × Disk)
nfs_read fuel now unread blkbuf len f d =
    let rem = (f.sz + u32_mod - f.pos) % u32_mod in
    let len' = if ltb rem len then rem else len in
    if f.is_open
    then (if len' == 0
        then some (some ([], 0), f, d)
        else Option.map
            (λ (x : List ℕ × ℕ × Disk).
              (some (x.0, x.1), record f { pos = (f.pos + x.1) % u32_mod }, x.2))
            (read_loop now unread f len' fuel 0 blkbuf d))
    else some (none, f, d)

-- The byte at `k` of the file, and the `n` bytes from there on
unfoldable pub file_byte : Fd → (ℕ → List ℕ) → ℕ → ℕ
file_byte f blocks k = get_or (blocks (get_or f.db (k / nfs_blk_sz) 0)) (k % nfs_blk_sz) 0

pub file_bytes : Fd → (ℕ → List ℕ) → ℕ → ℕ → List ℕ
file_bytes f blocks zero k = []
file_bytes f blocks (suc n) k = file_byte f blocks k ∷ file_bytes f blocks n (suc k)

pub file_bytes-add :
    (f : Fd) (blocks : ℕ → List ℕ) (m n k : ℕ)
    → file_bytes f blocks (m + n) k ≡ file_bytes f blocks m k ++ file_bytes f blocks n (k + m)
unfolding file_bytes
file_bytes-add f blocks zero n k =
    let p : 0 + n ≡ n = omega arith in let q : k + 0 ≡ k = omega arith in rw (p, q) refl
file_bytes-add f blocks (suc m) n k =
    let p : suc m + n ≡ suc (m + n) = omega arith in
    let q : k + suc m ≡ suc k + m = omega arith in
    rw (p, q) (ap (file_byte f blocks k ∷◌) (file_bytes-add f blocks m n (suc k)))

take-drop :
    (xs : List ℕ) (i n : ℕ)
    → i + suc n ≤ length xs
    → take (suc n) (drop i xs) ≡ get_or xs i 0 ∷ take n (drop (suc i) xs)
take-drop [] i n h = absurd (omega arith)
take-drop (x ∷ xs) zero n h = refl
take-drop (x ∷ xs) (suc i) n h = take-drop xs i n (omega arith)

-- What lies in one block is a piece of it.
pub block_bytes :
    (f : Fd) (blocks : ℕ → List ℕ) (n k : ℕ)
    → length (blocks (get_or f.db (k / nfs_blk_sz) 0)) ≡ nfs_blk_sz
    → k % nfs_blk_sz + n ≤ nfs_blk_sz
    → take n (drop (k % nfs_blk_sz) (blocks (get_or f.db (k / nfs_blk_sz) 0)))
      ≡ file_bytes f blocks n k
unfolding file_bytes file_byte
block_bytes f blocks zero k full h = refl
block_bytes f blocks (suc zero) k full h =
    take-drop (blocks (get_or f.db (k / nfs_blk_sz) 0)) (k % nfs_blk_sz) 0 (omega (arith, full))
block_bytes f blocks (suc (suc n)) k full h =
    take-drop (blocks (get_or f.db (k / nfs_blk_sz) 0)) (k % nfs_blk_sz) (suc n)
      (omega (arith, full))
    ∙ ap (file_byte f blocks k ∷◌) (
        subst
          (λ z.
            take (suc n) (drop z (blocks (get_or f.db (k / nfs_blk_sz) 0)))
            ≡ file_bytes f blocks (suc n) (suc k))
          r
          (subst
            (λ z.
              take (suc n) (drop (suc k % nfs_blk_sz) (blocks (get_or f.db z 0)))
              ≡ file_bytes f blocks (suc n) (suc k))
            q (block_bytes f blocks (suc n) (suc k) full' (omega arith))))
  where
    q : suc k / nfs_blk_sz ≡ k / nfs_blk_sz
    q = omega arith

    r : suc k % nfs_blk_sz ≡ suc (k % nfs_blk_sz)
    r = omega arith

    full' : length (blocks (get_or f.db (suc k / nfs_blk_sz) 0)) ≡ nfs_blk_sz
    full' = subst (λ z. length (blocks (get_or f.db z 0)) ≡ nfs_blk_sz) (sym q) full

-- Bytes that are found one by one are read together.
pub file_bytes-eq :
    (f : Fd) (blocks : ℕ → List ℕ) (xs : List ℕ) (k : ℕ)
    → ((j : ℕ) → j < length xs → file_byte f blocks (k + j) ≡ get_or xs j 0)
    → file_bytes f blocks (length xs) k ≡ xs
unfolding file_bytes
file_bytes-eq f blocks [] k h = refl
file_bytes-eq f blocks (x ∷ xs) k h =
    ap (λ z. z ∷ file_bytes f blocks (length xs) (suc k))
      (ap (file_byte f blocks) (omega arith) ∙ h 0 (omega arith))
    ∙ ap (x ∷◌) (
        file_bytes-eq f blocks xs (suc k)
          (λ j l. ap (file_byte f blocks) (omega arith) ∙ h (suc j) (omega arith)))
