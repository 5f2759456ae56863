-- ===== src/Nfs/Writing/RoundTrip.antt =====
-- What `nfs_write` of fs/nfs.c writes, `nfs_read` reads.
use nanos_os.Common.{
  ℕ, ◌+◌, ◌-◌, ◌*◌, ◌/◌, ◌%◌, ◌<◌, ◌≤◌, ◌≡◌, ◌≢◌, ◌⊎◌, refl, ◌∙◌, ap, subst, inl, inr, true, none,
  some, List, ◌∷◌, arith, length, get_or, ltb, if◌then◌else◌, Bool-cases,
}
use nanos_os.Kernel.{u32_mod}
use nanos_os.Nfs.{Disk}
use nanos_os.Nfs.Files.{
  Fd, nfs_blk_sz, nfs_direct_blks, min, nfs_read, file_byte, file_bytes, file_bytes-eq,
}
use nanos_os.Nfs.Files.Reading.{block, IsMapped, nfs_read_lem}
use nanos_os.Nfs.Writing.{File, write_loop, nfs_write}
use nanos_os.Nfs.Writing.Step.{IsFile}
use nanos_os.Nfs.Writing.Bytes.{byte}
use nanos_os.Nfs.Writing.Loop.{IsDone, write_loop_lem}

-- The descriptor after a write up to `pos'`
abbrev moved : Fd → ℕ → Fd
moved f pos' = record f { pos = pos'; sz = if ltb f.sz pos' then pos' else f.sz }

nfs_write-some :
    (fuel wr : ℕ) (now : ℕ → ℕ) (blkbuf bytes : List ℕ) (s s' : File) (sent : List (ℕ × Fd))
    → s.fd.is_open ≡ true
    → (s.fd.pos + wr) % u32_mod ≡ s.fd.pos + wr
    → write_loop now (λ _. none) bytes fuel 0 blkbuf s ≡ some (wr, s')
    → let f = moved s'.fd (s.fd.pos + wr) in
      nfs_write fuel now (λ _. none) blkbuf bytes s sent
      ≡ some (some wr, record s' { fd = f }, (f.inum, f) ∷ sent)
unfolding nfs_write
nfs_write-some fuel wr now blkbuf bytes s s' sent o m e = rw (e, m, o) refl

-- A file that has a block for each byte up to its size, all of which is in use.
pub record IsFilled (s : File) : Type 0 where
  pub file : IsFile s
  pub opened : s.fd.is_open ≡ true
  pub inside : s.fd.pos ≤ s.fd.sz
  pub mapped : IsMapped s.fd s.fd.sz

-- The file after the loop has written all bytes
module _ (now : ℕ → ℕ) (bytes : List ℕ) (s s₁ : File) (v : IsFilled s)
    (d : IsDone bytes 0 (length bytes) s s₁)
    (room : s.fd.pos + length bytes ≤ nfs_direct_blks * nfs_blk_sz) where
  abbrev end : ℕ
  end = s.fd.pos + length bytes

  abbrev s' : File
  s' = record s₁ { fd = moved s₁.fd end }

  size : s'.fd.sz ≡ (if ltb s.fd.sz end then end else s.fd.sz)
  size = ap (λ z. if ltb z end then end else z) d.fd_same.1

  map_kept : (k : ℕ) → k < s'.fd.sz → get_or s₁.fd.db (k / nfs_blk_sz) 0 ≢ 0
  unfolding IsMapped
  map_kept k h = elim (Bool-cases (ltb k s.fd.sz)) [
    | inl q ↦ d.written.still (k / nfs_blk_sz) (v.mapped.1 k (ground arith))
    | inr q ↦ d.written.mapped k (let i = v.inside in ground arith) (let z = size in ground arith)
  ]

  size_room : s'.fd.sz ≤ nfs_direct_blks * nfs_blk_sz
  unfolding IsMapped
  size_room = let z = size in let m = v.mapped.0 in ground arith

  pub moved-IsFilled : IsFilled s'
  unfolding IsMapped
  moved-IsFilled = record {
    file = record {
      sound = d.file.sound;
      sized = d.file.sized;
      counted = d.file.counted;
      owned = d.file.owned;
      distinct = d.file.distinct;
    };
    opened = d.fd_same.2 ∙ v.opened;
    inside = let z = size in ground arith;
    mapped = (size_room, map_kept);
  }

  pub moved_new : (j : ℕ) → j < length bytes → byte s' (s.fd.pos + j) ≡ get_or bytes j 0
  unfolding file_byte
  moved_new j h =
      d.written.new (s.fd.pos + j) (omega arith) (omega arith)
      ∙ ap (λ z. get_or bytes z 0) (omega arith)

  pub moved_old : (k : ℕ) → k < s.fd.sz → (k < s.fd.pos) ⊎ (end ≤ k) → byte s' k ≡ byte s k
  unfolding file_byte IsMapped
  moved_old k h o = d.written.old k outside (v.mapped.1 k h)
    where
      outside : (k < s.fd.pos + 0) ⊎ (end ≤ k)
      outside = elim o [ inl l ↦ inl (omega arith) | inr l ↦ inr l ]

-- `nfs_write` on an open file whose position is not behind its size, with room for all the bytes
-- in 12 blocks and enough free blocks, writes them all, within `length + 1` rounds, and moves the
-- position and, where needed, the size. The bytes are then in the file at the old position on, and
-- all others are kept.
pub nfs_write_lem :
    (fuel : ℕ) (now : ℕ → ℕ) (blkbuf bytes : List ℕ) (s : File) (sent : List (ℕ × Fd))
    → IsFilled s
    → length bytes < fuel
    → s.fd.pos + length bytes ≤ nfs_direct_blks * nfs_blk_sz
    → nfs_direct_blks ≤ s.sb.fblks + s.fd.pos / nfs_blk_sz
    → (s' : File) × (nfs_write fuel now (λ _. none) blkbuf bytes s sent
        ≡ some (some (length bytes), s', (s'.fd.inum, s'.fd) ∷ sent))
      × IsFilled s'
      × (s'.fd.pos ≡ s.fd.pos + length bytes)
      × ((j : ℕ) → j < length bytes → byte s' (s.fd.pos + j) ≡ get_or bytes j 0)
      × ((k : ℕ)
          → k < s.fd.sz
          → (k < s.fd.pos) ⊎ (s.fd.pos + length bytes ≤ k)
          → byte s' k ≡ byte s k)
nfs_write_lem fuel now blkbuf bytes s sent v l room free =
    let (wr, s₁, e, d) =
      write_loop_lem now bytes fuel 0 blkbuf s v.file (omega arith) (omega arith) in
    let all : wr ≡ length bytes = d.all room (ground (arith, free)) in
    let e' = subst (λ w. write_loop now (λ _. none) bytes fuel 0 blkbuf s ≡ some (w, s₁)) all e in
    let d' = subst (λ w. IsDone bytes 0 w s s₁) all d in
    (
      s' now bytes s s₁ v d' room,
      nfs_write-some fuel (length bytes) now blkbuf bytes s s₁ sent v.opened (omega arith) e',
      moved-IsFilled now bytes s s₁ v d' room,
      refl,
      moved_new now bytes s s₁ v d' room,
      moved_old now bytes s s₁ v d' room,
    )

-- `nfs_write` on an open file, whose position is not behind its size and which has a block of its own
-- for each byte, with a coherent cache over flash memory that can be read, room for the bytes in 12
-- blocks and enough free blocks, writes all bytes and gives the inode to `flash_write`, and an
-- `nfs_read` of as many from the place of the write returns them. Both end within one round more than
-- there are bytes.
pub nfs_read-nfs_write :
    (now now' : ℕ → ℕ) (blkbuf blkbuf' bytes : List ℕ) (s : File) (sent : List (ℕ × Fd))
    → IsFilled s
    → s.fd.pos + length bytes ≤ nfs_direct_blks * nfs_blk_sz
    → nfs_direct_blks ≤ s.sb.fblks + s.fd.pos / nfs_blk_sz
    → let fuel = length bytes + 1 in
      (s' : File) × (d' : Disk) × (nfs_write fuel now (λ _. none) blkbuf bytes s sent
        ≡ some (some (length bytes), s', (s'.fd.inum, s'.fd) ∷ sent))
      × (nfs_read fuel now'
            (λ _. none)
            blkbuf'
            (length bytes)
            (record s'.fd { pos = s.fd.pos })
            s'.disk
          ≡ some (some (bytes, length bytes), record s'.fd { pos = s.fd.pos + length bytes }, d'))
unfolding IsMapped file_byte
nfs_read-nfs_write now now' blkbuf blkbuf' bytes s sent v room free =
    let (s', e, v', at, new, old) =
      nfs_write_lem (length bytes + 1) now blkbuf bytes s sent v (omega arith) room free in
    let f : Fd = record s'.fd { pos = s.fd.pos } in
    let inside : s.fd.pos + length bytes ≤ s'.fd.sz = omega (arith, at, v'.inside) in
    let (d', sound, same, r) =
      nfs_read_lem (length bytes + 1) now' blkbuf' (length bytes) f s'.disk v'.opened
        (omega (arith, inside)) v'.mapped (omega arith) v'.file.sound in
    let all : min (s'.fd.sz - s.fd.pos) (length bytes) ≡ length bytes = ground (arith, inside) in
    let found : file_bytes f (block s'.disk) (length bytes) s.fd.pos ≡ bytes =
      file_bytes-eq f (block s'.disk) bytes s.fd.pos new in
    let r' =
      subst
        (λ n.
          nfs_read (length bytes + 1) now' (λ _. none) blkbuf' (length bytes) f s'.disk
          ≡ some (
            some (file_bytes f (block s'.disk) n s.fd.pos, n),
            record s'.fd { pos = s.fd.pos + n },
            d',
          ))
        all r in
    (
      s',
      d',
      e,
      r'
          ∙ ap
              (λ z.
                some (some (z, length bytes), record s'.fd { pos = s.fd.pos + length bytes }, d'))
              found,
    )
