-- ===== src/Nfs/Writing.antt =====
-- `nfs_write` of fs/nfs.c.
pub mod Step
pub mod Bytes
pub mod Loop
pub mod RoundTrip
use nanos_os.Common.{
  ℕ, zero, suc, ◌+◌, ◌-◌, ◌*◌, ◌/◌, ◌%◌, Bool, true, false, Option, none, some, List, ◌∷◌, length,
  take, drop, get_or, set, replicate, leb, ltb, ◌==◌, if◌then◌else◌,
}
use mathlib.Core.Option
use nanos_os.Common.Bytes.{store}
use nanos_os.Common.Maps.{update}
use nanos_os.Kernel.{u32_mod}
use nanos_os.Nfs.{Disk, rblk, wblk}
use nanos_os.Nfs.Blocks.{Super, alloc_blk}
use nanos_os.Nfs.Files.{Fd, nfs_blk_sz, nfs_direct_blks, min}

-- The descriptor that is written to, the superblock, and the disk
pub record File : Type 0 where
  pub fd : Fd
  pub sb : Super
  pub disk : Disk

-- `memset(blkbuf,0xFF,NFS_BLK_SZ)`
pub blank_block : List ℕ
blank_block = replicate nfs_blk_sz 0xFF

-- What the loop of `nfs_write` has in `blkbuf` before the copy: a new block of 0xFF bytes for the
-- index `bi`, or the block that is there; none if the loop breaks.
pub new_block : ℕ → File → Option (List ℕ × File)
new_block bi s =
    let (r, sb') = alloc_blk s.sb in
    elim r [
      | none ↦ none
      | some nb ↦
          some (blank_block, record s { fd = record s.fd { db = set s.fd.db bi nb }; sb = sb' })
    ]

pub old_block : Option (List ℕ) → ℕ → ℕ → List ℕ → File → List ℕ × File
old_block unread now b blkbuf s =
    let (r, d') = rblk unread now b s.disk in
    (elim r [ none ↦ blkbuf | some x ↦ x ], record s { disk = d' })

pub get_block : Option (List ℕ) → ℕ → ℕ → List ℕ → File → Option (List ℕ × File)
get_block unread now bi blkbuf s =
    let b = get_or s.fd.db bi 0 in
    if leb nfs_direct_blks bi
    then none
    else (if b == 0 then new_block bi s else some (old_block unread now b blkbuf s))

-- The copy of a piece into the block, and `wblk`
pub put_piece : ℕ → ℕ → ℕ → List ℕ → List ℕ → File → List ℕ × File
put_piece now bi bo piece blkbuf s =
    let bytes = store bo piece blkbuf in
    (bytes, record s { disk = wblk now (get_or s.fd.db bi 0) bytes s.disk })

-- The loop of `nfs_write` from `wr` on: the last `wr` and the file. `unread` and `now` are the failure
-- and the time of the accesses at `wr`.
module _ (now : ℕ → ℕ) (unread : ℕ → Option (List ℕ)) (bytes : List ℕ) where
  pub write_loop : ℕ → ℕ → List ℕ → File → Option (ℕ × File)
  write_loop zero wr blkbuf s = none
  write_loop (suc fuel) wr blkbuf s =
      let bi = (s.fd.pos + wr) / nfs_blk_sz in
      let bo = (s.fd.pos + wr) % nfs_blk_sz in
      let ch = min (length bytes - wr) (nfs_blk_sz - bo) in
      let go : Option (ℕ × File) = elim (get_block (unread wr) (now wr) bi blkbuf s) [
        | none ↦ some (wr, s)
        | some x ↦
            let (blkbuf', s') = put_piece (now wr) bi bo (take ch (drop wr bytes)) x.0 x.1 in
            write_loop fuel (wr + ch) blkbuf' s'
      ] in
      if ltb wr (length bytes) then go else some (wr, s)

-- `nfs_write` of a descriptor in range: the number of bytes written, or none for -1, the file, and
-- the inodes that were given to `flash_write`, with their numbers, the last one first. The code does
-- not erase the sector before; what the flash memory then holds is not modelled.
pub nfs_write :
    ℕ
    → (ℕ → ℕ)
    → (ℕ → Option (List ℕ))
    → List ℕ
    → List ℕ
    → File
    → List (ℕ × Fd)
    → Option (Option ℕ × File × List (ℕ × Fd))
nfs_write fuel now unread blkbuf bytes s sent =
    let written =
      Option.map
        (λ (x : ℕ × File).
          let pos' = (s.fd.pos + x.0) % u32_mod in
          let fd' = record x.1.fd {
            pos = pos';
            sz = if ltb x.1.fd.sz pos' then pos' else x.1.fd.sz;
          } in
          (some x.0, record x.1 { fd = fd' }, (fd'.inum, fd') ∷ sent))
        (write_loop now unread bytes fuel 0 blkbuf s) in
    if s.fd.is_open then written else some (none, s, sent)
