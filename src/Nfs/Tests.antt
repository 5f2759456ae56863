-- ===== src/Nfs/Tests.antt =====
-- The theorems on fs/nfs.c, at small states.
use nanos_os.Common.{
  ℕ, zero, suc, ◌+◌, ◌-◌, ◌/◌, ◌<◌, ◌≡◌, ◌≢◌, ◌⊎◌, refl, ◌∙◌, ap, subst, sym, true, false, none,
  some, [], ◌∷◌, arith, length, get_or, replicate,
}
use nanos_os.Common.Maps.{update}
use nanos_os.Nfs.{no_entry, Disk, reset_cache}
use nanos_os.Nfs.Cache.{stored_miss}
use nanos_os.Nfs.Store.{
  read, write, cached, plain, cached-reset_refines, reset_cache-Coherent, reset_empty,
}
use nanos_os.Nfs.Blocks.{
  Super, alloc_blk, alloc_blk_lem, free, free-empty, nfs_data_blks, nfs_data_off, nfs_blks,
}
use nanos_os.Nfs.Files.{Fd, nfs_read, file_bytes, min}
use nanos_os.Nfs.Files.Reading.{block, IsSound, IsMapped, nfs_read_lem}
use nanos_os.Nfs.Writing.{File, nfs_write, blank_block}
use nanos_os.Nfs.Writing.Step.{length-blank_block}
use nanos_os.Nfs.Writing.RoundTrip.{IsFilled, nfs_read-nfs_write}

-- A disk of blank blocks, and an empty cache
abbrev blank_disk : Disk
blank_disk = record {
  cache = reset_cache (replicate 8 no_entry);
  flash = λ b. blank_block;
  reads = 0;
  writes = 0;
  erases = 0;
  hits = 0;
  miss = 0;
}

blank_disk-IsSound : IsSound blank_disk
blank_disk-IsSound = record {
  coherent = reset_cache-Coherent (replicate 8 no_entry) _ refl;
  whole = λ b.
      ap length (stored_miss b _ _ (reset_empty (replicate 8 no_entry) b)) ∙ length-blank_block;
}

cached-reset_refines_example :
    cached
      (write 1 90 (7 ∷ []) ∷ read 2 90 ∷ [])
      (record blank_disk { cache = reset_cache (replicate 8 no_entry) })
    ≡ plain (write 1 90 (7 ∷ []) ∷ read 2 90 ∷ []) (λ b. blank_block)
cached-reset_refines_example =
    cached-reset_refines (write 1 90 (7 ∷ []) ∷ read 2 90 ∷ [])
      (record blank_disk { cache = replicate 8 no_entry }) refl

abbrev empty_super : Super
empty_super = record { blkbmp = λ i. false; fblks = 1967; erase_cnt = none }

alloc_blk_lem_example :
    let (r, sb') = alloc_blk empty_super in
    (sb'.fblks ≡ free nfs_data_blks sb'.blkbmp)
    × (((r ≡ none) × (sb' ≡ empty_super) × (empty_super.fblks ≡ 0))
        ⊎ ((i : ℕ) × (r ≡ some (nfs_data_off + i))
            × (nfs_data_off + i < nfs_blks)
            × (sb'.fblks + 1 ≡ empty_super.fblks)
            × (empty_super.blkbmp i ≡ false)
            × ((j : ℕ) → j < i → empty_super.blkbmp j ≡ true)
            × (sb'.blkbmp ≡ update empty_super.blkbmp i true)))
alloc_blk_lem_example = alloc_blk_lem empty_super (sym (free-empty nfs_data_blks))

-- A file of five bytes in one block
abbrev small_file : Fd
small_file = record { is_open = true; inum = 0; sz = 5; db = 81 ∷ replicate 11 0; pos = 2 }

small_file-IsMapped : IsMapped small_file 5
unfolding IsMapped
small_file-IsMapped = (omega arith, λ k h z. first k h z)
  where
    first : (k : ℕ) → k < 5 → get_or small_file.db (k / 4096) 0 ≢ 0
    first k h z =
        let e : k / 4096 ≡ 0 = omega arith in
        let w : ◌≡◌ {A = ℕ} 81 0 = subst (λ i. get_or small_file.db i 0 ≡ 0) e z in
        absurd (omega arith)

nfs_read_lem_example :
    (d' : Disk) × IsSound d'
    × ((b : ℕ) → block d' b ≡ block blank_disk b)
    × (nfs_read 11 (λ i. 0) (λ i. none) [] 10 small_file blank_disk
        ≡ some (
          some (file_bytes small_file (block blank_disk) (min (5 - 2) 10) 2, min (5 - 2) 10),
          record small_file { pos = 2 + min (5 - 2) 10 },
          d',
        ))
nfs_read_lem_example =
    nfs_read_lem 11 (λ i. 0) [] 10 small_file blank_disk refl (omega arith) small_file-IsMapped
      (omega arith) blank_disk-IsSound

-- A new file
abbrev new_file : File
new_file = record {
  fd = record { is_open = true; inum = 0; sz = 0; db = replicate 12 0; pos = 0 };
  sb = empty_super;
  disk = blank_disk;
}

no_blk : (n i : ℕ) → ◌≡◌ {A = ℕ} (get_or (replicate n 0) i 0) 0
no_blk zero i = refl
no_blk (suc n) zero = refl
no_blk (suc n) (suc i) = no_blk n i

new_file-IsFilled : IsFilled new_file
unfolding IsMapped
new_file-IsFilled = record {
  file = record {
    sound = blank_disk-IsSound;
    sized = refl;
    counted = sym (free-empty nfs_data_blks);
    owned = λ i n. absurd (n (no_blk 12 i));
    distinct = λ i j n e. absurd (n (no_blk 12 i));
  };
  opened = refl;
  inside = omega arith;
  mapped = (omega arith, λ k h. absurd (omega arith));
}

nfs_read-nfs_write_example :
    (s' : File) × (d' : Disk) × (nfs_write 3 (λ i. 0) (λ i. none) [] (8 ∷ 9 ∷ []) new_file []
      ≡ some (some 2, s', (s'.fd.inum, s'.fd) ∷ []))
    × (nfs_read 3 (λ i. 1) (λ i. none) [] 2 (record s'.fd { pos = 0 }) s'.disk
        ≡ some (some (8 ∷ 9 ∷ [], 2), record s'.fd { pos = 2 }, d'))
nfs_read-nfs_write_example =
    nfs_read-nfs_write (λ i. 0) (λ i. 1) [] [] (8 ∷ 9 ∷ []) new_file [] new_file-IsFilled
      (omega arith) (omega arith)
