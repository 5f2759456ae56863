-- ===== src/Nfs/Blocks.antt =====
-- `alloc_blk` of fs/nfs.c. The bitmap `blkbmp` is given by its bits; `erase_cnt` is there if its
-- memory was.
use nanos_os.Common.{
  ℕ, zero, suc, ◌+◌, ◌-◌, ◌%◌, ◌<◌, ◌≤◌, ◌≡◌, ◌≢◌, refl, ◌⊎◌, inl, inr, Bool, true, false, Option,
  none, some, arith, if◌then◌else◌, Bool-cases, ◌∙◌, subst, ltb, ◌==◌, ==_iff,
}
use nanos_os.Common.Maps.{update, update_self, update_ne}
use nanos_os.Kernel.{u16_mod, u32_mod}

-- Of `s_sb` and `s_erase_cnt`, what the allocation uses
pub record Super : Type 0 where
  pub blkbmp : ℕ → Bool
  pub fblks : ℕ
  pub erase_cnt : Option (ℕ → ℕ)

abbrev pub nfs_blks : ℕ
nfs_blks = 2048

-- `NFS_DATA_OFF/NFS_BLK_SZ`
abbrev pub nfs_data_off : ℕ
nfs_data_off = 1 + 16 + 64

abbrev pub nfs_data_blks : ℕ
nfs_data_blks = nfs_blks - 1 - 16 - 64

-- The first of the `n` bits from `i` on that is clear
pub clear_bit : ℕ → ℕ → (ℕ → Bool) → Option ℕ
clear_bit zero i bmp = none
clear_bit (suc n) i bmp = let later = clear_bit n (i + 1) bmp in if bmp i then later else some i

take_blk : ℕ → Super → Super
take_blk i sb = record sb {
  blkbmp = update sb.blkbmp i true;
  fblks = (sb.fblks + u32_mod - 1) % u32_mod;
  erase_cnt = elim sb.erase_cnt [ none ↦ none | some c ↦ some (update c i ((c i + 1) % u16_mod)) ];
}

-- `alloc_blk`: the block, or none for -1
pub alloc_blk : Super → Option ℕ × Super
alloc_blk sb = elim (clear_bit nfs_data_blks 0 sb.blkbmp) [
  | none ↦ (none, sb)
  | some i ↦ (some (nfs_data_off + i), take_blk i sb)
]

-- The number of clear bits below `n`
pub free : ℕ → (ℕ → Bool) → ℕ
free zero bmp = 0
free (suc n) bmp = free n bmp + (if bmp n then 0 else 1)

clear_bit_lem :
    (n i : ℕ) (bmp : ℕ → Bool)
    → ((clear_bit n i bmp ≡ none) × ((j : ℕ) → i ≤ j → j < i + n → bmp j ≡ true))
      ⊎ ((k : ℕ) × (clear_bit n i bmp ≡ some k)
          × (k < i + n)
          × (i ≤ k)
          × (bmp k ≡ false)
          × ((j : ℕ) → i ≤ j → j < k → bmp j ≡ true))
unfolding clear_bit
clear_bit_lem zero i bmp = inl (refl, λ j h g. absurd (omega arith))
clear_bit_lem (suc n) i bmp = elim (Bool-cases (bmp i)) [
  | inr q ↦ inr (i, rw (q) refl, omega arith, omega arith, q, λ j h g. absurd (omega arith))
  | inl q ↦
      let from : (b : ℕ)
          → ((j : ℕ) → i + 1 ≤ j → j < b → bmp j ≡ true)
          → (j : ℕ) → i ≤ j
          → j < b
          → bmp j ≡ true =
        λ b h j l g. elim (Bool-cases (ltb i j)) [
          | inl w ↦ h j (ground arith) g
          | inr w ↦ subst (λ k. bmp k ≡ true) (ground arith) q
        ] in
      elim (clear_bit_lem n (i + 1) bmp) [
        | inl (f, all) ↦ inl (rw (q, f) refl, from (i + suc n) (λ j l g. all j l (omega arith)))
        | inr (k, f, l, g, c, all) ↦
            inr (k, rw (q, f) refl, omega arith, omega arith, c, from k all)
      ]
]

free-update_out : (n i : ℕ) (bmp : ℕ → Bool) → n ≤ i → free n (update bmp i true) ≡ free n bmp
unfolding free
free-update_out zero i bmp h = refl
free-update_out (suc n) i bmp h =
    ground (arith, free-update_out n i bmp (omega arith), update_ne bmp i n true)

free-update :
    (n i : ℕ) (bmp : ℕ → Bool) → i < n → bmp i ≡ false → free n (update bmp i true) + 1 ≡ free n bmp
unfolding free
free-update zero i bmp h c = absurd (omega arith)
free-update (suc n) i bmp h c = elim (Bool-cases (i == n)) [
  | inl q ↦
      let p = (==_iff i n).0 q in
      let u : update bmp i true n ≡ true =
        subst (λ k. update bmp i true k ≡ true) p (update_self bmp i true) in
      let w : bmp n ≡ false = subst (λ k. bmp k ≡ false) p c in
      rw (u, w) (omega (arith, free-update_out n i bmp (omega arith)))
  | inr q ↦
      let r : i ≢ n = λ p. ground arith in
      let less : i < n = ground arith in
      rw (update_ne bmp i n true r) (omega (arith, free-update n i bmp less c))
]

free-full : (n : ℕ) (bmp : ℕ → Bool) → ((j : ℕ) → j < n → bmp j ≡ true) → free n bmp ≡ 0
unfolding free
free-full zero bmp h = refl
free-full (suc n) bmp h =
    rw (h n (omega arith)) (omega (arith, free-full n bmp (λ j l. h j (omega arith))))

free_le : (n : ℕ) (bmp : ℕ → Bool) → free n bmp ≤ n
unfolding free
free_le zero bmp = omega arith
free_le (suc n) bmp = ground (arith, free_le n bmp)

-- After the formatting all blocks are free.
pub free-empty : (n : ℕ) → free n (λ i. false) ≡ n
unfolding free
free-empty zero = refl
free-empty (suc n) = omega (arith, free-empty n)

-- If `fblks` counts the blocks that are free, it does so after `alloc_blk` too. The call fails,
-- with no change, exactly when the count is 0; otherwise it gives the first block of the data area
-- that was free, which lies inside the area and is not free any more, and no other block changes.
pub alloc_blk_lem :
    (sb : Super)
    → sb.fblks ≡ free nfs_data_blks sb.blkbmp
    → let (r, sb') = alloc_blk sb in
      (sb'.fblks ≡ free nfs_data_blks sb'.blkbmp)
      × (((r ≡ none) × (sb' ≡ sb) × (sb.fblks ≡ 0))
          ⊎ ((i : ℕ) × (r ≡ some (nfs_data_off + i))
              × (nfs_data_off + i < nfs_blks)
              × (sb'.fblks + 1 ≡ sb.fblks)
              × (sb.blkbmp i ≡ false)
              × ((j : ℕ) → j < i → sb.blkbmp j ≡ true)
              × (sb'.blkbmp ≡ update sb.blkbmp i true)))
unfolding alloc_blk take_blk
alloc_blk_lem sb h = elim (clear_bit_lem nfs_data_blks 0 sb.blkbmp) [
  | inl (f, all) ↦
      let full = free-full nfs_data_blks sb.blkbmp (λ j l. all j (omega arith) (omega arith)) in
      rw (alloc_blk, f) (h, inl (refl, refl, h ∙ full))
  | inr (i, f, l, g, c, all) ↦
      let one = free-update nfs_data_blks i sb.blkbmp (omega arith) c in
      let most = free_le nfs_data_blks sb.blkbmp in
      rw (alloc_blk, f)
        (
          omega (arith, one, most, h),
          inr (
            i,
            refl,
            omega arith,
            omega (arith, one, most, h),
            c,
            λ j w. all j (omega arith) w,
            refl,
          ),
        )
]
