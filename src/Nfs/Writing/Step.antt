-- ===== src/Nfs/Writing/Step.antt =====
-- One round of `nfs_write` of fs/nfs.c.
use nanos_os.Common.{
  ℕ, ◌+◌, ◌<◌, ◌≤◌, ◌≡◌, ◌≢◌, ◌⊎◌, refl, ◌∙◌, ap, sym, subst, inl, inr, true, false, none, some,
  List, arith, length, length-set, length-replicate, get_or, set, get_or-set_self, get_or-set_ne,
  leb, ◌==◌, ==_iff, Bool-cases,
}
use nanos_os.Common.Bytes.{store, length-store}
use nanos_os.Common.Maps.{update, update_self, update_ne}
use nanos_os.Nfs.{rblk, wblk}
use nanos_os.Nfs.Blocks.{Super, alloc_blk, alloc_blk_lem, free, nfs_data_blks, nfs_data_off}
use nanos_os.Nfs.Store.{rblk_lem, read_same, wblk_lem}
use nanos_os.Nfs.Files.{nfs_blk_sz, nfs_direct_blks}
use nanos_os.Nfs.Files.Reading.{block, IsSound}
use nanos_os.Nfs.Writing.{File, get_block, new_block, old_block, blank_block, put_piece}

-- The block of the file at an index, or 0
abbrev pub blk : File → ℕ → ℕ
blk s i = get_or s.fd.db i 0

-- The disk is sound, `fblks` counts the free blocks, and the blocks of the file are not free and
-- differ from each other.
pub record IsFile (s : File) : Type 0 where
  pub sound : IsSound s.disk
  pub sized : length s.fd.db ≡ nfs_direct_blks
  pub counted : s.sb.fblks ≡ free nfs_data_blks s.sb.blkbmp
  pub owned :
      (i : ℕ) → blk s i ≢ 0 → (k : ℕ) × (blk s i ≡ nfs_data_off + k) × (s.sb.blkbmp k ≡ true)
  pub distinct : (i j : ℕ) → blk s i ≢ 0 → blk s i ≡ blk s j → i ≡ j

-- The block at the index is there, and its contents are in `buf`.
pub record IsOpened (bi : ℕ) (s : File) (buf : List ℕ) (s₁ : File) : Type 0 where
  pub file : IsFile s₁
  pub here : blk s₁ bi ≢ 0
  pub at : s₁.fd.pos ≡ s.fd.pos
  pub fixed : (s₁.fd.sz ≡ s.fd.sz) × (s₁.fd.is_open ≡ s.fd.is_open)
  pub full : length buf ≡ nfs_blk_sz
  pub others : (i : ℕ) → i ≢ bi → blk s₁ i ≡ blk s i
  pub kept : blk s bi ≢ 0 → (blk s₁ bi ≡ blk s bi) × (buf ≡ block s.disk (blk s bi))
  pub same : (b : ℕ) → block s₁.disk b ≡ block s.disk b
  pub spent : s.sb.fblks ≤ s₁.sb.fblks + 1

old_block-IsOpened :
    (now bi : ℕ) (blkbuf : List ℕ) (s : File)
    → IsFile s
    → blk s bi ≢ 0
    → let (buf, s₁) = old_block none now (blk s bi) blkbuf s in IsOpened bi s buf s₁
unfolding old_block
old_block-IsOpened now bi blkbuf s v h =
    let (bytes, r, q, u) = rblk_lem now (blk s bi) s.disk v.sound.coherent in
    let same : (b : ℕ) → block (rblk none now (blk s bi) s.disk).1 b ≡ block s.disk b =
      λ b. read_same _ b bytes _ _ _ _ q u in
    rw (old_block, r)
      (record {
        file = record {
          sound = record {
            coherent = u.coherent;
            whole = λ b. ap length (same b) ∙ v.sound.whole b;
          };
          sized = v.sized;
          counted = v.counted;
          owned = v.owned;
          distinct = v.distinct;
        };
        here = h;
        at = refl;
        fixed = (refl, refl);
        full = ap length q ∙ v.sound.whole _;
        others = λ i _. refl;
        kept = λ _. (refl, q);
        same = same;
        spent = omega arith;
      })

pub length-blank_block : length blank_block ≡ nfs_blk_sz
unfolding blank_block
length-blank_block = length-replicate {A = ℕ} nfs_blk_sz 0xFF

-- The index was free, and now has the block `i` of the data area, which was free too.
module _ (bi i : ℕ) (s : File) (sb' : Super) (v : IsFile s) (l : bi < nfs_direct_blks)
    (h : blk s bi ≡ 0) (c : sb'.fblks ≡ free nfs_data_blks sb'.blkbmp)
    (one : sb'.fblks + 1 ≡ s.sb.fblks) (clear : s.sb.blkbmp i ≡ false)
    (m : sb'.blkbmp ≡ update s.sb.blkbmp i true) where
  abbrev s₁ : File
  s₁ = record s { fd = record s.fd { db = set s.fd.db bi (nfs_data_off + i) }; sb = sb' }

  here : blk s₁ bi ≡ nfs_data_off + i
  here = get_or-set_self s.fd.db bi _ 0 (omega (arith, v.sized))

  there : (j : ℕ) → j ≢ bi → blk s₁ j ≡ blk s j
  there j n = get_or-set_ne s.fd.db bi j _ 0 n

  -- No other index has that block.
  new_alone : (j : ℕ) → blk s j ≢ nfs_data_off + i
  new_alone j e =
      let (k, p, q) = v.owned j (λ z. ground arith) in
      let same : k ≡ i = omega arith in
      let w : s.sb.blkbmp i ≡ true = subst (λ x. s.sb.blkbmp x ≡ true) same q in cc

  owned_still :
      (j : ℕ) → blk s₁ j ≢ 0 → (k : ℕ) × (blk s₁ j ≡ nfs_data_off + k) × (sb'.blkbmp k ≡ true)
  owned_still j n = elim (Bool-cases (j == bi)) [
    | inl q ↦
        let e = (==_iff j bi).0 q in
        (i, ap (blk s₁) e ∙ here, ap (λ b. b i) m ∙ update_self s.sb.blkbmp i true)
    | inr q ↦
        let d : j ≢ bi = λ p. ground arith in
        let (k, p, w) = v.owned j (λ z. n (there j d ∙ z)) in
        let other : i ≢ k = λ p. (let z = subst (λ x. s.sb.blkbmp x ≡ false) p clear in cc) in
        (k, there j d ∙ p, ap (λ b. b k) m ∙ update_ne s.sb.blkbmp i k true other ∙ w)
  ]

  distinct_still : (j k : ℕ) → blk s₁ j ≢ 0 → blk s₁ j ≡ blk s₁ k → j ≡ k
  distinct_still j k n e = elim (Bool-cases (j == bi)) [
    | inl q ↦ elim (Bool-cases (k == bi)) [
      | inl r ↦ (==_iff j bi).0 q ∙ sym ((==_iff k bi).0 r)
      | inr r ↦
          let d : k ≢ bi = λ p. ground arith in
          absurd (new_alone k (sym (there k d) ∙ sym e ∙ ap (blk s₁) ((==_iff j bi).0 q) ∙ here))
    ]
    | inr q ↦
        let d : j ≢ bi = λ p. ground arith in
        elim (Bool-cases (k == bi)) [
          | inl r ↦
              absurd (new_alone j (sym (there j d) ∙ e ∙ ap (blk s₁) ((==_iff k bi).0 r) ∙ here))
          | inr r ↦
              let g : k ≢ bi = λ p. ground arith in
              v.distinct j k (λ z. n (there j d ∙ z)) (sym (there j d) ∙ e ∙ there k g)
        ]
  ]

  added-IsOpened : IsOpened bi s blank_block s₁
  added-IsOpened = record {
    file = record {
      sound = v.sound;
      sized = length-set s.fd.db bi _ ∙ v.sized;
      counted = c;
      owned = owned_still;
      distinct = distinct_still;
    };
    here = λ z. ground (arith, here);
    at = refl;
    fixed = (refl, refl);
    full = length-blank_block;
    others = there;
    kept = λ n. absurd (n h);
    same = λ b. refl;
    spent = omega (arith, one);
  }

new_block-IsOpened :
    (bi : ℕ) (s : File)
    → IsFile s
    → bi < nfs_direct_blks
    → blk s bi ≡ 0
    → ((new_block bi s ≡ none) × (s.sb.fblks ≡ 0))
      ⊎ ((buf : List ℕ) × (s₁ : File) × (new_block bi s ≡ some (buf, s₁)) × IsOpened bi s buf s₁)
unfolding new_block
new_block-IsOpened bi s v l h =
    let (c, o) = alloc_blk_lem s.sb v.counted in
    elim o [
      | inl (r, e, z) ↦ inl (rw (new_block, r) refl, z)
      | inr (i, r, inside, one, clear, first, m) ↦ inr (
        blank_block,
        record s {
          fd = record s.fd { db = set s.fd.db bi (nfs_data_off + i) };
          sb = (alloc_blk s.sb).1;
        },
        rw (new_block, r) refl,
        added-IsOpened bi i s (alloc_blk s.sb).1 v l h c one clear m,
      )
    ]

-- The block at an index within the file is there, or a new one is, or no block is free.
pub get_block_lem :
    (now bi : ℕ) (blkbuf : List ℕ) (s : File)
    → IsFile s
    → bi < nfs_direct_blks
    → ((get_block none now bi blkbuf s ≡ none) × (s.sb.fblks ≡ 0))
      ⊎ ((buf : List ℕ) × (s₁ : File) × (get_block none now bi blkbuf s ≡ some (buf, s₁))
          × IsOpened bi s buf s₁)
unfolding get_block
get_block_lem now bi blkbuf s v l = elim (Bool-cases (blk s bi == 0)) [
  | inl q ↦ rw (get_block, within, q) (new_block-IsOpened bi s v l ((==_iff (blk s bi) 0).0 q))
  | inr q ↦
      let n : blk s bi ≢ 0 = λ z. ground arith in
      rw (get_block, within, q) (inr (_, _, refl, old_block-IsOpened now bi blkbuf s v n))
]
  where
    within : leb nfs_direct_blks bi ≡ false
    within = ground arith

-- The piece is stored in the block, and no other block changes.
pub put_piece_lem :
    (now bi bo : ℕ) (piece buf : List ℕ) (s s₁ : File)
    → IsOpened bi s buf s₁
    → let s₂ = (put_piece now bi bo piece buf s₁).1 in
      IsFile s₂
      × (block s₂.disk (blk s₁ bi) ≡ store bo piece buf)
      × ((b : ℕ) → b ≢ blk s₁ bi → block s₂.disk b ≡ block s.disk b)
unfolding put_piece
put_piece_lem now bi bo piece buf s s₁ o =
    let v = o.file in
    let u = wblk_lem now (blk s₁ bi) (store bo piece buf) s₁.disk v.sound.coherent in
    (
      record {
        sound = record {
          coherent = u.coherent;
          whole = λ b. elim (Bool-cases (b == blk s₁ bi)) [
            | inl q ↦
                subst
                  (λ k.
                    length (block (wblk now (blk s₁ bi) (store bo piece buf) s₁.disk) k)
                    ≡ nfs_blk_sz)
                  (sym ((==_iff b (blk s₁ bi)).0 q))
                  (ap length u.this ∙ length-store bo piece buf ∙ o.full)
            | inr q ↦
                let n : b ≢ blk s₁ bi = λ z. ground arith in
                ap length (u.others b n) ∙ v.sound.whole b
          ];
        };
        sized = v.sized;
        counted = v.counted;
        owned = v.owned;
        distinct = v.distinct;
      },
      u.this,
      λ b n. u.others b n ∙ o.same b,
    )
