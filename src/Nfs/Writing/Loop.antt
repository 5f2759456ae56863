-- ===== src/Nfs/Writing/Loop.antt =====
-- The loop of `nfs_write` of fs/nfs.c.
use nanos_os.Common.{
  ℕ, zero, suc, ◌+◌, ◌-◌, ◌*◌, ◌/◌, ◌%◌, ◌<◌, ◌≤◌, ◌≡◌, refl, ◌∙◌, subst, inl, inr, true, false,
  none, some, List, arith, length, take, drop, ltb, Bool-cases, leb,
}
use nanos_os.Nfs.Files.{nfs_blk_sz, nfs_direct_blks, min}
use nanos_os.Nfs.Writing.{File, get_block, put_piece, write_loop}
use nanos_os.Nfs.Writing.Step.{IsFile, IsOpened, get_block_lem, put_piece_lem}
use nanos_os.Nfs.Writing.Bytes.{IsWritten, put_piece-IsWritten, IsWritten-trans}

-- From `wr` on the loop has written the bytes up to `wr'`. It stops before the end only where the
-- file has no more room or no block is free.
pub record IsDone (bytes : List ℕ) (wr wr' : ℕ) (s s' : File) : Type 0 where
  pub file : IsFile s'
  pub from : wr ≤ wr'
  pub upto : wr' ≤ length bytes
  pub written : IsWritten bytes s.fd.pos wr wr' s s'
  pub fd_same : (s'.fd.pos ≡ s.fd.pos) × (s'.fd.sz ≡ s.fd.sz) × (s'.fd.is_open ≡ s.fd.is_open)
  pub all :
      s.fd.pos + length bytes ≤ nfs_direct_blks * nfs_blk_sz
      → nfs_direct_blks ≤ s.sb.fblks + (s.fd.pos + wr) / nfs_blk_sz
      → wr' ≡ length bytes

stopped :
    (bytes : List ℕ) (wr : ℕ) (s : File)
    → IsFile s
    → wr ≤ length bytes
    → (s.fd.pos + length bytes ≤ nfs_direct_blks * nfs_blk_sz
        → nfs_direct_blks ≤ s.sb.fblks + (s.fd.pos + wr) / nfs_blk_sz
        → wr ≡ length bytes)
    → IsDone bytes wr wr s s
stopped bytes wr s v h a = record {
  file = v;
  from = omega arith;
  upto = h;
  written = record {
    new = λ k l g. absurd (omega arith);
    old = λ k l n. refl;
    still = λ i n. n;
    mapped = λ k l g. absurd (omega arith);
  };
  fd_same = (refl, refl, refl);
  all = a;
}

module _ (now : ℕ → ℕ) (bytes : List ℕ) where
  -- One round and the rounds after it
  continued :
      (wr wr' ch : ℕ) (buf : List ℕ) (s s₁ s' : File)
      → IsOpened ((s.fd.pos + wr) / nfs_blk_sz) s buf s₁
      → wr < length bytes
      → ch ≡ min (length bytes - wr) (nfs_blk_sz - (s.fd.pos + wr) % nfs_blk_sz)
      → let bi = (s.fd.pos + wr) / nfs_blk_sz in
        let bo = (s.fd.pos + wr) % nfs_blk_sz in
        IsDone bytes (wr + ch) wr' (put_piece (now wr) bi bo (take ch (drop wr bytes)) buf s₁).1 s'
        → IsDone bytes wr wr' s s'
  unfolding put_piece
  continued wr wr' ch buf s s₁ s' o h e d = record {
    file = d.file;
    from = omega (arith, d.from);
    upto = d.upto;
    written =
        IsWritten-trans bytes s.fd.pos wr (wr + ch) wr' s s₂ s' (omega arith) d.from
          (put_piece-IsWritten (now wr) ch wr bytes buf s s₁ o (ground arith) (ground arith))
          (subst (λ p. IsWritten bytes p (wr + ch) wr' s₂ s') o.at d.written);
    fd_same = (d.fd_same.0 ∙ o.at, d.fd_same.1 ∙ o.fixed.0, d.fd_same.2 ∙ o.fixed.1);
    all = λ room free. elim (Bool-cases (ltb (wr + ch) (length bytes))) [
      | inr q ↦ ground (arith, d.from, d.upto)
      | inl q ↦
          let more : wr + ch < length bytes = ground arith in
          let next : (s₁.fd.pos + (wr + ch)) / nfs_blk_sz ≡ (s.fd.pos + wr) / nfs_blk_sz + 1 =
            ground (arith, o.at) in
          d.all (omega (arith, o.at)) (omega (arith, next, o.spent))
    ];
  }
    where
      s₂ : File
      s₂ =
          (put_piece (now wr) ((s.fd.pos + wr) / nfs_blk_sz) ((s.fd.pos + wr) % nfs_blk_sz)
            (take ch (drop wr bytes)) buf s₁).1

  -- With more rounds than there are bytes left the loop ends.
  pub write_loop_lem :
      (fuel wr : ℕ) (blkbuf : List ℕ) (s : File)
      → IsFile s
      → wr ≤ length bytes
      → length bytes < fuel + wr
      → (wr' : ℕ) × (s' : File) × (write_loop now (λ _. none) bytes fuel wr blkbuf s
          ≡ some (wr', s'))
        × IsDone bytes wr wr' s s'
  unfolding write_loop
  write_loop_lem zero wr blkbuf s v h l = absurd (omega arith)
  write_loop_lem (suc fuel) wr blkbuf s v h l = elim (Bool-cases (ltb wr (length bytes))) [
    | inr q ↦ (wr, s, rw (write_loop, q) refl, stopped bytes wr s v h (λ _ _. ground arith))
    | inl q ↦ elim (Bool-cases (ltb ((s.fd.pos + wr) / nfs_blk_sz) nfs_direct_blks)) [
      | inr p ↦ (
        wr,
        s,
        rw (write_loop, q, no_room p) refl,
        stopped bytes wr s v h (λ room _. ground arith),
      )
      | inl p ↦
          elim (get_block_lem (now wr) ((s.fd.pos + wr) / nfs_blk_sz) blkbuf s v (ground arith)) [
            | inl (g, z) ↦ (
              wr,
              s,
              rw (write_loop, q, g) refl,
              stopped bytes wr s v h (λ room f. ground (arith, z)),
            )
            | inr (buf, s₁, g, o) ↦
                let ch : ℕ = min (length bytes - wr) (nfs_blk_sz - (s.fd.pos + wr) % nfs_blk_sz) in
                let (w, s₂) =
                  put_piece (now wr) ((s.fd.pos + wr) / nfs_blk_sz) ((s.fd.pos + wr) % nfs_blk_sz)
                    (take ch (drop wr bytes)) buf s₁ in
                let v₂ =
                  (put_piece_lem (now wr) ((s.fd.pos + wr) / nfs_blk_sz)
                    ((s.fd.pos + wr) % nfs_blk_sz) (take ch (drop wr bytes)) buf s s₁ o).0 in
                let (wr', s', e, d) =
                  write_loop_lem fuel (wr + ch) w s₂ v₂ (ground arith) (ground arith) in
                (
                  wr',
                  s',
                  rw (write_loop, q, g) e,
                  continued wr wr' ch buf s s₁ s' o (ground arith) refl d,
                )
          ]
    ]
  ]
    where
      no_room :
          ltb ((s.fd.pos + wr) / nfs_blk_sz) nfs_direct_blks ≡ false
          → get_block none (now wr) ((s.fd.pos + wr) / nfs_blk_sz) blkbuf s ≡ none
      no_room p =
          let full : leb nfs_direct_blks ((s.fd.pos + wr) / nfs_blk_sz) ≡ true = ground arith in
          unfold get_block in rw (full) refl
