-- ===== src/TouchProbe/Search.antt =====
-- Which touch controller drivers/autodetect/touch_probe.c settles on.
use nanos_os.Common.{
  ℕ, ◌+◌, ◌≡◌, refl, ◌⊎◌, inl, inr, false, Option, some, List, [], ◌∷◌, ◌==◌, ◌&&◌, ◌||◌, not,
  Bool-cases, Option-cases, arith,
}
use nanos_os.I2c.{Op}
use nanos_os.TouchProbe.{
  TouchIc, s_touch_ics, id_match, read_id, try_addrs, probe_touch_ic, search_addrs, find_touch_ic,
}

some_inj : {a b : ℕ} → some a ≡ some b → a ≡ b
some_inj h = cc

module _ (reply : List Op → Option (List ℕ)) where
  -- A chip is found at the address asked for.
  try_addrs-same :
      (addr : ℕ) (t : TouchIc) (as' : List ℕ) (tr : List Op) (a : ℕ)
      → (addr == 0) ≡ false
      → (try_addrs reply addr t as' tr).0 ≡ some a
      → a ≡ addr
  unfolding try_addrs
  try_addrs-same addr t [] tr a nz e = cc
  try_addrs-same addr t (b ∷ more) tr a nz e =
      elim (Bool-cases ((b == 0) || (not (addr == 0) && not (b == addr)))) [
        | inl s ↦ try_addrs-same addr t more tr a nz (rw (s) at e)
        | inr s ↦ elim (Option-cases (read_id reply t b tr).0) [
          | inl n ↦ try_addrs-same addr t more (read_id reply t b tr).1 a nz (rw (s, n) at e)
          | inr (bs, n) ↦ elim (Bool-cases (id_match bs t.id_val t.id_mask || (t.id_bytes == 0))) [
            | inl m ↦
                let found : some b ≡ some a = rw (s, n, m) at e in
                ground (arith, some_inj found, s, nz)
            | inr m ↦ try_addrs-same addr t more (read_id reply t b tr).1 a nz (rw (s, n, m) at e)
          ]
        ]
      ]

  -- The entry of the NS2009 has no ID to read: it is found at its address on any bus.
  at_48 : (tr : List Op) → (probe_touch_ic reply 0x48 0 s_touch_ics tr).0 ≡ some (8, 0x48)
  unfolding probe_touch_ic try_addrs read_id id_match
  at_48 tr = refl

  probe_touch_ic-same :
      (addr i : ℕ) (ts : List TouchIc) (tr : List Op) (r : ℕ × ℕ)
      → (addr == 0) ≡ false
      → (probe_touch_ic reply addr i ts tr).0 ≡ some r
      → r.1 ≡ addr
  unfolding probe_touch_ic
  probe_touch_ic-same addr i [] tr r nz e = cc
  probe_touch_ic-same addr i (t ∷ ts) tr r nz e =
      elim (Option-cases (try_addrs reply addr t t.i2c_addr tr).0) [
        | inl n ↦
            probe_touch_ic-same addr (i + 1) ts (try_addrs reply addr t t.i2c_addr tr).1 r nz
              (rw (probe_touch_ic, n) at e)
        | inr (a, n) ↦
            let found : ◌≡◌ {A = Option (ℕ × ℕ)} (some (i, a)) (some r) =
              rw (probe_touch_ic, n) at e in
            same found (try_addrs-same addr t t.i2c_addr tr a nz n)
      ]
    where
      same : {a : ℕ} → ◌≡◌ {A = Option (ℕ × ℕ)} (some (i, a)) (some r) → a ≡ addr → r.1 ≡ addr
      same h g = cc

  -- The search goes on after an address where nothing is found.
  Finds : List ℕ → Type 0
  Finds as' =
      (tr : List Op)
      → (r : ℕ × ℕ) × ((search_addrs reply as' tr).0 ≡ some r)
        × ((r.1 ≡ 0x5D) ⊎ (r.1 ≡ 0x14) ⊎ (r.1 ≡ 0x38) ⊎ (r.1 ≡ 0x15) ⊎ (r.1 ≡ 0x48))

  Finds-cons :
      (a : ℕ) (more : List ℕ)
      → (a == 0) ≡ false
      → ((b : ℕ) → b ≡ a → (b ≡ 0x5D) ⊎ (b ≡ 0x14) ⊎ (b ≡ 0x38) ⊎ (b ≡ 0x15) ⊎ (b ≡ 0x48))
      → Finds more
      → Finds (a ∷ more)
  unfolding Finds search_addrs
  Finds-cons a more nz here later tr =
      elim (Option-cases (probe_touch_ic reply a 0 s_touch_ics tr).0) [
        | inl n ↦ rw (search_addrs, n) (later (probe_touch_ic reply a 0 s_touch_ics tr).1)
        | inr (r, n) ↦
            rw (search_addrs, n) (r, refl, here r.1 (probe_touch_ic-same a 0 s_touch_ics tr r nz n))
      ]

  Finds-last : (more : List ℕ) → Finds (0x48 ∷ more)
  unfolding Finds search_addrs
  Finds-last more tr = rw (search_addrs, at_48 tr) ((8, 0x48), refl, ground arith)

  -- Whatever the bus answers, also nothing at all, the search ends with a touch controller at one of
  -- the first five addresses of its list: the last three, of the STMPE811 and the TT21100, are not
  -- tried, since the entry of the NS2009 passes with no answer.
  pub find_touch_ic_lem :
      (tr : List Op)
      → (r : ℕ × ℕ) × ((find_touch_ic reply tr).0 ≡ some r)
        × ((r.1 ≡ 0x5D) ⊎ (r.1 ≡ 0x14) ⊎ (r.1 ≡ 0x38) ⊎ (r.1 ≡ 0x15) ⊎ (r.1 ≡ 0x48))
  unfolding find_touch_ic Finds
  find_touch_ic_lem tr =
      Finds-cons 0x5D (0x14 ∷ 0x38 ∷ 0x15 ∷ 0x48 ∷ 0x41 ∷ 0x44 ∷ 0x24 ∷ []) refl
        (λ b e. ground arith)
        (Finds-cons 0x14 (0x38 ∷ 0x15 ∷ 0x48 ∷ 0x41 ∷ 0x44 ∷ 0x24 ∷ []) refl (λ b e. ground arith)
          (Finds-cons 0x38 (0x15 ∷ 0x48 ∷ 0x41 ∷ 0x44 ∷ 0x24 ∷ []) refl (λ b e. ground arith)
            (Finds-cons 0x15 (0x48 ∷ 0x41 ∷ 0x44 ∷ 0x24 ∷ []) refl (λ b e. ground arith)
              (Finds-last (0x41 ∷ 0x44 ∷ 0x24 ∷ [])))))
        tr
