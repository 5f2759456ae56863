-- ===== src/Psram/Disjoint.antt =====
-- The blocks that the allocator of the external memory in mm/allocator.c gives out do not overlap.
use nanos_os.Common.{
  ℕ, ◌+◌, ◌-◌, ◌≤◌, ◌≡◌, ◌⊎◌, refl, inl, inr, none, some, List, [], ◌∷◌, arith, All, All-map, leb,
  Bool-cases,
}
use nanos_os.Psram.{Blk, psram_base, psram_size, blk_hdr, remainder, take_fit}

-- One of the blocks ends before the other begins.
abbrev pub Apart : Blk → Blk → Type 0
Apart a b = (a.addr + a.sz ≤ b.addr) ⊎ (b.addr + b.sz ≤ a.addr)

abbrev pub Separate : List Blk → Type 0
Separate [] = Unit {0}
Separate (b ∷ bs) = All (Apart b) bs × Separate bs

pub Apart-sym : (a b : Blk) → Apart a b → Apart b a
Apart-sym a b (inl h) = inr h
Apart-sym a b (inr h) = inl h

-- `c` is a piece of `b`.
abbrev Within : Blk → Blk → Type 0
Within c b = (b.addr ≤ c.addr) × (c.addr + c.sz ≤ b.addr + b.sz)

Within-Apart : (c b d : Blk) → Within c b → Apart d b → Apart d c
Within-Apart c b d w (inl h) = inl (omega (arith, w.0))
Within-Apart c b d w (inr h) = inr (omega (arith, w.1))

narrow : (c b : Blk) (xs : List Blk) → Within c b → All (Apart b) xs → All (Apart c) xs
narrow c b xs w h =
    All-map (Apart b) (Apart c) xs (λ x i. Apart-sym x c (Within-Apart c b x w (Apart-sym b x i))) h

-- In the external memory
abbrev pub Inside : Blk → Type 0
Inside b = (psram_base ≤ b.addr) × (b.addr + b.sz ≤ psram_base + psram_size)

-- What `take_fit` has taken lies apart from all that lay apart from the list, and from what is left
-- of it; and so does what is left.
pub record IsTaken (fs : List Blk) (b : Blk) (rest : List Blk) : Type 0 where
  pub inside : All Inside fs → Inside b × All Inside rest
  pub apart : (d : Blk) → All (Apart d) fs → Apart d b × All (Apart d) rest
  pub separate : Separate fs → All (Apart b) rest × Separate rest

module _ (sz : ℕ) where
  remainder-IsTaken :
      (b : Blk) (bs : List Blk)
      → sz ≤ b.sz
      → IsTaken (b ∷ bs) (record { addr = b.addr; sz = sz }) (remainder sz b bs)
  unfolding remainder
  remainder-IsTaken b bs h = elim (Bool-cases (leb (blk_hdr + 64) (b.sz - sz))) [
    | inl q ↦
        rw (remainder, q)
          (record {
            inside = λ i. (
              (i.0.0, omega (arith, i.0.1)),
              ((omega (arith, i.0.0), omega (arith, i.0.1)), i.1),
            );
            apart = λ d i. (Within-Apart _ b d first i.0, (Within-Apart _ b d second i.0, i.1));
            separate = λ s.
                ((inl (omega arith), narrow _ b bs first s.0), (narrow _ b bs second s.0, s.1));
          })
    | inr q ↦
        rw (remainder, q)
          (record {
            inside = λ i. ((i.0.0, omega (arith, i.0.1)), i.1);
            apart = λ d i. (Within-Apart _ b d first i.0, i.1);
            separate = λ s. (narrow _ b bs first s.0, s.1);
          })
  ]
    where
      first : Within (record { addr = b.addr; sz = sz }) b
      first = (omega arith, omega arith)

      second : Within (record { addr = b.addr + sz; sz = b.sz - sz }) b
      second = (omega arith, omega arith)

  pub take_fit-IsTaken :
      (fs : List Blk)
      → (take_fit sz fs ≡ none)
        ⊎ ((a : ℕ) × (rest : List Blk) × (take_fit sz fs ≡ some (a, rest))
            × IsTaken fs (record { addr = a; sz = sz }) rest)
  unfolding take_fit
  take_fit-IsTaken [] = inl refl
  take_fit-IsTaken (b ∷ bs) = elim (Bool-cases (leb sz b.sz)) [
    | inl q ↦
        inr
          (b.addr, remainder sz b bs, rw (take_fit, q) refl, remainder-IsTaken b bs (ground arith))
    | inr q ↦ elim (take_fit-IsTaken bs) [
      | inl e ↦ inl (rw (take_fit, q, e) refl)
      | inr (a, rest, e, t) ↦ inr (
        a,
        b ∷ rest,
        rw (take_fit, q, e) refl,
        record {
          inside = λ i. let r = t.inside i.1 in (r.0, (i.0, r.1));
          apart = λ d i. let r = t.apart d i.1 in (r.0, (i.0, r.1));
          separate = λ s.
              let r = t.separate s.1 in
              let w = t.apart b s.0 in ((Apart-sym b _ w.0, r.0), (w.1, r.1));
        },
      )
    ]
  ]
