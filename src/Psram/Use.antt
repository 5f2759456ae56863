-- ===== src/Psram/Use.antt =====
-- The blocks in use at the allocator of the external memory in mm/allocator.c.
use nanos_os.Common.{
  ℕ, ◌+◌, ◌-◌, ◌%◌, ◌<◌, ◌≡◌, ◌≢◌, ◌⊎◌, refl, ◌∙◌, ap, subst, inl, inr, none, some, List, [], ◌∷◌,
  ◌++◌, arith, All, All-map, All-map₂,
}
use nanos_os.Common.Maps.{update, update_self, update_ne}
use nanos_os.Kernel.{u32_mod}
use nanos_os.Psram.{Blk, Psram, blk_hdr, mm_psram_init, needed, k_psram_alloc, k_psram_free}
use nanos_os.Psram.Disjoint.{Apart, Apart-sym, Separate, Inside, IsTaken, take_fit-IsTaken}

abbrev pub total : List Blk → ℕ
total [] = 0
total (b ∷ bs) = b.sz + total bs

-- What is known of one block in use
record IsHeld (p : Psram) (b : Blk) : Type 0 where
  pub inside : Inside b
  pub positive : 0 < b.sz
  pub headed : p.header b.addr ≡ b.sz
  pub apart : All (Apart b) p.free

-- The blocks `live` are in use.
record IsValid (p : Psram) (live : List Blk) : Type 0 where
  pub separate : Separate live
  pub held : All (IsHeld p) live
  pub rest : Separate p.free
  pub inside : All Inside p.free
  pub counted : p.used ≡ total live % u32_mod

mm_psram_init-IsValid : (header : ℕ → ℕ) → IsValid (mm_psram_init header) []
unfolding mm_psram_init
mm_psram_init-IsValid header = record {
  separate = tt;
  held = tt;
  rest = (tt, tt);
  inside = ((omega arith, omega arith), tt);
  counted = refl;
}

needed_positive : (sz : ℕ) → sz + 71 < u32_mod → 0 < needed sz
unfolding needed
needed_positive sz h = omega arith

-- A block taken from the list joins those in use.
module _ (p : Psram) (live : List Blk) (v : IsValid p live) (n a : ℕ) (rest : List Blk)
    (pos : 0 < n) (t : IsTaken p.free (record { addr = a; sz = n }) rest) where
  abbrev b : Blk
  b = record { addr = a; sz = n }

  abbrev p' : Psram
  p' = record p { free = rest; used = (p.used + n) % u32_mod; header = update p.header a n }

  still : (l : Blk) → IsHeld p l → IsHeld p' l
  still l h = record {
    inside = h.inside;
    positive = h.positive;
    headed = update_ne p.header a l.addr n other ∙ h.headed;
    apart = (t.apart l h.apart).1;
  }
    where
      other : a ≢ l.addr
      other e = elim (t.apart l h.apart).0 [
        | inl g ↦ absurd (omega (arith, h.positive))
        | inr g ↦ absurd (omega arith)
      ]

  taken-IsValid : IsValid p' (b ∷ live)
  taken-IsValid = record {
    separate = (
      All-map (IsHeld p) (Apart b) live (λ l h. Apart-sym l b (t.apart l h.apart).0) v.held,
      v.separate,
    );
    held = (
      record {
        inside = (t.inside v.inside).0;
        positive = pos;
        headed = update_self p.header a n;
        apart = (t.separate v.rest).0;
      },
      All-map (IsHeld p) (IsHeld p') live still v.held,
    );
    rest = (t.separate v.rest).1;
    inside = (t.inside v.inside).1;
    counted = omega (arith, v.counted);
  }

k_psram_alloc-IsValid :
    (sz : ℕ) (p : Psram) (live : List Blk)
    → sz + 71 < u32_mod
    → IsValid p live
    → (((k_psram_alloc sz p).0 ≡ none) × IsValid (k_psram_alloc sz p).1 live)
      ⊎ ((a : ℕ) × ((k_psram_alloc sz p).0 ≡ some (a + blk_hdr))
          × IsValid (k_psram_alloc sz p).1 (record { addr = a; sz = needed sz } ∷ live))
unfolding k_psram_alloc
k_psram_alloc-IsValid sz p live h v = elim (take_fit-IsTaken (needed sz) p.free) [
  | inl e ↦ inl (rw (k_psram_alloc, e) refl, rw (k_psram_alloc, e) v)
  | inr (a, rest, e, t) ↦ inr (
    a,
    rw (k_psram_alloc, e) refl,
    rw (k_psram_alloc, e) (taken-IsValid p live v (needed sz) a rest (needed_positive sz h) t),
  )
]

-- The order of the blocks in use does not matter.
All-move :
    (P : Blk → Type 0) (xs ys : List Blk) (l : Blk) → All P (xs ++ l ∷ ys) → P l × All P (xs ++ ys)
All-move P [] ys l h = h
All-move P (x ∷ xs) ys l h = let r = All-move P xs ys l h.1 in (r.0, (h.0, r.1))

Separate-move :
    (xs ys : List Blk) (l : Blk)
    → Separate (xs ++ l ∷ ys)
    → All (Apart l) (xs ++ ys) × Separate (xs ++ ys)
Separate-move [] ys l h = h
Separate-move (x ∷ xs) ys l h =
    let r = Separate-move xs ys l h.1 in
    let w = All-move (Apart x) xs ys l h.0 in ((Apart-sym x l w.0, r.0), (w.1, r.1))

total-move : (xs ys : List Blk) (l : Blk) → total (xs ++ l ∷ ys) ≡ l.sz + total (xs ++ ys)
total-move [] ys l = refl
total-move (x ∷ xs) ys l = omega (arith, total-move xs ys l)

-- A block in use goes back into the list.
freed-IsValid :
    (p : Psram) (live : List Blk) (l : Blk)
    → IsValid p (l ∷ live)
    → IsValid (record p { free = l ∷ p.free; used = (p.used + u32_mod - l.sz) % u32_mod }) live
freed-IsValid p live l v = record {
  separate = v.separate.1;
  held =
      All-map₂ (IsHeld p) (Apart l) (IsHeld p') live
        (λ x h a. record {
          inside = h.inside;
          positive = h.positive;
          headed = h.headed;
          apart = (Apart-sym l x a, h.apart);
        })
        v.held.1 v.separate.0;
  rest = (v.held.0.apart, v.rest);
  inside = (v.held.0.inside, v.inside);
  counted = let i = v.held.0.inside in omega (arith, v.counted);
}
  where
    p' : Psram
    p' = record p { free = l ∷ p.free; used = (p.used + u32_mod - l.sz) % u32_mod }

k_psram_free-IsValid :
    (p : Psram) (xs ys : List Blk) (l : Blk)
    → IsValid p (xs ++ l ∷ ys)
    → IsValid (k_psram_free (l.addr + blk_hdr) p) (xs ++ ys)
unfolding k_psram_free
k_psram_free-IsValid p xs ys l v =
    let m = Separate-move xs ys l v.separate in
    let h = All-move (IsHeld p) xs ys l v.held in
    let a : l.addr + blk_hdr - blk_hdr ≡ l.addr = omega arith in
    rw (k_psram_free, a, h.0.headed)
      (freed-IsValid p (xs ++ ys) l (record {
        separate = m;
        held = h;
        rest = v.rest;
        inside = v.inside;
        counted = v.counted ∙ ap (λ z. z % u32_mod) (total-move xs ys l);
      }))

-- The states that allocations and frees lead to from the start, with the blocks in use. A size is
-- such that it does not overflow when it is rounded up, and a pointer that is freed is in use.
pub data Reached : Psram → List Blk → Type 0 where
  init : (header : ℕ → ℕ) → Reached (mm_psram_init header) []
  failed :
      (sz : ℕ) (p : Psram) (live : List Blk)
      → sz + 71 < u32_mod
      → (k_psram_alloc sz p).0 ≡ none
      → Reached p live
      → Reached (k_psram_alloc sz p).1 live
  allocated :
      (sz a : ℕ) (p : Psram) (live : List Blk)
      → sz + 71 < u32_mod
      → (k_psram_alloc sz p).0 ≡ some (a + blk_hdr)
      → Reached p live
      → Reached (k_psram_alloc sz p).1 (record { addr = a; sz = needed sz } ∷ live)
  freed :
      (p : Psram) (xs ys : List Blk) (l : Blk)
      → Reached p (xs ++ l ∷ ys)
      → Reached (k_psram_free (l.addr + blk_hdr) p) (xs ++ ys)

Reached-IsValid : (p : Psram) (live : List Blk) → Reached p live → IsValid p live
Reached-IsValid p live (init header) = mm_psram_init-IsValid header
Reached-IsValid p live (failed sz q l h e r) =
    elim (k_psram_alloc-IsValid sz q l h (Reached-IsValid q l r)) [
      | inl (f, v) ↦ v
      | inr (a, f, v) ↦ absurd (cc)
    ]
Reached-IsValid p live (allocated sz a q l h e r) =
    elim (k_psram_alloc-IsValid sz q l h (Reached-IsValid q l r)) [
      | inl (f, v) ↦ absurd (cc)
      | inr (c, f, v) ↦
          let s : c + blk_hdr ≡ a + blk_hdr = cc in
          let g : c ≡ a = omega arith in
          subst (λ k. IsValid (k_psram_alloc sz q).1 (record { addr = k; sz = needed sz } ∷ l)) g v
    ]
Reached-IsValid p live (freed q xs ys l r) =
    k_psram_free-IsValid q xs ys l (Reached-IsValid q (xs ++ l ∷ ys) r)

-- In any sequence of allocations and frees from the start, in which no size overflows when it is
-- rounded up and only blocks in use are freed, the blocks in use do not overlap each other nor the
-- free blocks, they lie in the external memory, and `used` is the sum of their sizes modulo 2^32.
pub Reached-Separate :
    (p : Psram) (live : List Blk)
    → Reached p live
    → Separate live
      × All Inside live
      × All (λ b. All (Apart b) p.free) live
      × (p.used ≡ total live % u32_mod)
Reached-Separate p live r =
    let v = Reached-IsValid p live r in
    (
      v.separate,
      All-map (IsHeld p) Inside live (λ b h. h.inside) v.held,
      All-map (IsHeld p) (λ b. All (Apart b) p.free) live (λ b h. h.apart) v.held,
      v.counted,
    )
