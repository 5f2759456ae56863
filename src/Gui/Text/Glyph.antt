-- ===== src/Gui/Text/Glyph.antt =====
-- The pixels that a character gets in gui_draw_string of gui/framebuffer.c.
use native.Mathlib.Nat.{mul-le-mul_right}
use nanos_os.Common.{
  ℕ, each, zero, suc, ◌+◌, ◌*◌, ◌≤◌, ◌<◌, ◌≡◌, ◌≢◌, ◌⊎◌, inl, inr, refl, sym, ap, ◌∙◌, List, ltb,
  ◌==◌, ==_iff, arith, Bool-cases,
}
use nanos_os.Common.Maps.{update_ne}
use nanos_os.Common.Int.{ℤ, pos, negsuc, pos_part, neg_part, ◌+ℤ◌, ◌≤ℤ◌, ◌<ℤ◌, +ℤ_parts}
use nanos_os.Gui.{lcd_w, lcd_h, fbp}
use nanos_os.Gui.Text.{plot, glyph_color, draw_run, draw_block, draw_line, draw_glyph}

-- A loop that leaves a pixel alone, and one of which one step writes it
each_same :
    (n : ℕ) (body : ℕ → (ℕ → ℕ) → ℕ → ℕ) (s : ℕ → ℕ) (q : ℕ)
    → ((i : ℕ) (t : ℕ → ℕ) → i < n → body i t q ≡ t q)
    → each n body s q ≡ s q
each_same zero body s q h = refl
each_same (suc n) body s q h =
    h n (each n body s) (omega arith) ∙ each_same n body s q (λ i t l. h i t (omega arith))

each_owner :
    (n : ℕ) (body : ℕ → (ℕ → ℕ) → ℕ → ℕ) (s : ℕ → ℕ) (q k v : ℕ)
    → k < n
    → ((i : ℕ) (t : ℕ → ℕ) → i < n → i ≢ k → body i t q ≡ t q)
    → ((t : ℕ → ℕ) → body k t q ≡ v)
    → each n body s q ≡ v
each_owner zero body s q k v l o w = absurd (omega arith)
each_owner (suc n) body s q k v l o w = elim (Bool-cases (k == n)) [
  | inl e ↦ let f : k ≡ n = (==_iff k n).0 e in rw f at (w (each n body s))
  | inr e ↦
      let f : n ≢ k = λ p. ground arith in
      o n (each n body s) (omega arith) f
      ∙ each_owner n body s q k v (ground arith) (λ i t m. o i t (omega arith)) w
]

plot_self :
    (c : ℕ) (fb : ℕ → ℕ) (px py : ℕ)
    → px < lcd_w
    → py < lcd_h
    → plot (pos px) (pos py) c fb (fbp px py) ≡ c
unfolding plot
plot_self c fb px py l m = ground arith

plot_ne :
    (x y : ℤ) (c : ℕ) (fb : ℕ → ℕ) (px py : ℕ)
    → px < lcd_w
    → (x ≢ pos px) ⊎ (y ≢ pos py)
    → plot x y c fb (fbp px py) ≡ fb (fbp px py)
unfolding plot
plot_ne (pos x) (pos y) c fb px py l o = elim (Bool-cases (ltb x lcd_w)) [
  | inr e ↦ rw e refl
  | inl e ↦ elim (Bool-cases (ltb y lcd_h)) [
    | inr f ↦ rw (e, f) refl
    | inl f ↦
        let h : x < lcd_w = ground arith in
        rw (e, f) (update_ne fb (fbp x y) (fbp px py) c (λ k. other o (split k h)))
  ]
]
  where
    split : fbp x y ≡ fbp px py → x < lcd_w → (x ≡ px) × (y ≡ py)
    split k h = (omega arith, omega arith)

    other : (pos x ≢ pos px) ⊎ (pos y ≢ pos py) → ¬ ((x ≡ px) × (y ≡ py))
    other (inl o) k = o (ap pos k.0)
    other (inr o) k = o (ap pos k.1)
plot_ne (pos x) (negsuc y) c fb px py l o = refl
plot_ne (negsuc x) y c fb px py l o = refl

plot_beyond : (x y : ℤ) (c : ℕ) (fb : ℕ → ℕ) (q : ℕ) → lcd_w * lcd_h ≤ q → plot x y c fb q ≡ fb q
unfolding plot
plot_beyond (pos x) (pos y) c fb q l = ground arith
plot_beyond (pos x) (negsuc y) c fb q l = refl
plot_beyond (negsuc x) y c fb q l = refl

pub block_lt : (a b c n : ℕ) → b < n → a < c → a * n + b < c * n
block_lt a b c n l h = omega (arith, mul-le-mul_right {m = suc a} {n = c} n h)

-- The two parts of a number below a * n are determined by it.
block_unique : (a b c d n : ℕ) → b < n → d < n → a * n + b ≡ c * n + d → (a ≡ c) × (b ≡ d)
block_unique a b c d n l m e = elim (Bool-cases (ltb a c)) [
  | inl f ↦ absurd (omega (arith, block_lt a b c n l (ground arith)))
  | inr f ↦ elim (Bool-cases (ltb c a)) [
    | inl g ↦ absurd (omega (arith, block_lt c d a n m (ground arith)))
    | inr g ↦ let k : a ≡ c = ground arith in (k, rest k)
  ]
]
  where
    rest : a ≡ c → b ≡ d
    rest k = let p : a * n ≡ c * n = ap (λ z. z * n) k in omega arith

shift_cancel : (x : ℤ) (a b : ℕ) → x +ℤ pos a ≡ x +ℤ pos b → a ≡ b
shift_cancel x a b e =
    let k : pos_part (x +ℤ pos a) ≡ pos_part (x +ℤ pos b) = ap pos_part e in
    let l : neg_part (x +ℤ pos a) ≡ neg_part (x +ℤ pos b) = ap neg_part e in
    omega (arith, +ℤ_parts x (pos a), +ℤ_parts x (pos b))

-- A point of the axis that is in none of the `n` blocks of `sc` from `x` on
abbrev pub Off : ℕ → ℤ → ℕ → ℕ → Type 0
Off n x sc p = (pos p <ℤ x) ⊎ (x +ℤ pos (n * sc) ≤ℤ pos p)

Off-ne :
    (n : ℕ) (x : ℤ) (sc p col sx : ℕ)
    → Off n x sc p
    → col < n
    → sx < sc
    → x +ℤ pos (col * sc + sx) ≢ pos p
Off-ne n x sc p col sx o l m e =
    let k : pos_part (x +ℤ pos (col * sc + sx)) ≡ p = ap pos_part e in
    let h : neg_part (x +ℤ pos (col * sc + sx)) ≡ 0 = ap neg_part e in
    omega
      (arith, +ℤ_parts x (pos (col * sc + sx)), +ℤ_parts x (pos (n * sc)), block_lt col sx n sc m l)

module _ (x y : ℤ) (sc px py : ℕ) (hx : px < lcd_w) where
  -- A part of a character that misses a pixel, on one of the axes
  run_off :
      (c r col sy : ℕ) (fb : ℕ → ℕ)
      → ((sx : ℕ) → sx < sc → x +ℤ pos (col * sc + sx) ≢ pos px) ⊎ (y +ℤ pos (r * sc + sy) ≢ pos py)
      → draw_run x y sc c r col sy fb (fbp px py) ≡ fb (fbp px py)
  unfolding draw_run
  run_off c r col sy fb o =
      each_same sc (λ sx. plot (x +ℤ pos (col * sc + sx)) (y +ℤ pos (r * sc + sy)) c) fb (fbp px py)
        (λ sx t l. plot_ne _ _ c t px py hx (miss o sx l))
    where
      miss :
          ((sx : ℕ) → sx < sc → x +ℤ pos (col * sc + sx) ≢ pos px)
            ⊎ (y +ℤ pos (r * sc + sy) ≢ pos py)
          → (sx : ℕ) → sx < sc
          → (x +ℤ pos (col * sc + sx) ≢ pos px) ⊎ (y +ℤ pos (r * sc + sy) ≢ pos py)
      miss (inl a) sx l = inl (a sx l)
      miss (inr a) sx l = inr a

  block_off :
      (c r col : ℕ) (fb : ℕ → ℕ)
      → ((sx : ℕ) → sx < sc → x +ℤ pos (col * sc + sx) ≢ pos px)
        ⊎ ((sy : ℕ) → sy < sc → y +ℤ pos (r * sc + sy) ≢ pos py)
      → draw_block x y sc c r col fb (fbp px py) ≡ fb (fbp px py)
  unfolding draw_block
  block_off c r col fb (inl a) =
      each_same sc (draw_run x y sc c r col) fb (fbp px py) (λ sy t l. run_off c r col sy t (inl a))
  block_off c r col fb (inr a) =
      each_same sc (draw_run x y sc c r col) fb (fbp px py)
        (λ sy t l. run_off c r col sy t (inr (a sy l)))

  module _ (g : List ℕ) (fg bg : ℕ) where
    line-Off :
        (r : ℕ) (fb : ℕ → ℕ)
        → Off 8 x sc px ⊎ ((sy : ℕ) → sy < sc → y +ℤ pos (r * sc + sy) ≢ pos py)
        → draw_line x y g fg bg sc r fb (fbp px py) ≡ fb (fbp px py)
    unfolding draw_line
    line-Off r fb (inl a) =
        each_same 8 (λ col. draw_block x y sc (glyph_color g r col fg bg) r col) fb (fbp px py)
          (λ col t l. block_off _ r col t (inl (λ sx m. Off-ne 8 x sc px col sx a l m)))
    line-Off r fb (inr a) =
        each_same 8 (λ col. draw_block x y sc (glyph_color g r col fg bg) r col) fb (fbp px py)
          (λ col t l. block_off _ r col t (inr a))

    -- A character changes no pixel outside its cell.
    pub draw_glyph-Off :
        (fb : ℕ → ℕ)
        → Off 8 x sc px ⊎ Off 16 y sc py
        → draw_glyph x y g fg bg sc fb (fbp px py) ≡ fb (fbp px py)
    unfolding draw_glyph
    draw_glyph-Off fb (inl a) =
        each_same 16 (draw_line x y g fg bg sc) fb (fbp px py) (λ r t l. line-Off r t (inl a))
    draw_glyph-Off fb (inr a) =
        each_same 16 (draw_line x y g fg bg sc) fb (fbp px py)
          (λ r t l. line-Off r t (inr (λ sy m. Off-ne 16 y sc py r sy a l m)))

  -- The pixel at `sx`, `sy` of the block of a bit
  module _ (r col sy sx : ℕ) (hy : py < lcd_h) (ly : sy < sc) (lx : sx < sc)
      (ex : x +ℤ pos (col * sc + sx) ≡ pos px) (ey : y +ℤ pos (r * sc + sy) ≡ pos py) where
    same_x : (j l : ℕ) → l < sc → x +ℤ pos (j * sc + l) ≡ pos px → (j ≡ col) × (l ≡ sx)
    same_x j l m e = block_unique j l col sx sc m lx (shift_cancel x _ _ (e ∙ sym ex))

    same_y : (j l : ℕ) → l < sc → y +ℤ pos (j * sc + l) ≡ pos py → (j ≡ r) × (l ≡ sy)
    same_y j l m e = block_unique j l r sy sc m ly (shift_cancel y _ _ (e ∙ sym ey))

    run_in : (c : ℕ) (fb : ℕ → ℕ) → draw_run x y sc c r col sy fb (fbp px py) ≡ c
    unfolding draw_run
    run_in c fb =
        each_owner sc (λ l. plot (x +ℤ pos (col * sc + l)) (y +ℤ pos (r * sc + sy)) c) fb
          (fbp px py) sx c lx
          (λ l t m ne. plot_ne _ _ c t px py hx (inl (λ e. ne (same_x col l m e).1)))
          (λ t. rw (ex, ey) (plot_self c t px py hx hy))

    block_in : (c : ℕ) (fb : ℕ → ℕ) → draw_block x y sc c r col fb (fbp px py) ≡ c
    unfolding draw_block
    block_in c fb =
        each_owner sc (draw_run x y sc c r col) fb (fbp px py) sy c ly
          (λ l t m ne. run_off c r col l t (inr (λ e. ne (same_y r l m e).1))) (run_in c)

    line_in :
        (g : List ℕ) (fg bg : ℕ) (fb : ℕ → ℕ)
        → col < 8
        → draw_line x y g fg bg sc r fb (fbp px py) ≡ glyph_color g r col fg bg
    unfolding draw_line
    line_in g fg bg fb l =
        each_owner 8 (λ k. draw_block x y sc (glyph_color g r k fg bg) r k) fb (fbp px py) col _ l
          (λ k t m ne. block_off _ r k t (inl (λ j n e. ne (same_x k j n e).0)))
          (block_in (glyph_color g r col fg bg))

    -- A pixel of the cell gets the colour of its bit.
    pub draw_glyph_cell :
        (g : List ℕ) (fg bg : ℕ) (fb : ℕ → ℕ)
        → r < 16
        → col < 8
        → draw_glyph x y g fg bg sc fb (fbp px py) ≡ glyph_color g r col fg bg
    unfolding draw_glyph
    draw_glyph_cell g fg bg fb lr lc =
        each_owner 16 (draw_line x y g fg bg sc) fb (fbp px py) r _ lr
          (λ k t m ne. line-Off g fg bg k t (inr (λ j n e. ne (same_y k j n e).0)))
          (λ t. line_in g fg bg t lc)
