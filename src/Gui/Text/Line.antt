-- ===== src/Gui/Text/Line.antt =====
-- The pixels that a string gets in gui_draw_string of gui/framebuffer.c.
use nanos_os.Common.{
  ℕ, zero, suc, ◌+◌, ◌*◌, ◌<◌, ◌≡◌, inl, refl, ap, sym, ◌∙◌, List, [], ◌∷◌, some, length, get_elem?,
  arith,
}
use nanos_os.Common.Int.{
  ℤ, pos, pos_part, neg_part, ◌+ℤ◌, ◌≤ℤ◌, ◌<ℤ◌, int16, IsInt16, int16_self, +ℤ_parts, int_laws,
}
use nanos_os.Gui.{lcd_w, lcd_h, fbp}
use nanos_os.Gui.Text.{glyph, glyph_color, gui_draw_string}
use nanos_os.Gui.Text.Glyph.{draw_glyph-Off, draw_glyph_cell, block_lt}

-- The string ends before the largest `int16_t`.
abbrev pub Fits : ℤ → ℕ → List ℕ → Type 0
Fits x sc s = IsInt16 x × (x +ℤ pos (length s * (8 * sc)) ≤ℤ pos 0x7FFF)

next-Fits : (x : ℤ) (sc c : ℕ) (s : List ℕ) → Fits x sc (c ∷ s) → Fits (x +ℤ pos (8 * sc)) sc s
next-Fits x sc c s f = (
  (
    omega (arith, +ℤ_parts x (pos (8 * sc))),
    omega (arith, +ℤ_parts x (pos (8 * sc)), +ℤ_parts x (pos (suc (length s) * (8 * sc)))),
  ),
  omega (
    arith,
    +ℤ_parts x (pos (8 * sc)),
    +ℤ_parts x (pos (suc (length s) * (8 * sc))),
    +ℤ_parts (x +ℤ pos (8 * sc)) (pos (length s * (8 * sc))),
  ),
)

-- The character after the first starts where it ends.
next_x :
    (x : ℤ) (sc c : ℕ) (s : List ℕ)
    → Fits x sc (c ∷ s)
    → int16 (x +ℤ pos (8 * sc)) ≡ x +ℤ pos (8 * sc)
next_x x sc c s f = int16_self (x +ℤ pos (8 * sc)) (next-Fits x sc c s f).0

-- A string changes no pixel to the left of it.
gui_draw_string_left :
    (x y : ℤ) (s : List ℕ) (fg bg sc px py : ℕ) (fb : ℕ → ℕ)
    → px < lcd_w
    → Fits x sc s
    → pos px <ℤ x
    → gui_draw_string x y s fg bg sc fb (fbp px py) ≡ fb (fbp px py)
unfolding gui_draw_string
gui_draw_string_left x y [] fg bg sc px py fb h f l = refl
gui_draw_string_left x y (c ∷ s) fg bg sc px py fb h f l = rw (next_x x sc c s f) (
    gui_draw_string_left (x +ℤ pos (8 * sc)) y s fg bg sc px py _ h (next-Fits x sc c s f)
      (omega (arith, +ℤ_parts x (pos (8 * sc))))
    ∙ draw_glyph-Off x y sc px py h (glyph c) fg bg fb (inl (inl l)))

-- When the string ends before the largest `int16_t`, `gui_draw_string` gives the pixel of the screen at
-- place (sx, sy) of the block of row `r` and column `col` of the character at index `k` the foreground or the
-- background colour, as the bit of the character's glyph in the font says.
pub gui_draw_string_pixel :
    (x y : ℤ) (s : List ℕ) (fg bg sc px py : ℕ) (fb : ℕ → ℕ) (k c r col sy sx : ℕ)
    → Fits x sc s
    → px < lcd_w
    → py < lcd_h
    → get_elem? s k ≡ some c
    → r < 16
    → col < 8
    → sy < sc
    → sx < sc
    → pos px ≡ x +ℤ pos (k * (8 * sc) + (col * sc + sx))
    → pos py ≡ y +ℤ pos (r * sc + sy)
    → gui_draw_string x y s fg bg sc fb (fbp px py) ≡ glyph_color (glyph c) r col fg bg
unfolding gui_draw_string
gui_draw_string_pixel x y [] fg bg sc px py fb k c r col sy sx f hx hy g lr lc ly lx ex ey =
    absurd (cc)
gui_draw_string_pixel x y (d ∷ s) fg bg sc px py fb zero c r col sy sx f hx hy g lr lc ly lx ex ey =
    let z : col * sc + sx ≡ 0 * (8 * sc) + (col * sc + sx) = omega arith in
    let e : d ≡ c = cc in
    let i : x +ℤ pos (col * sc + sx) ≡ pos px = ap (λ z. x +ℤ pos z) z ∙ sym ex in
    let w : pos_part (x +ℤ pos (col * sc + sx)) ≡ px = ap pos_part i in
    let v : neg_part (x +ℤ pos (col * sc + sx)) ≡ 0 = ap neg_part i in
    let n : pos px <ℤ x +ℤ pos (8 * sc) = omega (
      arith,
      +ℤ_parts x (pos (8 * sc)),
      +ℤ_parts x (pos (col * sc + sx)),
      block_lt col sx 8 sc lx lc,
    ) in
    rw (next_x x sc d s f, e)
      (gui_draw_string_left (x +ℤ pos (8 * sc)) y s fg bg sc px py _ hx (next-Fits x sc d s f) n
        ∙ draw_glyph_cell x y sc px py hx r col sy sx hy ly lx i (sym ey) (glyph c) fg bg fb lr lc)
gui_draw_string_pixel x y (d ∷ s) fg bg sc px py fb (suc k) c r col sy sx f hx hy g lr lc ly lx ex
      ey =
    rw (next_x x sc d s f) (
      gui_draw_string_pixel (x +ℤ pos (8 * sc)) y s fg bg sc px py _ k c r col sy sx
        (next-Fits x sc d s f) hx hy g lr lc ly lx (ex ∙ shift) ey)
  where
    shift :
        x +ℤ pos (suc k * (8 * sc) + (col * sc + sx))
        ≡ x +ℤ pos (8 * sc) +ℤ pos (k * (8 * sc) + (col * sc + sx))
    shift = omega int_laws
