-- ===== src/Gui/Fill.antt =====
-- What gui_fill_rect of gui/framebuffer.c draws.
use nanos_os.Common.{
  ℕ, ◌+◌, ◌-◌, ◌*◌, ◌/◌, ◌%◌, ◌≤◌, ◌<◌, ◌≡◌, ◌≢◌, ◌⊎◌, inl, inr, refl, sym, ◌∙◌, Bool, true, false,
  arith, Bool-cases, if◌then◌else◌,
}
use nanos_os.Common.Int.{ℤ, pos, negsuc, pos_part, ◌+ℤ◌, ◌≤ℤ◌, ◌<ℤ◌, ltb_ℤ, IsInt16}
use nanos_os.Gui.{Screen, lcd_w, lcd_h, bands, fbp, mark, fill_rows, fill_clipped, gui_fill_rect}
use nanos_os.Gui.Pixels.{fill_rows_in, fill_rows_out}
use nanos_os.Gui.Clip.{clip_inside, in_span, clip-in_span}

-- The rectangle as it is after the clipping
module _ (x w y h c : ℕ) (s : Screen) (fx : x + w ≤ lcd_w) (fy : y + h ≤ lcd_h) where
  row_apart :
      (px py j : ℕ)
      → px < lcd_w
      → in_span (pos x) (pos w) px ≡ false
      → (fbp px py < fbp x y + j * lcd_w) ⊎ (fbp x y + j * lcd_w + w ≤ fbp px py)
  unfolding ◌+ℤ◌
  row_apart px py j b o = ground arith

  column_apart :
      (px py j : ℕ)
      → px < lcd_w
      → j < h
      → in_span (pos y) (pos h) py ≡ false
      → (fbp px py < fbp x y + j * lcd_w) ⊎ (fbp x y + j * lcd_w + w ≤ fbp px py)
  unfolding ◌+ℤ◌
  column_apart px py j b n o = ground arith

  in_rows :
      (px py : ℕ)
      → in_span (pos x) (pos w) px ≡ true
      → in_span (pos y) (pos h) py ≡ true
      → fill_rows (fbp x y) w h c s.fb (fbp px py) ≡ c
  unfolding ◌+ℤ◌
  in_rows px py e f =
      let l : y ≤ py = ground arith in
      let u : py < y + h = ground arith in
      let m : x ≤ px = ground arith in
      let v : px < x + w = ground arith in
      fill_rows_in (fbp x y) w h c s.fb (fbp px py) (py - y) (omega arith) (omega arith)
        (omega arith) (omega arith)

  rows_pixel :
      (px py : ℕ)
      → px < lcd_w
      → fill_rows (fbp x y) w h c s.fb (fbp px py) ≡ (
          if in_span (pos x) (pos w) px
          then if in_span (pos y) (pos h) py then c else s.fb (fbp px py)
          else s.fb (fbp px py))
  rows_pixel px py b = elim (Bool-cases (in_span (pos x) (pos w) px)) [
    | inl e ↦ elim (Bool-cases (in_span (pos y) (pos h) py)) [
      | inl f ↦ rw (e, f) (in_rows px py e f)
      | inr f ↦ rw (e, f) (fill_rows_out _ w h c s.fb _ (λ j n. column_apart px py j b n f))
    ]
    | inr e ↦ rw e (fill_rows_out _ w h c s.fb _ (λ j n. row_apart px py j b e))
  ]

-- Whatever the arguments are, only pixels of the buffer are written.
fill_clipped_outside :
    (x w y h : ℤ) (c : ℕ) (s : Screen) (q : ℕ)
    → (pos 0 <ℤ w → (pos 0 ≤ℤ x) × (pos_part x + pos_part w ≤ lcd_w))
    → (pos 0 <ℤ h → (pos 0 ≤ℤ y) × (pos_part y + pos_part h ≤ lcd_h))
    → lcd_w * lcd_h ≤ q
    → (fill_clipped (x, w) (y, h) c s).fb q ≡ s.fb q
unfolding fill_clipped
fill_clipped_outside x w y h c s q ix iy o = elim (Bool-cases (ltb_ℤ (pos 0) w)) [
  | inr e ↦ rw e refl
  | inl e ↦ elim (Bool-cases (ltb_ℤ (pos 0) h)) [
    | inr f ↦ rw (e, f) refl
    | inl f ↦
        let a = ix (ground arith) in
        let b = iy (ground arith) in
        rw (e, f) (fill_rows_out _ (pos_part w) (pos_part h) _ s.fb q (λ j n. inr (omega arith)))
  ]
]

fill_clipped_flags :
    (x w y h : ℤ) (c : ℕ) (s : Screen) (i : ℕ)
    → bands ≤ i
    → (fill_clipped (x, w) (y, h) c s).dirty i ≡ s.dirty i
unfolding fill_clipped mark
fill_clipped_flags x w y h c s i o = ground arith

on_span : (x w : ℤ) (p : ℕ) → in_span x w p ≡ true → pos 0 <ℤ w
unfolding ◌+ℤ◌
on_span x w p e = ground arith

off_span : (x w : ℤ) (p : ℕ) → ltb_ℤ (pos 0) w ≡ false → in_span x w p ≡ false
unfolding ◌+ℤ◌
off_span x w p e = ground arith

span_parts :
    (x w : ℤ) (p : ℕ)
    → pos 0 ≤ℤ x
    → pos 0 <ℤ w
    → in_span (pos (pos_part x)) (pos (pos_part w)) p ≡ in_span x w p
span_parts (pos x) (pos w) p h k = refl
span_parts (pos x) (negsuc w) p h k = absurd (omega arith)
span_parts (negsuc x) w p h k = absurd (omega arith)

module _ (x w y h : ℤ) (c : ℕ) (s : Screen) (px py : ℕ)
    (ix : pos 0 <ℤ w → (pos 0 ≤ℤ x) × (pos_part x + pos_part w ≤ lcd_w))
    (iy : pos 0 <ℤ h → (pos 0 ≤ℤ y) × (pos_part y + pos_part h ≤ lcd_h)) (hc : c < 0x1_0000)
    (hx : px < lcd_w) where
  fill_clipped_pixel : (fill_clipped (x, w) (y, h) c s).fb (fbp px py) ≡ (
      if in_span x w px then if in_span y h py then c else s.fb (fbp px py) else s.fb (fbp px py))
  unfolding fill_clipped
  fill_clipped_pixel = elim (Bool-cases (ltb_ℤ (pos 0) w)) [
    | inr e ↦ rw (e, off_span x w px e) refl
    | inl e ↦ elim (Bool-cases (ltb_ℤ (pos 0) h)) [
      | inr f ↦ rw (e, f, off_span y h py f) (same (in_span x w px))
      | inl f ↦
          let k : pos 0 <ℤ w = ground arith in
          let l : pos 0 <ℤ h = ground arith in
          let a = ix k in
          let b = iy l in
          let m : c % 0x1_0000 ≡ c = omega arith in
          rw (e, f, m, sym (span_parts x w px a.0 k), sym (span_parts y h py b.0 l))
            (rows_pixel (pos_part x) (pos_part w) (pos_part y) (pos_part h) c s a.1 b.1 px py hx)
    ]
  ]
    where
      same : (b : Bool) → s.fb (fbp px py) ≡ (if b then s.fb (fbp px py) else s.fb (fbp px py))
      same true = refl
      same false = refl

  fill_clipped_marked :
      py < lcd_h
      → (fill_clipped (x, w) (y, h) c s).fb (fbp px py) ≢ s.fb (fbp px py)
      → (fill_clipped (x, w) (y, h) c s).dirty (py / 16) ≡ true
  unfolding fill_clipped mark ◌+ℤ◌
  fill_clipped_marked hy ne = elim (Bool-cases (in_span x w px)) [
    | inr e ↦ absurd (ne (fill_clipped_pixel ∙ rw e refl))
    | inl e ↦ elim (Bool-cases (in_span y h py)) [
      | inr f ↦ absurd (ne (fill_clipped_pixel ∙ rw (e, f) refl))
      | inl f ↦ let k = on_span x w px e in let l = on_span y h py f in let b = iy l in ground arith
    ]
  ]

-- For `int16_t` arguments of any value, `gui_fill_rect` writes no pixel beyond the 480 * 800 pixels of the
-- frame buffer, and sets no flag of `s_dirty` beyond its 51.
pub gui_fill_rect_bounds :
    (x y w h : ℤ) (c : ℕ) (s : Screen)
    → IsInt16 x
    → IsInt16 y
    → IsInt16 w
    → IsInt16 h
    → ((q : ℕ) → lcd_w * lcd_h ≤ q → (gui_fill_rect x y w h c s).fb q ≡ s.fb q)
      × ((i : ℕ) → bands ≤ i → (gui_fill_rect x y w h c s).dirty i ≡ s.dirty i)
unfolding gui_fill_rect
gui_fill_rect_bounds x y w h c s ix iy iw ih = (
  λ q o.
      fill_clipped_outside _ _ _ _ c s q (clip_inside lcd_w x w (omega arith) ix iw)
        (clip_inside lcd_h y h (omega arith) iy ih) o,
  λ i o. fill_clipped_flags _ _ _ _ c s i o,
)

-- For `int16_t` arguments, with x + w and y + h not below -32768, `gui_fill_rect` gives every pixel of the
-- screen that lies in the rectangle the colour, and leaves every other pixel of the screen as it was.
pub gui_fill_rect_pixel :
    (x y w h : ℤ) (c : ℕ) (s : Screen) (px py : ℕ)
    → IsInt16 x
    → IsInt16 y
    → IsInt16 w
    → IsInt16 h
    → negsuc 0x7FFF ≤ℤ x +ℤ w
    → negsuc 0x7FFF ≤ℤ y +ℤ h
    → c < 0x1_0000
    → px < lcd_w
    → py < lcd_h
    → (gui_fill_rect x y w h c s).fb (fbp px py) ≡ (
        if in_span x w px then if in_span y h py then c else s.fb (fbp px py) else s.fb (fbp px py))
unfolding gui_fill_rect
gui_fill_rect_pixel x y w h c s px py ix iy iw ih nx ny hc hx hy =
    let e = clip-in_span lcd_w x w px (omega arith) ix iw nx hx in
    let f = clip-in_span lcd_h y h py (omega arith) iy ih ny hy in
    rw (sym e, sym f)
      (fill_clipped_pixel _ _ _ _ c s px py (clip_inside lcd_w x w (omega arith) ix iw)
        (clip_inside lcd_h y h (omega arith) iy ih) hc hx)

-- Every pixel of the screen that `gui_fill_rect` changes lies in a band of rows that is marked as dirty, for
-- `int16_t` arguments of any value.
pub gui_fill_rect_marked :
    (x y w h : ℤ) (c : ℕ) (s : Screen) (px py : ℕ)
    → IsInt16 x
    → IsInt16 y
    → IsInt16 w
    → IsInt16 h
    → c < 0x1_0000
    → px < lcd_w
    → py < lcd_h
    → (gui_fill_rect x y w h c s).fb (fbp px py) ≢ s.fb (fbp px py)
    → (gui_fill_rect x y w h c s).dirty (py / 16) ≡ true
unfolding gui_fill_rect
gui_fill_rect_marked x y w h c s px py ix iy iw ih hc hx hy ne =
    fill_clipped_marked _ _ _ _ c s px py (clip_inside lcd_w x w (omega arith) ix iw)
      (clip_inside lcd_h y h (omega arith) iy ih) hc hx hy ne
