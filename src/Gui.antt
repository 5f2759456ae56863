-- ===== src/Gui.antt =====
-- gui/framebuffer.c: drawing into the frame buffer.
-- A pixel of the frame buffer is given by its index, and the memory from the start of the buffer on
-- by the values of its pixels. The int16_t arguments are signed numbers.
pub mod Pixels
pub mod Clip
pub mod Fill
pub mod Font
pub mod Text
pub mod Widgets
pub mod Render
mod Tests
use nanos_os.Common.{
  ℕ, zero, suc, ◌+◌, ◌-◌, ◌*◌, ◌/◌, ◌%◌, Bool, true, false, ◌||◌, List, ltb, leb, ◌==◌,
  if◌then◌else◌, each,
}
use nanos_os.Common.Maps.{update}
use nanos_os.Common.Int.{ℤ, pos, negsuc, pos_part, neg_part, ◌+ℤ◌, ◌-ℤ◌, ltb_ℤ, int16}

abbrev pub lcd_w : ℕ
lcd_w = 480

abbrev pub lcd_h : ℕ
lcd_h = 800

-- `LCD_H/16+1`, the number of the bands of 16 rows
abbrev pub bands : ℕ
bands = 51

-- What the drawing functions change: the buffer `s_fb[s_draw]` and `s_dirty`.
pub record Screen : Type 0 where
  pub fb : ℕ → ℕ
  pub dirty : ℕ → Bool

-- `fbp`
abbrev pub fbp : ℕ → ℕ → ℕ
fbp x y = y * lcd_w + x

-- `mark`, of a row `y` and a height that is not 0
unfoldable pub mark : ℕ → ℕ → (ℕ → Bool) → ℕ → Bool
mark y h dirty i =
    if leb (y / 16) i
    then if leb i ((y + h - 1) / 16) then if ltb i bands then true else dirty i else dirty i
    else dirty i

-- One axis of the clipping in `gui_fill_rect`: where the rectangle starts and how long it is. The
-- two lengths are `int16_t`.
unfoldable pub clip : ℕ → ℤ → ℤ → ℤ × ℤ
clip limit x w =
    let (x, w) = if ltb_ℤ x (pos 0) then (pos 0, int16 (w +ℤ x)) else (x, w) in
    if ltb_ℤ (pos limit) (x +ℤ w) then (x, int16 (pos limit -ℤ x)) else (x, w)

-- The loop over the pairs of pixels of a row: one 32-bit write for each pair
unfoldable pub fill_pairs : ℕ → ℕ → ℕ → (ℕ → ℕ) → ℕ → ℕ
fill_pairs d n c = each n (λ i fb. update (update fb (d + 2 * i) c) (d + 2 * i + 1) c)

-- A row of `gui_fill_rect`: the pairs, and the last pixel of an odd width
unfoldable pub fill_row : ℕ → ℕ → ℕ → (ℕ → ℕ) → ℕ → ℕ
fill_row d w c fb =
    let pairs = fill_pairs d (w / 2) c fb in
    if w % 2 == 1 then update pairs (d + (w - 1)) c else pairs

-- The loop over the rows; `d` moves on by LCD_W.
unfoldable pub fill_rows : ℕ → ℕ → ℕ → ℕ → (ℕ → ℕ) → ℕ → ℕ
fill_rows d w h c = each h (λ r fb. fill_row (d + r * lcd_w) w c fb)

-- What `gui_fill_rect` does once the rectangle is clipped
unfoldable pub fill_clipped : ℤ × ℤ → ℤ × ℤ → ℕ → Screen → Screen
fill_clipped (x, w) (y, h) c s =
    if ltb_ℤ (pos 0) w
    then if ltb_ℤ (pos 0) h
      then record s {
        fb =
            fill_rows (fbp (pos_part x) (pos_part y)) (pos_part w) (pos_part h) (c % 0x1_0000) s.fb;
        dirty = mark (pos_part y) (pos_part h) s.dirty;
      }
      else s
    else s

-- `gui_fill_rect`
unfoldable pub gui_fill_rect : ℤ → ℤ → ℤ → ℤ → ℕ → Screen → Screen
gui_fill_rect x y w h c = fill_clipped (clip lcd_w x w) (clip lcd_h y h) c
