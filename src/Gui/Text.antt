-- ===== src/Gui/Text.antt =====
-- gui/framebuffer.c: rectangles with round corners, and strings.
pub mod Glyph
pub mod Line
pub mod Rounded
use nanos_os.Common.{
  ℕ, each, zero, suc, ◌+◌, ◌-◌, ◌*◌, ◌/◌, ◌%◌, ◌^◌, Bool, true, false, List, [], ◌∷◌, ltb, leb,
  ◌==◌, if◌then◌else◌, get_or,
}
use nanos_os.Common.Maps.{update}
use nanos_os.Common.Int.{ℤ, pos, negsuc, pos_part, neg_part, ◌+ℤ◌, ◌-ℤ◌, ◌*ℤ◌, ltb_ℤ, int16}
use nanos_os.Gui.{Screen, lcd_w, lcd_h, fbp, gui_fill_rect}
use nanos_os.Gui.Font.{g_font8x16}

-- The assignment to a pixel in `gui_draw_string`, and the guard before it
unfoldable pub plot : ℤ → ℤ → ℕ → (ℕ → ℕ) → ℕ → ℕ
plot (negsuc x) y c fb = fb
plot (pos x) (negsuc y) c fb = fb
plot (pos x) (pos y) c fb =
    if ltb x lcd_w then if ltb y lcd_h then update fb (fbp x y) c else fb else fb

-- `b&BIT(7-col)`
unfoldable pub glyph_bit : ℕ → ℕ → Bool
glyph_bit b col = b / 2 ^ (7 - col) % 2 == 1

-- The rows of a character: `?` for what is not printable
unfoldable pub glyph : ℕ → List ℕ
glyph c =
    get_or g_font8x16 ((if ltb c 0x20 then 0x3F else if ltb 0x7E c then 0x3F else c) - 0x20) []

unfoldable pub glyph_color : List ℕ → ℕ → ℕ → ℕ → ℕ → ℕ
glyph_color g r col fg bg = if glyph_bit (get_or g r 0) col then fg else bg

-- The four loops of `gui_draw_string` for one character, from the inside out
unfoldable pub draw_run : ℤ → ℤ → ℕ → ℕ → ℕ → ℕ → ℕ → (ℕ → ℕ) → ℕ → ℕ
draw_run x y sc c r col sy =
    each sc (λ sx. plot (x +ℤ pos (col * sc + sx)) (y +ℤ pos (r * sc + sy)) c)

unfoldable pub draw_block : ℤ → ℤ → ℕ → ℕ → ℕ → ℕ → (ℕ → ℕ) → ℕ → ℕ
draw_block x y sc c r col = each sc (draw_run x y sc c r col)

unfoldable pub draw_line : ℤ → ℤ → List ℕ → ℕ → ℕ → ℕ → ℕ → (ℕ → ℕ) → ℕ → ℕ
draw_line x y g fg bg sc r = each 8 (λ col. draw_block x y sc (glyph_color g r col fg bg) r col)

unfoldable pub draw_glyph : ℤ → ℤ → List ℕ → ℕ → ℕ → ℕ → (ℕ → ℕ) → ℕ → ℕ
draw_glyph x y g fg bg sc = each 16 (draw_line x y g fg bg sc)

-- `gui_draw_string` of the bytes before the 0 that ends the string
unfoldable pub gui_draw_string : ℤ → ℤ → List ℕ → ℕ → ℕ → ℕ → (ℕ → ℕ) → ℕ → ℕ
gui_draw_string x y [] fg bg sc fb = fb
gui_draw_string x y (c ∷ s) fg bg sc fb =
    gui_draw_string (int16 (x +ℤ pos (8 * sc))) y s fg bg sc (draw_glyph x y (glyph c) fg bg sc fb)

-- `MIN(w,h)/2`, which rounds towards 0
unfoldable pub half_ℤ : ℤ → ℤ
half_ℤ (pos n) = pos (n / 2)
half_ℤ (negsuc n) = pos 0 -ℤ pos ((n + 1) / 2)

abbrev pub min_ℤ : ℤ → ℤ → ℤ
min_ℤ a b = if ltb_ℤ a b then a else b

-- The four calls for one `cy` in `gui_fill_rounded_rect`; `cx` is an `int`.
unfoldable pub fill_corners : ℤ → ℤ → ℤ → ℤ → ℤ → ℤ → ℤ → ℕ → Screen → Screen
fill_corners x y w h r cx cy c s =
    let one = pos 1 in
    let s = gui_fill_rect (int16 (x +ℤ r -ℤ cx)) (int16 (y +ℤ r -ℤ cy)) (int16 cx) one c s in
    let s = gui_fill_rect (int16 (x +ℤ w -ℤ one -ℤ r)) (int16 (y +ℤ r -ℤ cy)) (int16 cx) one c s in
    let s =
      gui_fill_rect (int16 (x +ℤ r -ℤ cx)) (int16 (y +ℤ h -ℤ one -ℤ r +ℤ cy)) (int16 cx) one c s in
    gui_fill_rect (int16 (x +ℤ w -ℤ one -ℤ r)) (int16 (y +ℤ h -ℤ one -ℤ r +ℤ cy)) (int16 cx) one c s

-- What `gui_fill_rounded_rect` does with the radius `r` that it keeps; `root` is `(int)sqrtf`.
unfoldable pub fill_rounded : (ℕ → ℕ) → ℤ → ℤ → ℤ → ℤ → ℤ → ℕ → Screen → Screen
fill_rounded root x y w h r c s =
    let s = gui_fill_rect (int16 (x +ℤ r)) y (int16 (w -ℤ pos 2 *ℤ r)) r c s in
    let s = gui_fill_rect x (int16 (y +ℤ r)) w (int16 (h -ℤ pos 2 *ℤ r)) c s in
    let s = gui_fill_rect (int16 (x +ℤ r)) (int16 (y +ℤ h -ℤ r)) (int16 (w -ℤ pos 2 *ℤ r)) r c s in
    let steps = if ltb_ℤ r (pos 0) then 0 else pos_part r + 1 in
    each steps
      (λ cy. fill_corners x y w h r (pos (root (pos_part r * pos_part r - cy * cy))) (pos cy) c) s

-- `gui_fill_rounded_rect`
unfoldable pub gui_fill_rounded_rect : (ℕ → ℕ) → ℤ → ℤ → ℤ → ℤ → ℤ → ℕ → Screen → Screen
gui_fill_rounded_rect root x y w h r c s =
    let kept = min_ℤ r (half_ℤ (min_ℤ w h)) in
    if ltb_ℤ (pos 0) r then fill_rounded root x y w h kept c s else gui_fill_rect x y w h c s
