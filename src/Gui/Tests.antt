-- ===== src/Gui/Tests.antt =====
-- The drawing functions of gui/framebuffer.c at work, and a case for each of the results.
use nanos_os.Common.{◌/◌, ◌≡◌, ◌≢◌, refl, false, [], ◌∷◌, none, arith}
use nanos_os.Common.Int.{pos, negsuc, ◌+ℤ◌, ◌-ℤ◌, int16}
use nanos_os.Gui.{Screen, fbp, clip, fill_pairs, fill_row, fill_rows, fill_clipped, gui_fill_rect}
use nanos_os.Gui.Fill.{gui_fill_rect_pixel}
use nanos_os.Gui.Font.{g_font8x16}
use nanos_os.Gui.Text.{glyph, glyph_bit, glyph_color, gui_draw_string, gui_fill_rounded_rect}
use nanos_os.Gui.Text.Line.{gui_draw_string_pixel}
use nanos_os.Gui.Text.Rounded.{Confined, gui_fill_rounded_rect_bounds}
use nanos_os.Gui.Widgets.{Widget, Table, gui_widget_create, gui_widget_add_child}
use nanos_os.Gui.Render.{Gui, Sent, flush, gui_fill_rect-flush}

abbrev blank : Screen
blank = record { fb = λ q. 0; dirty = λ i. false }

-- A rectangle that starts to the left of the screen
clipped_left : clip 480 (negsuc 0) (pos 4) ≡ (pos 0, pos 3)
unfolding clip ◌+ℤ◌ int16
clipped_left = refl

-- A width so far below 0 that adding the position wraps it around
wrapped_width : clip 480 (negsuc 0) (negsuc 0x7FFF) ≡ (pos 0, pos 480)
unfolding clip ◌+ℤ◌ ◌-ℤ◌ int16
wrapped_width = refl

gui_fill_rect_pixel_example :
    (gui_fill_rect (negsuc 0) (pos 2) (pos 4) (pos 3) 7 blank).fb (fbp 2 3) ≡ 7
unfolding ◌+ℤ◌
gui_fill_rect_pixel_example =
    gui_fill_rect_pixel (negsuc 0) (pos 2) (pos 4) (pos 3) 7 blank 2 3 (omega arith, omega arith)
      (omega arith, omega arith) (omega arith, omega arith) (omega arith, omega arith) (omega arith)
      (omega arith) (omega arith) (omega arith) (omega arith)

seven : (gui_fill_rect (pos 1) (pos 2) (pos 4) (pos 3) 7 blank).fb (fbp 2 3) ≢ 0
unfolding gui_fill_rect fill_clipped clip fill_rows fill_row fill_pairs ◌+ℤ◌
seven e = omega arith

gui_fill_rect-flush_example :
    Sent (fbp 2 3) (flush (gui_fill_rect (pos 1) (pos 2) (pos 4) (pos 3) 7 blank).dirty)
gui_fill_rect-flush_example =
    gui_fill_rect-flush (pos 1) (pos 2) (pos 4) (pos 3) 7 blank 2 3 (omega arith, omega arith)
      (omega arith, omega arith) (omega arith, omega arith) (omega arith, omega arith) (omega arith)
      (omega arith) (omega arith) seven

-- The string is "!A"; the pixel is in the fourth row of the second character.
gui_draw_string_pixel_example :
    gui_draw_string (pos 10) (pos 20) (0x21 ∷ 0x41 ∷ []) 7 3 2 blank.fb (fbp 35 27) ≡ 7
unfolding ◌+ℤ◌ glyph glyph_bit glyph_color g_font8x16
gui_draw_string_pixel_example =
    gui_draw_string_pixel (pos 10) (pos 20) (0x21 ∷ 0x41 ∷ []) 7 3 2 35 27 blank.fb 1 0x41 3 4 1 1
      ((omega arith, omega arith), omega arith) (omega arith) (omega arith) refl (omega arith)
      (omega arith) (omega arith) (omega arith) refl refl

gui_fill_rounded_rect_bounds_example :
    Confined blank
      (gui_fill_rounded_rect (λ n. n / 4) (pos 470) (negsuc 3) (pos 20) (pos 20) (pos 4) 7 blank)
gui_fill_rounded_rect_bounds_example =
    gui_fill_rounded_rect_bounds (λ n. n / 4) (pos 470) (negsuc 3) (pos 20) (pos 20) (pos 4) 7 blank
      (omega arith, omega arith) (omega arith, omega arith) (omega arith, omega arith)
      (omega arith, omega arith) (omega arith, omega arith)

abbrev blank_widget : Widget
blank_widget = record {
  x = pos 0;
  y = pos 0;
  w = pos 0;
  h = pos 0;
  bg = 0;
  fg = 0;
  alpha = 0;
  kind = 0;
  visible = false;
  dirty = false;
  parent = none;
  children = [];
  draw = none;
  text = [];
  cr = 0;
}

abbrev empty_table : Table
empty_table = record { widgets = λ i. blank_widget; wcnt = 0 }

abbrev two_widgets : Table
two_widgets =
    (gui_widget_create 1 (pos 8) (pos 10) (pos 40) (pos 16)
      (gui_widget_create 0 (pos 0) (pos 0) (pos 480) (pos 800) empty_table).1).1

abbrev tree : Table
tree = (gui_widget_add_child 0 1 two_widgets).1

abbrev start : Gui
start = record { scene = record { table = tree; screen = blank }; other = λ q. 0; frame_cnt = 0 }
