-- ===== src/Gui/Render.antt =====
-- gui/framebuffer.c: what one turn of the render task sends to the display, and gui_init.
-- The display is given by the calls of `lcd_set_window` and `lcd_write_pixels`, which are other code;
-- the pixels written are given by the index of the first one in the buffer and by their number.
use nanos_os.Common.{
  ℕ, each, zero, suc, ◌+◌, ◌-◌, ◌*◌, ◌/◌, ◌%◌, ◌≤◌, ◌<◌, ◌≡◌, ◌≢◌, ◌⊎◌, inl, inr, Bool, true, false,
  List, [], ◌∷◌, ◌++◌, Option, some, ltb, if◌then◌else◌, arith, ◌>>=◌, ◌==◌, ==_iff, Bool-cases,
}
use nanos_os.Common.Int.{ℤ, pos, IsInt16}
use nanos_os.Kernel.{u32_mod}
use nanos_os.Gui.{Screen, lcd_w, lcd_h, bands, fbp, gui_fill_rect}
use nanos_os.Gui.Fill.{gui_fill_rect_marked}
use nanos_os.Gui.Widgets.{Widget, Scene, max_widgets, rgb565, gui_widget_create, widget_render}

pub data LcdCall : Type 0 where
  set_window : ℕ → ℕ → ℕ → ℕ → LcdCall
  write_pixels : ℕ → ℕ → LcdCall

-- `MIN(ys+16,LCD_H)`
unfoldable pub band_end : ℕ → ℕ
band_end b = if ltb (b * 16 + 16) lcd_h then b * 16 + 16 else lcd_h

-- One turn of the loop over the bands
unfoldable pub flush_band : (ℕ → Bool) → ℕ → List LcdCall → List LcdCall
flush_band dirty b calls =
    if dirty b
    then calls
      ++ LcdCall.set_window 0 (b * 16) lcd_w (band_end b - b * 16)
        ∷ LcdCall.write_pixels (b * 16 * lcd_w) (lcd_w * (band_end b - b * 16))
        ∷ []
    else calls

unfoldable pub flush : (ℕ → Bool) → List LcdCall
flush dirty = each bands (flush_band dirty) []

-- The state of the render task: the widgets, the buffer that is drawn into with its flags, the other
-- buffer, and `s_frame_cnt`
pub record Gui : Type 0 where
  pub scene : Scene
  pub other : ℕ → ℕ
  pub frame_cnt : ℕ

-- One turn of `render_task`, without the animations, the waiting and the rate
unfoldable pub render_pass :
    (ℕ → ℕ) → (ℕ → Widget → Screen → Screen) → ℕ → Gui → Option (List LcdCall × Gui)
render_pass root call_draw widget g = do
  s ← widget_render root call_draw max_widgets widget g.scene
  some (
    flush s.screen.dirty,
    record g {
      scene = record s { screen = record { fb = g.other; dirty = λ i. false } };
      other = s.screen.fb;
      frame_cnt = (g.frame_cnt + 1) % u32_mod;
    },
  )

-- `gui_init`, once the buffers are allocated: the index of `s_root`, and the state
unfoldable pub gui_init : (ℕ → Widget) → Option ℕ × Gui
gui_init ws =
    let (root, t) =
      gui_widget_create 0 (pos 0) (pos 0) (pos lcd_w) (pos lcd_h)
        (record { widgets = ws; wcnt = 0 }) in
    (
      root,
      record {
        scene = record {
          table = record t {
            widgets =
                λ i. if i == 0 then record (t.widgets 0) { bg = rgb565 10 12 22 } else t.widgets i;
          };
          screen = record { fb = λ q. 0; dirty = λ i. true };
        };
        other = λ q. 0;
        frame_cnt = 0;
      },
    )

-- The pixel at index `q` is among those written.
abbrev pub Sent : ℕ → List LcdCall → Type 0
Sent q [] = ⊥
Sent q (LcdCall.set_window x y w h ∷ calls) = Sent q calls
Sent q (LcdCall.write_pixels first n ∷ calls) = ((first ≤ q) × (q < first + n)) ⊎ Sent q calls

Sent-left : (q : ℕ) (xs ys : List LcdCall) → Sent q xs → Sent q (xs ++ ys)
Sent-left q [] ys s = absurd s
Sent-left q (LcdCall.set_window x y w h ∷ xs) ys s = Sent-left q xs ys s
Sent-left q (LcdCall.write_pixels first n ∷ xs) ys (inl s) = inl s
Sent-left q (LcdCall.write_pixels first n ∷ xs) ys (inr s) = inr (Sent-left q xs ys s)

Sent-right : (q : ℕ) (xs ys : List LcdCall) → Sent q ys → Sent q (xs ++ ys)
Sent-right q [] ys s = s
Sent-right q (LcdCall.set_window x y w h ∷ xs) ys s = Sent-right q xs ys s
Sent-right q (LcdCall.write_pixels first n ∷ xs) ys s = inr (Sent-right q xs ys s)

flush_band_keeps :
    (dirty : ℕ → Bool) (b q : ℕ) (calls : List LcdCall)
    → Sent q calls
    → Sent q (flush_band dirty b calls)
unfolding flush_band
flush_band_keeps dirty b q calls s = elim (Bool-cases (dirty b)) [
  | inl e ↦ rw e (Sent-left q calls _ s)
  | inr e ↦ rw e s
]

band_below :
    (b px py : ℕ)
    → px < lcd_w
    → py < lcd_h
    → py / 16 ≡ b
    → fbp px py < b * 16 * lcd_w + lcd_w * (band_end b - b * 16)
unfolding band_end
band_below b px py hx hy e = ground arith

flush_band_sends :
    (dirty : ℕ → Bool) (b px py : ℕ) (calls : List LcdCall)
    → px < lcd_w
    → py < lcd_h
    → py / 16 ≡ b
    → dirty b ≡ true
    → Sent (fbp px py) (flush_band dirty b calls)
unfolding flush_band
flush_band_sends dirty b px py calls hx hy e d =
    rw d (Sent-right (fbp px py) calls _ (inl (omega arith, band_below b px py hx hy e)))

flush_loop :
    (dirty : ℕ → Bool) (n px py : ℕ)
    → px < lcd_w
    → py < lcd_h
    → py / 16 < n
    → dirty (py / 16) ≡ true
    → Sent (fbp px py) (each n (flush_band dirty) [])
flush_loop dirty zero px py hx hy l d = absurd (omega arith)
flush_loop dirty (suc n) px py hx hy l d = elim (Bool-cases (py / 16 == n)) [
  | inr e ↦
      let f : py / 16 ≢ n = λ p. ground arith in
      flush_band_keeps dirty n (fbp px py) (each n (flush_band dirty) [])
        (flush_loop dirty n px py hx hy (ground arith) d)
  | inl e ↦
      let f : py / 16 ≡ n = (==_iff (py / 16) n).0 e in
      flush_band_sends dirty n px py (each n (flush_band dirty) []) hx hy f (rw f at d)
]

-- Whatever pixel of the screen `gui_fill_rect` changes, for `int16_t` arguments of any value, the loop over
-- the bands in the next turn of the render task sends it to the display.
pub gui_fill_rect-flush :
    (x y w h : ℤ) (c : ℕ) (s : Screen) (px py : ℕ)
    → IsInt16 x
    → IsInt16 y
    → IsInt16 w
    → IsInt16 h
    → c < 0x1_0000
    → px < lcd_w
    → py < lcd_h
    → (gui_fill_rect x y w h c s).fb (fbp px py) ≢ s.fb (fbp px py)
    → Sent (fbp px py) (flush (gui_fill_rect x y w h c s).dirty)
unfolding flush
gui_fill_rect-flush x y w h c s px py ix iy iw ih hc hx hy ne =
    flush_loop _ bands px py hx hy (omega arith)
      (gui_fill_rect_marked x y w h c s px py ix iy iw ih hc hx hy ne)
