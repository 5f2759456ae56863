-- ===== src/Gui/Widgets.antt =====
-- gui/framebuffer.c and gui/gui.h: the table of widgets, and how a tree of widgets is drawn.
-- A widget is given by its index in `s_widgets`. The functions that `draw` points to are the
-- applications': `call_draw` says what they do to the screen. The animations, which count in floating
-- point, are left out.
pub mod Tree
use nanos_os.Common.{
  ℕ, zero, suc, ◌+◌, ◌-◌, ◌*◌, ◌/◌, ◌%◌, Bool, true, false, List, [], ◌∷◌, ◌++◌, Option, none, some,
  ltb, leb, ◌==◌, if◌then◌else◌, length, ◌>>=◌,
}
use nanos_os.Common.Maps.{update}
use nanos_os.Common.Int.{ℤ, pos, negsuc, ◌+ℤ◌, ◌-ℤ◌, int16}
use nanos_os.Gui.{Screen, gui_fill_rect}
use nanos_os.Gui.Text.{half_ℤ, gui_draw_string, gui_fill_rounded_rect}

-- `gui_widget_t`, without the animation, the border and the touch handler
pub record Widget : Type 0 where
  pub x : ℤ
  pub y : ℤ
  pub w : ℤ
  pub h : ℤ
  pub bg : ℕ
  pub fg : ℕ
  pub alpha : ℕ
  pub kind : ℕ
  pub visible : Bool
  pub dirty : Bool
  pub parent : Option ℕ
  pub children : List ℕ
  pub draw : Option ℕ
  pub text : List ℕ
  pub cr : ℕ

-- `s_widgets` and `s_wcnt`
pub record Table : Type 0 where
  pub widgets : ℕ → Widget
  pub wcnt : ℕ

-- `RGB565`
unfoldable pub rgb565 : ℕ → ℕ → ℕ → ℕ
rgb565 r g b = r / 8 * 8 * 256 % 0x1_0000 + g / 4 * 4 * 8 + b / 8

abbrev pub max_widgets : ℕ
max_widgets = 128

abbrev pub max_children : ℕ
max_children = 16

-- `gui_widget_create`: NULL when the table is full
unfoldable pub gui_widget_create : ℕ → ℤ → ℤ → ℤ → ℤ → Table → Option ℕ × Table
gui_widget_create kind x y w h t = if leb max_widgets t.wcnt then (none, t) else (
  some t.wcnt,
  record t {
    widgets = update t.widgets t.wcnt (record {
      x = x;
      y = y;
      w = w;
      h = h;
      bg = rgb565 20 28 45;
      fg = rgb565 240 240 240;
      alpha = 255;
      kind = kind;
      visible = true;
      dirty = true;
      parent = none;
      children = [];
      draw = none;
      text = [];
      cr = 0;
    });
    wcnt = t.wcnt + 1;
  },
)

-- `gui_widget_add_child`
unfoldable pub gui_widget_add_child : ℕ → ℕ → Table → Bool × Table
gui_widget_add_child p c t =
    if leb max_children (length (t.widgets p).children)
    then (false, t)
    else let ws =
        update t.widgets p (record (t.widgets p) { children = (t.widgets p).children ++ c ∷ [] }) in
      (true, record t { widgets = update ws c (record (ws c) { parent = some p }) })

-- The loop of `widget_abs` over the parents; none when the fuel is used up
unfoldable pub abs_loop : ℕ → (ℕ → Widget) → Option ℕ → ℤ × ℤ → Option (ℤ × ℤ)
abs_loop n ws none (ax, ay) = some (ax, ay)
abs_loop zero ws (some p) (ax, ay) = none
abs_loop (suc n) ws (some p) (ax, ay) =
    abs_loop n ws (ws p).parent (int16 (ax +ℤ (ws p).x), int16 (ay +ℤ (ws p).y))

-- `widget_abs`
unfoldable pub widget_abs : ℕ → (ℕ → Widget) → ℕ → Option (ℤ × ℤ)
widget_abs n ws i = abs_loop n ws (ws i).parent ((ws i).x, (ws i).y)

-- The text of a widget, in the middle of it
unfoldable pub draw_text : Widget → ℤ → ℤ → Screen → Screen
draw_text w ax ay s = elim w.text [
  | [] ↦ s
  | c ∷ cs ↦
      let tx = int16 (ax +ℤ half_ℤ (w.w -ℤ pos (8 * length w.text))) in
      let ty = int16 (ay +ℤ half_ℤ (w.h -ℤ pos 16)) in
      record s { fb = gui_draw_string tx ty w.text w.fg w.bg 1 s.fb }
]

-- The background of a widget
unfoldable pub draw_back : (ℕ → ℕ) → Widget → ℤ → ℤ → Screen → Screen
draw_back root w ax ay s =
    if ltb 0 w.cr
    then gui_fill_rounded_rect root ax ay w.w w.h (pos w.cr) w.bg s
    else if w.alpha == 255
    then gui_fill_rect ax ay w.w w.h w.bg s
    else s

-- What `widget_render` draws before the children
unfoldable pub draw_widget :
    (ℕ → ℕ) → (ℕ → Widget → Screen → Screen) → Widget → ℤ × ℤ → Screen → Screen
draw_widget root call_draw w (ax, ay) s =
    let s = draw_text w ax ay (draw_back root w ax ay s) in
    elim w.draw [ none ↦ s | some f ↦ call_draw f w s ]

-- What `widget_render` changes
pub record Scene : Type 0 where
  pub table : Table
  pub screen : Screen

unfoldable pub clean : ℕ → Scene → Scene
clean i s = record s {
  table = record s.table {
    widgets = update s.table.widgets i (record (s.table.widgets i) { dirty = false });
  };
}

-- The loop of `widget_render` over the children
unfoldable pub each_child : (ℕ → Scene → Option Scene) → List ℕ → Scene → Option Scene
each_child render [] s = some s
each_child render (c ∷ cs) s = do t ← render c s; each_child render cs t

-- What `widget_render` does with a visible widget; `render` is the call for a child.
unfoldable pub render_shown :
    (ℕ → ℕ) → (ℕ → Widget → Screen → Screen) → (ℕ → Scene → Option Scene) → ℕ → Scene → Option Scene
render_shown root call_draw render i s = do
  let w = s.table.widgets i
  xy ← widget_abs max_widgets s.table.widgets i
  drawn ←
      each_child render w.children (record s { screen = draw_widget root call_draw w xy s.screen })
  some (clean i drawn)

-- `widget_render`; none when the fuel is used up
unfoldable pub widget_render :
    (ℕ → ℕ) → (ℕ → Widget → Screen → Screen) → ℕ → ℕ → Scene → Option Scene
widget_render root call_draw zero i s = none
widget_render root call_draw (suc n) i s =
    let shown = render_shown root call_draw (widget_render root call_draw n) i s in
    if (s.table.widgets i).visible then shown else some s
