-- ===== src/Gui/Widgets/Tree.antt =====
-- The tree of widgets in gui/framebuffer.c: what creations and additions keep, and that drawing ends.
use nanos_os.Common.{
  ℕ, zero, suc, ◌+◌, ◌≤◌, ◌<◌, ◌≡◌, ◌≢◌, inl, inr, refl, ◌∙◌, subst, Bool, true, false, List, [],
  ◌∷◌, ◌++◌, Option, none, some, leb, arith, Bool-cases, ==_iff, ◌==◌, if◌then◌else◌, length,
  length-append, All, All-map, All-snoc,
}
use nanos_os.Common.Maps.{update}
use nanos_os.Common.Int.{ℤ}
use nanos_os.Gui.{Screen}
use nanos_os.Gui.Widgets.{
  Widget, Table, Scene, max_widgets, max_children, gui_widget_create, gui_widget_add_child,
  abs_loop, widget_abs, clean, widget_render, each_child, render_shown, draw_widget,
}

-- The parent, when there is one, stands before the widget in the table.
abbrev pub Above : ℕ → Option ℕ → Type 0
Above i none = Unit {0}
Above i (some p) = p < i

-- What is known of the widget `i`
pub record IsPlaced (cnt i : ℕ) (w : Widget) : Type 0 where
  pub above : Above i w.parent
  pub below : All (λ c. (i < c) × (c < cnt)) w.children
  pub few : length w.children ≤ max_children

pub record IsValid (t : Table) : Type 0 where
  pub room : t.wcnt ≤ max_widgets
  pub placed : (i : ℕ) → i < t.wcnt → IsPlaced t.wcnt i (t.widgets i)

update-IsPlaced :
    (cnt k : ℕ) (ws : ℕ → Widget) (w : Widget)
    → ((i : ℕ) → i < cnt → IsPlaced cnt i (ws i))
    → IsPlaced cnt k w
    → (i : ℕ) → i < cnt
    → IsPlaced cnt i (update ws k w i)
update-IsPlaced cnt k ws w v h i l = elim (Bool-cases (k == i)) [
  | inl e ↦ rw e (subst (λ z. IsPlaced cnt z w) ((==_iff k i).0 e) h)
  | inr e ↦ rw e (v i l)
]

create-IsValid :
    (kind : ℕ) (x y w h : ℤ) (t : Table) → IsValid t → IsValid (gui_widget_create kind x y w h t).1
unfolding gui_widget_create
create-IsValid kind x y w h t v = elim (Bool-cases (leb max_widgets t.wcnt)) [
  | inl e ↦ rw e v
  | inr e ↦ rw e (record {
    room = ground (arith);
    placed = λ i l. elim (Bool-cases (t.wcnt == i)) [
      | inl f ↦ rw f (record { above = tt; below = tt; few = omega arith })
      | inr f ↦
          let n : t.wcnt ≢ i = λ p. ground arith in
          let b = v.placed i (omega arith) in
          rw f (record {
            above = b.above;
            below = All-map _ _ _ (λ c h. (h.0, omega (arith, h.1))) b.below;
            few = b.few;
          })
    ];
  })
]

add_child-IsValid :
    (p c : ℕ) (t : Table) → p < c → c < t.wcnt → IsValid t → IsValid (gui_widget_add_child p c t).1
unfolding gui_widget_add_child
add_child-IsValid p c t l m v =
    elim (Bool-cases (leb max_children (length (t.widgets p).children))) [
      | inl e ↦ rw e v
      | inr e ↦ rw e (record {
        room = v.room;
        placed =
            update-IsPlaced t.wcnt c _ _ (added e)
              (record { above = l; below = (added e c m).below; few = (added e c m).few });
      })
    ]
  where
    ltb_few :
        leb max_children (length (t.widgets p).children) ≡ false
        → length (t.widgets p).children < max_children
    ltb_few e = ground arith

    added :
        leb max_children (length (t.widgets p).children) ≡ false
        → (i : ℕ) → i < t.wcnt
        → IsPlaced t.wcnt i (
            update t.widgets p
              (record (t.widgets p) { children = (t.widgets p).children ++ c ∷ [] })
              i)
    added e =
        let b = v.placed p (omega arith) in
        update-IsPlaced t.wcnt p t.widgets _ v.placed (record {
          above = b.above;
          below = All-snoc _ (t.widgets p).children c b.below (l, m);
          few = omega (arith, length-append (t.widgets p).children (c ∷ []), ltb_few e);
        })

abs_loop_ends :
    (n cnt : ℕ) (ws : ℕ → Widget) (i : ℕ) (o : Option ℕ) (c : ℤ × ℤ)
    → ((j : ℕ) → j < cnt → IsPlaced cnt j (ws j))
    → i < cnt
    → i ≤ n
    → Above i o
    → (r : ℤ × ℤ) × (abs_loop n ws o c ≡ some r)
unfolding abs_loop
abs_loop_ends n cnt ws i none c v l b a = (c, refl)
abs_loop_ends zero cnt ws i (some p) c v l b a = absurd (omega arith)
abs_loop_ends (suc n) cnt ws i (some p) c v l b a =
    abs_loop_ends n cnt ws p (ws p).parent _ v (omega arith) (omega arith) (v p (omega arith)).above

-- The position of a widget is found: the loop over the parents comes to an end.
widget_abs_ends :
    (t : Table) (i : ℕ)
    → IsValid t
    → i < t.wcnt
    → (r : ℤ × ℤ) × (widget_abs max_widgets t.widgets i ≡ some r)
unfolding widget_abs
widget_abs_ends t i v l =
    abs_loop_ends max_widgets t.wcnt t.widgets i (t.widgets i).parent
      ((t.widgets i).x, (t.widgets i).y) v.placed l (omega (arith, v.room)) (v.placed i l).above

clean_wcnt : (i : ℕ) (s : Scene) → (clean i s).table.wcnt ≡ s.table.wcnt
unfolding clean
clean_wcnt i s = refl

clean-IsValid : (i : ℕ) (s : Scene) → IsValid s.table → i < s.table.wcnt → IsValid (clean i s).table
unfolding clean
clean-IsValid i s v l = record {
  room = v.room;
  placed = update-IsPlaced s.table.wcnt i s.table.widgets _ v.placed (record {
    above = (v.placed i l).above;
    below = (v.placed i l).below;
    few = (v.placed i l).few;
  });
}

module _ (root : ℕ → ℕ) (call_draw : ℕ → Widget → Screen → Screen) where
  -- Drawing comes to an end, and what is known of the table still holds.
  abbrev Ends : ℕ → Option Scene → Type 0
  Ends cnt o = (t : Scene) × (o ≡ some t) × IsValid t.table × (t.table.wcnt ≡ cnt)

  each_child-Ends :
      (n cnt i : ℕ)
      → ((c : ℕ) (s : Scene)
          → (i < c) × (c < cnt)
          → IsValid s.table
          → s.table.wcnt ≡ cnt
          → Ends cnt (widget_render root call_draw n c s))
      → (cs : List ℕ) (s : Scene) → All (λ c. (i < c) × (c < cnt)) cs
      → IsValid s.table
      → s.table.wcnt ≡ cnt
      → Ends cnt (each_child (widget_render root call_draw n) cs s)
  unfolding each_child
  each_child-Ends n cnt i h [] s a v e = (s, refl, v, e)
  each_child-Ends n cnt i h (c ∷ cs) s a v e =
      let (t, f, w, g) = h c s a.0 v e in rw f (each_child-Ends n cnt i h cs t a.1 w g)

  -- A branch on what is not known
  either-Ends :
      (cnt : ℕ) (b : Bool) (o p : Option Scene)
      → Ends cnt o
      → Ends cnt p
      → Ends cnt (if b then o else p)
  either-Ends cnt true o p h k = h
  either-Ends cnt false o p h k = k

  render_shown-Ends :
      (n cnt i : ℕ) (s t : Scene) (xy : ℤ × ℤ)
      → i < cnt
      → widget_abs max_widgets s.table.widgets i ≡ some xy
      → each_child
          (widget_render root call_draw n)
          (s.table.widgets i).children
          (record s { screen = draw_widget root call_draw (s.table.widgets i) xy s.screen })
        ≡ some t
      → IsValid t.table
      → t.table.wcnt ≡ cnt
      → Ends cnt (render_shown root call_draw (widget_render root call_draw n) i s)
  unfolding render_shown
  render_shown-Ends n cnt i s t xy l f g v k =
      rw (f, g) (clean i t, refl, clean-IsValid i t v (omega (arith, k)), clean_wcnt i t ∙ k)

  widget_render-Ends :
      (n cnt i : ℕ) (s : Scene)
      → i < cnt
      → cnt ≤ i + n
      → IsValid s.table
      → s.table.wcnt ≡ cnt
      → Ends cnt (widget_render root call_draw n i s)
  unfolding widget_render
  widget_render-Ends zero cnt i s l b v e = absurd (omega arith)
  widget_render-Ends (suc n) cnt i s l b v e =
      let p = v.placed i (omega (arith, e)) in
      let (xy, f) = widget_abs_ends s.table i v (omega (arith, e)) in
      let (t, g, w, k) =
        each_child-Ends n cnt i (λ c u h. widget_render-Ends n cnt c u h.1 (omega (arith, h.0)))
          (s.table.widgets i).children
          (record s { screen = draw_widget root call_draw (s.table.widgets i) xy s.screen })
          (subst (λ m. All (λ c. (i < c) × (c < m)) (s.table.widgets i).children) e p.below) v e in
      either-Ends cnt (s.table.widgets i).visible _ (some s)
        (render_shown-Ends n cnt i s t xy l f g w k) (s, refl, v, e)

-- The tables that creations and additions lead to from the empty one. A widget is added to one that was
-- created before it, as all the callers do.
pub data Reached : Table → Type 0 where
  start : (ws : ℕ → Widget) → Reached (record { widgets = ws; wcnt = 0 })
  created :
      (kind : ℕ) (x y w h : ℤ) (t : Table)
      → Reached t
      → Reached (gui_widget_create kind x y w h t).1
  added :
      (p c : ℕ) (t : Table)
      → p < c
      → c < t.wcnt
      → Reached t
      → Reached (gui_widget_add_child p c t).1

Reached-IsValid : (t : Table) → Reached t → IsValid t
Reached-IsValid t (start ws) = record { room = omega arith; placed = λ i l. absurd (omega arith) }
Reached-IsValid t (created kind x y w h u r) = create-IsValid kind x y w h u (Reached-IsValid u r)
Reached-IsValid t (added p c u l m r) = add_child-IsValid p c u l m (Reached-IsValid u r)

-- In every table that creations and additions lead to, where each widget is added to one created before it,
-- the drawing of any widget of the table comes to an end with a recursion not deeper than 128 and loops over
-- not more than 128 parents, whatever the applications' functions draw. There are at most 128 widgets, and
-- each has at most 16 children.
pub widget_render_total :
    (root : ℕ → ℕ) (call_draw : ℕ → Widget → Screen → Screen) (s : Scene) (i : ℕ)
    → Reached s.table
    → i < s.table.wcnt
    → ((t : Scene) × (widget_render root call_draw max_widgets i s ≡ some t))
      × (s.table.wcnt ≤ max_widgets)
      × (length (s.table.widgets i).children ≤ max_children)
widget_render_total root call_draw s i r l =
    let v = Reached-IsValid s.table r in
    let (t, e, w, k) =
      widget_render-Ends root call_draw max_widgets s.table.wcnt i s l (omega (arith, v.room)) v
        refl in
    ((t, e), v.room, (v.placed i l).few)
