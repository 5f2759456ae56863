-- ===== src/Gui/Text/Rounded.antt =====
-- The pixels that gui_fill_rounded_rect of gui/framebuffer.c writes.
use nanos_os.Common.{
  ℕ, each, zero, suc, ◌+◌, ◌-◌, ◌*◌, ◌≤◌, ◌≡◌, inl, inr, refl, ◌∙◌, arith, Bool-cases,
  if◌then◌else◌,
}
use nanos_os.Common.Int.{ℤ, pos, pos_part, ◌-ℤ◌, ltb_ℤ, IsInt16, int16-IsInt16}
use nanos_os.Gui.{Screen, lcd_w, lcd_h, bands, gui_fill_rect}
use nanos_os.Gui.Fill.{gui_fill_rect_bounds}
use nanos_os.Gui.Text.{half_ℤ, min_ℤ, fill_corners, fill_rounded, gui_fill_rounded_rect}

-- Beyond the frame buffer and its flags the two states agree.
pub record Confined (s t : Screen) : Type 0 where
  pub pixels : (q : ℕ) → lcd_w * lcd_h ≤ q → t.fb q ≡ s.fb q
  pub flags : (i : ℕ) → bands ≤ i → t.dirty i ≡ s.dirty i

Confined-chain : (s t u : Screen) → Confined s t → Confined t u → Confined s u
Confined-chain s t u a b = record {
  pixels = λ q l. b.pixels q l ∙ a.pixels q l;
  flags = λ i l. b.flags i l ∙ a.flags i l;
}

fill_Confined :
    (s t : Screen) (x y w h : ℤ) (c : ℕ)
    → IsInt16 x
    → IsInt16 y
    → IsInt16 w
    → IsInt16 h
    → Confined s t
    → Confined s (gui_fill_rect x y w h c t)
fill_Confined s t x y w h c ix iy iw ih a =
    let b = gui_fill_rect_bounds x y w h c t ix iy iw ih in
    Confined-chain s t _ a (record { pixels = b.0; flags = b.1 })

each-Confined :
    (s : Screen) (n : ℕ) (body : ℕ → Screen → Screen) (t : Screen)
    → ((i : ℕ) (u : Screen) → Confined s u → Confined s (body i u))
    → Confined s t
    → Confined s (each n body t)
each-Confined s zero body t h a = a
each-Confined s (suc n) body t h a = h n (each n body t) (each-Confined s n body t h a)

corners_Confined :
    (x y w h r cx cy : ℤ) (c : ℕ) (s t : Screen)
    → Confined s t
    → Confined s (fill_corners x y w h r cx cy c t)
unfolding fill_corners
corners_Confined x y w h r cx cy c s t a =
    let i = int16-IsInt16 in
    let one : IsInt16 (pos 1) = (omega arith, omega arith) in
    fill_Confined s _ _ _ _ _ c (i _) (i _) (i _) one (
      fill_Confined s _ _ _ _ _ c (i _) (i _) (i _) one (
        fill_Confined s _ _ _ _ _ c (i _) (i _) (i _) one
          (fill_Confined s t _ _ _ _ c (i _) (i _) (i _) one a)))

kept_IsInt16 :
    (w h r : ℤ) → IsInt16 w → IsInt16 h → IsInt16 r → IsInt16 (min_ℤ r (half_ℤ (min_ℤ w h)))
unfolding half_ℤ ◌-ℤ◌
kept_IsInt16 w h r iw ih ir = ground arith

rounded_Confined :
    (root : ℕ → ℕ) (x y w h r : ℤ) (c : ℕ) (s : Screen)
    → IsInt16 x
    → IsInt16 y
    → IsInt16 w
    → IsInt16 h
    → IsInt16 r
    → Confined s (fill_rounded root x y w h r c s)
unfolding fill_rounded
rounded_Confined root x y w h r c s ix iy iw ih ir =
    let i = int16-IsInt16 in
    each-Confined s (if ltb_ℤ r (pos 0) then 0 else pos_part r + 1)
      (λ cy. fill_corners x y w h r (pos (root (pos_part r * pos_part r - cy * cy))) (pos cy) c) _
      (λ cy u a. corners_Confined x y w h r _ (pos cy) c s u a)
      (fill_Confined s _ _ _ _ _ c (i _) (i _) (i _) ir (
        fill_Confined s _ _ _ _ _ c ix (i _) iw (i _) (
          fill_Confined s s _ _ _ _ c (i _) iy (i _) ir
            (record { pixels = λ q l. refl; flags = λ i l. refl }))))

-- For `int16_t` arguments of any value and any function in the place of the square root,
-- `gui_fill_rounded_rect` writes no pixel beyond the 480 * 800 pixels of the frame buffer, and sets no flag
-- of `s_dirty` beyond its 51.
pub gui_fill_rounded_rect_bounds :
    (root : ℕ → ℕ) (x y w h r : ℤ) (c : ℕ) (s : Screen)
    → IsInt16 x
    → IsInt16 y
    → IsInt16 w
    → IsInt16 h
    → IsInt16 r
    → Confined s (gui_fill_rounded_rect root x y w h r c s)
unfolding gui_fill_rounded_rect
gui_fill_rounded_rect_bounds root x y w h r c s ix iy iw ih ir =
    elim (Bool-cases (ltb_ℤ (pos 0) r)) [
      | inr e ↦ rw e (
          fill_Confined s s x y w h c ix iy iw ih
            (record { pixels = λ q l. refl; flags = λ i l. refl }))
      | inl e ↦ rw e (rounded_Confined root x y w h _ c s ix iy iw ih (kept_IsInt16 w h r iw ih ir))
    ]
