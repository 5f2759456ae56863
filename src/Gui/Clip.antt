-- ===== src/Gui/Clip.antt =====
-- The clipping of a rectangle to the screen in gui_fill_rect of gui/framebuffer.c.
use nanos_os.Common.{ℕ, ◌+◌, ◌≤◌, ◌<◌, ◌≡◌, Bool, false, arith, ltb, if◌then◌else◌}
use nanos_os.Common.Int.{ℤ, pos, negsuc, pos_part, ◌+ℤ◌, ◌-ℤ◌, ◌≤ℤ◌, ◌<ℤ◌, ltb_ℤ, int16, IsInt16}
use nanos_os.Gui.{clip}

-- What is left of an axis lies on the screen, whatever the arguments are.
pub clip_inside :
    (limit : ℕ) (x w : ℤ)
    → limit ≤ 1000
    → IsInt16 x
    → IsInt16 w
    → pos 0 <ℤ (clip limit x w).1
    → (pos 0 ≤ℤ (clip limit x w).0)
      × (pos_part (clip limit x w).0 + pos_part (clip limit x w).1 ≤ limit)
unfolding clip ◌+ℤ◌ ◌-ℤ◌ int16
clip_inside limit (pos x) (pos w) b ix iw h = ground arith
clip_inside limit (pos x) (negsuc w) b ix iw h = ground arith
clip_inside limit (negsuc x) (pos w) b ix iw h = ground arith
clip_inside limit (negsuc x) (negsuc w) b ix iw h = ground arith

-- The point `p` of an axis is one of the `w` from `x` on.
abbrev pub in_span : ℤ → ℤ → ℕ → Bool
in_span x w p = if ltb_ℤ (pos p) x then false else ltb_ℤ (pos p) (x +ℤ w)

pub clip-in_span :
    (limit : ℕ) (x w : ℤ) (p : ℕ)
    → limit ≤ 1000
    → IsInt16 x
    → IsInt16 w
    → negsuc 0x7FFF ≤ℤ x +ℤ w
    → p < limit
    → in_span (clip limit x w).0 (clip limit x w).1 p ≡ in_span x w p
unfolding clip ◌+ℤ◌ ◌-ℤ◌ int16
clip-in_span limit (pos x) (pos w) p b ix iw n h = ground arith
clip-in_span limit (pos x) (negsuc w) p b ix iw n h = ground arith
clip-in_span limit (negsuc x) (pos w) p b ix iw n h = ground arith
clip-in_span limit (negsuc x) (negsuc w) p b ix iw n h = ground arith

in_span_iff : (x w p : ℕ) → in_span (pos x) (pos w) p ≡ (if ltb p x then false else ltb p (x + w))
unfolding ◌+ℤ◌
in_span_iff x w p = ground arith
