-- ===== src/TouchProbe/Readers/Bounds.antt =====
-- The number and the place of the points that drivers/autodetect/touch_probe.c reads.
use nanos_os.Common.{
  ℕ, zero, suc, ◌%◌, ◌≤◌, ◌≡◌, inl, inr, refl, ◌∙◌, Bool, true, false, Option, none, some, List,
  ◌==◌, ltb, get_or, if◌then◌else◌, arith, Option-cases,
}
use nanos_os.Common.Maps.{update_ne}
use nanos_os.I2c.{Op, i2c_read_reg8, i2c_read_reg16}
use nanos_os.TouchProbe.Readers.{
  Point, TouchData, one_point, first_point, cst816s_point, TouchDriver, at_most_5, write_points,
  read_gt911, read_ft5x36, read_cst816s, read_ns2009, read_stmpe811, read_tt21100, read_touch,
}

-- What lies behind the array of five points is as in `mem`.
abbrev pub Inside : (ℕ → Point) → (ℕ → Point) → Type 0
Inside mem pts = (i : ℕ) → 5 ≤ i → pts i ≡ mem i

-- Nothing behind the array is changed, and at most `n` points are said to be given.
pub record IsBounded (mem : ℕ → Point) (n : ℕ) (d : TouchData) : Type 0 where
  pub inside : Inside mem d.pts
  pub count : d.count ≤ n

-- What a read leaves, if it does not fail
abbrev pub Reads : (ℕ → Point) → ℕ → Option TouchData → Type 0
Reads mem n none = Unit {0}
Reads mem n (some d) = IsBounded mem n d

-- The loop leaves the points from number `n` on.
write_points_above :
    (n : ℕ) (point : ℕ → Point) (pts : ℕ → Point) (i : ℕ)
    → n ≤ i
    → write_points n point pts i ≡ pts i
unfolding write_points
write_points_above zero point pts i h = refl
write_points_above (suc n) point pts i h =
    update_ne (write_points n point pts) n i (point n) (λ e. omega arith)
    ∙ write_points_above n point pts i (omega arith)

write_points-Inside :
    (n : ℕ) (point : ℕ → Point) (pts : ℕ → Point) → n ≤ 5 → Inside pts (write_points n point pts)
write_points-Inside n point pts h i b = write_points_above n point pts i (omega arith)

first_point-Inside : (f : Point → Point) (d : TouchData) → Inside d.pts (first_point f d)
first_point-Inside f d i b = update_ne d.pts 0 i (f (d.pts 0)) (λ e. omega arith)

at_most : (n : ℕ) → at_most_5 n ≤ 5
unfolding at_most_5
at_most n = ground arith

-- A branch on what is not known
either_Reads :
    (mem : ℕ → Point) (n : ℕ) (b : Bool) (x y : Option TouchData × List Op)
    → Reads mem n x.0
    → Reads mem n y.0
    → Reads mem n (if b then x else y).0
either_Reads mem n true x y h k = h
either_Reads mem n false x y h k = k

either-Inside :
    (mem : ℕ → Point) (b : Bool) (f g : ℕ → Point)
    → Inside mem f
    → Inside mem g
    → Inside mem (if b then f else g)
either-Inside mem true f g h k = h
either-Inside mem false f g h k = k

one_point-IsBounded :
    (b : Bool) (f : Point → Point) (d : TouchData) → IsBounded d.pts 5 (one_point b f d)
unfolding one_point
one_point-IsBounded true f d = record { inside = first_point-Inside f d; count = omega arith }
one_point-IsBounded false f d = record { inside = λ i b. refl; count = omega arith }

points-IsBounded :
    (n : ℕ) (point : ℕ → Point) (out : TouchData)
    → IsBounded out.pts 5
        (record { pts = write_points (at_most_5 n) point out.pts; count = at_most_5 n })
points-IsBounded n point out = record {
  inside = write_points-Inside (at_most_5 n) point out.pts (at_most n);
  count = at_most n;
}

module _ (reply : List Op → Option (List ℕ)) (stale : List ℕ) (addr : ℕ) (out : TouchData)
    (tr : List Op) where
  gt911_Reads : Reads out.pts 5 (read_gt911 reply stale addr out tr).0
  unfolding read_gt911
  gt911_Reads = elim (Option-cases (i2c_read_reg16 reply addr 0x814E 1 tr).0) [
    | inl e ↦ rw (read_gt911, e) tt
    | inr (bs, e) ↦
        let unread : IsBounded out.pts 5 (record out { count = 0 }) = record {
          inside = λ i b. refl;
          count = omega arith;
        } in
        rw (read_gt911, e)
          (either_Reads out.pts 5 (ltb (get_or bs 0 0) 0x80) _ _ unread (
            either_Reads out.pts 5 (at_most_5 (get_or bs 0 0 % 16) == 0) _ _ unread
              (points-IsBounded (get_or bs 0 0 % 16) _ out)))
  ]

  ft5x36_Reads : Reads out.pts 5 (read_ft5x36 reply stale addr out tr).0
  unfolding read_ft5x36
  ft5x36_Reads = elim (Option-cases (i2c_read_reg8 reply addr 0x02 31 tr).0) [
    | inl e ↦ rw (read_ft5x36, e) tt
    | inr (bs, e) ↦ rw (read_ft5x36, e) (points-IsBounded (get_or bs 0 0 % 16) _ out)
  ]

  tt21100_Reads : Reads out.pts 5 (read_tt21100 reply stale addr out tr).0
  unfolding read_tt21100
  tt21100_Reads = elim (Option-cases (i2c_read_reg8 reply addr 0x00 37 tr).0) [
    | inl e ↦ rw (read_tt21100, e) tt
    | inr (bs, e) ↦ rw (read_tt21100, e) (points-IsBounded (get_or bs 0 0 % 32) _ out)
  ]

  cst816s_Reads : Reads out.pts 15 (read_cst816s reply stale addr out tr).0
  unfolding read_cst816s
  cst816s_Reads = elim (Option-cases (i2c_read_reg8 reply addr 0x01 6 tr).0) [
    | inl e ↦ rw (read_cst816s, e) tt
    | inr (bs, e) ↦
        rw (read_cst816s, e)
          (record {
            inside =
                either-Inside out.pts (ltb 0 (get_or bs 1 0 % 16)) _ out.pts
                  (first_point-Inside (cst816s_point bs) out) (λ i b. refl);
            count = omega arith;
          })
  ]

  ns2009_Reads : Reads out.pts 5 (read_ns2009 reply stale addr out tr).0
  unfolding read_ns2009
  ns2009_Reads = one_point-IsBounded _ _ out

  stmpe811_Reads : Reads out.pts 5 (read_stmpe811 reply stale addr out tr).0
  unfolding read_stmpe811
  stmpe811_Reads = one_point-IsBounded _ _ out

-- The most points that a controller reports
abbrev pub most_points : TouchDriver → ℕ
most_points TouchDriver.cst816s = 15
most_points d = 5

-- Whatever the bytes on the bus are, and whichever read fails, the read function of a controller that
-- does not fail leaves the memory behind the array of five points as it was, and gives a count of at
-- most 5, or of at most 15 for the CST816S.
pub read_touch_bounds :
    (reply : List Op → Option (List ℕ)) (stale : List ℕ) (d : TouchDriver) (addr : ℕ)
    (out : TouchData) (tr : List Op)
    → Reads out.pts (most_points d) (read_touch reply stale d addr out tr).0
unfolding read_touch
read_touch_bounds reply stale TouchDriver.gt911 addr out tr = gt911_Reads reply stale addr out tr
read_touch_bounds reply stale TouchDriver.ft5x36 addr out tr = ft5x36_Reads reply stale addr out tr
read_touch_bounds reply stale TouchDriver.cst816s addr out tr =
    cst816s_Reads reply stale addr out tr
read_touch_bounds reply stale TouchDriver.ns2009 addr out tr = ns2009_Reads reply stale addr out tr
read_touch_bounds reply stale TouchDriver.stmpe811 addr out tr =
    stmpe811_Reads reply stale addr out tr
read_touch_bounds reply stale TouchDriver.tt21100 addr out tr =
    tt21100_Reads reply stale addr out tr
