-- ===== src/TouchProbe/Readers.antt =====
-- drivers/autodetect/touch_probe.c: the functions that read the points of each touch controller.
-- `stale` gives what a buffer on the stack holds before a read, which it still holds when the read fails.
-- The write of a register of 16 bits is an `Op.write` with its number.
pub mod Bounds
use Prim.Native.Nat.{bit_and}
use nanos_os.Common.{
  ℕ, ◌+◌, ◌-◌, ◌*◌, ◌/◌, ◌%◌, Bool, true, false, Option, none, some, List, [], ◌∷◌, ◌==◌, ltb,
  get_or, if◌then◌else◌, each,
}
use nanos_os.Common.Maps.{update}
use nanos_os.Common.Int.{ℤ, pos, int16}
use nanos_os.I2c.{Op, bytes, i2c_read_reg8, i2c_read_reg16}

-- `touch_point_t`
pub record Point : Type 0 where
  pub x : ℤ
  pub y : ℤ
  pub pressure : ℕ
  pub event : ℕ

-- `ioctl_touch_data_t`: `pts i` is the point `i` places from the start of the array. The array has 5
-- places; those behind it are memory that is not its own.
pub record TouchData : Type 0 where
  pub pts : ℕ → Point
  pub count : ℕ

abbrev pub no_point : Point
no_point = record { x = pos 0; y = pos 0; pressure = 0; event = 0 }

abbrev pub no_data : TouchData
no_data = record { pts = λ i. no_point; count = 0 }

-- The pairs of functions `init_` and `read_` of the controllers
pub data TouchDriver : Type 0 where
  gt911 ft5x36 cst816s ns2009 stmpe811 tt21100 : TouchDriver

-- The functions and `max_points` of the first two entries of `s_touch_ics`. The later entries have two braced
-- zeros too many, so that the numbers after them go to `init_fn` and `read_fn`, which are then no functions.
abbrev pub touch_fns : List (TouchDriver × ℕ)
touch_fns = (gt911, 5) ∷ (gt911, 10) ∷ []

-- `(int16_t)((hi<<8)|lo)` of two bytes, and with the upper four bits of the first left out
abbrev pub coord16 : ℕ → ℕ → ℤ
coord16 hi lo = int16 (pos (hi * 256 + lo))

abbrev pub coord12 : ℕ → ℕ → ℤ
coord12 hi lo = int16 (pos (hi % 16 * 256 + lo))

-- The loop that writes the first `n` points
unfoldable pub write_points : ℕ → (ℕ → Point) → (ℕ → Point) → ℕ → Point
write_points n point = each n (λ i pts. update pts i (point i))

unfoldable pub at_most_5 : ℕ → ℕ
at_most_5 n = if ltb 5 n then 5 else n

unfoldable pub gt911_point : List ℕ → ℕ → Point
gt911_point buf i = record {
  x = coord16 (get_or buf (i * 8 + 3) 0) (get_or buf (i * 8 + 2) 0);
  y = coord16 (get_or buf (i * 8 + 5) 0) (get_or buf (i * 8 + 4) 0);
  pressure = get_or buf (i * 8 + 6) 0;
  event = 0;
}

unfoldable pub ft5x36_point : List ℕ → ℕ → Point
ft5x36_point buf i = record {
  x = coord12 (get_or buf (1 + i * 6) 0) (get_or buf (1 + i * 6 + 1) 0);
  y = coord12 (get_or buf (1 + i * 6 + 2) 0) (get_or buf (1 + i * 6 + 3) 0);
  event = get_or buf (1 + i * 6) 0 / 64 % 4;
  pressure = get_or buf (1 + i * 6 + 4) 0;
}

unfoldable pub tt21100_point : List ℕ → ℕ → Point
tt21100_point buf i = record {
  x = coord16 (get_or buf (2 + i * 7 + 1) 0) (get_or buf (2 + i * 7) 0);
  y = coord16 (get_or buf (2 + i * 7 + 3) 0) (get_or buf (2 + i * 7 + 2) 0);
  event = get_or buf (2 + i * 7) 0 / 32 % 4;
  pressure = get_or buf (2 + i * 7 + 4) 0;
}

abbrev pub cst816s_point : List ℕ → Point → Point
cst816s_point buf p = record p {
  x = coord12 (get_or buf 3 0) (get_or buf 4 0);
  y = coord12 (get_or buf 5 0) (get_or buf 5 0);
  event = get_or buf 3 0 / 64 % 4;
}

-- The first point, of a controller that has one
abbrev pub first_point : (Point → Point) → TouchData → ℕ → Point
first_point f d = update d.pts 0 (f (d.pts 0))

-- One point, when it is touched, and none otherwise
unfoldable pub one_point : Bool → (Point → Point) → TouchData → TouchData
one_point touched f d =
    if touched then record { pts = first_point f d; count = 1 } else record d { count = 0 }

-- What a buffer holds after a read
abbrev pub held : List ℕ → Option (List ℕ) → List ℕ
held old none = old
held old (some bs) = bs

module _ (reply : List Op → Option (List ℕ)) (stale : List ℕ) where
  -- What a fresh buffer of `n` bytes holds after a read
  abbrev pub buffer : ℕ → Option (List ℕ) → List ℕ
  buffer n = held (bytes n stale)

  -- `read_gt911`; none is K_ERR_AGAIN.
  unfoldable pub read_gt911 : ℕ → TouchData → List Op → Option TouchData × List Op
  read_gt911 addr out tr =
      let (st, tr) = i2c_read_reg16 reply addr 0x814E 1 tr in
      elim st [
        | none ↦ (none, tr)
        | some bs ↦
            let status = get_or bs 0 0 in
            let n = at_most_5 (status % 16) in
            let (read, tr1) = i2c_read_reg16 reply addr 0x814F (n * 8) tr in
            let pts = write_points n (gt911_point (buffer (n * 8) read)) out.pts in
            if ltb status 0x80
            then (some (record out { count = 0 }), tr)
            else if n == 0
            then (some (record out { count = 0 }), Op.write addr 0x814E 0 ∷ tr)
            else (some (record { pts = pts; count = n }), Op.write addr 0x814E 0 ∷ tr1)
      ]

  -- `read_ft5x36`
  unfoldable pub read_ft5x36 : ℕ → TouchData → List Op → Option TouchData × List Op
  read_ft5x36 addr out tr =
      let (read, tr) = i2c_read_reg8 reply addr 0x02 31 tr in
      elim read [
        | none ↦ (none, tr)
        | some buf ↦
            let n = at_most_5 (get_or buf 0 0 % 16) in
            (some (record { pts = write_points n (ft5x36_point buf) out.pts; count = n }), tr)
      ]

  -- `read_cst816s`
  unfoldable pub read_cst816s : ℕ → TouchData → List Op → Option TouchData × List Op
  read_cst816s addr out tr =
      let (read, tr) = i2c_read_reg8 reply addr 0x01 6 tr in
      elim read [
        | none ↦ (none, tr)
        | some buf ↦
            let n = get_or buf 1 0 % 16 in
            let pts = first_point (cst816s_point buf) out in
            (some (record { pts = if ltb 0 n then pts else out.pts; count = n }), tr)
      ]

  -- `read_ns2009`: 12 bits of each axis
  unfoldable pub read_ns2009 : ℕ → TouchData → List Op → Option TouchData × List Op
  read_ns2009 addr out tr =
      let (rx, tr) = i2c_read_reg8 reply addr 0xC0 2 tr in
      let bx = buffer 2 rx in
      let (ry, tr) = i2c_read_reg8 reply addr 0xD0 2 tr in
      let by = held bx ry in
      let (rz, tr) = i2c_read_reg8 reply addr 0xE0 2 tr in
      let bz = held by rz in
      let x = get_or bx 0 0 * 16 + get_or bx 1 0 / 16 in
      let y = get_or by 0 0 * 16 + get_or by 1 0 / 16 in
      let z = get_or bz 0 0 in
      let point = λ (p : Point). record p {
        x = pos (x * 480 / 4096);
        y = pos (y * 800 / 4096);
        pressure = z;
      } in
      (some (one_point (ltb 16 z) point out), tr)

  -- `read_stmpe811`; the status is 0 when it cannot be read.
  unfoldable pub read_stmpe811 : ℕ → TouchData → List Op → Option TouchData × List Op
  read_stmpe811 addr out tr =
      let (st, tr) = i2c_read_reg8 reply addr 0x15 1 tr in
      let status = get_or (held (0 ∷ []) st) 0 0 in
      let (read, tr1) = i2c_read_reg8 reply addr 0xD7 4 tr in
      let buf = buffer 4 read in
      let point = λ (p : Point). record p {
        x = coord12 (get_or buf 0 0) (get_or buf 1 0);
        y = coord12 (get_or buf 2 0) (get_or buf 3 0);
        event = 0;
      } in
      let touched = status % 2 == 1 in
      (some (one_point touched point out), if touched then tr1 else tr)

  -- `read_tt21100`
  unfoldable pub read_tt21100 : ℕ → TouchData → List Op → Option TouchData × List Op
  read_tt21100 addr out tr =
      let (read, tr) = i2c_read_reg8 reply addr 0x00 37 tr in
      elim read [
        | none ↦ (none, tr)
        | some buf ↦
            let n = at_most_5 (get_or buf 0 0 % 32) in
            (some (record { pts = write_points n (tt21100_point buf) out.pts; count = n }), tr)
      ]

  -- `read_fn`
  unfoldable pub read_touch : TouchDriver → ℕ → TouchData → List Op → Option TouchData × List Op
  read_touch gt911 = read_gt911
  read_touch ft5x36 = read_ft5x36
  read_touch cst816s = read_cst816s
  read_touch ns2009 = read_ns2009
  read_touch stmpe811 = read_stmpe811
  read_touch tt21100 = read_tt21100
