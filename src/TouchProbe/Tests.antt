-- ===== src/TouchProbe/Tests.antt =====
-- The touch probe of drivers/autodetect/touch_probe.c on two buses, and a case for the result.
use mathlib.Core.Option
use nanos_os.Common.{ℕ, ◌≡◌, refl, none, some, List, [], ◌∷◌, Option}
use nanos_os.Common.Int.{pos, int16}
use nanos_os.I2c.{Op, i2c_read_reg8}
use nanos_os.TouchProbe.{find_touch_ic}
use nanos_os.TouchProbe.Readers.{
  Point, TouchData, TouchDriver, no_data, read_touch, read_ft5x36, ft5x36_point, write_points,
  at_most_5,
}
use nanos_os.TouchProbe.Readers.Bounds.{Reads, read_touch_bounds}

abbrev silent : List Op → Option (List ℕ)
silent tr = none

-- A silent bus has an NS2009.
silent_bus : (find_touch_ic silent []).0 ≡ some (8, 0x48)
unfolding find_touch_ic
silent_bus = refl

-- One finger, at (0x123, 0x0A0)
abbrev finger : List Op → Option (List ℕ)
finger tr = some (1 ∷ 0x81 ∷ 0x23 ∷ 0x00 ∷ 0xA0 ∷ 0x30 ∷ [])

read_touch_bounds_example :
    Reads no_data.pts 5 (read_touch finger [] TouchDriver.ft5x36 0x38 no_data []).0
read_touch_bounds_example = read_touch_bounds finger [] TouchDriver.ft5x36 0x38 no_data []

-- The count and the first point of a read that did not fail
first_of : Option TouchData → Option (ℕ × Point)
first_of = Option.map (λ d. (d.count, d.pts 0))

one_finger :
    first_of (read_touch finger [] TouchDriver.ft5x36 0x38 no_data []).0
    ≡ some (1, record { x = pos 0x123; y = pos 0xA0; pressure = 0x30; event = 2 })
unfolding first_of read_touch read_ft5x36 ft5x36_point write_points at_most_5 int16 i2c_read_reg8
one_finger = refl
