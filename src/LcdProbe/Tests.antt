-- ===== src/LcdProbe/Tests.antt =====
-- The theorems on drivers/autodetect/lcd_probe.c with a bus on which no panel answers.
use nanos_os.Common.{ℕ, ◌≡◌, refl, none, List, [], ◌∷◌, ◌++◌, some}
use nanos_os.Kernel.{ok}
use nanos_os.DevTree.{devtree_init}
use nanos_os.DevTree.Registry.{devtree_init-IsValid, devtree_init-room}
use nanos_os.LcdProbe.{Op, Pins, Panel, Lcd, init_panel, devtree_probe_lcd}
use nanos_os.LcdProbe.Sequences.{init_gc9a01}
use nanos_os.LcdProbe.View.{IsIdle, level, received, sent, init_panel-received}
use nanos_os.LcdProbe.Match.{Detected, devtree_probe_lcd-Detected}

abbrev gc9a01 : Panel
gc9a01 = record {
  name = [];
  cmd_id = 0x04;
  dummy_bits = 8;
  id_bytes = 3;
  id = 0x00 ∷ 0x90 ∷ 0xA0 ∷ [];
  id_mask = 0x00 ∷ 0xFF ∷ 0xF0 ∷ [];
  width = 240;
  height = 240;
  color_bits = 16;
  max_spi_hz = 80000000;
  init_fn = init_gc9a01;
}

abbrev pins : Pins
pins = record { cs = 10; dc = 13; rst = 14 }

init_panel-received_example :
    let (r, tr') = init_panel gc9a01 pins [] in
    (r ≡ ok)
    × IsIdle pins tr'
    × (received pins tr' ≡ received pins [] ++ sent (init_gc9a01 240 240))
unfolding level
init_panel-received_example =
    init_panel-received gc9a01 pins [] refl refl refl refl
      (record { cs_high = refl; dc_high = refl })

abbrev silent : List Op → ℕ
silent tr = 0xFF

abbrev start : Lcd
start = record { trace = []; tree = devtree_init; ctx = none }

devtree_probe_lcd-Detected_example : Detected silent start (devtree_probe_lcd silent start)
devtree_probe_lcd-Detected_example =
    devtree_probe_lcd-Detected silent start devtree_init-IsValid devtree_init-room

-- A bus that reads 0xFF everywhere is taken for a ST7701S.
silent_ctx : (devtree_probe_lcd silent start).ctx ≡ some (9, pins)
unfolding devtree_probe_lcd
silent_ctx = refl
