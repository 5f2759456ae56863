-- ===== src/LcdProbe.antt =====
-- drivers/autodetect/lcd_probe.c: which panel is connected, and how it is set up.
-- The hardware is seen through a trace, the latest operation first. What a panel answers is not in
-- the code: the parameter `reply` gives the byte that the bus reads in the transfer that ends a
-- trace. The log lines are not modelled.
pub mod Sequences
pub mod View
pub mod Match
mod Tests
use Prim.Native.Nat.{bit_and}
use nanos_os.Common.{
  ℕ, zero, suc, ◌+◌, ◌*◌, ◌/◌, ◌%◌, Bool, true, false, Option, none, some, List, [], ◌∷◌, ◌==◌,
  ◌&&◌, not, take, drop, get_elem?, get_or, if◌then◌else◌,
}
use nanos_os.Kernel.{Err, ok}
use nanos_os.DevTree.{
  fill_node, Node, DeviceTree, Caps, lcd_caps, bus_spi, dev_lcd, devtree_register, node_update,
}
use nanos_os.LcdProbe.Sequences.{
  Step, cmd, dat, sleep_ms, reg, init_ili9341, init_ili9488, init_st7789, init_st7735, init_gc9a01,
  init_nt35510, init_hx8357d, init_ssd1351, init_ra8875, init_st7701s,
}

-- A write to a GPIO clear or set register, one byte on the bus, a pause, and `spi_init_probe`.
pub data Op : Type 0 where
  low high xfer delay : ℕ → Op
  config : Op

pub record Pins : Type 0 where
  pub cs : ℕ
  pub dc : ℕ
  pub rst : ℕ

-- `panel_entry_t`
pub record Panel : Type 0 where
  pub name : List ℕ
  pub cmd_id : ℕ
  pub dummy_bits : ℕ
  pub id_bytes : ℕ
  pub id : List ℕ
  pub id_mask : List ℕ
  pub width : ℕ
  pub height : ℕ
  pub color_bits : ℕ
  pub max_spi_hz : ℕ
  pub init_fn : ℕ → ℕ → List Step

abbrev pub s_panels : List Panel
s_panels =
    record {
      name = 0x49 ∷ 0x4C ∷ 0x49 ∷ 0x39 ∷ 0x33 ∷ 0x34 ∷ 0x31 ∷ [];
      cmd_id = 0x04;
      dummy_bits = 8;
      id_bytes = 3;
      id = 0x00 ∷ 0x93 ∷ 0x41 ∷ [];
      id_mask = 0x00 ∷ 0xFF ∷ 0xFF ∷ [];
      width = 240;
      height = 320;
      color_bits = 16;
      max_spi_hz = 40000000;
      init_fn = init_ili9341;
    }
    ∷ record {
      name = 0x49 ∷ 0x4C ∷ 0x49 ∷ 0x39 ∷ 0x34 ∷ 0x38 ∷ 0x38 ∷ [];
      cmd_id = 0x04;
      dummy_bits = 8;
      id_bytes = 3;
      id = 0x00 ∷ 0x94 ∷ 0x88 ∷ [];
      id_mask = 0x00 ∷ 0xFF ∷ 0xFF ∷ [];
      width = 320;
      height = 480;
      color_bits = 18;
      max_spi_hz = 20000000;
      init_fn = init_ili9488;
    }
    ∷ record {
      name = 0x53 ∷ 0x54 ∷ 0x37 ∷ 0x37 ∷ 0x38 ∷ 0x39 ∷ [];
      cmd_id = 0x04;
      dummy_bits = 8;
      id_bytes = 3;
      id = 0x00 ∷ 0x85 ∷ 0x52 ∷ [];
      id_mask = 0x00 ∷ 0xFF ∷ 0xFF ∷ [];
      width = 240;
      height = 320;
      color_bits = 16;
      max_spi_hz = 80000000;
      init_fn = init_st7789;
    }
    ∷ record {
      name = 0x53 ∷ 0x54 ∷ 0x37 ∷ 0x37 ∷ 0x33 ∷ 0x35 ∷ [];
      cmd_id = 0x04;
      dummy_bits = 8;
      id_bytes = 3;
      id = 0x5C ∷ 0x89 ∷ 0xF0 ∷ [];
      id_mask = 0xFF ∷ 0xFF ∷ 0x00 ∷ [];
      width = 128;
      height = 160;
      color_bits = 16;
      max_spi_hz = 15000000;
      init_fn = init_st7735;
    }
    ∷ record {
      name = 0x47 ∷ 0x43 ∷ 0x39 ∷ 0x41 ∷ 0x30 ∷ 0x31 ∷ [];
      cmd_id = 0x04;
      dummy_bits = 8;
      id_bytes = 3;
      id = 0x00 ∷ 0x90 ∷ 0xA0 ∷ [];
      id_mask = 0x00 ∷ 0xFF ∷ 0xF0 ∷ [];
      width = 240;
      height = 240;
      color_bits = 16;
      max_spi_hz = 80000000;
      init_fn = init_gc9a01;
    }
    ∷ record {
      name = 0x4E ∷ 0x54 ∷ 0x33 ∷ 0x35 ∷ 0x35 ∷ 0x31 ∷ 0x30 ∷ [];
      cmd_id = 0x04;
      dummy_bits = 8;
      id_bytes = 3;
      id = 0x55 ∷ 0x35 ∷ 0x10 ∷ [];
      id_mask = 0xFF ∷ 0xFF ∷ 0xFF ∷ [];
      width = 480;
      height = 800;
      color_bits = 24;
      max_spi_hz = 20000000;
      init_fn = init_nt35510;
    }
    ∷ record {
      name = 0x48 ∷ 0x58 ∷ 0x38 ∷ 0x33 ∷ 0x35 ∷ 0x37 ∷ 0x44 ∷ [];
      cmd_id = 0xD0;
      dummy_bits = 0;
      id_bytes = 3;
      id = 0x99 ∷ 0x83 ∷ 0x57 ∷ [];
      id_mask = 0xFF ∷ 0xFF ∷ 0xFF ∷ [];
      width = 320;
      height = 480;
      color_bits = 16;
      max_spi_hz = 20000000;
      init_fn = init_hx8357d;
    }
    ∷ record {
      name = 0x53 ∷ 0x53 ∷ 0x44 ∷ 0x31 ∷ 0x33 ∷ 0x35 ∷ 0x31 ∷ [];
      cmd_id = 0xFA;
      dummy_bits = 0;
      id_bytes = 2;
      id = 0x51 ∷ 0x51 ∷ [];
      id_mask = 0xFF ∷ 0x00 ∷ [];
      width = 128;
      height = 128;
      color_bits = 16;
      max_spi_hz = 20000000;
      init_fn = init_ssd1351;
    }
    ∷ record {
      name = 0x52 ∷ 0x41 ∷ 0x38 ∷ 0x38 ∷ 0x37 ∷ 0x35 ∷ [];
      cmd_id = 0x00;
      dummy_bits = 0;
      id_bytes = 1;
      id = 0x75 ∷ [];
      id_mask = 0xFF ∷ [];
      width = 800;
      height = 480;
      color_bits = 16;
      max_spi_hz = 10000000;
      init_fn = init_ra8875;
    }
    ∷ record {
      name = 0x53 ∷ 0x54 ∷ 0x37 ∷ 0x37 ∷ 0x30 ∷ 0x31 ∷ 0x53 ∷ [];
      cmd_id = 0xFF;
      dummy_bits = 0;
      id_bytes = 0;
      id = 0 ∷ [];
      id_mask = 0 ∷ [];
      width = 480;
      height = 800;
      color_bits = 16;
      max_spi_hz = 40000000;
      init_fn = init_st7701s;
    }
    ∷ []

-- `spi_cs(pin, true)`, a transfer and `spi_cs(pin, false)`.
pub spi_framed : ℕ → ℕ → List Op → List Op
spi_framed cs b tr = high cs ∷ xfer b ∷ low cs ∷ tr

-- Also `LCMD`.
pub spi_cmd : Pins → ℕ → List Op → List Op
unfolding spi_framed
spi_cmd p c tr = high p.dc ∷ spi_framed p.cs c (low p.dc ∷ tr)

pub panel_reset : ℕ → List Op → List Op
panel_reset rst tr = delay 120 ∷ high rst ∷ delay 15 ∷ low rst ∷ tr

pub run_step : Pins → Step → List Op → List Op
unfolding spi_cmd spi_framed
run_step p (cmd c) tr = spi_cmd p c tr
run_step p (dat d) tr = spi_framed p.cs d tr
run_step p (sleep_ms t) tr = delay t ∷ tr
run_step p (reg r v) tr =
    high p.cs ∷ xfer v ∷ xfer 0x00 ∷ low p.cs ∷ high p.cs ∷ xfer r ∷ xfer 0x80 ∷ low p.cs ∷ tr

pub run_steps : Pins → List Step → List Op → List Op
unfolding run_step
run_steps p [] tr = tr
run_steps p (s ∷ ss) tr = run_steps p ss (run_step p s tr)

-- The `init_fn` of a panel: its result and the trace.
pub init_panel : Panel → Pins → List Op → Err × List Op
unfolding panel_reset run_steps
init_panel l p tr = (ok, run_steps p (l.init_fn l.width l.height) (panel_reset p.rst tr))

-- Whether the bytes read are those of the table, where its mask has a bit.
pub id_match : List ℕ → List ℕ → List ℕ → Bool
id_match [] id mask = true
id_match (b ∷ bs) id mask =
    (bit_and b (get_or mask 0 0) == bit_and (get_or id 0 0) (get_or mask 0 0))
    && id_match bs (drop 1 id) (drop 1 mask)

abbrev pub or_last : Option ℕ → ℕ
or_last none = 9
or_last (some i) = i

-- `s_lcd_ctx`, once it is set, is the index of a panel and the pins.
pub record Lcd : Type 0 where
  pub trace : List Op
  pub tree : DeviceTree
  pub ctx : Option (ℕ × Pins)

-- The driver number of `s_lcd_driver`.
abbrev pub lcd_driver : ℕ
lcd_driver = 1

abbrev pub set_caps : Panel → Node → Node
set_caps l n = record n {
  chip_id = get_or l.id 0 0 * 0x1_0000 + get_or l.id 1 0 * 0x100 + get_or l.id 2 0;
  caps = lcd_caps l.width l.height l.color_bits l.max_spi_hz true;
}

-- What follows a successful `init_fn`.
pub register_panel : ℕ → Panel → Pins → Lcd → Lcd
register_panel i l p s =
    let d =
      fill_node (set_caps l) (devtree_register l.name dev_lcd bus_spi 2 p.cs lcd_driver s.tree) in
    record s { tree = record d { spi_devices_found = d.spi_devices_found + 1 } }

abbrev pub is_ok : Err → Bool
is_ok ok = true
is_ok _ = false

module _ (reply : List Op → ℕ) where
  -- `n` bytes read.
  pub read_bytes : ℕ → List Op → List ℕ × List Op
  read_bytes zero tr = ([], tr)
  read_bytes (suc n) tr =
      let tr1 = xfer 0x00 ∷ tr in let (bs, tr2) = read_bytes n tr1 in (reply tr1 % 0x100 ∷ bs, tr2)

  -- The bytes of a panel's ID, as read on the pins `p`.
  pub read_id : Panel → Pins → List Op → List ℕ × List Op
  unfolding spi_cmd read_bytes
  read_id l p tr =
      let (dummy, tr1) = read_bytes (l.dummy_bits / 8) (low p.cs ∷ spi_cmd p l.cmd_id tr) in
      let (bs, tr2) = read_bytes l.id_bytes tr1 in (bs, high p.cs ∷ tr2)

  -- The loop of `probe_panel`, at index `i` of the table.
  pub scan : Pins → ℕ → List Panel → List Op → Option ℕ × List Op
  unfolding read_id id_match
  scan p i [] tr = (none, tr)
  scan p i (l ∷ ls) tr =
      let (bs, tr1) = read_id l p tr in
      let skip = scan p (i + 1) ls tr in
      let rest = scan p (i + 1) ls tr1 in
      if l.cmd_id == 0xFF
      then skip
      else (if id_match bs l.id l.id_mask then (some i, tr1) else rest)

  pub probe_panel : Pins → List Op → ℕ × List Op
  unfolding scan panel_reset
  probe_panel p tr =
      let (r, tr1) = scan p 0 (take 9 s_panels) (config ∷ panel_reset p.rst tr) in (or_last r, tr1)

  -- The loop of `devtree_probe_lcd` over the pins. Its test `panel_idx >= 0` always holds.
  pub try_pins : List Pins → Lcd → Lcd
  unfolding probe_panel register_panel init_panel
  try_pins [] s = s
  try_pins (p ∷ ps) s =
      let (i, tr1) = probe_panel p s.trace in
      elim (get_elem? s_panels i) [
        | none ↦ s
        | some l ↦
            let (r, tr2) = init_panel l p tr1 in
            let s1 : Lcd = record s { trace = tr2; ctx = some (i, p) } in
            let rest = try_pins ps s1 in if is_ok r then register_panel i l p s1 else rest
      ]

  pub devtree_probe_lcd : Lcd → Lcd
  unfolding try_pins
  devtree_probe_lcd s =
      try_pins
        (record { cs = 10; dc = 13; rst = 14 }
          ∷ record { cs = 5; dc = 2; rst = 4 }
          ∷ record { cs = 15; dc = 16; rst = 17 }
          ∷ record { cs = 34; dc = 33; rst = 32 }
          ∷ [])
        s
