-- ===== src/TouchProbe/Setup.antt =====
-- drivers/autodetect/touch_probe.c: the start of the touch controller that is found, its polling and its
-- driver.
pub mod Registered
use mathlib.Core.Option
use nanos_os.Common.{
  ℕ, zero, suc, ◌+◌, Bool, true, false, Option, none, some, List, [], ◌∷◌, ◌==◌, ltb, get_or,
  get_elem?, if◌then◌else◌,
}
use nanos_os.Common.Int.{ℤ}
use nanos_os.I2c.{Op, i2c_read_reg8, i2c_read_reg16}
use nanos_os.DevTree.{
  Node, DeviceTree, Caps, BusType, touch_caps, dev_touch, devtree_register, fill_node,
}
use nanos_os.TouchProbe.{TouchIc, s_touch_ics, find_touch_ic}
use nanos_os.TouchProbe.Readers.{
  Point, TouchData, TouchDriver, no_point, no_data, touch_fns, read_touch,
}

-- `s_touch`: the index of the entry of the table with its functions, the address and the last points. The
-- calls of `gui_inject_touch` and of `aap_send_touch` have the same arguments: they are listed, the
-- latest first.
pub record Touch : Type 0 where
  pub trace : List Op
  pub tree : DeviceTree
  pub ic : Option (ℕ × TouchDriver)
  pub addr : ℕ
  pub last : TouchData
  pub polling : Bool
  pub forwarded : List (ℤ × ℤ × ℕ)

-- The driver number of `s_touch_driver`, which no other driver has
abbrev pub touch_driver : ℕ
touch_driver = 3

abbrev pub set_touch_caps : ℕ → Node → Node
set_touch_caps max_points n = record n { caps = touch_caps max_points 480 800 }

abbrev pub entry_name : Option TouchIc → List ℕ
entry_name none = []
entry_name (some t) = t.name

module _ (reply : List Op → Option (List ℕ)) where
  -- The traces after the functions `init_`, which all give K_OK
  unfoldable pub init_gt911 : ℕ → List Op → List Op
  init_gt911 addr tr = Op.write addr 0x814E 0 ∷ (i2c_read_reg16 reply addr 0x8140 4 tr).1

  unfoldable pub init_ft5x36 : ℕ → List Op → List Op
  init_ft5x36 addr tr = (i2c_read_reg8 reply addr 0x00 1 (i2c_read_reg8 reply addr 0xA3 1 tr).1).1

  unfoldable pub init_cst816s : ℕ → List Op → List Op
  init_cst816s addr tr = (i2c_read_reg8 reply addr 0xA7 1 tr).1

  unfoldable pub init_stmpe811 : ℕ → List Op → List Op
  init_stmpe811 addr tr = (i2c_read_reg8 reply addr 0x03 0 tr).1

  unfoldable pub init_tt21100 : ℕ → List Op → List Op
  init_tt21100 addr tr = (i2c_read_reg8 reply addr 0x01 2 tr).1

  -- `init_fn`
  unfoldable pub init_touch : TouchDriver → ℕ → List Op → List Op
  init_touch TouchDriver.gt911 = init_gt911
  init_touch TouchDriver.ft5x36 = init_ft5x36
  init_touch TouchDriver.cst816s = init_cst816s
  init_touch TouchDriver.ns2009 = λ addr tr. tr
  init_touch TouchDriver.stmpe811 = init_stmpe811
  init_touch TouchDriver.tt21100 = init_tt21100

  -- What follows the search in `devtree_probe_touch`, with the reset of the controller
  unfoldable pub start_touch : ℕ → ℕ → TouchDriver × ℕ → List Op → Touch → Touch
  start_touch i addr (driver, max_points) tr s =
      let name = entry_name (get_elem? s_touch_ics i) in
      record s {
        trace = init_touch driver addr (Op.delay 50 ∷ Op.delay 10 ∷ tr);
        ic = some (i, driver);
        addr = addr;
        tree =
            fill_node (set_touch_caps max_points)
              (devtree_register name dev_touch BusType.bus_i2c 0 addr touch_driver s.tree);
        polling = true;
      }

  -- `devtree_probe_touch`: none when it calls an `init_fn` that is no function.
  unfoldable pub devtree_probe_touch : Touch → Option Touch
  devtree_probe_touch s =
      let (found, tr) = find_touch_ic reply s.trace in
      elim found [
        | none ↦ some (record s { trace = tr })
        | some r ↦ Option.map (λ f. start_touch r.0 r.1 f tr s) (get_elem? touch_fns r.0)
      ]

  -- What a read in `touch_poll_task` leads to
  unfoldable pub take_touch : Option TouchData → Touch → Touch
  take_touch none s = s
  take_touch (some d) s =
      let p = d.pts 0 in
      if ltb 0 d.count
      then record s { last = d; forwarded = (p.x, p.y, p.event) ∷ s.forwarded }
      else s

  -- One turn of `touch_poll_task`
  unfoldable pub touch_poll : List ℕ → Touch → Touch
  touch_poll stale s = elim s.ic [
    | none ↦ s
    | some r ↦
        let (read, tr) = read_touch reply stale r.1 s.addr no_data (Op.delay 16 ∷ s.trace) in
        take_touch read (record s { trace = tr })
  ]

-- What `touch_drv_ioctl` stores through its argument
pub data Answer : Type 0 where
  touch_data : TouchData → Answer
  caps_of : Option Caps → Answer

abbrev pub ioctl_touch_read : ℕ
ioctl_touch_read = 0x2001

abbrev pub ioctl_touch_get_caps : ℕ
ioctl_touch_get_caps = 0x2003

-- The capabilities of the primary device, if there is one
abbrev pub node_caps : Option ℕ → List Node → Option Caps
node_caps none ns = none
node_caps (some i) ns = elim (get_elem? ns i) [ none ↦ none | some n ↦ some n.caps ]

-- `touch_drv_ioctl`, with an argument that is not NULL: none is K_ERR_INVAL.
unfoldable pub touch_drv_ioctl : ℕ → Touch → Option Answer
touch_drv_ioctl cmd s =
    if cmd == ioctl_touch_read
    then some (touch_data s.last)
    else if cmd == ioctl_touch_get_caps
    then some (caps_of (node_caps s.tree.primary_touch s.tree.nodes))
    else none
