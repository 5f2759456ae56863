-- ===== src/Probe.antt =====
-- system/devtree/device_tree.c: the scan of the I2C bus, and the probe of all buses.
-- What answers on the buses is not in the code: `acks` says whether the controller reports the end of
-- the transaction with an address in the rounds that the scan waits, and no NACK; the replies are those of the
-- probes.
pub mod Tree
mod Tests
use nanos_os.Common.{
  ℕ, zero, suc, ◌+◌, ◌-◌, ◌%◌, Bool, true, false, Option, none, some, List, [], ◌∷◌, ◌++◌, length,
  if◌then◌else◌, each, ◌>>=◌,
}
use nanos_os.Kernel.{u32_mod}
use nanos_os.I2c.{Op}
use nanos_os.DevTree.{DeviceTree}
use nanos_os.LcdProbe.{Lcd, devtree_probe_lcd}
use nanos_os.LcdProbe
use nanos_os.AudioProbe.{Audio, devtree_probe_audio}
use nanos_os.TouchProbe.Setup.{Touch, devtree_probe_touch}
use nanos_os.SensorProbe.{devtree_probe_sensors}

-- The loop of `devtree_scan_i2c` over 0x08, ..., 0x77: `found_addrs`
unfoldable pub scan_addrs : (ℕ → Bool) → List ℕ
scan_addrs acks = each 112 (λ i found. if acks (8 + i) then found ++ (8 + i) ∷ [] else found) []

-- `devtree_scan_i2c`
unfoldable pub devtree_scan_i2c : (ℕ → Bool) → DeviceTree → ℕ × DeviceTree
devtree_scan_i2c acks d =
    let found = length (scan_addrs acks) in
    (found, record d { i2c_devices_found = (d.i2c_devices_found + found) % u32_mod })

-- The state of the probes: the device tree, the transactions on the I2C bus, and what each keeps
pub record System : Type 0 where
  pub tree : DeviceTree
  pub trace : List Op
  pub lcd : Lcd
  pub touch : Touch
  pub audio : Audio

-- `devtree_probe_all`, without the log: none when the touch probe calls what is no function.
unfoldable pub devtree_probe_all :
    (List LcdProbe.Op → ℕ) → (List Op → Option (List ℕ)) → (ℕ → Bool) → System → Option System
devtree_probe_all spi_reply reply acks s = do
  let scanned = (devtree_scan_i2c acks s.tree).1
  let l = devtree_probe_lcd spi_reply (record s.lcd { tree = scanned })
  t ← devtree_probe_touch reply (record s.touch { tree = l.tree; trace = s.trace })
  let a = devtree_probe_audio reply (record s.audio { tree = t.tree; trace = t.trace })
  let p = devtree_probe_sensors reply (a.trace, a.tree)
  some (record { tree = p.1; trace = p.0; lcd = l; touch = t; audio = a })
