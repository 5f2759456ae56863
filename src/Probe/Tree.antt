-- ===== src/Probe/Tree.antt =====
-- What the probe of all buses in system/devtree/device_tree.c registers.
use nanos_os.Common.{
  ℕ, zero, suc, ◌+◌, ◌≤◌, ◌<◌, ◌≡◌, ◌⊎◌, inl, inr, refl, ap, ◌∙◌, Bool, true, false, Option, none,
  some, List, [], ◌∷◌, ◌++◌, length, length-append, each, arith, if◌then◌else◌,
}
use nanos_os.I2c.{Op}
use nanos_os.LcdProbe
use nanos_os.LcdProbe.{Lcd, devtree_probe_lcd}
use nanos_os.LcdProbe.Match.{devtree_probe_lcd-Detected}
use nanos_os.DevTree.{DeviceTree, is_none, max_device_nodes}
use nanos_os.DevTree.Registry.{IsValid, stored-primary}
use nanos_os.DevTree.Update.{scanned-IsValid}
use nanos_os.AudioProbe.Primary.{devtree_probe_audio-Kept}
use nanos_os.AudioProbe.{devtree_probe_audio}
use nanos_os.TouchProbe.{find_touch_ic}
use nanos_os.TouchProbe.Setup.{Touch}
use nanos_os.TouchProbe.Setup.Registered.{Ready, Outcome, devtree_probe_touch-Outcome}
use nanos_os.SensorProbe.{devtree_probe_sensors}
use nanos_os.SensorProbe.Bus.{devtree_probe_sensors-Extends}
use nanos_os.Probe.{System, scan_addrs, devtree_scan_i2c, devtree_probe_all}

-- At most `n` addresses are found in `n` turns.
scan_loop :
    (acks : ℕ → Bool) (n : ℕ)
    → length
        (each n (λ i (found : List ℕ). if acks (8 + i) then found ++ (8 + i) ∷ [] else found) [])
      ≤ n
scan_loop acks zero = omega arith
scan_loop acks (suc n) = either (acks (8 + n)) _ (scan_loop acks n)
  where
    either :
        (b : Bool) (found : List ℕ)
        → length found ≤ n
        → length (if b then found ++ (8 + n) ∷ [] else found) ≤ suc n
    either true found h = omega (arith, length-append found ((8 + n) ∷ []))
    either false found h = omega arith

length-scan_addrs : (acks : ℕ → Bool) → length (scan_addrs acks) ≤ 112
unfolding scan_addrs
length-scan_addrs acks = scan_loop acks 112

scan-IsValid : (acks : ℕ → Bool) (d : DeviceTree) → IsValid d → IsValid (devtree_scan_i2c acks d).1
unfolding devtree_scan_i2c
scan-IsValid acks d v = scanned-IsValid d _ v

-- What the probe of all buses leaves: a valid registry with a primary display and a primary touch
-- controller, which is being polled.
pub record Probed (s : System) : Type 0 where
  pub valid : IsValid s.tree
  pub lcd : is_none s.tree.primary_lcd ≡ false
  pub touch : is_none s.tree.primary_touch ≡ false
  pub polling : s.touch.polling ≡ true

-- What the probe of the display leaves
lcd_kept :
    (spi_reply : List LcdProbe.Op → ℕ) (s : Lcd)
    → IsValid s.tree
    → length s.tree.nodes < max_device_nodes
    → let l = devtree_probe_lcd spi_reply s in
      IsValid l.tree
      × (is_none l.tree.primary_lcd ≡ false)
      × (length l.tree.nodes ≡ length s.tree.nodes + 1)
lcd_kept spi_reply s v room =
    let d = devtree_probe_lcd-Detected spi_reply s v room in
    (d.valid, stored-primary _ _ d.node d.valid d.stored d.category, d.more)

-- The probes after the touch controller
rest_Probed :
    (reply : List Op → Option (List ℕ)) (s : System) (d : DeviceTree) (l : Lcd) (t : Touch)
    → is_none d.primary_lcd ≡ false
    → Ready d t
    → let a = devtree_probe_audio reply (record s.audio { tree = t.tree; trace = t.trace }) in
      let p = devtree_probe_sensors reply (a.trace, a.tree) in
      Probed (record { tree = p.1; trace = p.0; lcd = l; touch = t; audio = a })
rest_Probed reply s d l t lp r =
    let k =
      devtree_probe_audio-Kept reply (record s.audio { tree = t.tree; trace = t.trace }) r.valid in
    let a = devtree_probe_audio reply (record s.audio { tree = t.tree; trace = t.trace }) in
    let e = devtree_probe_sensors-Extends reply (a.trace, a.tree) k.valid in
    record {
      valid = e.valid;
      lcd = ap is_none (e.lcd ∙ k.lcd ∙ r.lcd) ∙ lp;
      touch = ap is_none (e.touch ∙ k.touch) ∙ r.primary;
      polling = r.polling;
    }

scan_nodes : (acks : ℕ → Bool) (d : DeviceTree) → (devtree_scan_i2c acks d).1.nodes ≡ d.nodes
unfolding devtree_scan_i2c
scan_nodes acks d = refl

-- Whatever answers on the SPI and the I2C bus, the search of the touch probe finds an entry of its table, and
-- on a valid registry with room for two devices the probe of all buses goes on as follows. If the entry is
-- one of the first two, it comes to its end, and leaves a valid registry with a primary display and
-- a primary touch controller, which is being polled. If it is a later one, whose `init_fn` is no function, it
-- does not come to its end. The scan before it finds at most 112 addresses.
pub devtree_probe_all-Probed :
    (spi_reply : List LcdProbe.Op → ℕ) (reply : List Op → Option (List ℕ)) (acks : ℕ → Bool)
    (s : System)
    → IsValid s.tree
    → length s.tree.nodes + 1 < max_device_nodes
    → (length (scan_addrs acks) ≤ 112)
      × ((i : ℕ) × (a : ℕ) × ((find_touch_ic reply s.trace).0 ≡ some (i, a))
          × (((i < 2)
                × (t : System) × (devtree_probe_all spi_reply reply acks s ≡ some t)
                × Probed t)
              ⊎ ((2 ≤ i) × (devtree_probe_all spi_reply reply acks s ≡ none))))
unfolding devtree_probe_all
devtree_probe_all-Probed spi_reply reply acks s v room =
    let scanned = (devtree_scan_i2c acks s.tree).1 in
    let n = ap length (scan_nodes acks s.tree) in
    let (lv, lp, ln) =
      lcd_kept spi_reply (record s.lcd { tree = scanned }) (scan-IsValid acks s.tree v)
        (omega (arith, n)) in
    let l = devtree_probe_lcd spi_reply (record s.lcd { tree = scanned }) in
    (
      length-scan_addrs acks,
      elim (devtree_probe_touch-Outcome reply (record s.touch { tree = l.tree; trace = s.trace }) lv
          (omega (arith, n, ln))) [
            | Outcome.faulted i a f h e ↦ (i, a, f, inr (h, rw e refl))
            | Outcome.started i a t f h e r ↦
                (i, a, f, inl (h, _, rw e refl, rest_Probed reply s l.tree l t lp r))
          ],
    )
