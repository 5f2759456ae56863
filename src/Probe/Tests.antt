-- ===== src/Probe/Tests.antt =====
-- The probe of all buses with a GT911 on the I2C bus.
use nanos_os.Common.{
  ℕ, ◌≤◌, ◌<◌, ◌≡◌, ◌⊎◌, none, some, List, [], ◌∷◌, Option, true, false, length, arith,
}
use nanos_os.I2c.{Op}
use nanos_os.DevTree.{devtree_init}
use nanos_os.DevTree.Registry.{devtree_init-IsValid, devtree_init-empty}
use nanos_os.TouchProbe.{find_touch_ic}
use nanos_os.TouchProbe.Readers.{no_data}
use nanos_os.Probe.{System, scan_addrs, devtree_probe_all}
use nanos_os.Probe.Tree.{Probed, devtree_probe_all-Probed}

-- Every read of the I2C bus gives the ID of a GT911.
abbrev gt911_id : List Op → Option (List ℕ)
gt911_id tr = some (0x39 ∷ 0x31 ∷ 0x31 ∷ 0x30 ∷ [])

abbrev boot : System
boot = record {
  tree = devtree_init;
  trace = [];
  lcd = record { trace = []; tree = devtree_init; ctx = none };
  touch = record {
    trace = [];
    tree = devtree_init;
    ic = none;
    addr = 0;
    last = no_data;
    polling = false;
    forwarded = [];
  };
  audio = record { trace = []; tree = devtree_init; codec = none };
}

devtree_probe_all-Probed_example :
    (length (scan_addrs (λ a. true)) ≤ 112)
    × ((i : ℕ) × (a : ℕ) × ((find_touch_ic gt911_id []).0 ≡ some (i, a))
        × (((i < 2)
              × (t : System) × (devtree_probe_all (λ tr. 0) gt911_id (λ a. true) boot ≡ some t)
              × Probed t)
            ⊎ ((2 ≤ i) × (devtree_probe_all (λ tr. 0) gt911_id (λ a. true) boot ≡ none))))
devtree_probe_all-Probed_example =
    devtree_probe_all-Probed (λ tr. 0) gt911_id (λ a. true) boot devtree_init-IsValid
      (omega (arith, devtree_init-empty))
