-- ===== src/TouchProbe/Setup/Registered.antt =====
-- The device that the touch probe of drivers/autodetect/touch_probe.c registers.
use nanos_os.Common.{
  ℕ, zero, suc, ◌≤◌, ◌<◌, ◌≡◌, ◌⊎◌, refl, ◌∙◌, true, false, Option, none, some, List, length,
  get_elem?, arith,
}
use nanos_os.I2c.{Op}
use nanos_os.DevTree.{
  DeviceTree, BusType, dev_touch, devtree_register, devtree_has, is_none, max_device_nodes,
}
use nanos_os.DevTree.Registry.{
  IsValid, devtree_register-IsValid, devtree_register-has, devtree_register-primary, has_primary,
}
use nanos_os.DevTree.Update.{Keeps, fill_node-IsValid, fill_node-has, fill_node-primary}
use nanos_os.TouchProbe.{s_touch_ics, find_touch_ic}
use nanos_os.TouchProbe.Search.{find_touch_ic_lem}
use nanos_os.TouchProbe.Readers.{TouchDriver}
use nanos_os.TouchProbe.Setup.{
  Touch, entry_name, touch_driver, set_touch_caps, start_touch, devtree_probe_touch,
}

Keeps-caps : (n : ℕ) → Keeps (set_touch_caps n)
Keeps-caps n = record { category = λ m. refl; online = λ m. refl }

-- A touch controller has been set up and registered in `d`.
pub record Ready (d : DeviceTree) (s : Touch) : Type 0 where
  pub lcd : s.tree.primary_lcd ≡ d.primary_lcd
  pub valid : IsValid s.tree
  pub has : devtree_has dev_touch s.tree ≡ true
  pub primary : is_none s.tree.primary_touch ≡ false
  pub polling : s.polling ≡ true
  pub address :
      (s.addr ≡ 0x5D) ⊎ (s.addr ≡ 0x14) ⊎ (s.addr ≡ 0x38) ⊎ (s.addr ≡ 0x15) ⊎ (s.addr ≡ 0x48)

-- The controller at index `i` of the table is started with functions.
start-Ready :
    (reply : List Op → Option (List ℕ)) (i addr : ℕ) (f : TouchDriver × ℕ) (tr : List Op)
    (s : Touch)
    → (addr ≡ 0x5D) ⊎ (addr ≡ 0x14) ⊎ (addr ≡ 0x38) ⊎ (addr ≡ 0x15) ⊎ (addr ≡ 0x48)
    → IsValid s.tree
    → length s.tree.nodes < max_device_nodes
    → Ready s.tree (start_touch reply i addr f tr s)
unfolding start_touch
start-Ready reply i addr (driver, points) tr s a v room =
    let name = entry_name (get_elem? s_touch_ics i) in
    let caps = set_touch_caps points in
    let reg = devtree_register name dev_touch BusType.bus_i2c 0 addr touch_driver s.tree in
    let k = Keeps-caps points in
    let w =
      fill_node-IsValid caps reg k
        (devtree_register-IsValid name dev_touch BusType.bus_i2c 0 addr touch_driver s.tree v) in
    let h =
      fill_node-has caps dev_touch reg k
      ∙ devtree_register-has name dev_touch BusType.bus_i2c 0 addr touch_driver s.tree room in
    record {
      lcd =
          (fill_node-primary caps reg).0
          ∙ (devtree_register-primary name dev_touch BusType.bus_i2c 0 addr touch_driver s.tree).0
              refl;
      valid = w;
      has = h;
      primary = has_primary _ w h;
      polling = refl;
      address = a;
    }

-- Of the controllers that the search can find, the probe starts those that the table gives functions.
pub data Outcome (reply : List Op → Option (List ℕ)) (s : Touch) : Type 0 where
  started :
      (i a : ℕ) (t : Touch)
      → (find_touch_ic reply s.trace).0 ≡ some (i, a)
      → i < 2
      → devtree_probe_touch reply s ≡ some t
      → Ready s.tree t
      → Outcome reply s
  faulted :
      (i a : ℕ)
      → (find_touch_ic reply s.trace).0 ≡ some (i, a)
      → 2 ≤ i
      → devtree_probe_touch reply s ≡ none
      → Outcome reply s

pub devtree_probe_touch-Outcome :
    (reply : List Op → Option (List ℕ)) (s : Touch)
    → IsValid s.tree
    → length s.tree.nodes < max_device_nodes
    → Outcome reply s
unfolding devtree_probe_touch
devtree_probe_touch-Outcome reply s v room =
    let (r, e, a) = find_touch_ic_lem reply s.trace in go r.0 r.1 e a
  where
    go :
        (i addr : ℕ)
        → (find_touch_ic reply s.trace).0 ≡ some (i, addr)
        → (addr ≡ 0x5D) ⊎ (addr ≡ 0x14) ⊎ (addr ≡ 0x38) ⊎ (addr ≡ 0x15) ⊎ (addr ≡ 0x48)
        → Outcome reply s
    go zero addr e a =
        started 0 addr _ e (omega arith) (rw (devtree_probe_touch, e) refl) (
          start-Ready reply 0 addr (TouchDriver.gt911, 5) (find_touch_ic reply s.trace).1 s a v
            room)
    go (suc zero) addr e a = started 1 addr _ e (omega arith) (rw (devtree_probe_touch, e) refl) (
        start-Ready reply 1 addr (TouchDriver.gt911, 10) (find_touch_ic reply s.trace).1 s a v room)
    go (suc (suc i)) addr e a =
        faulted (suc (suc i)) addr e (omega arith) (rw (devtree_probe_touch, e) refl)
