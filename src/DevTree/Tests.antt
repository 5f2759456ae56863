-- ===== src/DevTree/Tests.antt =====
-- The theorems on system/devtree/device_tree.c at a registry of no devices.
use nanos_os.Common.{ℕ, ◌+◌, ◌≡◌, ◌<◌, ◌≤◌, ◌⊎◌, none, some, List, [], ◌∷◌, length}
use nanos_os.DevTree.{
  devtree_init, devtree_register, primary_driver, bus_i2c, dev_touch, max_device_nodes,
}
use nanos_os.DevTree.Registry.{
  IsValid, devtree_init-IsValid, devtree_register-IsValid, devtree_register_lem,
}

abbrev name : List ℕ
name = 0x46 ∷ 0x54 ∷ []

devtree_register-IsValid_example :
    IsValid (devtree_register name dev_touch bus_i2c 0 0x38 3 devtree_init).1
devtree_register-IsValid_example =
    devtree_register-IsValid name dev_touch bus_i2c 0 0x38 3 devtree_init devtree_init-IsValid

devtree_register_lem_example :
    let d = devtree_init in
    let (r, d') = devtree_register name dev_touch bus_i2c 0 0x38 3 d in
    ((length d.nodes < max_device_nodes)
      × (r ≡ some (length d.nodes))
      × (length d'.nodes ≡ length d.nodes + 1)
      × (primary_driver r d' ≡ some 3))
    ⊎ ((max_device_nodes ≤ length d.nodes) × (r ≡ none) × (d' ≡ d))
devtree_register_lem_example = devtree_register_lem name dev_touch bus_i2c 0 0x38 3 devtree_init
