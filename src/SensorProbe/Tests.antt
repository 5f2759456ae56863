-- ===== src/SensorProbe/Tests.antt =====
-- The theorem on drivers/autodetect/peripheral_probe.c with a bus on which every register reads 0x68.
use nanos_os.Common.{ℕ, some, List, [], ◌∷◌, Option}
use nanos_os.I2c.{Op}
use nanos_os.DevTree.{devtree_init}
use nanos_os.DevTree.Registry.{devtree_init-IsValid}
use nanos_os.SensorProbe.{devtree_probe_sensors}
use nanos_os.SensorProbe.Bus.{Extends, devtree_probe_sensors-Extends}

abbrev reply : List Op → Option (List ℕ)
reply tr = some (0x68 ∷ [])

devtree_probe_sensors-Extends_example :
    Extends devtree_init (devtree_probe_sensors reply ([], devtree_init)).1
devtree_probe_sensors-Extends_example =
    devtree_probe_sensors-Extends reply ([], devtree_init) devtree_init-IsValid
