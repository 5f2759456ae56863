-- ===== src/DevTree.antt =====
-- system/devtree/device_tree.c: the registry of devices.
-- `nodes` holds the first `node_count` entries of the array of that name; a pointer into the array is
-- an index. The lock is not modelled: registration runs in one task.
pub mod Registry
pub mod Update
mod Tests
use nanos_os.Common.{
  ℕ, zero, suc, ◌+◌, ◌-◌, ◌≤◌, Bool, true, false, Option, none, some, List, [], ◌∷◌, ◌++◌, ◌==◌,
  ◌&&◌, ◌||◌, not, leb, if◌then◌else◌, length, take, set, get_elem?,
}
use nanos_os.Common.Strings.{str_eq}
use nanos_os.Kernel.{u32_mod}

-- `bus_type_t`
pub data BusType : Type 0 where
  bus_none bus_spi bus_i2c bus_i2s bus_uart bus_usb bus_gpio bus_1wire : BusType

-- `dev_category_t`: one bit for each category.
abbrev pub dev_lcd : ℕ
dev_lcd = 0x01

abbrev pub dev_touch : ℕ
dev_touch = 0x02

abbrev pub dev_audio_out : ℕ
dev_audio_out = 0x04

abbrev pub dev_audio_in : ℕ
dev_audio_in = 0x08

abbrev pub dev_imu : ℕ
dev_imu = 0x10

abbrev pub dev_env : ℕ
dev_env = 0x20

abbrev pub dev_rtc : ℕ
dev_rtc = 0x40

abbrev pub dev_led : ℕ
dev_led = 0x80

abbrev pub dev_camera : ℕ
dev_camera = 0x100

abbrev pub dev_custom : ℕ
dev_custom = 0x800

abbrev pub max_device_nodes : ℕ
max_device_nodes = 32

abbrev pub devnode_name_len : ℕ
devnode_name_len = 32

-- `dev_caps_t`: which member of the union has been written, and its fields that the probes write.
pub data Caps : Type 0 where
  no_caps : Caps
  lcd_caps : (width height color_bits max_spi_hz : ℕ) (has_backlight : Bool) → Caps
  touch_caps : (max_points x_res y_res : ℕ) → Caps
  audio_caps :
      (max_sample_rate max_bits max_channels : ℕ) (has_dac has_adc has_speaker : Bool) → Caps

-- `dev_node_t`; `driver` tells the drivers apart, with 0 for none.
pub record Node : Type 0 where
  pub id : ℕ
  pub name : List ℕ
  pub category : ℕ
  pub bus_type : BusType
  pub bus_num : ℕ
  pub bus_addr : ℕ
  pub chip_id : ℕ
  pub probed : Bool
  pub online : Bool
  pub primary : Bool
  pub caps : Caps
  pub driver : ℕ

-- `device_tree_t`
pub record DeviceTree : Type 0 where
  pub nodes : List Node
  pub primary_lcd : Option ℕ
  pub primary_touch : Option ℕ
  pub primary_audio_out : Option ℕ
  pub primary_audio_in : Option ℕ
  pub i2c_devices_found : ℕ
  pub spi_devices_found : ℕ

pub devtree_init : DeviceTree
devtree_init = record {
  nodes = [];
  primary_lcd = none;
  primary_touch = none;
  primary_audio_out = none;
  primary_audio_in = none;
  i2c_devices_found = 0;
  spi_devices_found = 0;
}

abbrev pub is_none {ℓ} : {A : Type ℓ} → Option A → Bool
is_none none = true
is_none (some a) = false

-- `cat == c && !primary` for the category `c`: whether the new node becomes its primary device.
abbrev pub becomes : ℕ → ℕ → Option ℕ → Bool
becomes cat c p = (cat == c) && is_none p

abbrev pub or_first : Bool → ℕ → Option ℕ → Option ℕ
or_first b n p = if b then some n else p

-- The result is the new node's index, or none for NULL.
pub devtree_register : List ℕ → ℕ → BusType → ℕ → ℕ → ℕ → DeviceTree → Option ℕ × DeviceTree
devtree_register name cat bus bus_num addr drv d =
    let n = length d.nodes in
    let lcd = becomes cat dev_lcd d.primary_lcd in
    let touch = becomes cat dev_touch d.primary_touch in
    let out = becomes cat dev_audio_out d.primary_audio_out in
    let inp = becomes cat dev_audio_in d.primary_audio_in in
    let node : Node = record {
      id = n + 1;
      name = take (devnode_name_len - 1) name;
      category = cat;
      bus_type = bus;
      bus_num = bus_num;
      bus_addr = addr;
      chip_id = 0;
      probed = true;
      online = true;
      primary = lcd || touch || out || inp;
      caps = no_caps;
      driver = drv;
    } in
    if leb max_device_nodes n then (none, d) else (
      some n,
      record d {
        nodes = d.nodes ++ node ∷ [];
        primary_lcd = or_first lcd n d.primary_lcd;
        primary_touch = or_first touch n d.primary_touch;
        primary_audio_out = or_first out n d.primary_audio_out;
        primary_audio_in = or_first inp n d.primary_audio_in;
      },
    )

-- The index, counted from `i`, of the first entry that passes.
pub find_from {ℓ} : {A : Type ℓ} → (A → Bool) → ℕ → List A → Option ℕ
find_from test i [] = none
find_from test i (x ∷ xs) = if test x then some i else find_from test (i + 1) xs

pub devtree_find : ℕ → DeviceTree → Option ℕ
unfolding find_from
devtree_find cat d = find_from (λ (n : Node). (n.category == cat) && n.online) 0 d.nodes

pub devtree_find_by_name : List ℕ → DeviceTree → Option ℕ
unfolding find_from
devtree_find_by_name name d = find_from (λ (n : Node). str_eq n.name name) 0 d.nodes

pub devtree_has : ℕ → DeviceTree → Bool
unfolding devtree_find
devtree_has cat d = not (is_none (devtree_find cat d))

-- A write to fields of a node through the pointer that `devtree_register` returned.
pub node_update : (Node → Node) → ℕ → List Node → List Node
node_update f i [] = []
node_update f zero (n ∷ ns) = f n ∷ ns
node_update f (suc i) (n ∷ ns) = n ∷ node_update f i ns

-- `hal_audio_set_volume` and its kin of drivers/autodetect/peripheral_probe.c reach the driver of the
-- primary device, if there is one: the driver's number, or none if the call does nothing.
pub primary_driver : Option ℕ → DeviceTree → Option ℕ
primary_driver none d = none
primary_driver (some i) d = elim (get_elem? d.nodes i) [
  | none ↦ none
  | some n ↦ if n.driver == 0 then none else some n.driver
]

-- `if (node)`: the fields of the new node.
abbrev pub fill_node : (Node → Node) → Option ℕ × DeviceTree → DeviceTree
fill_node f (none, d) = d
fill_node f (some i, d) = record d { nodes = node_update f i d.nodes }
