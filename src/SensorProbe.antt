-- ===== src/SensorProbe.antt =====
-- drivers/autodetect/peripheral_probe.c: the sensors and other chips on the I2C bus.
-- The descriptions and log lines are not modelled. The register 0x300A of the OV5640 is cut to a byte
-- by the type of its field.
pub mod Bus
mod Tests
use Prim.Native.Nat.{bit_and}
use nanos_os.Common.{
  ℕ, zero, suc, Bool, true, false, Option, none, some, List, [], ◌∷◌, ◌==◌, ◌||◌, get_or,
  if◌then◌else◌,
}
use nanos_os.I2c.{Op, i2c_read_reg8}
use nanos_os.DevTree.{
  Node, DeviceTree, bus_i2c, dev_imu, dev_env, dev_rtc, dev_led, dev_custom, dev_camera,
  devtree_register, devtree_find_by_name, fill_node, is_none,
}

-- `periph_entry_t`
pub record Periph : Type 0 where
  pub name : List ℕ
  pub addr : List ℕ
  pub who_am_i_reg : ℕ
  pub who_am_i_val : ℕ
  pub who_am_i_mask : ℕ
  pub category : ℕ

abbrev pub s_periph_db : List Periph
s_periph_db =
    record {
      name = 0x4D ∷ 0x50 ∷ 0x55 ∷ 0x36 ∷ 0x30 ∷ 0x35 ∷ 0x30 ∷ [];
      addr = 0x68 ∷ 0x69 ∷ 0x00 ∷ [];
      who_am_i_reg = 0x75;
      who_am_i_val = 0x68;
      who_am_i_mask = 0xFF;
      category = dev_imu;
    }
    ∷ record {
      name = 0x4D ∷ 0x50 ∷ 0x55 ∷ 0x39 ∷ 0x32 ∷ 0x35 ∷ 0x30 ∷ [];
      addr = 0x68 ∷ 0x69 ∷ 0x00 ∷ [];
      who_am_i_reg = 0x75;
      who_am_i_val = 0x71;
      who_am_i_mask = 0xFF;
      category = dev_imu;
    }
    ∷ record {
      name = 0x4D ∷ 0x50 ∷ 0x55 ∷ 0x36 ∷ 0x38 ∷ 0x38 ∷ 0x36 ∷ [];
      addr = 0x68 ∷ 0x00 ∷ 0x00 ∷ [];
      who_am_i_reg = 0x75;
      who_am_i_val = 0x19;
      who_am_i_mask = 0xFF;
      category = dev_imu;
    }
    ∷ record {
      name = 0x49 ∷ 0x43 ∷ 0x4D ∷ 0x34 ∷ 0x32 ∷ 0x36 ∷ 0x38 ∷ 0x38 ∷ [];
      addr = 0x68 ∷ 0x69 ∷ 0x00 ∷ [];
      who_am_i_reg = 0x75;
      who_am_i_val = 0x47;
      who_am_i_mask = 0xFF;
      category = dev_imu;
    }
    ∷ record {
      name = 0x42 ∷ 0x4D ∷ 0x49 ∷ 0x31 ∷ 0x36 ∷ 0x30 ∷ [];
      addr = 0x68 ∷ 0x69 ∷ 0x00 ∷ [];
      who_am_i_reg = 0x00;
      who_am_i_val = 0xD1;
      who_am_i_mask = 0xFF;
      category = dev_imu;
    }
    ∷ record {
      name = 0x4C ∷ 0x53 ∷ 0x4D ∷ 0x36 ∷ 0x44 ∷ 0x53 ∷ 0x33 ∷ [];
      addr = 0x6A ∷ 0x6B ∷ 0x00 ∷ [];
      who_am_i_reg = 0x0F;
      who_am_i_val = 0x69;
      who_am_i_mask = 0xFF;
      category = dev_imu;
    }
    ∷ record {
      name = 0x4C ∷ 0x53 ∷ 0x4D ∷ 0x36 ∷ 0x44 ∷ 0x53 ∷ 0x4F ∷ [];
      addr = 0x6A ∷ 0x6B ∷ 0x00 ∷ [];
      who_am_i_reg = 0x0F;
      who_am_i_val = 0x6C;
      who_am_i_mask = 0xFF;
      category = dev_imu;
    }
    ∷ record {
      name = 0x41 ∷ 0x44 ∷ 0x58 ∷ 0x4C ∷ 0x33 ∷ 0x34 ∷ 0x35 ∷ [];
      addr = 0x53 ∷ 0x1D ∷ 0x00 ∷ [];
      who_am_i_reg = 0x00;
      who_am_i_val = 0xE5;
      who_am_i_mask = 0xFF;
      category = dev_imu;
    }
    ∷ record {
      name = 0x42 ∷ 0x4D ∷ 0x50 ∷ 0x32 ∷ 0x38 ∷ 0x30 ∷ [];
      addr = 0x76 ∷ 0x77 ∷ 0x00 ∷ [];
      who_am_i_reg = 0xD0;
      who_am_i_val = 0x58;
      who_am_i_mask = 0xFF;
      category = dev_env;
    }
    ∷ record {
      name = 0x42 ∷ 0x4D ∷ 0x45 ∷ 0x32 ∷ 0x38 ∷ 0x30 ∷ [];
      addr = 0x76 ∷ 0x77 ∷ 0x00 ∷ [];
      who_am_i_reg = 0xD0;
      who_am_i_val = 0x60;
      who_am_i_mask = 0xFF;
      category = dev_env;
    }
    ∷ record {
      name = 0x42 ∷ 0x4D ∷ 0x45 ∷ 0x36 ∷ 0x38 ∷ 0x30 ∷ [];
      addr = 0x76 ∷ 0x77 ∷ 0x00 ∷ [];
      who_am_i_reg = 0xD0;
      who_am_i_val = 0x61;
      who_am_i_mask = 0xFF;
      category = dev_env;
    }
    ∷ record {
      name = 0x41 ∷ 0x48 ∷ 0x54 ∷ 0x32 ∷ 0x30 ∷ [];
      addr = 0x38 ∷ 0x00 ∷ 0x00 ∷ [];
      who_am_i_reg = 0x71;
      who_am_i_val = 0x18;
      who_am_i_mask = 0xF8;
      category = dev_env;
    }
    ∷ record {
      name = 0x41 ∷ 0x48 ∷ 0x54 ∷ 0x31 ∷ 0x30 ∷ [];
      addr = 0x38 ∷ 0x00 ∷ 0x00 ∷ [];
      who_am_i_reg = 0x71;
      who_am_i_val = 0x08;
      who_am_i_mask = 0xF8;
      category = dev_env;
    }
    ∷ record {
      name = 0x53 ∷ 0x48 ∷ 0x54 ∷ 0x33 ∷ 0x31 ∷ [];
      addr = 0x44 ∷ 0x45 ∷ 0x00 ∷ [];
      who_am_i_reg = 0x00;
      who_am_i_val = 0x00;
      who_am_i_mask = 0x00;
      category = dev_env;
    }
    ∷ record {
      name = 0x44 ∷ 0x48 ∷ 0x54 ∷ 0x31 ∷ 0x32 ∷ [];
      addr = 0x5C ∷ 0x00 ∷ 0x00 ∷ [];
      who_am_i_reg = 0x00;
      who_am_i_val = 0x00;
      who_am_i_mask = 0x00;
      category = dev_env;
    }
    ∷ record {
      name = 0x4C ∷ 0x50 ∷ 0x53 ∷ 0x32 ∷ 0x32 ∷ 0x48 ∷ 0x42 ∷ [];
      addr = 0x5C ∷ 0x5D ∷ 0x00 ∷ [];
      who_am_i_reg = 0x0F;
      who_am_i_val = 0xB1;
      who_am_i_mask = 0xFF;
      category = dev_env;
    }
    ∷ record {
      name = 0x53 ∷ 0x48 ∷ 0x54 ∷ 0x43 ∷ 0x33 ∷ [];
      addr = 0x70 ∷ 0x00 ∷ 0x00 ∷ [];
      who_am_i_reg = 0xEF;
      who_am_i_val = 0xC8;
      who_am_i_mask = 0xC8;
      category = dev_env;
    }
    ∷ record {
      name = 0x44 ∷ 0x53 ∷ 0x33 ∷ 0x32 ∷ 0x33 ∷ 0x31 ∷ [];
      addr = 0x68 ∷ 0x00 ∷ 0x00 ∷ [];
      who_am_i_reg = 0x00;
      who_am_i_val = 0x00;
      who_am_i_mask = 0x00;
      category = dev_rtc;
    }
    ∷ record {
      name = 0x50 ∷ 0x43 ∷ 0x46 ∷ 0x38 ∷ 0x35 ∷ 0x36 ∷ 0x33 ∷ [];
      addr = 0x51 ∷ 0x00 ∷ 0x00 ∷ [];
      who_am_i_reg = 0x00;
      who_am_i_val = 0x00;
      who_am_i_mask = 0x00;
      category = dev_rtc;
    }
    ∷ record {
      name = 0x52 ∷ 0x56 ∷ 0x33 ∷ 0x30 ∷ 0x32 ∷ 0x38 ∷ [];
      addr = 0x52 ∷ 0x00 ∷ 0x00 ∷ [];
      who_am_i_reg = 0x28;
      who_am_i_val = 0x00;
      who_am_i_mask = 0x00;
      category = dev_rtc;
    }
    ∷ record {
      name = 0x44 ∷ 0x53 ∷ 0x31 ∷ 0x33 ∷ 0x30 ∷ 0x37 ∷ [];
      addr = 0x68 ∷ 0x00 ∷ 0x00 ∷ [];
      who_am_i_reg = 0x07;
      who_am_i_val = 0x00;
      who_am_i_mask = 0x00;
      category = dev_rtc;
    }
    ∷ record {
      name = 0x50 ∷ 0x43 ∷ 0x41 ∷ 0x39 ∷ 0x36 ∷ 0x38 ∷ 0x35 ∷ [];
      addr = 0x40 ∷ 0x41 ∷ 0x70 ∷ [];
      who_am_i_reg = 0x00;
      who_am_i_val = 0x00;
      who_am_i_mask = 0x00;
      category = dev_led;
    }
    ∷ record {
      name = 0x49 ∷ 0x53 ∷ 0x33 ∷ 0x31 ∷ 0x46 ∷ 0x4C ∷ 0x33 ∷ 0x37 ∷ 0x34 ∷ 0x31 ∷ [];
      addr = 0x30 ∷ 0x31 ∷ 0x32 ∷ [];
      who_am_i_reg = 0x00;
      who_am_i_val = 0x00;
      who_am_i_mask = 0x00;
      category = dev_led;
    }
    ∷ record {
      name = 0x50 ∷ 0x43 ∷ 0x46 ∷ 0x38 ∷ 0x35 ∷ 0x37 ∷ 0x34 ∷ [];
      addr = 0x20 ∷ 0x21 ∷ 0x3F ∷ [];
      who_am_i_reg = 0x00;
      who_am_i_val = 0x00;
      who_am_i_mask = 0x00;
      category = dev_custom;
    }
    ∷ record {
      name = 0x4D ∷ 0x43 ∷ 0x50 ∷ 0x32 ∷ 0x33 ∷ 0x30 ∷ 0x31 ∷ 0x37 ∷ [];
      addr = 0x20 ∷ 0x21 ∷ 0x27 ∷ [];
      who_am_i_reg = 0x00;
      who_am_i_val = 0x40;
      who_am_i_mask = 0xFE;
      category = dev_custom;
    }
    ∷ record {
      name = 0x4F ∷ 0x56 ∷ 0x32 ∷ 0x36 ∷ 0x34 ∷ 0x30 ∷ [];
      addr = 0x30 ∷ 0x21 ∷ 0x00 ∷ [];
      who_am_i_reg = 0x0A;
      who_am_i_val = 0x26;
      who_am_i_mask = 0xFF;
      category = dev_camera;
    }
    ∷ record {
      name = 0x4F ∷ 0x56 ∷ 0x35 ∷ 0x36 ∷ 0x34 ∷ 0x30 ∷ [];
      addr = 0x3C ∷ 0x00 ∷ 0x00 ∷ [];
      who_am_i_reg = 0x0A;
      who_am_i_val = 0x56;
      who_am_i_mask = 0xFF;
      category = dev_camera;
    }
    ∷ []

-- Whether the byte read is that of the entry; no byte is looked at if the mask is 0.
pub who_am_i : Periph → ℕ → Bool
who_am_i e b =
    (e.who_am_i_mask == 0) || (bit_and b e.who_am_i_mask == bit_and e.who_am_i_val e.who_am_i_mask)

abbrev pub set_chip_id : ℕ → Node → Node
set_chip_id b n = record n { chip_id = b }

-- The node of a chip that was found, with no driver.
pub register_periph : Periph → ℕ → ℕ → DeviceTree → DeviceTree
register_periph e addr b d =
    fill_node (set_chip_id b) (devtree_register e.name e.category bus_i2c 0 addr 0 d)

module _ (reply : List Op → Option (List ℕ)) where
  -- The inner loop, over the addresses of an entry.
  pub try_addrs : Periph → List ℕ → List Op × DeviceTree → List Op × DeviceTree
  unfolding i2c_read_reg8 who_am_i register_periph
  try_addrs e [] s = s
  try_addrs e (addr ∷ more) s =
      let (r, tr1) = i2c_read_reg8 reply addr e.who_am_i_reg 1 s.0 in
      let next = try_addrs e more (tr1, s.1) in
      if addr == 0
      then s
      else (if is_none (devtree_find_by_name e.name s.1)
          then elim r [
            | none ↦ next
            | some bs ↦
                if who_am_i e (get_or bs 0 0)
                then (tr1, register_periph e addr (get_or bs 0 0) s.1)
                else next
          ]
          else s)

  -- The outer loop, over the table.
  pub try_periphs : List Periph → List Op × DeviceTree → List Op × DeviceTree
  unfolding try_addrs
  try_periphs [] s = s
  try_periphs (e ∷ es) s = try_periphs es (try_addrs e e.addr s)

  pub devtree_probe_sensors : List Op × DeviceTree → List Op × DeviceTree
  unfolding try_periphs
  devtree_probe_sensors s = try_periphs s_periph_db s
