-- ===== src/TouchProbe.antt =====
-- drivers/autodetect/touch_probe.c: which touch controller is connected.
-- Of an entry of the table, the fields up to `id_mask` are modelled: those that identify a chip.
pub mod Search
pub mod Readers
pub mod Setup
mod Tests
use Prim.Native.Nat.{bit_and}
use nanos_os.Common.{
  ℕ, ◌+◌, ◌%◌, Bool, true, false, Option, none, some, List, [], ◌∷◌, ◌==◌, ◌&&◌, ◌||◌, not, ltb,
  drop, get_or, replicate, if◌then◌else◌,
}
use nanos_os.I2c.{Op, i2c_read_reg8, i2c_read_reg16}

-- `touch_entry_t`
pub record TouchIc : Type 0 where
  pub name : List ℕ
  pub i2c_addr : List ℕ
  pub id_reg : ℕ
  pub reg16 : Bool
  pub id_bytes : ℕ
  pub id_val : List ℕ
  pub id_mask : List ℕ

abbrev pub s_touch_ics : List TouchIc
s_touch_ics =
    record {
      name = 0x47 ∷ 0x54 ∷ 0x39 ∷ 0x31 ∷ 0x31 ∷ [];
      i2c_addr = 0x5D ∷ 0x14 ∷ [];
      id_reg = 0x8140;
      reg16 = true;
      id_bytes = 4;
      id_val = 0x39 ∷ 0x31 ∷ 0x31 ∷ 0x30 ∷ [];
      id_mask = 0xFF ∷ 0xFF ∷ 0xFF ∷ 0x00 ∷ [];
    }
    ∷ record {
      name = 0x47 ∷ 0x54 ∷ 0x31 ∷ 0x31 ∷ 0x35 ∷ 0x31 ∷ [];
      i2c_addr = 0x5D ∷ 0x14 ∷ [];
      id_reg = 0x8140;
      reg16 = true;
      id_bytes = 4;
      id_val = 0x31 ∷ 0x31 ∷ 0x35 ∷ 0x31 ∷ [];
      id_mask = 0xFF ∷ 0xFF ∷ 0xFF ∷ 0xFF ∷ [];
    }
    ∷ record {
      name = 0x46 ∷ 0x54 ∷ 0x35 ∷ 0x32 ∷ 0x30 ∷ 0x36 ∷ [];
      i2c_addr = 0x38 ∷ 0x00 ∷ [];
      id_reg = 0xA8;
      reg16 = false;
      id_bytes = 1;
      id_val = 0x06 ∷ [];
      id_mask = 0xFF ∷ [];
    }
    ∷ record {
      name = 0x46 ∷ 0x54 ∷ 0x35 ∷ 0x33 ∷ 0x33 ∷ 0x36 ∷ [];
      i2c_addr = 0x38 ∷ 0x00 ∷ [];
      id_reg = 0xA8;
      reg16 = false;
      id_bytes = 1;
      id_val = 0x36 ∷ [];
      id_mask = 0xFF ∷ [];
    }
    ∷ record {
      name = 0x46 ∷ 0x54 ∷ 0x36 ∷ 0x33 ∷ 0x33 ∷ 0x36 ∷ [];
      i2c_addr = 0x38 ∷ 0x00 ∷ [];
      id_reg = 0xA8;
      reg16 = false;
      id_bytes = 1;
      id_val = 0x36 ∷ [];
      id_mask = 0xF0 ∷ [];
    }
    ∷ record {
      name = 0x46 ∷ 0x54 ∷ 0x36 ∷ 0x32 ∷ 0x30 ∷ 0x36 ∷ [];
      i2c_addr = 0x38 ∷ 0x00 ∷ [];
      id_reg = 0xA8;
      reg16 = false;
      id_bytes = 1;
      id_val = 0x06 ∷ [];
      id_mask = 0xFF ∷ [];
    }
    ∷ record {
      name = 0x43 ∷ 0x53 ∷ 0x54 ∷ 0x38 ∷ 0x31 ∷ 0x36 ∷ 0x53 ∷ [];
      i2c_addr = 0x15 ∷ 0x00 ∷ [];
      id_reg = 0xA7;
      reg16 = false;
      id_bytes = 1;
      id_val = 0xB4 ∷ [];
      id_mask = 0xFF ∷ [];
    }
    ∷ record {
      name = 0x43 ∷ 0x53 ∷ 0x54 ∷ 0x38 ∷ 0x32 ∷ 0x30 ∷ [];
      i2c_addr = 0x15 ∷ 0x00 ∷ [];
      id_reg = 0xA7;
      reg16 = false;
      id_bytes = 1;
      id_val = 0xB5 ∷ [];
      id_mask = 0xFF ∷ [];
    }
    ∷ record {
      name = 0x4E ∷ 0x53 ∷ 0x32 ∷ 0x30 ∷ 0x30 ∷ 0x39 ∷ [];
      i2c_addr = 0x48 ∷ 0x00 ∷ [];
      id_reg = 0x00;
      reg16 = false;
      id_bytes = 0;
      id_val = 0 ∷ [];
      id_mask = 0 ∷ [];
    }
    ∷ record {
      name = 0x53 ∷ 0x54 ∷ 0x4D ∷ 0x50 ∷ 0x45 ∷ 0x38 ∷ 0x31 ∷ 0x31 ∷ [];
      i2c_addr = 0x41 ∷ 0x44 ∷ [];
      id_reg = 0x00;
      reg16 = false;
      id_bytes = 2;
      id_val = 0x08 ∷ 0x11 ∷ [];
      id_mask = 0xFF ∷ 0xFF ∷ [];
    }
    ∷ record {
      name = 0x54 ∷ 0x54 ∷ 0x32 ∷ 0x31 ∷ 0x31 ∷ 0x30 ∷ 0x30 ∷ [];
      i2c_addr = 0x24 ∷ 0x00 ∷ [];
      id_reg = 0x01;
      reg16 = false;
      id_bytes = 2;
      id_val = 0x21 ∷ 0x00 ∷ [];
      id_mask = 0xFF ∷ 0x00 ∷ [];
    }
    ∷ record {
      name = 0x41 ∷ 0x57 ∷ 0x35 ∷ 0x33 ∷ 0x30 ∷ 0x36 ∷ [];
      i2c_addr = 0x38 ∷ 0x00 ∷ [];
      id_reg = 0xA8;
      reg16 = false;
      id_bytes = 1;
      id_val = 0x06 ∷ [];
      id_mask = 0xF6 ∷ [];
    }
    ∷ []

-- A byte with no bit in its mask is not looked at.
pub id_match : List ℕ → List ℕ → List ℕ → Bool
id_match [] id mask = true
id_match (b ∷ bs) id mask =
    let m = get_or mask 0 0 in
    ((m == 0) || (bit_and b m == bit_and (get_or id 0 0) m))
    && id_match bs (drop 1 id) (drop 1 mask)

module _ (reply : List Op → Option (List ℕ)) where
  -- The ID bytes that are compared, or none if the read fails.
  pub read_id : TouchIc → ℕ → List Op → Option (List ℕ) × List Op
  unfolding i2c_read_reg8 i2c_read_reg16
  read_id t a tr =
      if t.reg16
      then i2c_read_reg16 reply a t.id_reg t.id_bytes tr
      else (if ltb 0 t.id_bytes
          then i2c_read_reg8 reply a (t.id_reg % 0x100) t.id_bytes tr
          else (some [], tr))

  -- The inner loop of `probe_touch_ic`, over the addresses of an entry.
  pub try_addrs : ℕ → TouchIc → List ℕ → List Op → Option ℕ × List Op
  unfolding read_id id_match
  try_addrs addr t [] tr = (none, tr)
  try_addrs addr t (a ∷ more) tr =
      let (id, tr1) = read_id t a tr in
      let skip = try_addrs addr t more tr in
      let next = try_addrs addr t more tr1 in
      if (a == 0) || (not (addr == 0) && not (a == addr)) then skip else elim id [
        | none ↦ next
        | some bs ↦
            if id_match bs t.id_val t.id_mask || (t.id_bytes == 0) then (some a, tr1) else next
      ]

  -- The outer loop, at index `i` of the table: the index of the chip and its address.
  pub probe_touch_ic : ℕ → ℕ → List TouchIc → List Op → Option (ℕ × ℕ) × List Op
  unfolding try_addrs
  probe_touch_ic addr i [] tr = (none, tr)
  probe_touch_ic addr i (t ∷ ts) tr =
      let (found, tr1) = try_addrs addr t t.i2c_addr tr in
      let rest = probe_touch_ic addr (i + 1) ts tr1 in
      elim found [ none ↦ rest | some a ↦ (some (i, a), tr1) ]

  -- The loop of `devtree_probe_touch`.
  pub search_addrs : List ℕ → List Op → Option (ℕ × ℕ) × List Op
  unfolding probe_touch_ic
  search_addrs [] tr = (none, tr)
  search_addrs (addr ∷ more) tr =
      let (found, tr1) = probe_touch_ic addr 0 s_touch_ics tr in
      let rest = search_addrs more tr1 in elim found [ none ↦ rest | some r ↦ (some r, tr1) ]

  pub find_touch_ic : List Op → Option (ℕ × ℕ) × List Op
  unfolding search_addrs
  find_touch_ic tr = search_addrs (0x5D ∷ 0x14 ∷ 0x38 ∷ 0x15 ∷ 0x48 ∷ 0x41 ∷ 0x44 ∷ 0x24 ∷ []) tr
