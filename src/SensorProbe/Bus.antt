-- ===== src/SensorProbe/Bus.antt =====
-- What the scan of drivers/autodetect/peripheral_probe.c keeps of the registry.
use nanos_os.Common.{
  ℕ, ◌≡◌, refl, ◌∙◌, Bool, true, false, Option, List, [], ◌∷◌, ◌==◌, get_or, All, Bool-cases,
  Option-cases, inl, inr, arith, not, ◌&&◌,
}
use nanos_os.I2c.{Op, i2c_read_reg8}
use nanos_os.DevTree.{
  DeviceTree, bus_i2c, devtree_register, devtree_find_by_name, is_none, dev_lcd, dev_touch,
  dev_audio_out, dev_audio_in,
}
use nanos_os.DevTree.Registry.{IsValid, devtree_register-IsValid, devtree_register-primary}
use nanos_os.DevTree.Update.{Keeps, fill_node-IsValid, fill_node-primary}
use nanos_os.SensorProbe.{
  Periph, s_periph_db, who_am_i, set_chip_id, register_periph, try_addrs, try_periphs,
  devtree_probe_sensors,
}

-- The categories of the primary devices.
pub record IsSensor (e : Periph) : Type 0 where
  pub lcd : (e.category == dev_lcd) ≡ false
  pub touch : (e.category == dev_touch) ≡ false
  pub audio_out : (e.category == dev_audio_out) ≡ false
  pub audio_in : (e.category == dev_audio_in) ≡ false

-- The test of all entries of a table.
all_sensors : List Periph → Bool
all_sensors [] = true
all_sensors (e ∷ es) =
    not (e.category == dev_lcd)
    && not (e.category == dev_touch)
    && not (e.category == dev_audio_out)
    && not (e.category == dev_audio_in)
    && all_sensors es

all_sensors-IsSensor : (es : List Periph) → all_sensors es ≡ true → All IsSensor es
unfolding all_sensors
all_sensors-IsSensor [] h = tt
all_sensors-IsSensor (e ∷ es) h = (
  record {
    lcd = ground (arith, h);
    touch = ground (arith, h);
    audio_out = ground (arith, h);
    audio_in = ground (arith, h);
  },
  all_sensors-IsSensor es (ground (arith, h)),
)

-- A valid registry with the same primary devices.
pub record Extends (d d' : DeviceTree) : Type 0 where
  pub valid : IsValid d'
  pub lcd : d'.primary_lcd ≡ d.primary_lcd
  pub touch : d'.primary_touch ≡ d.primary_touch
  pub audio_out : d'.primary_audio_out ≡ d.primary_audio_out
  pub audio_in : d'.primary_audio_in ≡ d.primary_audio_in

Extends-trans : (d d' d'' : DeviceTree) → Extends d d' → Extends d' d'' → Extends d d''
Extends-trans d d' d'' h g = record {
  valid = g.valid;
  lcd = g.lcd ∙ h.lcd;
  touch = g.touch ∙ h.touch;
  audio_out = g.audio_out ∙ h.audio_out;
  audio_in = g.audio_in ∙ h.audio_in;
}

Extends-refl : (d : DeviceTree) → IsValid d → Extends d d
Extends-refl d v = record { valid = v; lcd = refl; touch = refl; audio_out = refl; audio_in = refl }

Keeps-set_chip_id : (b : ℕ) → Keeps (set_chip_id b)
Keeps-set_chip_id b = record { category = λ n. refl; online = λ n. refl }

register_periph-Extends :
    (e : Periph) (addr b : ℕ) (d : DeviceTree)
    → IsSensor e
    → IsValid d
    → Extends d (register_periph e addr b d)
unfolding register_periph
register_periph-Extends e addr b d h v =
    let r = devtree_register e.name e.category bus_i2c 0 addr 0 d in
    let (l, t, o, i) = devtree_register-primary e.name e.category bus_i2c 0 addr 0 d in
    let (l', t', o', i') = fill_node-primary (set_chip_id b) r in
    record {
      valid =
          fill_node-IsValid (set_chip_id b) r (Keeps-set_chip_id b)
            (devtree_register-IsValid e.name e.category bus_i2c 0 addr 0 d v);
      lcd = l' ∙ l h.lcd;
      touch = t' ∙ t h.touch;
      audio_out = o' ∙ o h.audio_out;
      audio_in = i' ∙ i h.audio_in;
    }

module _ (reply : List Op → Option (List ℕ)) where
  try_addrs-Extends :
      (e : Periph) (as' : List ℕ) (s : List Op × DeviceTree)
      → IsSensor e
      → IsValid s.1
      → Extends s.1 (try_addrs reply e as' s).1
  unfolding try_addrs
  try_addrs-Extends e [] s h v = Extends-refl s.1 v
  try_addrs-Extends e (a ∷ more) s h v = elim (Bool-cases (a == 0)) [
    | inl z ↦ rw (z) (Extends-refl s.1 v)
    | inr z ↦ elim (Bool-cases (is_none (devtree_find_by_name e.name s.1))) [
      | inr c ↦ rw (z, c) (Extends-refl s.1 v)
      | inl c ↦ elim (Option-cases (i2c_read_reg8 reply a e.who_am_i_reg 1 s.0).0) [
        | inl n ↦ rw (z, c, n) (try_addrs-Extends e more _ h v)
        | inr (bs, n) ↦ elim (Bool-cases (who_am_i e (get_or bs 0 0))) [
          | inl w ↦ rw (z, c, n, w) (register_periph-Extends e a (get_or bs 0 0) s.1 h v)
          | inr w ↦ rw (z, c, n, w) (try_addrs-Extends e more _ h v)
        ]
      ]
    ]
  ]

  try_periphs-Extends :
      (es : List Periph) (s : List Op × DeviceTree)
      → All IsSensor es
      → IsValid s.1
      → Extends s.1 (try_periphs reply es s).1
  unfolding try_periphs
  try_periphs-Extends [] s h v = Extends-refl s.1 v
  try_periphs-Extends (e ∷ es) s h v =
      let first = try_addrs-Extends e e.addr s h.0 v in
      Extends-trans _ _ _ first
        (try_periphs-Extends es (try_addrs reply e e.addr s) h.1 first.valid)

  -- Whatever answers on the bus, the scan keeps the registry valid, within its table, and does not
  -- touch the primary devices.
  pub devtree_probe_sensors-Extends :
      (s : List Op × DeviceTree) → IsValid s.1 → Extends s.1 (devtree_probe_sensors reply s).1
  unfolding devtree_probe_sensors all_sensors
  devtree_probe_sensors-Extends s v =
      try_periphs-Extends s_periph_db s (all_sensors-IsSensor s_periph_db refl) v
