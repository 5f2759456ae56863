-- ===== src/AudioProbe.antt =====
-- drivers/autodetect/audio_probe.c: which codec is connected, and how it is set up and registered.
-- The log lines are not modelled. `i2c_write_reg8` is in the trace; the code drops its result.
pub mod Sequences
pub mod Choice
pub mod Primary
mod Tests
use Prim.Native.Nat.{bit_and, bit_or}
use nanos_os.Common.{
  ℕ, zero, suc, ◌+◌, ◌*◌, ◌/◌, ◌%◌, Bool, true, false, Option, none, some, List, [], ◌∷◌, ◌==◌,
  ◌&&◌, ◌||◌, not, drop, get_elem?, get_or, replicate, if◌then◌else◌,
}
use nanos_os.I2c.{Op, write, delay, i2c_read_reg8}
use nanos_os.DevTree.{
  Node, DeviceTree, Caps, audio_caps, bus_i2c, bus_i2s, dev_audio_out, dev_audio_in,
  devtree_register, fill_node,
}
use nanos_os.AudioProbe.Sequences.{
  Step, sleep_ms, init_es8388, init_es8374, init_wm8978, init_wm8960, init_ac101, init_tlv320,
  init_uda1380,
}

-- The writes of `set_vol_fn`, in order, for a volume.
pub setvol_es8388 : ℕ → List Step
setvol_es8388 vol = Step.write 0x2E (vol / 4 % 0x100) ∷ Step.write 0x2F (vol / 4 % 0x100) ∷ []

pub setvol_wm8978 : ℕ → List Step
setvol_wm8978 vol =
    let v = vol * 255 / 255 % 0x100 in
    Sequences.wm_write 0x0A (bit_or 0x100 v) ∷ Sequences.wm_write 0x0B (bit_or 0x100 v) ∷ []

pub setvol_generic : ℕ → List Step
setvol_generic vol = []

-- `codec_entry_t`; `set_rate_fn` is NULL in all entries.
pub record Codec : Type 0 where
  pub name : List ℕ
  pub i2c_addr : List ℕ
  pub i2c_only : Bool
  pub id_reg : ℕ
  pub id_bytes : ℕ
  pub id_val : List ℕ
  pub id_mask : List ℕ
  pub max_rate : ℕ
  pub has_adc : Bool
  pub init_fn : Option (List Step)
  pub set_vol_fn : Option (ℕ → List Step)

abbrev pub s_codecs : List Codec
s_codecs =
    record {
      name = 0x45 ∷ 0x53 ∷ 0x38 ∷ 0x33 ∷ 0x38 ∷ 0x38 ∷ [];
      i2c_addr = 0x10 ∷ 0x11 ∷ [];
      i2c_only = false;
      id_reg = 0xFD;
      id_bytes = 2;
      id_val = 0x00 ∷ 0x88 ∷ [];
      id_mask = 0x00 ∷ 0xFF ∷ [];
      max_rate = 48000;
      has_adc = true;
      init_fn = some init_es8388;
      set_vol_fn = some setvol_es8388;
    }
    ∷ record {
      name = 0x45 ∷ 0x53 ∷ 0x38 ∷ 0x33 ∷ 0x37 ∷ 0x34 ∷ [];
      i2c_addr = 0x10 ∷ 0x00 ∷ [];
      i2c_only = false;
      id_reg = 0xFD;
      id_bytes = 1;
      id_val = 0x74 ∷ [];
      id_mask = 0xFF ∷ [];
      max_rate = 48000;
      has_adc = true;
      init_fn = some init_es8374;
      set_vol_fn = some setvol_es8388;
    }
    ∷ record {
      name = 0x57 ∷ 0x4D ∷ 0x38 ∷ 0x39 ∷ 0x37 ∷ 0x38 ∷ [];
      i2c_addr = 0x1A ∷ 0x00 ∷ [];
      i2c_only = false;
      id_reg = 0x00;
      id_bytes = 0;
      id_val = 0 ∷ [];
      id_mask = 0 ∷ [];
      max_rate = 96000;
      has_adc = true;
      init_fn = some init_wm8978;
      set_vol_fn = some setvol_wm8978;
    }
    ∷ record {
      name = 0x57 ∷ 0x4D ∷ 0x38 ∷ 0x39 ∷ 0x36 ∷ 0x30 ∷ [];
      i2c_addr = 0x1A ∷ 0x00 ∷ [];
      i2c_only = false;
      id_reg = 0x00;
      id_bytes = 0;
      id_val = 0 ∷ [];
      id_mask = 0 ∷ [];
      max_rate = 48000;
      has_adc = true;
      init_fn = some init_wm8960;
      set_vol_fn = some setvol_wm8978;
    }
    ∷ record {
      name = 0x41 ∷ 0x43 ∷ 0x31 ∷ 0x30 ∷ 0x31 ∷ [];
      i2c_addr = 0x1A ∷ 0x00 ∷ [];
      i2c_only = false;
      id_reg = 0x00;
      id_bytes = 2;
      id_val = 0xAC ∷ 0x10 ∷ [];
      id_mask = 0xFF ∷ 0xFF ∷ [];
      max_rate = 48000;
      has_adc = true;
      init_fn = some init_ac101;
      set_vol_fn = some setvol_generic;
    }
    ∷ record {
      name = 0x54 ∷ 0x4C ∷ 0x56 ∷ 0x33 ∷ 0x32 ∷ 0x30 ∷ [];
      i2c_addr = 0x18 ∷ 0x19 ∷ [];
      i2c_only = false;
      id_reg = 0x00;
      id_bytes = 1;
      id_val = 0x00 ∷ [];
      id_mask = 0x00 ∷ [];
      max_rate = 192000;
      has_adc = true;
      init_fn = some init_tlv320;
      set_vol_fn = some setvol_generic;
    }
    ∷ record {
      name = 0x55 ∷ 0x44 ∷ 0x41 ∷ 0x31 ∷ 0x33 ∷ 0x38 ∷ 0x30 ∷ [];
      i2c_addr = 0x18 ∷ 0x19 ∷ [];
      i2c_only = false;
      id_reg = 0x00;
      id_bytes = 2;
      id_val = 0x18 ∷ 0x80 ∷ [];
      id_mask = 0xFF ∷ 0xF0 ∷ [];
      max_rate = 48000;
      has_adc = true;
      init_fn = some init_uda1380;
      set_vol_fn = some setvol_generic;
    }
    ∷ record {
      name = 0x50 ∷ 0x43 ∷ 0x4D ∷ 0x35 ∷ 0x31 ∷ 0x30 ∷ 0x32 ∷ 0x41 ∷ [];
      i2c_addr = 0x00 ∷ 0x00 ∷ [];
      i2c_only = true;
      id_reg = 0;
      id_bytes = 0;
      id_val = 0 ∷ [];
      id_mask = 0 ∷ [];
      max_rate = 384000;
      has_adc = false;
      init_fn = none;
      set_vol_fn = none;
    }
    ∷ record {
      name = 0x4D ∷ 0x41 ∷ 0x58 ∷ 0x39 ∷ 0x38 ∷ 0x33 ∷ 0x35 ∷ 0x37 ∷ 0x41 ∷ [];
      i2c_addr = 0x00 ∷ 0x00 ∷ [];
      i2c_only = true;
      id_reg = 0;
      id_bytes = 0;
      id_val = 0 ∷ [];
      id_mask = 0 ∷ [];
      max_rate = 48000;
      has_adc = false;
      init_fn = none;
      set_vol_fn = none;
    }
    ∷ []

pub run_step : ℕ → Step → List Op → List Op
run_step addr (Step.write r v) tr = write addr r v ∷ tr
run_step addr (sleep_ms t) tr = delay t ∷ tr

pub run_steps : ℕ → List Step → List Op → List Op
unfolding run_step
run_steps addr [] tr = tr
run_steps addr (s ∷ ss) tr = run_steps addr ss (run_step addr s tr)

-- A byte with no bit in its mask is not looked at.
pub id_match : List ℕ → List ℕ → List ℕ → Bool
id_match [] id mask = true
id_match (b ∷ bs) id mask =
    let m = get_or mask 0 0 in
    ((m == 0) || (bit_and b m == bit_and (get_or id 0 0) m))
    && id_match bs (drop 1 id) (drop 1 mask)

abbrev pub or_zeros : ℕ → Option (List ℕ) → List ℕ
or_zeros n none = replicate n 0
or_zeros n (some bs) = bs

-- `s_audio_codec` holds the index of the codec and its address, with 48000 Hz and 16 bits.
pub record Audio : Type 0 where
  pub trace : List Op
  pub tree : DeviceTree
  pub codec : Option (ℕ × ℕ)

-- The driver number of `s_audio_driver`.
abbrev pub audio_driver : ℕ
audio_driver = 2

-- `audio_drv_ioctl` with IOCTL_AUDIO_SET_VOL, where a codec is set.
pub audio_set_vol : ℕ → Audio → Audio
unfolding run_steps
audio_set_vol vol s = elim s.codec [
  | none ↦ s
  | some (i, addr) ↦ elim (get_elem? s_codecs i) [
    | none ↦ s
    | some c ↦ elim c.set_vol_fn [
      | none ↦ s
      | some f ↦ record s { trace = run_steps addr (f vol) s.trace }
    ]
  ]
]

abbrev pub or_pcm5102a : Option (ℕ × ℕ) → ℕ × ℕ
or_pcm5102a none = (7, 0x00)
or_pcm5102a (some r) = r

abbrev pub init_trace : ℕ → Option (List Step) → List Op → List Op
init_trace addr none tr = tr
init_trace addr (some ss) tr = run_steps addr ss tr

abbrev pub set_caps : Codec → Node → Node
set_caps c n = record n { caps = audio_caps c.max_rate 32 2 true c.has_adc true }

abbrev pub register_new : Codec → ℕ → DeviceTree → Option ℕ × DeviceTree
register_new c addr d =
    devtree_register c.name (if c.has_adc then dev_audio_out + dev_audio_in else dev_audio_out)
      (if addr == 0 then bus_i2s else bus_i2c) 0 addr audio_driver d

pub register_codec : Codec → ℕ → DeviceTree → DeviceTree
register_codec c addr d = fill_node (set_caps c) (register_new c addr d)

module _ (reply : List Op → Option (List ℕ)) where
  -- The ID bytes that are compared.
  pub read_id : Codec → ℕ → List Op → List ℕ × List Op
  unfolding i2c_read_reg8
  read_id c addr tr =
      let (r, tr1) = i2c_read_reg8 reply addr c.id_reg c.id_bytes tr in
      if c.id_bytes == 0 then ([], tr) else (or_zeros c.id_bytes r, tr1)

  -- The inner loop of `probe_codec`, at the index `ci` of the table.
  pub identify : ℕ → ℕ → List Codec → List Op → Option ℕ × List Op
  unfolding read_id id_match
  identify addr ci [] tr = (none, tr)
  identify addr ci (c ∷ cs) tr =
      let (id, tr1) = read_id c addr tr in
      let skip = identify addr (ci + 1) cs tr in
      let rest = identify addr (ci + 1) cs tr1 in
      if c.i2c_only
      then skip
      else (if not (get_or c.i2c_addr 0 0 == addr) && not (get_or c.i2c_addr 1 0 == addr)
          then skip
          else (if id_match id c.id_val c.id_mask || (c.id_bytes == 0)
              then (some ci, tr1)
              else rest))

  -- The outer loop: the index of the codec, and its address.
  pub probe_addrs : List ℕ → List Op → Option (ℕ × ℕ) × List Op
  unfolding identify i2c_read_reg8
  probe_addrs [] tr = (none, tr)
  probe_addrs (addr ∷ more) tr =
      let (r, tr1) = i2c_read_reg8 reply addr 0x00 1 tr in
      let (found, tr2) = identify addr 0 s_codecs tr1 in
      let absent = probe_addrs more tr1 in
      let unknown = probe_addrs more tr2 in
      elim r [
        | none ↦ absent
        | some bs ↦ elim found [ none ↦ unknown | some ci ↦ (some (ci, addr), tr2) ]
      ]

  pub probe_codec : List Op → Option (ℕ × ℕ) × List Op
  unfolding probe_addrs
  probe_codec tr = probe_addrs (0x10 ∷ 0x11 ∷ 0x18 ∷ 0x19 ∷ 0x1A ∷ []) tr

  pub devtree_probe_audio : Audio → Audio
  unfolding probe_codec run_steps register_codec
  devtree_probe_audio s =
      let (found, tr1) = probe_codec s.trace in
      let (i, addr) = or_pcm5102a found in
      elim (get_elem? s_codecs i) [
        | none ↦ s
        | some c ↦ record {
          trace = init_trace addr c.init_fn tr1;
          tree = register_codec c addr s.tree;
          codec = some (i, addr);
        }
      ]
