-- ===== src/AudioProbe/Sequences.antt =====
-- drivers/autodetect/audio_probe.c: the codecs' init sequences: what each function does before it
-- returns K_OK, without its log line.
use nanos_os.Common.{ℕ, List, [], ◌∷◌, ◌+◌, ◌*◌, ◌%◌, ◌/◌}

-- `i2c_write_reg8` of a value to a register of the codec, and `task_sleep_ms`.
pub data Step : Type 0 where
  write : ℕ → ℕ → Step
  sleep_ms : ℕ → Step

-- `WM_WRITE`: nine bits of data, the highest of them in the register's byte.
abbrev pub wm_write : ℕ → ℕ → Step
wm_write r v = write ((r * 2 + v / 0x100) % 0x100) (v % 0x100)

pub init_es8388 : List Step
init_es8388 =
    write 0x08 0x00
    ∷ write 0x04 0xC0
    ∷ write 0x00 0x35
    ∷ write 0x01 0x50
    ∷ write 0x02 0x72
    ∷ write 0x03 0x59
    ∷ write 0x0D 0x06
    ∷ write 0x0E 0x00
    ∷ write 0x2E 0x1E
    ∷ write 0x2F 0x1E
    ∷ write 0x30 0x1E
    ∷ write 0x31 0x1E
    ∷ write 0x27 0xB8
    ∷ write 0x28 0xB8
    ∷ write 0x29 0xB8
    ∷ write 0x2A 0xB8
    ∷ write 0x08 0x80
    ∷ write 0x09 0x00
    ∷ write 0x0C 0x0C
    ∷ write 0x04 0x00
    ∷ []

pub init_es8374 : List Step
init_es8374 =
    write 0x00 0x3F
    ∷ sleep_ms 10
    ∷ write 0x00 0x00
    ∷ write 0x01 0x10
    ∷ write 0x06 0x34
    ∷ write 0x0A 0x08
    ∷ write 0x10 0x0D
    ∷ write 0x11 0x00
    ∷ write 0x12 0xC0
    ∷ write 0x14 0x04
    ∷ []

pub init_wm8978 : List Step
init_wm8978 =
    wm_write 0x00 0x000
    ∷ sleep_ms 10
    ∷ wm_write 0x01 0x1FF
    ∷ wm_write 0x02 0x1BF
    ∷ wm_write 0x03 0x06F
    ∷ wm_write 0x04 0x010
    ∷ wm_write 0x06 0x000
    ∷ wm_write 0x0A 0x1FF
    ∷ wm_write 0x0B 0x1FF
    ∷ wm_write 0x34 0x12B
    ∷ wm_write 0x35 0x12B
    ∷ wm_write 0x32 0x112
    ∷ wm_write 0x33 0x112
    ∷ []

pub init_wm8960 : List Step
init_wm8960 =
    write 0x1E 0x00
    ∷ sleep_ms 10
    ∷ write 0x19 0xFF
    ∷ write 0x1A 0xFF
    ∷ write 0x2F 0x0F
    ∷ write 0x07 0x02
    ∷ write 0x0A 0xFF
    ∷ write 0x0B 0xFF
    ∷ write 0x28 0x37
    ∷ write 0x29 0x37
    ∷ []

pub init_ac101 : List Step
init_ac101 =
    write 0x00 0x12
    ∷ sleep_ms 10
    ∷ write 0x01 0x14
    ∷ write 0x04 0x60
    ∷ write 0x07 0xFD
    ∷ write 0xA0 0x80
    ∷ write 0xA1 0x80
    ∷ write 0x58 0xA0
    ∷ []

pub init_tlv320 : List Step
init_tlv320 =
    write 0x00 0x00
    ∷ write 0x01 0x80
    ∷ sleep_ms 10
    ∷ write 0x02 0x00
    ∷ write 0x09 0x01
    ∷ write 0x25 0xC0
    ∷ write 0x47 0x80
    ∷ write 0x51 0x09
    ∷ write 0x47 0x00
    ∷ write 0x48 0x00
    ∷ []

pub init_uda1380 : List Step
init_uda1380 =
    write 0x00 0xA5 ∷ write 0x01 0x03 ∷ write 0x02 0x05 ∷ write 0x10 0x00 ∷ write 0x11 0x00 ∷ []
