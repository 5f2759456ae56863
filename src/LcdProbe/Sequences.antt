-- ===== src/LcdProbe/Sequences.antt =====
-- drivers/autodetect/lcd_probe.c: the panels' init sequences, each for the width `w` and the height
-- `h`: what each function does after `panel_reset` and before it returns K_OK, without its log line.
use nanos_os.Common.{ℕ, List, [], ◌∷◌, ◌+◌, ◌-◌, ◌%◌, ◌/◌}
use nanos_os.Kernel.{u16_mod}

-- `LCMD`, `LDAT`, `task_sleep_ms` and `RA_WRITE_REG`.
pub data Step : Type 0 where
  cmd dat sleep_ms : ℕ → Step
  reg : ℕ → ℕ → Step

-- The low 16 bits of `x - 1`.
abbrev pub pred16 : ℕ → ℕ
pred16 x = (x + u16_mod - 1) % u16_mod

pub init_ili9341 : ℕ → ℕ → List Step
init_ili9341 w h =
    cmd 0xC0
    ∷ dat 0x23
    ∷ cmd 0xC1
    ∷ dat 0x10
    ∷ cmd 0xC5
    ∷ dat 0x3E
    ∷ dat 0x28
    ∷ cmd 0xC7
    ∷ dat 0x86
    ∷ cmd 0x36
    ∷ dat 0x48
    ∷ cmd 0x3A
    ∷ dat 0x55
    ∷ cmd 0xB1
    ∷ dat 0x00
    ∷ dat 0x18
    ∷ cmd 0xB6
    ∷ dat 0x08
    ∷ dat 0x82
    ∷ dat 0x27
    ∷ cmd 0xE0
    ∷ dat 0x0F
    ∷ dat 0x31
    ∷ dat 0x2B
    ∷ dat 0x0C
    ∷ dat 0x0E
    ∷ dat 0x08
    ∷ dat 0x4E
    ∷ dat 0xF1
    ∷ dat 0x37
    ∷ dat 0x07
    ∷ dat 0x10
    ∷ dat 0x03
    ∷ dat 0x0E
    ∷ dat 0x09
    ∷ dat 0x00
    ∷ cmd 0xE1
    ∷ dat 0x00
    ∷ dat 0x0E
    ∷ dat 0x14
    ∷ dat 0x03
    ∷ dat 0x11
    ∷ dat 0x07
    ∷ dat 0x31
    ∷ dat 0xC1
    ∷ dat 0x48
    ∷ dat 0x08
    ∷ dat 0x0F
    ∷ dat 0x0C
    ∷ dat 0x31
    ∷ dat 0x36
    ∷ dat 0x0F
    ∷ cmd 0x11
    ∷ sleep_ms 120
    ∷ cmd 0x29
    ∷ []

pub init_ili9488 : ℕ → ℕ → List Step
init_ili9488 w h =
    cmd 0xE0
    ∷ dat 0x00
    ∷ dat 0x00
    ∷ dat 0x00
    ∷ dat 0x00
    ∷ dat 0x00
    ∷ dat 0x00
    ∷ dat 0x00
    ∷ dat 0x00
    ∷ dat 0x00
    ∷ dat 0x00
    ∷ dat 0x00
    ∷ dat 0x00
    ∷ dat 0x00
    ∷ dat 0x00
    ∷ dat 0x00
    ∷ cmd 0xE1
    ∷ dat 0x00
    ∷ dat 0x00
    ∷ dat 0x00
    ∷ dat 0x00
    ∷ dat 0x00
    ∷ dat 0x00
    ∷ dat 0x00
    ∷ dat 0x00
    ∷ dat 0x00
    ∷ dat 0x00
    ∷ dat 0x00
    ∷ dat 0x00
    ∷ dat 0x00
    ∷ dat 0x00
    ∷ dat 0x00
    ∷ cmd 0xC0
    ∷ dat 0x10
    ∷ dat 0x10
    ∷ cmd 0xC1
    ∷ dat 0x41
    ∷ cmd 0xC5
    ∷ dat 0x00
    ∷ dat 0x22
    ∷ dat 0x80
    ∷ cmd 0x36
    ∷ dat 0x48
    ∷ cmd 0x3A
    ∷ dat 0x66
    ∷ cmd 0xB0
    ∷ dat 0x00
    ∷ cmd 0xB1
    ∷ dat 0xA0
    ∷ cmd 0xB4
    ∷ dat 0x02
    ∷ cmd 0xB6
    ∷ dat 0x02
    ∷ dat 0x02
    ∷ cmd 0xE9
    ∷ dat 0x00
    ∷ cmd 0xF7
    ∷ dat 0xA9
    ∷ dat 0x51
    ∷ dat 0x2C
    ∷ dat 0x82
    ∷ cmd 0x11
    ∷ sleep_ms 120
    ∷ cmd 0x29
    ∷ []

pub init_st7789 : ℕ → ℕ → List Step
init_st7789 w h =
    cmd 0x01
    ∷ sleep_ms 150
    ∷ cmd 0x11
    ∷ sleep_ms 10
    ∷ cmd 0x3A
    ∷ dat 0x55
    ∷ cmd 0x36
    ∷ dat 0x00
    ∷ cmd 0x2A
    ∷ dat 0
    ∷ dat 0
    ∷ dat (pred16 w / 0x100)
    ∷ dat (pred16 w % 0x100)
    ∷ cmd 0x2B
    ∷ dat 0
    ∷ dat 0
    ∷ dat (pred16 h / 0x100)
    ∷ dat (pred16 h % 0x100)
    ∷ cmd 0x21
    ∷ cmd 0x13
    ∷ cmd 0x29
    ∷ sleep_ms 10
    ∷ []

pub init_st7735 : ℕ → ℕ → List Step
init_st7735 w h =
    cmd 0x01
    ∷ sleep_ms 150
    ∷ cmd 0x11
    ∷ sleep_ms 500
    ∷ cmd 0xB1
    ∷ dat 0x01
    ∷ dat 0x2C
    ∷ dat 0x2D
    ∷ cmd 0xB2
    ∷ dat 0x01
    ∷ dat 0x2C
    ∷ dat 0x2D
    ∷ cmd 0xB3
    ∷ dat 0x01
    ∷ dat 0x2C
    ∷ dat 0x2D
    ∷ dat 0x01
    ∷ dat 0x2C
    ∷ dat 0x2D
    ∷ cmd 0xB4
    ∷ dat 0x07
    ∷ cmd 0xC0
    ∷ dat 0xA2
    ∷ dat 0x02
    ∷ dat 0x84
    ∷ cmd 0xC1
    ∷ dat 0xC5
    ∷ cmd 0xC2
    ∷ dat 0x0A
    ∷ dat 0x00
    ∷ cmd 0xC3
    ∷ dat 0x8A
    ∷ dat 0x2A
    ∷ cmd 0xC4
    ∷ dat 0x8A
    ∷ dat 0xEE
    ∷ cmd 0xC5
    ∷ dat 0x0E
    ∷ cmd 0x36
    ∷ dat 0xC0
    ∷ cmd 0x3A
    ∷ dat 0x05
    ∷ cmd 0x29
    ∷ []

pub init_gc9a01 : ℕ → ℕ → List Step
init_gc9a01 w h =
    cmd 0xEF
    ∷ cmd 0xEB
    ∷ dat 0x14
    ∷ cmd 0xFE
    ∷ cmd 0xEF
    ∷ cmd 0xEB
    ∷ dat 0x14
    ∷ cmd 0x84
    ∷ dat 0x40
    ∷ cmd 0x85
    ∷ dat 0xFF
    ∷ cmd 0x90
    ∷ dat 0x08
    ∷ dat 0x08
    ∷ dat 0x08
    ∷ dat 0x08
    ∷ cmd 0xBD
    ∷ dat 0x06
    ∷ cmd 0xBC
    ∷ dat 0x00
    ∷ cmd 0xFF
    ∷ dat 0x60
    ∷ dat 0x01
    ∷ dat 0x04
    ∷ cmd 0xC3
    ∷ dat 0x13
    ∷ cmd 0xC4
    ∷ dat 0x13
    ∷ cmd 0xC9
    ∷ dat 0x22
    ∷ cmd 0xBE
    ∷ dat 0x11
    ∷ cmd 0xE1
    ∷ dat 0x10
    ∷ dat 0x0E
    ∷ cmd 0xDF
    ∷ dat 0x21
    ∷ dat 0x0C
    ∷ dat 0x02
    ∷ cmd 0xF0
    ∷ dat 0x45
    ∷ dat 0x09
    ∷ dat 0x08
    ∷ dat 0x08
    ∷ dat 0x26
    ∷ dat 0x2A
    ∷ cmd 0xF1
    ∷ dat 0x43
    ∷ dat 0x70
    ∷ dat 0x72
    ∷ dat 0x36
    ∷ dat 0x37
    ∷ dat 0x6F
    ∷ cmd 0xF2
    ∷ dat 0x45
    ∷ dat 0x09
    ∷ dat 0x08
    ∷ dat 0x08
    ∷ dat 0x26
    ∷ dat 0x2A
    ∷ cmd 0xF3
    ∷ dat 0x43
    ∷ dat 0x70
    ∷ dat 0x72
    ∷ dat 0x36
    ∷ dat 0x37
    ∷ dat 0x6F
    ∷ cmd 0x3A
    ∷ dat 0x05
    ∷ cmd 0x36
    ∷ dat 0x08
    ∷ cmd 0x21
    ∷ cmd 0x11
    ∷ sleep_ms 120
    ∷ cmd 0x29
    ∷ sleep_ms 20
    ∷ []

pub init_nt35510 : ℕ → ℕ → List Step
init_nt35510 w h =
    cmd 0xF0
    ∷ dat 0x55
    ∷ dat 0xAA
    ∷ dat 0x52
    ∷ dat 0x08
    ∷ dat 0x01
    ∷ cmd 0xB0
    ∷ dat 0x09
    ∷ dat 0x09
    ∷ cmd 0xB6
    ∷ dat 0x35
    ∷ cmd 0xB7
    ∷ dat 0x35
    ∷ cmd 0xBA
    ∷ dat 0x25
    ∷ cmd 0xBD
    ∷ dat 0x01
    ∷ dat 0x84
    ∷ dat 0x07
    ∷ dat 0x31
    ∷ dat 0x00
    ∷ cmd 0xBE
    ∷ dat 0x01
    ∷ dat 0x84
    ∷ dat 0x07
    ∷ dat 0x31
    ∷ dat 0x00
    ∷ cmd 0xBF
    ∷ dat 0x01
    ∷ dat 0x84
    ∷ dat 0x07
    ∷ dat 0x31
    ∷ dat 0x00
    ∷ cmd 0xD1
    ∷ dat 0x00
    ∷ dat 0x00
    ∷ dat 0x00
    ∷ dat 0x79
    ∷ cmd 0x3A
    ∷ dat 0x77
    ∷ cmd 0x11
    ∷ sleep_ms 200
    ∷ cmd 0x29
    ∷ []

pub init_hx8357d : ℕ → ℕ → List Step
init_hx8357d w h =
    cmd 0xB9
    ∷ dat 0xFF
    ∷ dat 0x83
    ∷ dat 0x57
    ∷ cmd 0xB3
    ∷ dat 0x80
    ∷ dat 0x00
    ∷ dat 0x06
    ∷ dat 0x06
    ∷ cmd 0xB6
    ∷ dat 0x25
    ∷ cmd 0xB0
    ∷ dat 0x68
    ∷ cmd 0xCC
    ∷ dat 0x05
    ∷ cmd 0xB1
    ∷ dat 0x00
    ∷ dat 0x15
    ∷ dat 0x1C
    ∷ dat 0x1C
    ∷ dat 0x83
    ∷ dat 0xAA
    ∷ cmd 0xC0
    ∷ dat 0x50
    ∷ dat 0x50
    ∷ dat 0x01
    ∷ dat 0x3C
    ∷ dat 0x1E
    ∷ dat 0x08
    ∷ cmd 0xB4
    ∷ dat 0x02
    ∷ cmd 0x3A
    ∷ dat 0x55
    ∷ cmd 0x36
    ∷ dat 0xC0
    ∷ cmd 0x11
    ∷ sleep_ms 150
    ∷ cmd 0x29
    ∷ sleep_ms 10
    ∷ []

pub init_ssd1351 : ℕ → ℕ → List Step
init_ssd1351 w h =
    cmd 0xFD
    ∷ dat 0x12
    ∷ cmd 0xFD
    ∷ dat 0xB1
    ∷ cmd 0xAE
    ∷ cmd 0xB3
    ∷ dat 0xF1
    ∷ cmd 0xCA
    ∷ dat 0x7F
    ∷ cmd 0xA0
    ∷ dat 0x74
    ∷ cmd 0x15
    ∷ dat 0x00
    ∷ dat 0x7F
    ∷ cmd 0x75
    ∷ dat 0x00
    ∷ dat 0x7F
    ∷ cmd 0xA1
    ∷ dat 0x00
    ∷ cmd 0xA2
    ∷ dat 0x00
    ∷ cmd 0xB5
    ∷ dat 0x00
    ∷ cmd 0xAB
    ∷ dat 0x01
    ∷ cmd 0xB1
    ∷ dat 0x32
    ∷ cmd 0xBE
    ∷ dat 0x05
    ∷ cmd 0xA6
    ∷ cmd 0xC1
    ∷ dat 0xC8
    ∷ dat 0x80
    ∷ dat 0xC8
    ∷ cmd 0xC7
    ∷ dat 0x0F
    ∷ cmd 0xB4
    ∷ dat 0xA0
    ∷ dat 0xB5
    ∷ dat 0x55
    ∷ cmd 0xAF
    ∷ sleep_ms 100
    ∷ []

pub init_ra8875 : ℕ → ℕ → List Step
init_ra8875 w h =
    reg 0x88 0x0B
    ∷ sleep_ms 1
    ∷ reg 0x89 0x02
    ∷ sleep_ms 1
    ∷ reg 0x10 0x0C
    ∷ reg 0x14 (pred16 w % 0x100)
    ∷ reg 0x15 (pred16 w / 0x100)
    ∷ reg 0x19 (pred16 h % 0x100)
    ∷ reg 0x1A (pred16 h / 0x100)
    ∷ reg 0x01 0x80
    ∷ sleep_ms 50
    ∷ reg 0x01 0x00
    ∷ reg 0x40 0x80
    ∷ reg 0x13 0x00
    ∷ sleep_ms 200
    ∷ []

pub init_st7701s : ℕ → ℕ → List Step
init_st7701s w h =
    cmd 0xFF
    ∷ dat 0x77
    ∷ dat 0x01
    ∷ dat 0x00
    ∷ dat 0x00
    ∷ dat 0x10
    ∷ cmd 0xC0
    ∷ dat 0x3B
    ∷ dat 0x00
    ∷ cmd 0xC2
    ∷ dat 0x01
    ∷ dat 0x02
    ∷ cmd 0xCC
    ∷ dat 0x10
    ∷ cmd 0x3A
    ∷ dat 0x55
    ∷ cmd 0x36
    ∷ dat 0x00
    ∷ cmd 0x11
    ∷ sleep_ms 120
    ∷ cmd 0x29
    ∷ sleep_ms 20
    ∷ []
