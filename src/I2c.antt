-- ===== src/I2c.antt =====
-- The I2C bus as drivers/autodetect sees it: `i2c_read_reg8` and `i2c_read_reg16` of
-- touch_probe.c and `i2c_write_reg8` of
-- audio_probe.c. A trace lists the transactions, the latest first. What a chip answers is not in the
-- code: the parameter `reply` gives the answer to the transaction that ends a trace, or none if the
-- controller does not report its end in the rounds that the functions wait.
use nanos_os.Common.{ℕ, zero, suc, ◌%◌, Option, none, some, List, [], ◌∷◌, drop, get_or}

pub data Op : Type 0 where
  read read16 write : (addr reg arg : ℕ) → Op
  delay : ℕ → Op

-- The first `n` bytes.
abbrev pub bytes : ℕ → List ℕ → List ℕ
bytes zero bs = []
bytes (suc n) bs = get_or bs 0 0 % 0x100 ∷ bytes n (drop 1 bs)

module _ (reply : List Op → Option (List ℕ)) where
  -- none is K_ERR_TIMEOUT, which leaves the buffer as it was.
  unfoldable pub i2c_read_reg8 : ℕ → ℕ → ℕ → List Op → Option (List ℕ) × List Op
  i2c_read_reg8 addr reg len tr =
      let tr1 = read addr reg len ∷ tr in
      (elim (reply tr1) [ none ↦ none | some bs ↦ some (bytes len bs) ], tr1)

  -- With a register of 16 bits.
  unfoldable pub i2c_read_reg16 : ℕ → ℕ → ℕ → List Op → Option (List ℕ) × List Op
  i2c_read_reg16 addr reg len tr =
      let tr1 = read16 addr reg len ∷ tr in
      (elim (reply tr1) [ none ↦ none | some bs ↦ some (bytes len bs) ], tr1)
