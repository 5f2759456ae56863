-- ===== src/Common/Loops.antt =====
-- The loops that count up from 0.
use Prim.Native.Nat.{ℕ, zero, suc}

-- A loop over 0, ..., n - 1
abbrev pub each {ℓ} : {S : Type ℓ} → ℕ → (ℕ → S → S) → S → S
each zero body s = s
each (suc n) body s = body n (each n body s)
