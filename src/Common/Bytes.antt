-- ===== src/Common/Bytes.antt =====
-- Bytes in memory: little-endian numbers, and writes into a buffer.
use Prim.Native.Nat.{ℕ, zero, suc, ◌+◌, ◌*◌, ◌/◌, ◌%◌, ◌≤◌, ◌<◌}
use mathlib.Core.Path.{◌≡◌, refl, ap}
use mathlib.Core.List.{List, [], ◌∷◌, ◌++◌}
use native.Mathlib.Omega.{arith}
use nanos_os.Common.Lists.{length, take, drop, get_or}

abbrev pub le16 : ℕ → List ℕ
le16 n = n % 256 ∷ n / 256 % 256 ∷ []

abbrev pub le32 : ℕ → List ℕ
le32 n = n % 256 ∷ n / 256 % 256 ∷ n / 65536 % 256 ∷ n / 16777216 % 256 ∷ []

-- The number that a buffer holds at its start.
abbrev pub u16_at : List ℕ → ℕ
u16_at d = get_or d 0 0 + get_or d 1 0 * 256

abbrev pub u32_at : List ℕ → ℕ
u32_at d = get_or d 0 0 + get_or d 1 0 * 256 + get_or d 2 0 * 65536 + get_or d 3 0 * 16777216

module _ {ℓ} {A : Type ℓ} where
  -- Bytes written at the start of a buffer; what does not fit changes nothing.
  abbrev pub overlay : List A → List A → List A
  overlay [] ys = ys
  overlay (x ∷ xs) [] = []
  overlay (x ∷ xs) (y ∷ ys) = x ∷ overlay xs ys

  abbrev pub store : ℕ → List A → List A → List A
  store i xs ys = take i ys ++ overlay xs (drop i ys)

  pub length-overlay : (xs ys : List A) → length (overlay xs ys) ≡ length ys
  length-overlay [] ys = refl
  length-overlay (x ∷ xs) [] = refl
  length-overlay (x ∷ xs) (y ∷ ys) = ap suc (length-overlay xs ys)

  pub length-store : (i : ℕ) (xs ys : List A) → length (store i xs ys) ≡ length ys
  length-store zero xs ys = length-overlay xs ys
  length-store (suc i) xs [] = length-overlay xs []
  length-store (suc i) xs (y ∷ ys) = ap suc (length-store i xs ys)

  get_or-overlay_in :
      (xs ys : List A) (j : ℕ) (d : A)
      → j < length xs
      → length xs ≤ length ys
      → get_or (overlay xs ys) j d ≡ get_or xs j d
  get_or-overlay_in [] ys j d h l = absurd (omega arith)
  get_or-overlay_in (x ∷ xs) [] j d h l = absurd (omega arith)
  get_or-overlay_in (x ∷ xs) (y ∷ ys) zero d h l = refl
  get_or-overlay_in (x ∷ xs) (y ∷ ys) (suc j) d h l =
      get_or-overlay_in xs ys j d (omega arith) (omega arith)

  get_or-overlay_out :
      (xs ys : List A) (j : ℕ) (d : A) → length xs ≤ j → get_or (overlay xs ys) j d ≡ get_or ys j d
  get_or-overlay_out [] ys j d h = refl
  get_or-overlay_out (x ∷ xs) [] j d h = refl
  get_or-overlay_out (x ∷ xs) (y ∷ ys) zero d h = absurd (omega arith)
  get_or-overlay_out (x ∷ xs) (y ∷ ys) (suc j) d h = get_or-overlay_out xs ys j d (omega arith)

  get_or-overlay_nil : (xs : List A) (j : ℕ) (d : A) → get_or (overlay xs []) j d ≡ d
  get_or-overlay_nil [] j d = refl
  get_or-overlay_nil (x ∷ xs) j d = refl

  -- A store changes the places from `i` on, and no others.
  pub get_or-store_in :
      (i : ℕ) (xs ys : List A) (j : ℕ) (d : A)
      → j < length xs
      → i + length xs ≤ length ys
      → get_or (store i xs ys) (i + j) d ≡ get_or xs j d
  get_or-store_in zero xs ys j d h l =
      let e : 0 + j ≡ j = omega arith in rw (e) (get_or-overlay_in xs ys j d h (omega arith))
  get_or-store_in (suc i) xs [] j d h l = absurd (omega arith)
  get_or-store_in (suc i) xs (y ∷ ys) j d h l =
      let e : suc i + j ≡ suc (i + j) = omega arith in
      rw (e) (get_or-store_in i xs ys j d h (omega arith))

  pub get_or-store_before :
      (i : ℕ) (xs ys : List A) (j : ℕ) (d : A) → j < i → get_or (store i xs ys) j d ≡ get_or ys j d
  get_or-store_before zero xs ys j d h = absurd (omega arith)
  get_or-store_before (suc i) xs [] j d h = get_or-overlay_nil xs j d
  get_or-store_before (suc i) xs (y ∷ ys) zero d h = refl
  get_or-store_before (suc i) xs (y ∷ ys) (suc j) d h =
      get_or-store_before i xs ys j d (omega arith)

  pub get_or-store_after :
      (i : ℕ) (xs ys : List A) (j : ℕ) (d : A)
      → i + length xs ≤ j
      → get_or (store i xs ys) j d ≡ get_or ys j d
  get_or-store_after zero xs ys j d h = get_or-overlay_out xs ys j d (omega arith)
  get_or-store_after (suc i) xs [] j d h = get_or-overlay_nil xs j d
  get_or-store_after (suc i) xs (y ∷ ys) zero d h = absurd (omega arith)
  get_or-store_after (suc i) xs (y ∷ ys) (suc j) d h = get_or-store_after i xs ys j d (omega arith)
