-- ===== src/Common/Maps.antt =====
-- Maps from addresses to values: one map for each field of the structures in memory.
use Prim.Native.Nat.{ℕ}
use mathlib.Core.Path.{◌≡◌, sym}
use mathlib.Core.Logic.{◌≢◌, inl, inr}
use mathlib.Core.List.{List, [], ◌∷◌, ◌++◌}
use native.Mathlib.Omega.{arith}
use nanos_os.Common.Lists.{All}
use nanos_os.Common.Tests.{◌==◌, if◌then◌else◌, Bool-cases, ==_iff}

abbrev pub update {ℓ} : {A : Type ℓ} → (ℕ → A) → ℕ → A → ℕ → A
update f p v q = if p == q then v else f q

pub update_self {ℓ} : {A : Type ℓ} (f : ℕ → A) (p : ℕ) (v : A) → update f p v p ≡ v
update_self f p v = ground arith

pub update_ne {ℓ} : {A : Type ℓ} (f : ℕ → A) (p q : ℕ) (v : A) → p ≢ q → update f p v q ≡ f q
update_ne f p q v h = ground arith

-- To prove a property of two maps updated at one address, prove it there and elsewhere.
pub update_elim {ℓ κ λ'} :
    {A : Type ℓ} {B : Type κ} (P : A → B → Type λ') (f : ℕ → A) (g : ℕ → B) (p : ℕ) (v : A) (w : B)
    (q : ℕ)
    → (p ≡ q → P v w)
    → (p ≢ q → P (f q) (g q))
    → P (update f p v q) (update g p w q)
update_elim P f g p v w q here there = elim (Bool-cases (p == q)) [
  | inl e ↦ rw e (here ((==_iff p q).0 e))
  | inr e ↦ rw e (there (λ h. ground arith))
]

-- `a` is none of the addresses of the list.
abbrev pub Fresh : ℕ → List ℕ → Type 0
Fresh a [] = Unit {0}
Fresh a (x ∷ xs) = (a ≢ x) × Fresh a xs

pub All-Fresh : (a : ℕ) (xs : List ℕ) → Fresh a xs → All (λ x. a ≢ x) xs
All-Fresh a [] f = tt
All-Fresh a (x ∷ xs) f = (f.0, All-Fresh a xs f.1)

abbrev pub Distinct : List ℕ → Type 0
Distinct [] = Unit {0}
Distinct (x ∷ xs) = Fresh x xs × Distinct xs

pub Fresh-snoc : (a t : ℕ) (xs : List ℕ) → Fresh a xs → a ≢ t → Fresh a (xs ++ t ∷ [])
Fresh-snoc a t [] h ne = (ne, tt)
Fresh-snoc a t (x ∷ xs) h ne = (h.0, Fresh-snoc a t xs h.1 ne)

pub Distinct-snoc : (t : ℕ) (xs : List ℕ) → Distinct xs → Fresh t xs → Distinct (xs ++ t ∷ [])
Distinct-snoc t [] d f = (tt, tt)
Distinct-snoc t (x ∷ xs) d f =
    (Fresh-snoc x t xs d.0 (λ e. f.0 (sym e)), Distinct-snoc t xs d.1 f.1)
