-- ===== src/Nfs/Lookup.antt =====
-- Which entry of the cache of fs/nfs.c has a block.
use mathlib.Core.Option
use nanos_os.Common.{
  ℕ, zero, suc, ◌+◌, ◌-◌, ◌<◌, ◌≤◌, ◌≡◌, ◌≢◌, refl, sym, subst, ◌∙◌, ◌⊎◌, inl, inr, true, false,
  List, [], ◌∷◌, arith, length, Option, none, some, get_or, set, get_or-set_self, get_or-set_ne,
  Bool-cases, Option-cases,
}
use nanos_os.Nfs.{Entry, no_entry, holds, cfind, oldest, victim}

abbrev pub at : List Entry → ℕ → Entry
at es n = get_or es n no_entry

pub at-set_self : (es : List Entry) (n : ℕ) (e : Entry) → n < length es → at (set es n e) n ≡ e
at-set_self es n e h = get_or-set_self es n e no_entry h

pub at-set_ne : (es : List Entry) (n m : ℕ) (e : Entry) → m ≢ n → at (set es n e) m ≡ at es m
at-set_ne es n m e h = get_or-set_ne es n m e no_entry h

pub holds_iff : (b : ℕ) (e : Entry) → holds b e ≡ true → (e.valid ≡ true) × (e.blk ≡ b)
unfolding holds
holds_iff b e h = ground arith

pub holds_self : (e : Entry) → e.valid ≡ true → holds e.blk e ≡ true
unfolding holds
holds_self e h = ground arith

map-none : (o : Option ℕ) → Option.map suc o ≡ none → o ≡ none
map-none none f = refl
map-none (some n) f = absurd (cc)

pub cfind-none : (b : ℕ) (es : List Entry) → cfind b es ≡ none → (n : ℕ) → holds b (at es n) ≡ false
unfolding cfind
cfind-none b [] f n = unfold holds in refl
cfind-none b (e ∷ es) f zero = elim (Bool-cases (holds b e)) [
  | inl c ↦ let g : some 0 ≡ none = rw (cfind, c) at f in absurd (cc)
  | inr c ↦ c
]
cfind-none b (e ∷ es) f (suc n) = elim (Bool-cases (holds b e)) [
  | inl c ↦ let g : some 0 ≡ none = rw (cfind, c) at f in absurd (cc)
  | inr c ↦ cfind-none b es (map-none (cfind b es) (rw (cfind, c) at f)) n
]

some_inj : {a c : ℕ} → some a ≡ some c → a ≡ c
some_inj h = cc

pub cfind-some :
    (b : ℕ) (es : List Entry) (n : ℕ)
    → cfind b es ≡ some n
    → (n < length es) × (holds b (at es n) ≡ true)
unfolding cfind
cfind-some b [] n f = absurd (cc)
cfind-some b (e ∷ es) n f = elim (Bool-cases (holds b e)) [
  | inl c ↦
      let g : n ≡ 0 = some_inj (sym f ∙ rw (cfind, c) refl) in
      subst (λ m. (m < suc (length es)) × (holds b (at (e ∷ es) m) ≡ true)) (sym g) (omega arith, c)
  | inr c ↦ elim (Option-cases (cfind b es)) [
    | inl g ↦ let q : none ≡ some n = rw (cfind, c, g) at f in absurd (cc)
    | inr (m, g) ↦
        let q : n ≡ suc m = some_inj (sym f ∙ rw (cfind, c, g) refl) in
        let r = cfind-some b es m g in
        subst (λ k. (k < suc (length es)) × (holds b (at (e ∷ es) k) ≡ true)) (sym q)
          (omega (arith, r.0), r.1)
  ]
]

-- The loop of `cevict` ends at one of the entries.
oldest_inside :
    (i best ot : ℕ) (es : List Entry)
    → best ≤ i
    → (oldest i best ot es < i + length es) ⊎ (oldest i best ot es ≡ best)
unfolding oldest
oldest_inside i best ot [] h = inr refl
oldest_inside i best ot (e ∷ es) h = ground (
  arith,
  oldest_inside (i + 1) i e.lu es (omega arith),
  oldest_inside (i + 1) best ot es (omega arith),
)

pub victim_inside : (es : List Entry) → 0 < length es → victim es < length es
victim_inside es h = ground (arith, oldest_inside 0 0 (0x1_0000_0000_0000_0000 - 1) es)
