-- ===== src/Common/Chain.antt =====
-- Singly linked lists in memory, and the loop that the kernel inserts with:
-- `while (*pp && go(*pp)) pp = &(*pp)->next; t->next = *pp; *pp = t;`
-- It stands in `sleep_enqueue`, `k_mutex_lock`, `k_sem_take` and `k_timer_start` of
-- kernel/scheduler.c, each with a test `go` of its own.
use mathlib.Core.Option
use Prim.Native.Nat.{ℕ, zero, suc, ◌≤◌, ◌<◌}
use mathlib.Core.Path.{◌≡◌, refl, sym, ◌∙◌}
use mathlib.Core.Logic.{◌≢◌, inl, inr}
use mathlib.Core.Bool.{Bool, false}
use mathlib.Core.Option.{Option, none, some}
use mathlib.Core.List.{List, [], ◌∷◌}
use native.Mathlib.Omega.{arith}
use nanos_os.Common.Tests.{◌==◌, if◌then◌else◌, Bool-cases, leb, leb→le}
use nanos_os.Common.Lists.{length, All}
use nanos_os.Common.Maps.{update, update_self, Fresh, Distinct}

-- The links `nx` lead from `h` through the addresses of the list to NULL.
abbrev pub Chain : (ℕ → ℕ) → ℕ → List ℕ → Type 0
Chain nx h [] = h ≡ 0
Chain nx h (x ∷ xs) = (h ≡ x) × (x ≢ 0) × Chain nx (nx x) xs

pub Chain-update :
    (nx : ℕ → ℕ) (h : ℕ) (xs : List ℕ) (c v : ℕ)
    → Chain nx h xs
    → Fresh c xs
    → Chain (update nx c v) h xs
Chain-update nx h [] c v r f = r
Chain-update nx h (x ∷ xs) c v r f = (r.0, r.1, rw same (Chain-update nx (nx x) xs c v r.2 f.1))
  where
    same : update nx c v x ≡ nx x
    same = ground (arith, f.0)

-- The links may change off the chain.
pub Chain-frame :
    (nx nx' : ℕ → ℕ) (h : ℕ) (xs : List ℕ)
    → Chain nx h xs
    → All (λ u. nx' u ≡ nx u) xs
    → Chain nx' h xs
Chain-frame nx nx' h [] r e = r
Chain-frame nx nx' h (x ∷ xs) r e = (r.0, r.1, rw e.0 (Chain-frame nx nx' (nx x) xs r.2 e.1))

-- Where the loop stops: the node before the slot (none for the head), and what the slot holds.
-- The result is none if the fuel runs out.
unfoldable pub walk : ℕ → (ℕ → Bool) → (ℕ → ℕ) → Option ℕ → ℕ → Option (Option ℕ × ℕ)
walk zero go nx pp c = none
walk (suc f) go nx pp c =
    let rest = walk f go nx (some c) (nx c) in
    if c == 0 then some (pp, c) else if go c then rest else some (pp, c)

-- `t->next = *pp; *pp = t;` gives the new head and the new links.
unfoldable pub link : (ℕ → ℕ) → ℕ → ℕ → Option ℕ × ℕ → ℕ × (ℕ → ℕ)
link nx head t (none, c) = (t, update nx t c)
link nx head t (some p, c) = (head, update (update nx t c) p t)

unfoldable pub chain_insert : ℕ → (ℕ → Bool) → (ℕ → ℕ) → ℕ → ℕ → Option (ℕ × (ℕ → ℕ))
unfolding walk link
chain_insert fuel go nx head t = Option.map (link nx head t) (walk fuel go nx none head)

-- The same on lists: `t` goes before the first element that fails the test.
unfoldable pub insert_after : (ℕ → Bool) → ℕ → List ℕ → List ℕ
insert_after go t [] = t ∷ []
insert_after go t (x ∷ xs) = if go x then x ∷ insert_after go t xs else t ∷ x ∷ xs

-- The walk from a node that precedes the chain.
abbrev Linked : (ℕ → ℕ) → (ℕ → Bool) → ℕ → ℕ → List ℕ → Option (Option ℕ × ℕ) → Type 0
Linked nx go p t xs w =
    (p' : ℕ) × (c' : ℕ) × (w ≡ some (some p', c'))
    × Chain (update (update nx t c') p' t) (update (update nx t c') p' t p) (insert_after go t xs)
    × ((u : ℕ) → u ≢ p → u ≢ t → Fresh u xs → update (update nx t c') p' t u ≡ nx u)

walk_lem :
    (nx : ℕ → ℕ) (go : ℕ → Bool) (t : ℕ) (xs : List ℕ) (p c f : ℕ)
    → t ≢ 0
    → p ≢ t
    → nx p ≡ c
    → Chain nx c xs
    → Distinct xs
    → Fresh p xs
    → Fresh t xs
    → length xs < f
    → Linked nx go p t xs (walk f go nx (some p) c)
unfolding walk insert_after
walk_lem nx go t xs p c zero tn pt pc r d fp ft l = absurd (omega arith)
walk_lem nx go t [] p c (suc f) tn pt pc r d fp ft l =
    (p, c, rw r refl, (ground arith, tn, ground arith), λ u up ut fu. ground arith)
walk_lem nx go t (x ∷ xs) p c (suc f) tn pt pc r d fp ft l = elim (Bool-cases (go x)) [
  | inl e ↦
      let (p', c', w, ch, fr) =
        walk_lem nx go t xs x (nx x) f tn (λ z. ft.0 (sym z)) refl r.2 d.1 d.0 ft.1 (omega arith) in
      (
        p',
        c',
        rw (r.0, nonnull, e) w,
        rw e (fr p fp.0 pt fp.1 ∙ pc ∙ r.0, r.1, ch),
        λ u up ut fu. fr u fu.0 ut fu.1,
      )
  | inr e ↦ (
    p,
    c,
    rw (r.0, nonnull, e) refl,
    rw e (ground arith, tn, (ground (arith, r.0), r.1, rest)),
    λ u up ut fu. ground arith,
  )
]
  where
    nonnull : (x == 0) ≡ false
    nonnull = ground (arith, r.1)

    same : update (update nx t c) p t x ≡ nx x
    same = ground (arith, fp.0, ft.0)

    rest : Chain (update (update nx t c) p t) (update (update nx t c) p t x) xs
    rest =
        rw same
          (Chain-update (update nx t c) (nx x) xs p t (Chain-update nx (nx x) xs t c r.2 ft.1) fp.1)

-- The insertion ends, and the chain holds what `insert_after` says. Other links are untouched.
pub chain_insert_lem :
    (fuel : ℕ) (go : ℕ → Bool) (nx : ℕ → ℕ) (head t : ℕ) (xs : List ℕ)
    → Chain nx head xs
    → Distinct xs
    → Fresh t xs
    → t ≢ 0
    → length xs < fuel
    → (head' : ℕ) × (nx' : ℕ → ℕ) × (chain_insert fuel go nx head t ≡ some (head', nx'))
      × Chain nx' head' (insert_after go t xs)
      × ((u : ℕ) → u ≢ t → Fresh u xs → nx' u ≡ nx u)
unfolding chain_insert insert_after
chain_insert_lem zero go nx head t xs r d f tn l = absurd (omega arith)
chain_insert_lem (suc fuel) go nx head t [] r d f tn l =
    (t, update nx t head, rw r refl, (refl, tn, rw r (ground arith)), λ u ut fu. ground arith)
chain_insert_lem (suc fuel) go nx head t (x ∷ xs) r d f tn l = elim (Bool-cases (go x)) [
  | inl e ↦
      let (p', c', w, ch, fr) =
        walk_lem nx go t xs x (nx x) fuel tn (λ z. f.0 (sym z)) refl r.2 d.1 d.0 f.1
          (omega arith) in
      (
        x,
        update (update nx t c') p' t,
        rw (r.0, nonnull, e, w) refl,
        rw e (refl, r.1, ch),
        λ u ut fu. fr u fu.0 ut fu.1,
      )
  | inr e ↦ (
    t,
    update nx t x,
    rw (r.0, nonnull, e) refl,
    rw e (refl, tn, (update_self nx t x, r.1, rest)),
    λ u ut fu. ground arith,
  )
]
  where
    nonnull : (x == 0) ≡ false
    nonnull = ground (arith, r.1)

    same : update nx t x x ≡ nx x
    same = ground (arith, f.0)

    rest : Chain (update nx t x) (update nx t x x) xs
    rest = rw same (Chain-update nx (nx x) xs t x r.2 f.1)

-- Ordered by a key, with `m` below all keys.
abbrev pub IsSorted : (ℕ → ℕ) → ℕ → List ℕ → Type 0
IsSorted key m [] = Unit {0}
IsSorted key m (x ∷ xs) = (m ≤ key x) × IsSorted key (key x) xs

pub IsSorted-frame :
    (key key' : ℕ → ℕ) (m : ℕ) (xs : List ℕ)
    → All (λ u. key' u ≡ key u) xs
    → IsSorted key m xs
    → IsSorted key' m xs
IsSorted-frame key key' m [] h s = tt
IsSorted-frame key key' m (x ∷ xs) h s = rw h.0 (s.0, IsSorted-frame key key' (key x) xs h.1 s.1)

-- With the test `key x <= key t` an ordered list stays in order.
pub insert_after-IsSorted :
    (key : ℕ → ℕ) (t m : ℕ) (xs : List ℕ)
    → m ≤ key t
    → IsSorted key m xs
    → IsSorted key m (insert_after (λ x. leb (key x) (key t)) t xs)
unfolding insert_after
insert_after-IsSorted key t m [] h s = (h, tt)
insert_after-IsSorted key t m (x ∷ xs) h s = elim (Bool-cases (leb (key x) (key t))) [
  | inl e ↦ rw e (s.0, insert_after-IsSorted key t (key x) xs (leb→le _ _ e) s.1)
  | inr e ↦ rw e (h, (ground arith, s.1))
]

pub insert_after-All {ℓ} :
    (P : ℕ → Type ℓ) (go : ℕ → Bool) (t : ℕ) (xs : List ℕ)
    → P t
    → All P xs
    → All P (insert_after go t xs)
unfolding insert_after
insert_after-All P go t [] pt h = (pt, tt)
insert_after-All P go t (x ∷ xs) pt h = elim (Bool-cases (go x)) [
  | inl e ↦ rw e (h.0, insert_after-All P go t xs pt h.1)
  | inr e ↦ rw e (pt, h)
]

pub insert_after-Fresh :
    (go : ℕ → Bool) (t c : ℕ) (xs : List ℕ) → c ≢ t → Fresh c xs → Fresh c (insert_after go t xs)
unfolding insert_after
insert_after-Fresh go t c [] ne f = (ne, tt)
insert_after-Fresh go t c (x ∷ xs) ne f = elim (Bool-cases (go x)) [
  | inl e ↦ rw e (f.0, insert_after-Fresh go t c xs ne f.1)
  | inr e ↦ rw e (ne, f)
]

pub insert_after-Distinct :
    (go : ℕ → Bool) (t : ℕ) (xs : List ℕ)
    → Distinct xs
    → Fresh t xs
    → Distinct (insert_after go t xs)
unfolding insert_after
insert_after-Distinct go t [] d f = (tt, tt)
insert_after-Distinct go t (x ∷ xs) d f = elim (Bool-cases (go x)) [
  | inl e ↦
      rw e
        (insert_after-Fresh go t x xs (λ z. f.0 (sym z)) d.0, insert_after-Distinct go t xs d.1 f.1)
  | inr e ↦ rw e (f, d)
]
