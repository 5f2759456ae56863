-- ===== src/Sched/Ring.antt =====
-- Circular doubly linked lists, as `rq_enqueue` and `rq_remove` of kernel/scheduler.c link them.
use nanos_os.Common.{ℕ, ◌≡◌, refl, sym, ◌∙◌, ◌≢◌, List, [], ◌∷◌, ◌++◌, arith, All}
use nanos_os.Common.Maps.{update, Fresh, Distinct, Fresh-snoc, Distinct-snoc}
use nanos_os.Kernel.{null}

-- From `a` the `next` links lead through `xs` to `b`, and the `prev` links lead back.
abbrev pub Seg : (ℕ → ℕ) → (ℕ → ℕ) → ℕ → List ℕ → ℕ → Type 0
Seg nx pv a [] b = (nx a ≡ b) × (pv b ≡ a)
Seg nx pv a (x ∷ xs) b = (nx a ≡ x) × (pv x ≡ a) × Seg nx pv x xs b

-- `head` is the first of the tasks `ts`, which form a ring.
abbrev pub Ring : (ℕ → ℕ) → (ℕ → ℕ) → ℕ → List ℕ → Type 0
Ring nx pv head [] = head ≡ null
Ring nx pv head (x ∷ xs) = (head ≡ x) × (x ≢ null) × Fresh x xs × Distinct xs × Seg nx pv x xs x

-- What is off a segment is not the node before its end.
pub ne_last :
    (nx pv : ℕ → ℕ) (a : ℕ) (xs : List ℕ) (b c : ℕ)
    → Seg nx pv a xs b
    → c ≢ a
    → Fresh c xs
    → c ≢ pv b
ne_last nx pv a [] b c s ne f e = ne (cc)
ne_last nx pv a (x ∷ xs) b c s ne f e = ne_last nx pv x xs b c s.2 f.0 f.1 e

-- The node before the end has what all nodes have.
pub All-last :
    (P : ℕ → Type 0) (nx pv : ℕ → ℕ) (a : ℕ) (xs : List ℕ) (b : ℕ)
    → Seg nx pv a xs b
    → P a
    → All P xs
    → P (pv b)
All-last P nx pv a [] b s pa h = rw s.1 pa
All-last P nx pv a (x ∷ xs) b s pa h = All-last P nx pv x xs b s.2 h.0 h.1

pub Seg-next_update :
    (nx pv : ℕ → ℕ) (a : ℕ) (xs : List ℕ) (b c v : ℕ)
    → Seg nx pv a xs b
    → c ≢ a
    → Fresh c xs
    → Seg (update nx c v) pv a xs b
Seg-next_update nx pv a [] b c v s ne f = ground arith
Seg-next_update nx pv a (x ∷ xs) b c v s ne f =
    (ground arith, s.1, Seg-next_update nx pv x xs b c v s.2 f.0 f.1)

pub Seg-prev_update :
    (nx pv : ℕ → ℕ) (a : ℕ) (xs : List ℕ) (b c v : ℕ)
    → Seg nx pv a xs b
    → c ≢ b
    → Fresh c xs
    → Seg nx (update pv c v) a xs b
Seg-prev_update nx pv a [] b c v s ne f = ground arith
Seg-prev_update nx pv a (x ∷ xs) b c v s ne f =
    (s.0, ground arith, Seg-prev_update nx pv x xs b c v s.2 ne f.1)

-- A new node between the last one and the end.
pub Seg-snoc :
    (nx pv : ℕ → ℕ) (a : ℕ) (xs : List ℕ) (h t tail : ℕ)
    → Seg nx pv a xs h
    → tail ≡ pv h
    → t ≢ a
    → t ≢ h
    → Fresh t xs
    → Fresh h xs
    → Fresh a xs
    → Distinct xs
    → Seg (update (update nx tail t) t h) (update (update pv t tail) h t) a (xs ++ t ∷ []) h
Seg-snoc nx pv a [] h t tail s e ta th ft fh fa d = ground arith
Seg-snoc nx pv a (x ∷ xs) h t tail s e ta th ft fh fa d = (
  ground (arith, ne_last nx pv x xs h a s.2 fa.0 fa.1),
  ground arith,
  Seg-snoc nx pv x xs h t tail s.2 e ft.0 th ft.1 fh.1 d.0 d.1,
)

-- The end of a segment moved to `y`.
pub Seg-redirect :
    (nx pv : ℕ → ℕ) (a : ℕ) (xs : List ℕ) (h y tail : ℕ)
    → Seg nx pv a xs h
    → tail ≡ pv h
    → Fresh y xs
    → Fresh a xs
    → Distinct xs
    → Seg (update nx tail y) (update pv y tail) a xs y
Seg-redirect nx pv a [] h y tail s e fy fa d = ground arith
Seg-redirect nx pv a (x ∷ xs) h y tail s e fy fa d = (
  ground (arith, ne_last nx pv x xs h a s.2 fa.0 fa.1),
  ground arith,
  Seg-redirect nx pv x xs h y tail s.2 e fy.1 d.0 d.1,
)

-- A ring does not see a change at a task that is off it.
pub Ring-next_update :
    (nx pv : ℕ → ℕ) (head : ℕ) (ts : List ℕ) (c v : ℕ)
    → Ring nx pv head ts
    → Fresh c ts
    → Ring (update nx c v) pv head ts
Ring-next_update nx pv head [] c v r f = r
Ring-next_update nx pv head (x ∷ xs) c v r f =
    (r.0, r.1, r.2, r.3, Seg-next_update nx pv x xs x c v r.4 f.0 f.1)

pub Ring-prev_update :
    (nx pv : ℕ → ℕ) (head : ℕ) (ts : List ℕ) (c v : ℕ)
    → Ring nx pv head ts
    → Fresh c ts
    → Ring nx (update pv c v) head ts
Ring-prev_update nx pv head [] c v r f = r
Ring-prev_update nx pv head (x ∷ xs) c v r f =
    (r.0, r.1, r.2, r.3, Seg-prev_update nx pv x xs x c v r.4 f.0 f.1)

-- The `next` links may change off the ring.
Seg-frame :
    (nx nx' pv : ℕ → ℕ) (a : ℕ) (xs : List ℕ) (b : ℕ)
    → Seg nx pv a xs b
    → nx' a ≡ nx a
    → All (λ u. nx' u ≡ nx u) xs
    → Seg nx' pv a xs b
Seg-frame nx nx' pv a [] b s e h = (e ∙ s.0, s.1)
Seg-frame nx nx' pv a (x ∷ xs) b s e h = (e ∙ s.0, s.1, Seg-frame nx nx' pv x xs b s.2 h.0 h.1)

pub Ring-frame :
    (nx nx' pv : ℕ → ℕ) (head : ℕ) (ts : List ℕ)
    → Ring nx pv head ts
    → All (λ u. nx' u ≡ nx u) ts
    → Ring nx' pv head ts
Ring-frame nx nx' pv head [] r h = r
Ring-frame nx nx' pv head (x ∷ xs) r h =
    (r.0, r.1, r.2, r.3, Seg-frame nx nx' pv x xs x r.4 h.0 h.1)

-- `rq_enqueue` on a ring: `t` comes last.
pub Ring-enqueue :
    (nx pv : ℕ → ℕ) (x : ℕ) (xs : List ℕ) (t : ℕ)
    → Ring nx pv x (x ∷ xs)
    → Fresh t (x ∷ xs)
    → Ring
        (update (update nx (pv x) t) t x)
        (update (update pv t (pv x)) x t)
        x
        (x ∷ (xs ++ t ∷ []))
Ring-enqueue nx pv x xs t r f = (
  refl,
  r.1,
  Fresh-snoc x t xs r.2 (λ e. f.0 (sym e)),
  Distinct-snoc t xs r.3 f.1,
  Seg-snoc nx pv x xs x t (pv x) r.4 refl f.0 f.0 f.1 r.2 r.2 r.3,
)

-- `rq_remove` of the head of a ring: the next task leads.
pub Ring-remove :
    (nx pv : ℕ → ℕ) (t x : ℕ) (xs : List ℕ)
    → Ring nx pv t (t ∷ x ∷ xs)
    → x ≢ null
    → Ring (update (update nx (pv t) x) t null) (update (update pv x (pv t)) t null) x (x ∷ xs)
Ring-remove nx pv t x xs r xn =
    Ring-prev_update _ _ x (x ∷ xs) t null
      (Ring-next_update _ _ x (x ∷ xs) t null
        (refl, xn, r.3.0, r.3.1, Seg-redirect nx pv x xs t x (pv t) r.4.2 refl r.3.0 r.3.0 r.3.1)
        r.2)
      r.2
