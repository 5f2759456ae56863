-- ===== src/Services/Deferred.antt =====
-- The calls that services/event_loop.c defers: each is made by the next tick.
use nanos_os.Common.{
  ℕ, each, zero, suc, ◌≤◌, ◌<◌, ◌≡◌, ◌≢◌, ◌⊎◌, inl, inr, refl, ap, sym, subst, ◌∙◌, true, false,
  List, [], ◌∷◌, ◌++◌, some, get_elem?, get_elem?-set_ne, arith, Bool-cases, Option-cases, ◌==◌,
  ==_iff, All, if_true,
}
use nanos_os.Services.{
  Slot, Loop, max_def, event_loop_post, post_all, run_slot, tick_slot, event_loop_tick,
}

-- The call is among those made.
abbrev pub Called : ℕ × ℕ → List (ℕ × ℕ) → Type 0
Called c [] = ⊥
Called c (x ∷ xs) = (x ≡ c) ⊎ Called c xs

Called-left : (c : ℕ × ℕ) (xs ys : List (ℕ × ℕ)) → Called c xs → Called c (xs ++ ys)
Called-left c [] ys h = absurd h
Called-left c (x ∷ xs) ys (inl e) = inl e
Called-left c (x ∷ xs) ys (inr h) = inr (Called-left c xs ys h)

Called-last : (c : ℕ × ℕ) (xs : List (ℕ × ℕ)) → Called c (xs ++ c ∷ [])
Called-last c [] = inl refl
Called-last c (x ∷ xs) = inr (Called-last c xs)

-- A slot in use stays as it is when something is posted.
post_keeps :
    (fn arg : ℕ) (ds : List Slot) (i : ℕ) (d : Slot)
    → get_elem? ds i ≡ some d
    → d.used ≡ true
    → get_elem? (event_loop_post fn arg ds) i ≡ some d
unfolding event_loop_post
post_keeps fn arg [] i d g u = g
post_keeps fn arg (e ∷ ds) zero d g u = let f : e ≡ d = cc in rw (f, u) refl
post_keeps fn arg (e ∷ ds) (suc i) d g u = elim (Bool-cases e.used) [
  | inl f ↦ rw f (post_keeps fn arg ds i d g u)
  | inr f ↦ rw f g
]

post_all_keeps :
    (ps : List (ℕ × ℕ)) (ds : List Slot) (i : ℕ) (d : Slot)
    → get_elem? ds i ≡ some d
    → d.used ≡ true
    → get_elem? (post_all ps ds) i ≡ some d
unfolding post_all
post_all_keeps [] ds i d g u = g
post_all_keeps ((fn, arg) ∷ ps) ds i d g u =
    post_all_keeps ps (event_loop_post fn arg ds) i d (post_keeps fn arg ds i d g u) u

-- A turn either leaves the state alone or calls what waits in its slot.
tick_used :
    (posts : ℕ → ℕ → List (ℕ × ℕ)) (j : ℕ) (l : Loop) (d : Slot)
    → get_elem? l.slots j ≡ some d
    → d.used ≡ true
    → tick_slot posts j l ≡ run_slot posts j d l
unfolding tick_slot
tick_used posts j l d e f = rw (tick_slot, e, f) refl

tick_cases :
    (posts : ℕ → ℕ → List (ℕ × ℕ)) (j : ℕ) (l : Loop)
    → (tick_slot posts j l ≡ l) ⊎ ((d : Slot) × (tick_slot posts j l ≡ run_slot posts j d l))
unfolding tick_slot
tick_cases posts j l = elim (Option-cases (get_elem? l.slots j)) [
  | inl e ↦ inl (rw (tick_slot, e) refl)
  | inr (d, e) ↦ elim (Bool-cases d.used) [
    | inr f ↦ inl (rw (tick_slot, e, f) refl)
    | inl f ↦ inr (d, rw (tick_slot, e, f) refl)
  ]
]

tick_slot_keeps :
    (posts : ℕ → ℕ → List (ℕ × ℕ)) (j i : ℕ) (l : Loop) (d : Slot)
    → j ≢ i
    → get_elem? l.slots i ≡ some d
    → d.used ≡ true
    → get_elem? (tick_slot posts j l).slots i ≡ some d
unfolding run_slot
tick_slot_keeps posts j i l d n g u = elim (tick_cases posts j l) [
  | inl e ↦ rw e g
  | inr (x, e) ↦ rw e (
      post_all_keeps (posts x.fn x.arg) _ i d
        (get_elem?-set_ne l.slots (record x { used = false }) n ∙ g) u)
]

tick_slot-Called :
    (posts : ℕ → ℕ → List (ℕ × ℕ)) (j : ℕ) (l : Loop) (c : ℕ × ℕ)
    → Called c l.calls
    → Called c (tick_slot posts j l).calls
unfolding run_slot
tick_slot-Called posts j l c h = elim (tick_cases posts j l) [
  | inl e ↦ rw e h
  | inr (x, e) ↦ rw e (Called-left c l.calls _ h)
]

tick_slot_calls :
    (posts : ℕ → ℕ → List (ℕ × ℕ)) (i : ℕ) (l : Loop) (d : Slot)
    → get_elem? l.slots i ≡ some d
    → d.used ≡ true
    → Called (d.fn, d.arg) (tick_slot posts i l).calls
unfolding run_slot
tick_slot_calls posts i l d g u = rw (tick_used posts i l d g u) (Called-last (d.fn, d.arg) l.calls)

-- Up to turn `n`, the slot `i` is waiting or called.
tick_loop :
    (posts : ℕ → ℕ → List (ℕ × ℕ)) (n i : ℕ) (l : Loop) (d : Slot)
    → get_elem? l.slots i ≡ some d
    → d.used ≡ true
    → (i < n → Called (d.fn, d.arg) (each n (tick_slot posts) l).calls)
      × (n ≤ i → get_elem? (each n (tick_slot posts) l).slots i ≡ some d)
tick_loop posts zero i l d g u = (λ b. absurd (omega arith), λ b. g)
tick_loop posts (suc n) i l d g u =
    let (called, waits) = tick_loop posts n i l d g u in
    (
      λ b. elim (Bool-cases (n == i)) [
        | inl e ↦
            let f : n ≡ i = (==_iff n i).0 e in
            tick_slot_calls posts n (each n (tick_slot posts) l) d
              (subst (λ k. get_elem? (each n (tick_slot posts) l).slots k ≡ some d) (sym f)
                (waits (omega arith)))
              u
        | inr e ↦
            let f : n ≢ i = λ p. ground arith in tick_slot-Called posts n _ _ (called (omega arith))
      ],
      λ b.
          let f : n ≢ i = λ p. omega arith in
          tick_slot_keeps posts n i _ d f (waits (omega arith)) u,
    )

-- What is posted waits in a slot that was not used, when there is one.
post_waits :
    (fn arg : ℕ) (ds : List Slot) (i : ℕ) (d : Slot)
    → get_elem? ds i ≡ some d
    → d.used ≡ false
    → (j : ℕ) × (j ≤ i)
      × (get_elem? (event_loop_post fn arg ds) j
          ≡ some (record { fn = fn; arg = arg; used = true }))
unfolding event_loop_post
post_waits fn arg [] i d g u = absurd (cc)
post_waits fn arg (e ∷ ds) zero d g u = let f : e ≡ d = cc in (0, omega arith, rw (f, u) refl)
post_waits fn arg (e ∷ ds) (suc i) d g u = elim (Bool-cases e.used) [
  | inl f ↦ let (j, l, h) = post_waits fn arg ds i d g u in (suc j, omega arith, rw f h)
  | inr f ↦ (0, omega arith, rw f refl)
]

-- Every call that waits in one of the 16 slots is made by the next tick, whatever the functions that the tick
-- calls before it post themselves.
pub event_loop_tick_calls :
    (posts : ℕ → ℕ → List (ℕ × ℕ)) (l : Loop) (i : ℕ) (d : Slot)
    → i < max_def
    → get_elem? l.slots i ≡ some d
    → d.used ≡ true
    → Called (d.fn, d.arg) (event_loop_tick posts l).calls
unfolding event_loop_tick
event_loop_tick_calls posts l i d b g u = (tick_loop posts max_def i l d g u).0 b

-- A call posted while one of the 16 slots is not used is made by the next tick, whatever else is posted before
-- that tick and whatever the functions that the tick calls post themselves.
pub event_loop_tick-post :
    (posts : ℕ → ℕ → List (ℕ × ℕ)) (fn arg : ℕ) (later : List (ℕ × ℕ)) (l : Loop) (i : ℕ) (d : Slot)
    → i < max_def
    → get_elem? l.slots i ≡ some d
    → d.used ≡ false
    → Called
        (fn, arg)
        (event_loop_tick posts
          (record l { slots = post_all later (event_loop_post fn arg l.slots) })).calls
event_loop_tick-post posts fn arg later l i d b g u =
    let (j, m, h) = post_waits fn arg l.slots i d g u in
    event_loop_tick_calls posts _ j (record { fn = fn; arg = arg; used = true }) (omega arith)
      (post_all_keeps later _ j _ h refl) refl

-- When all slots are used, what is posted is lost.
event_loop_post_full :
    (fn arg : ℕ) (ds : List Slot) → All (λ d. d.used ≡ true) ds → event_loop_post fn arg ds ≡ ds
unfolding event_loop_post
event_loop_post_full fn arg [] a = refl
event_loop_post_full fn arg (d ∷ ds) a =
    if_true _ _ a.0 ∙ ap (◌∷◌ d) (event_loop_post_full fn arg ds a.1)
