-- ===== src/Sched/Ready.antt =====
-- The run queues of kernel/scheduler.c represent one list of ready tasks for each priority.
use nanos_os.Common.{
  All-snoc, ℕ, ◌≤◌, ◌<◌, ◌≡◌, refl, sym, subst, ◌∙◌, ◌≢◌, inl, inr, Bool, true, false, List, [],
  ◌∷◌, ◌++◌, arith, ◌==◌, All, List-cases,
}
use nanos_os.Common.Maps.{update, update_elim, update_self, Fresh}
use nanos_os.Kernel.{Kernel, ready, null, max_priority_levels}
use nanos_os.Sched.{rq_enqueue}
use nanos_os.Sched.Ring.{Ring, Ring-next_update, Ring-prev_update, Ring-enqueue, All-last}

abbrev pub is_cons {ℓ} : {A : Type ℓ} → List A → Bool
is_cons [] = false
is_cons (x ∷ xs) = true

-- What holds of a task in the queue of priority `p`.
abbrev pub Queued : Kernel → ℕ → ℕ → Type 0
Queued k p t = (t ≢ null) × (k.priority t ≡ p) × (k.state t ≡ ready)

-- The run queues of `k` hold the tasks `q p`, in order, at each priority `p`.
pub record Rep (k : Kernel) (q : ℕ → List ℕ) : Type 0 where
  pub rings : (p : ℕ) → Ring k.next k.prev (k.run_queue p) (q p)
  pub bits : (p : ℕ) → k.prio_bitmap p ≡ is_cons (q p)
  pub members : (p : ℕ) → All (Queued k p) (q p)
  pub levels : (p : ℕ) → max_priority_levels ≤ p → q p ≡ []

-- `t` is in no queue.
abbrev pub IsOff : ℕ → (ℕ → List ℕ) → Type 0
IsOff t q = (p : ℕ) → Fresh t (q p)

-- A state that differs from `k` at a task off a queue, in what the queue says nothing of.
pub All-Queued_frame :
    (k k' : Kernel) (t p : ℕ) (ts : List ℕ)
    → ((u : ℕ) → k'.priority u ≡ k.priority u)
    → ((u : ℕ) → t ≢ u → k'.state u ≡ k.state u)
    → Fresh t ts
    → All (Queued k p) ts
    → All (Queued k' p) ts
All-Queued_frame k k' t p [] hp hs f h = tt
All-Queued_frame k k' t p (x ∷ xs) hp hs f h =
    ((h.0.0, hp x ∙ h.0.1, hs x f.0 ∙ h.0.2), All-Queued_frame k k' t p xs hp hs f.1 h.1)

abbrev pub enqueue : (ℕ → List ℕ) → ℕ → ℕ → ℕ → List ℕ
enqueue q p t = update q p (q p ++ t ∷ [])

is_cons-snoc : (xs : List ℕ) (t : ℕ) → is_cons (xs ++ t ∷ []) ≡ true
is_cons-snoc [] t = refl
is_cons-snoc (x ∷ xs) t = refl

-- A task of another priority is off a queue.
pub Fresh-other :
    (k : Kernel) (ts : List ℕ) (c p : ℕ) → All (Queued k p) ts → k.priority c ≢ p → Fresh c ts
Fresh-other k [] c p h ne = tt
Fresh-other k (x ∷ xs) c p h ne = ((λ e. ne (rw e h.0.1)), Fresh-other k xs c p h.1 ne)

module _ (k : Kernel) (q : ℕ → List ℕ) (t : ℕ) (r : Rep k q) (off : IsOff t q) where
  enqueue-members :
      Queued k (k.priority t) t → (p : ℕ) → All (Queued k p) (enqueue q (k.priority t) t p)
  enqueue-members h p =
      update_elim (λ ts _. All (Queued k p) ts) q q (k.priority t) _ [] p
        (λ e.
          subst (λ a. All (Queued k a) (q (k.priority t) ++ t ∷ [])) e
            (All-snoc (Queued k (k.priority t)) (q (k.priority t)) t (r.members (k.priority t)) h))
        (λ _. r.members p)

  enqueue-bits :
      (p : ℕ) → update k.prio_bitmap (k.priority t) true p ≡ is_cons (enqueue q (k.priority t) t p)
  enqueue-bits p =
      update_elim (λ b ts. b ≡ is_cons ts) k.prio_bitmap q (k.priority t) true _ p
        (λ _. sym (is_cons-snoc (q (k.priority t)) t)) (λ _. r.bits p)

  enqueue-levels :
      k.priority t < max_priority_levels
      → (p : ℕ) → max_priority_levels ≤ p
      → enqueue q (k.priority t) t p ≡ []
  enqueue-levels h p l =
      update_elim (λ ts _. ts ≡ []) q q (k.priority t) _ [] p (λ e. absurd (omega arith))
        (λ _. r.levels p l)

  other-Ring : (p a b : ℕ) → Ring (update k.next t a) (update k.prev t b) (k.run_queue p) (q p)
  other-Ring p a b =
      Ring-prev_update (update k.next t a) k.prev (k.run_queue p) (q p) t b
        (Ring-next_update k.next k.prev (k.run_queue p) (q p) t a (r.rings p) (off p)) (off p)

  -- The queue is empty.
  enqueue_first :
      Queued k (k.priority t) t
      → k.priority t < max_priority_levels
      → q (k.priority t) ≡ []
      → Rep (rq_enqueue t k) (enqueue q (k.priority t) t)
  unfolding rq_enqueue
  enqueue_first h l e =
      rw (head_null, rq_enqueue)
        (record {
          rings = λ p.
              update_elim (λ hd ts. Ring (update k.next t t) (update k.prev t t) hd ts) k.run_queue
                q (k.priority t) t _ p
                (λ _. rw e (refl, h.0, tt, tt, (update_self k.next t t, update_self k.prev t t)))
                (λ _. other-Ring p t t);
          bits = enqueue-bits;
          members = enqueue-members h;
          levels = enqueue-levels l;
        })
    where
      head_null : k.run_queue (k.priority t) ≡ null
      head_null =
          subst (λ ts. Ring k.next k.prev (k.run_queue (k.priority t)) ts) e
            (r.rings (k.priority t))

  -- The queue has tasks: the new one comes last.
  enqueue_more :
      (x : ℕ) (xs : List ℕ)
      → Queued k (k.priority t) t
      → k.priority t < max_priority_levels
      → q (k.priority t) ≡ x ∷ xs
      → Rep (rq_enqueue t k) (enqueue q (k.priority t) t)
  unfolding rq_enqueue
  enqueue_more x xs h l e =
      rw (nonnull, rq_enqueue)
        (record {
          rings = λ p.
              update_elim (λ ts _. Ring next' prev' (k.run_queue p) ts) q q (k.priority t) _ [] p
                (λ pe. rw (← pe, e, ring.0) (Ring-enqueue k.next k.prev x xs t ring' off'))
                (λ ne. foreign p ne);
          bits = enqueue-bits;
          members = enqueue-members h;
          levels = enqueue-levels l;
        })
    where
      ring : Ring k.next k.prev (k.run_queue (k.priority t)) (x ∷ xs)
      ring =
          subst (λ ts. Ring k.next k.prev (k.run_queue (k.priority t)) ts) e
            (r.rings (k.priority t))

      ring' : Ring k.next k.prev x (x ∷ xs)
      ring' = (refl, ring.1, ring.2, ring.3, ring.4)

      off' : Fresh t (x ∷ xs)
      off' = subst (Fresh t) e (off (k.priority t))

      nonnull : (k.run_queue (k.priority t) == null) ≡ false
      nonnull = ground (arith, ring.0, ring.1)

      next' : ℕ → ℕ
      next' =
          update (update k.next (k.prev (k.run_queue (k.priority t))) t) t
            (k.run_queue (k.priority t))

      prev' : ℕ → ℕ
      prev' =
          update (update k.prev t (k.prev (k.run_queue (k.priority t))))
            (k.run_queue (k.priority t)) t

      own : All (Queued k (k.priority t)) (x ∷ xs)
      own = subst (All (Queued k (k.priority t))) e (r.members (k.priority t))

      head_off : (p : ℕ) → k.priority t ≢ p → k.priority (k.run_queue (k.priority t)) ≢ p
      head_off p ne = rw (ring.0, own.0.1) ne

      last_off : (p : ℕ) → k.priority t ≢ p → k.priority (k.prev (k.run_queue (k.priority t))) ≢ p
      last_off p ne =
          rw
            (ring.0, (All-last (Queued k (k.priority t)) k.next k.prev x xs x ring.4 own.0 own.1).1)
            ne

      -- The tail of a ring is one of its tasks, which are off the other queues.
      foreign : (p : ℕ) → k.priority t ≢ p → Ring next' prev' (k.run_queue p) (q p)
      foreign p ne =
          let off1 =
            Fresh-other k (q p) (k.prev (k.run_queue (k.priority t))) p (r.members p)
              (last_off p ne) in
          let off2 =
            Fresh-other k (q p) (k.run_queue (k.priority t)) p (r.members p) (head_off p ne) in
          Ring-prev_update _ _ (k.run_queue p) (q p) _ _
            (Ring-prev_update _ _ (k.run_queue p) (q p) _ _
              (Ring-next_update _ _ (k.run_queue p) (q p) _ _
                (Ring-next_update _ _ (k.run_queue p) (q p) _ _ (r.rings p) off1) (off p))
              (off p))
            off2

  -- `rq_enqueue` puts a ready task that is in no queue at the end of the queue of its priority, and
  -- leaves the other queues as they are.
  pub enqueue-Rep :
      Queued k (k.priority t) t
      → k.priority t < max_priority_levels
      → Rep (rq_enqueue t k) (enqueue q (k.priority t) t)
  enqueue-Rep h l = elim (List-cases (q (k.priority t))) [
    | inl e ↦ enqueue_first h l e
    | inr (x, xs, e) ↦ enqueue_more x xs h l e
  ]
