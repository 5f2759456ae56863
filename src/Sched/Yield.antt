-- ===== src/Sched/Yield.antt =====
-- `sched_yield_from_isr` of kernel/scheduler.c against a scheduler over lists.
use nanos_os.Common.{
  ℕ, zero, suc, ◌<◌, ◌≡◌, refl, sym, ap, subst, ◌∙◌, ◌≢◌, inl, inr, Bool, true, false, Option, none,
  some, List, [], ◌∷◌, arith, ◌==◌, All, Bool-cases, Option-cases, ltb, ltb→lt, ==_iff,
}
use mathlib.Core.Path.{fun_ext}
use nanos_os.Common.Maps.{update, update_self, update_ne}
use nanos_os.Kernel.{Kernel, ready, running, null, idle_tcb, max_priority_levels, time_slice_ticks}
use nanos_os.Sched.{
  top_bit, prio_highest, rq_enqueue, rq_remove, is_running, requeue_old, take_next, dispatch,
  sched_yield_from_isr,
}
use nanos_os.Sched.Ready.{is_cons, Queued, Rep, IsOff, enqueue, enqueue-Rep, All-Queued_frame}
use nanos_os.Sched.Ring.{Ring}
use nanos_os.Sched.Removal.{remove-Rep, remove-IsOff}

-- The specification: one list of ready tasks for each priority.
pub highest : (ℕ → List ℕ) → Option ℕ
unfolding top_bit
highest q = top_bit 32 (λ p. is_cons (q p))

abbrev pub requeue : (ℕ → List ℕ) → ℕ → ℕ → Bool → ℕ → List ℕ
requeue q old p true = enqueue q p old
requeue q old p false = q

pub pop_queue : (ℕ → List ℕ) → ℕ → List ℕ → ℕ × (ℕ → List ℕ)
pop_queue q p [] = (idle_tcb, q)
pop_queue q p (t ∷ ts) = (t, update q p ts)

-- The first task of the highest queue that has one, or the idle task.
pub choose : (ℕ → List ℕ) → ℕ × (ℕ → List ℕ)
choose q = elim (highest q) [ none ↦ (idle_tcb, q) | some p ↦ pop_queue q p (q p) ]

pub top_bit-some :
    (n : ℕ) (bit : ℕ → Bool) (p : ℕ)
    → top_bit n bit ≡ some p
    → (p < n) × (bit p ≡ true) × ((m : ℕ) → p < m → m < n → bit m ≡ false)
unfolding top_bit
top_bit-some zero bit p e = cc
top_bit-some (suc n) bit p e = elim (Bool-cases (bit n)) [
  | inl b ↦
      let pn : n ≡ p = ground arith in (omega arith, rw (← pn) b, λ m lo hi. absurd (omega arith))
  | inr b ↦
      let ih = top_bit-some n bit p (ground arith) in
      (
        omega (arith, ih.0),
        ih.1,
        λ m lo hi. elim (Bool-cases (m == n)) [
          | inl mn ↦ rw ((==_iff m n).0 mn) b
          | inr mn ↦ ih.2 m lo (ground arith)
        ],
      )
]

pub top_bit-none : (n : ℕ) (bit : ℕ → Bool) → top_bit n bit ≡ none → (m : ℕ) → m < n → bit m ≡ false
unfolding top_bit
top_bit-none zero bit e m h = absurd (omega arith)
top_bit-none (suc n) bit e m h = elim (Bool-cases (bit n)) [
  | inl b ↦ ground arith
  | inr b ↦ elim (Bool-cases (m == n)) [
    | inl mn ↦ rw ((==_iff m n).0 mn) b
    | inr mn ↦ top_bit-none n bit (ground arith) m (ground arith)
  ]
]

pub is_cons-false : (ts : List ℕ) → is_cons ts ≡ false → ts ≡ []
is_cons-false [] e = refl
is_cons-false (x ∷ xs) e = cc

pub is_cons-true : (ts : List ℕ) → is_cons ts ≡ true → (x : ℕ) × (xs : List ℕ) × (ts ≡ x ∷ xs)
is_cons-true [] e = cc
is_cons-true (x ∷ xs) e = (x, xs, refl)

-- The scheduler's state between two calls: the current task is in no queue.
pub record Inv (k : Kernel) (q : ℕ → List ℕ) : Type 0 where
  pub rep : Rep k q
  pub off : IsOff k.current_task q
  pub nonnull : k.current_task ≢ null
  pub level : k.priority k.current_task < max_priority_levels
  pub idle_level : k.priority idle_tcb < max_priority_levels

-- A change at a task off the queues.
pub Rep-frame :
    (k k' : Kernel) (q : ℕ → List ℕ) (t : ℕ)
    → Rep k q
    → IsOff t q
    → k'.next ≡ k.next
    → k'.prev ≡ k.prev
    → k'.run_queue ≡ k.run_queue
    → k'.prio_bitmap ≡ k.prio_bitmap
    → k'.priority ≡ k.priority
    → ((u : ℕ) → t ≢ u → k'.state u ≡ k.state u)
    → Rep k' q
Rep-frame k k' q t r off hn hv hr hb hp hs = record {
  rings = λ p. rw (hn, hv, hr) (r.rings p);
  bits = λ p. rw hb (r.bits p);
  members = λ p.
      All-Queued_frame k k' t p (q p) (λ u. ap (λ (f : ℕ → ℕ). f u) hp) hs (off p) (r.members p);
  levels = r.levels;
}

priority-rq_enqueue : (t : ℕ) (k : Kernel) → (rq_enqueue t k).priority ≡ k.priority
unfolding rq_enqueue
priority-rq_enqueue t k = ground arith

pub current-rq_enqueue : (t : ℕ) (k : Kernel) → (rq_enqueue t k).current_task ≡ k.current_task
unfolding rq_enqueue
current-rq_enqueue t k = ground arith

priority-rq_remove : (t : ℕ) (k : Kernel) → (rq_remove t k).priority ≡ k.priority
unfolding rq_remove
priority-rq_remove t k = ground arith

current-rq_remove : (t : ℕ) (k : Kernel) → (rq_remove t k).current_task ≡ k.current_task
unfolding rq_remove
current-rq_remove t k = ground arith

-- What a yield keeps of the current task's priority and of the current task, until it dispatches.
abbrev pub Same : Kernel → Kernel → Type 0
Same k k' = (k'.priority ≡ k.priority) × (k'.current_task ≡ k.current_task)

module _ (k : Kernel) (q : ℕ → List ℕ) (v : Inv k q) where
  abbrev pub old : ℕ
  old = k.current_task

  pub requeued : ℕ → List ℕ
  requeued = requeue q old (k.priority old) (is_running (k.state old))

  pub requeue_old-Rep : Rep (requeue_old k) requeued × Same k (requeue_old k)
  unfolding requeue_old requeued
  requeue_old-Rep = elim (Bool-cases (is_running (k.state old))) [
    | inl e ↦
        let k1 = record k { state = update k.state old ready } in
        rw e (
          enqueue-Rep k1 q old
              (Rep-frame k k1 q old v.rep v.off refl refl refl refl refl
                (λ u ne. update_ne k.state old u ready ne))
              v.off (v.nonnull, refl, update_self k.state old ready) v.level,
          (priority-rq_enqueue old k1, current-rq_enqueue old k1),
        )
    | inr e ↦ rw e (v.rep, (refl, refl))
  ]

-- The chosen task, the queues without it, and the kernel without it agree.
module _ (k : Kernel) (q : ℕ → List ℕ) (r : Rep k q) where
  pub highest-prio : prio_highest k ≡ highest q
  unfolding prio_highest highest
  highest-prio = ap (top_bit 32) (fun_ext r.bits)

  none_empty : highest q ≡ none → (p : ℕ) → q p ≡ []
  unfolding highest
  none_empty e p = elim (Bool-cases (ltb p 32)) [
    | inl lo ↦ is_cons-false (q p) (top_bit-none 32 (λ m. is_cons (q m)) e p (ltb→lt p 32 lo))
    | inr hi ↦ r.levels p (ground arith)
  ]

  none-IsOff : highest q ≡ none → (t : ℕ) → IsOff t q
  none-IsOff e t p = rw (none_empty e p) tt

  pub some_cons : (p : ℕ) → highest q ≡ some p → (t : ℕ) × (ts : List ℕ) × (q p ≡ t ∷ ts)
  unfolding highest
  some_cons p e = is_cons-true (q p) (top_bit-some 32 (λ m. is_cons (q m)) p e).1

  head_eq : (p t : ℕ) (ts : List ℕ) → q p ≡ t ∷ ts → k.run_queue p ≡ t
  head_eq p t ts e = (subst (λ us. Ring k.next k.prev (k.run_queue p) us) e (r.rings p)).0

  choose-none : highest q ≡ none → choose q ≡ (idle_tcb, q)
  unfolding choose
  choose-none e = rw (e, choose)

  choose-some :
      (p t : ℕ) (ts : List ℕ) → highest q ≡ some p → q p ≡ t ∷ ts → choose q ≡ (t, update q p ts)
  unfolding choose pop_queue
  choose-some p t ts e c = rw (e, choose) (rw (c, pop_queue))

  pub take_next-none : highest q ≡ none → take_next k ≡ (idle_tcb, k)
  unfolding take_next
  take_next-none e = rw (highest-prio, e, take_next)

  pub take_next-some :
      (p t : ℕ) (ts : List ℕ) → highest q ≡ some p → q p ≡ t ∷ ts → take_next k ≡ (t, rq_remove t k)
  unfolding take_next
  take_next-some p t ts e c = rw (highest-prio, e, head_eq p t ts c, take_next)

  queued_level :
      (p t : ℕ) (ts : List ℕ) → q p ≡ t ∷ ts → (t ≢ null) × (k.priority t < max_priority_levels)
  queued_level p t ts c =
      let own = (subst (All (Queued k p)) c (r.members p)).0 in
      (
        own.0,
        elim (Bool-cases (ltb p max_priority_levels)) [
          | inl lo ↦ rw own.1 (ltb→lt p max_priority_levels lo)
          | inr hi ↦ absurd (cons_nil (sym c ∙ r.levels p (ground arith)))
        ],
      )
    where
      cons_nil : (t ∷ ts ≡ []) → ⊥
      cons_nil h = cc

  take_next-Rep :
      k.priority idle_tcb < max_priority_levels
      → let (t, k') = take_next k in
        let (t', q') = choose q in
        (t ≡ t')
        × Rep k' q'
        × IsOff t' q'
        × Same k k'
        × ((t' ≢ null) × (k.priority t' < max_priority_levels))
  take_next-Rep il = elim (Option-cases (highest q)) [
    | inl e ↦
        rw (take_next-none e, choose-none e)
          (refl, r, none-IsOff e idle_tcb, (refl, refl), ((λ z. omega arith), il))
    | inr (p, e) ↦
        let (t, ts, c) = some_cons p e in
        rw (take_next-some p t ts e c, choose-some p t ts e c)
          (
            refl,
            remove-Rep k q t p ts r c,
            remove-IsOff k q t p ts r c,
            (priority-rq_remove t k, current-rq_remove t k),
            queued_level p t ts c,
          )
  ]

-- Off the queues, a task can be dispatched.
dispatch-Inv :
    (k : Kernel) (q : ℕ → List ℕ) (t : ℕ)
    → Rep k q
    → IsOff t q
    → t ≢ null
    → k.priority t < max_priority_levels
    → k.priority idle_tcb < max_priority_levels
    → Inv (dispatch t k) q
      × ((dispatch t k).current_task ≡ t)
      × ((dispatch t k).state t ≡ running)
      × ((dispatch t k).slice_ticks t ≡ time_slice_ticks)
unfolding dispatch
dispatch-Inv k q t r off nn lv il = elim (Bool-cases (t == k.current_task)) [
  | inl e ↦
      let te = (==_iff t k.current_task).0 e in
      rw (e) (
        record {
          rep =
              Rep-frame k _ q t r off refl refl refl refl refl
                (λ u ne. update_ne k.state t u running ne);
          off = rw (← te) off;
          nonnull = rw (← te) nn;
          level = rw (← te) lv;
          idle_level = il;
        },
        sym te,
        update_self k.state t running,
        update_self k.slice_ticks t time_slice_ticks,
      )
  | inr e ↦ rw (e) (
    record {
      rep =
          Rep-frame k _ q t r off refl refl refl refl refl
            (λ u ne. update_ne k.state t u running ne);
      off = off;
      nonnull = nn;
      level = lv;
      idle_level = il;
    },
    refl,
    update_self k.state t running,
    update_self k.slice_ticks t time_slice_ticks,
  )
]

-- A yield does what the scheduler over lists does: a task that still runs goes to the end of the
-- queue of its priority, and the first task of the highest non-empty queue, or the idle task if
-- there is none, is taken off its queue and becomes the current task, running, with a full time
-- slice. The run queues are well linked before and after, and hold the same tasks otherwise.
pub yield_refines :
    (k : Kernel) (q : ℕ → List ℕ)
    → Inv k q
    → let k' = sched_yield_from_isr k in
      let old = k.current_task in
      let (t, q') = choose (requeue q old (k.priority old) (is_running (k.state old))) in
      Inv k' q'
      × (k'.current_task ≡ t)
      × (k'.state t ≡ running)
      × (k'.slice_ticks t ≡ time_slice_ticks)
unfolding sched_yield_from_isr requeued
yield_refines k q v =
    let k1 = requeue_old k in
    let q1 = requeued k q v in
    let r1 = requeue_old-Rep k q v in
    let prio = ap (λ (f : ℕ → ℕ). f idle_tcb) r1.1.0 in
    let r2 = take_next-Rep k1 q1 r1.0 (rw prio v.idle_level) in
    let t' = (choose q1).0 in
    rw r2.0 (
      dispatch-Inv (take_next k1).1 (choose q1).1 t' r2.1 r2.2 r2.4.0 (rw (r2.3.0) r2.4.1)
        (rw (r2.3.0, prio) v.idle_level))

-- A task that has left the running state is not queued again.
pub yield_parked :
    (k : Kernel) (q : ℕ → List ℕ)
    → Inv k q
    → is_running (k.state k.current_task) ≡ false
    → Inv (sched_yield_from_isr k) (choose q).1
      × ((sched_yield_from_isr k).current_task ≡ (choose q).0)
yield_parked k q v e =
    let w = yield_refines k q v in
    let old = k.current_task in
    let re : requeue q old (k.priority old) (is_running (k.state old)) ≡ q = rw e refl in
    (
      subst (λ qs. Inv (sched_yield_from_isr k) (choose qs).1) re w.0,
      subst (λ qs. (sched_yield_from_isr k).current_task ≡ (choose qs).0) re w.1,
    )
