-- ===== src/Sched/Sleep.antt =====
-- The sleep queue of kernel/scheduler.c: `sleep_enqueue` and `task_sleep_ticks`.
use nanos_os.Common.{
  ℕ, ◌<◌, ◌≡◌, refl, ap, subst, ◌∙◌, ◌≢◌, inl, inr, Bool, true, some, List, [], ◌∷◌, arith, ◌==◌,
  leb, All, All-map, All-map₂, Bool-cases, Option-cases, List-cases, length,
}
use nanos_os.Common.Maps.{update, All-Fresh, update_ne, Fresh, Distinct}
use nanos_os.Common.Chain.{
  Chain, Chain-frame, chain_insert_lem, insert_after, IsSorted, insert_after-IsSorted,
  insert_after-All, insert_after-Distinct, insert_after-Fresh,
}
use nanos_os.Kernel.{
  Kernel, TaskState, ready, running, sleeping, null, idle_tcb, max_priority_levels,
}
use nanos_os.Sched.{
  rq_enqueue, rq_remove, requeue_old, take_next, dispatch, sleep_enqueue, sched_yield_from_isr,
  is_running,
}
use nanos_os.Sched.Ready.{Queued, Rep}
use nanos_os.Sched.Ring.{Ring, All-last}
use nanos_os.Sched.Yield.{
  Inv, Rep-frame, requeued, requeue_old-Rep, highest, take_next-none, take_next-some, some_cons,
}

abbrev pub Asleep : Kernel → ℕ → Type 0
Asleep k u = (u ≢ null) × (k.state u ≡ sleeping) × (k.priority u < max_priority_levels)

-- The sleep queue of `k` holds the tasks `sl`, by the times at which they wake.
pub record Sleepers (k : Kernel) (sl : List ℕ) : Type 0 where
  pub chain : Chain k.next k.sleep_queue sl
  pub distinct : Distinct sl
  pub asleep : All (Asleep k) sl
  pub sorted : IsSorted k.wake_tick 0 sl
  pub idle_awake : Fresh idle_tcb sl

pub Fresh-awake :
    (k : Kernel) (t : ℕ) (sl : List ℕ) → All (Asleep k) sl → k.state t ≢ sleeping → Fresh t sl
Fresh-awake k t [] h ne = tt
Fresh-awake k t (x ∷ xs) h ne = ((λ e. ne (rw e h.0.1)), Fresh-awake k t xs h.1 ne)

-- A queued task is ready, so a task in another state is off the queues.
pub Fresh-not_ready :
    (k : Kernel) (p t : ℕ) (ts : List ℕ) → All (Queued k p) ts → k.state t ≢ ready → Fresh t ts
Fresh-not_ready k p t [] h ne = tt
Fresh-not_ready k p t (x ∷ xs) h ne = ((λ e. ne (rw e h.0.2)), Fresh-not_ready k p t xs h.1 ne)

-- The order of sleeping tasks: by wake tick, and first come first for the same tick.
abbrev pub insert_sleeper : (ℕ → ℕ) → ℕ → List ℕ → List ℕ
insert_sleeper wake t sl = insert_after (λ x. leb (wake x) (wake t)) t sl

-- `sleep_enqueue` keeps the sleep queue in order, with the new task behind those that wake no later.
pub sleep_enqueue-Sleepers :
    (fuel t : ℕ) (k : Kernel) (sl : List ℕ)
    → Sleepers k sl
    → Fresh t sl
    → Asleep k t
    → idle_tcb ≢ t
    → length sl < fuel
    → (k' : Kernel) × (sleep_enqueue fuel t k ≡ some k')
      × Sleepers k' (insert_sleeper k.wake_tick t sl)
      × ((u : ℕ) → u ≢ t → Fresh u sl → k'.next u ≡ k.next u)
      × (k' ≡ record k { sleep_queue = k'.sleep_queue; next = k'.next })
unfolding sleep_enqueue
sleep_enqueue-Sleepers fuel t k sl s f a ni l =
    let go : ℕ → Bool = λ x. leb (k.wake_tick x) (k.wake_tick t) in
    let (h, nx, e, ch, fr) =
      chain_insert_lem fuel go k.next k.sleep_queue t sl s.chain s.distinct f a.0 l in
    (
      record k { sleep_queue = h; next = nx },
      rw e,
      record {
        chain = ch;
        distinct = insert_after-Distinct go t sl s.distinct f;
        asleep = insert_after-All (Asleep k) go t sl a s.asleep;
        sorted = insert_after-IsSorted k.wake_tick t 0 sl (omega arith) s.sorted;
        idle_awake = insert_after-Fresh go t idle_tcb sl ni s.idle_awake;
      },
      fr,
      refl,
    )

-- The links of a task that is neither ready nor the one that is queued stay.
pub next-rq_enqueue :
    (k : Kernel) (q : ℕ → List ℕ) (t u : ℕ)
    → Rep k q
    → t ≢ u
    → k.state u ≢ ready
    → (rq_enqueue t k).next u ≡ k.next u
unfolding rq_enqueue
next-rq_enqueue k q t u r tu nu = elim (List-cases (q (k.priority t))) [
  | inl e ↦
      let h =
        subst (λ ts. Ring k.next k.prev (k.run_queue (k.priority t)) ts) e
          (r.rings (k.priority t)) in
      rw (h) (ground arith)
  | inr (x, xs, e) ↦
      let ring =
        subst (λ ts. Ring k.next k.prev (k.run_queue (k.priority t)) ts) e
          (r.rings (k.priority t)) in
      let own = subst (All (Queued k (k.priority t))) e (r.members (k.priority t)) in
      let last = All-last (Queued k (k.priority t)) k.next k.prev x xs x ring.4 own.0 own.1 in
      other x ring.0 ring.1 (λ z. nu (subst (λ w. k.state w ≡ ready) z last.2))
]
  where
    other :
        (x : ℕ)
        → k.run_queue (k.priority t) ≡ x
        → x ≢ null
        → k.prev x ≢ u
        → (rq_enqueue t k).next u ≡ k.next u
    other x hx xn pu = ground arith

pub next-rq_remove :
    (k : Kernel) (q : ℕ → List ℕ) (t p u : ℕ) (ts : List ℕ)
    → Rep k q
    → q p ≡ t ∷ ts
    → k.state u ≢ ready
    → (rq_remove t k).next u ≡ k.next u
unfolding rq_remove
next-rq_remove k q t p u ts r e nu =
    let ring = subst (λ us. Ring k.next k.prev (k.run_queue p) us) e (r.rings p) in
    let own = subst (All (Queued k p)) e (r.members p) in
    let last = All-last (Queued k p) k.next k.prev t ts t ring.4 own.0 own.1 in
    other (λ z. nu (subst (λ w. k.state w ≡ ready) z last.2))
      (λ z. nu (subst (λ w. k.state w ≡ ready) z own.0.2))
  where
    other : k.prev t ≢ u → t ≢ u → (rq_remove t k).next u ≡ k.next u
    other a b = ground arith

pub Sleepers-frame :
    (k k' : Kernel) (sl : List ℕ)
    → Sleepers k sl
    → k'.sleep_queue ≡ k.sleep_queue
    → k'.wake_tick ≡ k.wake_tick
    → k'.priority ≡ k.priority
    → All (λ u. (k'.next u ≡ k.next u) × (k'.state u ≡ k.state u)) sl
    → Sleepers k' sl
Sleepers-frame k k' sl s eq ew ep h = record {
  chain =
      rw eq (Chain-frame k.next k'.next k.sleep_queue sl s.chain (All-map _ _ sl (λ u p. p.0) h));
  distinct = s.distinct;
  asleep = All-map₂ _ _ _ sl (λ u a p. (a.0, p.1 ∙ a.1, rw ep a.2)) s.asleep h;
  sorted = rw ew s.sorted;
  idle_awake = s.idle_awake;
}

-- What `rq_enqueue` and `rq_remove` leave alone.
abbrev pub Kept : Kernel → Kernel → Type 0
Kept k k' =
    (k'.state ≡ k.state)
    × (k'.priority ≡ k.priority)
    × (k'.sleep_queue ≡ k.sleep_queue)
    × (k'.wake_tick ≡ k.wake_tick)

pub Kept-rq_enqueue : (t : ℕ) (k : Kernel) → Kept k (rq_enqueue t k)
unfolding rq_enqueue
Kept-rq_enqueue t k = ground arith

pub Kept-rq_remove : (t : ℕ) (k : Kernel) → Kept k (rq_remove t k)
unfolding rq_remove
Kept-rq_remove t k = ground arith

not_ready : (k : Kernel) (u : ℕ) → Asleep k u → k.state u ≢ ready
not_ready k u a e = ground (arith, a.1)

-- Queueing a task that does not sleep leaves the sleepers alone.
pub rq_enqueue-Sleepers :
    (k : Kernel) (q : ℕ → List ℕ) (t : ℕ) (sl : List ℕ)
    → Rep k q
    → Sleepers k sl
    → Fresh t sl
    → Sleepers (rq_enqueue t k) sl
rq_enqueue-Sleepers k q t sl r s f =
    let kept = Kept-rq_enqueue t k in
    Sleepers-frame k (rq_enqueue t k) sl s kept.2 kept.3 kept.1 (
      All-map₂ _ _ _ sl
        (λ u tu a.
          (next-rq_enqueue k q t u r tu (not_ready k u a), ap (λ (g : ℕ → TaskState). g u) kept.0))
        (All-Fresh t sl f) s.asleep)

pub rq_remove-Sleepers :
    (k : Kernel) (q : ℕ → List ℕ) (t p : ℕ) (ts sl : List ℕ)
    → Rep k q
    → q p ≡ t ∷ ts
    → Sleepers k sl
    → Sleepers (rq_remove t k) sl
rq_remove-Sleepers k q t p ts sl r e s =
    let kept = Kept-rq_remove t k in
    Sleepers-frame k (rq_remove t k) sl s kept.2 kept.3 kept.1 (
      All-map _ _ sl
        (λ u a. (
          next-rq_remove k q t p u ts r e (not_ready k u a),
          ap (λ (g : ℕ → TaskState). g u) kept.0,
        ))
        s.asleep)

-- So does a change of state of a task that does not sleep.
pub state_update-Sleepers :
    (k k' : Kernel) (t : ℕ) (sl : List ℕ)
    → Sleepers k sl
    → Fresh t sl
    → k'.sleep_queue ≡ k.sleep_queue
    → k'.wake_tick ≡ k.wake_tick
    → k'.priority ≡ k.priority
    → k'.next ≡ k.next
    → ((u : ℕ) → t ≢ u → k'.state u ≡ k.state u)
    → Sleepers k' sl
state_update-Sleepers k k' t sl s f eq ew ep en es =
    Sleepers-frame k k' sl s eq ew ep
      (All-map _ _ sl (λ u tu. (ap (λ (g : ℕ → ℕ). g u) en, es u tu)) (All-Fresh t sl f))

requeue_old-Sleepers :
    (k : Kernel) (q : ℕ → List ℕ) (sl : List ℕ)
    → Inv k q
    → Sleepers k sl
    → Sleepers (requeue_old k) sl
unfolding requeue_old
requeue_old-Sleepers k q sl v s = elim (Bool-cases (is_running (k.state old))) [
  | inl e ↦
      let k1 = record k { state = update k.state old ready } in
      let f = Fresh-awake k old sl s.asleep (runs e) in
      rw e (
        rq_enqueue-Sleepers k1 q old sl
          (Rep-frame k k1 q old v.rep v.off refl refl refl refl refl
            (λ u ne. update_ne k.state old u ready ne))
          (state_update-Sleepers k k1 old sl s f refl refl refl refl
            (λ u ne. update_ne k.state old u ready ne))
          f)
  | inr e ↦ rw e s
]
  where
    old : ℕ
    old = k.current_task

    runs : is_running (k.state k.current_task) ≡ true → k.state k.current_task ≢ sleeping
    runs e z = ground arith

take_next-Sleepers :
    (k : Kernel) (q : ℕ → List ℕ) (sl : List ℕ)
    → Rep k q
    → Sleepers k sl
    → Sleepers (take_next k).1 sl × Fresh (take_next k).0 sl
take_next-Sleepers k q sl r s = elim (Option-cases (highest q)) [
  | inl e ↦ rw (take_next-none k q r e) (s, s.idle_awake)
  | inr (p, e) ↦
      let (t, ts, c) = some_cons k q r p e in
      let own = subst (All (Queued k p)) c (r.members p) in
      rw (take_next-some k q r p t ts e c)
        (rq_remove-Sleepers k q t p ts sl r c s, Fresh-awake k t sl s.asleep (awake t own.0.2))
]
  where
    awake : (t : ℕ) → k.state t ≡ ready → k.state t ≢ sleeping
    awake t e z = ground arith

dispatch-Sleepers :
    (k : Kernel) (t : ℕ) (sl : List ℕ) → Sleepers k sl → Fresh t sl → Sleepers (dispatch t k) sl
unfolding dispatch
dispatch-Sleepers k t sl s f = elim (Bool-cases (t == k.current_task)) [
  | inl e ↦ rw e (
      state_update-Sleepers k _ t sl s f refl refl refl refl
        (λ u ne. update_ne k.state t u running ne))
  | inr e ↦ rw e (
      state_update-Sleepers k _ t sl s f refl refl refl refl
        (λ u ne. update_ne k.state t u running ne))
]

-- A yield leaves the sleep queue as it is.
pub yield-Sleepers :
    (k : Kernel) (q : ℕ → List ℕ) (sl : List ℕ)
    → Inv k q
    → Sleepers k sl
    → Sleepers (sched_yield_from_isr k) sl
unfolding sched_yield_from_isr
yield-Sleepers k q sl v s =
    let k1 = requeue_old k in
    let r1 = requeue_old-Rep k q v in
    let (s2, f) =
      take_next-Sleepers k1 (requeued k q v) sl r1.0 (requeue_old-Sleepers k q sl v s) in
    dispatch-Sleepers (take_next k1).1 (take_next k1).0 sl s2 f
