-- ===== src/Sched/Doze.antt =====
-- `task_sleep_ticks` of kernel/scheduler.c: the current task goes to the sleep queue and yields.
use nanos_os.Common.{
  ℕ, ◌+◌, ◌%◌, ◌<◌, ◌≡◌, refl, sym, ap, ◌∙◌, ◌≢◌, false, some, List, arith, ◌==◌, All, All-map,
  All-map₂, length,
}
use nanos_os.Common.Maps.{update, All-Fresh, update_self, update_ne, Fresh}
use nanos_os.Common.Chain.{IsSorted-frame, IsSorted-frame}
use nanos_os.Kernel.{
  Kernel, TaskState, ready, running, sleeping, null, idle_tcb, max_priority_levels, u64_mod,
}
use nanos_os.Sched.{sleep_enqueue, task_sleep_ticks, sched_yield_from_isr, is_running}
use nanos_os.Sched.Ready.{Queued, Rep, IsOff}
use nanos_os.Sched.Ring.{Ring-frame}
use nanos_os.Sched.Yield.{Inv, Rep-frame, choose, yield_parked}
use nanos_os.Sched.Sleep.{
  Asleep, Sleepers, Fresh-awake, insert_sleeper, sleep_enqueue-Sleepers, yield-Sleepers,
}

-- A ready task is not among the sleepers.
Fresh-ready :
    (k : Kernel) (p : ℕ) (ts sl : List ℕ)
    → All (Asleep k) sl
    → All (Queued k p) ts
    → All (λ u. Fresh u sl) ts
Fresh-ready k p ts sl a h =
    All-map _ _ ts (λ u w. Fresh-awake k u sl a (λ z. contrast (k.state u) w.2 z)) h
  where
    contrast : (s : TaskState) → s ≡ ready → s ≡ sleeping → ⊥
    contrast s e z = ground arith

-- Links that change only at `t` and at the sleepers leave the queues alone.
pub sleep_links-Rep :
    (k k' : Kernel) (q : ℕ → List ℕ) (t : ℕ) (sl : List ℕ)
    → Rep k q
    → IsOff t q
    → All (Asleep k) sl
    → ((u : ℕ) → u ≢ t → Fresh u sl → k'.next u ≡ k.next u)
    → k' ≡ record k { sleep_queue = k'.sleep_queue; next = k'.next }
    → Rep k' q
sleep_links-Rep k k' q t sl r off a fr e = rw e (record {
  rings = λ p. Ring-frame k.next k'.next k.prev (k.run_queue p) (q p) (r.rings p) (
      All-map₂ _ _ _ (q p) (λ u tu f. fr u (λ z. tu (sym z)) f) (All-Fresh t (q p) (off p))
        (Fresh-ready k p (q p) sl a (r.members p)));
  bits = r.bits;
  members = r.members;
  levels = r.levels;
})

-- The task's own wake tick is none of the sleepers' yet.
wake_update-Sleepers :
    (k : Kernel) (t w : ℕ) (sl : List ℕ)
    → Sleepers k sl
    → Fresh t sl
    → Sleepers
        (record k { wake_tick = update k.wake_tick t w; state = update k.state t sleeping })
        sl
wake_update-Sleepers k t w sl s f = record {
  chain = s.chain;
  distinct = s.distinct;
  asleep =
      All-map₂ _ _ _ sl (λ u tu a. (a.0, update_ne k.state t u sleeping tu ∙ a.1, a.2))
        (All-Fresh t sl f) s.asleep;
  sorted =
      IsSorted-frame k.wake_tick (update k.wake_tick t w) 0 sl
        (All-map _ _ sl (λ u tu. update_ne k.wake_tick t u w tu) (All-Fresh t sl f)) s.sorted;
  idle_awake = s.idle_awake;
}

sleep_enqueue-Inv :
    (k k' : Kernel) (q : ℕ → List ℕ)
    → Rep k' q
    → IsOff k.current_task q
    → k.current_task ≢ null
    → k.priority k.current_task < max_priority_levels
    → k.priority idle_tcb < max_priority_levels
    → k' ≡ record k { sleep_queue = k'.sleep_queue; next = k'.next }
    → Inv k' q
sleep_enqueue-Inv k k' q r off nn lv il e = record {
  rep = r;
  off = rw (ap (λ (x : Kernel). x.current_task) e) off;
  nonnull = rw (ap (λ (x : Kernel). x.current_task) e) nn;
  level = rw (ap (λ (x : Kernel). x.priority x.current_task) e) lv;
  idle_level = rw (ap (λ (x : Kernel). x.priority idle_tcb) e) il;
}

task_sleep_ticks-some :
    (fuel ticks : ℕ) (k : Kernel) {k2 : Kernel}
    → 0 < ticks
    → let t = k.current_task in
      sleep_enqueue fuel t (record k {
        wake_tick = update k.wake_tick t ((k.tick_count + ticks) % u64_mod);
        state = update k.state t sleeping;
      })
        ≡ some k2
      → task_sleep_ticks fuel ticks k ≡ some (sched_yield_from_isr k2)
unfolding task_sleep_ticks
task_sleep_ticks-some fuel ticks k pos e = rw (nonzero, e) refl
  where
    nonzero : (ticks == 0) ≡ false
    nonzero = ground arith

-- A running task other than the idle task that sleeps for some ticks enters the sleep queue behind
-- the tasks that wake no later than it, and the task of the highest priority runs instead. The run
-- queues and the sleep queue stay well linked, and the sleep queue stays in the order of waking.
pub task_sleep_ticks_refines :
    (fuel ticks : ℕ) (k : Kernel) (q : ℕ → List ℕ) (sl : List ℕ)
    → Inv k q
    → Sleepers k sl
    → k.state k.current_task ≡ running
    → idle_tcb ≢ k.current_task
    → 0 < ticks
    → length sl < fuel
    → let t = k.current_task in
      let wake = update k.wake_tick t ((k.tick_count + ticks) % u64_mod) in
      (k' : Kernel) × (task_sleep_ticks fuel ticks k ≡ some k')
      × Inv k' (choose q).1
      × Sleepers k' (insert_sleeper wake t sl)
      × (k'.current_task ≡ (choose q).0)
task_sleep_ticks_refines fuel ticks k q sl v s run ni pos l =
    let t = k.current_task in
    let w : ℕ = (k.tick_count + ticks) % u64_mod in
    let k1 = record k { wake_tick = update k.wake_tick t w; state = update k.state t sleeping } in
    let f = Fresh-awake k t sl s.asleep (λ z. awake z) in
    let s1 = wake_update-Sleepers k t w sl s f in
    let r1 =
      Rep-frame k k1 q t v.rep v.off refl refl refl refl refl
        (λ u ne. update_ne k.state t u sleeping ne) in
    let (k2, e, s2, fr, eta) =
      sleep_enqueue-Sleepers fuel t k1 sl s1 f (v.nonnull, update_self k.state t sleeping, v.level)
        ni l in
    let r2 = sleep_links-Rep k1 k2 q t sl r1 v.off s1.asleep fr eta in
    let v2 = sleep_enqueue-Inv k1 k2 q r2 v.off v.nonnull v.level v.idle_level eta in
    let asleep : is_running (k2.state k2.current_task) ≡ false =
      rw (ap (λ (x : Kernel). x.state x.current_task) eta, update_self k.state t sleeping) refl in
    let y = yield_parked k2 q v2 asleep in
    (
      sched_yield_from_isr k2,
      task_sleep_ticks-some fuel ticks k pos e,
      y.0,
      yield-Sleepers k2 q _ v2 s2,
      y.1,
    )
  where
    awake : k.state k.current_task ≡ sleeping → ⊥
    awake z = ground arith
