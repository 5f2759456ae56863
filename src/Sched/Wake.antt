-- ===== src/Sched/Wake.antt =====
-- The first loop of `sched_tick_isr` of kernel/scheduler.c: who wakes, and in which order.
use nanos_os.Common.{
  ℕ, zero, suc, ◌<◌, ◌≡◌, refl, sym, ap, ◌∙◌, ◌≢◌, inl, inr, true, false, some, List, [], ◌∷◌,
  arith, ◌==◌, leb, if◌then◌else◌, All, All-map₂, Bool-cases, length,
}
use nanos_os.Common.Maps.{Fresh-snoc, update, All-Fresh, update_elim, update_self, update_ne, Fresh}
use nanos_os.Common.Chain.{Chain-update, IsSorted}
use nanos_os.Kernel.{Kernel, TaskState, ready, running, null}
use nanos_os.Sched.{wake_sleepers, rq_enqueue}
use nanos_os.Sched.Ready.{Rep, IsOff, enqueue, enqueue-Rep, All-Queued_frame}
use nanos_os.Sched.Ring.{Ring-next_update}
use nanos_os.Sched.Yield.{Inv, current-rq_enqueue}
use nanos_os.Sched.Sleep.{
  Sleepers, Fresh-awake, Fresh-not_ready, Kept-rq_enqueue, Sleepers-frame, next-rq_enqueue,
}

-- On lists: the sleepers whose time has come leave from the front, each to the end of its queue.
pub wake_list : (ℕ → ℕ) → (ℕ → ℕ) → ℕ → List ℕ → (ℕ → List ℕ) → List ℕ × (ℕ → List ℕ)
wake_list wake prio now [] q = ([], q)
wake_list wake prio now (x ∷ xs) q =
    if leb (wake x) now then wake_list wake prio now xs (enqueue q (prio x) x) else (x ∷ xs, q)

-- What the loop does from the kernel state `k`, where `c` is a task that is awake and in no queue.
pub record Woken (k k' : Kernel) (now c : ℕ) (sl : List ℕ) (q : ℕ → List ℕ) : Type 0 where
  pub rep : Rep k' (wake_list k.wake_tick k.priority now sl q).1
  pub sleepers : Sleepers k' (wake_list k.wake_tick k.priority now sl q).0
  pub off : IsOff c (wake_list k.wake_tick k.priority now sl q).1
  pub current : k'.current_task ≡ k.current_task
  pub prio : k'.priority ≡ k.priority
  pub wake : k'.wake_tick ≡ k.wake_tick
  pub state_c : k'.state c ≡ k.state c
  pub timers : k'.timer_list ≡ k.timer_list

IsSorted-weaken : (key : ℕ → ℕ) (m : ℕ) (xs : List ℕ) → IsSorted key m xs → IsSorted key 0 xs
IsSorted-weaken key m [] s = tt
IsSorted-weaken key m (x ∷ xs) s = (omega arith, s.1)

-- One sleeper wakes.
abbrev wake_one : ℕ → Kernel → Kernel
wake_one x k =
    record (rq_enqueue x
      (record k { state = update k.state x ready; next = update k.next x null })) {
        sleep_queue = k.next x;
      }

module _ (k : Kernel) (q : ℕ → List ℕ) (x : ℕ) (xs : List ℕ) (r : Rep k q)
    (s : Sleepers k (x ∷ xs)) where
  IsOff-queues : IsOff x q
  IsOff-queues p = Fresh-not_ready k p x (q p) (r.members p) (λ z. ground (arith, s.asleep.0.1))

  abbrev k1 : Kernel
  k1 = record k { state = update k.state x ready; next = update k.next x null }

  k1-Rep : Rep k1 q
  k1-Rep = record {
    rings = λ p.
        Ring-next_update k.next k.prev (k.run_queue p) (q p) x null (r.rings p) (IsOff-queues p);
    bits = r.bits;
    members = λ p.
        All-Queued_frame k k1 x p (q p) (λ u. refl) (λ u ne. update_ne k.state x u ready ne)
          (IsOff-queues p) (r.members p);
    levels = r.levels;
  }

  wake_one-Rep : Rep (wake_one x k) (enqueue q (k.priority x) x)
  wake_one-Rep =
      let w =
        enqueue-Rep k1 q x k1-Rep IsOff-queues (s.asleep.0.0, refl, update_self k.state x ready)
          s.asleep.0.2 in
      record { rings = w.rings; bits = w.bits; members = w.members; levels = w.levels }

  rest-Sleepers : Sleepers (record k1 { sleep_queue = k.next x }) xs
  rest-Sleepers = record {
    chain = Chain-update k.next (k.next x) xs x null s.chain.2 s.distinct.0;
    distinct = s.distinct.1;
    asleep =
        All-map₂ _ _ _ xs (λ u xu a. (a.0, update_ne k.state x u ready xu ∙ a.1, a.2))
          (All-Fresh x xs s.distinct.0) s.asleep.1;
    sorted = IsSorted-weaken k.wake_tick (k.wake_tick x) xs s.sorted.1;
    idle_awake = s.idle_awake.1;
  }

  wake_one-Sleepers : Sleepers (wake_one x k) xs
  wake_one-Sleepers =
      let kept = Kept-rq_enqueue x k1 in
      Sleepers-frame (record k1 { sleep_queue = k.next x }) (wake_one x k) xs rest-Sleepers refl
        kept.3 kept.1
        (All-map₂ _ _ _ xs
          (λ u xu a. (
            next-rq_enqueue k1 q x u k1-Rep xu (λ z. ground (arith, a.1)),
            ap (λ (g : ℕ → TaskState). g u) kept.0,
          ))
          (All-Fresh x xs s.distinct.0) rest-Sleepers.asleep)

Woken-cons :
    (k m k' : Kernel) (now c x : ℕ) (xs : List ℕ) (q : ℕ → List ℕ)
    → leb (k.wake_tick x) now ≡ true
    → m.wake_tick ≡ k.wake_tick
    → m.priority ≡ k.priority
    → m.current_task ≡ k.current_task
    → m.timer_list ≡ k.timer_list
    → m.state c ≡ k.state c
    → Woken m k' now c xs (enqueue q (k.priority x) x)
    → Woken k k' now c (x ∷ xs) q
unfolding wake_list
Woken-cons k m k' now c x xs q e hw hp hc ht hs w = record {
  rep = rw e (rw (hw, hp) at w.rep);
  sleepers = rw e (rw (hw, hp) at w.sleepers);
  off = rw e (rw (hw, hp) at w.off);
  current = w.current ∙ hc;
  prio = w.prio ∙ hp;
  wake = w.wake ∙ hw;
  state_c = w.state_c ∙ hs;
  timers = w.timers ∙ ht;
}

IsOff-enqueue : (q : ℕ → List ℕ) (p t c : ℕ) → IsOff c q → c ≢ t → IsOff c (enqueue q p t)
IsOff-enqueue q p t c oc ne p' =
    update_elim (λ ts _. Fresh c ts) q q p _ [] p' (λ _. Fresh-snoc c t (q p) (oc p) ne)
      (λ _. oc p')

timer_list-rq_enqueue : (t : ℕ) (k : Kernel) → (rq_enqueue t k).timer_list ≡ k.timer_list
unfolding rq_enqueue
timer_list-rq_enqueue t k = ground arith

wake_sleepers_cons :
    (f now x : ℕ) (k : Kernel)
    → k.sleep_queue ≡ x
    → x ≢ null
    → leb (k.wake_tick x) now ≡ true
    → wake_sleepers (suc f) now k.sleep_queue k ≡ wake_sleepers f now (k.next x) (wake_one x k)
unfolding wake_sleepers
wake_sleepers_cons f now x k h xn e = rw (h, nonnull, e) refl
  where
    nonnull : (x == null) ≡ false
    nonnull = ground (arith, xn)

-- The loop ends and does what `wake_list` says.
pub wake_sleepers-Woken :
    (f now c : ℕ) (sl : List ℕ) (k : Kernel) (q : ℕ → List ℕ)
    → Rep k q
    → Sleepers k sl
    → Fresh c sl
    → IsOff c q
    → length sl < f
    → (k' : Kernel) × (wake_sleepers f now k.sleep_queue k ≡ some k') × Woken k k' now c sl q
unfolding wake_sleepers wake_list
wake_sleepers-Woken zero now c sl k q r s fc oc l = absurd (omega arith)
wake_sleepers-Woken (suc f) now c [] k q r s fc oc l = (
  k,
  rw s.chain refl,
  record {
    rep = r;
    sleepers = s;
    off = oc;
    current = refl;
    prio = refl;
    wake = refl;
    state_c = refl;
    timers = refl;
  },
)
wake_sleepers-Woken (suc f) now c (x ∷ xs) k q r s fc oc l =
    elim (Bool-cases (leb (k.wake_tick x) now)) [
      | inl e ↦
          let ih =
            wake_sleepers-Woken f now c xs (wake_one x k) (enqueue q (k.priority x) x)
              (wake_one-Rep k q x xs r s) (wake_one-Sleepers k q x xs r s) fc.1
              (IsOff-enqueue q (k.priority x) x c oc fc.0) (omega arith) in
          let kx = record k { state = update k.state x ready; next = update k.next x null } in
          let kept = Kept-rq_enqueue x kx in
          (
            ih.0,
            wake_sleepers_cons f now x k s.chain.0 s.chain.1 e ∙ ih.1,
            Woken-cons k (wake_one x k) ih.0 now c x xs q e kept.3 kept.1 (current-rq_enqueue x kx)
                (timer_list-rq_enqueue x kx)
                (ap (λ (g : ℕ → TaskState). g c) kept.0
                  ∙ update_ne k.state x c ready (λ z. fc.0 (sym z)))
                ih.2,
          )
      | inr e ↦ (
        k,
        rw (s.chain.0, nonnull, e) refl,
        record {
          rep = rw e r;
          sleepers = rw e s;
          off = rw e oc;
          current = refl;
          prio = refl;
          wake = refl;
          state_c = refl;
          timers = refl;
        },
      )
    ]
  where
    nonnull : (x == null) ≡ false
    nonnull = ground (arith, s.chain.1)

-- Who is left asleep has still to wait, if the queue was in order.
wake_list-later :
    (wake prio : ℕ → ℕ) (now m : ℕ) (sl : List ℕ) (q : ℕ → List ℕ)
    → IsSorted wake m sl
    → All (λ u. now < wake u) (wake_list wake prio now sl q).0
unfolding wake_list
wake_list-later wake prio now m [] q s = tt
wake_list-later wake prio now m (x ∷ xs) q s = elim (Bool-cases (leb (wake x) now)) [
  | inl e ↦ rw e (wake_list-later wake prio now (wake x) xs (enqueue q (prio x) x) s.1)
  | inr e ↦ rw e (ground arith, later xs (wake x) (ground arith) s.1)
]
  where
    later : (ys : List ℕ) (y : ℕ) → now < y → IsSorted wake y ys → All (λ u. now < wake u) ys
    later [] y h t = tt
    later (z ∷ zs) y h t = (omega arith, later zs (wake z) (omega arith) t.1)

-- The loop over the sleep queue in a tick ends if its bound exceeds the number of sleepers. Every
-- task whose wake tick has come leaves the sleep queue, in order, for the end of the run queue of
-- its priority; each task that stays has a wake tick still to come. The queues stay well linked.
pub wake_sleepers_refines :
    (f now : ℕ) (sl : List ℕ) (k : Kernel) (q : ℕ → List ℕ)
    → Inv k q
    → Sleepers k sl
    → k.state k.current_task ≡ running
    → length sl < f
    → let (left, q') = wake_list k.wake_tick k.priority now sl q in
      (k' : Kernel) × (wake_sleepers f now k.sleep_queue k ≡ some k')
      × Inv k' q'
      × Sleepers k' left
      × All (λ u. now < k.wake_tick u) left
wake_sleepers_refines f now sl k q v s run l =
    let c = k.current_task in
    let (k', e, w) =
      wake_sleepers-Woken f now c sl k q v.rep s (Fresh-awake k c sl s.asleep (λ z. ground arith))
        v.off l in
    (
      k',
      e,
      record {
        rep = w.rep;
        off = rw w.current w.off;
        nonnull = rw w.current v.nonnull;
        level = rw (w.current, w.prio) v.level;
        idle_level = rw w.prio v.idle_level;
      },
      w.sleepers,
      wake_list-later k.wake_tick k.priority now 0 sl q s.sorted,
    )
