-- ===== src/Sync.antt =====
-- kernel/scheduler.c: mutexes, semaphores, message queues and timers.
-- `k_mutex_lock` runs with interrupts enabled but for the insertion into the list of waiters: Locking
-- takes it one access of the mutex at a time, with other code between any two of them.
-- `k_sem_take` loops: each pass of the loop is a call of `take_pass`, which returns to its caller, or
-- parks the current task and yields. A parked task makes its next pass when it runs again, on the
-- state of that time. A pass is taken whole here, although the code masks interrupts only for the
-- insertion into the list of waiters. A compare-and-swap of the count that is lost to another task,
-- after which the code goes on as if the count were 0, is thus not modelled.
-- The count of a semaphore is never negative: it starts at 0 or more, and is lowered only above 0.
-- Counts and maxima are `int32_t`: the naturals here stand for numbers below 2^31, as those of all
-- semaphores of the system are, and the capacities of the message queues.
pub mod Semaphores
pub mod Mutexes
pub mod Locking
pub mod Exclusion
pub mod Queues
pub mod Timers
mod Tests
use mathlib.Core.Option
use nanos_os.Common.{
  ℕ, suc, ◌+◌, ◌-◌, ◌*◌, ◌%◌, Bool, true, false, Option, none, some, List, ◌==◌, ◌&&◌, ◌||◌, not,
  leb, ltb, if◌then◌else◌,
}
use nanos_os.Common.Maps.{update}
use nanos_os.Common.Chain.{chain_insert}
use nanos_os.Kernel.{
  Kernel, Err, ok, err_timeout, err_busy, err_perm, TaskState, ready, blocked, null, k_no_wait,
  k_forever, u64_mod, u32_mod,
}
use nanos_os.Sched.{rq_enqueue, sched_yield_from_isr}

-- A pass returns a code, or the task waits and passes again later.
pub data Pass : Type 0 where
  returned : Err → Pass
  parked : Pass

-- `k_mutex_t`; `locked` is the atomic flag.
pub record Mutex : Type 0 where
  pub locked : Bool
  pub owner : ℕ
  pub wait_head : ℕ

-- `k_sem_t`
pub record Sem : Type 0 where
  pub count : ℕ
  pub max_count : ℕ
  pub wait_head : ℕ

-- The test of both loops on the tick count. `dl` is the deadline, computed at the call.
pub deadline : ℕ → Kernel → ℕ
deadline tms k = (k.tick_count + tms) % u64_mod

abbrev pub expired : ℕ → ℕ → Kernel → Bool
expired tms dl k = not (tms == k_forever) && leb dl k.tick_count

-- The current task goes into the list of waiters that starts at `head`, behind those for which `go`
-- holds, and yields.
pub park : ℕ → (ℕ → Bool) → ℕ → Kernel → Option (ℕ × Kernel)
park fuel go head k =
    Option.map (λ (r : ℕ × (ℕ → ℕ)). (r.0, sched_yield_from_isr (record k { next = r.1 })))
      (chain_insert fuel go k.next head k.current_task)

-- The waiter `w` becomes ready.
pub wake_waiter : ℕ → Kernel → Kernel
wake_waiter w k = rq_enqueue w (record k { state = update k.state w ready })

pub k_mutex_init : Mutex
k_mutex_init = record { locked = false; owner = null; wait_head = null }

-- Priority inheritance: the owner gets the priority of the task that wants the mutex.
pub raise_owner : Mutex → Kernel → Kernel
raise_owner m k = record k { priority = update k.priority m.owner (k.priority k.current_task) }

pub k_mutex_unlock : Mutex → Kernel → Err × Mutex × Kernel
unfolding wake_waiter
k_mutex_unlock m k =
    let k1 = record k { priority = update k.priority m.owner (k.base_priority m.owner) } in
    let w = m.wait_head in
    let m1 = record m { owner = null; locked = false } in
    let m2 = record m1 { wait_head = k1.next w } in
    let k2 = wake_waiter w (record k1 { wait_obj = update k1.wait_obj w null }) in
    if not (m.owner == k.current_task)
    then (err_perm, m, k)
    else (if w == null
        then (ok, m1, sched_yield_from_isr k1)
        else (ok, m2, sched_yield_from_isr k2))

pub k_sem_init : ℕ → ℕ → Sem
k_sem_init init max = record { count = init; max_count = max; wait_head = null }

pub take_pass : ℕ → ℕ → ℕ → Sem → Kernel → Option (Pass × Sem × Kernel)
unfolding park
take_pass fuel tms dl s k =
    let k1 = record k { state = update k.state k.current_task blocked } in
    if ltb 0 s.count
    then some (returned ok, record s { count = s.count - 1 }, k)
    else (if tms == k_no_wait
        then some (returned err_busy, s, k)
        else (if expired tms dl k
            then some (returned err_timeout, s, k)
            else Option.map (λ (r : ℕ × Kernel). (parked, record s { wait_head = r.0 }, r.1))
                (park fuel (λ x. true) s.wait_head k1)))

pub k_sem_give : Sem → Kernel → Sem × Kernel
unfolding wake_waiter
k_sem_give s k =
    let w = s.wait_head in
    if w == null
    then (if ltb s.count s.max_count then (record s { count = s.count + 1 }, k) else (s, k))
    else (record s { wait_head = k.next w }, sched_yield_from_isr (wake_waiter w k))

-- Whether the `k_sem_take` at the start of `k_msgq_send` and `k_msgq_recv` has returned K_OK.
abbrev pub after_take : Pass → Bool
after_take (returned ok) = true
after_take _ = false

-- `k_msgq_t`: `slot i` is the item at `buf + i * item_size`. `A` is the type of the items.
pub record Msgq (A : Type 0) : Type 0 where
  pub slot : ℕ → A
  pub capacity : ℕ
  pub head : ℕ
  pub tail : ℕ
  pub count : ℕ
  pub not_empty : Sem
  pub not_full : Sem

module _ {A : Type 0} where
  pub k_msgq_init : (ℕ → A) → ℕ → Msgq A
  unfolding k_sem_init
  k_msgq_init buf cap = record {
    slot = buf;
    capacity = cap;
    head = 0;
    tail = 0;
    count = 0;
    not_empty = k_sem_init 0 cap;
    not_full = k_sem_init cap cap;
  }

  -- What follows the `k_sem_take` of `k_msgq_send` once it has returned K_OK.
  pub put_item : A → Msgq A → Kernel → Msgq A × Kernel
  unfolding k_sem_give
  put_item item q k =
      let (s, k') = k_sem_give q.not_empty k in
      (
        record q {
          slot = update q.slot q.tail item;
          tail = (q.tail + 1) % q.capacity;
          count = (q.count + 1) % u32_mod;
          not_empty = s;
        },
        k',
      )

  -- And of `k_msgq_recv`.
  pub get_item : Msgq A → Kernel → A × Msgq A × Kernel
  unfolding k_sem_give
  get_item q k =
      let (s, k') = k_sem_give q.not_full k in
      (
        q.slot q.head,
        record q {
          head = (q.head + 1) % q.capacity;
          count = (q.count + u32_mod - 1) % u32_mod;
          not_full = s;
        },
        k',
      )

  pub send_pass : ℕ → ℕ → ℕ → A → Msgq A → Kernel → Option (Pass × Msgq A × Kernel)
  unfolding take_pass put_item
  send_pass fuel tms dl item q k =
      Option.map
        (λ (r : Pass × Sem × Kernel).
          let q' = record q { not_full = r.1 } in
          let (q'', k') = put_item item q' r.2 in
          if after_take r.0 then (r.0, q'', k') else (r.0, q', r.2))
        (take_pass fuel tms dl q.not_full k)

  pub recv_pass : ℕ → ℕ → ℕ → Msgq A → Kernel → Option (Pass × Option A × Msgq A × Kernel)
  unfolding take_pass get_item
  recv_pass fuel tms dl q k =
      Option.map
        (λ (r : Pass × Sem × Kernel).
          let q' = record q { not_empty = r.1 } in
          let (item, q'', k') = get_item q' r.2 in
          if after_take r.0 then (r.0, some item, q'', k') else (r.0, none, q', r.2))
        (take_pass fuel tms dl q.not_empty k)

-- `k_timer_start` on the timer at `t`.
pub k_timer_start : ℕ → ℕ → ℕ → Bool → Kernel → Option Kernel
k_timer_start fuel t ms periodic k =
    let k1 = record k {
      expire_tick = update k.expire_tick t ((k.tick_count + ms) % u64_mod);
      period_ticks = update k.period_ticks t (if periodic then ms else 0);
      active = update k.active t true;
    } in
    Option.map (λ (r : ℕ × (ℕ → ℕ)). record k1 { timer_list = r.0; timer_next = r.1 })
      (chain_insert fuel (λ x. leb (k1.expire_tick x) (k1.expire_tick t)) k1.timer_next
        k1.timer_list t)
