-- ===== src/Sched.antt =====
-- kernel/scheduler.c: the run queues, the sleep queue and the choice of the next task.
-- The spin lock `s_sched_lock` and the interrupt level are not modelled: each function here runs
-- with interrupts masked on one core, so no other code runs between its statements.
-- `context_switch` (boot/startup.S) saves and loads registers only.
pub mod Ring
pub mod Ready
pub mod Removal
pub mod Yield
pub mod Sleep
pub mod Doze
pub mod Wake
pub mod Creation
pub mod Sample
mod Tests
use mathlib.Core.Option
use nanos_os.Common.{
  ℕ, zero, suc, ◌+◌, ◌-◌, ◌%◌, Bool, true, false, Option, none, some, List, take, ◌==◌, ◌&&◌, ◌||◌,
  leb, ltb, if◌then◌else◌,
}
use nanos_os.Common.Maps.{update}
use nanos_os.Common.Chain.{chain_insert}
use nanos_os.Kernel.{
  Kernel, Err, ok, err_inval, max_tasks, max_priority_levels, TaskState, ready, running, sleeping,
  null, idle_tcb, time_slice_ticks, u32_mod, u64_mod,
}

-- The greatest number below `n` that passes: `31 - clz` of the word with these bits at `n = 32`.
pub top_bit : ℕ → (ℕ → Bool) → Option ℕ
top_bit zero bit = none
top_bit (suc n) bit = if bit n then some n else top_bit n bit

-- `none` is -1.
pub prio_highest : Kernel → Option ℕ
unfolding top_bit
prio_highest k = top_bit 32 k.prio_bitmap

pub rq_enqueue : ℕ → Kernel → Kernel
rq_enqueue t k =
    let p = k.priority t in
    let h = k.run_queue p in
    let tail = k.prev h in
    if h == null
    then record k {
      next = update k.next t t;
      prev = update k.prev t t;
      run_queue = update k.run_queue p t;
      prio_bitmap = update k.prio_bitmap p true;
    }
    else record k {
      next = update (update k.next tail t) t h;
      prev = update (update k.prev t tail) h t;
      prio_bitmap = update k.prio_bitmap p true;
    }

pub rq_remove : ℕ → Kernel → Kernel
rq_remove t k =
    let p = k.priority t in
    let next1 = update k.next (k.prev t) (k.next t) in
    let prev1 = update k.prev (next1 t) (k.prev t) in
    if k.next t == t
    then record k {
      run_queue = update k.run_queue p null;
      prio_bitmap = update k.prio_bitmap p false;
      next = update k.next t null;
      prev = update k.prev t null;
    }
    else record k {
      run_queue = if k.run_queue p == t then update k.run_queue p (next1 t) else k.run_queue;
      next = update next1 t null;
      prev = update prev1 t null;
    }

abbrev pub is_running : TaskState → Bool
is_running running = true
is_running _ = false

-- The first step of a yield: a task that still runs goes to the end of its queue.
pub requeue_old : Kernel → Kernel
unfolding rq_enqueue
requeue_old k =
    let old = k.current_task in
    if is_running (k.state old)
    then rq_enqueue old (record k { state = update k.state old ready })
    else k

-- The second: the head of the highest queue, taken off it, or the idle task.
pub take_next : Kernel → ℕ × Kernel
unfolding prio_highest rq_remove
take_next k = elim (prio_highest k) [
  | none ↦ (idle_tcb, k)
  | some hp ↦ (k.run_queue hp, rq_remove (k.run_queue hp) k)
]

-- The third: it runs with a full time slice.
pub dispatch : ℕ → Kernel → Kernel
dispatch t k =
    let k' = record k {
      state = update k.state t running;
      slice_ticks = update k.slice_ticks t time_slice_ticks;
    } in
    if t == k.current_task
    then k'
    else record k' { current_task = t; ctx_switches = (k.ctx_switches + 1) % u32_mod }

pub sched_yield_from_isr : Kernel → Kernel
unfolding requeue_old take_next dispatch
sched_yield_from_isr k = let (t, k') = take_next (requeue_old k) in dispatch t k'

-- The loops below follow links in memory: they take a bound on their rounds, and give none if it is
-- reached.
pub sleep_enqueue : ℕ → ℕ → Kernel → Option Kernel
sleep_enqueue fuel t k =
    Option.map (λ (r : ℕ × (ℕ → ℕ)). record k { sleep_queue = r.0; next = r.1 })
      (chain_insert fuel (λ x. leb (k.wake_tick x) (k.wake_tick t)) k.next k.sleep_queue t)

-- The current task leaves the CPU until `ticks` ticks have passed. Also `task_sleep_ms`: a tick is a
-- millisecond.
pub task_sleep_ticks : ℕ → ℕ → Kernel → Option Kernel
unfolding sleep_enqueue sched_yield_from_isr
task_sleep_ticks fuel ticks k =
    let t = k.current_task in
    let k' = record k {
      wake_tick = update k.wake_tick t ((k.tick_count + ticks) % u64_mod);
      state = update k.state t sleeping;
    } in
    if ticks == 0
    then some (sched_yield_from_isr k)
    else Option.map sched_yield_from_isr (sleep_enqueue fuel t k')

-- The first loop of `sched_tick_isr`: the sleepers from `st` on whose time has come.
pub wake_sleepers : ℕ → ℕ → ℕ → Kernel → Option Kernel
unfolding rq_enqueue
wake_sleepers zero now st k = none
wake_sleepers (suc f) now st k =
    let nx = k.next st in
    let k1 = record k { state = update k.state st ready; next = update k.next st null } in
    let rest = wake_sleepers f now nx (record (rq_enqueue st k1) { sleep_queue = nx }) in
    if st == null then some k else if leb (k.wake_tick st) now then rest else some k

-- One round of the second loop. `fire` is what the callbacks of the timers do.
pub run_timer : (ℕ → Kernel → Kernel) → ℕ → ℕ → Kernel → Kernel
run_timer fire now tmr k =
    if k.active tmr && leb (k.expire_tick tmr) now
    then (let k' = fire tmr k in
        if k'.period_ticks tmr == 0
        then record k' { active = update k'.active tmr false }
        else record k' {
          expire_tick = update k'.expire_tick tmr ((now + k'.period_ticks tmr) % u64_mod);
        })
    else k

pub run_timers : (ℕ → Kernel → Kernel) → ℕ → ℕ → ℕ → Kernel → Option Kernel
unfolding run_timer
run_timers fire zero now tmr k = none
run_timers fire (suc f) now tmr k =
    let rest = run_timers fire f now (k.timer_next tmr) (run_timer fire now tmr k) in
    if tmr == null then some k else rest

abbrev pub above : Option ℕ → ℕ → Bool
above none p = false
above (some hp) p = ltb p hp

-- The end of `sched_tick_isr`: the running task's slice, and preemption.
pub charge_slice : Kernel → Kernel
unfolding sched_yield_from_isr
charge_slice k =
    let cur = k.current_task in
    let slice = k.slice_ticks cur - 1 in
    let k' = record k { slice_ticks = update k.slice_ticks cur slice } in
    if (slice == 0 || above (prio_highest k) (k.priority cur)) && k.scheduler_running
    then sched_yield_from_isr k'
    else k'

pub sched_tick_isr : (ℕ → Kernel → Kernel) → ℕ → Kernel → Option Kernel
unfolding wake_sleepers run_timers charge_slice
sched_tick_isr fire fuel k =
    let now = (k.tick_count + 1) % u64_mod in
    let k1 = record k { tick_count = now; irq_count = (k.irq_count + 1) % u32_mod } in
    Option.bind (wake_sleepers fuel now k1.sleep_queue k1)
      λ k2. Option.map charge_slice (run_timers fire fuel now k2.timer_list k2)

-- The initial stack pointer: eight words below the end of the stack, rounded down to 16 bytes.
pub initial_sp : ℕ → ℕ → ℕ
initial_sp stack sz = let end = (stack + sz) % u32_mod in (end - end % 16 + u32_mod - 32) % u32_mod

-- What `task_create` writes before it enqueues the task: the TCB at `t`, the first stack frame, and the
-- entry in the task table. The linker places `_task_trampoline` and `task_exit_hook`.
pub new_task :
    (trampoline exit_hook t : ℕ) → List ℕ → (entry arg stack sz prio : ℕ) → Kernel → Kernel
unfolding initial_sp
new_task trampoline exit_hook t name entry arg stack sz prio k =
    let sp = initial_sp stack sz in
    record k {
      pc = update k.pc t trampoline;
      ps = update k.ps t 0x0004_0000;
      a1 = update k.a1 t sp;
      a2 = update k.a2 t entry;
      a3 = update k.a3 t arg;
      stack_base = update k.stack_base t stack;
      stack_size = update k.stack_size t sz;
      stack_guard = update k.stack_guard t 0xDEAD_BEEF;
      id = update k.id t k.task_count;
      name = update k.name t (take 15 name);
      state = update k.state t ready;
      priority = update k.priority t prio;
      base_priority = update k.base_priority t prio;
      wake_tick = update k.wake_tick t 0;
      slice_ticks = update k.slice_ticks t time_slice_ticks;
      wait_obj = update k.wait_obj t null;
      next = update k.next t null;
      prev = update k.prev t null;
      tasks = if ltb k.task_count max_tasks then update k.tasks k.task_count t else k.tasks;
      task_count = (k.task_count + 1) % u32_mod;
      word =
          update (update (update (update k.word sp entry) (sp + 4) sp) (sp + 8) arg) (sp + 12)
            exit_hook;
    }

pub task_create :
    (trampoline exit_hook t : ℕ) → List ℕ → (entry arg stack sz prio : ℕ) → Kernel → Err × Kernel
unfolding rq_enqueue new_task
task_create trampoline exit_hook t name entry arg stack sz prio k =
    if (t == null)
      || (entry == null)
      || (stack == null)
      || ltb sz 512
      || leb max_priority_levels prio
    then (err_inval, k)
    else (ok, rq_enqueue t (new_task trampoline exit_hook t name entry arg stack sz prio k))
