-- ===== src/Sched/Sample.antt =====
-- A small system for the tests: the idle task 1, the running task 2, the ready task 4, and the task 6,
-- which sleeps until tick 5. Their priority is 3, the idle task's 0.
use nanos_os.Common.{ℕ, refl, ◌<◌, List, [], ◌∷◌, true, false, arith}
use nanos_os.Common.Maps.{update, update_elim, Fresh}
use nanos_os.Kernel.{Kernel, ready, running, sleeping}
use nanos_os.Sched.{rq_enqueue}
use nanos_os.Sched.Ready.{Queued, Rep, IsOff, enqueue, enqueue-Rep}
use nanos_os.Sched.Yield.{Inv}
use nanos_os.Sched.Sleep.{Sleepers}

abbrev pub no_tasks : ℕ → List ℕ
no_tasks p = []

abbrev pub unqueued : Kernel
unqueued = record {
  tick_count = 3;
  scheduler_running = true;
  current_task = 2;
  tasks = λ i. 0;
  task_count = 4;
  run_queue = λ p. 0;
  sleep_queue = 6;
  timer_list = 0;
  ctx_switches = 0;
  irq_count = 0;
  prio_bitmap = λ p. false;
  pc = λ t. 0;
  ps = λ t. 0;
  a1 = λ t. 0;
  a2 = λ t. 0;
  a3 = λ t. 0;
  stack_base = λ t. 0;
  stack_size = λ t. 0;
  stack_guard = λ t. 0;
  id = λ t. t;
  name = λ t. [];
  state = update (update (λ t. ready) 2 running) 6 sleeping;
  priority = update (λ t. 3) 1 0;
  base_priority = update (λ t. 3) 1 0;
  wake_tick = update (λ t. 0) 6 5;
  slice_ticks = λ t. 10;
  wait_obj = λ t. 0;
  next = λ t. 0;
  prev = λ t. 0;
  expire_tick = λ t. 0;
  period_ticks = λ t. 0;
  active = λ t. false;
  timer_next = λ t. 0;
  word = λ a. 0;
}

abbrev pub sample : Kernel
sample = rq_enqueue 4 unqueued

abbrev pub sample_queues : ℕ → List ℕ
sample_queues = enqueue no_tasks 3 4

pub unqueued-Rep : Rep unqueued no_tasks
unqueued-Rep = record {
  rings = λ p. refl;
  bits = λ p. refl;
  members = λ p. tt;
  levels = λ p l. refl;
}

pub four : Queued unqueued 3 4
four = (ground arith, refl, refl)

pub sample-Rep : Rep sample sample_queues
sample-Rep = enqueue-Rep unqueued no_tasks 4 unqueued-Rep (λ p. tt) four (omega arith)

pub two-IsOff : IsOff 2 sample_queues
two-IsOff p =
    update_elim (λ ts _. Fresh 2 ts) no_tasks no_tasks 3 (4 ∷ []) [] p (λ _. (ground arith, tt))
      (λ _. tt)

pub sample-Inv : Inv sample sample_queues
unfolding rq_enqueue
sample-Inv = record {
  rep = sample-Rep;
  off = two-IsOff;
  nonnull = ground arith;
  level = omega arith;
  idle_level = omega arith;
}

pub sample-Sleepers : Sleepers sample (6 ∷ [])
unfolding rq_enqueue
sample-Sleepers = record {
  chain = (refl, ground arith, refl);
  distinct = (tt, tt);
  asleep = ((ground arith, refl, omega arith), tt);
  sorted = (omega arith, tt);
  idle_awake = (ground arith, tt);
}

-- The same with priority 5 for the running task.
abbrev pub hurried : Kernel
hurried = record unqueued { priority = update unqueued.priority 2 5 }

abbrev pub urgent : Kernel
urgent = rq_enqueue 4 hurried

hurried-Rep : Rep hurried no_tasks
hurried-Rep = record {
  rings = λ p. refl;
  bits = λ p. refl;
  members = λ p. tt;
  levels = λ p l. refl;
}

pub urgent-Rep : Rep urgent sample_queues
urgent-Rep =
    enqueue-Rep hurried no_tasks 4 hurried-Rep (λ p. tt) (ground arith, refl, refl) (omega arith)

pub urgent-higher : 3 < urgent.priority urgent.current_task
unfolding rq_enqueue
urgent-higher = omega arith
