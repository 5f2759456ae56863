-- ===== src/Sched/Tests.antt =====
-- The theorems on kernel/scheduler.c at a small system.
use nanos_os.Common.{◌≤◌, ◌≢◌, ◌⊎◌, ◌+◌, ◌%◌, ◌≡◌, ◌<◌, refl, some, true, [], ◌∷◌, arith, All}
use nanos_os.Common.Maps.{update}
use nanos_os.Kernel.{
  ok, err_inval, null, max_priority_levels, Kernel, running, time_slice_ticks, u64_mod, sleeping,
}
use nanos_os.Sched.{
  initial_sp, task_create, rq_enqueue, rq_remove, sched_yield_from_isr, task_sleep_ticks,
  wake_sleepers,
}
use nanos_os.Sched.Ready.{Rep, enqueue, enqueue-Rep}
use nanos_os.Sched.Removal.{remove-Rep}
use nanos_os.Sched.Yield.{Inv, choose, requeue, yield_refines}
use nanos_os.Sched.Sleep.{Sleepers, insert_sleeper}
use nanos_os.Sched.Doze.{task_sleep_ticks_refines}
use nanos_os.Sched.Wake.{wake_list, wake_sleepers_refines}
use nanos_os.Sched.Creation.{task_create_lem}
use nanos_os.Sched.Sample.{
  no_tasks, unqueued, sample, sample_queues, unqueued-Rep, four, sample-Rep, sample-Inv,
  sample-Sleepers,
}

enqueue-Rep_example : Rep (rq_enqueue 4 unqueued) (enqueue no_tasks 3 4)
enqueue-Rep_example = enqueue-Rep unqueued no_tasks 4 unqueued-Rep (λ p. tt) four (omega arith)

remove-Rep_example : Rep (rq_remove 4 sample) (update sample_queues 3 [])
remove-Rep_example = remove-Rep sample sample_queues 4 3 [] sample-Rep refl

yield_refines_example :
    let k' = sched_yield_from_isr sample in
    let (t, q') = choose (requeue sample_queues 2 3 true) in
    Inv k' q'
    × (k'.current_task ≡ t)
    × (k'.state t ≡ running)
    × (k'.slice_ticks t ≡ time_slice_ticks)
unfolding rq_enqueue
yield_refines_example = yield_refines sample sample_queues sample-Inv

-- The task that yields has the priority of the one that waits, which runs next.
yield_next : (sched_yield_from_isr sample).current_task ≡ 4
unfolding rq_enqueue sched_yield_from_isr
yield_next = refl

woken : Kernel
woken = record sample {
  state = update sample.state 7 sleeping;
  wake_tick = update sample.wake_tick 7 5;
}

woken-Sleepers : Sleepers woken (6 ∷ [])
unfolding woken rq_enqueue
woken-Sleepers = record {
  chain = sample-Sleepers.chain;
  distinct = (tt, tt);
  asleep = ((ground arith, refl, omega arith), tt);
  sorted = (omega arith, tt);
  idle_awake = (ground arith, tt);
}

task_sleep_ticks_refines_example :
    let wake = update sample.wake_tick 2 ((sample.tick_count + 7) % u64_mod) in
    (k' : Kernel) × (task_sleep_ticks 2 7 sample ≡ some k')
    × Inv k' (choose sample_queues).1
    × Sleepers k' (insert_sleeper wake 2 (6 ∷ []))
    × (k'.current_task ≡ (choose sample_queues).0)
unfolding rq_enqueue
task_sleep_ticks_refines_example =
    task_sleep_ticks_refines 2 7 sample sample_queues (6 ∷ []) sample-Inv sample-Sleepers refl
      (ground arith) (omega arith) (omega arith)

wake_sleepers_refines_example :
    let (left, q') = wake_list sample.wake_tick sample.priority 5 (6 ∷ []) sample_queues in
    (k' : Kernel) × (wake_sleepers 2 5 sample.sleep_queue sample ≡ some k')
    × Inv k' q'
    × Sleepers k' left
    × All (λ u. 5 < sample.wake_tick u) left
unfolding rq_enqueue
wake_sleepers_refines_example =
    wake_sleepers_refines 2 5 (6 ∷ []) sample sample_queues sample-Inv sample-Sleepers refl
      (omega arith)

task_create_lem_example :
    let (r, k') = task_create 50 60 9 [] 70 0 1000 600 3 unqueued in
    ((((9 ≡ null) ⊎ (70 ≡ null) ⊎ (1000 ≡ null) ⊎ (600 < 512) ⊎ (max_priority_levels ≤ 3))
        × (r ≡ err_inval)
        × (k' ≡ unqueued))
      ⊎ ((9 ≢ null)
          × (70 ≢ null)
          × (1000 ≢ null)
          × (512 ≤ 600)
          × (3 < max_priority_levels)
          × (r ≡ ok)
          × Rep k' (enqueue no_tasks 3 9)
          × (k'.a1 9 ≡ initial_sp 1000 600)
          × (k'.pc 9 ≡ 50)
          × (k'.current_task ≡ unqueued.current_task)))
task_create_lem_example =
    task_create_lem 50 60 9 [] 70 0 1000 600 3 unqueued no_tasks unqueued-Rep (λ p. tt)
