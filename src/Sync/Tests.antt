-- ===== src/Sync/Tests.antt =====
-- The theorems on the mutexes, semaphores, queues and timers of kernel/scheduler.c, at small states.
use nanos_os.Common.{
  ℕ, ◌+◌, ◌%◌, leb, ◌≡◌, ◌≢◌, ◌<◌, ◌≤◌, ◌⊎◌, inl, refl, none, some, true, false, [], ◌∷◌, arith,
}
use nanos_os.Common.Maps.{update}
use nanos_os.Common.Chain.{insert_after}
use nanos_os.Kernel.{Kernel, u64_mod, ok, err_busy, err_perm, null, k_no_wait}
use nanos_os.Sched.Sample.{unqueued}
use nanos_os.Sync.{
  k_timer_start, Mutex, Sem, Msgq, returned, deadline, k_mutex_init, k_mutex_unlock, k_sem_give,
  k_msgq_init, send_pass, recv_pass,
}
use nanos_os.Sync.Semaphores.{IsValid, k_sem_give_lem}
use nanos_os.Sync.Mutexes.{IsOwned, unlock_lem}
use nanos_os.Sync.Locking.{
  claimed, lost, comparing, finished, unlock, lock_step, System, called, moved, call, move, other,
  start, Reached, init, later,
}
use nanos_os.Sync.Exclusion.{Reached-Held, mutual_exclusion}
use nanos_os.Sync.Exclusion.Moves.{IsFree, HeldBy}
use nanos_os.Sync.Timers.{Timers, k_timer_start_lem}
use nanos_os.Sync.Queues.{Queue, send, recv, k_msgq_init-Queue, send_refines, recv_refines}

abbrev one_left : Sem
one_left = record { count = 1; max_count = 2; wait_head = 0 }

abbrev awaited : Sem
awaited = record { count = 0; max_count = 2; wait_head = 6 }

awaited-IsValid : IsValid awaited
awaited-IsValid = record { bounded = omega arith; idle = inl refl }

k_sem_give_lem_example :
    let s' = (k_sem_give awaited unqueued).0 in
    IsValid s'
    × (((awaited.wait_head ≡ null)
          × (awaited.count < awaited.max_count)
          × (s'.count ≡ awaited.count + 1))
        ⊎ (((awaited.wait_head ≢ null) ⊎ (awaited.max_count ≤ awaited.count))
            × (s'.count ≡ awaited.count)))
k_sem_give_lem_example = k_sem_give_lem awaited unqueued awaited-IsValid

abbrev taken : Mutex
taken = record { locked = true; owner = 4; wait_head = 0 }

abbrev free : Mutex
free = record { locked = false; owner = 0; wait_head = 0 }

-- The current task calls `k_mutex_lock`, wins the mutex and is interrupted before it stores itself as
-- the owner.
abbrev started : System
started = called k_no_wait (start unqueued)

abbrev won : System
won = moved (claimed, record k_mutex_init { locked = true }, unqueued) started

-- Task 4 tries the mutex.
abbrev four_runs : Kernel
four_runs = record unqueued { current_task = 4 }

abbrev tried : System
tried = called k_no_wait (record won { kernel = four_runs })

abbrev refused : System
refused =
    moved
      (lost (record { tms = k_no_wait; dl = deadline k_no_wait four_runs }), tried.mutex, four_runs)
      tried

-- The first task runs again and becomes the owner.
abbrev resumed : System
resumed = record refused { kernel = unqueued }

abbrev owned : System
owned = moved (finished ok, record k_mutex_init { locked = true; owner = 2 }, unqueued) resumed

tried-Reached : Reached 100 tried
unfolding k_mutex_init lock_step
tried-Reached =
    later
      (later
        (later (later (init unqueued) (call k_no_wait (ground arith) refl))
          (move 1 _ (ground arith) refl))
        (other four_runs))
      (call k_no_wait (ground arith) refl)

owned-Reached : Reached 100 owned
unfolding k_mutex_init lock_step
owned-Reached =
    later (later (later tried-Reached (move 1 _ (ground arith) refl)) (other unqueued))
      (move 1 _ (ground arith) refl)

Reached-Held_example : IsFree tried ⊎ ((t : ℕ) × HeldBy tried t)
Reached-Held_example = Reached-Held tried-Reached

mutual_exclusion_example : (owned.mutex.locked ≡ true) × (owned.mutex.owner ≡ 2) × ◌≡◌ {A = ℕ} 2 2
mutual_exclusion_example = mutual_exclusion 2 2 owned-Reached refl refl

-- Task 4 has seen that the mutex has an owner; the owner unlocks it before task 4 reads its priority.
owner_vanishes :
    (s : System) × Reached 100 s
    × (s.mutex.owner ≡ null)
    × (s.place 4 ≡ comparing (record { tms = k_no_wait; dl = deadline k_no_wait four_runs }))
unfolding k_mutex_init lock_step k_mutex_unlock
owner_vanishes = (
  _,
  later
      (later
        (later (later (later owned-Reached (other four_runs)) (move 1 _ (ground arith) refl))
          (other unqueued))
        (unlock (ground arith) refl))
      (other four_runs),
  refl,
  refl,
)

unlock_lem_example :
    let (r, m', k') = k_mutex_unlock taken unqueued in
    IsOwned m'
    × (((taken.owner ≡ unqueued.current_task) × (r ≡ ok) × (m'.locked ≡ false))
        ⊎ ((taken.owner ≢ unqueued.current_task) × (r ≡ err_perm) × (m' ≡ taken) × (k' ≡ unqueued)))
unlock_lem_example = unlock_lem taken unqueued (inl (refl, ground arith)) (ground arith)

abbrev empty_queue : Msgq ℕ
empty_queue = k_msgq_init (λ i. 0) 2

send_refines_example :
    (q' : Msgq ℕ) × (send_pass 1 k_no_wait 0 9 empty_queue unqueued
      ≡ some (returned ok, q', unqueued))
    × Queue q' (9 ∷ [])
    × (q'.capacity ≡ 2)
unfolding k_msgq_init send
send_refines_example =
    send_refines 1 0 9 empty_queue [] unqueued
      (k_msgq_init-Queue (λ i. 0) 2 (omega arith) (omega arith))

recv_refines_example :
    (q' : Msgq ℕ) × (recv_pass 1 k_no_wait 0 empty_queue unqueued
      ≡ some (returned err_busy, none, q', unqueued))
    × Queue q' []
    × (q'.capacity ≡ 2)
unfolding k_msgq_init recv
recv_refines_example =
    recv_refines 1 0 empty_queue [] unqueued
      (k_msgq_init-Queue (λ i. 0) 2 (omega arith) (omega arith))

k_timer_start_lem_example :
    let e = update unqueued.expire_tick 9 ((unqueued.tick_count + 20) % u64_mod) in
    (k' : Kernel) × (k_timer_start 1 9 20 true unqueued ≡ some k')
    × Timers k' (insert_after (λ x. leb (e x) (e 9)) 9 [])
    × (k'.active 9 ≡ true)
    × (k'.period_ticks 9 ≡ 20)
k_timer_start_lem_example =
    k_timer_start_lem 1 9 20 true unqueued [] (record { chain = refl; distinct = tt; sorted = tt })
      tt (ground arith) (omega arith)
