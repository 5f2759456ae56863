-- ===== src/Sync/Locking.antt =====
-- `k_mutex_lock` of kernel/scheduler.c, with `k_mutex_unlock`, as the steps of any number of tasks.
-- `k_mutex_lock` is cut at each access of the mutex that runs with interrupts enabled. Between two
-- steps anything else can run: interrupts, the scheduler, the calls of other tasks.
use mathlib.Core.Option
use nanos_os.Common.{
  ℕ, Bool, true, false, Option, none, some, ◌≡◌, ◌≢◌, ◌==◌, ltb, leb, if◌then◌else◌,
}
use nanos_os.Common.Maps.{update}
use nanos_os.Common.Chain.{chain_insert}
use nanos_os.Kernel.{Kernel, Err, ok, err_timeout, err_busy, blocked, null, k_no_wait}
use nanos_os.Sched.{sched_yield_from_isr}
use nanos_os.Sync.{Mutex, deadline, expired, k_mutex_init, k_mutex_unlock, raise_owner}

-- The local variables of a call
pub record Call : Type 0 where
  pub tms : ℕ
  pub dl : ℕ

-- Where a task stands: outside, having unlocked the mutex or never called; in a call, before the
-- compare-and-swap, before the store of the owner, before each of the three reads of the owner, before
-- the tests that refuse to wait, before the insertion into the list of waiters, before the yield; or
-- its last call of `k_mutex_lock` has finished.
pub data Place : Type 0 where
  outside : Place
  swapping : Call → Place
  claimed : Place
  lost : Call → Place
  comparing : Call → Place
  raising : Call → Place
  refusing : Call → Place
  parking : Call → Place
  yielding : Call → Place
  finished : Err → Place

-- Whether the task is in no call of `k_mutex_lock`
abbrev pub may_call : Place → Bool
may_call outside = true
may_call (finished e) = true
may_call _ = false

-- The insertion of the current task into the list of waiters, with interrupts masked. `addr` is the
-- address of the mutex.
unfoldable pub enter_waiters : ℕ → ℕ → Mutex → Kernel → Option (Mutex × Kernel)
enter_waiters fuel addr m k =
    let cur = k.current_task in
    let k1 = record k {
      state = update k.state cur blocked;
      wait_obj = update k.wait_obj cur addr;
    } in
    Option.map (λ (r : ℕ × (ℕ → ℕ)). (record m { wait_head = r.0 }, record k1 { next = r.1 }))
      (chain_insert fuel (λ x. leb (k1.priority cur) (k1.priority x)) k1.next m.wait_head cur)

-- The next step of a call of the current task, from its place; none if it is in no call
unfoldable pub lock_step : ℕ → ℕ → Place → Mutex → Kernel → Option (Place × Mutex × Kernel)
lock_step fuel addr outside m k = none
lock_step fuel addr (finished e) m k = none
lock_step fuel addr (swapping c) m k =
    some (if m.locked then (lost c, m, k) else (claimed, record m { locked = true }, k))
lock_step fuel addr claimed m k = some (finished ok, record m { owner = k.current_task }, k)
lock_step fuel addr (lost c) m k = some (if m.owner == null then refusing c else comparing c, m, k)
lock_step fuel addr (comparing c) m k =
    some
      (if ltb (k.priority m.owner) (k.priority k.current_task) then raising c else refusing c, m, k)
lock_step fuel addr (raising c) m k = some (refusing c, m, raise_owner m k)
lock_step fuel addr (refusing c) m k = some (
  if c.tms == k_no_wait
      then finished err_busy
      else (if expired c.tms c.dl k then finished err_timeout else parking c),
  m,
  k,
)
lock_step fuel addr (parking c) m k =
    Option.map (λ (r : Mutex × Kernel). (yielding c, r.0, r.1)) (enter_waiters fuel addr m k)
lock_step fuel addr (yielding c) m k = some (swapping c, m, sched_yield_from_isr k)

-- One mutex, the kernel, and the tasks by the addresses of their TCBs. `inside t` says that task `t`
-- has won a compare-and-swap of the mutex and not unlocked it since.
pub record System : Type 0 where
  pub mutex : Mutex
  pub kernel : Kernel
  pub place : ℕ → Place
  pub inside : ℕ → Bool

abbrev pub current : System → ℕ
current s = s.kernel.current_task

abbrev pub wins : Place → Bool
wins claimed = true
wins _ = false

-- The start of a call
abbrev pub called : ℕ → System → System
called tms s = record s {
  place = update s.place (current s) (swapping (record { tms = tms; dl = deadline tms s.kernel }));
}

abbrev pub moved : Place × Mutex × Kernel → System → System
moved r s = record {
  mutex = r.1;
  kernel = r.2;
  place = update s.place (current s) r.0;
  inside = if wins r.0 then update s.inside (current s) true else s.inside;
}

-- `k_mutex_unlock`, which masks interrupts; the current task is the owner or gets an error.
abbrev pub unlocked : System → System
unlocked s =
    let r = k_mutex_unlock s.mutex s.kernel in
    let mine = s.mutex.owner == current s in
    record {
      mutex = r.1;
      kernel = r.2;
      place = if mine then update s.place (current s) outside else s.place;
      inside = if mine then update s.inside (current s) false else s.inside;
    }

-- A step of the current task on the mutex at `addr`, or of any code that does not use the mutex and
-- leaves any state of the kernel.
pub data Step (addr : ℕ) (s : System) : System → Type 0 where
  call :
      (tms : ℕ)
      → current s ≢ null
      → may_call (s.place (current s)) ≡ true
      → Step addr s (called tms s)
  move :
      (fuel : ℕ) (r : Place × Mutex × Kernel)
      → current s ≢ null
      → lock_step fuel addr (s.place (current s)) s.mutex s.kernel ≡ some r
      → Step addr s (moved r s)
  unlock : current s ≢ null → may_call (s.place (current s)) ≡ true → Step addr s (unlocked s)
  other : (k : Kernel) → Step addr s (record s { kernel = k })

abbrev pub start : Kernel → System
start k = record { mutex = k_mutex_init; kernel = k; place = λ t. outside; inside = λ t. false }

-- The systems that steps reach from an initialised mutex
pub data Reached (addr : ℕ) : System → Type 0 where
  init : (k : Kernel) → Reached addr (start k)
  later : {s s' : System} → Reached addr s → Step addr s s' → Reached addr s'
