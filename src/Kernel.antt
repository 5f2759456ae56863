-- ===== src/Kernel.antt =====
-- The kernel's data: kernel/kernel.h. A pointer is an address, and `null` is 0.
-- Each field of the structures in memory (`task_tcb_t`, `k_timer_t`) is a map from the address of
-- the structure to the value of that field. `s_prio_bitmap` is given by its bits.
use nanos_os.Common.{ℕ, Bool, List}

-- `task_state_t`
pub data TaskState : Type 0 where
  ready running blocked sleeping suspended dead : TaskState

-- `k_err_t`
pub data Err : Type 0 where
  ok err_nomem err_inval err_timeout err_busy err_nodev err_perm err_overflow err_again : Err

abbrev pub null : ℕ
null = 0

-- The address of `s_idle_tcb`.
abbrev pub idle_tcb : ℕ
idle_tcb = 1

abbrev pub max_tasks : ℕ
max_tasks = 32

abbrev pub max_priority_levels : ℕ
max_priority_levels = 8

abbrev pub time_slice_ticks : ℕ
time_slice_ticks = 10

abbrev pub u16_mod : ℕ
u16_mod = 0x1_0000

abbrev pub u32_mod : ℕ
u32_mod = 0x1_0000_0000

abbrev pub u64_mod : ℕ
u64_mod = 0x1_0000_0000_0000_0000

-- `K_NO_WAIT` and `K_FOREVER`
abbrev pub k_no_wait : ℕ
k_no_wait = 0

abbrev pub k_forever : ℕ
k_forever = 0xFFFF_FFFF

-- `kernel_state_t g_kernel`, `s_prio_bitmap`, and the fields of all TCBs and timers.
pub record Kernel : Type 0 where
  pub tick_count : ℕ
  pub scheduler_running : Bool
  pub current_task : ℕ
  pub tasks : ℕ → ℕ
  pub task_count : ℕ
  pub run_queue : ℕ → ℕ
  pub sleep_queue : ℕ
  pub timer_list : ℕ
  pub ctx_switches : ℕ
  pub irq_count : ℕ
  pub prio_bitmap : ℕ → Bool
  -- task_tcb_t
  pub pc : ℕ → ℕ
  pub ps : ℕ → ℕ
  pub a1 : ℕ → ℕ
  pub a2 : ℕ → ℕ
  pub a3 : ℕ → ℕ
  pub stack_base : ℕ → ℕ
  pub stack_size : ℕ → ℕ
  pub stack_guard : ℕ → ℕ
  pub id : ℕ → ℕ
  pub name : ℕ → List ℕ
  pub state : ℕ → TaskState
  pub priority : ℕ → ℕ
  pub base_priority : ℕ → ℕ
  pub wake_tick : ℕ → ℕ
  pub slice_ticks : ℕ → ℕ
  pub wait_obj : ℕ → ℕ
  pub next : ℕ → ℕ
  pub prev : ℕ → ℕ
  -- k_timer_t
  pub expire_tick : ℕ → ℕ
  pub period_ticks : ℕ → ℕ
  pub active : ℕ → Bool
  pub timer_next : ℕ → ℕ
  -- The words of the tasks' stacks.
  pub word : ℕ → ℕ
