-- ===== src/Services.antt =====
-- services/event_loop.c and services/power_manager.c: deferred calls, and the power modes.
-- A function is given by a number. The functions are other code: `posts` gives the calls that a function
-- posts while it runs.
pub mod Deferred
pub mod Profiler
pub mod Assets
mod Tests
use nanos_os.Common.{
  ℕ, zero, suc, Bool, true, false, List, [], ◌∷◌, ◌++◌, Option, none, some, get_elem?, set,
  replicate, each, if◌then◌else◌,
}

-- `def_t`
pub record Slot : Type 0 where
  pub fn : ℕ
  pub arg : ℕ
  pub used : Bool

-- `MAX_DEF`
abbrev pub max_def : ℕ
max_def = 16

-- `event_loop_init`
abbrev pub event_loop_init : List Slot
event_loop_init = replicate max_def (record { fn = 0; arg = 0; used = false })

-- The loop of `event_loop_post`: the first slot that is not used
unfoldable pub event_loop_post : ℕ → ℕ → List Slot → List Slot
event_loop_post fn arg [] = []
event_loop_post fn arg (d ∷ ds) =
    let rest = event_loop_post fn arg ds in
    if d.used then d ∷ rest else record { fn = fn; arg = arg; used = true } ∷ ds

-- The slots, and the calls made so far
pub record Loop : Type 0 where
  pub slots : List Slot
  pub calls : List (ℕ × ℕ)

unfoldable pub post_all : List (ℕ × ℕ) → List Slot → List Slot
post_all [] ds = ds
post_all ((fn, arg) ∷ ps) ds = post_all ps (event_loop_post fn arg ds)

-- The call of the function in slot `i`, which is no longer used then
unfoldable pub run_slot : (ℕ → ℕ → List (ℕ × ℕ)) → ℕ → Slot → Loop → Loop
run_slot posts i d l = record {
  slots = post_all (posts d.fn d.arg) (set l.slots i (record d { used = false }));
  calls = l.calls ++ (d.fn, d.arg) ∷ [];
}

-- One turn of the loop of `event_loop_tick`
unfoldable pub tick_slot : (ℕ → ℕ → List (ℕ × ℕ)) → ℕ → Loop → Loop
tick_slot posts i l = elim (get_elem? l.slots i) [
  | none ↦ l
  | some d ↦ if d.used then run_slot posts i d l else l
]

-- `event_loop_tick`
unfoldable pub event_loop_tick : (ℕ → ℕ → List (ℕ × ℕ)) → Loop → Loop
event_loop_tick posts = each max_def (tick_slot posts)

-- `pm_t`
pub data PowerMode : Type 0 where
  full balanced saver off : PowerMode

-- The table in `power_set_mode`: the backlight of a mode
unfoldable pub power_set_mode : PowerMode → PowerMode × ℕ
power_set_mode PowerMode.full = (PowerMode.full, 255)
power_set_mode PowerMode.balanced = (PowerMode.balanced, 180)
power_set_mode PowerMode.saver = (PowerMode.saver, 80)
power_set_mode PowerMode.off = (PowerMode.off, 0)
