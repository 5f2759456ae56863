-- ===== src/Usb.antt =====
-- usb/usb_stack.c: the channels of the USB host, and the steps of the tasks that use them.
-- `hc_xfer` and `alloc_ch` run with interrupts enabled, and are cut at each access of a channel that the
-- theorems speak of. `k_mutex_lock` of `s_lk` is one step, which a task takes when no other holds
-- `s_lk`, and so is `k_mutex_unlock`. The wait for `done` may end in either way, or never.
-- The K_ERR_ numbers are negative and are negated where `hc_xfer` and `usb_host_irq` give them as
-- results, so a result is never negative.
pub mod Channels
mod Tests
use Prim.Native.Nat.{bit_and, bit_or}
use nanos_os.Common.{
  ℕ, ◌+◌, ◌-◌, ◌*◌, ◌/◌, ◌%◌, ◌^◌, ◌≡◌, Bool, true, false, Option, none, some, ◌==◌, ltb,
  if◌then◌else◌,
}
use nanos_os.Common.Maps.{update}
use nanos_os.Kernel.{u16_mod, u32_mod}

-- `hc_t`, but for the semaphore `done`, with the registers HCCHAR and HCTSIZ of the channel as they
-- were last written
pub record Hc : Type 0 where
  pub inuse : Bool
  pub result : ℕ
  pub ep_in : Bool
  pub mps : ℕ
  pub char_reg : ℕ
  pub tsiz_reg : ℕ

-- `NUM_CH`
abbrev pub num_ch : ℕ
num_ch = 8

-- `-K_ERR_TIMEOUT`, `-K_ERR_BUSY` and `-K_ERR_AGAIN`
abbrev pub neg_err_timeout : ℕ
neg_err_timeout = 3

abbrev pub neg_err_busy : ℕ
neg_err_busy = 4

abbrev pub neg_err_again : ℕ
neg_err_again = 8

-- The arguments of `hc_xfer` that describe the transfer
pub record Xfer : Type 0 where
  pub dev : ℕ
  pub ep : ℕ
  pub is_in : Bool
  pub type : ℕ
  pub mps : ℕ
  pub len : ℕ
  pub pid : ℕ

-- The values that `hc_xfer` writes to HCCHAR, in the end with CHENA, and to HCTSIZ.
pub hcchar : Xfer → ℕ
hcchar x =
    bit_or (2 ^ 31) (
      bit_or (x.dev * 2 ^ 22) (
        bit_or (bit_and x.ep 0xF * 2 ^ 11)
          (bit_or (if x.is_in then 2 ^ 15 else 0) (bit_or (x.type * 2 ^ 18) x.mps))))
    % u32_mod

pub npkt : Xfer → ℕ
npkt x = let n = (x.len + x.mps + u32_mod - 1) % u32_mod / x.mps in if n == 0 then 1 else n

pub hctsiz : Xfer → ℕ
hctsiz x = bit_or (x.pid * 2 ^ 29) (bit_or (npkt x * 2 ^ 19) x.len) % u32_mod

-- The channel as `hc_xfer` sets it up
pub start_ch : Xfer → Hc → Hc
start_ch x c = record c { ep_in = x.is_in; mps = x.mps; char_reg = hcchar x; tsiz_reg = hctsiz x }

-- What `usb_host_irq` does for one channel whose bit of HAINT is set: the result, where it gives
-- `done`. `hi` is HCINT and `tsiz` is HCTSIZ.
pub irq_result : ℕ → ℕ → Option ℕ
irq_result hi tsiz =
    if bit_and hi 1 == 1
    then some (bit_and tsiz 0x7FFFF)
    else (if bit_and hi 0x88 == 0 then none else some neg_err_again)

pub set_result : Option ℕ → Hc → Hc
set_result none c = c
set_result (some r) c = record c { result = r }

-- Where a task stands in `hc_xfer`: outside; in the loop of `alloc_ch`, before it reads the flag of
-- channel `i`; before it sets that flag; before it unlocks `s_lk`, with the channel it has got; before
-- the channel is set up; in the wait for `done`; before the channel is freed, with the result; or it has
-- returned.
pub data Place : Type 0 where
  outside : Place
  scanning : ℕ → Place
  taking : ℕ → Place
  leaving : Option ℕ → Place
  opening : ℕ → Place
  waiting : ℕ → Place
  freeing : ℕ → ℕ → Place
  returned : ℕ → Place

-- A task may call `hc_xfer`.
abbrev pub may_call : Place → Bool
may_call outside = true
may_call (returned r) = true
may_call _ = false

-- The channels `s_ch`, the task that holds `s_lk`, and the place and the arguments of each task
pub record System : Type 0 where
  pub ch : ℕ → Hc
  pub holder : Option ℕ
  pub place : ℕ → Place
  pub args : ℕ → Xfer

abbrev pub set_inuse : Bool → ℕ → (ℕ → Hc) → ℕ → Hc
set_inuse b n ch = update ch n (record (ch n) { inuse = b })

-- The step of task `t` to a place
abbrev pub goes : ℕ → Place → System → System
goes t p s = record s { place = update s.place t p }

-- The next step of task `t` from its place, but for those that depend on `done`
pub xfer_step : ℕ → Place → System → System
xfer_step t (scanning i) s =
    goes t
      (if ltb i num_ch
        then (if (s.ch i).inuse then scanning (i + 1) else taking i)
        else leaving none)
      s
xfer_step t (taking i) s = goes t (leaving (some i)) (record s { ch = set_inuse true i s.ch })
xfer_step t (leaving none) s = goes t (returned neg_err_busy) (record s { holder = none })
xfer_step t (leaving (some n)) s = goes t (opening n) (record s { holder = none })
xfer_step t (opening n) s =
    goes t (waiting n) (record s { ch = update s.ch n (start_ch (s.args t) (s.ch n)) })
xfer_step t (freeing n r) s = goes t (returned r) (record s { ch = set_inuse false n s.ch })
xfer_step t _ s = s

-- The result, once the take of `done` has returned; `r` says whether it returned K_OK.
abbrev pub taken : ℕ → ℕ → Bool → System → System
taken t n r s = goes t (freeing n (if r then (s.ch n).result else neg_err_timeout)) s

-- The channels after the interrupt of channel `i`
abbrev pub interrupted : ℕ → ℕ → ℕ → System → System
interrupted i hi tsiz s = record s { ch = update s.ch i (set_result (irq_result hi tsiz) (s.ch i)) }

-- The steps of the tasks and of the interrupt, in any order
pub data Step (s : System) : System → Type 0 where
  enter :
      (t : ℕ) (x : Xfer)
      → may_call (s.place t) ≡ true
      → s.holder ≡ none
      → Step s (goes t (scanning 0) (record s { holder = some t; args = update s.args t x }))
  move : (t : ℕ) → Step s (xfer_step t (s.place t) s)
  take_done : (t n : ℕ) (r : Bool) → s.place t ≡ waiting n → Step s (taken t n r s)
  interrupt : (i hi tsiz : ℕ) → Step s (interrupted i hi tsiz s)

abbrev pub no_channel : Hc
no_channel = record {
  inuse = false;
  result = 0;
  ep_in = false;
  mps = 0;
  char_reg = 0;
  tsiz_reg = 0;
}

-- The start: `s_ch` is 0.
abbrev pub start : (ℕ → Xfer) → System
start args = record { ch = λ i. no_channel; holder = none; place = λ t. outside; args = args }

pub data Reached : System → Type 0 where
  init : (args : ℕ → Xfer) → Reached (start args)
  later : {s s' : System} → Reached s → Step s s' → Reached s'
