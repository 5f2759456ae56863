-- ===== src/Usb/Channels.antt =====
-- The channels of usb/usb_stack.c between any two steps of the tasks that use them.
use nanos_os.Common.{ℕ, ◌<◌, ◌≡◌, refl, ◌∙◌, Bool, true, false, Option, none, some, arith}
use nanos_os.Common.Maps.{update}
use nanos_os.Usb.{
  Hc, num_ch, Xfer, start_ch, set_result, irq_result, Place, outside, scanning, taking, leaving,
  opening, waiting, freeing, returned, may_call, System, goes, xfer_step, taken, interrupted, Step,
  enter, move, take_done, interrupt, start, Reached, init, later,
}

-- The channel that a task has got and not freed
abbrev pub channel : Place → Option ℕ
channel (leaving c) = c
channel (opening n) = some n
channel (waiting n) = some n
channel (freeing n r) = some n
channel _ = none

-- Whether the task holds `s_lk`
abbrev locks : Place → Bool
locks (scanning i) = true
locks (taking i) = true
locks (leaving c) = true
locks _ = false

record Inv (s : System) : Type 0 where
  holds : (t : ℕ) → locks (s.place t) ≡ true → s.holder ≡ some t
  unused : (t i : ℕ) → s.place t ≡ taking i → ((s.ch i).inuse ≡ false) × (i < num_ch)
  used : (t n : ℕ) → channel (s.place t) ≡ some n → ((s.ch n).inuse ≡ true) × (n < num_ch)
  alone : (t u n : ℕ) → channel (s.place t) ≡ some n → channel (s.place u) ≡ some n → t ≡ u

start-Inv : (args : ℕ → Xfer) → Inv (start args)
start-Inv args = record {
  holds = λ t e. absurd (cc);
  unused = λ t i e. absurd (cc);
  used = λ t n e. absurd (cc);
  alone = λ t u n e f. absurd (cc);
}

module _ (s : System) (v : Inv s) (t : ℕ) where
  open v use {holds, unused, used, alone}

  xfer_step-Inv : (p : Place) → s.place t ≡ p → Inv (xfer_step t p s)
  unfolding xfer_step start_ch
  xfer_step-Inv outside e = v
  xfer_step-Inv (waiting n) e = v
  xfer_step-Inv (returned r) e = v
  xfer_step-Inv (scanning i) e = record {
    holds = λ u q. ground (arith, holds u, holds t);
    unused = λ u j q. ground (arith, unused u j);
    used = λ u n q. ground (arith, used u n);
    alone = λ u w n q r. ground (arith, alone u w n);
  }
  xfer_step-Inv (taking i) e = record {
    holds = λ u q. ground (arith, holds u, holds t);
    unused = λ u j q. ground (arith, unused u j, holds u, holds t);
    used = λ u n q. ground (arith, used u n, unused t i);
    alone = λ u w n q r. ground (arith, alone u w n, used u n, used w n, unused t i);
  }
  xfer_step-Inv (leaving none) e = record {
    holds = λ u q. ground (arith, holds u, holds t);
    unused = λ u j q. ground (arith, unused u j);
    used = λ u n q. ground (arith, used u n);
    alone = λ u w n q r. ground (arith, alone u w n);
  }
  xfer_step-Inv (leaving (some m)) e = record {
    holds = λ u q. ground (arith, holds u, holds t);
    unused = λ u j q. ground (arith, unused u j);
    used = λ u n q. ground (arith, used u n, used t n);
    alone = λ u w n q r. ground (arith, alone u w n, alone t w n, alone u t n);
  }
  xfer_step-Inv (opening m) e = record {
    holds = λ u q. ground (arith, holds u, holds t);
    unused = λ u j q. ground (arith, unused u j);
    used = λ u n q. ground (arith, used u n, used t n);
    alone = λ u w n q r. ground (arith, alone u w n, alone t w n, alone u t n);
  }
  xfer_step-Inv (freeing m r) e = record {
    holds = λ u q. ground (arith, holds u, holds t);
    unused = λ u j q. ground (arith, unused u j);
    used = λ u n q. ground (arith, used u n, alone u t n);
    alone = λ u w n q x. ground (arith, alone u w n);
  }

  taken-Inv : (n : ℕ) (r : Bool) → s.place t ≡ waiting n → Inv (taken t n r s)
  taken-Inv m r e = record {
    holds = λ u q. ground (arith, holds u);
    unused = λ u j q. ground (arith, unused u j);
    used = λ u n q. ground (arith, used u n, used t n);
    alone = λ u w n q x. ground (arith, alone u w n, alone t w n, alone u t n);
  }

  enter-Inv :
      (x : Xfer)
      → may_call (s.place t) ≡ true
      → s.holder ≡ none
      → Inv (goes t (scanning 0) (record s { holder = some t; args = update s.args t x }))
  enter-Inv x c h = record {
    holds = λ u q. ground (arith, holds u);
    unused = λ u j q. ground (arith, unused u j);
    used = λ u n q. ground (arith, used u n);
    alone = λ u w n q r. ground (arith, alone u w n);
  }

-- The interrupt of a channel does not change whether the channel is in use.
inuse-set_result : (r : Option ℕ) (c : Hc) → (set_result r c).inuse ≡ c.inuse
unfolding set_result
inuse-set_result none c = refl
inuse-set_result (some r) c = refl

inuse-interrupted :
    (s : System) (i hi tsiz n : ℕ) → ((interrupted i hi tsiz s).ch n).inuse ≡ (s.ch n).inuse
inuse-interrupted s i hi tsiz n = ground (arith, inuse-set_result (irq_result hi tsiz) (s.ch i))

interrupted-Inv : (s : System) (i hi tsiz : ℕ) → Inv s → Inv (interrupted i hi tsiz s)
interrupted-Inv s i hi tsiz v = record {
  holds = v.holds;
  unused = λ t n q. (inuse-interrupted s i hi tsiz n ∙ (v.unused t n q).0, (v.unused t n q).1);
  used = λ t n q. (inuse-interrupted s i hi tsiz n ∙ (v.used t n q).0, (v.used t n q).1);
  alone = v.alone;
}

Step-Inv : {s s' : System} → Step s s' → Inv s → Inv s'
Step-Inv {s} (enter t x c h) v = enter-Inv s v t x c h
Step-Inv {s} (move t) v = xfer_step-Inv s v t (s.place t) refl
Step-Inv {s} (take_done t n r e) v = taken-Inv s v t n r e
Step-Inv {s} (interrupt i hi tsiz) v = interrupted-Inv s i hi tsiz v

Reached-Inv : {s : System} → Reached s → Inv s
Reached-Inv (init args) = start-Inv args
Reached-Inv (later r st) = Step-Inv st (Reached-Inv r)

-- However the calls of `hc_xfer` of any number of tasks interleave, with each other and with the
-- interrupts of the channels: a channel that a task has got and not freed is one of the eight, is
-- marked as in use, and no other task has got it too.
pub channel_exclusive :
    {s : System} (t u n : ℕ)
    → Reached s
    → channel (s.place t) ≡ some n
    → channel (s.place u) ≡ some n
    → (n < num_ch) × ((s.ch n).inuse ≡ true) × (t ≡ u)
channel_exclusive t u n r e f =
    let v = Reached-Inv r in ((v.used t n e).1, (v.used t n e).0, v.alone t u n e f)
