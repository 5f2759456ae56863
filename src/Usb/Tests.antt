-- ===== src/Usb/Tests.antt =====
-- The theorems on usb/usb_stack.c, at two transfers at the same time.
use nanos_os.Common.{ℕ, zero, suc, ◌≡◌, ◌<◌, refl, true, some}
use nanos_os.Usb.{
  num_ch, Xfer, start_ch, scanning, System, goes, xfer_step, enter, move, start, Reached, init,
  later,
}
use nanos_os.Common.Maps.{update}
use nanos_os.Usb.Channels.{channel, channel_exclusive}

-- A read of 8 bytes from endpoint 1
abbrev header : Xfer
header = record { dev = 1; ep = 1; is_in = true; type = 2; mps = 512; len = 8; pid = 2 }

-- A task takes a number of steps.
abbrev steps : ℕ → ℕ → System → System
steps zero t s = s
steps (suc k) t s = let s' = steps k t s in xfer_step t (s'.place t) s'

steps-Reached : (k t : ℕ) (s : System) → Reached s → Reached (steps k t s)
steps-Reached zero t s r = r
steps-Reached (suc k) t s r = later (steps-Reached k t s r) (move t)

abbrev enters : ℕ → System → System
enters t s = goes t (scanning 0) (record s { holder = some t; args = update s.args t header })

-- Task 3 has got channel 0, and task 5 then channel 1.
abbrev first : System
first = steps 4 3 (enters 3 (start (λ t. header)))

abbrev both : System
both = steps 4 5 (enters 5 first)

both-Reached : Reached both
unfolding xfer_step
both-Reached = steps-Reached 4 5 _ (
    later (steps-Reached 4 3 _ (later (init (λ t. header)) (enter 3 header refl refl)))
      (enter 5 header refl refl))

second_channel : channel (both.place 5) ≡ some 1
unfolding xfer_step start_ch
second_channel = refl

channel_exclusive_example : (0 < num_ch) × ((both.ch 0).inuse ≡ true) × ◌≡◌ {A = ℕ} 3 3
unfolding xfer_step start_ch
channel_exclusive_example = channel_exclusive {s = both} 3 3 0 both-Reached refl refl
