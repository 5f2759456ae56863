-- ===== src/Aap/Tests.antt =====
-- The theorems on usb/aap_transport.c, at small states.

use nanos_os.Common.{ℕ, ◌+◌, ◌≡◌, refl, true, false, some, List, [], ◌∷◌, ◌++◌, replicate}
use nanos_os.Aap.{Aap, Callbacks, frame_header, crc32b, crc_bits, crc_bit, aap_max_frame, ch_max}
use nanos_os.Aap.Session.{aap_transport_init, boot, aap_is_running, conn_pass}
use nanos_os.Aap.Session.Reach.{init, conn, Reached-not_running}

abbrev all_set : Callbacks
all_set = record {
  on_video_frame = true;
  on_audio_frame = true;
  on_nav_event = true;
  on_connected = true;
  on_disconnected = true;
}

abbrev fresh_buf : List ℕ
fresh_buf = replicate (aap_max_frame + 64) 0

abbrev ping : List ℕ
ping = 0 ∷ 13 ∷ []

-- The value of the standard CRC-32 of the frame.
crc_of_ping : crc32b (frame_header 0 0x10 2 ++ ping) ≡ 2993728629
unfolding crc32b crc_bits crc_bit
crc_of_ping = refl

abbrev started : Aap
started = aap_transport_init (some all_set) (boot all_set fresh_buf)

Reached-not_running_example :
    let s = conn_pass true (2 ∷ 0 ∷ []) (conn_pass true [] started) in
    (aap_is_running s ≡ false) × (s.frx ≡ 0) × (s.err ≡ 0) × (s.is_open ≡ replicate ch_max false)
Reached-not_running_example =
    Reached-not_running (conn_pass true (2 ∷ 0 ∷ []) (conn_pass true [] started))
      (conn true (2 ∷ 0 ∷ []) _ (conn true [] _ (init (some all_set) all_set fresh_buf)))
