-- ===== src/Aap.antt =====
-- usb/aap_transport.c: the Android Auto transport over USB.
-- What a pass of a task writes to USB, and the callbacks it calls, are appended to `log`. The
-- answers of the device and of the USB stack are arguments.
mod Tests
pub mod Session
use Prim.Native.Nat.{bit_and, bit_or, bit_xor}
use mathlib.Core.List.{foldl}
use nanos_os.Common.{
  ℕ, zero, suc, ◌+◌, ◌-◌, ◌*◌, ◌/◌, ◌%◌, Bool, true, false, List, [], ◌∷◌, ◌++◌, ◌==◌, ◌&&◌, ◌||◌,
  ltb, leb, take, drop, get_or, length, if◌then◌else◌, replicate,
}
use nanos_os.Common.Bytes.{le16, le32, u16_at, u32_at, store}
use nanos_os.Kernel.{u16_mod, u32_mod, u64_mod}

-- `aap_state_t`, and its order as a number
pub data AapState : Type 0 where
  disconnected aoa_probe connected version_neg service_disc running error : AapState

abbrev pub code : AapState → ℕ
code disconnected = 0
code aoa_probe = 1
code connected = 2
code version_neg = 3
code service_disc = 4
code running = 5
code error = 6

-- `aap_callbacks_t`: which of the callbacks are set.
pub record Callbacks : Type 0 where
  pub on_video_frame : Bool
  pub on_audio_frame : Bool
  pub on_nav_event : Bool
  pub on_connected : Bool
  pub on_disconnected : Bool

-- A frame written to USB, a control transfer, or a call of a callback.
pub data Event : Type 0 where
  wrote : List ℕ → Event
  control : ℕ → ℕ → ℕ → List ℕ → Event
  video_frame : List ℕ → ℕ → ℕ → Event
  audio_frame : List ℕ → ℕ → ℕ → Event
  nav_event : ℕ → List ℕ → ℕ → Event
  called_connected called_disconnected reset_device : Event

-- The static state of the file; `is_open` has a flag for each channel, and `buf` is the buffer that
-- `rx_task` allocates; `txq` has the items of each channel's message queue.
pub record Aap : Type 0 where
  pub state : AapState
  pub is_open : List Bool
  pub ver : ℕ
  pub rxb : ℕ
  pub txb : ℕ
  pub frx : ℕ
  pub ftx : ℕ
  pub err : ℕ
  pub cbs : Callbacks
  pub buf : List ℕ
  pub txq : List (List (List ℕ))
  pub log : List Event

abbrev pub aap_hdr_sz : ℕ
aap_hdr_sz = 8

abbrev pub aap_crc_sz : ℕ
aap_crc_sz = 4

abbrev pub aap_max_frame : ℕ
aap_max_frame = 16 * 1024

abbrev pub ch_max : ℕ
ch_max = 8

abbrev pub ch_ctrl : ℕ
ch_ctrl = 0

abbrev pub ch_input : ℕ
ch_input = 1

abbrev pub ch_video : ℕ
ch_video = 3

abbrev pub ch_media : ℕ
ch_media = 4

abbrev pub ch_nav : ℕ
ch_nav = 7

abbrev pub msg_version_req : ℕ
msg_version_req = 1

abbrev pub msg_version_resp : ℕ
msg_version_resp = 2

abbrev pub msg_sdp_req : ℕ
msg_sdp_req = 5

abbrev pub msg_sdp_resp : ℕ
msg_sdp_resp = 6

abbrev pub msg_ping : ℕ
msg_ping = 13

abbrev pub msg_pong : ℕ
msg_pong = 14

-- One bit of `crc32b`: `-(c&1)` is 0 or all ones, and the result a `uint32_t`.
crc_bit : ℕ → ℕ
crc_bit c = bit_xor (c / 2) (bit_and 0xEDB8_8320 ((u32_mod - bit_and c 1) % u32_mod)) % u32_mod

crc_bits : ℕ → ℕ → ℕ
crc_bits zero c = c
crc_bits (suc i) c = crc_bits i (crc_bit c)

pub crc32b : List ℕ → ℕ
crc32b d = bit_xor (foldl (λ c b. crc_bits 8 (bit_xor c b)) 0xFFFF_FFFF d) 0xFFFF_FFFF % u32_mod

abbrev pub frame_header : ℕ → ℕ → ℕ → List ℕ
frame_header ch flags plen = le32 ch ++ le16 (bit_or flags 3) ++ le16 (plen % u16_mod)

-- The bytes that `build_frame` stores at `out`; the number it returns is their number.
pub build_frame : ℕ → ℕ → List ℕ → List ℕ
build_frame ch flags pay =
    let body = frame_header ch flags (length pay) ++ pay in body ++ le32 (crc32b body)

-- `usb_bulk_write` of a frame, with the counters.
pub write_frame : List ℕ → Aap → Aap
write_frame frame s = record s {
  log = s.log ++ wrote frame ∷ [];
  txb = (s.txb + length frame) % u64_mod;
  ftx = (s.ftx + 1) % u32_mod;
}

-- `send_ctrl`, for a payload of at most 256 bytes
pub send_ctrl : ℕ → List ℕ → Aap → Aap
send_ctrl msg_type pay s = write_frame (build_frame ch_ctrl 0x10 (0 ∷ msg_type ∷ pay)) s

pub call : Event → Aap → Aap
call e s = record s { log = s.log ++ e ∷ [] }

-- `(x[0]<<8)|x[1]`
abbrev be16_at : List ℕ → ℕ
be16_at d = get_or d 0 0 * 256 + get_or d 1 0

abbrev u64_at : List ℕ → ℕ
u64_at d = u32_at d + u32_at (drop 4 d) * u32_mod

-- `MSG_SDP_RESP`
run_session : Aap → Aap
run_session s =
    let s' = record s { state = running; is_open = replicate ch_max true } in
    if s.cbs.on_connected then call called_connected s' else s'

-- The branch of `dispatch` for the control channel
dispatch_ctrl : List ℕ → Aap → Aap
dispatch_ctrl d s =
    let mt = be16_at d in
    if mt == msg_version_resp
    then send_ctrl msg_sdp_req (1 ∷ 0 ∷ 3 ∷ 0 ∷ 4 ∷ 0 ∷ 7 ∷ 0 ∷ [])
        (record s { ver = be16_at (drop 2 d) })
    else if mt == msg_sdp_resp
    then run_session s
    else if mt == msg_ping
    then send_ctrl msg_pong [] s
    else s

-- `d` is the buffer from the payload on, of which `l` bytes are the payload.
pub dispatch : ℕ → List ℕ → ℕ → Aap → Aap
dispatch ch d l s =
    if ch == ch_ctrl && leb 2 l
    then dispatch_ctrl d s
    else if ch == ch_video && s.cbs.on_video_frame && ltb 8 l
    then call (video_frame (take (l - 8) (drop 8 d)) (l - 8) (u64_at d)) s
    else if ch == ch_media && s.cbs.on_audio_frame && ltb 8 l
    then call (audio_frame (take (l - 8) (drop 8 d)) ((l - 8) / 4) (u64_at d)) s
    else if ch == ch_nav && s.cbs.on_nav_event && leb 2 l
    then call (nav_event (be16_at d) (take (l - 2) (drop 2 d)) (l - 2)) s
    else s

-- `s_err++`
abbrev pub count_err : Aap → Aap
count_err s = record s { err = (s.err + 1) % u32_mod }

-- The frame is complete: its check sum, the counters, and the dispatch.
pub rx_accept : ℕ → ℕ → Aap → Aap
rx_accept rxc plen s =
    if crc32b (take (aap_hdr_sz + plen) s.buf) == rxc
    then dispatch (get_or s.buf 0 0) (drop aap_hdr_sz s.buf) plen (record s {
      rxb = (s.rxb + aap_hdr_sz + plen + aap_crc_sz) % u64_mod;
      frx = (s.frx + 1) % u32_mod;
    })
    else count_err s

-- `usb_bulk_read` gives its result, and the bytes that it stored.
module _ {L : Type 0} (bulk_read : ℕ → L → ℕ × List ℕ × L) where
  -- The check sum is read into `rxc`, which holds `junk` before.
  rx_crc : List ℕ → ℕ → Aap → L → Aap × L
  rx_crc junk plen s l =
      let (n, bytes, l') = bulk_read 4 l in (rx_accept (u32_at (store 0 bytes junk)) plen s, l')

  rx_payload : List ℕ → ℕ → Aap → L → Aap × L
  rx_payload junk plen s l =
      let (n, bytes, l') = bulk_read plen l in
      let s' = record s { buf = store aap_hdr_sz bytes s.buf } in
      if ltb n plen then (count_err s', l') else rx_crc junk plen s' l'

  -- One pass of the loop of `rx_task`
  pub rx_pass : List ℕ → Aap → L → Aap × L
  rx_pass junk s l =
      let (n, bytes, l') = bulk_read aap_hdr_sz l in
      let s' = record s { buf = store 0 bytes s.buf } in
      let plen = u16_at (drop 6 s'.buf) in
      if ltb (code s.state) (code running)
      then (s, l)
      else if ltb n aap_hdr_sz
      then (s', l')
      else if ltb aap_max_frame plen || leb ch_max (get_or s'.buf 0 0)
      then (count_err s', l')
      else if ltb 0 plen
      then rx_payload junk plen s' l'
      else rx_crc junk plen s' l'
