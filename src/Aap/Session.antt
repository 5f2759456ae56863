-- ===== src/Aap/Session.antt =====
-- The tasks of usb/aap_transport.c as steps on its state. A pass of a task is one step; where the
-- tasks may interleave within a pass is not modelled.
pub mod Reach
use nanos_os.Common.{
  ℕ, zero, suc, ◌+◌, ◌-◌, ◌/◌, ◌&&◌, ◌≡◌, ◌≢◌, ◌<◌, ◌≤◌, refl, Bool, true, false, Option, none,
  some, List, [], ◌∷◌, ◌++◌, ◌==◌, arith, ltb, leb, get_or, set, take, drop, replicate,
  if◌then◌else◌, Bool-cases, inl, inr,
}
use nanos_os.Common.Bytes.{le16, le32, u16_at, u32_at, store}
use nanos_os.Kernel.{ok, u32_mod}
use nanos_os.Sync.Queues.{send, recv}
use nanos_os.Aap.{
  Aap, AapState, disconnected, aoa_probe, connected, version_neg, service_disc, running, error,
  code, Callbacks, control, called_disconnected, reset_device, build_frame, write_frame, send_ctrl,
  call, rx_pass, ch_max, ch_input, msg_version_req, msg_ping,
}

abbrev pub aoa_get_proto : ℕ
aoa_get_proto = 51

abbrev pub aoa_send_ident : ℕ
aoa_send_ident = 52

abbrev pub aoa_start_acc : ℕ
aoa_start_acc = 53

abbrev pub aoa_audio_sup : ℕ
aoa_audio_sup = 58

-- The strings `ids` of `conn_task`, each with its final zero
abbrev ids : List (List ℕ)
ids =
    (0x4E ∷ 0x61 ∷ 0x6E ∷ 0x6F ∷ 0x73 ∷ 0x4F ∷ 0x53 ∷ 0x00 ∷ [])
    ∷ (0x45 ∷ 0x53 ∷ 0x50 ∷ 0x33 ∷ 0x32 ∷ 0x53 ∷ 0x33 ∷ 0x20 ∷ 0x48 ∷ 0x65 ∷ 0x61 ∷ 0x64 ∷ 0x20
        ∷ 0x55 ∷ 0x6E ∷ 0x69 ∷ 0x74 ∷ 0x00 ∷ [])
    ∷ (0x43 ∷ 0x61 ∷ 0x72 ∷ 0x20 ∷ 0x49 ∷ 0x6E ∷ 0x66 ∷ 0x6F ∷ 0x74 ∷ 0x61 ∷ 0x69 ∷ 0x6E ∷ 0x6D
        ∷ 0x65 ∷ 0x6E ∷ 0x74 ∷ 0x00 ∷ [])
    ∷ (0x31 ∷ 0x2E ∷ 0x30 ∷ 0x00 ∷ [])
    ∷ (0x68 ∷ 0x74 ∷ 0x74 ∷ 0x70 ∷ 0x73 ∷ 0x3A ∷ 0x2F ∷ 0x2F ∷ 0x6E ∷ 0x61 ∷ 0x6E ∷ 0x6F ∷ 0x73
        ∷ 0x2E ∷ 0x64 ∷ 0x65 ∷ 0x76 ∷ 0x00 ∷ [])
    ∷ (0x30 ∷ 0x30 ∷ 0x30 ∷ 0x31 ∷ 0x00 ∷ [])
    ∷ []

send_idents : ℕ → List (List ℕ) → Aap → Aap
send_idents i [] s = s
send_idents i (x ∷ xs) s = send_idents (i + 1) xs (call (control aoa_send_ident 0 i x) s)

-- The case AAP_AOA_PROBE; `proto` is the answer to AOA_GET_PROTO.
aoa_pass : ℕ → Aap → Aap
aoa_pass proto s =
    let asked = call (control aoa_get_proto 0 0 []) s in
    let named = send_idents 0 ids asked in
    let audio = if leb 2 proto then call (control aoa_audio_sup 1 0 (1 ∷ [])) named else named in
    if leb 1 proto
    then record (call (control aoa_start_acc 0 0 []) audio) { state = connected }
    else record asked { state = disconnected }

-- The switch of `conn_task`: `present` is `usb_device_connected()`, and `pb` the bytes that the device
-- answers to AOA_GET_PROTO.
conn_switch : AapState → Bool → List ℕ → Aap → Aap
conn_switch disconnected present pb s = if present then record s { state = aoa_probe } else s
conn_switch aoa_probe present pb s = aoa_pass (u16_at (store 0 pb (0 ∷ 0 ∷ []))) s
conn_switch connected present pb s =
    if present then record (send_ctrl msg_version_req (2 ∷ 0 ∷ []) s) { state = version_neg } else s
conn_switch version_neg present pb s = s
conn_switch service_disc present pb s = s
conn_switch running present pb s = send_ctrl msg_ping [] s
conn_switch error present pb s =
    let s' = record (call reset_device s) { state = disconnected } in
    if s.cbs.on_disconnected then call called_disconnected s' else s'

-- One pass of the loop of `conn_task`
pub conn_pass : Bool → List ℕ → Aap → Aap
conn_pass present pb s = conn_switch s.state present pb s

-- What `tx_task` does for an open channel. `k_msgq_recv` without a wait is `recv`.
tx_channel : ℕ → Aap → Aap
tx_channel i s =
    let (r, item, q) = recv (get_or s.txq i []) in
    elim item [
      | none ↦ s
      | some d ↦
          write_frame (build_frame i 0 (take (u32_at d) (drop 4 d)))
            (record s { txq = set s.txq i q })
    ]

-- One pass of the loop of `tx_task`, for the last `n` channels
tx_channels : ℕ → Aap → Aap
tx_channels zero s = s
tx_channels (suc n) s =
    let i = ch_max - suc n in tx_channels n (if get_or s.is_open i false then tx_channel i s else s)

pub tx_pass : Aap → Aap
tx_pass s = tx_channels ch_max s

pub aap_is_running : Aap → Bool
aap_is_running s = code s.state == code running

-- The 512 bytes that `k_msgq_send` copies from `item`, an array of 20: `beyond` is what lies behind
-- the 18 bytes written. `ts` is the time in microseconds.
touch_item : ℕ → ℕ → ℕ → ℕ → List ℕ → List ℕ
touch_item ts x y act beyond =
    le32 16 ++ le32 ts ++ le32 (ts / u32_mod) ++ act ∷ 0 ∷ [] ++ le16 x ++ le16 y ++ beyond

queue_touch : List ℕ → Aap → Aap
queue_touch item s =
    let (r, q) = send 8 (get_or s.txq ch_input []) item in record s { txq = set s.txq ch_input q }

-- `aap_send_touch`, for a queue that stays full while it waits if it is full
pub aap_send_touch : ℕ → ℕ → ℕ → ℕ → List ℕ → Aap → Aap
aap_send_touch ts x y act beyond s =
    if aap_is_running s && get_or s.is_open ch_input false
    then queue_touch (touch_item ts x y act beyond) s
    else s

-- The static variables at start-up, with the buffer of `rx_task` as it is allocated.
pub boot : Callbacks → List ℕ → Aap
boot cbs buf = record {
  state = disconnected;
  is_open = replicate ch_max false;
  ver = 0;
  rxb = 0;
  txb = 0;
  frx = 0;
  ftx = 0;
  err = 0;
  cbs = cbs;
  buf = buf;
  txq = replicate ch_max [];
  log = [];
}

pub aap_transport_init : Option Callbacks → Aap → Aap
aap_transport_init cbs s = record s {
  state = disconnected;
  is_open = replicate ch_max false;
  txq = replicate ch_max [];
  cbs = elim cbs [ none ↦ s.cbs | some c ↦ c ];
}
