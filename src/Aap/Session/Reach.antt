-- ===== src/Aap/Session/Reach.antt =====
-- Which states the session of usb/aap_transport.c reaches.
use nanos_os.Common.{
  ℕ, ◌+◌, ◌≡◌, sym, subst, ◌≤◌, refl, Bool, true, false, Option, List, [], ◌∷◌, arith, ltb, leb,
  replicate, if◌then◌else◌,
}
use nanos_os.Aap.{
  Aap, AapState, disconnected, aoa_probe, connected, version_neg, service_disc, running, error,
  code, Callbacks, rx_pass, ch_max, call, Event, control, send_ctrl, write_frame,
}
use nanos_os.Aap.Session.{
  conn_pass, conn_switch, tx_pass, tx_channels, aap_send_touch, aap_transport_init, boot,
  aap_is_running, aoa_pass, send_idents, ids, aoa_get_proto, aoa_audio_sup,
}

-- The states that the tasks and the calls of `aap_send_touch` lead to, whatever the device and the
-- USB stack answer.
pub data Reached : Aap → Type 0 where
  init :
      (cbs : Option Callbacks) (unset : Callbacks) (buf : List ℕ)
      → Reached (aap_transport_init cbs (boot unset buf))
  conn : (present : Bool) (pb : List ℕ) (s : Aap) → Reached s → Reached (conn_pass present pb s)
  rx :
      (bulk_read : ℕ → ℕ → ℕ × List ℕ × ℕ) (l : ℕ) (junk : List ℕ) (s : Aap)
      → Reached s
      → Reached (rx_pass bulk_read junk s l).0
  tx : (s : Aap) → Reached s → Reached (tx_pass s)
  touch :
      (ts x y act : ℕ) (beyond : List ℕ) (s : Aap)
      → Reached s
      → Reached (aap_send_touch ts x y act beyond s)

-- The session is not past its version request: no channel is open and no frame was received.
record IsEarly (s : Aap) : Type 0 where
  pub before : code s.state ≤ 3
  pub shut : s.is_open ≡ replicate ch_max false
  pub no_frames : s.frx ≡ 0
  pub no_bytes : s.rxb ≡ 0
  pub no_errors : s.err ≡ 0

not_running : (s : Aap) → IsEarly s → aap_is_running s ≡ false
unfolding aap_is_running
not_running s v = ground (arith, v.before)

rx_pass-IsEarly :
    (bulk_read : ℕ → ℕ → ℕ × List ℕ × ℕ) (l : ℕ) (junk : List ℕ) (s : Aap)
    → IsEarly s
    → (rx_pass bulk_read junk s l).0 ≡ s
unfolding rx_pass
rx_pass-IsEarly bulk_read l junk s v = rw (asleep) refl
  where
    asleep : ltb (code s.state) (code running) ≡ true
    asleep = ground (arith, v.before)

tx_pass-IsEarly : (s : Aap) → IsEarly s → tx_pass s ≡ s
unfolding tx_pass tx_channels
tx_pass-IsEarly s v = rw (v.shut) refl

touch-IsEarly :
    (ts x y act : ℕ) (beyond : List ℕ) (s : Aap)
    → IsEarly s
    → aap_send_touch ts x y act beyond s ≡ s
unfolding aap_send_touch
touch-IsEarly ts x y act beyond s v = rw (not_running s v) refl

-- An early session whose state is set to one that is early too.
moved : (s : Aap) (st : AapState) → code st ≤ 3 → IsEarly s → IsEarly (record s { state = st })
moved s st h v = record {
  before = h;
  shut = v.shut;
  no_frames = v.no_frames;
  no_bytes = v.no_bytes;
  no_errors = v.no_errors;
}

logged : (s : Aap) (e : Event) → IsEarly s → IsEarly (call e s)
unfolding call
logged s e v = record {
  before = v.before;
  shut = v.shut;
  no_frames = v.no_frames;
  no_bytes = v.no_bytes;
  no_errors = v.no_errors;
}

sent : (s : Aap) (msg_type : ℕ) (pay : List ℕ) → IsEarly s → IsEarly (send_ctrl msg_type pay s)
unfolding send_ctrl write_frame
sent s msg_type pay v = record {
  before = v.before;
  shut = v.shut;
  no_frames = v.no_frames;
  no_bytes = v.no_bytes;
  no_errors = v.no_errors;
}

send_idents-IsEarly :
    (i : ℕ) (xs : List (List ℕ)) (s : Aap) → IsEarly s → IsEarly (send_idents i xs s)
unfolding send_idents
send_idents-IsEarly i [] s v = v
send_idents-IsEarly i (x ∷ xs) s v = send_idents-IsEarly (i + 1) xs _ (logged s _ v)

either : (b : Bool) (s t : Aap) → IsEarly s → IsEarly t → IsEarly (if b then s else t)
either true s t v w = v
either false s t v w = w

aoa_pass-IsEarly : (proto : ℕ) (s : Aap) → IsEarly s → IsEarly (aoa_pass proto s)
unfolding aoa_pass
aoa_pass-IsEarly proto s v =
    either (leb 1 proto) _ _ (moved _ connected (omega arith) (logged _ _ audio))
      (moved _ disconnected (omega arith) asked)
  where
    asked : IsEarly (call (control aoa_get_proto 0 0 []) s)
    asked = logged s _ v

    named : IsEarly (send_idents 0 ids (call (control aoa_get_proto 0 0 []) s))
    named = send_idents-IsEarly 0 ids _ asked

    audio : IsEarly (
        if leb 2 proto
        then call
            (control aoa_audio_sup 1 0 (1 ∷ []))
            (send_idents 0 ids (call (control aoa_get_proto 0 0 []) s))
        else send_idents 0 ids (call (control aoa_get_proto 0 0 []) s))
    audio = either (leb 2 proto) _ _ (logged _ _ named) named

conn_switch-IsEarly :
    (present : Bool) (pb : List ℕ) (s : Aap) (st : AapState)
    → code st ≤ 3
    → IsEarly s
    → IsEarly (conn_switch st present pb s)
unfolding conn_switch
conn_switch-IsEarly present pb s disconnected h v =
    either present _ _ (moved s aoa_probe (omega arith) v) v
conn_switch-IsEarly present pb s aoa_probe h v = aoa_pass-IsEarly _ s v
conn_switch-IsEarly present pb s connected h v =
    either present _ _ (moved _ version_neg (omega arith) (sent s _ _ v)) v
conn_switch-IsEarly present pb s version_neg h v = v
conn_switch-IsEarly present pb s service_disc h v = v
conn_switch-IsEarly present pb s running h v = absurd (omega arith)
conn_switch-IsEarly present pb s error h v = absurd (omega arith)

Reached-IsEarly : (s : Aap) → Reached s → IsEarly s
unfolding aap_transport_init boot conn_pass
Reached-IsEarly s (init cbs unset buf) = record {
  before = omega arith;
  shut = refl;
  no_frames = refl;
  no_bytes = refl;
  no_errors = refl;
}
Reached-IsEarly s (conn present pb t r) =
    let v = Reached-IsEarly t r in conn_switch-IsEarly present pb t t.state v.before v
Reached-IsEarly s (rx bulk_read l junk t r) =
    let v = Reached-IsEarly t r in subst IsEarly (sym (rx_pass-IsEarly bulk_read l junk t v)) v
Reached-IsEarly s (tx t r) =
    let v = Reached-IsEarly t r in subst IsEarly (sym (tx_pass-IsEarly t v)) v
Reached-IsEarly s (touch ts x y act beyond t r) =
    let v = Reached-IsEarly t r in subst IsEarly (sym (touch-IsEarly ts x y act beyond t v)) v

-- Whatever the device and the USB stack answer, and in whatever order the passes of the three tasks
-- and the calls of `aap_send_touch` follow each other, the session is never RUNNING: only a received
-- frame would set that state, and `rx_task` receives nothing before it. So no frame is ever received,
-- nor an error counted, and no channel is open.
pub Reached-not_running :
    (s : Aap)
    → Reached s
    → (aap_is_running s ≡ false) × (s.frx ≡ 0) × (s.err ≡ 0) × (s.is_open ≡ replicate ch_max false)
Reached-not_running s r =
    let v = Reached-IsEarly s r in (not_running s v, v.no_frames, v.no_errors, v.shut)
