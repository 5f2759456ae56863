-- ===== src/LcdProbe/View.antt =====
-- What the panel sees of the operations of drivers/autodetect/lcd_probe.c on the pins.
use nanos_os.Common.{
  ℕ, ◌≡◌, refl, sym, ap, ◌∙◌, Bool, true, false, List, [], ◌∷◌, ◌++◌, ◌==◌, if◌then◌else◌, ==_refl,
}
use nanos_os.LcdProbe.{
  Op, low, high, xfer, delay, config, Pins, Panel, spi_framed, spi_cmd, run_step, run_steps,
  panel_reset, init_panel,
}
use nanos_os.Kernel.{ok}
use nanos_os.LcdProbe.Sequences.{Step, cmd, dat, sleep_ms, reg}

-- The level of a pin after a trace: pins are high at first.
unfoldable pub level : ℕ → List Op → Bool
level pin [] = true
level pin (low q ∷ tr) = if pin == q then false else level pin tr
level pin (high q ∷ tr) = if pin == q then true else level pin tr
level pin (xfer b ∷ tr) = level pin tr
level pin (delay t ∷ tr) = level pin tr
level pin (config ∷ tr) = level pin tr

-- The bytes that a panel on these pins takes in, each with the level of its data/command line: those
-- sent while it is selected.
pub received : Pins → List Op → List (Bool × ℕ)
unfolding level
received p [] = []
received p (xfer b ∷ tr) =
    let before = received p tr in
    if level p.cs tr then before else before ++ (level p.dc tr, b) ∷ []
received p (low q ∷ tr) = received p tr
received p (high q ∷ tr) = received p tr
received p (delay t ∷ tr) = received p tr
received p (config ∷ tr) = received p tr

-- The bytes that a step means to send.
pub sent : List Step → List (Bool × ℕ)
sent [] = []
sent (cmd c ∷ ss) = (false, c) ∷ sent ss
sent (dat d ∷ ss) = (true, d) ∷ sent ss
sent (sleep_ms t ∷ ss) = sent ss
sent (reg r v ∷ ss) = (true, 0x80) ∷ (true, r) ∷ (true, 0x00) ∷ (true, v) ∷ sent ss

-- No panel is selected, and the data/command line is high.
pub record IsIdle (p : Pins) (tr : List Op) : Type 0 where
  pub cs_high : level p.cs tr ≡ true
  pub dc_high : level p.dc tr ≡ true

snoc_append {ℓ} :
    {A : Type ℓ} (xs : List A) (y : A) (zs : List A) → (xs ++ y ∷ []) ++ zs ≡ xs ++ y ∷ zs
snoc_append [] y zs = refl
snoc_append (x ∷ xs) y zs = ap (x ∷◌) (snoc_append xs y zs)

append_nil {ℓ} : {A : Type ℓ} (xs : List A) → xs ++ [] ≡ xs
append_nil [] = refl
append_nil (x ∷ xs) = ap (x ∷◌) (append_nil xs)

module _ (p : Pins) (apart : (p.cs == p.dc) ≡ false) (apart' : (p.dc == p.cs) ≡ false) where
  run_step-IsIdle : (s : Step) (tr : List Op) → IsIdle p tr → IsIdle p (run_step p s tr)
  unfolding run_step spi_cmd spi_framed level
  run_step-IsIdle (cmd c) tr h = record {
    cs_high = rw (apart, ==_refl p.cs) refl;
    dc_high = rw (==_refl p.dc) refl;
  }
  run_step-IsIdle (dat d) tr h = record {
    cs_high = rw (==_refl p.cs) refl;
    dc_high = rw (apart', h.dc_high) refl;
  }
  run_step-IsIdle (sleep_ms t) tr h = record { cs_high = h.cs_high; dc_high = h.dc_high }
  run_step-IsIdle (reg r v) tr h = record {
    cs_high = rw (==_refl p.cs) refl;
    dc_high = rw (apart', h.dc_high) refl;
  }

  run_step-received :
      (s : Step) (ss : List Step) (tr : List Op)
      → IsIdle p tr
      → received p (run_step p s tr) ++ sent ss ≡ received p tr ++ sent (s ∷ ss)
  unfolding run_step spi_cmd spi_framed level received sent
  run_step-received (cmd c) ss tr h =
      rw (==_refl p.cs, ==_refl p.dc, apart') (snoc_append (received p tr) (false, c) (sent ss))
  run_step-received (dat d) ss tr h =
      rw (==_refl p.cs, apart', h.dc_high) (snoc_append (received p tr) (true, d) (sent ss))
  run_step-received (sleep_ms t) ss tr h = refl
  run_step-received (reg r v) ss tr h =
      rw (==_refl p.cs, apart', h.dc_high)
        (snoc_append _ (true, v) (sent ss)
          ∙ snoc_append _ (true, 0x00) _
          ∙ snoc_append _ (true, r) _
          ∙ snoc_append (received p tr) (true, 0x80) _)

  run_steps-received :
      (ss : List Step) (tr : List Op)
      → IsIdle p tr
      → IsIdle p (run_steps p ss tr) × (received p (run_steps p ss tr) ≡ received p tr ++ sent ss)
  unfolding run_steps sent
  run_steps-received [] tr h = (h, sym (append_nil (received p tr)))
  run_steps-received (s ∷ ss) tr h =
      let (i, e) = run_steps-received ss (run_step p s tr) (run_step-IsIdle s tr h) in
      (i, e ∙ run_step-received s ss tr h)

-- Whatever the panel, its initialisation succeeds, the panel takes in exactly the commands and data of
-- its sequence in that order, with the data/command line low for the commands, and it is not selected
-- at the end. The three pins are different, and the panel is idle at the start.
pub init_panel-received :
    (l : Panel) (p : Pins) (tr : List Op)
    → ((p.cs == p.dc) ≡ false)
    → ((p.dc == p.cs) ≡ false)
    → ((p.cs == p.rst) ≡ false)
    → ((p.dc == p.rst) ≡ false)
    → IsIdle p tr
    → let (r, tr') = init_panel l p tr in
      (r ≡ ok)
      × IsIdle p tr'
      × (received p tr' ≡ received p tr ++ sent (l.init_fn l.width l.height))
unfolding init_panel panel_reset level received
init_panel-received l p tr a a' b c h =
    let (i, e) =
      run_steps-received p a a' (l.init_fn l.width l.height) (panel_reset p.rst tr) idle in
    (refl, i, e)
  where
    idle : IsIdle p (panel_reset p.rst tr)
    idle = record { cs_high = rw (b, h.cs_high) refl; dc_high = rw (c, h.dc_high) refl }
