-- ===== src/LcdProbe/Match.antt =====
-- Which panel drivers/autodetect/lcd_probe.c chooses, and what it registers.
use nanos_os.Common.{
  ℕ, zero, suc, ◌+◌, ◌≡◌, refl, ap, subst, ◌∙◌, ◌<◌, true, Option, none, some, List, [], ◌∷◌, ◌==◌,
  arith, Bool-cases, Option-cases, inl, inr, ◌⊎◌, length, get_elem?, take,
}
use nanos_os.DevTree.{
  fill_node, Node, DeviceTree, devtree_register, node_update, bus_spi, lcd_caps, dev_lcd,
  max_device_nodes,
}
use nanos_os.DevTree.Registry.{IsValid, devtree_register-IsValid, devtree_register-room, new_node}
use nanos_os.DevTree.Update.{
  Keeps, length-update, get_elem?-update, update-IsValid, counted-IsValid,
}
use nanos_os.LcdProbe.{
  Op, config, Pins, Panel, panel_reset, init_panel, s_panels, read_id, id_match, scan, probe_panel,
  Lcd, set_caps, lcd_driver, devtree_probe_lcd, register_panel, try_pins,
}

some_inj : {a b : ℕ} → some a ≡ some b → a ≡ b
some_inj h = cc

module _ (reply : List Op → ℕ) (p : Pins) where
  -- The ID read at some time on these pins is that of the panel.
  pub Answers : Panel → Type 0
  Answers l = (tr : List Op) × (id_match (read_id reply l p tr).0 l.id l.id_mask ≡ true)

  scan-some :
      (i : ℕ) (ls : List Panel) (tr : List Op) (j : ℕ)
      → (scan reply p i ls tr).0 ≡ some j
      → (o : ℕ) × (l : Panel) × (j ≡ i + o) × (get_elem? ls o ≡ some l) × Answers l
  unfolding scan Answers
  scan-some i [] tr j e = cc
  scan-some i (l ∷ ls) tr j e = elim (Bool-cases (l.cmd_id == 0xFF)) [
    | inl c ↦ later (scan-some (i + 1) ls tr j (rw (c) at e))
    | inr c ↦ elim (Bool-cases (id_match (read_id reply l p tr).0 l.id l.id_mask)) [
      | inl m ↦ (
        0,
        l,
        (let e' : some i ≡ some j = rw (c, m) at e in omega (arith, some_inj e')),
        refl,
        (tr, m),
      )
      | inr m ↦ later (scan-some (i + 1) ls (read_id reply l p tr).1 j (rw (c, m) at e))
    ]
  ]
    where
      later :
          (o : ℕ) × (x : Panel) × (j ≡ i + 1 + o) × (get_elem? ls o ≡ some x) × Answers x
          → (o : ℕ) × (x : Panel) × (j ≡ i + o) × (get_elem? (l ∷ ls) o ≡ some x) × Answers x
      later (o, x, a, b, c) = (suc o, x, omega arith, b, c)

  take-get {ℓ} :
      {A : Type ℓ} (n i : ℕ) (xs : List A) (x : A)
      → get_elem? (take n xs) i ≡ some x
      → (i < n) × (get_elem? xs i ≡ some x)
  take-get zero i xs x e = cc
  take-get (suc n) i [] x e = cc
  take-get (suc n) zero (y ∷ xs) x e = (omega arith, e)
  take-get (suc n) (suc i) (y ∷ xs) x e = let (a, b) = take-get n i xs x e in (omega arith, b)

  probe_panel-get :
      (tr : List Op)
      → (l : Panel) × (get_elem? s_panels (probe_panel reply p tr).0 ≡ some l)
        × (((probe_panel reply p tr).0 ≡ 9) ⊎ Answers l)
  unfolding probe_panel
  probe_panel-get tr =
      elim (Option-cases (scan reply p 0 (take 9 s_panels) (config ∷ panel_reset p.rst tr)).0) [
        | inl e ↦ rw (e) (_, refl, inl refl)
        | inr (j, e) ↦
            let (o, l, a, b, c) = scan-some 0 (take 9 s_panels) _ j e in
            let (lt, g) = take-get 9 o s_panels l b in
            rw (e) (l, subst (λ x. get_elem? s_panels x ≡ some l) (omega (arith, a)) g, inr c)
      ]

-- The pins that the probe tries first.
abbrev pub default_pins : Pins
default_pins = record { cs = 10; dc = 13; rst = 14 }

-- One panel of the table has been registered as it is described there, on the default pins: the one
-- that the default pins' answer identifies, or the ST7701S.
pub record Detected (reply : List Op → ℕ) (s s' : Lcd) : Type 0 where
  pub index : ℕ
  pub panel : Panel
  pub node : Node
  pub known : get_elem? s_panels index ≡ some panel
  pub evidence : (index ≡ 9) ⊎ Answers reply default_pins panel
  pub ctx : s'.ctx ≡ some (index, default_pins)
  pub stored : get_elem? s'.tree.nodes (length s.tree.nodes) ≡ some node
  pub more : length s'.tree.nodes ≡ length s.tree.nodes + 1
  pub category : node.category ≡ dev_lcd
  pub address : node.bus_addr ≡ 10
  pub caps : node.caps ≡ lcd_caps panel.width panel.height panel.color_bits panel.max_spi_hz true
  pub count : s'.tree.spi_devices_found ≡ s.tree.spi_devices_found + 1
  pub valid : IsValid s'.tree

devtree_probe_lcd-first :
    (reply : List Op → ℕ) (s : Lcd) (l : Panel)
    → let (i, tr) = probe_panel reply default_pins s.trace in
      get_elem? s_panels i ≡ some l
      → devtree_probe_lcd reply s
        ≡ register_panel i l default_pins
            (record s { trace = (init_panel l default_pins tr).1; ctx = some (i, default_pins) })
unfolding devtree_probe_lcd try_pins init_panel
devtree_probe_lcd-first reply s l g = rw (devtree_probe_lcd, try_pins, g) refl

fill_node-some :
    (f : Node → Node) (r : Option ℕ × DeviceTree) (i : ℕ)
    → r.0 ≡ some i
    → fill_node f r ≡ record r.1 { nodes = node_update f i r.1.nodes }
fill_node-some f (some j, d) i e = rw (some_inj e) refl
fill_node-some f (none, d) i e = cc

-- With room in a valid registry, the probe registers one panel, whatever the bus answers: the pins are
-- always the first of its table, since no answer makes it try the others.
pub devtree_probe_lcd-Detected :
    (reply : List Op → ℕ) (s : Lcd)
    → IsValid s.tree
    → length s.tree.nodes < max_device_nodes
    → Detected reply s (devtree_probe_lcd reply s)
unfolding register_panel new_node
devtree_probe_lcd-Detected reply s v room =
    let (l, g, ev) = probe_panel-get reply default_pins s.trace in
    let d = s.tree in
    let reg = devtree_register l.name dev_lcd bus_spi 2 10 lcd_driver d in
    let (r, more, at, same) = devtree_register-room l.name dev_lcd bus_spi 2 10 lcd_driver d room in
    let v' = devtree_register-IsValid l.name dev_lcd bus_spi 2 10 lcd_driver d v in
    rw (devtree_probe_lcd-first reply s l g, fill_node-some (set_caps l) reg (length d.nodes) r)
      record {
        index = (probe_panel reply default_pins s.trace).0;
        panel = l;
        node = _;
        known = g;
        evidence = ev;
        ctx = refl;
        stored = get_elem?-update (set_caps l) (length d.nodes) reg.1.nodes _ at;
        more = length-update (set_caps l) (length d.nodes) reg.1.nodes ∙ more;
        category = refl;
        address = refl;
        caps = refl;
        count = ap (λ x. x + 1) same;
        valid =
            counted-IsValid _ _ (update-IsValid (set_caps l) (keeps l) (length d.nodes) reg.1 v');
      }
  where
    keeps : (l : Panel) → Keeps (set_caps l)
    keeps l = record { category = λ n. refl; online = λ n. refl }
