-- ===== src/DevTree/Registry.antt =====
-- What the registry of system/devtree/device_tree.c guarantees.
use nanos_os.Common.{
  All-snoc, zero, suc, ap, ℕ, ◌+◌, ◌≤◌, ◌<◌, ◌≡◌, refl, sym, ◌∙◌, Bool, true, false, Option, none,
  some, List, [], ◌∷◌, ◌++◌, arith, subst, ◌==◌, ◌&&◌, ◌||◌, not, ==_refl, take, leb, if◌then◌else◌,
  length, length-append, get_elem?, Bool-cases, inl, inr, All, ◌⊎◌,
}
use nanos_os.DevTree.{
  Node, DeviceTree, BusType, no_caps, devtree_init, devtree_register, devtree_find, find_from,
  devtree_has, dev_lcd, dev_touch, dev_audio_out, dev_audio_in, max_device_nodes, becomes, or_first,
  is_none, primary_driver,
}

-- The primary device of each category is the first online node of that category, the nodes fit their
-- array, and all are online.
pub record IsValid (d : DeviceTree) : Type 0 where
  pub fits : length d.nodes ≤ max_device_nodes
  pub all_online : All (λ (n : Node). n.online ≡ true) d.nodes
  pub lcd : d.primary_lcd ≡ devtree_find dev_lcd d
  pub touch : d.primary_touch ≡ devtree_find dev_touch d
  pub audio_out : d.primary_audio_out ≡ devtree_find dev_audio_out d
  pub audio_in : d.primary_audio_in ≡ devtree_find dev_audio_in d

and_true : (b : Bool) → b && true ≡ b
and_true true = refl
and_true false = refl

zero_add : (n : ℕ) → 0 + n ≡ n
zero_add n = omega arith

find_from-snoc {ℓ} :
    {A : Type ℓ} (test : A → Bool) (i : ℕ) (xs : List A) (x : A)
    → find_from test i (xs ++ x ∷ [])
      ≡ or_first (test x && is_none (find_from test i xs)) (i + length xs) (find_from test i xs)
unfolding find_from
find_from-snoc test i [] x = elim (Bool-cases (test x)) [
  | inl e ↦ rw (e) (ground arith)
  | inr e ↦ rw (e) refl
]
find_from-snoc test i (y ∷ ys) x = elim (Bool-cases (test y)) [
  | inl e ↦ elim (Bool-cases (test x)) [ inl f ↦ rw (e, f) refl | inr f ↦ rw (e, f) refl ]
  | inr e ↦ rw (e) (
      subst
        (λ m.
          find_from test (i + 1) (ys ++ x ∷ [])
          ≡ or_first (test x && is_none (find_from test (i + 1) ys)) m (find_from test (i + 1) ys))
        (omega arith) (find_from-snoc test (i + 1) ys x))
]

-- The first node of a category, after a node has come in.
find-snoc :
    (c : ℕ) (d : DeviceTree) (n : Node) (p : Option ℕ)
    → p ≡ devtree_find c d
    → n.online ≡ true
    → or_first (becomes n.category c p) (length d.nodes) p
      ≡ devtree_find c (record d { nodes = d.nodes ++ n ∷ [] })
unfolding devtree_find
find-snoc c d n p e on =
    subst
      (λ o.
        or_first (becomes n.category c o) (length d.nodes) o
        ≡ find_from (λ (m : Node). (m.category == c) && m.online) 0 (d.nodes ++ n ∷ []))
      (sym e)
      (sym (
        find_from-snoc (λ (m : Node). (m.category == c) && m.online) 0 d.nodes n
        ∙ rw (on, and_true (n.category == c), zero_add (length d.nodes)) refl))

pub devtree_init-IsValid : IsValid devtree_init
unfolding devtree_init devtree_find find_from
devtree_init-IsValid = record {
  fits = omega arith;
  all_online = tt;
  lcd = refl;
  touch = refl;
  audio_out = refl;
  audio_in = refl;
}

pub devtree_init-empty : length devtree_init.nodes ≡ 0
unfolding devtree_init
devtree_init-empty = refl

pub devtree_init-room : length devtree_init.nodes < max_device_nodes
unfolding devtree_init
devtree_init-room = omega arith

pub devtree_init-has : (c : ℕ) → devtree_has c devtree_init ≡ false
unfolding devtree_init devtree_has devtree_find find_from
devtree_init-has c = refl

-- A new device keeps the registry valid: each primary device is still the first online node of its
-- category, whatever the category of the new one and whether or not there is room for it.
pub devtree_register-IsValid :
    (name : List ℕ) (cat : ℕ) (bus : BusType) (bus_num addr drv : ℕ) (d : DeviceTree)
    → IsValid d
    → IsValid (devtree_register name cat bus bus_num addr drv d).1
unfolding devtree_register devtree_find
devtree_register-IsValid name cat bus bus_num addr drv d v =
    elim (Bool-cases (leb max_device_nodes (length d.nodes))) [
      | inl e ↦ rw (e) v
      | inr e ↦
          let h = v.fits in
          rw (e) record {
            fits = grind (arith, length-append);
            all_online = All-snoc _ d.nodes _ v.all_online refl;
            lcd = find-snoc dev_lcd d _ d.primary_lcd v.lcd refl;
            touch = find-snoc dev_touch d _ d.primary_touch v.touch refl;
            audio_out = find-snoc dev_audio_out d _ d.primary_audio_out v.audio_out refl;
            audio_in = find-snoc dev_audio_in d _ d.primary_audio_in v.audio_in refl;
          }
    ]

get_elem?-snoc {ℓ} :
    {A : Type ℓ} (xs : List A) (x : A) → get_elem? (xs ++ x ∷ []) (length xs) ≡ some x
get_elem?-snoc [] x = refl
get_elem?-snoc (y ∷ ys) x = get_elem?-snoc ys x

-- The new node, where there is room for it.
unfoldable pub new_node : List ℕ → ℕ → BusType → ℕ → ℕ → ℕ → DeviceTree → Node
new_node name cat bus bus_num addr drv d = record {
  id = length d.nodes + 1;
  name = take 31 name;
  category = cat;
  bus_type = bus;
  bus_num = bus_num;
  bus_addr = addr;
  chip_id = 0;
  probed = true;
  online = true;
  primary =
      becomes cat dev_lcd d.primary_lcd
      || becomes cat dev_touch d.primary_touch
      || becomes cat dev_audio_out d.primary_audio_out
      || becomes cat dev_audio_in d.primary_audio_in;
  caps = no_caps;
  driver = drv;
}

pub devtree_register-room :
    (name : List ℕ) (cat : ℕ) (bus : BusType) (bus_num addr drv : ℕ) (d : DeviceTree)
    → length d.nodes < max_device_nodes
    → let (r, d') = devtree_register name cat bus bus_num addr drv d in
      (r ≡ some (length d.nodes))
      × (length d'.nodes ≡ length d.nodes + 1)
      × (get_elem? d'.nodes (length d.nodes) ≡ some (new_node name cat bus bus_num addr drv d))
      × (d'.spi_devices_found ≡ d.spi_devices_found)
unfolding devtree_register new_node
devtree_register-room name cat bus bus_num addr drv d h =
    let e : leb max_device_nodes (length d.nodes) ≡ false = ground arith in
    rw (e) (refl, length-append d.nodes _ ∙ omega arith, get_elem?-snoc d.nodes _, refl)

primary_driver-node :
    (i : ℕ) (d : DeviceTree) (n : Node)
    → get_elem? d.nodes i ≡ some n
    → primary_driver (some i) d ≡ (if n.driver == 0 then none else some n.driver)
unfolding primary_driver
primary_driver-node i d n e = rw (primary_driver, e) refl

-- The result is the index of the new node, by which a caller reads it back with the driver it gave,
-- exactly if there is room; a full registry stays as it is.
pub devtree_register_lem :
    (name : List ℕ) (cat : ℕ) (bus : BusType) (bus_num addr drv : ℕ) (d : DeviceTree)
    → let (r, d') = devtree_register name cat bus bus_num addr drv d in
      ((length d.nodes < max_device_nodes)
        × (r ≡ some (length d.nodes))
        × (length d'.nodes ≡ length d.nodes + 1)
        × (primary_driver r d' ≡ (if drv == 0 then none else some drv)))
      ⊎ ((max_device_nodes ≤ length d.nodes) × (r ≡ none) × (d' ≡ d))
unfolding devtree_register
devtree_register_lem name cat bus bus_num addr drv d =
    elim (Bool-cases (leb max_device_nodes (length d.nodes))) [
      | inl e ↦ rw (e) (inr (ground arith, refl, refl))
      | inr e ↦ rw (e) (
          inl (
            ground arith,
            refl,
            length-append d.nodes _ ∙ omega arith,
            primary_driver-node _ _ _ (get_elem?-snoc d.nodes _),
          ))
    ]

has_first :
    (b : Bool) (n : ℕ) (o : Option ℕ)
    → b ≡ true
    → not (is_none (or_first (b && is_none o) n o)) ≡ true
has_first b n none h = rw (h) refl
has_first b n (some i) h = rw (h) refl

-- A device that there is room for is then found by its category.
pub devtree_register-has :
    (name : List ℕ) (cat : ℕ) (bus : BusType) (bus_num addr drv : ℕ) (d : DeviceTree)
    → length d.nodes < max_device_nodes
    → devtree_has cat (devtree_register name cat bus bus_num addr drv d).1 ≡ true
unfolding devtree_register devtree_has devtree_find
devtree_register-has name cat bus bus_num addr drv d h =
    let e : leb max_device_nodes (length d.nodes) ≡ false = ground arith in
    rw (e, find_from-snoc (λ (m : Node). (m.category == cat) && m.online) 0 d.nodes)
      (has_first ((cat == cat) && true) (0 + length d.nodes) _ (rw (==_refl cat) refl))

-- A codec with both a DAC and an ADC is registered under the two bits of both categories at once: it
-- becomes no primary device, and a search for an audio output does not find it.
pub audio_both_lost :
    (name : List ℕ) (bus : BusType) (bus_num addr drv : ℕ) (d : DeviceTree)
    → let d' = (devtree_register name (dev_audio_out + dev_audio_in) bus bus_num addr drv d).1 in
      (d'.primary_audio_out ≡ d.primary_audio_out)
      × (d'.primary_audio_in ≡ d.primary_audio_in)
      × (devtree_has dev_audio_out d' ≡ devtree_has dev_audio_out d)
unfolding devtree_register devtree_has devtree_find
audio_both_lost name bus bus_num addr drv d =
    elim (Bool-cases (leb max_device_nodes (length d.nodes))) [
      | inl e ↦ rw (e) (refl, refl, refl)
      | inr e ↦
          rw (e, find_from-snoc (λ (m : Node). (m.category == dev_audio_out) && m.online) 0 d.nodes)
            (refl, refl, refl)
    ]

-- A device of another category does not become the primary one.
pub devtree_register-primary :
    (name : List ℕ) (cat : ℕ) (bus : BusType) (bus_num addr drv : ℕ) (d : DeviceTree)
    → let d' = (devtree_register name cat bus bus_num addr drv d).1 in
      ((cat == dev_lcd) ≡ false → d'.primary_lcd ≡ d.primary_lcd)
      × ((cat == dev_touch) ≡ false → d'.primary_touch ≡ d.primary_touch)
      × ((cat == dev_audio_out) ≡ false → d'.primary_audio_out ≡ d.primary_audio_out)
      × ((cat == dev_audio_in) ≡ false → d'.primary_audio_in ≡ d.primary_audio_in)
unfolding devtree_register
devtree_register-primary name cat bus bus_num addr drv d =
    elim (Bool-cases (leb max_device_nodes (length d.nodes))) [
      | inl e ↦ rw (e) (λ h. refl, λ h. refl, λ h. refl, λ h. refl)
      | inr e ↦ rw (e) (λ h. rw (h) refl, λ h. rw (h) refl, λ h. rw (h) refl, λ h. rw (h) refl)
    ]

-- A valid registry that has a touch device has a primary one.
pub has_primary :
    (d : DeviceTree) → IsValid d → devtree_has dev_touch d ≡ true → is_none d.primary_touch ≡ false
unfolding devtree_has
has_primary d v h = rw (v.touch) (flip (is_none (devtree_find dev_touch d)) h)
  where
    flip : (b : Bool) → not b ≡ true → b ≡ false
    flip true e = cc
    flip false e = refl

find_from-found {ℓ} :
    {A : Type ℓ} (test : A → Bool) (k i : ℕ) (xs : List A) (x : A)
    → get_elem? xs i ≡ some x
    → test x ≡ true
    → is_none (find_from test k xs) ≡ false
unfolding find_from
find_from-found test k i [] x g h = cc
find_from-found test k zero (y ∷ ys) x g h =
    let e : y ≡ x = cc in let f : test y ≡ true = ap test e ∙ h in rw f refl
find_from-found test k (suc i) (y ∷ ys) x g h = elim (Bool-cases (test y)) [
  | inl e ↦ rw e refl
  | inr e ↦ rw e (find_from-found test (k + 1) i ys x g h)
]

online_at :
    (i : ℕ) (ns : List Node) (n : Node)
    → All (λ (m : Node). m.online ≡ true) ns
    → get_elem? ns i ≡ some n
    → n.online ≡ true
online_at i [] n a g = cc
online_at zero (m ∷ ns) n a g = let e : m ≡ n = cc in ap (λ (x : Node). x.online) (sym e) ∙ a.0
online_at (suc i) (m ∷ ns) n a g = online_at i ns n a.1 g

-- A valid registry that holds a display has a primary one.
pub stored-primary :
    (d : DeviceTree) (i : ℕ) (n : Node)
    → IsValid d
    → get_elem? d.nodes i ≡ some n
    → n.category ≡ dev_lcd
    → is_none d.primary_lcd ≡ false
unfolding devtree_find
stored-primary d i n v g c =
    let o = online_at i d.nodes n v.all_online g in
    let t : ((n.category == dev_lcd) && n.online) ≡ true = rw (c, o) refl in
    ap is_none v.lcd
    ∙ find_from-found (λ (m : Node). (m.category == dev_lcd) && m.online) 0 i d.nodes n g t
