-- ===== src/DevTree/Update.antt =====
-- system/devtree/device_tree.c: what the writes of the probes to a new node keep.
use nanos_os.Common.{
  ℕ, zero, suc, ◌+◌, ◌≡◌, refl, sym, ap, ◌∙◌, true, Option, none, some, List, [], ◌∷◌, ◌==◌, ◌&&◌,
  arith, length, All, get_elem?,
}
use mathlib.Core.Option
use nanos_os.DevTree.{
  Node, DeviceTree, devtree_find, devtree_has, fill_node, find_from, node_update,
}
use nanos_os.DevTree.Registry.{IsValid}

pub length-update :
    (f : Node → Node) (i : ℕ) (ns : List Node) → length (node_update f i ns) ≡ length ns
unfolding node_update
length-update f i [] = refl
length-update f zero (n ∷ ns) = refl
length-update f (suc i) (n ∷ ns) = ap suc (length-update f i ns)

pub get_elem?-update :
    (f : Node → Node) (i : ℕ) (ns : List Node) (n : Node)
    → get_elem? ns i ≡ some n
    → get_elem? (node_update f i ns) i ≡ some (f n)
unfolding node_update
get_elem?-update f i [] n e = cc
get_elem?-update f zero (m ∷ ns) n e = ap (Option.map f) e
get_elem?-update f (suc i) (m ∷ ns) n e = get_elem?-update f i ns n e

-- A change of a node that keeps its category and its state.
pub record Keeps (f : Node → Node) : Type 0 where
  pub category : (n : Node) → (f n).category ≡ n.category
  pub online : (n : Node) → (f n).online ≡ n.online

module _ (f : Node → Node) (h : Keeps f) where
  find-update :
      (c i k : ℕ) (ns : List Node)
      → find_from (λ (n : Node). (n.category == c) && n.online) i (node_update f k ns)
        ≡ find_from (λ (n : Node). (n.category == c) && n.online) i ns
  unfolding find_from node_update
  find-update c i k [] = refl
  find-update c i zero (n ∷ ns) = rw (h.category n, h.online n) refl
  find-update c i (suc k) (n ∷ ns) = rw (find-update c (i + 1) k ns) refl

  online-update :
      (k : ℕ) (ns : List Node)
      → All (λ (n : Node). n.online ≡ true) ns
      → All (λ (n : Node). n.online ≡ true) (node_update f k ns)
  unfolding node_update
  online-update k [] a = tt
  online-update zero (n ∷ ns) a = (h.online n ∙ a.0, a.1)
  online-update (suc k) (n ∷ ns) a = (a.0, online-update k ns a.1)

  pub update-IsValid :
      (k : ℕ) (d : DeviceTree) → IsValid d → IsValid (record d { nodes = node_update f k d.nodes })
  unfolding devtree_find
  update-IsValid k d v = record {
    fits = (let e = length-update f k d.nodes in let g = v.fits in omega arith);
    all_online = online-update k d.nodes v.all_online;
    lcd = v.lcd ∙ sym (find-update _ 0 k d.nodes);
    touch = v.touch ∙ sym (find-update _ 0 k d.nodes);
    audio_out = v.audio_out ∙ sym (find-update _ 0 k d.nodes);
    audio_in = v.audio_in ∙ sym (find-update _ 0 k d.nodes);
  }

-- The writes to the new node do not change what a search finds.
pub fill_node-has :
    (f : Node → Node) (c : ℕ) (r : Option ℕ × DeviceTree)
    → Keeps f
    → devtree_has c (fill_node f r) ≡ devtree_has c r.1
unfolding devtree_has devtree_find
fill_node-has f c (none, d) h = refl
fill_node-has f c (some i, d) h = rw (find-update f h c 0 i d.nodes) refl

pub counted-IsValid :
    (d : DeviceTree) (k : ℕ) → IsValid d → IsValid (record d { spi_devices_found = k })
unfolding devtree_find
counted-IsValid d k v = record {
  fits = v.fits;
  all_online = v.all_online;
  lcd = v.lcd;
  touch = v.touch;
  audio_out = v.audio_out;
  audio_in = v.audio_in;
}

pub scanned-IsValid :
    (d : DeviceTree) (k : ℕ) → IsValid d → IsValid (record d { i2c_devices_found = k })
unfolding devtree_find
scanned-IsValid d k v = record {
  fits = v.fits;
  all_online = v.all_online;
  lcd = v.lcd;
  touch = v.touch;
  audio_out = v.audio_out;
  audio_in = v.audio_in;
}

pub fill_node-IsValid :
    (f : Node → Node) (r : Option ℕ × DeviceTree) → Keeps f → IsValid r.1 → IsValid (fill_node f r)
fill_node-IsValid f (none, d) h v = v
fill_node-IsValid f (some i, d) h v = update-IsValid f h i d v

pub fill_node-primary :
    (f : Node → Node) (r : Option ℕ × DeviceTree)
    → let d = fill_node f r in
      (d.primary_lcd ≡ r.1.primary_lcd)
      × (d.primary_touch ≡ r.1.primary_touch)
      × (d.primary_audio_out ≡ r.1.primary_audio_out)
      × (d.primary_audio_in ≡ r.1.primary_audio_in)
fill_node-primary f (none, d) = (refl, refl, refl, refl)
fill_node-primary f (some i, d) = (refl, refl, refl, refl)
