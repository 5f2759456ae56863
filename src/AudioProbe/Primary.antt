-- ===== src/AudioProbe/Primary.antt =====
-- What the audio probe of drivers/autodetect/audio_probe.c keeps of the registry.
use nanos_os.Common.{
  ℕ, ◌≡◌, refl, ◌∙◌, inl, inr, false, Option, List, ◌==◌, Bool-cases, Option-cases, get_elem?,
}
use nanos_os.I2c.{Op}
use nanos_os.DevTree.{DeviceTree, BusType, devtree_register, fill_node}
use nanos_os.DevTree.Registry.{IsValid, devtree_register-IsValid, devtree_register-primary}
use nanos_os.DevTree.Update.{Keeps, fill_node-IsValid, fill_node-primary}
use nanos_os.AudioProbe.{
  Codec, s_codecs, Audio, probe_codec, devtree_probe_audio, or_pcm5102a, register_new,
  register_codec, set_caps, audio_driver,
}

-- The registry is valid, and its display and its touch controller are as before.
pub record Kept (d d' : DeviceTree) : Type 0 where
  pub valid : IsValid d'
  pub lcd : d'.primary_lcd ≡ d.primary_lcd
  pub touch : d'.primary_touch ≡ d.primary_touch

Kept-refl : (d : DeviceTree) → IsValid d → Kept d d
Kept-refl d v = record { valid = v; lcd = refl; touch = refl }

Keeps-caps : (c : Codec) → Keeps (set_caps c)
Keeps-caps c = record { category = λ n. refl; online = λ n. refl }

category_Kept :
    (c : Codec) (cat : ℕ) (bus : BusType) (a : ℕ) (d : DeviceTree)
    → (cat == 1) ≡ false
    → (cat == 2) ≡ false
    → IsValid d
    → Kept d (fill_node (set_caps c) (devtree_register c.name cat bus 0 a audio_driver d))
category_Kept c cat bus a d nl nt v =
    let r = devtree_register c.name cat bus 0 a audio_driver d in
    let p = devtree_register-primary c.name cat bus 0 a audio_driver d in
    let q = fill_node-primary (set_caps c) r in
    record {
      valid =
          fill_node-IsValid (set_caps c) r (Keeps-caps c)
            (devtree_register-IsValid c.name cat bus 0 a audio_driver d v);
      lcd = q.0 ∙ p.0 nl;
      touch = q.1 ∙ p.1 nt;
    }

register_codec-Kept :
    (c : Codec) (a : ℕ) (d : DeviceTree) → IsValid d → Kept d (register_codec c a d)
unfolding register_codec register_new
register_codec-Kept c a d v = elim (Bool-cases c.has_adc) [
  | inl e ↦ category_Kept c _ _ a d (rw e refl) (rw e refl) v
  | inr e ↦ category_Kept c _ _ a d (rw e refl) (rw e refl) v
]

-- The audio probe keeps the registry valid, with the primary display and touch controller it has.
pub devtree_probe_audio-Kept :
    (reply : List Op → Option (List ℕ)) (s : Audio)
    → IsValid s.tree
    → Kept s.tree (devtree_probe_audio reply s).tree
unfolding devtree_probe_audio
devtree_probe_audio-Kept reply s v =
    let x = or_pcm5102a (probe_codec reply s.trace).0 in
    elim (Option-cases (get_elem? s_codecs x.0)) [
      | inl e ↦ rw (devtree_probe_audio, e) (Kept-refl s.tree v)
      | inr (c, e) ↦ rw (devtree_probe_audio, e) (register_codec-Kept c x.1 s.tree v)
    ]
