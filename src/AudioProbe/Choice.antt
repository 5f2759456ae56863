-- ===== src/AudioProbe/Choice.antt =====
-- Which codec drivers/autodetect/audio_probe.c chooses, and what the registry then finds.
use nanos_os.Common.{
  ℕ, ◌≡◌, refl, subst, ◌∙◌, ◌<◌, Bool, true, false, Option, none, some, List, [], ◌∷◌,
  if◌then◌else◌, Option-cases, inl, inr, length, get_elem?, All,
}
use nanos_os.I2c.{Op, read, bytes, i2c_read_reg8}
use nanos_os.DevTree.{DeviceTree, devtree_has, dev_audio_out, max_device_nodes, is_none}
use nanos_os.DevTree.Registry.{devtree_register-has, audio_both_lost}
use nanos_os.DevTree.Update.{Keeps, fill_node-has}
use nanos_os.AudioProbe.{
  Codec, s_codecs, Audio, or_zeros, read_id, id_match, identify, probe_addrs, probe_codec,
  devtree_probe_audio, or_pcm5102a, register_new, register_codec, set_caps, audio_driver,
}

-- An entry of the table that a chip at an address can be taken for.
pub data Choice : ℕ → ℕ → Type 0 where
  es8388 : Choice 0 0x10
  es8388_alt : Choice 0 0x11
  es8374 : Choice 1 0x10
  tlv320 : Choice 5 0x18
  tlv320_alt : Choice 5 0x19
  wm8978 : Choice 2 0x1A

some_inj : {a b : ℕ} → some a ≡ some b → a ≡ b
some_inj h = cc

module _ (reply : List Op → Option (List ℕ)) where
  -- What the address stands for, whatever the chip there answers.
  Meant : ℕ → Type 0
  Meant a = (tr : List Op) (i : ℕ) → (identify reply a 0 s_codecs tr).0 ≡ some i → Choice i a

  pick_one :
      {j i : ℕ} (b : Bool) (x y : List Op)
      → (if◌then◌else◌ {A = Option ℕ × List Op} b (some j, x) (none, y)).0 ≡ some i
      → j ≡ i
  pick_one true x y e = some_inj e
  pick_one false x y e = cc

  pick_first :
      {i : ℕ} (b c : Bool) (x y z : List Op)
      → (if◌then◌else◌ {A = Option ℕ × List Op} b
          (some 0, x)
          (if c then (some 1, y) else (none, z))).0
        ≡ some i
      → Choice i 0x10
  pick_first true c x y z e = subst (λ i. Choice i 0x10) (some_inj e) es8388
  pick_first false true x y z e = subst (λ i. Choice i 0x10) (some_inj e) es8374
  pick_first false false x y z e = cc

  Meant-10 : Meant 0x10
  unfolding Meant identify read_id id_match i2c_read_reg8
  Meant-10 tr i e = pick_first _ _ _ _ _ e

  Meant-11 : Meant 0x11
  unfolding Meant identify read_id id_match i2c_read_reg8
  Meant-11 tr i e = subst (λ i. Choice i 0x11) (pick_one _ _ _ e) es8388_alt

  -- The mask of the TLV320 is 0: any answer is its ID, and none too.
  masked :
      (r : Option (List ℕ))
      → id_match
          (or_zeros 1
            (elim r as (λ x. Option (List ℕ)) [ none ↦ none | some bs ↦ some (bytes 1 bs) ]))
          (0 ∷ [])
          (0 ∷ [])
        ≡ true
  unfolding id_match
  masked none = refl
  masked (some bs) = refl

  Meant-18 : Meant 0x18
  unfolding Meant identify read_id id_match i2c_read_reg8
  Meant-18 tr i e =
      subst (λ i. Choice i 0x18) (some_inj (rw (masked (reply (read 0x18 0 1 ∷ tr))) at e)) tlv320

  Meant-19 : Meant 0x19
  unfolding Meant identify read_id id_match i2c_read_reg8
  Meant-19 tr i e =
      subst (λ i. Choice i 0x19) (some_inj (rw (masked (reply (read 0x19 0 1 ∷ tr))) at e))
        tlv320_alt

  Meant-1a : Meant 0x1A
  unfolding Meant identify read_id id_match i2c_read_reg8
  Meant-1a tr i e = subst (λ i. Choice i 0x1A) (some_inj e) wm8978

  probe_addrs-Choice :
      (as' : List ℕ) (tr : List Op) (i a : ℕ)
      → All Meant as'
      → (probe_addrs reply as' tr).0 ≡ some (i, a)
      → Choice i a
  unfolding probe_addrs Meant
  probe_addrs-Choice [] tr i a h e = cc
  probe_addrs-Choice (b ∷ bs) tr i a h e = elim (Option-cases (i2c_read_reg8 reply b 0x00 1 tr).0) [
    | inl n ↦ probe_addrs-Choice bs (i2c_read_reg8 reply b 0x00 1 tr).1 i a h.1 (rw (n) at e)
    | inr (x, n) ↦
        let tr1 = (i2c_read_reg8 reply b 0x00 1 tr).1 in
        elim (Option-cases (identify reply b 0 s_codecs tr1).0) [
          | inl m ↦
              probe_addrs-Choice bs (identify reply b 0 s_codecs tr1).1 i a h.1 (rw (n, m) at e)
          | inr (j, m) ↦
              let p : ◌≡◌ {A = Option (ℕ × ℕ)} (some (j, b)) (some (i, a)) = rw (n, m) at e in
              subst2 p (h.0 tr1 j m)
        ]
  ]
    where
      subst2 :
          {j c : ℕ} → ◌≡◌ {A = Option (ℕ × ℕ)} (some (j, c)) (some (i, a)) → Choice j c → Choice i a
      subst2 p c =
          subst
            (λ (o : Option (ℕ × ℕ)). elim o as (λ x. Type 0) [
              | none ↦ Unit
              | some x ↦ Choice x.0 x.1
            ])
            p c

  -- Whatever the bus answers, the codec that the probe settles on is the ES8388, the ES8374, the
  -- TLV320 or the WM8978, at an address of its own: the table's entries for the WM8960, the AC101 and
  -- the UDA1380 are never chosen, since another entry takes every chip at their addresses first.
  pub probe_codec-Choice :
      (tr : List Op) (i a : ℕ) → (probe_codec reply tr).0 ≡ some (i, a) → Choice i a
  unfolding probe_codec
  probe_codec-Choice tr i a e =
      probe_addrs-Choice (0x10 ∷ 0x11 ∷ 0x18 ∷ 0x19 ∷ 0x1A ∷ []) tr i a
        (Meant-10, (Meant-11, (Meant-18, (Meant-19, (Meant-1a, tt))))) e

devtree_probe_audio-tree :
    (reply : List Op → Option (List ℕ)) (s : Audio) (c : Codec)
    → let (i, a) = or_pcm5102a (probe_codec reply s.trace).0 in
      get_elem? s_codecs i ≡ some c → (devtree_probe_audio reply s).tree ≡ register_codec c a s.tree
unfolding devtree_probe_audio
devtree_probe_audio-tree reply s c e = rw (devtree_probe_audio, e) refl

Keeps-caps : (c : Codec) → Keeps (set_caps c)
Keeps-caps c = record { category = λ n. refl; online = λ n. refl }

both-has :
    (c : Codec) (a : ℕ) (d : DeviceTree)
    → c.has_adc ≡ true
    → devtree_has dev_audio_out (register_codec c a d) ≡ devtree_has dev_audio_out d
unfolding register_codec
both-has c a d h =
    fill_node-has (set_caps c) dev_audio_out (register_new c a d) (Keeps-caps c)
    ∙ rw (h) (audio_both_lost c.name _ 0 a audio_driver d).2

out-has :
    (c : Codec) (a : ℕ) (d : DeviceTree)
    → c.has_adc ≡ false
    → length d.nodes < max_device_nodes
    → devtree_has dev_audio_out (register_codec c a d) ≡ true
unfolding register_codec
out-has c a d h room =
    fill_node-has (set_caps c) dev_audio_out (register_new c a d) (Keeps-caps c)
    ∙ rw (h) (devtree_register-has c.name dev_audio_out _ 0 a audio_driver d room)

pcm5102a-has_adc : (c : Codec) × (get_elem? s_codecs 7 ≡ some c) × (c.has_adc ≡ false)
pcm5102a-has_adc = (_, refl, refl)

Choice-has_adc :
    (i a : ℕ) → Choice i a → (c : Codec) × (get_elem? s_codecs i ≡ some c) × (c.has_adc ≡ true)
Choice-has_adc i a es8388 = (_, refl, refl)
Choice-has_adc i a es8388_alt = (_, refl, refl)
Choice-has_adc i a es8374 = (_, refl, refl)
Choice-has_adc i a tlv320 = (_, refl, refl)
Choice-has_adc i a tlv320_alt = (_, refl, refl)
Choice-has_adc i a wm8978 = (_, refl, refl)

-- The search for an audio output after the probe, in a registry with room and with none before: it
-- finds one exactly if no codec on the I2C bus was found. A codec that was found has an ADC, and its
-- node is of no one category.
pub devtree_probe_audio-has :
    (reply : List Op → Option (List ℕ)) (s : Audio)
    → length s.tree.nodes < max_device_nodes
    → devtree_has dev_audio_out s.tree ≡ false
    → devtree_has dev_audio_out (devtree_probe_audio reply s).tree
      ≡ is_none (probe_codec reply s.trace).0
devtree_probe_audio-has reply s room h = elim (Option-cases (probe_codec reply s.trace).0) [
  | inl e ↦
      let (c, g, adc) = pcm5102a-has_adc in
      rw (devtree_probe_audio-tree reply s c (rw (e) g), e) (out-has c 0 s.tree adc room)
  | inr ((i, a), e) ↦
      let (c, g, adc) = Choice-has_adc i a (probe_codec-Choice reply s.trace i a e) in
      rw (devtree_probe_audio-tree reply s c (rw (e) g), e) (both-has c a s.tree adc ∙ h)
]
