-- ===== src/AudioProbe/Tests.antt =====
-- The theorems on drivers/autodetect/audio_probe.c with one chip on the bus, at the address 0x1A.
use nanos_os.Common.{ℕ, ◌≡◌, refl, none, List, [], ◌∷◌, Option, some, ◌==◌, if◌then◌else◌}
use nanos_os.I2c.{Op, read, i2c_read_reg8}
use nanos_os.DevTree.{devtree_init, devtree_has, dev_audio_out, is_none}
use nanos_os.DevTree.Registry.{devtree_init-room, devtree_init-has}
use nanos_os.AudioProbe.{Audio, devtree_probe_audio, probe_codec}
use nanos_os.AudioProbe.Choice.{Choice, probe_codec-Choice, devtree_probe_audio-has}

abbrev reply : List Op → Option (List ℕ)
reply (read addr reg len ∷ tr) = if addr == 0x1A then some (0xAC ∷ 0x10 ∷ []) else none
reply _ = none

abbrev start : Audio
start = record { trace = []; tree = devtree_init; codec = none }

probe_codec-Choice_example : Choice 2 0x1A
unfolding probe_codec i2c_read_reg8
probe_codec-Choice_example = probe_codec-Choice reply [] 2 0x1A refl

devtree_probe_audio-has_example :
    devtree_has dev_audio_out (devtree_probe_audio reply start).tree
    ≡ is_none (probe_codec reply []).0
devtree_probe_audio-has_example =
    devtree_probe_audio-has reply start devtree_init-room (devtree_init-has dev_audio_out)
