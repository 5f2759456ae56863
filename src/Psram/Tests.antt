-- ===== src/Psram/Tests.antt =====
-- The theorems on the allocator of mm/allocator.c, at small states.
use nanos_os.Common.{◌+◌, ◌%◌, ◌≡◌, refl, some, List, [], ◌∷◌, All, arith}
use nanos_os.Kernel.{u32_mod}
use nanos_os.Psram.{
  Blk, Psram, mm_psram_init, k_psram_alloc, k_psram_free, needed, take_fit, remainder, psram_base,
}
use nanos_os.Psram.Disjoint.{Apart, Separate, Inside}
use nanos_os.Psram.Use.{Reached, init, allocated, freed, total, Reached-Separate}

abbrev start : Psram
start = mm_psram_init (λ a. 0)

-- 100 bytes take 128 with their header.
abbrev block_100 : Blk
block_100 = record { addr = psram_base; sz = needed 100 }

first_alloc : (k_psram_alloc 100 start).0 ≡ some (psram_base + 8)
unfolding k_psram_alloc mm_psram_init take_fit needed remainder
first_alloc = refl

second_alloc : (k_psram_alloc 200 (k_psram_alloc 100 start).1).0 ≡ some (psram_base + 128 + 8)
unfolding k_psram_alloc mm_psram_init take_fit needed remainder
second_alloc = refl

abbrev block_200 : Blk
block_200 = record { addr = psram_base + 128; sz = needed 200 }

abbrev two_blocks : List Blk
two_blocks = block_200 ∷ block_100 ∷ []

after_two : Reached (k_psram_alloc 200 (k_psram_alloc 100 start).1).1 two_blocks
after_two =
    allocated 200 (psram_base + 128) _ _ (omega arith) second_alloc
      (allocated 100 psram_base start [] (omega arith) first_alloc (init (λ a. 0)))

Reached-Separate_example :
    let p = k_psram_free (psram_base + 8) (k_psram_alloc 200 (k_psram_alloc 100 start).1).1 in
    Separate (block_200 ∷ [])
    × All Inside (block_200 ∷ [])
    × All (λ b. All (Apart b) p.free) (block_200 ∷ [])
    × (p.used ≡ total (block_200 ∷ []) % u32_mod)
Reached-Separate_example =
    Reached-Separate
      (k_psram_free (psram_base + 8) (k_psram_alloc 200 (k_psram_alloc 100 start).1).1)
      (block_200 ∷ []) (freed _ (block_200 ∷ []) [] block_100 after_two)
