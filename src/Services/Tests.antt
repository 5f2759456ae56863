-- ===== src/Services/Tests.antt =====
-- The services at work, and a case for each of the results.
use nanos_os.Common.{ℕ, zero, suc, ◌-◌, ◌≡◌, refl, true, List, [], ◌∷◌, some, arith, All}
use nanos_os.Common.Strings.{str_eq}
use nanos_os.Kernel.{u64_mod}
use nanos_os.Psram.{mm_psram_init, k_psram_alloc, needed, take_fit, remainder}
use nanos_os.Services.{Loop, event_loop_init, event_loop_post, post_all, event_loop_tick}
use nanos_os.Services.Deferred.{Called, event_loop_tick-post}
use nanos_os.Services.Profiler.{
  profiler_init, profiler_begin, profiler_end, profiler_print_report, change_slot, begin_slot,
  end_slot, count_call, find_slot,
}
use nanos_os.Services.Profiler.Report.{Reached, InOrder, profiler_print_report-InOrder}
use nanos_os.Services.Assets.{
  CacheSlot, no_slot, Assets, asset_manager_init, asset_find, find_cached, find_evict, release,
  fill_slot, load_miss, asset_load,
}
use nanos_os.Services.Assets.Cache.{IsVictim, find_evict_oldest}
use nanos_os.Services.Assets.Loads.{IsSound, HasBlock}
use nanos_os.Services.Assets.Loads.Again.{asset_load_again}

-- The function 3 posts the function 4 while it runs.
abbrev posts : ℕ → ℕ → List (ℕ × ℕ)
posts zero arg = []
posts (suc n) arg = (4, arg) ∷ []

abbrev idle : Loop
idle = record { slots = event_loop_init; calls = [] }

event_loop_tick-post_example :
    Called
      (3, 8)
      (event_loop_tick posts
        (record idle { slots = post_all ((0, 1) ∷ []) (event_loop_post 3 8 idle.slots) })).calls
event_loop_tick-post_example =
    event_loop_tick-post posts 3 8 ((0, 1) ∷ []) idle 5 _ (omega arith) refl refl

-- Two calls of one tag, of 50 and of 30 cycles; the counter wraps around in the second.
abbrev tag : List ℕ
tag = 0x67 ∷ 0x75 ∷ 0x69 ∷ []

profiler_print_report-InOrder_example : All InOrder (
    profiler_print_report (
      profiler_end 0 20
        (profiler_begin tag 0xFFFF_FFF6
          (profiler_end 0 150 (profiler_begin tag 100 profiler_init).1)).1))
profiler_print_report-InOrder_example = profiler_print_report-InOrder 2 _ (
    Reached.ended 1 0 20 _ (omega arith) (
      Reached.began 1 tag 0xFFFF_FFF6 _
        (Reached.ended 0 0 150 _ (omega arith) (Reached.began 0 tag 100 _ Reached.init))))

one_line :
    profiler_print_report (
      profiler_end 0 20
        (profiler_begin tag 0xFFFF_FFF6
          (profiler_end 0 150 (profiler_begin tag 100 profiler_init).1)).1)
    ≡ record { calls = 2; avg_us = 0; min_us = 0; max_us = 0 } ∷ []
unfolding profiler_print_report profiler_end profiler_begin change_slot begin_slot end_slot
    count_call find_slot str_eq
one_line = refl

abbrev slot_at : ℕ → CacheSlot
slot_at t = record { asset_idx = t; data_ptr = some t; size = 1; last_used = t; valid = true }

find_evict_oldest_example :
    IsVictim
      (slot_at 5 ∷ slot_at 3 ∷ slot_at 9 ∷ slot_at 4 ∷ [])
      (find_evict 0 0 (u64_mod - 1) (slot_at 5 ∷ slot_at 3 ∷ slot_at 9 ∷ slot_at 4 ∷ []))
find_evict_oldest_example =
    find_evict_oldest (slot_at 5 ∷ slot_at 3 ∷ slot_at 9 ∷ slot_at 4 ∷ []) (omega arith)
      (omega arith, (omega arith, (omega arith, (omega arith, tt))))

second_slot : find_evict 0 0 (u64_mod - 1) (slot_at 5 ∷ slot_at 3 ∷ slot_at 9 ∷ slot_at 4 ∷ []) ≡ 1
unfolding find_evict
second_slot = refl

abbrev logo : List ℕ
logo = 0x6C ∷ 0x6F ∷ []

abbrev assets : Assets
assets =
    asset_manager_init 0x4153_5354 1 (record { name = logo; offset = 512; size = 100 } ∷ [])
      (mm_psram_init (λ a. 0))

none_yet : HasBlock no_slot
none_yet = HasBlock.empty refl refl

assets-IsSound : IsSound assets.cache
unfolding asset_manager_init
assets-IsSound = record {
  four = refl;
  times = (omega arith, (omega arith, (omega arith, (omega arith, tt))));
  blocks = (none_yet, (none_yet, (none_yet, (none_yet, tt))));
}

first_load : (asset_load 7 logo assets).0 ≡ some (0x3C00_0008, 100)
unfolding asset_manager_init asset_load asset_find str_eq find_cached find_evict load_miss release
    fill_slot k_psram_alloc mm_psram_init needed take_fit remainder
first_load = refl

asset_load_again_example :
    ((asset_load 9 logo (asset_load 7 logo assets).1).0 ≡ some (0x3C00_0008, 100))
    × ((asset_load 9 logo (asset_load 7 logo assets).1).1.reads
        ≡ (asset_load 7 logo assets).1.reads)
    × ((asset_load 9 logo (asset_load 7 logo assets).1).1.mem ≡ (asset_load 7 logo assets).1.mem)
asset_load_again_example =
    asset_load_again 7 9 logo (0x3C00_0008, 100) assets (omega arith) assets-IsSound first_load
