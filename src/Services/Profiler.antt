-- ===== src/Services/Profiler.antt =====
-- services/services.c, the profiler: slots of cycle counts by tag.
-- The cycle counter is given by what it reads.
pub mod Report
use nanos_os.Common.{
  ℕ, zero, suc, ◌+◌, ◌-◌, ◌*◌, ◌/◌, ◌%◌, ◌≤◌, ◌<◌, ◌≡◌, ◌⊎◌, inl, inr, refl, Bool, true, false,
  List, [], ◌∷◌, Option, none, some, ltb, if◌then◌else◌, get_elem?, set, replicate, arith, All,
  All-map, Bool-cases, Option-cases, ◌==◌,
}
use nanos_os.Common.Strings.{str_eq}
use nanos_os.Kernel.{u32_mod, u64_mod}

-- `prof_slot_t`
pub record ProfSlot : Type 0 where
  pub tag : Option (List ℕ)
  pub total : ℕ
  pub call_count : ℕ
  pub min_cycles : ℕ
  pub max_cycles : ℕ
  pub t_start : ℕ
  pub active : Bool

-- `MAX_PROF_SLOTS`
abbrev pub max_prof_slots : ℕ
max_prof_slots = 24

abbrev pub empty_slot : ProfSlot
empty_slot = record {
  tag = none;
  total = 0;
  call_count = 0;
  min_cycles = u32_mod - 1;
  max_cycles = 0;
  t_start = 0;
  active = false;
}

-- `profiler_init`
abbrev pub profiler_init : List ProfSlot
profiler_init = replicate max_prof_slots empty_slot

abbrev pub or_else : Option ℕ → ℕ → Option ℕ
or_else none i = some i
or_else (some j) i = some j

-- The loop of `profiler_begin`: the slot of the tag, or else the first empty one
unfoldable pub find_slot : List ℕ → ℕ → Option ℕ → List ProfSlot → Option ℕ
find_slot tag i slot [] = slot
find_slot tag i slot (s ∷ ss) =
    let rest = find_slot tag (suc i) slot ss in
    let empty = find_slot tag (suc i) (or_else slot i) ss in
    elim s.tag [ none ↦ empty | some t ↦ if str_eq t tag then some i else rest ]

unfoldable pub begin_slot : List ℕ → ℕ → ProfSlot → ProfSlot
begin_slot tag now s = record s { tag = some tag; active = true; t_start = now }

unfoldable pub change_slot : (ProfSlot → ProfSlot) → ℕ → List ProfSlot → List ProfSlot
change_slot f i [] = []
change_slot f zero (s ∷ ss) = f s ∷ ss
change_slot f (suc i) (s ∷ ss) = s ∷ change_slot f i ss

-- `profiler_begin`: none is UINT32_MAX
unfoldable pub profiler_begin : List ℕ → ℕ → List ProfSlot → Option ℕ × List ProfSlot
profiler_begin tag now ss = elim (find_slot tag 0 none ss) [
  | none ↦ (none, ss)
  | some i ↦ (some i, change_slot (begin_slot tag now) i ss)
]

-- What `profiler_end` does with an active slot
unfoldable pub count_call : ℕ → ProfSlot → ProfSlot
count_call elapsed s = record s {
  total = (s.total + elapsed) % u64_mod;
  call_count = (s.call_count + 1) % u32_mod;
  min_cycles = if ltb elapsed s.min_cycles then elapsed else s.min_cycles;
  max_cycles = if ltb s.max_cycles elapsed then elapsed else s.max_cycles;
  active = false;
}

unfoldable pub end_slot : ℕ → ProfSlot → ProfSlot
end_slot now s = if s.active then count_call ((now + u32_mod - s.t_start) % u32_mod) s else s

-- `profiler_end`
unfoldable pub profiler_end : ℕ → ℕ → List ProfSlot → List ProfSlot
profiler_end handle now ss =
    if ltb handle max_prof_slots then change_slot (end_slot now) handle ss else ss

-- A line of `profiler_print_report`
pub record Line : Type 0 where
  pub calls : ℕ
  pub avg_us : ℕ
  pub min_us : ℕ
  pub max_us : ℕ

abbrev pub line : ProfSlot → Line
line s = record {
  calls = s.call_count;
  avg_us = s.total / s.call_count / 240 % u32_mod;
  min_us = s.min_cycles / 240;
  max_us = s.max_cycles / 240;
}

-- `profiler_print_report`: the lines it prints
unfoldable pub profiler_print_report : List ProfSlot → List Line
profiler_print_report [] = []
profiler_print_report (s ∷ ss) =
    let rest = profiler_print_report ss in
    elim s.tag [ none ↦ rest | some t ↦ if s.call_count == 0 then rest else line s ∷ rest ]
