-- ===== src/Services/Profiler/Report.antt =====
-- The counts of the profiler in services/services.c stay in order.
use native.Mathlib.Nat.{mul-le-mul_right, le-div_iff_mul-le, div-le_of_le-mul}
use nanos_os.Common.{
  ℕ, zero, suc, ◌+◌, ◌-◌, ◌*◌, ◌/◌, ◌%◌, ◌≤◌, ◌<◌, ◌≡◌, ◌⊎◌, inl, inr, refl, Bool, true, false,
  List, [], ◌∷◌, none, ltb, if◌then◌else◌, arith, All, All-map, replicate, Bool-cases, Option-cases,
  ◌==◌,
}
use nanos_os.Kernel.{u32_mod, u64_mod}
use nanos_os.Services.Profiler.{
  ProfSlot, Line, line, max_prof_slots, profiler_init, empty_slot, find_slot, begin_slot,
  change_slot, profiler_begin, count_call, end_slot, profiler_end, profiler_print_report,
}

-- The total lies between the smallest and the largest count of a call, times the number of calls.
pub record IsSound (s : ProfSlot) : Type 0 where
  pub least : s.min_cycles * s.call_count ≤ s.total
  pub most : s.total ≤ s.max_cycles * s.call_count
  pub max_u32 : s.max_cycles < u32_mod
  pub count_u32 : s.call_count < u32_mod

count_bounds :
    (e mn mx lo hi n total : ℕ)
    → e < u32_mod
    → n + 1 < u32_mod
    → hi < u32_mod
    → lo ≤ mn
    → lo ≤ e
    → mx ≤ hi
    → e ≤ hi
    → mn * n ≤ total
    → total ≤ mx * n
    → (lo * ((n + 1) % u32_mod) ≤ (total + e) % u64_mod)
      × ((total + e) % u64_mod ≤ hi * ((n + 1) % u32_mod))
count_bounds e mn mx lo hi n total le ln lh a b c d f g =
    let m : (n + 1) % u32_mod ≡ n + 1 = omega arith in
    let cap : hi * n ≤ (u32_mod - 1) * n = mul-le-mul_right n (omega arith) in
    let down : lo * n ≤ mn * n = mul-le-mul_right n a in
    let up : mx * n ≤ hi * n = mul-le-mul_right n c in
    let k : (total + e) % u64_mod ≡ total + e = omega arith in rw (m, k) (omega arith, omega arith)

count_call-IsSound :
    (e : ℕ) (s : ProfSlot)
    → e < u32_mod
    → s.call_count + 1 < u32_mod
    → IsSound s
    → IsSound (count_call e s)
unfolding count_call
count_call-IsSound e s l m h =
    let lo = if ltb e s.min_cycles then e else s.min_cycles in
    let hi = if ltb s.max_cycles e then e else s.max_cycles in
    let top : hi < u32_mod = largest in
    let b =
      count_bounds e s.min_cycles s.max_cycles lo hi s.call_count s.total l m top (ground arith)
        (ground arith) (ground arith) (ground arith) h.least h.most in
    record { least = b.0; most = b.1; max_u32 = top; count_u32 = omega arith }
  where
    largest : (if ltb s.max_cycles e then e else s.max_cycles) < u32_mod
    largest = let k = h.max_u32 in ground arith

end_slot-IsSound :
    (now : ℕ) (s : ProfSlot) → s.call_count + 1 < u32_mod → IsSound s → IsSound (end_slot now s)
unfolding end_slot
end_slot-IsSound now s m h = either s.active
  where
    either :
        (b : Bool) → IsSound (if b then count_call ((now + u32_mod - s.t_start) % u32_mod) s else s)
    either true = count_call-IsSound _ s (omega arith) m h
    either false = h

change_slot-All :
    (P Q : ProfSlot → Type 0) (f : ProfSlot → ProfSlot) (i : ℕ) (ss : List ProfSlot)
    → ((s : ProfSlot) → P s → Q s)
    → ((s : ProfSlot) → P s → Q (f s))
    → All P ss
    → All Q (change_slot f i ss)
unfolding change_slot
change_slot-All P Q f i [] k h a = tt
change_slot-All P Q f zero (s ∷ ss) k h a = (h s a.0, All-map P Q ss k a.1)
change_slot-All P Q f (suc i) (s ∷ ss) k h a = (k s a.0, change_slot-All P Q f i ss k h a.1)

-- A slot in which not more than `n` calls are counted
abbrev Counts : ℕ → ProfSlot → Type 0
Counts n s = IsSound s × (s.call_count ≤ n)

begin_cases :
    (tag : List ℕ) (now : ℕ) (ss : List ProfSlot)
    → ((profiler_begin tag now ss).1 ≡ ss)
      ⊎ ((i : ℕ) × ((profiler_begin tag now ss).1 ≡ change_slot (begin_slot tag now) i ss))
unfolding profiler_begin
begin_cases tag now ss = elim (Option-cases (find_slot tag 0 none ss)) [
  | inl e ↦ inl (rw (profiler_begin, e) refl)
  | inr (i, e) ↦ inr (i, rw (profiler_begin, e) refl)
]

begin_slot-Counts :
    (n : ℕ) (tag : List ℕ) (now : ℕ) (s : ProfSlot) → Counts n s → Counts n (begin_slot tag now s)
unfolding begin_slot
begin_slot-Counts n tag now s h = (
  record { least = h.0.least; most = h.0.most; max_u32 = h.0.max_u32; count_u32 = h.0.count_u32 },
  h.1,
)

begin-Counts :
    (n : ℕ) (tag : List ℕ) (now : ℕ) (ss : List ProfSlot)
    → All (Counts n) ss
    → All (Counts n) (profiler_begin tag now ss).1
begin-Counts n tag now ss a = elim (begin_cases tag now ss) [
  | inl e ↦ rw e a
  | inr (i, e) ↦ rw e (
      change_slot-All (Counts n) (Counts n) (begin_slot tag now) i ss (λ s h. h)
        (begin_slot-Counts n tag now) a)
]

end_slot_count : (n now : ℕ) (s : ProfSlot) → s.call_count ≤ n → (end_slot now s).call_count ≤ n + 1
unfolding end_slot count_call
end_slot_count n now s l = either s.active
  where
    either :
        (b : Bool)
        → (if b then count_call ((now + u32_mod - s.t_start) % u32_mod) s else s).call_count ≤ n + 1
    either true = omega arith
    either false = omega arith

end-Counts :
    (n handle now : ℕ) (ss : List ProfSlot)
    → n + 1 < u32_mod
    → All (Counts n) ss
    → All (Counts (n + 1)) (profiler_end handle now ss)
unfolding profiler_end
end-Counts n handle now ss l a = elim (Bool-cases (ltb handle max_prof_slots)) [
  | inr e ↦ rw e (All-map (Counts n) (Counts (n + 1)) ss (λ s h. (h.0, omega (arith, h.1))) a)
  | inl e ↦ rw e (
      change_slot-All (Counts n) (Counts (n + 1)) (end_slot now) handle ss
        (λ s h. (h.0, omega (arith, h.1)))
        (λ s h. (end_slot-IsSound now s (omega (arith, h.1)) h.0, end_slot_count n now s h.1)) a)
]

-- The slots that `n` calls of `profiler_end`, and any calls of `profiler_begin` among them, lead to
-- from the start. There are fewer calls than a counter holds.
pub data Reached : ℕ → List ProfSlot → Type 0 where
  init : Reached 0 profiler_init
  began :
      (n : ℕ) (tag : List ℕ) (now : ℕ) (ss : List ProfSlot)
      → Reached n ss
      → Reached n (profiler_begin tag now ss).1
  ended :
      (n handle now : ℕ) (ss : List ProfSlot)
      → n + 1 < u32_mod
      → Reached n ss
      → Reached (n + 1) (profiler_end handle now ss)

Reached-Counts : (n : ℕ) (ss : List ProfSlot) → Reached n ss → All (Counts n) ss
Reached-Counts n ss init = start max_prof_slots
  where
    start : (k : ℕ) → All (Counts 0) (replicate k empty_slot)
    start zero = tt
    start (suc k) = (
      (
        record {
          least = omega arith;
          most = omega arith;
          max_u32 = omega arith;
          count_u32 = omega arith;
        },
        omega arith,
      ),
      start k,
    )
Reached-Counts n ss (began m tag now us r) = begin-Counts m tag now us (Reached-Counts m us r)
Reached-Counts n ss (ended m handle now us l r) =
    end-Counts m handle now us l (Reached-Counts m us r)

-- The times of a line of the report are in order.
abbrev pub InOrder : Line → Type 0
InOrder l = (l.min_us ≤ l.avg_us) × (l.avg_us ≤ l.max_us)

line-InOrder : (s : ProfSlot) → 0 < s.call_count → IsSound s → InOrder (line s)
line-InOrder s p h =
    let lo : s.min_cycles ≤ s.total / s.call_count = (le-div_iff_mul-le p).1 h.least in
    let hi : s.total / s.call_count ≤ s.max_cycles =
      div-le_of_le-mul s.call_count (omega (arith, h.most)) in
    let b = h.max_u32 in (omega arith, omega arith)

report-InOrder :
    (n : ℕ) (ss : List ProfSlot) → All (Counts n) ss → All InOrder (profiler_print_report ss)
unfolding profiler_print_report
report-InOrder n [] a = tt
report-InOrder n (s ∷ ss) a = elim (Option-cases s.tag) [
  | inl e ↦ rw e (report-InOrder n ss a.1)
  | inr (t, e) ↦ rw e (either (report-InOrder n ss a.1) (Bool-cases (s.call_count == 0)))
]
  where
    either :
        All InOrder (profiler_print_report ss)
        → ((s.call_count == 0) ≡ true) ⊎ ((s.call_count == 0) ≡ false)
        → All InOrder (
            if s.call_count == 0
            then profiler_print_report ss
            else line s ∷ profiler_print_report ss)
    either k (inl e) = rw e k
    either k (inr e) = rw e (line-InOrder s (ground arith) a.0.0, k)

-- After any calls of `profiler_begin` and fewer than 2^32 - 1 calls of `profiler_end` from the start, whatever
-- the tags, the handles and the cycle counter were, every line of the report has a mean time that lies
-- between its smallest and its largest time.
pub profiler_print_report-InOrder :
    (n : ℕ) (ss : List ProfSlot) → Reached n ss → All InOrder (profiler_print_report ss)
profiler_print_report-InOrder n ss r = report-InOrder n ss (Reached-Counts n ss r)
