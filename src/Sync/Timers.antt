-- ===== src/Sync/Timers.antt =====
-- Timers of kernel/scheduler.c: the timer list stays in the order of expiry.
use nanos_os.Common.{
  ℕ, ◌+◌, ◌%◌, ◌<◌, ◌≡◌, ◌≢◌, Bool, true, some, List, arith, length, leb, All-map, if◌then◌else◌,
}
use nanos_os.Common.Maps.{update, update_self, update_ne, Fresh, Distinct, All-Fresh}
use nanos_os.Common.Chain.{
  Chain, chain_insert_lem, insert_after, IsSorted, IsSorted-frame, insert_after-IsSorted,
  insert_after-Distinct,
}
use nanos_os.Kernel.{Kernel, null, u64_mod}
use nanos_os.Sync.{k_timer_start}

-- The timer list of `k` holds `ts`, by expiry.
pub record Timers (k : Kernel) (ts : List ℕ) : Type 0 where
  pub chain : Chain k.timer_next k.timer_list ts
  pub distinct : Distinct ts
  pub sorted : IsSorted k.expire_tick 0 ts

-- Starting a timer that is not in the timer list inserts it behind the timers that expire no later,
-- and makes it active with the given period (none for a timer that fires once). The list stays well
-- linked and in the order of expiry.
pub k_timer_start_lem :
    (fuel t ms : ℕ) (periodic : Bool) (k : Kernel) (ts : List ℕ)
    → Timers k ts
    → Fresh t ts
    → t ≢ null
    → length ts < fuel
    → let e = update k.expire_tick t ((k.tick_count + ms) % u64_mod) in
      (k' : Kernel) × (k_timer_start fuel t ms periodic k ≡ some k')
      × Timers k' (insert_after (λ x. leb (e x) (e t)) t ts)
      × (k'.active t ≡ true)
      × (k'.period_ticks t ≡ (if periodic then ms else 0))
unfolding k_timer_start
k_timer_start_lem fuel t ms periodic k ts v f tn l =
    let e = update k.expire_tick t ((k.tick_count + ms) % u64_mod) in
    let (h, nx, eq, ch, fr) =
      chain_insert_lem fuel (λ x. leb (e x) (e t)) k.timer_next k.timer_list t ts v.chain v.distinct
        f tn l in
    (
      record k {
        expire_tick = e;
        period_ticks = update k.period_ticks t (if periodic then ms else 0);
        active = update k.active t true;
        timer_list = h;
        timer_next = nx;
      },
      rw eq,
      record {
        chain = ch;
        distinct = insert_after-Distinct (λ x. leb (e x) (e t)) t ts v.distinct f;
        sorted = insert_after-IsSorted e t 0 ts (omega arith) (
            IsSorted-frame k.expire_tick e 0 ts
              (All-map _ _ ts (λ u tu. update_ne k.expire_tick t u _ tu) (All-Fresh t ts f))
              v.sorted);
      },
      update_self k.active t true,
      update_self k.period_ticks t (if periodic then ms else 0),
    )
