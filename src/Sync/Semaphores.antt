-- ===== src/Sync/Semaphores.antt =====
-- Semaphores of kernel/scheduler.c.
use mathlib.Core.Option
use nanos_os.Common.{
  ℕ, ◌+◌, ◌≤◌, ◌<◌, ◌≡◌, refl, ◌≢◌, ◌⊎◌, inl, inr, Option, none, some, arith, ◌==◌, ltb, Bool-cases,
}
use nanos_os.Kernel.{Kernel, ok, null, k_no_wait}
use nanos_os.Sync.{Sem, Pass, returned, parked, k_sem_init, take_pass, k_sem_give, expired}

-- No task waits while there is something to take, and the count is in range.
pub record IsValid (s : Sem) : Type 0 where
  pub bounded : s.count ≤ s.max_count
  pub idle : (s.count ≡ 0) ⊎ (s.wait_head ≡ null)

pub k_sem_init-IsValid : (init max : ℕ) → init ≤ max → IsValid (k_sem_init init max)
unfolding k_sem_init
k_sem_init-IsValid init max h = record { bounded = h; idle = inr refl }

park_kept :
    (s s' : Sem) (k' : Kernel) (r : Pass) (o : Option (ℕ × Kernel))
    → Option.map {B = Pass × Sem × Kernel} (λ w. (parked, record s { wait_head = w.0 }, w.1)) o
      ≡ some (r, s', k')
    → (r ≡ parked) × (s'.count ≡ s.count) × (s'.max_count ≡ s.max_count)
park_kept s s' k' r none e = cc
park_kept s s' k' r (some w) e = ground arith

-- A pass of `k_sem_take` on a valid semaphore returns K_OK if and only if the count is above 0, and
-- then takes one; otherwise the count stays 0. The semaphore stays valid.
pub take_pass_lem :
    (fuel tms dl : ℕ) (s s' : Sem) (k k' : Kernel) (r : Pass)
    → IsValid s
    → take_pass fuel tms dl s k ≡ some (r, s', k')
    → IsValid s'
      × (((0 < s.count) × (r ≡ returned ok) × (s'.count + 1 ≡ s.count))
          ⊎ ((s.count ≡ 0) × (r ≢ returned ok) × (s'.count ≡ 0)))
unfolding take_pass
take_pass_lem fuel tms dl s s' k k' r v e = elim (Bool-cases (ltb 0 s.count)) [
  | inl c ↦ ground arith
  | inr c ↦ elim (Bool-cases (tms == k_no_wait)) [
    | inl z ↦ ground arith
    | inr z ↦ elim (Bool-cases (expired tms dl k)) [
      | inl x ↦ ground arith
      | inr x ↦
          let w = park_kept s s' k' r _ (rw (c, z, x) at e) in
          (
            record { bounded = ground arith; idle = inl (ground arith) },
            inr (ground arith, λ h. ground arith, ground arith),
          )
    ]
  ]
]

-- `k_sem_give` on a valid semaphore keeps it valid. The count rises by one exactly when no task
-- waits and it is below the maximum, and is unchanged otherwise.
pub k_sem_give_lem :
    (s : Sem) (k : Kernel)
    → IsValid s
    → let s' = (k_sem_give s k).0 in
      IsValid s'
      × (((s.wait_head ≡ null) × (s.count < s.max_count) × (s'.count ≡ s.count + 1))
          ⊎ (((s.wait_head ≢ null) ⊎ (s.max_count ≤ s.count)) × (s'.count ≡ s.count)))
unfolding k_sem_give
k_sem_give_lem s k v = ground arith

-- The woken task gains nothing: if a task waits for a valid semaphore, then after a `k_sem_give` the
-- count is 0, so in whatever state of the kernel the woken task makes its next pass, `k_sem_take`
-- does not return K_OK.
pub give-take_fails :
    (fuel tms dl : ℕ) (s s' : Sem) (k k1 k' : Kernel) (r : Pass)
    → IsValid s
    → s.wait_head ≢ null
    → take_pass fuel tms dl (k_sem_give s k).0 k1 ≡ some (r, s', k')
    → r ≢ returned ok
give-take_fails fuel tms dl s s' k k1 k' r v w e h = ground (
  arith,
  k_sem_give_lem s k v,
  take_pass_lem fuel tms dl (k_sem_give s k).0 s' k1 k' r (k_sem_give_lem s k v).0 e,
)
