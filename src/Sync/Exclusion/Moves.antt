-- ===== src/Sync/Exclusion/Moves.antt =====
-- The steps of `k_mutex_lock` of kernel/scheduler.c keep what holds of a mutex and its tasks.
use mathlib.Core.Option
use nanos_os.Common.{
  ℕ, ◌≡◌, ◌≢◌, ◌⊎◌, inl, inr, refl, ◌∙◌, subst, sym, Bool, true, false, Option, none, some, arith,
  ◌==◌, ltb, Bool-cases,
}
use nanos_os.Common.Maps.{update, update_self}
use nanos_os.Kernel.{Kernel, blocked, ok, err_busy, err_timeout, null, k_no_wait}
use nanos_os.Sched.{sched_yield_from_isr}
use nanos_os.Sync.{Mutex, raise_owner, expired}
use nanos_os.Sync.Locking.{
  Call, Place, outside, swapping, claimed, lost, comparing, raising, refusing, parking, yielding,
  finished, enter_waiters, lock_step, System, current, wins, moved,
}

-- Nobody is inside.
abbrev pub IsFree : System → Type 0
IsFree s = (s.mutex.locked ≡ false) × (s.mutex.owner ≡ null) × ((t : ℕ) → s.inside t ≡ false)

-- Task `t` alone is inside. It is the owner, or about to store itself as the owner.
pub record HeldBy (s : System) (t : ℕ) : Type 0 where
  pub task : t ≢ null
  pub locked : s.mutex.locked ≡ true
  pub within : s.inside t ≡ true
  pub alone : (u : ℕ) → s.inside u ≡ true → u ≡ t
  pub owner :
      ((s.place t ≡ claimed) × (s.mutex.owner ≡ null))
      ⊎ ((s.place t ≢ claimed) × (s.mutex.owner ≡ t))

pub record Inv (s : System) : Type 0 where
  pub held : IsFree s ⊎ ((t : ℕ) × HeldBy s t)
  pub claims : (t : ℕ) → s.place t ≡ claimed → s.inside t ≡ true
  pub done : (t : ℕ) → s.place t ≡ finished ok → s.inside t ≡ true

-- The current task goes from a place to a place, and neither wins nor stores the owner.
pub goes-Inv :
    (s : System) (m : Mutex) (k : Kernel) (p : Place)
    → Inv s
    → s.place (current s) ≢ claimed
    → p ≢ claimed
    → p ≢ finished ok
    → m.locked ≡ s.mutex.locked
    → m.owner ≡ s.mutex.owner
    → Inv
        (record { mutex = m; kernel = k; place = update s.place (current s) p; inside = s.inside })
goes-Inv s m k p v away fresh undone lk ow = record {
  held = elim (v.held) [
    | inl f ↦ inl (lk ∙ f.0, ow ∙ f.1, f.2)
    | inr (t, h) ↦ inr (
      t,
      record {
        task = h.task;
        locked = lk ∙ h.locked;
        within = h.within;
        alone = h.alone;
        owner = elim (Bool-cases (current s == t)) [
          | inl e ↦ elim (h.owner) [
            | inl (c, o) ↦ absurd (ground arith)
            | inr (c, o) ↦ inr (rw e fresh, ow ∙ o)
          ]
          | inr e ↦ rw e (ground arith)
        ];
      },
    )
  ];
  claims = λ t c. elim (Bool-cases (current s == t)) [
    | inl e ↦ absurd (fresh (rw e at c))
    | inr e ↦ v.claims t (rw e at c)
  ];
  done = λ t c. elim (Bool-cases (current s == t)) [
    | inl e ↦ absurd (undone (rw e at c))
    | inr e ↦ v.done t (rw e at c)
  ];
}

-- The compare-and-swap finds the mutex free: nobody was inside.
win-Inv :
    (s : System)
    → Inv s
    → current s ≢ null
    → s.mutex.locked ≡ false
    → Inv (moved (claimed, record s.mutex { locked = true }, s.kernel) s)
win-Inv s v cn lk = elim (v.held) [
  | inr (t, h) ↦ absurd (ground (arith, h.locked))
  | inl f ↦ record {
    held = inr (
      current s,
      record {
        task = cn;
        locked = refl;
        within = update_self s.inside (current s) true;
        alone = λ u e. ground (arith, f.2 u);
        owner = inl (update_self s.place (current s) claimed, f.1);
      },
    );
    claims = λ t e. ground (arith, v.claims t);
    done = λ t e. ground (arith, v.done t);
  }
]

-- The store of the owner, by the task that has won
own-Inv :
    (s : System)
    → Inv s
    → s.place (current s) ≡ claimed
    → Inv (moved (finished ok, record s.mutex { owner = current s }, s.kernel) s)
own-Inv s v p = elim (v.held) [
  | inl f ↦ absurd (ground (arith, f.2 (current s), v.claims (current s)))
  | inr (t, h) ↦
      let same : current s ≡ t = h.alone (current s) (v.claims (current s) p) in
      record {
        held = inr (
          t,
          record {
            task = h.task;
            locked = h.locked;
            within = h.within;
            alone = h.alone;
            owner = inr (ground arith, same);
          },
        );
        claims = λ u e. ground (arith, v.claims u);
        done = λ u e. ground (arith, v.done u, v.claims (current s) p);
      }
]

-- Whether a place is neither that of a task that has just won nor that of one that has just become owner
abbrev is_calm : Place → Bool
is_calm claimed = false
is_calm (finished ok) = false
is_calm _ = true

module _ (s : System) (v : Inv s) where
  -- A step from a calm place to a calm place that leaves the mutex but for its list of waiters
  calm-Inv :
      {p' : Place} (m : Mutex) (k : Kernel) (p : Place) (r : Place × Mutex × Kernel)
      → s.place (current s) ≡ p'
      → is_calm p' ≡ true
      → is_calm p ≡ true
      → wins p ≡ false
      → m.locked ≡ s.mutex.locked
      → m.owner ≡ s.mutex.owner
      → some (p, m, k) ≡ some r
      → Inv (moved r s)
  calm-Inv m k p r q c' c w lk ow e =
      subst (λ x. Inv (moved x s)) (Option.some_inj.0 e)
        (rw w (
          goes-Inv s m k p v (λ x. absurd (ground arith)) (λ x. absurd (ground arith))
            (λ x. absurd (ground arith)) lk ow))

  waits-Inv :
      (c : Call) (r : Place × Mutex × Kernel) (k : Kernel) (o : Option (ℕ × (ℕ → ℕ)))
      → s.place (current s) ≡ parking c
      → Option.map
          (λ (x : Mutex × Kernel). (yielding c, x.0, x.1))
          (Option.map
            (λ (x : ℕ × (ℕ → ℕ)). (record s.mutex { wait_head = x.0 }, record k { next = x.1 }))
            o)
        ≡ some r
      → Inv (moved r s)
  waits-Inv c r k none p e = absurd (cc)
  waits-Inv c r k (some x) p e =
      calm-Inv (record s.mutex { wait_head = x.0 }) (record k { next = x.1 }) (yielding c) r p refl
        refl refl refl refl e

  -- A step of a call on the mutex
  pub lock_step-Inv :
      (fuel addr : ℕ) (p : Place) (r : Place × Mutex × Kernel)
      → current s ≢ null
      → s.place (current s) ≡ p
      → lock_step fuel addr p s.mutex s.kernel ≡ some r
      → Inv (moved r s)
  unfolding lock_step enter_waiters
  lock_step-Inv fuel addr outside r cn p e = absurd (cc)
  lock_step-Inv fuel addr (finished x) r cn p e = absurd (cc)
  lock_step-Inv fuel addr (swapping c) r cn p e = elim (Bool-cases s.mutex.locked) [
    | inl lk ↦
        calm-Inv (record s.mutex { locked = true }) s.kernel (lost c) r p refl refl refl (sym lk)
          refl (rw (lk) at e)
    | inr lk ↦ subst (λ x. Inv (moved x s)) (Option.some_inj.0 (rw (lk) at e)) (win-Inv s v cn lk)
  ]
  lock_step-Inv fuel addr claimed r cn p e =
      subst (λ x. Inv (moved x s)) (Option.some_inj.0 e) (own-Inv s v p)
  lock_step-Inv fuel addr (lost c) r cn p e = elim (Bool-cases (s.mutex.owner == null)) [
    | inl b ↦ calm-Inv s.mutex s.kernel (refusing c) r p refl refl refl refl refl (rw b at e)
    | inr b ↦ calm-Inv s.mutex s.kernel (comparing c) r p refl refl refl refl refl (rw b at e)
  ]
  lock_step-Inv fuel addr (comparing c) r cn p e =
      elim (Bool-cases (ltb (s.kernel.priority s.mutex.owner) (s.kernel.priority (current s)))) [
        | inl b ↦ calm-Inv s.mutex s.kernel (raising c) r p refl refl refl refl refl (rw b at e)
        | inr b ↦ calm-Inv s.mutex s.kernel (refusing c) r p refl refl refl refl refl (rw b at e)
      ]
  lock_step-Inv fuel addr (raising c) r cn p e =
      calm-Inv s.mutex (raise_owner s.mutex s.kernel) (refusing c) r p refl refl refl refl refl e
  lock_step-Inv fuel addr (refusing c) r cn p e = elim (Bool-cases (c.tms == k_no_wait)) [
    | inl b ↦ calm-Inv s.mutex s.kernel (finished err_busy) r p refl refl refl refl refl (rw b at e)
    | inr b ↦ elim (Bool-cases (expired c.tms c.dl s.kernel)) [
      | inl d ↦
          calm-Inv s.mutex s.kernel (finished err_timeout) r p refl refl refl refl refl
            (rw (b, d) at e)
      | inr d ↦ calm-Inv s.mutex s.kernel (parking c) r p refl refl refl refl refl (rw (b, d) at e)
    ]
  ]
  lock_step-Inv fuel addr (parking c) r cn p e =
      let cur = current s in
      waits-Inv c r
        (record s.kernel {
          state = update s.kernel.state cur blocked;
          wait_obj = update s.kernel.wait_obj cur addr;
        })
        _ p e
  lock_step-Inv fuel addr (yielding c) r cn p e =
      calm-Inv s.mutex (sched_yield_from_isr s.kernel) (swapping c) r p refl refl refl refl refl e
