-- ===== src/Sync/Exclusion.antt =====
-- What holds of a mutex of kernel/scheduler.c between any two steps of the tasks that use it.
pub mod Moves
use mathlib.Core.Option
use nanos_os.Common.{
  ℕ, ◌≡◌, ◌≢◌, ◌⊎◌, inl, inr, refl, ◌∙◌, subst, sym, Bool, true, false, Option, none, some, arith,
  ◌==◌, ltb, Bool-cases,
}
use nanos_os.Common.Maps.{update, update_self}
use nanos_os.Kernel.{Kernel, Err, blocked, ok, err_busy, err_timeout, null, k_no_wait}
use nanos_os.Sched.{sched_yield_from_isr}
use nanos_os.Sync.{Mutex, k_mutex_init, k_mutex_unlock, raise_owner, expired}
use nanos_os.Sync.Locking.{
  Call, Place, outside, swapping, claimed, lost, comparing, raising, refusing, parking, yielding,
  finished, may_call, enter_waiters, lock_step, System, current, wins, called, moved, unlocked,
  Step, call, move, unlock, other, start, Reached, init, later,
}
use nanos_os.Sync.Exclusion.Moves.{IsFree, HeldBy, Inv, goes-Inv, lock_step-Inv}

unlock_mine :
    (m : Mutex) (k : Kernel)
    → (m.owner == k.current_task) ≡ true
    → let m' = (k_mutex_unlock m k).1 in (m'.locked ≡ false) × (m'.owner ≡ null)
unfolding k_mutex_unlock
unlock_mine m k e = elim (Bool-cases (m.wait_head == null)) [
  | inl w ↦ rw (e, w) (refl, refl)
  | inr w ↦ rw (e, w) (refl, refl)
]

unlock_refused :
    (m : Mutex) (k : Kernel) → (m.owner == k.current_task) ≡ false → (k_mutex_unlock m k).1 ≡ m
unfolding k_mutex_unlock
unlock_refused m k e = rw e refl

-- A step that leaves the mutex, the places and who is inside
same-Inv :
    (s : System) (m : Mutex) (k : Kernel)
    → m ≡ s.mutex
    → Inv s
    → Inv (record { mutex = m; kernel = k; place = s.place; inside = s.inside })
same-Inv s m k e v = record {
  held = elim (v.held) [
    | inl f ↦ inl (rw e f)
    | inr (t, h) ↦ inr (
      t,
      record {
        task = h.task;
        locked = rw e (h.locked);
        within = h.within;
        alone = h.alone;
        owner = rw e (h.owner);
      },
    )
  ];
  claims = v.claims;
  done = v.done;
}

-- An owner is alone inside.
owner_alone :
    (s : System) → Inv s → s.mutex.owner ≢ null → (t : ℕ) → s.inside t ≡ true → s.mutex.owner ≡ t
owner_alone s v on t i = elim (v.held) [
  | inl f ↦ absurd (on f.1)
  | inr (u, h) ↦ elim (h.owner) [ inl o ↦ absurd (on o.1) | inr o ↦ o.1 ∙ sym (h.alone t i) ]
]

-- An unlock by the owner leaves nobody inside; any other changes nothing.
unlocked-Inv : (s : System) → Inv s → current s ≢ null → Inv (unlocked s)
unlocked-Inv s v cn = elim (Bool-cases (s.mutex.owner == current s)) [
  | inr e ↦ rw e (same-Inv s _ _ (unlock_refused s.mutex s.kernel e) v)
  | inl e ↦
      let q = unlock_mine s.mutex s.kernel e in
      let out : (t : ℕ) → update s.inside (current s) false t ≡ false =
        λ t. ground (arith, owner_alone s v (ground arith) t) in
      rw e (record {
        held = inl (q.0, q.1, out);
        claims = λ t c. ground (arith, v.claims t, owner_alone s v (ground arith) t);
        done = λ t c. ground (arith, v.done t, owner_alone s v (ground arith) t);
      })
]

called-Inv :
    (s : System) (tms : ℕ) → Inv s → may_call (s.place (current s)) ≡ true → Inv (called tms s)
called-Inv s tms v c =
    goes-Inv s s.mutex s.kernel _ v (λ p. absurd (ground arith)) (λ p. absurd (cc))
      (λ p. absurd (cc)) refl refl

Step-Inv : {addr : ℕ} {s s' : System} → Step addr s s' → Inv s → Inv s'
Step-Inv {s} (call tms cn c) v = called-Inv s tms v c
Step-Inv {addr} {s} (move fuel r cn e) v = lock_step-Inv s v fuel addr _ r cn refl e
Step-Inv {s} (unlock cn c) v = unlocked-Inv s v cn
Step-Inv {s} (other k) v = same-Inv s s.mutex k refl v

Reached-Inv : {addr : ℕ} {s : System} → Reached addr s → Inv s
Reached-Inv (init k) =
    unfold k_mutex_init in
    record {
      held = inl (refl, refl, λ t. refl);
      claims = λ t e. absurd (cc);
      done = λ t e. absurd (cc);
    }
Reached-Inv (later r st) = Step-Inv st (Reached-Inv r)

-- However the steps of the tasks on a mutex interleave, with each other and with any other code, the
-- mutex is free, has no owner and nobody is inside, or exactly one task is inside: the mutex is locked,
-- and that task is its owner or about to store itself as its owner, where there is none yet.
pub Reached-Held : {addr : ℕ} {s : System} → Reached addr s → IsFree s ⊎ ((t : ℕ) × HeldBy s t)
Reached-Held r = (Reached-Inv r).held

-- Mutual exclusion: in every system that the steps of the tasks reach, a task whose last call of
-- `k_mutex_lock` has returned K_OK, and which has not unlocked the mutex since, is the owner of the
-- locked mutex, and no other task has won the compare-and-swap and not unlocked since.
pub mutual_exclusion :
    {addr : ℕ} {s : System} (t u : ℕ)
    → Reached addr s
    → s.place t ≡ finished ok
    → s.inside u ≡ true
    → (s.mutex.locked ≡ true) × (s.mutex.owner ≡ t) × (u ≡ t)
mutual_exclusion {s} t u r p i =
    let v = Reached-Inv r in
    let n = v.done t p in
    elim (v.held) [
      | inl f ↦ absurd (ground (arith, f.2 t))
      | inr (w, h) ↦
          let here : t ≡ w = h.alone t n in
          elim (h.owner) [
            | inl o ↦ absurd (ground arith)
            | inr o ↦ (h.locked, o.1 ∙ sym here, h.alone u i ∙ sym here)
          ]
    ]
