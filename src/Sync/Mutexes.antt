-- ===== src/Sync/Mutexes.antt =====
-- Mutexes of kernel/scheduler.c, and their priority inheritance.
use nanos_os.Common.{
  ℕ, ◌<◌, ◌≡◌, refl, sym, subst, ◌∙◌, ◌≢◌, ◌⊎◌, inl, inr, true, false, arith, ◌==◌, List, [], ◌∷◌,
  All, Bool-cases, List-cases,
}
use nanos_os.Common.Maps.{update, update_self}
use nanos_os.Kernel.{Kernel, ok, err_perm, null}
use nanos_os.Sched.Ready.{Rep, Queued}
use nanos_os.Sched.Ring.{Ring}
use nanos_os.Sync.{Mutex, k_mutex_unlock, raise_owner}

-- A mutex is locked if and only if it has an owner.
abbrev pub IsOwned : Mutex → Type 0
IsOwned m = ((m.locked ≡ true) × (m.owner ≢ null)) ⊎ ((m.locked ≡ false) × (m.owner ≡ null))

-- Only the owner can unlock; anybody else gets K_ERR_PERM and changes nothing. An unlock by the owner
-- frees the mutex.
pub unlock_lem :
    (m : Mutex) (k : Kernel)
    → IsOwned m
    → k.current_task ≢ null
    → let (r, m', k') = k_mutex_unlock m k in
      IsOwned m'
      × (((m.owner ≡ k.current_task) × (r ≡ ok) × (m'.locked ≡ false))
          ⊎ ((m.owner ≢ k.current_task) × (r ≡ err_perm) × (m' ≡ m) × (k' ≡ k)))
unfolding k_mutex_unlock
unlock_lem m k v cn = elim (Bool-cases (m.owner == k.current_task)) [
  | inl e ↦ elim (Bool-cases (m.wait_head == null)) [
    | inl w ↦ rw (e, w) (inr (refl, refl), inl (ground arith, refl, refl))
    | inr w ↦ rw (e, w) (inr (refl, refl), inl (ground arith, refl, refl))
  ]
  | inr e ↦ rw e (v, inr (ground arith, refl, refl, refl))
]

-- Priority inheritance corrupts the run queues: if the owner of a mutex stands at the head of the run
-- queue of its priority and the current task has a higher priority, then the run queues represent no
-- lists of ready tasks once the owner is raised: its priority is no longer that of its queue.
boost_corrupts :
    (m : Mutex) (k : Kernel) (q : ℕ → List ℕ) (p : ℕ) (ts : List ℕ)
    → Rep k q
    → q p ≡ m.owner ∷ ts
    → p < k.priority k.current_task
    → (q' : ℕ → List ℕ) → ¬ Rep (raise_owner m k) q'
unfolding raise_owner
boost_corrupts m k q p ts r e hi q' r' = off_level q' r' (List-cases (q' p))
  where
    ring : Ring k.next k.prev (k.run_queue p) (m.owner ∷ ts)
    ring = subst (λ us. Ring k.next k.prev (k.run_queue p) us) e (r.rings p)

    own : All (Queued k p) (m.owner ∷ ts)
    own = subst (All (Queued k p)) e (r.members p)

    kb : Kernel
    kb = record k { priority = update k.priority m.owner (k.priority k.current_task) }

    off_level :
        (q' : ℕ → List ℕ)
        → Rep kb q'
        → (q' p ≡ []) ⊎ ((x : ℕ) × (xs : List ℕ) × (q' p ≡ x ∷ xs))
        → ⊥
    off_level q' r' (inl n) =
        own.0.0 (sym ring.0 ∙ subst (λ us. Ring k.next k.prev (k.run_queue p) us) n (r'.rings p))
    off_level q' r' (inr (x, xs, c)) =
        let w = subst (All (Queued kb p)) c (r'.members p) in
        let h = subst (λ us. Ring k.next k.prev (k.run_queue p) us) c (r'.rings p) in
        let same : m.owner ≡ x = sym ring.0 ∙ h.0 in
        let boosted = update_self k.priority m.owner (k.priority k.current_task) in
        let level : update k.priority m.owner (k.priority k.current_task) m.owner ≡ p =
          subst (λ z. update k.priority m.owner (k.priority k.current_task) z ≡ p) (sym same)
            w.0.1 in
        omega (arith, sym boosted ∙ level)
