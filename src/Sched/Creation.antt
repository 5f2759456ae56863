-- ===== src/Sched/Creation.antt =====
-- `task_create` of kernel/scheduler.c: the new task and its first stack frame.
use nanos_os.Common.{
  ℕ, ◌+◌, ◌%◌, ◌≤◌, ◌<◌, ◌≡◌, ◌≢◌, refl, subst, ◌∙◌, List, [], ◌∷◌, arith, All, ◌==◌, ◌||◌, ltb,
  leb, Bool-cases, inl, inr, ◌⊎◌,
}
use nanos_os.Common.Maps.{update, update_self, update_ne, Fresh}
use nanos_os.Kernel.{Kernel, ok, err_inval, ready, null, u32_mod, max_priority_levels}
use nanos_os.Sched.{rq_enqueue, initial_sp, new_task, task_create}
use nanos_os.Sched.Yield.{current-rq_enqueue}
use nanos_os.Sched.Ready.{Queued, Rep, IsOff, enqueue, enqueue-Rep}
use nanos_os.Sched.Ring.{Ring-next_update, Ring-prev_update}

-- A write to the TCB of a task off the queues.
All-Queued_write :
    (k k' : Kernel) (t p v : ℕ) (ts : List ℕ)
    → k'.priority ≡ update k.priority t v
    → k'.state ≡ update k.state t ready
    → Fresh t ts
    → All (Queued k p) ts
    → All (Queued k' p) ts
All-Queued_write k k' t p v [] ep es f h = tt
All-Queued_write k k' t p v (x ∷ xs) ep es f h = (
  (
    h.0.0,
    rw (ep) (update_ne k.priority t x v f.0 ∙ h.0.1),
    rw (es) (update_ne k.state t x ready f.0 ∙ h.0.2),
  ),
  All-Queued_write k k' t p v xs ep es f.1 h.1,
)

Rep-write :
    (k k' : Kernel) (q : ℕ → List ℕ) (t v : ℕ)
    → Rep k q
    → IsOff t q
    → k'.next ≡ update k.next t null
    → k'.prev ≡ update k.prev t null
    → k'.run_queue ≡ k.run_queue
    → k'.prio_bitmap ≡ k.prio_bitmap
    → k'.priority ≡ update k.priority t v
    → k'.state ≡ update k.state t ready
    → Rep k' q
Rep-write k k' q t v r off en ev er eb ep es = record {
  rings = λ p.
      rw (en, ev, er)
        (Ring-prev_update (update k.next t null) k.prev (k.run_queue p) (q p) t null
          (Ring-next_update k.next k.prev (k.run_queue p) (q p) t null (r.rings p) (off p))
          (off p));
  bits = λ p. rw (eb) (r.bits p);
  members = λ p. All-Queued_write k k' t p v (q p) ep es (off p) (r.members p);
  levels = r.levels;
}

-- The frame of a task lies in its stack and is aligned to 16 bytes, for a stack of at least 512 bytes
-- that lies in the address space.
pub initial_sp_lem :
    (stack sz : ℕ)
    → 512 ≤ sz
    → stack + sz < u32_mod
    → let sp = initial_sp stack sz in (stack ≤ sp) × (sp + 32 ≤ stack + sz) × (sp % 16 ≡ 0)
unfolding initial_sp
initial_sp_lem stack sz s h = (omega arith, omega arith, omega arith)

a1-rq_enqueue : (t : ℕ) (k : Kernel) (u : ℕ) → (rq_enqueue t k).a1 u ≡ k.a1 u
unfolding rq_enqueue
a1-rq_enqueue t k u = ground arith

pc-rq_enqueue : (t : ℕ) (k : Kernel) (u : ℕ) → (rq_enqueue t k).pc u ≡ k.pc u
unfolding rq_enqueue
pc-rq_enqueue t k u = ground arith

-- On a TCB in no queue of well linked run queues: a call without a TCB, an entry or a stack, with a
-- stack of less than 512 bytes or with no valid priority gives K_ERR_INVAL and changes nothing. A call
-- with good arguments, and no other, gives K_OK: the task stands at the end of the queue of its
-- priority, the run queues are well linked, the task starts in the trampoline on the frame at the top
-- of its stack, and the current task stays.
pub task_create_lem :
    (trampoline exit_hook t : ℕ) (name : List ℕ) (entry arg stack sz prio : ℕ) (k : Kernel)
    (q : ℕ → List ℕ)
    → Rep k q
    → IsOff t q
    → let (r, k') = task_create trampoline exit_hook t name entry arg stack sz prio k in
      ((((t ≡ null) ⊎ (entry ≡ null) ⊎ (stack ≡ null) ⊎ (sz < 512) ⊎ (max_priority_levels ≤ prio))
          × (r ≡ err_inval)
          × (k' ≡ k))
        ⊎ ((t ≢ null)
            × (entry ≢ null)
            × (stack ≢ null)
            × (512 ≤ sz)
            × (prio < max_priority_levels)
            × (r ≡ ok)
            × Rep k' (enqueue q prio t)
            × (k'.a1 t ≡ initial_sp stack sz)
            × (k'.pc t ≡ trampoline)
            × (k'.current_task ≡ k.current_task)))
unfolding task_create new_task
task_create_lem trampoline exit_hook t name entry arg stack sz prio k q r off =
    let k1 = new_task trampoline exit_hook t name entry arg stack sz prio k in
    elim (Bool-cases (
      (t == null)
      || (entry == null)
      || (stack == null)
      || ltb sz 512
      || leb max_priority_levels prio)) [
        | inl bad ↦ rw (bad) (inl (ground (arith, bad), refl, refl))
        | inr good ↦
            let own : update k.priority t prio t ≡ prio = update_self k.priority t prio in
            let queued =
              enqueue-Rep k1 q t (Rep-write k k1 q t prio r off refl refl refl refl refl refl) off
                (ground (arith, good), refl, update_self k.state t ready)
                (rw (own) (ground (arith, good))) in
            rw (good) (
              inr (
                ground (arith, good),
                ground (arith, good),
                ground (arith, good),
                ground (arith, good),
                ground (arith, good),
                refl,
                subst (λ p. Rep (rq_enqueue t k1) (enqueue q p t)) own queued,
                a1-rq_enqueue t k1 t ∙ update_self k.a1 t (initial_sp stack sz),
                pc-rq_enqueue t k1 t ∙ update_self k.pc t trampoline,
                current-rq_enqueue t k1,
              ))
      ]
