-- ===== src/Sched/Removal.antt =====
-- `rq_remove` of kernel/scheduler.c at the head of a run queue, the one place where it is called.
use nanos_os.Common.{
  ℕ, ◌≤◌, ◌≡◌, refl, sym, subst, ◌∙◌, ◌≢◌, inl, inr, true, false, List, [], ◌∷◌, arith, ◌==◌, All,
  List-cases, ==_iff, ==_refl,
}
use nanos_os.Common.Maps.{update, update_elim, Fresh}
use nanos_os.Kernel.{Kernel, null, max_priority_levels}
use nanos_os.Sched.{rq_remove}
use nanos_os.Sched.Ring.{Ring, Ring-next_update, Ring-prev_update, Ring-remove, All-last}
use nanos_os.Sched.Ready.{is_cons, Queued, Rep, IsOff, Fresh-other}

-- Taking the head of queue `p`.
module _ (k : Kernel) (q : ℕ → List ℕ) (t p : ℕ) (xs : List ℕ) (r : Rep k q)
    (e : q p ≡ t ∷ xs) where
  own-Ring : Ring k.next k.prev (k.run_queue p) (t ∷ xs)
  own-Ring = subst (λ ts. Ring k.next k.prev (k.run_queue p) ts) e (r.rings p)

  own_members : All (Queued k p) (t ∷ xs)
  own_members = subst (All (Queued k p)) e (r.members p)

  remove-members : (p' : ℕ) → All (Queued k p') (update q p xs p')
  remove-members p' =
      update_elim (λ ts _. All (Queued k p') ts) q q p xs [] p'
        (λ pe. subst (λ a. All (Queued k a) xs) pe own_members.1) (λ _. r.members p')

  remove-levels : (p' : ℕ) → max_priority_levels ≤ p' → update q p xs p' ≡ []
  remove-levels p' l =
      update_elim (λ ts _. ts ≡ []) q q p xs [] p'
        (λ pe. absurd (cons_nil (sym e ∙ r.levels p (rw pe l)))) (λ _. r.levels p' l)
    where
      cons_nil : (t ∷ xs ≡ []) → ⊥
      cons_nil h = cc

  head_off_others : (p' : ℕ) → p ≢ p' → Fresh t (q p')
  head_off_others p' ne = Fresh-other k (q p') t p' (r.members p') (rw own_members.0.1 ne)

  -- The task is in no queue any more.
  pub remove-IsOff : IsOff t (update q p xs)
  remove-IsOff p' =
      update_elim (λ ts _. Fresh t ts) q q p xs [] p' (λ _. own-Ring.2) (head_off_others p')

  remove_only : xs ≡ [] → Rep (rq_remove t k) (update q p xs)
  unfolding rq_remove
  remove_only xe =
      rw (own_members.0.1, loop, rq_remove)
        (record {
          rings = λ p'.
              update_elim (λ hd ts. Ring (update k.next t null) (update k.prev t null) hd ts)
                k.run_queue q p null xs p' (λ _. rw xe refl)
                (λ ne.
                  Ring-prev_update _ _ (k.run_queue p') (q p') _ _
                    (Ring-next_update _ _ (k.run_queue p') (q p') _ _ (r.rings p')
                      (head_off_others p' ne))
                    (head_off_others p' ne));
          bits = λ p'.
              update_elim (λ b ts. b ≡ is_cons ts) k.prio_bitmap q p false xs p' (λ _. rw xe refl)
                (λ _. r.bits p');
          members = remove-members;
          levels = remove-levels;
        })
    where
      loop : (k.next t == t) ≡ true
      loop =
          (==_iff (k.next t) t).1
            (subst (λ ys. Ring k.next k.prev (k.run_queue p) (t ∷ ys)) xe own-Ring).4.0

  remove_more : (y : ℕ) (ys : List ℕ) → xs ≡ y ∷ ys → Rep (rq_remove t k) (update q p xs)
  unfolding rq_remove
  remove_more y ys xe =
      rw (own_members.0.1, not_loop, own-Ring.0, ==_refl, next_t, rq_remove)
        (record {
          rings = λ p'.
              update_elim (λ hd ts. Ring next' prev' hd ts) k.run_queue q p y xs p'
                (λ _. rw (xe, ring.4.0) (Ring-remove k.next k.prev t y ys ring own_y.0.0))
                (foreign p');
          bits = λ p'.
              update_elim (λ ts _. k.prio_bitmap p' ≡ is_cons ts) q q p xs [] p'
                (λ pe. rw (← pe, r.bits p, e, xe) refl) (λ _. r.bits p');
          members = remove-members;
          levels = remove-levels;
        })
    where
      ring : Ring k.next k.prev t (t ∷ y ∷ ys)
      ring =
          let w = subst (λ zs. Ring k.next k.prev (k.run_queue p) (t ∷ zs)) xe own-Ring in
          (refl, w.1, w.2, w.3, w.4)

      own_y : All (Queued k p) (y ∷ ys)
      own_y = subst (All (Queued k p)) xe own_members.1

      next' : ℕ → ℕ
      next' = update (update k.next (k.prev t) (k.next t)) t null

      prev' : ℕ → ℕ
      prev' = update (update k.prev y (k.prev t)) t null

      last_off : (p' : ℕ) → p ≢ p' → Fresh (k.prev t) (q p')
      last_off p' ne =
          let w = All-last (Queued k p) k.next k.prev t (y ∷ ys) t ring.4 own_members.0 own_y in
          Fresh-other k (q p') (k.prev t) p' (r.members p') (rw w.1 ne)

      foreign : (p' : ℕ) → p ≢ p' → Ring next' prev' (k.run_queue p') (q p')
      foreign p' ne =
          let off_y = Fresh-other k (q p') y p' (r.members p') (rw own_y.0.1 ne) in
          Ring-prev_update _ _ (k.run_queue p') (q p') _ _
            (Ring-prev_update _ _ (k.run_queue p') (q p') _ _
              (Ring-next_update _ _ (k.run_queue p') (q p') _ _
                (Ring-next_update _ _ (k.run_queue p') (q p') _ _ (r.rings p') (last_off p' ne))
                (head_off_others p' ne))
              off_y)
            (head_off_others p' ne)

      not_loop : (k.next t == t) ≡ false
      not_loop = ground (arith, ring.4.0, ring.2.0)

      next_t : update k.next (k.prev t) (k.next t) t ≡ y
      next_t = ground (arith, ring.4.0)

  -- `rq_remove` takes the head off its queue, clears the bit of an emptied queue, and leaves the
  -- other queues as they are.
  pub remove-Rep : Rep (rq_remove t k) (update q p xs)
  remove-Rep = elim (List-cases xs) [
    | inl xe ↦ remove_only xe
    | inr (y, ys, xe) ↦ remove_more y ys xe
  ]
