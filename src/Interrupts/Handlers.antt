-- ===== src/Interrupts/Handlers.antt =====
-- What the table of interrupt handlers of kernel/isr.c guarantees.
use nanos_os.Common.{
  ℕ, ◌≡◌, ◌<◌, ◌≤◌, ◌⊎◌, inl, inr, refl, ap, Bool, true, false, List, [], ◌∷◌, ◌++◌, ◌==◌, ◌&&◌,
  leb, arith, if◌then◌else◌, length, Bool-cases, ==_refl,
}
use nanos_os.Kernel.{ok, err_overflow}
use nanos_os.Interrupts.{
  IsrEntry, Isrs, max_isr_handlers, cpu_int_periph, cpu_int, isr_register, switch_off,
  isr_unregister, level3_dispatch,
}

dispatch-snoc :
    (es : List IsrEntry) (e : IsrEntry)
    → level3_dispatch (es ++ e ∷ []) ≡ level3_dispatch es ++ level3_dispatch (e ∷ [])
unfolding level3_dispatch
dispatch-snoc [] e = refl
dispatch-snoc (x ∷ xs) e = elim (Bool-cases (x.registered && (x.cpu_int_num == cpu_int_periph))) [
  | inl c ↦ rw (c) (ap ((x.handler, x.arg) ∷◌) (dispatch-snoc xs e))
  | inr c ↦ rw (c) (dispatch-snoc xs e)
]

-- A handler registered at level 3 is called behind those that were called before, with its argument,
-- unless the table is full: then the result is K_ERR_OVERFLOW and nothing changes.
pub isr_register_lem :
    (periph h arg : ℕ) (s : Isrs)
    → let (r, s') = isr_register periph 3 h arg s in
      ((length s.entries < max_isr_handlers)
        × (r ≡ ok)
        × (level3_dispatch s'.entries ≡ level3_dispatch s.entries ++ (h, arg) ∷ [])
        × (s'.intmtx periph ≡ cpu_int_periph))
      ⊎ ((max_isr_handlers ≤ length s.entries) × (r ≡ err_overflow) × (s' ≡ s))
unfolding isr_register cpu_int level3_dispatch
isr_register_lem periph h arg s = elim (Bool-cases (leb max_isr_handlers (length s.entries))) [
  | inl c ↦ rw (c) (inr (ground arith, refl, refl))
  | inr c ↦ rw (c) (inl (ground arith, refl, dispatch-snoc s.entries _, rw (==_refl periph) refl))
]

-- Whether the table has an entry of the peripheral.
unfoldable pub has_periph : ℕ → List IsrEntry → Bool
has_periph periph [] = false
has_periph periph (e ∷ es) = if e.periph_num == periph then true else has_periph periph es

-- The first entry shields the later ones.
switch_off-twice :
    (periph : ℕ) (es fs : List IsrEntry)
    → has_periph periph es ≡ true
    → switch_off periph (switch_off periph es ++ fs) ≡ switch_off periph es ++ fs
unfolding switch_off has_periph
switch_off-twice periph [] fs h = cc
switch_off-twice periph (e ∷ es) fs h = elim (Bool-cases (e.periph_num == periph)) [
  | inl c ↦ rw (c) (rw (c) refl)
  | inr c ↦ rw (c) (rw (c) (ap (e ∷◌) (switch_off-twice periph es fs (rw (c) at h))))
]

-- A peripheral that was unregistered and registered again cannot be unregistered: where the table has
-- room, the second `isr_unregister` leaves the entries as they are, and the new handler is still
-- called at the end.
pub unregister_shadowed :
    (periph h arg : ℕ) (s : Isrs)
    → has_periph periph s.entries ≡ true
    → length (isr_unregister periph s).entries < max_isr_handlers
    → let s1 = isr_unregister periph s in
      let s2 = (isr_register periph 3 h arg s1).1 in
      ((isr_unregister periph s2).entries ≡ s2.entries)
      × (level3_dispatch (isr_unregister periph s2).entries
          ≡ level3_dispatch s1.entries ++ (h, arg) ∷ [])
unfolding isr_register isr_unregister cpu_int level3_dispatch
unregister_shadowed periph h arg s p room =
    let c : leb max_isr_handlers (length (switch_off periph s.entries)) ≡ false = ground arith in
    rw (c, switch_off-twice periph s.entries _ p)
      (refl, dispatch-snoc (switch_off periph s.entries) _)
