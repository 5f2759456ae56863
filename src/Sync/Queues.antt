-- ===== src/Sync/Queues.antt =====
-- Message queues of kernel/scheduler.c as bounded queues, first in first out.
use native.Mathlib.Nat.{mod-add-mod, mod-eq_of_lt, mod-eq-sub-mod, add-zero}
use nanos_os.Common.{
  ℕ, suc, ◌+◌, ◌-◌, ◌%◌, ◌≤◌, ◌<◌, ◌≡◌, refl, ap, ◌∙◌, ◌≢◌, true, false, Option, none, some, List,
  [], ◌∷◌, ◌++◌, arith, length, length-append, ◌==◌, ltb, Bool-cases, inl, inr, ltb→lt,
  if◌then◌else◌,
}
use nanos_os.Common.Maps.{update, update_self, update_ne}
use nanos_os.Kernel.{Kernel, Err, ok, err_busy, null, k_no_wait, u32_mod}
use nanos_os.Sync.{
  Msgq, returned, k_msgq_init, put_item, get_item, send_pass, recv_pass, take_pass, k_sem_give,
}

module _ {A : Type 0} where
  -- The slots from `h` on, going round at `cap`, hold the items.
  abbrev pub Holds : (ℕ → A) → ℕ → ℕ → List A → Type 0
  Holds slot cap h [] = Unit {0}
  Holds slot cap h (x ∷ xs) = (slot h ≡ x) × Holds slot cap ((h + 1) % cap) xs

  -- The queue holds the items `xs`, and no task waits at it.
  pub record Queue (q : Msgq A) (xs : List A) : Type 0 where
    pub items : Holds q.slot q.capacity q.head xs
    pub head_in : q.head < q.capacity
    pub tail_at : q.tail ≡ (q.head + length xs) % q.capacity
    pub fits : length xs ≤ q.capacity
    pub small : q.capacity < u32_mod
    pub counted : q.count ≡ length xs
    pub used : q.not_empty.count ≡ length xs
    pub used_max : q.not_empty.max_count ≡ q.capacity
    pub free : q.not_full.count + length xs ≡ q.capacity
    pub free_max : q.not_full.max_count ≡ q.capacity
    pub no_receiver : q.not_empty.wait_head ≡ null
    pub no_sender : q.not_full.wait_head ≡ null

-- A slot ahead by less than the capacity is another slot, whether or not the index wraps.
slot_ahead : (cap at ahead : ℕ) → at < cap → 0 < ahead → ahead < cap → (at + ahead) % cap ≢ at
slot_ahead cap at ahead inside pos short = elim (Bool-cases (ltb (at + ahead) cap)) [
  | inl before ↦
      let straight = mod-eq_of_lt (ltb→lt (at + ahead) cap before) in rw (straight) (omega arith)
  | inr past ↦
      let wrapped : (at + ahead) % cap ≡ (at + ahead - cap) % cap = mod-eq-sub-mod (ground arith) in
      let small : at + ahead - cap < cap = ground arith in
      let beyond : cap ≤ at + ahead = ground arith in rw (wrapped, mod-eq_of_lt small) (omega arith)
]

-- The bounded queue that callers see.
unfoldable pub send {ℓ} : {A : Type ℓ} → ℕ → List A → A → Err × List A
send cap xs x = if ltb (length xs) cap then (ok, xs ++ x ∷ []) else (err_busy, xs)

unfoldable pub recv {ℓ} : {A : Type ℓ} → List A → Err × Option A × List A
recv [] = (err_busy, none, [])
recv (x ∷ xs) = (ok, some x, xs)

module _ {A : Type 0} where
  -- A write just behind the items appends.
  Holds-snoc :
      (slot : ℕ → A) (cap h i : ℕ) (xs : List A) (x : A)
      → h < cap
      → length xs < cap
      → i ≡ (h + length xs) % cap
      → Holds slot cap h xs
      → Holds (update slot i x) cap h (xs ++ x ∷ [])
  Holds-snoc slot cap h i [] x hh l e s = (at_h, tt)
    where
      here : (h + 0) % cap ≡ h
      here = rw add-zero (mod-eq_of_lt hh)

      at_h : update slot i x h ≡ x
      at_h = rw (e ∙ here) (update_self slot h x)
  Holds-snoc slot cap h i (y ∷ ys) x hh l e s = (
    update_ne slot i h x (rw e (slot_ahead cap h _ hh (omega arith) l)) ∙ s.0,
    Holds-snoc slot cap ((h + 1) % cap) i ys x (omega arith) (omega arith) (e ∙ shift) s.1,
  )
    where
      shift : (h + suc (length ys)) % cap ≡ ((h + 1) % cap + length ys) % cap
      shift = rw mod-add-mod (ap (λ z. z % cap) (omega arith))

  pub k_msgq_init-Queue :
      (buf : ℕ → A) (cap : ℕ) → 0 < cap → cap < u32_mod → Queue (k_msgq_init buf cap) []
  unfolding k_msgq_init
  k_msgq_init-Queue buf cap pos l = record {
    items = tt;
    head_in = pos;
    tail_at = ground arith;
    fits = omega arith;
    small = l;
    counted = refl;
    used = refl;
    used_max = refl;
    free = omega arith;
    free_max = refl;
    no_receiver = refl;
    no_sender = refl;
  }

  -- A `k_msgq_send` that does not wait, on a queue at which no task waits, does what a bounded queue
  -- does: it appends the item and returns K_OK, or returns K_ERR_BUSY if the queue is full.
  pub send_refines :
      (fuel dl : ℕ) (x : A) (q : Msgq A) (xs : List A) (k : Kernel)
      → Queue q xs
      → let (r, xs') = send q.capacity xs x in
        (q' : Msgq A) × (send_pass fuel k_no_wait dl x q k ≡ some (returned r, q', k))
        × Queue q' xs'
        × (q'.capacity ≡ q.capacity)
  unfolding send_pass take_pass put_item k_sem_give send
  send_refines fuel dl x q xs k v = elim (Bool-cases (ltb (length xs) q.capacity)) [
    | inl e ↦ rw e (
      record q {
        slot = update q.slot q.tail x;
        tail = (q.tail + 1) % q.capacity;
        count = (q.count + 1) % u32_mod;
        not_empty = record q.not_empty { count = q.not_empty.count + 1 };
        not_full = record q.not_full { count = q.not_full.count - 1 };
      },
      rw (free e, nobody, room e) refl,
      appended (ltb→lt _ _ e),
      refl,
    )
    | inr e ↦ rw e (q, rw (full e) refl, v, refl)
  ]
    where
      free : ltb (length xs) q.capacity ≡ true → ltb 0 q.not_full.count ≡ true
      free e = ground (arith, v.free)

      full : ltb (length xs) q.capacity ≡ false → ltb 0 q.not_full.count ≡ false
      full e = ground (arith, v.free)

      nobody : (q.not_empty.wait_head == null) ≡ true
      nobody = ground (arith, v.no_receiver)

      room : ltb (length xs) q.capacity ≡ true → ltb q.not_empty.count q.not_empty.max_count ≡ true
      room e = ground (arith, v.used, v.used_max)

      len : length (xs ++ x ∷ []) ≡ length xs + 1
      len = omega (arith, length-append xs (x ∷ []))

      appended :
          length xs < q.capacity
          → Queue
              (record q {
                slot = update q.slot q.tail x;
                tail = (q.tail + 1) % q.capacity;
                count = (q.count + 1) % u32_mod;
                not_empty = record q.not_empty { count = q.not_empty.count + 1 };
                not_full = record q.not_full { count = q.not_full.count - 1 };
              })
              (xs ++ x ∷ [])
      appended l = record {
        items = Holds-snoc q.slot q.capacity q.head q.tail xs x v.head_in l v.tail_at v.items;
        head_in = v.head_in;
        tail_at = rw (v.tail_at, mod-add-mod, len) (ap (λ z. z % q.capacity) (omega arith));
        fits = omega (arith, len);
        small = v.small;
        counted = omega (arith, len, v.counted, v.small);
        used = omega (arith, len, v.used);
        used_max = v.used_max;
        free = omega (arith, len, v.free);
        free_max = v.free_max;
        no_receiver = v.no_receiver;
        no_sender = v.no_sender;
      }

  -- And a `k_msgq_recv`: it takes the oldest item, or returns K_ERR_BUSY if there is none.
  pub recv_refines :
      (fuel dl : ℕ) (q : Msgq A) (xs : List A) (k : Kernel)
      → Queue q xs
      → let (r, item, xs') = recv xs in
        (q' : Msgq A) × (recv_pass fuel k_no_wait dl q k ≡ some (returned r, item, q', k))
        × Queue q' xs'
        × (q'.capacity ≡ q.capacity)
  unfolding recv_pass take_pass get_item k_sem_give recv
  recv_refines fuel dl q [] k v = (q, rw none_there refl, v, refl)
    where
      none_there : ltb 0 q.not_empty.count ≡ false
      none_there = ground (arith, v.used)
  recv_refines fuel dl q (x ∷ xs) k v = (
    record q {
      head = (q.head + 1) % q.capacity;
      count = (q.count + u32_mod - 1) % u32_mod;
      not_empty = record q.not_empty { count = q.not_empty.count - 1 };
      not_full = record q.not_full { count = q.not_full.count + 1 };
    },
    rw (some_there, nobody, room, v.items.0) refl,
    record {
      items = v.items.1;
      head_in = omega (arith, v.head_in);
      tail_at = v.tail_at ∙ rw mod-add-mod (ap (λ z. z % q.capacity) (omega arith));
      fits = omega (arith, v.fits);
      small = v.small;
      counted = omega (arith, v.counted, v.small, v.fits);
      used = omega (arith, v.used);
      used_max = v.used_max;
      free = omega (arith, v.free);
      free_max = v.free_max;
      no_receiver = v.no_receiver;
      no_sender = v.no_sender;
    },
    refl,
  )
    where
      some_there : ltb 0 q.not_empty.count ≡ true
      some_there = ground (arith, v.used)

      nobody : (q.not_full.wait_head == null) ≡ true
      nobody = ground (arith, v.no_sender)

      room : ltb q.not_full.count q.not_full.max_count ≡ true
      room = ground (arith, v.free, v.free_max)
