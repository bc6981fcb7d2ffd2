-- ===== src/Thread/Live.antt =====
-- ProducerConsumerQueue: its bound, and the threads that sleep on it.
use mathlib.Core.Path.{subst}
use inferui.Prelude.{
  ℕ, zero, suc, ◌+◌, ◌-◌, ◌≤◌, ◌<◌, ◌≡◌, refl, ap, ◌⊎◌, inl, inr, Bool, true, false, List, [], ◌∷◌,
  arith, length, length-append, ltb, Bool-cases, if◌then◌else◌,
}
use inferui.Thread.{
  ProducerConsumerQueue, leave, push_step, pop_step, notify_empty, notify_full, MayEnter, Run,
  start, pushed, push_sleeps, popped, pop_sleeps, notifies_empty, notifies_full, wakes_empty,
  wakes_full,
}

-- Nobody sleeps, or the threads that are awake or will be are enough.
abbrev Enough : ℕ → ℕ → ℕ → Type 0
Enough asleep needed awake = (asleep ≡ 0) ⊎ (needed ≤ awake)

Enough-mono : (asleep n m k l : ℕ) → Enough asleep n k → (n ≤ k → m ≤ l) → Enough asleep m l
Enough-mono asleep n m k l (inl e) f = inl e
Enough-mono asleep n m k l (inr h) f = inr (f h)

leave-le : (woken : Bool) (n : ℕ) → MayEnter woken n → n ≤ suc (leave woken n)
leave-le true n may = omega arith
leave-le false n may = omega arith

leave-below : (woken : Bool) (n : ℕ) → leave woken n ≤ n
leave-below true n = omega arith
leave-below false n = omega arith

-- A call of notify_one, in numbers: one that was asleep is woken, or none is asleep.
Enough-notify :
    (asleep needed extra woken pending : ℕ)
    → 0 < pending
    → Enough asleep needed (extra + (woken + pending))
    → Enough
        (asleep - 1)
        needed
        (extra + ((if ltb 0 asleep then suc woken else woken) + (pending - 1)))
Enough-notify zero needed extra woken pending h e = inl (omega arith)
Enough-notify (suc asleep) needed extra woken pending h (inl q) = absurd (never q)
  where
    never : suc asleep ≡ 0 → ⊥
    never q = omega arith
Enough-notify (suc asleep) needed extra woken pending h (inr k) =
    let some_asleep : ltb 0 (suc asleep) ≡ true = ground arith in rw some_asleep (inr (omega arith))

Enough-wake :
    (asleep needed extra woken pending : ℕ)
    → Enough asleep needed (extra + (woken + pending))
    → Enough (asleep - 1) needed (extra + (suc woken + pending))
Enough-wake asleep needed extra woken pending (inl q) = inl (omega arith)
Enough-wake asleep needed extra woken pending (inr k) = inr (omega arith)

module _ {ℓ} {El : Type ℓ} where
  -- A queue within its bound, in which a consumer sleeps only if each element has a consumer that is
  -- awake or will be woken, and a producer only if each free place has such a producer.
  pub record IsLive (max_size : ℕ) (s : ProducerConsumerQueue El) : Type ℓ where
    pub same_bound : s.max_size ≡ max_size
    pub bounded : length s.queue ≤ max_size
    pub consumers : Enough s.empty_asleep (length s.queue) (0 + (s.empty_woken + s.empty_pending))
    pub producers : Enough s.full_asleep max_size (length s.queue + (s.full_woken + s.full_pending))

  pub queue_cases : (q : List El) → (q ≡ []) ⊎ ((x : El) × (xs : List El) × (q ≡ x ∷ xs))
  queue_cases [] = inl refl
  queue_cases (x ∷ xs) = inr (x, xs, refl)

  push_step-IsLive :
      (max_size : ℕ) (woken : Bool) (el : El) (s : ProducerConsumerQueue El)
      → IsLive max_size s
      → MayEnter woken s.full_woken
      → IsLive max_size (push_step woken el s).0
  unfolding push_step
  push_step-IsLive m woken el s h may =
      let count = length-append s.queue (el ∷ []) in
      let left = leave-le woken s.full_woken may in
      elim (Bool-cases (ltb (length s.queue) s.max_size)) [
        | inl e ↦
            let room : length s.queue < s.max_size = ground arith in
            rw e (record {
              same_bound = h.same_bound;
              bounded = omega (arith, count, h.same_bound);
              consumers = Enough-mono _ _ _ _ _ h.consumers (λ k. omega (arith, count));
              producers = Enough-mono _ _ _ _ _ h.producers (λ k. omega (arith, count, left));
            })
        | inr e ↦
            let full : s.max_size ≤ length s.queue = ground arith in
            rw e (record {
              same_bound = h.same_bound;
              bounded = h.bounded;
              consumers = h.consumers;
              producers = inr (omega (arith, h.same_bound));
            })
      ]

  pop_step-IsLive :
      (max_size : ℕ) (woken : Bool) (s : ProducerConsumerQueue El)
      → IsLive max_size s
      → MayEnter woken s.empty_woken
      → IsLive max_size (pop_step woken s).0
  unfolding pop_step
  pop_step-IsLive m woken s h may =
      let left = leave-le woken s.empty_woken may in
      elim (queue_cases s.queue) [
        | inl e ↦
            let count : length s.queue ≡ 0 = ap length e in
            rw (pop_step, e)
              (record {
                same_bound = h.same_bound;
                bounded = h.bounded;
                consumers = inr (omega (arith, count));
                producers = h.producers;
              })
        | inr (x, xs, e) ↦
            let count : length s.queue ≡ suc (length xs) = ap length e in
            rw (pop_step, e)
              (record {
                same_bound = h.same_bound;
                bounded = omega (arith, h.bounded, count);
                consumers = Enough-mono _ _ _ _ _ h.consumers (λ k. omega (arith, count, left));
                producers = Enough-mono _ _ _ _ _ h.producers (λ k. omega (arith, count));
              })
      ]

  -- Whatever the threads do in whatever order, the queue keeps within its bound, a consumer sleeps
  -- only if for each element some consumer has been woken or is about to be, and a producer only if
  -- that holds of producers for each free place.
  pub Run-IsLive :
      (max_size : ℕ) (s : ProducerConsumerQueue El) (ins outs : List El)
      → Run max_size s ins outs
      → IsLive max_size s
  unfolding notify_empty notify_full
  Run-IsLive m s ins outs start = record {
    same_bound = refl;
    bounded = omega arith;
    consumers = inl refl;
    producers = inl refl;
  }
  Run-IsLive m t ins outs (pushed {s = s} woken el run may e) =
      subst (IsLive m) (ap (λ r. r.0) e)
        (push_step-IsLive m woken el s (Run-IsLive m s _ outs run) may)
  Run-IsLive m t ins outs (push_sleeps {s = s} woken el run may e) =
      subst (IsLive m) (ap (λ r. r.0) e)
        (push_step-IsLive m woken el s (Run-IsLive m s _ _ run) may)
  Run-IsLive m t ins outs (popped {s = s} woken el run may e) =
      subst (IsLive m) (ap (λ r. r.0) e) (pop_step-IsLive m woken s (Run-IsLive m s _ _ run) may)
  Run-IsLive m t ins outs (pop_sleeps {s = s} woken run may e) =
      subst (IsLive m) (ap (λ r. r.0) e) (pop_step-IsLive m woken s (Run-IsLive m s _ _ run) may)
  Run-IsLive m t ins outs (notifies_empty {s = s} run more) =
      let h = Run-IsLive m s ins outs run in
      record {
        same_bound = h.same_bound;
        bounded = h.bounded;
        consumers = Enough-notify s.empty_asleep _ 0 s.empty_woken s.empty_pending more h.consumers;
        producers = h.producers;
      }
  Run-IsLive m t ins outs (notifies_full {s = s} run more) =
      let h = Run-IsLive m s ins outs run in
      record {
        same_bound = h.same_bound;
        bounded = h.bounded;
        consumers = h.consumers;
        producers = Enough-notify s.full_asleep m _ s.full_woken s.full_pending more h.producers;
      }
  Run-IsLive m t ins outs (wakes_empty {s = s} run more) =
      let h = Run-IsLive m s ins outs run in
      record {
        same_bound = h.same_bound;
        bounded = h.bounded;
        consumers = Enough-wake s.empty_asleep _ 0 s.empty_woken s.empty_pending h.consumers;
        producers = h.producers;
      }
  Run-IsLive m t ins outs (wakes_full {s = s} run more) =
      let h = Run-IsLive m s ins outs run in
      record {
        same_bound = h.same_bound;
        bounded = h.bounded;
        consumers = h.consumers;
        producers = Enough-wake s.full_asleep m _ s.full_woken s.full_pending h.producers;
      }
