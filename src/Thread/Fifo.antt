-- ===== src/Thread/Fifo.antt =====
-- ProducerConsumerQueue: the order of what goes in and comes out.
use mathlib.Core.Option.{some-injective}
use mathlib.Core.List.{append_assoc}
use inferui.Prelude.{
  ℕ, suc, ◌≡◌, refl, sym, ap, ◌∙◌, inl, inr, Bool, true, false, Option, none, some, List, [], ◌∷◌,
  ◌++◌, length, ltb, if◌then◌else◌,
}
use inferui.Thread.{
  ProducerConsumerQueue, leave, push_done, push_wait, push_step, pop_step, notify_empty,
  notify_full, Run, start, pushed, push_sleeps, popped, pop_sleeps, notifies_empty, notifies_full,
  wakes_empty, wakes_full,
}
use inferui.Thread.Live.{queue_cases}

module _ {ℓ} {El : Type ℓ} where
  taken :
      (c : Bool) (a b t : ProducerConsumerQueue El)
      → ◌≡◌ {A = ProducerConsumerQueue El × Bool} (if c then (a, true) else (b, false)) (t, true)
      → a ≡ t
  taken true a b t h = ap (λ r. r.0) h
  taken false a b t h = absurd (clash (ap (λ r. r.1) h))
    where
      clash : false ≡ true → ⊥
      clash h = cc

  not_taken :
      (c : Bool) (a b t : ProducerConsumerQueue El)
      → ◌≡◌ {A = ProducerConsumerQueue El × Bool} (if c then (a, true) else (b, false)) (t, false)
      → b ≡ t
  not_taken true a b t h = absurd (clash (ap (λ r. r.1) h))
    where
      clash : true ≡ false → ⊥
      clash h = cc
  not_taken false a b t h = ap (λ r. r.0) h

  pushed_queue :
      (woken : Bool) (el : El) (s t : ProducerConsumerQueue El)
      → push_step woken el s ≡ (t, true)
      → t.queue ≡ s.queue ++ (el ∷ [])
  unfolding push_step
  pushed_queue woken el s t h = sym (
      ap (λ q. q.queue)
        (taken (ltb (length s.queue) s.max_size) (push_done woken el s) (push_wait woken s) t h))

  kept_queue :
      (woken : Bool) (el : El) (s t : ProducerConsumerQueue El)
      → push_step woken el s ≡ (t, false)
      → t.queue ≡ s.queue
  unfolding push_step
  kept_queue woken el s t h = sym (
      ap (λ q. q.queue)
        (not_taken (ltb (length s.queue) s.max_size) (push_done woken el s) (push_wait woken s) t
          h))

  pop_step-nil :
      (woken : Bool) (s : ProducerConsumerQueue El)
      → s.queue ≡ []
      → pop_step woken s ≡ (
        record s { empty_woken = leave woken s.empty_woken; empty_asleep = suc s.empty_asleep },
        none,
      )
  unfolding pop_step
  pop_step-nil woken s e =
      rw (pop_step, e)
        (ap
          (λ q. (
            record s {
              queue = q;
              empty_woken = leave woken s.empty_woken;
              empty_asleep = suc s.empty_asleep;
            },
            none,
          ))
          e)

  pop_step-cons :
      (woken : Bool) (s : ProducerConsumerQueue El) (x : El) (xs : List El)
      → s.queue ≡ x ∷ xs
      → pop_step woken s ≡ (
        record s {
          queue = xs;
          empty_woken = leave woken s.empty_woken;
          full_pending = suc s.full_pending;
        },
        some x,
      )
  unfolding pop_step
  pop_step-cons woken s x xs e = rw (pop_step, e) refl

  popped_queue :
      (woken : Bool) (el : El) (s t : ProducerConsumerQueue El)
      → pop_step woken s ≡ (t, some el)
      → s.queue ≡ el ∷ t.queue
  popped_queue woken el s t h = elim (queue_cases s.queue) [
    | inl e ↦ absurd (nothing (sym (pop_step-nil woken s e) ∙ h))
    | inr (x, xs, e) ↦
        let same = sym (pop_step-cons woken s x xs e) ∙ h in
        e
        ∙ (ap (λ y. y ∷ xs) (some-injective _ _ (ap (λ r. r.1) same))
            ∙ ap (λ q. el ∷ q) (ap (λ r. r.0.queue) same))
  ]
    where
      nothing :
          {a : ProducerConsumerQueue El}
          → ◌≡◌ {A = ProducerConsumerQueue El × Option El} (a, none) (t, some el)
          → ⊥
      nothing h = cc

  pop_kept_queue :
      (woken : Bool) (s t : ProducerConsumerQueue El)
      → pop_step woken s ≡ (t, none)
      → t.queue ≡ s.queue
  pop_kept_queue woken s t h = elim (queue_cases s.queue) [
    | inl e ↦ sym (ap (λ r. r.0.queue) (sym (pop_step-nil woken s e) ∙ h))
    | inr (x, xs, e) ↦ absurd (something (sym (pop_step-cons woken s x xs e) ∙ h))
  ]
    where
      something :
          {a : ProducerConsumerQueue El} {x : El}
          → ◌≡◌ {A = ProducerConsumerQueue El × Option El} (a, some x) (t, none)
          → ⊥
      something h = cc

  -- The queue refines a channel that is first in, first out: in every run, what has been pushed is
  -- what has been popped, in that order, followed by what the queue holds.
  pub Run-fifo :
      (max_size : ℕ) (s : ProducerConsumerQueue El) (ins outs : List El)
      → Run max_size s ins outs
      → ins ≡ outs ++ s.queue
  unfolding notify_empty notify_full
  Run-fifo m s ins outs start = refl
  Run-fifo m t ins outs (pushed {s = s} {ins = before} woken el run may e) =
      ap (λ l. l ++ (el ∷ [])) (Run-fifo m s before outs run)
      ∙ (append_assoc outs s.queue (el ∷ [])
          ∙ ap (λ q. outs ++ q) (sym (pushed_queue woken el s t e)))
  Run-fifo m t ins outs (push_sleeps {s = s} woken el run may e) =
      Run-fifo m s ins outs run ∙ ap (λ q. outs ++ q) (sym (kept_queue woken el s t e))
  Run-fifo m t ins outs (popped {s = s} {outs = before} woken el run may e) =
      Run-fifo m s ins before run
      ∙ (ap (λ q. before ++ q) (popped_queue woken el s t e)
          ∙ sym (append_assoc before (el ∷ []) t.queue))
  Run-fifo m t ins outs (pop_sleeps {s = s} woken run may e) =
      Run-fifo m s ins outs run ∙ ap (λ q. outs ++ q) (sym (pop_kept_queue woken s t e))
  Run-fifo m t ins outs (notifies_empty run more) = Run-fifo m _ ins outs run
  Run-fifo m t ins outs (notifies_full run more) = Run-fifo m _ ins outs run
  Run-fifo m t ins outs (wakes_empty run more) = Run-fifo m _ ins outs run
  Run-fifo m t ins outs (wakes_full run more) = Run-fifo m _ ins outs run
