-- ===== src/Examples/Threads.antt =====
-- The theorems on the queue at a run of one producer and one consumer.
use inferui.Prelude.{ℕ, true, false, inl, inr, ◌≡◌, refl, List, [], ◌∷◌, ◌++◌, arith}
use inferui.Thread.{
  ProducerConsumerQueue, new_queue, push_step, pop_step, notify_empty, Run, start, pushed, popped,
  pop_sleeps, notifies_empty,
}
use inferui.Thread.Live.{IsLive, Run-IsLive}
use inferui.Thread.Fifo.{Run-fifo}

-- A consumer sleeps, a producer pushes 7 and wakes it, and it pops 7 and has yet to notify.
abbrev after_pop : ProducerConsumerQueue ℕ
after_pop = record (new_queue 1) { full_pending = 1 }

example_steps : Run 1 after_pop (7 ∷ []) (7 ∷ [])
unfolding push_step pop_step notify_empty
example_steps =
    popped true 7
      (notifies_empty (pushed false 7 (pop_sleeps false start (inl refl) refl) (inl refl) refl)
        (omega arith))
      (inr (omega arith)) refl

Run-IsLive_example : IsLive 1 after_pop
Run-IsLive_example = Run-IsLive 1 after_pop (7 ∷ []) (7 ∷ []) example_steps

Run-fifo_example : ◌≡◌ {A = List ℕ} (7 ∷ []) ((7 ∷ []) ++ after_pop.queue)
Run-fifo_example = Run-fifo 1 after_pop (7 ∷ []) (7 ∷ []) example_steps
