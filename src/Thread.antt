-- ===== src/Thread.antt =====
-- ProducerConsumerQueue of inferui/util/thread/work_queue.h. A critical section is one step, and so
-- is a call of notify_one after it. Threads are counted: those asleep on a condition variable, those that have
-- been woken and have not tested the queue again, and those that still have to call notify_one.
use inferui.Prelude.{
  ℕ, zero, suc, ◌+◌, ◌-◌, ◌<◌, ◌≡◌, ◌⊎◌, Bool, true, false, Option, none, some, List, [], ◌∷◌, ◌++◌,
  length, ltb, if◌then◌else◌,
}
pub mod Live
pub mod Fifo

pub record ProducerConsumerQueue {ℓ} (El : Type ℓ) : Type ℓ where
  pub max_size : ℕ
  pub queue : List El
  -- Consumers, on cond_var_empty_.
  pub empty_asleep : ℕ
  pub empty_woken : ℕ
  pub empty_pending : ℕ
  -- Producers, on cond_var_full_.
  pub full_asleep : ℕ
  pub full_woken : ℕ
  pub full_pending : ℕ

-- A thread that was woken is one less of those that were.
abbrev pub leave : Bool → ℕ → ℕ
leave woken n = if woken then n - 1 else n

module _ {ℓ} {El : Type ℓ} where
  abbrev pub new_queue : ℕ → ProducerConsumerQueue El
  new_queue max_size = record {
    max_size = max_size;
    queue = [];
    empty_asleep = 0;
    empty_woken = 0;
    empty_pending = 0;
    full_asleep = 0;
    full_woken = 0;
    full_pending = 0;
  }

  -- The queue after `push`, and when its size is not below the bound.
  abbrev pub push_done : Bool → El → ProducerConsumerQueue El → ProducerConsumerQueue El
  push_done woken el s = record s {
    queue = s.queue ++ (el ∷ []);
    full_woken = leave woken s.full_woken;
    empty_pending = suc s.empty_pending;
  }

  abbrev pub push_wait : Bool → ProducerConsumerQueue El → ProducerConsumerQueue El
  push_wait woken s = record s {
    full_woken = leave woken s.full_woken;
    full_asleep = suc s.full_asleep;
  }

  -- The critical section of Push up to its end or to the wait; `woken` says that it goes on after a
  -- wait. The flag tells whether it has pushed.
  unfoldable pub push_step : Bool → El → ProducerConsumerQueue El → ProducerConsumerQueue El × Bool
  push_step woken el s =
      if ltb (length s.queue) s.max_size
      then (push_done woken el s, true)
      else (push_wait woken s, false)

  -- The critical section of PopSwap and of PopCopy, with what it has taken.
  unfoldable pub pop_step : Bool → ProducerConsumerQueue El → ProducerConsumerQueue El × Option El
  pop_step woken s = elim s.queue [
    | [] ↦ (
      record s { empty_woken = leave woken s.empty_woken; empty_asleep = suc s.empty_asleep },
      none,
    )
    | el ∷ rest ↦ (
      record s {
        queue = rest;
        empty_woken = leave woken s.empty_woken;
        full_pending = suc s.full_pending;
      },
      some el,
    )
  ]

  -- cond_var_empty_.notify_one() and cond_var_full_.notify_one()
  unfoldable pub notify_empty : ProducerConsumerQueue El → ProducerConsumerQueue El
  notify_empty s = record s {
    empty_pending = s.empty_pending - 1;
    empty_asleep = s.empty_asleep - 1;
    empty_woken = if ltb 0 s.empty_asleep then suc s.empty_woken else s.empty_woken;
  }

  unfoldable pub notify_full : ProducerConsumerQueue El → ProducerConsumerQueue El
  notify_full s = record s {
    full_pending = s.full_pending - 1;
    full_asleep = s.full_asleep - 1;
    full_woken = if ltb 0 s.full_asleep then suc s.full_woken else s.full_woken;
  }

  -- A wait may end without a call of notify_one.
  abbrev pub wake_empty : ProducerConsumerQueue El → ProducerConsumerQueue El
  wake_empty s = record s { empty_asleep = s.empty_asleep - 1; empty_woken = suc s.empty_woken }

  abbrev pub wake_full : ProducerConsumerQueue El → ProducerConsumerQueue El
  wake_full s = record s { full_asleep = s.full_asleep - 1; full_woken = suc s.full_woken }

-- A thread comes in fresh, or is one of those that were woken.
abbrev pub MayEnter : Bool → ℕ → Type 0
MayEnter woken n = (woken ≡ false) ⊎ (0 < n)

-- The states that threads reach from a new queue in any order of their steps, with what has been
-- pushed and what has been popped so far.
pub data Run {ℓ} {El : Type ℓ} (max_size : ℕ)
    : ProducerConsumerQueue El → List El → List El → Type ℓ where
  start : Run max_size (new_queue max_size) [] []
  pushed :
      {s t : ProducerConsumerQueue El} {ins outs : List El} (woken : Bool) (el : El)
      → Run max_size s ins outs
      → MayEnter woken s.full_woken
      → push_step woken el s ≡ (t, true)
      → Run max_size t (ins ++ (el ∷ [])) outs
  push_sleeps :
      {s t : ProducerConsumerQueue El} {ins outs : List El} (woken : Bool) (el : El)
      → Run max_size s ins outs
      → MayEnter woken s.full_woken
      → push_step woken el s ≡ (t, false)
      → Run max_size t ins outs
  popped :
      {s t : ProducerConsumerQueue El} {ins outs : List El} (woken : Bool) (el : El)
      → Run max_size s ins outs
      → MayEnter woken s.empty_woken
      → pop_step woken s ≡ (t, some el)
      → Run max_size t ins (outs ++ (el ∷ []))
  pop_sleeps :
      {s t : ProducerConsumerQueue El} {ins outs : List El} (woken : Bool)
      → Run max_size s ins outs
      → MayEnter woken s.empty_woken
      → pop_step woken s ≡ (t, none)
      → Run max_size t ins outs
  notifies_empty :
      {s : ProducerConsumerQueue El} {ins outs : List El}
      → Run max_size s ins outs
      → 0 < s.empty_pending
      → Run max_size (notify_empty s) ins outs
  notifies_full :
      {s : ProducerConsumerQueue El} {ins outs : List El}
      → Run max_size s ins outs
      → 0 < s.full_pending
      → Run max_size (notify_full s) ins outs
  wakes_empty :
      {s : ProducerConsumerQueue El} {ins outs : List El}
      → Run max_size s ins outs
      → 0 < s.empty_asleep
      → Run max_size (wake_empty s) ins outs
  wakes_full :
      {s : ProducerConsumerQueue El} {ins outs : List El}
      → Run max_size s ins outs
      → 0 < s.full_asleep
      → Run max_size (wake_full s) ins outs
