-- ===== src/Util/Batcher.antt =====
-- pkg/util/batcher.go and timer.go: items are collected until no item has come for a while, or until the
-- first one has waited for long enough. A channel is the list of what stands in it.
pub mod Order
use walkai_nos.Base.{
  Bool, true, false, Option, none, some, List, [], ◌∷◌, ◌++◌, ℕ, length, ltb, nat_eq, if◌then◌else◌,
}

-- A timer is not running, or runs, or has run out and its channel holds a value.
pub data Timer : Type 0 where
  stopped pending fired : Timer

-- StopTimer drains the channel, so that the timer's state before does not matter.
abbrev pub stop_timer : Timer → Timer
stop_timer t = stopped

abbrev pub reset_timer : Timer → Timer
reset_timer t = pending

pub record Batcher (A : Type 0) : Type 0 where
  pub buffer_size : ℕ
  pub trigger : List A
  pub batch_chan : Option (List A)
  pub running : Bool
  pub batch : List A
  pub idle_timer : Timer
  pub timeout_timer : Timer

module _ {A : Type 0} where
  -- NewBufferedBatcher; NewBatcher is the one with no buffer.
  abbrev pub new_buffered_batcher : ℕ → Batcher A
  new_buffered_batcher size = record {
    buffer_size = size;
    trigger = [];
    batch_chan = none;
    running = false;
    batch = [];
    idle_timer = pending;
    timeout_timer = pending;
  }

  -- Add, while no one waits for an item: the buffer takes it or it is dropped.
  unfoldable pub add : A → Batcher A → Batcher A
  add item b =
      if ltb (length b.trigger) b.buffer_size
      then record b { trigger = b.trigger ++ item ∷ [] }
      else b

  abbrev pub stop_timers_and_init_batch : Batcher A → Batcher A
  stop_timers_and_init_batch b = record b {
    idle_timer = stop_timer b.idle_timer;
    timeout_timer = stop_timer b.timeout_timer;
    batch = [];
  }

  abbrev pub reset : Batcher A → Batcher A
  reset b = record (stop_timers_and_init_batch b) { batch_chan = none }

  -- The beginning of Start; `none` is the error.
  unfoldable pub start : Batcher A → Option (Batcher A)
  start b = if b.running then none else some (reset (record b { running = true }))

  -- The channel of batches holds one: another batch is dropped while it is there.
  unfoldable pub send_batch : Batcher A → Batcher A
  send_batch b = elim b.batch_chan [ none ↦ record b { batch_chan = some b.batch } | some _ ↦ b ]

  -- The cases of the loop of Start: an item, and a timer.
  unfoldable pub on_item : A → Batcher A → Batcher A
  on_item item b = record b {
    timeout_timer =
        if nat_eq (length b.batch) 0 then reset_timer b.timeout_timer else b.timeout_timer;
    batch = b.batch ++ item ∷ [];
    idle_timer = reset_timer b.idle_timer;
  }

  unfoldable pub on_timer : Batcher A → Batcher A
  unfolding send_batch
  on_timer b = stop_timers_and_init_batch (send_batch b)

  -- The case of a context that is done.
  abbrev pub on_done : Batcher A → Batcher A
  on_done b = record b {
    timeout_timer = stop_timer b.timeout_timer;
    idle_timer = stop_timer b.idle_timer;
    running = false;
  }
