-- ===== src/Util/BatcherExamples.antt =====
-- A run of the batcher: two items, a batch, and a second batch that is dropped.
use walkai_nos.Base.{◌≡◌, refl, true, none, some, [], ◌∷◌, ℕ}
use walkai_nos.Util.Batcher.{stopped, pending, Batcher, add, start, send_batch, on_item, on_timer}
use walkai_nos.Util.Batcher.Order.{
  World, Reachable, at_start, by_step, adds, takes_item, InOrder, Reachable-InOrder,
}

abbrev started : Batcher ℕ
started = record {
  buffer_size = 2;
  trigger = [];
  batch_chan = none;
  running = true;
  batch = [];
  idle_timer = stopped;
  timeout_timer = stopped;
}

abbrev at_first : World ℕ
at_first = record { batcher = started; received = []; ended = [] }

abbrev with_item : World ℕ
with_item = record at_first { batcher = record started { trigger = 7 ∷ [] } }

abbrev collecting : World ℕ
collecting = record {
  batcher = record started { batch = 7 ∷ []; idle_timer = pending; timeout_timer = pending };
  received = 7 ∷ [];
  ended = [];
}

collecting-Reachable : Reachable collecting
unfolding start add on_item
collecting-Reachable =
    by_step with_item collecting
      (by_step at_first with_item (at_start 2 started refl) (adds at_first 7))
      (takes_item with_item 7 [] refl)

Reachable-InOrder_example : InOrder collecting
Reachable-InOrder_example = Reachable-InOrder collecting collecting-Reachable

-- The batch that no one has read stays, and the next one is lost.
second_dropped :
    on_timer (record started { batch = 8 ∷ []; batch_chan = some (7 ∷ []) })
    ≡ record started { batch_chan = some (7 ∷ []) }
unfolding on_timer send_batch
second_dropped = refl
