-- ===== src/Util/Batcher/Order.antt =====
-- The batcher that runs, with those that add items and that take batches, as a step relation.
use walkai_nos.Base.{
  ◌≡◌, refl, sym, subst, ap, ◌∙◌, ◌⊎◌, inl, inr, false, Option, none, some, List, [], ◌∷◌, ◌++◌, ℕ,
  ◌<◌, length, length-append, nat_eq, ltb, if◌then◌else◌, All, All-append, Bool-cases, arith,
}
use mathlib.Core.List.{append_assoc, append-nil}
use walkai_nos.Util.Batcher.{
  Timer, reset_timer, stopped, pending, fired, Batcher, new_buffered_batcher, add, start,
  send_batch, on_item, on_timer,
}

-- With what no code keeps: the items that the loop has received, and the batches that it has ended.
pub record World (A : Type 0) : Type 0 where
  pub batcher : Batcher A
  pub received : List A
  pub ended : List (List A)

abbrev pub IsRunning : Timer → Type 0
IsRunning stopped = ⊥
IsRunning pending = Unit
IsRunning fired = Unit

IsRunning-fired : (t : Timer) → t ≡ fired → IsRunning t
IsRunning-fired t e = subst IsRunning (sym e) tt

module _ {A : Type 0} where
  abbrev receives : A → World A → World A
  receives item w = record w {
    batcher = on_item item w.batcher;
    received = w.received ++ item ∷ [];
  }

  abbrev ends : World A → World A
  ends w = record w { batcher = on_timer w.batcher; ended = w.ended ++ w.batcher.batch ∷ [] }

  pub data Step : World A → World A → Type 0 where
    adds : (w : World A) (item : A) → Step w (record w { batcher = add item w.batcher })
    -- Without a buffer the loop receives the item from the one that adds it.
    hands_over : (w : World A) (item : A) → w.batcher.buffer_size ≡ 0 → Step w (receives item w)
    takes_item :
        (w : World A) (item : A) (rest : List A)
        → w.batcher.trigger ≡ item ∷ rest
        → Step w (receives item (record w { batcher = record w.batcher { trigger = rest } }))
    idle_runs_out :
        (w : World A)
        → w.batcher.idle_timer ≡ pending
        → Step w (record w { batcher = record w.batcher { idle_timer = fired } })
    timeout_runs_out :
        (w : World A)
        → w.batcher.timeout_timer ≡ pending
        → Step w (record w { batcher = record w.batcher { timeout_timer = fired } })
    idle : (w : World A) → w.batcher.idle_timer ≡ fired → Step w (ends w)
    timeout : (w : World A) → w.batcher.timeout_timer ≡ fired → Step w (ends w)
    -- Someone reads the channel of batches.
    takes_batch :
        (w : World A) (l : List A)
        → w.batcher.batch_chan ≡ some l
        → Step w (record w { batcher = record w.batcher { batch_chan = none } })

  pub data Reachable : World A → Type 0 where
    at_start :
        (size : ℕ) (b : Batcher A)
        → start (new_buffered_batcher size) ≡ some b
        → Reachable (record { batcher = b; received = []; ended = [] })
    by_step : (w v : World A) → Reachable w → Step w v → Reachable v

  abbrev pub concat : List (List A) → List A
  concat [] = []
  concat (l ∷ rest) = l ++ concat rest

  concat-append : (ls ks : List (List A)) → concat (ls ++ ks) ≡ concat ls ++ concat ks
  concat-append [] ks = refl
  concat-append (l ∷ ls) ks =
      ap (λ t. l ++ t) (concat-append ls ks) ∙ sym (append_assoc l (concat ls) (concat ks))

  -- Both timers run while there is a batch, and none while there is no item.
  abbrev pub IsTimed : Batcher A → Type 0
  IsTimed b =
      ((b.batch ≡ []) × (b.idle_timer ≡ stopped) × (b.timeout_timer ≡ stopped))
      ⊎ ((0 < length b.batch) × IsRunning b.idle_timer × IsRunning b.timeout_timer)

  pub record InOrder (w : World A) : Type 0 where
    pub all_items : concat w.ended ++ w.batcher.batch ≡ w.received
    pub timed : IsTimed w.batcher
    pub no_empty_batch : All (λ l. 0 < length l) w.ended

  abbrev StartsInOrder : Option (Batcher A) → Type 0
  StartsInOrder none = Unit
  StartsInOrder (some b) = InOrder (record { batcher = b; received = []; ended = [] })

  timeout-IsRunning :
      (b : Batcher A)
      → IsTimed b
      → IsRunning
          (if nat_eq (length b.batch) 0 then reset_timer b.timeout_timer else b.timeout_timer)
  timeout-IsRunning b timed = elim (Bool-cases (nat_eq (length b.batch) 0)) [
    | inl empty ↦ rw empty tt
    | inr more ↦ rw more (running b timed more)
  ]
    where
      running :
          (b : Batcher A)
          → IsTimed b
          → nat_eq (length b.batch) 0 ≡ false
          → IsRunning b.timeout_timer
      running b (inl none_of_them) e =
          absurd (cc (e, ap (λ (l : List A). nat_eq (length l) 0) none_of_them.0))
      running b (inr both) e = both.2

  not_empty :
      (b : Batcher A)
      → IsTimed b
      → IsRunning b.idle_timer ⊎ IsRunning b.timeout_timer
      → 0 < length b.batch
  not_empty b (inr both) r = both.0
  not_empty b (inl none_of_them) (inl r) = absurd (subst IsRunning none_of_them.1 r)
  not_empty b (inl none_of_them) (inr r) = absurd (subst IsRunning none_of_them.2 r)

  receives-InOrder : (w : World A) (item : A) → InOrder w → InOrder (receives item w)
  unfolding on_item
  receives-InOrder w item h = record {
    all_items =
        sym (append_assoc (concat w.ended) w.batcher.batch (item ∷ []))
        ∙ ap (λ t. t ++ item ∷ []) h.all_items;
    timed = inr (
      omega (arith, length-append w.batcher.batch (item ∷ [])),
      tt,
      timeout-IsRunning w.batcher h.timed,
    );
    no_empty_batch = h.no_empty_batch;
  }

  ends-InOrder :
      (w : World A)
      → IsRunning w.batcher.idle_timer ⊎ IsRunning w.batcher.timeout_timer
      → InOrder w
      → InOrder (ends w)
  unfolding on_timer send_batch
  ends-InOrder w running h = record {
    all_items =
        append-nil (concat (w.ended ++ w.batcher.batch ∷ []))
        ∙ concat-append w.ended (w.batcher.batch ∷ [])
        ∙ ap (λ t. concat w.ended ++ t) (append-nil w.batcher.batch)
        ∙ h.all_items;
    timed = inl (refl, refl, refl);
    no_empty_batch =
        All-append (λ l. 0 < length l) w.ended (w.batcher.batch ∷ []) h.no_empty_batch
          (not_empty w.batcher h.timed running, tt);
  }

  idle_fired-IsTimed :
      (b : Batcher A)
      → b.idle_timer ≡ pending
      → IsTimed b
      → IsTimed (record b { idle_timer = fired })
  idle_fired-IsTimed b e (inl none_of_them) = absurd (cc (e, none_of_them.1))
  idle_fired-IsTimed b e (inr both) = inr (both.0, tt, both.2)

  timeout_fired-IsTimed :
      (b : Batcher A)
      → b.timeout_timer ≡ pending
      → IsTimed b
      → IsTimed (record b { timeout_timer = fired })
  timeout_fired-IsTimed b e (inl none_of_them) = absurd (cc (e, none_of_them.2))
  timeout_fired-IsTimed b e (inr both) = inr (both.0, both.1, tt)

  added-InOrder :
      (w : World A) (item : A) → InOrder w → InOrder (record w { batcher = add item w.batcher })
  unfolding add
  added-InOrder w item h =
      elim (Bool-cases (ltb (length w.batcher.trigger) w.batcher.buffer_size)) [
        | inl room ↦
            rw room (record {
              all_items = h.all_items;
              timed = h.timed;
              no_empty_batch = h.no_empty_batch;
            })
        | inr full ↦ rw full h
      ]

  step-InOrder : (w v : World A) → InOrder w → Step w v → InOrder v
  step-InOrder w _ h (adds _ item) = added-InOrder w item h
  step-InOrder w _ h (hands_over _ item _) = receives-InOrder w item h
  step-InOrder w _ h (takes_item _ item rest _) =
      receives-InOrder (record w { batcher = record w.batcher { trigger = rest } }) item
        (record { all_items = h.all_items; timed = h.timed; no_empty_batch = h.no_empty_batch })
  step-InOrder w _ h (idle_runs_out _ e) = record {
    all_items = h.all_items;
    timed = idle_fired-IsTimed w.batcher e h.timed;
    no_empty_batch = h.no_empty_batch;
  }
  step-InOrder w _ h (timeout_runs_out _ e) = record {
    all_items = h.all_items;
    timed = timeout_fired-IsTimed w.batcher e h.timed;
    no_empty_batch = h.no_empty_batch;
  }
  step-InOrder w _ h (idle _ e) = ends-InOrder w (inl (IsRunning-fired w.batcher.idle_timer e)) h
  step-InOrder w _ h (timeout _ e) =
      ends-InOrder w (inr (IsRunning-fired w.batcher.timeout_timer e)) h
  step-InOrder w _ h (takes_batch _ l _) = record {
    all_items = h.all_items;
    timed = h.timed;
    no_empty_batch = h.no_empty_batch;
  }

  -- However items are added, timers run out and batches are taken, behind Start: the batches that the
  -- loop has ended and the batch that it collects are, one after another, the items that it has
  -- received; no batch that it has ended is empty; and both timers run just while there is a batch.
  pub Reachable-InOrder : (w : World A) → Reachable w → InOrder w
  unfolding start
  Reachable-InOrder _ (at_start size b e) =
      let begun : StartsInOrder (start (new_buffered_batcher {A = A} size)) = record {
        all_items = refl;
        timed = inl (refl, refl, refl);
        no_empty_batch = tt;
      } in
      subst StartsInOrder e begun
  Reachable-InOrder _ (by_step w v r step) = step-InOrder w v (Reachable-InOrder w r) step
