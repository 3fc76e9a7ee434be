-- ===== src/Order/Store/Saving.antt =====
-- Saving an order is atomic: its events and its outbox messages are committed together or not at
-- all, whatever the database answers and whatever other sessions do meanwhile.
use event_driven_order_fulfi.Common.{ℕ, ◌+◌, List, [], ◌∷◌}
use event_driven_order_fulfi.Common.Session.{Session}
use event_driven_order_fulfi.Common.Session.Drift.{
  Drift, Tentative, Tentative-pure, Tentative-bind, Tentative-if, Tentative-raise, Tentative-write,
  Tentative-begin,
}
use event_driven_order_fulfi.Common.Session.Atomic.{
  Answered, Atomic, Atomic-Tentative, Atomic-rolled_back, Atomic-bind, Atomic-commit, Failed,
}
use event_driven_order_fulfi.Platform.{Platform}
use event_driven_order_fulfi.Order.Values.{storage, concurrency}
use event_driven_order_fulfi.Order.Aggregate.{Order, DomainEvent}
use event_driven_order_fulfi.Order.Store.{
  Db, OutboxMessage, insert_event, insert_outbox, event_row, insert_events, insert_messages,
  save_changes, save,
}

insert_messages-Tentative :
    ⦃p : Platform⦄ (ms : List OutboxMessage) → Tentative (insert_messages ms)
unfolding insert_messages
insert_messages-Tentative [] = Tentative-pure tt
insert_messages-Tentative (m ∷ rest) =
    Tentative-bind _ _ (Tentative-write storage (insert_outbox m))
      (λ _. insert_messages-Tentative rest)

module _ ⦃p : Platform⦄ where
  insert_events-Tentative : (v : ℕ) (es : List DomainEvent) → Tentative (insert_events v es)
  unfolding insert_events
  insert_events-Tentative v [] = Tentative-pure tt
  insert_events-Tentative v (e ∷ es) =
      Tentative-bind _ _ (Tentative-write storage (insert_event (event_row (v + 1) e)))
        λ b. Tentative-if b _ _ (insert_events-Tentative (v + 1) es) (Tentative-raise concurrency)

  save_changes-Atomic :
      (es : List DomainEvent) (v : ℕ) (ms : List OutboxMessage)
      → Atomic Failed (save_changes es v ms)
  unfolding save_changes
  save_changes-Atomic [] v ms = Atomic-Tentative (Tentative-pure tt)
  save_changes-Atomic (e ∷ es) v ms = Atomic-rolled_back (
      Atomic-bind _ _ (Tentative-begin storage) (λ _.
        Atomic-bind _ _ (insert_events-Tentative v (e ∷ es)) (λ _.
          Atomic-bind _ _ (insert_messages-Tentative ms) (λ _. Atomic-commit storage tt (λ h. h)))))

  -- If `Save` returns an error, be it a version conflict or a failed statement, then what is
  -- committed afterwards is what other sessions have made of the database: no event and no outbox
  -- message of the order is left behind. It is assumed that every statement gets its reply.
  pub save_atomic :
      (agg : Order) (expected : ℕ) (outbox : List OutboxMessage) (s : Session Db)
      → Answered s.turns
      → Failed (save agg expected outbox s).0
      → Drift s (save agg expected outbox s).1
  unfolding save
  save_atomic agg v ms s n h = (save_changes-Atomic agg.changes v ms).undone s n h
