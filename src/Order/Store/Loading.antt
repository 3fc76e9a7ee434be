-- ===== src/Order/Store/Loading.antt =====
-- Loading after saving, on a database that answers and that nobody else uses.
use mathlib.Core.List.{append_assoc, append-nil}
use mathlib.Core.Path.{ap₂}
use event_driven_order_fulfi.Common.{
  ℕ, suc, ◌+◌, ◌≡◌, refl, sym, ap, ◌∙◌, true, false, List, [], ◌∷◌, ◌++◌, All, arith, length,
  length-append, ok,
}
use event_driven_order_fulfi.Common.Session.{Session, quiet, write, begin, commit, rolled_back}
use event_driven_order_fulfi.Platform.{Platform}
use event_driven_order_fulfi.Order.Values.{OrderId}
use event_driven_order_fulfi.Order.Aggregate.{DomainEvent}
use event_driven_order_fulfi.Order.Codec.RoundTrip.{IsValidEvent}
use event_driven_order_fulfi.Order.Store.{
  EventRow, Db, OutboxMessage, OutboxRow, rows_of, insert_event, insert_outbox, event_row,
  aggregate_id, insert_events, insert_messages, save_changes,
}
use event_driven_order_fulfi.Order.Store.Queries.{
  history_rows, history_rows-append, AreOf, rows_of-append, rows_of-history, next_is_free,
}

-- A transaction on a quiet database: `c` is committed, and the transaction sees `d`.
abbrev pub inside : Db → Db → Session Db
inside c d = record { committed = c; view = d; turns = [] }

module _ ⦃p : Platform⦄ where
  -- The database holds exactly the history `h` for the order `i`.
  pub record Stores (d : Db) (i : OrderId) (h : List DomainEvent) : Type 0 where
    pub rows : rows_of i d.events ≡ history_rows 0 h
    pub own : AreOf i h
    pub valid : All IsValidEvent h

  insert_event_free :
      (i : OrderId) (h : List DomainEvent) (v : ℕ) (e : DomainEvent) (d : Db)
      → length h ≡ v
      → rows_of i d.events ≡ history_rows 0 h
      → aggregate_id e ≡ i
      → insert_event (event_row (v + 1) e) d
        ≡ (true, record d { events = d.events ++ event_row (v + 1) e ∷ [] })
  unfolding insert_event event_row
  insert_event_free i h v e d n r o = rw (o, ← n, next_is_free i d.events h r)

  pub rows_of-snoc :
      (i : OrderId) (h : List DomainEvent) (v : ℕ) (es : List DomainEvent) (rows : List EventRow)
      → length h ≡ v
      → rows_of i rows ≡ history_rows 0 h
      → AreOf i es
      → rows_of i (rows ++ history_rows v es) ≡ history_rows 0 (h ++ es)
  rows_of-snoc i h v es rows n r o =
      rows_of-append i rows (history_rows v es)
      ∙ ap₂ (λ a b. a ++ b) r (rows_of-history i v es o ∙ ap (λ w. history_rows w es) (omega arith))
      ∙ sym (history_rows-append 0 h es)

  pub insert_events_quiet :
      (i : OrderId) (h : List DomainEvent) (v : ℕ) (es : List DomainEvent) (c d : Db)
      → length h ≡ v
      → rows_of i d.events ≡ history_rows 0 h
      → AreOf i es
      → insert_events v es (inside c d)
        ≡ (ok tt, inside c (record d { events = d.events ++ history_rows v es }))
  unfolding insert_events write
  insert_events_quiet i h v [] c d n r o =
      ap (λ rs. (ok tt, inside c (record d { events = rs }))) (sym (append-nil d.events))
  insert_events_quiet i h v (e ∷ es) c d n r (o, os) = rw (insert_event_free i h v e d n r o) (
      insert_events_quiet i (h ++ e ∷ []) (v + 1) es c
        (record d { events = d.events ++ event_row (v + 1) e ∷ [] })
        (omega (arith, length-append h (e ∷ []))) (rows_of-snoc i h v (e ∷ []) d.events n r (o, tt))
        os
      ∙ ap (λ rs. (ok tt, inside c (record d { events = rs })))
          (append_assoc d.events (event_row (v + 1) e ∷ []) (history_rows (v + 1) es)))

  -- The outbox rows of some messages, numbered from `n`.
  abbrev pub outbox_rows : ℕ → List OutboxMessage → List OutboxRow
  outbox_rows n [] = []
  outbox_rows n (m ∷ ms) =
      record { id = n; message = m; published = false } ∷ outbox_rows (suc n) ms

  abbrev pub with_messages : List OutboxMessage → Db → Db
  with_messages [] d = d
  with_messages (m ∷ ms) d = with_messages ms (insert_outbox m d).1

  pub insert_messages_quiet :
      (ms : List OutboxMessage) (c d : Db)
      → insert_messages ms (inside c d) ≡ (ok tt, inside c (with_messages ms d))
  unfolding insert_messages write
  insert_messages_quiet [] c d = refl
  insert_messages_quiet (m ∷ ms) c d = insert_messages_quiet ms c (insert_outbox m d).1

  pub with_messages-events :
      (ms : List OutboxMessage) (d : Db) → (with_messages ms d).events ≡ d.events
  unfolding insert_outbox
  with_messages-events [] d = refl
  with_messages-events (m ∷ ms) d = with_messages-events ms (insert_outbox m d).1

  pub with_messages-outbox :
      (ms : List OutboxMessage) (d : Db)
      → (with_messages ms d).outbox ≡ d.outbox ++ outbox_rows d.next_id ms
  unfolding insert_outbox
  with_messages-outbox [] d = sym (append-nil d.outbox)
  with_messages-outbox (m ∷ ms) d =
      with_messages-outbox ms (insert_outbox m d).1 ∙ append_assoc d.outbox _ _

  -- What `Save` leaves: the new events behind the old ones, and the messages in the outbox.
  abbrev pub saved : ℕ → List DomainEvent → List OutboxMessage → Db → Db
  saved v es ms d = with_messages ms (record d { events = d.events ++ history_rows v es })

  pub save_changes-quiet :
      (i : OrderId) (h : List DomainEvent) (v : ℕ) (e : DomainEvent) (es : List DomainEvent)
      (ms : List OutboxMessage) (d : Db)
      → length h ≡ v
      → rows_of i d.events ≡ history_rows 0 h
      → AreOf i (e ∷ es)
      → save_changes (e ∷ es) v ms (quiet d) ≡ (ok tt, quiet (saved v (e ∷ es) ms d))
  unfolding save_changes rolled_back begin commit
  save_changes-quiet i h v e es ms d n r o =
      rw (insert_events_quiet i h v (e ∷ es) d d n r o) (
        rw (insert_messages_quiet ms d (record d { events = d.events ++ history_rows v (e ∷ es) })))
