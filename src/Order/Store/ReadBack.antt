-- ===== src/Order/Store/ReadBack.antt =====
-- The contract of the event store, on a database that answers and that nobody else uses: what is
-- saved is loaded again, and a save at an old version is refused.
use event_driven_order_fulfi.Common.{
  false, ℕ, ◌+◌, ◌<◌, ◌≡◌, ◌≢◌, refl, ap, ◌∙◌, List, [], ◌∷◌, ◌++◌, All, All-append, arith, length,
  ok, err,
}
use event_driven_order_fulfi.Common.Session.{quiet, write, begin, read, rolled_back}
use event_driven_order_fulfi.Platform.{Platform}
use event_driven_order_fulfi.Order.Values.{concurrency, OrderId}
use event_driven_order_fulfi.Order.Aggregate.{
  DomainEvent, Order, new_order, replay, rehydrate, mark_changes_committed,
}
use event_driven_order_fulfi.Order.Aggregate.History.{Holds, Holds-IsSourced}
use event_driven_order_fulfi.Order.Codec.RoundTrip.{IsValidEvent}
use event_driven_order_fulfi.Order.Store.{
  Db, OutboxMessage, rows_of, insert_event, event_row, aggregate_id, fold_rows, load, insert_events,
  save_changes, save,
}
use event_driven_order_fulfi.Order.Store.Queries.{
  AreOf, by_version-history, old_is_taken, decode_rows-history,
}
use event_driven_order_fulfi.Order.Store.Loading.{
  Stores, saved, save_changes-quiet, rows_of-snoc, with_messages-events,
}

module _ ⦃p : Platform⦄ where
  pub load-quiet :
      (d : Db) (i : OrderId) (h : List DomainEvent)
      → Stores d i h
      → load i (quiet d) ≡ (rehydrate h, quiet d)
  unfolding load read fold_rows
  load-quiet d i h s = rw (s.rows, by_version-history 0 h, decode_rows-history 0 h s.valid)

  pub saved-Stores :
      (d : Db) (i : OrderId) (h es : List DomainEvent) (v : ℕ) (ms : List OutboxMessage)
      → length h ≡ v
      → Stores d i h
      → AreOf i es
      → All IsValidEvent es
      → Stores (saved v es ms d) i (h ++ es)
  saved-Stores d i h es v ms n s o w = record {
    rows = ap (rows_of i) (with_messages-events ms _) ∙ rows_of-snoc i h v es d.events n s.rows o;
    own = All-append (λ e. aggregate_id e ≡ i) h es s.own o;
    valid = All-append IsValidEvent h es s.valid w;
  }

  pub rehydrate_nonempty :
      (h es : List DomainEvent) (e : DomainEvent)
      → rehydrate (h ++ e ∷ es) ≡ ok (replay new_order (h ++ e ∷ es))
  unfolding rehydrate
  rehydrate_nonempty [] es e = refl
  rehydrate_nonempty (f ∷ h) es e = refl

  save_then_load_changes :
      (d : Db) (i : OrderId) (h es : List DomainEvent) (v : ℕ) (ms : List OutboxMessage)
      → es ≢ []
      → length h ≡ v
      → Stores d i h
      → AreOf i es
      → All IsValidEvent es
      → (save_changes es v ms (quiet d) ≡ (ok tt, quiet (saved v es ms d)))
        × (load i (quiet (saved v es ms d))
            ≡ (ok (replay new_order (h ++ es)), quiet (saved v es ms d)))
  save_then_load_changes d i h [] v ms ne n s o w = absurd (ne refl)
  save_then_load_changes d i h (e ∷ es) v ms ne n s o w = (
    save_changes-quiet i h v e es ms d n s.rows o,
    load-quiet _ i (h ++ e ∷ es) (saved-Stores d i h (e ∷ es) v ms n s o w)
        ∙ ap (λ r. (r, quiet (saved v (e ∷ es) ms d))) (rehydrate_nonempty h es e),
  )

  -- Let the program hold an order with staged events, over a history that the database stores for
  -- it, and let the staged events be valid and of this order. On a database that answers and that
  -- nobody else uses, saving it at the version of that history succeeds, and loading it then gives
  -- the order in memory, its staged events cleared.
  pub save_then_load :
      (d : Db) (o : Order) (h : List DomainEvent) (ms : List OutboxMessage)
      → Holds h o
      → o.changes ≢ []
      → Stores d o.id h
      → AreOf o.id o.changes
      → All IsValidEvent o.changes
      → ((save o (length h) ms (quiet d)).0 ≡ ok tt)
        × ((load o.id (save o (length h) ms (quiet d)).1).0 ≡ ok (mark_changes_committed o))
  unfolding save
  save_then_load d o h ms k ne s own w =
      let (done, loaded) =
        save_then_load_changes d o.id h o.changes (length h) ms ne refl s own w in
      (
        ap (λ r. r.0) done,
        ap (λ r. (load o.id r.1).0) done ∙ ap (λ r. r.0) loaded ∙ ap ok (Holds-IsSourced k),
      )

  insert_event_taken :
      (d : Db) (i : OrderId) (h : List DomainEvent) (e : DomainEvent) (v : ℕ)
      → Stores d i h
      → aggregate_id e ≡ i
      → v < length h
      → insert_event (event_row (v + 1) e) d ≡ (false, d)
  unfolding insert_event event_row
  insert_event_taken d i h e v s o lt =
      rw (o, old_is_taken i (v + 1) d.events h s.rows s.own (omega arith) (omega arith))

  refused :
      (d : Db) (i : OrderId) (h es : List DomainEvent) (v : ℕ) (ms : List OutboxMessage)
      → Stores d i h
      → es ≢ []
      → AreOf i es
      → v < length h
      → save_changes es v ms (quiet d) ≡ (err concurrency, quiet d)
  unfolding save_changes rolled_back begin insert_events write
  refused d i h [] v ms s ne own lt = absurd (ne refl)
  refused d i h (e ∷ es) v ms s ne (o, _) lt = rw (insert_event_taken d i h e v s o lt)

  -- On a database that answers and that nobody else uses, saving an order with staged events of
  -- its own at a version below that of its stored history is refused as a version conflict, and
  -- changes nothing.
  pub stale_save_refused :
      (d : Db) (i : OrderId) (o : Order) (h : List DomainEvent) (v : ℕ) (ms : List OutboxMessage)
      → Stores d i h
      → o.changes ≢ []
      → AreOf i o.changes
      → v < length h
      → save o v ms (quiet d) ≡ (err concurrency, quiet d)
  unfolding save
  stale_save_refused d i o h v ms s ne own lt = refused d i h o.changes v ms s ne own lt
