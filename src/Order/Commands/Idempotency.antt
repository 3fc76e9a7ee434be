-- ===== src/Order/Commands/Idempotency.antt =====
-- Retried submissions, on a database that answers and that nobody else uses.
use event_driven_order_fulfi.Common.{
  ℕ, ◌+◌, ◌≡◌, refl, ap, ◌∙◌, true, false, none, some, List, [], ◌∷◌, ◌++◌, Outcome, ok, err,
  Bool-cases, inl, inr,
}
use event_driven_order_fulfi.Common.Text.{text_key}
use event_driven_order_fulfi.Common.Table.{lookup, has, put, lookup-put_self}
use event_driven_order_fulfi.Common.Session.{
  Session, quiet, write, begin, commit, read, exec, rolled_back,
}
use event_driven_order_fulfi.Platform.{Platform, Text, Time}
use event_driven_order_fulfi.Order.Values.{
  Error, not_found, OrderId, CustomerId, LineItem, Address, pending, new_idempotency_key,
  parse_customer_id, new_address,
}
use event_driven_order_fulfi.Order.Aggregate.{DomainEvent, Order, place_order, rehydrate}
use event_driven_order_fulfi.Order.Store.{
  Db, OutboxMessage, rows_of, by_version, is_taken, insert_event, insert_outbox, event_row,
  fold_rows, load, insert_events, save_changes, save,
}
use event_driven_order_fulfi.Order.Store.Loading.{inside, with_messages, insert_messages_quiet}
use event_driven_order_fulfi.Order.Commands.{
  PlaceOrderCommand, build_line_items, handle_place, reserve, persist_placed, to_outbox,
}

-- A piece of a transaction ends without other sessions, and has not touched the keys.
abbrev pub KeepsKeys : {A : Type 0} → Db → Db → Outcome Error A × Session Db → Type 0
KeepsKeys {A} c d m =
    (r : Outcome Error A) × (d' : Db) × (m ≡ (r, inside c d')) × (d'.keys ≡ d.keys)

module _ ⦃p : Platform⦄ where
  insert_events-keys :
      (v : ℕ) (es : List DomainEvent) (c d : Db) → KeepsKeys c d (insert_events v es (inside c d))
  unfolding insert_events write insert_event
  insert_events-keys v [] c d = (_, d, refl, refl)
  insert_events-keys v (e ∷ es) c d =
      elim (Bool-cases
        (is_taken (event_row (v + 1) e).order_id (event_row (v + 1) e).version d.events)) [
          | inl taken ↦ rw taken (_, d, refl, refl)
          | inr free ↦ rw free (
              insert_events-keys (v + 1) es c
                (record d { events = d.events ++ event_row (v + 1) e ∷ [] }))
        ]

  with_messages-keys : (ms : List OutboxMessage) (d : Db) → (with_messages ms d).keys ≡ d.keys
  unfolding insert_outbox
  with_messages-keys [] d = refl
  with_messages-keys (m ∷ ms) d = with_messages-keys ms (insert_outbox m d).1

  save_events-keys :
      (e : DomainEvent) (es : List DomainEvent) (v : ℕ) (ms : List OutboxMessage) (d : Db)
      → KeepsKeys d d (insert_events v (e ∷ es) (inside d d))
      → (r : Outcome Error (Unit {0})) × (d' : Db) × (save_changes (e ∷ es) v ms (quiet d)
          ≡ (r, quiet d'))
        × (d'.keys ≡ d.keys)
  unfolding save_changes rolled_back begin commit
  save_events-keys e es v ms d (err x, d₁, q, k) = (err x, d, rw q, refl)
  save_events-keys e es v ms d (ok u, d₁, q, k) = (
    ok tt,
    with_messages ms d₁,
    rw (q, insert_messages_quiet ms d d₁),
    with_messages-keys ms d₁ ∙ k,
  )

  -- Saving does not touch the keys, whether it succeeds or fails.
  save_changes-keys :
      (es : List DomainEvent) (v : ℕ) (ms : List OutboxMessage) (d : Db)
      → (r : Outcome Error (Unit {0})) × (d' : Db) × (save_changes es v ms (quiet d)
          ≡ (r, quiet d'))
        × (d'.keys ≡ d.keys)
  unfolding save_changes
  save_changes-keys [] v ms d = (ok tt, d, refl, refl)
  save_changes-keys (e ∷ es) v ms d =
      save_events-keys e es v ms d (insert_events-keys v (e ∷ es) d d)

  saved_order-keys :
      (o : Order) (d : Db)
      → ((r : Outcome Error (Unit {0})) × (d' : Db) × (save o 0 (to_outbox o.changes) (quiet d)
            ≡ (r, quiet d'))
          × (d'.keys ≡ d.keys))
      → (d' : Db) × ((persist_placed (ok o) (quiet d)).1 ≡ quiet d') × (d'.keys ≡ d.keys)
  unfolding persist_placed
  saved_order-keys o d (ok u, d', e, k) = (d', rw e, k)
  saved_order-keys o d (err x, d', e, k) = (d', rw e, k)

  persist_placed-keys :
      (placement : Outcome Error Order) (d : Db)
      → (d' : Db) × ((persist_placed placement (quiet d)).1 ≡ quiet d') × (d'.keys ≡ d.keys)
  unfolding persist_placed save
  persist_placed-keys (err x) d = (d, refl, refl)
  persist_placed-keys (ok o) d =
      saved_order-keys o d (save_changes-keys o.changes 0 (to_outbox o.changes) d)

  -- The values of a submission that pass the checks before the key is reserved.
  pub record IsWellFormed (cmd : PlaceOrderCommand) : Type 0 where
    pub key : Text
    pub key_eq : new_idempotency_key cmd.idempotency_key ≡ ok key
    pub customer : CustomerId
    pub customer_eq : parse_customer_id cmd.customer_id ≡ ok customer
    pub items : List LineItem
    pub items_eq : build_line_items cmd.lines ≡ ok items
    pub ship_to : Address
    pub ship_to_eq :
        new_address cmd.ship.line1 cmd.ship.line2 cmd.ship.city cmd.ship.region cmd.ship.postal_code
          cmd.ship.country
        ≡ ok ship_to

  reserve_free :
      (key : Text) (i : OrderId) (d : Db)
      → has key d.keys ≡ false
      → reserve key i (quiet d) ≡ (ok none, quiet (record d { keys = put key i d.keys }))
  unfolding reserve exec
  reserve_free key i d h = rw h

  reserve_taken :
      (key : Text) (i old : OrderId) (d : Db)
      → lookup key d.keys ≡ some old
      → reserve key i (quiet d) ≡ (ok (some old), quiet d)
  unfolding reserve exec read has
  reserve_taken key i old d h = rw (h, h)

  first_attempt :
      (fresh : OrderId) (now : Time) (cmd : PlaceOrderCommand) (w : IsWellFormed cmd) (d : Db)
      → has w.key d.keys ≡ false
      → handle_place fresh now cmd (quiet d)
        ≡ persist_placed
            (place_order fresh w.customer w.items w.ship_to now)
            (quiet (record d { keys = put w.key fresh d.keys }))
  unfolding handle_place
  first_attempt fresh now cmd w d h =
      rw (w.key_eq, w.customer_eq, w.items_eq, w.ship_to_eq, reserve_free w.key fresh d h)

  replay_attempt :
      (fresh old : OrderId) (now : Time) (cmd : PlaceOrderCommand) (w : IsWellFormed cmd) (d : Db)
      → lookup w.key d.keys ≡ some old
      → handle_place fresh now cmd (quiet d) ≡ (
        ok (record { order_id = p.uuid_string old; status = pending; idempotent = true }),
        quiet d,
      )
  unfolding handle_place
  replay_attempt fresh old now cmd w d h =
      rw (w.key_eq, w.customer_eq, w.items_eq, w.ship_to_eq, reserve_taken w.key fresh old d h)

  -- Let two well-formed submissions carry one idempotency key that no order holds yet, on a
  -- database that answers and that nobody else uses. Whether the first one succeeds or fails, the
  -- second reports the order id of the first, marked as a replay, and changes nothing.
  pub retry_reports_first :
      (i j : OrderId) (t u : Time) (first second : PlaceOrderCommand) (w : IsWellFormed first)
      (v : IsWellFormed second) (d : Db)
      → v.key ≡ w.key
      → has w.key d.keys ≡ false
      → let s = (handle_place i t first (quiet d)).1 in
        handle_place j u second s
        ≡ (ok (record { order_id = p.uuid_string i; status = pending; idempotent = true }), s)
  retry_reports_first i j t u first second w v d same free =
      let (d', e, k) =
        persist_placed-keys (place_order i w.customer w.items w.ship_to t)
          (record d { keys = put w.key i d.keys }) in
      let left : (handle_place i t first (quiet d)).1 ≡ quiet d' =
        ap (λ r. r.1) (first_attempt i t first w d free) ∙ e in
      let held : lookup v.key d'.keys ≡ some i = rw (same, k) (lookup-put_self w.key i d.keys) in
      rw left (replay_attempt j i u second v d' held)

  load_missing :
      (i : OrderId) (d : Db) → rows_of i d.events ≡ [] → load i (quiet d) ≡ (err not_found, quiet d)
  unfolding load read fold_rows rehydrate by_version
  load_missing i d h = rw h

  -- On a database that answers and that nobody else uses, let a well-formed submission carry a key
  -- that no order holds yet, and let `PlaceOrder` refuse its lines. It fails, but holds its key by
  -- then: a second well-formed submission under that key is answered with success and with the id
  -- of the first order, for which, as none was stored before, no order exists.
  pub retry_of_refused :
      (i j : OrderId) (t u : Time) (first second : PlaceOrderCommand) (w : IsWellFormed first)
      (v : IsWellFormed second) (d : Db) {x : Error}
      → v.key ≡ w.key
      → has w.key d.keys ≡ false
      → rows_of i d.events ≡ []
      → place_order i w.customer w.items w.ship_to t ≡ err x
      → let (r, s) = handle_place i t first (quiet d) in
        let (r', s') = handle_place j u second s in
        (r ≡ err x)
        × (r' ≡ ok (record { order_id = p.uuid_string i; status = pending; idempotent = true }))
        × ((load i s').0 ≡ err not_found)
  unfolding persist_placed
  retry_of_refused i j t u first second w v d {x} same free none_stored no_order =
      let d₁ : Db = record d { keys = put w.key i d.keys } in
      let once : handle_place i t first (quiet d) ≡ (err x, quiet d₁) =
        first_attempt i t first w d free ∙ rw no_order in
      let held : lookup v.key d₁.keys ≡ some i = rw same (lookup-put_self w.key i d.keys) in
      rw once (
        rw (replay_attempt j i u second v d₁ held)
          (refl, refl, ap (λ r. r.0) (load_missing i d₁ none_stored)))
