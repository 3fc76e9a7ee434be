-- ===== src/Order/Commands/Decisions.antt =====
-- Confirming and cancelling stored orders, on a database that answers and that nobody else uses.
use event_driven_order_fulfi.Common.{
  ℕ, suc, ◌+◌, ◌-◌, ◌≡◌, refl, ap, ◌∙◌, List, [], ◌∷◌, ◌++◌, length, arith, ok, err, false,
}
use event_driven_order_fulfi.Common.Session.{quiet}
use event_driven_order_fulfi.Common.Json.{str, obj, field, end}
use event_driven_order_fulfi.Common.Text.{txt}
use event_driven_order_fulfi.Contracts.{order_confirmed, order_cancelled}
use event_driven_order_fulfi.Contracts.OrderEvents.{
  marshal_order_confirmed, marshal_order_cancelled,
}
use event_driven_order_fulfi.Platform.{Platform, Text, Time}
use event_driven_order_fulfi.Order.Values.{
  invalid_transition, OrderId, Status, pending, confirmed, cancelled, parse_order_id,
}
use event_driven_order_fulfi.Order.Aggregate.{
  DomainEvent, placed, confirmed_at, cancelled_at, Order, new_order, apply, raise, replay,
  rehydrate, confirm, confirm_from, cancel, cancel_from,
}
use event_driven_order_fulfi.Order.Aggregate.History.{replay-changes, raise_changes, replay-append}
use event_driven_order_fulfi.Order.Codec.RoundTrip.{IsValidEvent}
use event_driven_order_fulfi.Order.Store.{Db, OutboxMessage, save, save_changes, aggregate_id}
use event_driven_order_fulfi.Order.Store.Loading.{
  Stores, saved, save_changes-quiet, outbox_rows, with_messages-outbox,
}
use event_driven_order_fulfi.Order.Store.ReadBack.{load-quiet, saved-Stores, rehydrate_nonempty}
use event_driven_order_fulfi.Order.Store.Queries.{history_rows}
use event_driven_order_fulfi.Order.Commands.{
  handle_confirm, handle_cancel, persist_staged, lifecycle_outbox,
}

apply-version : (e : DomainEvent) (o : Order) → (apply e o).version ≡ o.version
unfolding apply
apply-version (placed ev) o = refl
apply-version (confirmed_at i t) o = refl
apply-version (cancelled_at i r t) o = refl

replay-version : (o : Order) (h : List DomainEvent) → (replay o h).version ≡ o.version + length h
unfolding replay
replay-version o [] = omega arith
replay-version o (e ∷ h) = omega (
  arith,
  replay-version (record (apply e o) { version = suc (apply e o).version }) h,
  apply-version e o,
)

raise-version : (e : DomainEvent) (o : Order) → (raise e o).version ≡ suc o.version
unfolding raise
raise-version e o = ap suc (apply-version e o)

loaded_facts :
    (h : List DomainEvent) (o : Order)
    → rehydrate h ≡ ok o
    → (o.changes ≡ []) × (o.version ≡ length h) × (replay new_order h ≡ o)
unfolding rehydrate
loaded_facts [] o e = cc
loaded_facts (x ∷ h) o e =
    let loaded : replay new_order (x ∷ h) ≡ o = cc in
    (
      rw (← loaded) (replay-changes new_order (x ∷ h)),
      rw (← loaded) (omega (arith, replay-version new_order (x ∷ h))),
      loaded,
    )

module _ ⦃p : Platform⦄ where
  persist_eq :
      (cs : List DomainEvent) (agg : Order) (e : DomainEvent) (n : ℕ)
      → cs ≡ e ∷ []
      → agg.changes ≡ e ∷ []
      → agg.version ≡ suc n
      → persist_staged cs agg ≡ save_changes (e ∷ []) n (lifecycle_outbox (e ∷ []))
  unfolding persist_staged save
  persist_eq cs agg e n c k v =
      rw (c, persist_staged, k, v)
        (ap (λ m. save_changes (e ∷ []) m (lifecycle_outbox (e ∷ [])))
          (let it : suc n - 1 ≡ n = omega arith in it))

  raised :
      (o : Order) (h : List DomainEvent) (e : DomainEvent)
      → rehydrate h ≡ ok o
      → ((raise e o).changes ≡ e ∷ []) × ((raise e o).version ≡ suc (length h))
  raised o h e l =
      let (clean, counted, _) = loaded_facts h o l in
      (raise_changes e o ∙ rw clean, raise-version e o ∙ ap suc counted)

  -- Deciding a loaded pending order by the event `e` stores that event and queues its message.
  persist_one :
      (d : Db) (i : OrderId) (h : List DomainEvent) (e : DomainEvent) (o : Order)
      → Stores d i h
      → rehydrate h ≡ ok o
      → aggregate_id e ≡ i
      → persist_staged (raise e o).changes (raise e o) (quiet d)
        ≡ (ok tt, quiet (saved (length h) (e ∷ []) (lifecycle_outbox (e ∷ [])) d))
  persist_one d i h e o s l a =
      let (c, v) = raised o h e l in
      ap (λ m. m (quiet d)) (persist_eq (raise e o).changes (raise e o) e (length h) c c v)
      ∙ save_changes-quiet i h (length h) e [] (lifecycle_outbox (e ∷ [])) d refl s.rows (a, tt)

  -- The messages on the wire, written out.
  abbrev pub confirmation_message : OrderId → Time → OutboxMessage
  confirmation_message i t = record {
    aggregate_id = i;
    event_type = order_confirmed;
    payload = obj (
        field (txt "orderId") (str (p.uuid_string i))
          (field (txt "confirmedAt") (str (p.format_millis t)) end));
  }

  abbrev pub cancellation_message : OrderId → Text → Time → OutboxMessage
  cancellation_message i r t = record {
    aggregate_id = i;
    event_type = order_cancelled;
    payload = obj (
        field (txt "orderId") (str (p.uuid_string i))
          (field (txt "reason") (str r) (field (txt "cancelledAt") (str (p.format_millis t)) end)));
  }

  -- What is stored once the order `i` is decided by the event `e`: the event at the end of the
  -- history, and one unpublished row with the message `m` at the end of the outbox; the order loads
  -- with the new status.
  pub record Decided (d d' : Db) (i : OrderId) (h : List DomainEvent) (e : DomainEvent)
      (m : OutboxMessage) (st : Status) : Type 0 where
    pub stores : Stores d' i (h ++ e ∷ [])
    pub queued :
        d'.outbox ≡ d.outbox ++ record { id = d.next_id; message = m; published = false } ∷ []
    pub loads : (o' : Order) × (rehydrate (h ++ e ∷ []) ≡ ok o') × (o'.status ≡ st)

  decided_loads :
      (h : List DomainEvent) (e : DomainEvent) (st : Status)
      → ((o : Order) → (apply e o).status ≡ st)
      → (o' : Order) × (rehydrate (h ++ e ∷ []) ≡ ok o') × (o'.status ≡ st)
  decided_loads h e st f = (
    replay new_order (h ++ e ∷ []),
    rehydrate_nonempty h [] e,
    rw (replay-append new_order h (e ∷ [])) (unfold replay in f (replay new_order h)),
  )

  decided :
      (d : Db) (i : OrderId) (h : List DomainEvent) (e : DomainEvent) (m : OutboxMessage)
      (st : Status)
      → lifecycle_outbox (e ∷ []) ≡ m ∷ []
      → ((o : Order) → (apply e o).status ≡ st)
      → Stores d i h
      → aggregate_id e ≡ i
      → IsValidEvent e
      → Decided d (saved (length h) (e ∷ []) (lifecycle_outbox (e ∷ [])) d) i h e m st
  decided d i h e m st one f s a w = record {
    loads = decided_loads h e st f;
    stores =
        saved-Stores d i h (e ∷ []) (length h) (lifecycle_outbox (e ∷ [])) refl s (a, tt) (w, tt);
    queued =
        with_messages-outbox (lifecycle_outbox (e ∷ []))
          (record d { events = d.events ++ history_rows (length h) (e ∷ []) })
        ∙ ap (λ ms. d.outbox ++ outbox_rows d.next_id ms) one;
  }

  -- On a database that answers and that nobody else uses, confirming an order that it stores and
  -- that loads as pending, under its own id, succeeds. It stores one confirmation of that order at
  -- that time, and adds one unpublished order.confirmed message with the order's id and the time to the
  -- end of the outbox, and no other; the order then loads as confirmed.
  pub handle_confirm-Decided :
      (d : Db) (i : OrderId) (h : List DomainEvent) (o : Order) (t : Time) (id_text : Text)
      → parse_order_id id_text ≡ ok i
      → Stores d i h
      → rehydrate h ≡ ok o
      → o.id ≡ i
      → o.status ≡ pending
      → (d' : Db) × (handle_confirm t id_text (quiet d) ≡ (ok tt, quiet d'))
        × Decided d d' i h (confirmed_at o.id t) (confirmation_message o.id t) confirmed
  unfolding handle_confirm confirm aggregate_id apply lifecycle_outbox marshal_order_confirmed
  handle_confirm-Decided d i h o t id_text parsed s l own st =
      let e = confirmed_at o.id t in
      (
        saved (length h) (e ∷ []) (lifecycle_outbox (e ∷ [])) d,
        rw (parsed, load-quiet d i h s, l, st, confirm_from) (persist_one d i h e o s l own),
        decided d i h e (confirmation_message o.id t) confirmed refl (λ _. refl) s own tt,
      )

  -- On a database that answers and that nobody else uses, cancelling an order that it stores and
  -- that loads as pending, under its own id, succeeds. It stores one cancellation of that order with
  -- its reason and the time, and adds one unpublished order.cancelled message with the order's id, the
  -- reason and the time to the end of the outbox, and no other; the order then loads as cancelled.
  pub handle_cancel-Decided :
      (d : Db) (i : OrderId) (h : List DomainEvent) (o : Order) (r : Text) (t : Time)
      (id_text : Text)
      → parse_order_id id_text ≡ ok i
      → Stores d i h
      → rehydrate h ≡ ok o
      → o.id ≡ i
      → o.status ≡ pending
      → (d' : Db) × (handle_cancel r t id_text (quiet d) ≡ (ok tt, quiet d'))
        × Decided d d' i h (cancelled_at o.id r t) (cancellation_message o.id r t) cancelled
  unfolding handle_cancel cancel aggregate_id apply lifecycle_outbox marshal_order_cancelled
  handle_cancel-Decided d i h o r t id_text parsed s l own st =
      let e = cancelled_at o.id r t in
      (
        saved (length h) (e ∷ []) (lifecycle_outbox (e ∷ [])) d,
        rw (parsed, load-quiet d i h s, l, st, cancel_from) (persist_one d i h e o s l own),
        decided d i h e (cancellation_message o.id r t) cancelled refl (λ _. refl) s own tt,
      )

  -- On a database that answers and that nobody else uses, and for an order that it stores and that
  -- loads as confirmed or cancelled, the call for that decision succeeds and the call for the
  -- other one is an invalid transition, and neither writes anything.
  pub calls_on_decided :
      (d : Db) (i : OrderId) (h : List DomainEvent) (o : Order) (r : Text) (t : Time)
      (id_text : Text)
      → parse_order_id id_text ≡ ok i
      → Stores d i h
      → rehydrate h ≡ ok o
      → (o.status ≡ confirmed
          → (handle_confirm t id_text (quiet d) ≡ (ok tt, quiet d))
            × (handle_cancel r t id_text (quiet d) ≡ (err invalid_transition, quiet d)))
        × (o.status ≡ cancelled
            → (handle_cancel r t id_text (quiet d) ≡ (ok tt, quiet d))
              × (handle_confirm t id_text (quiet d) ≡ (err invalid_transition, quiet d)))
  unfolding handle_confirm handle_cancel confirm cancel persist_staged
  calls_on_decided d i h o r t id_text parsed s l =
      let (clean, _, _) = loaded_facts h o l in
      (
        λ st. (
          rw (parsed, load-quiet d i h s, l, st, confirm_from, clean, persist_staged),
          rw (parsed, load-quiet d i h s, l, st, cancel_from),
        ),
        λ st. (
          rw (parsed, load-quiet d i h s, l, st, cancel_from, clean, persist_staged),
          rw (parsed, load-quiet d i h s, l, st, confirm_from),
        ),
      )
