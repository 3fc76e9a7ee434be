-- ===== src/Examples/ReadModels.antt =====
-- The theorems on the outbox relay and on the read model of orders, at the order of two mugs.
use event_driven_order_fulfi.Common.{
  ℕ, ◌≡◌, refl, true, false, Option, List, [], ◌∷◌, ok, In, inl, inr, nat_key, sym, ap, ◌∙◌, arith,
}
use event_driven_order_fulfi.Common.Json.{Json}
use event_driven_order_fulfi.Common.Table.{lookup}
use event_driven_order_fulfi.Common.Session.{
  Session, served, lost, quiet, begin, read, write, emit, commit, rolled_back, arrive,
}
use event_driven_order_fulfi.Common.Session.Protocol.{Allowed}
use event_driven_order_fulfi.Common.Session.Transaction.{IsOpen}
use event_driven_order_fulfi.Contracts.{EventType}
use event_driven_order_fulfi.Order.Aggregate.{DomainEvent, confirmed_at}
use event_driven_order_fulfi.Order.Store.{Db, OutboxRow}
use event_driven_order_fulfi.Order.Commands.{contract_items, placed_message}
use event_driven_order_fulfi.Order.Projection.{handle_get_order, view_of_order}
use event_driven_order_fulfi.Order.Projection.Shape.{IsFirst}
use event_driven_order_fulfi.Order.Projection.Redelivery.{project, redelivery_converges}
use event_driven_order_fulfi.Order.Projection.Following.{
  published, history_of, query_follows_aggregate,
}
use event_driven_order_fulfi.Order.Relay.{
  RelayWorld, cycles, batch, available, contains, by_id, mark, sent, drain_batch, settle, publish,
}
use event_driven_order_fulfi.Order.Relay.Marking.{IsSound, protocol, marked_is_published}
use event_driven_order_fulfi.Order.Relay.Draining.{relay_drains}
use event_driven_order_fulfi.Examples.{one_point, the_placement}

abbrev no_rows : Db
no_rows = record { events = []; outbox = []; next_id = 1; keys = []; projections = [] }

no_rows-IsFirst : IsFirst no_rows.projections
unfolding lookup
no_rows-IsFirst = λ o r h. cc

abbrev a_confirmation : List DomainEvent
a_confirmation = confirmed_at 7 200 ∷ []

abbrev order_events : List (EventType × Option Json)
order_events = published the_placement a_confirmation

redelivery_converges_example :
    lookup 7
      (project []
        (project order_events (project order_events (quiet no_rows)))).committed.projections
    ≡ lookup 7 (project [] (project order_events (quiet no_rows))).committed.projections
redelivery_converges_example = redelivery_converges order_events [] no_rows no_rows-IsFirst 7

query_follows_aggregate_example :
    (handle_get_order (7 ∷ []) (project order_events (quiet no_rows))).0
    ≡ ok (record (view_of_order (history_of the_placement a_confirmation)) { version = 1 })
unfolding contract_items
query_follows_aggregate_example =
    query_follows_aggregate the_placement a_confirmation no_rows (((refl, refl), tt), refl)
      (refl, tt) no_rows-IsFirst

abbrev row : ℕ → OutboxRow
row i = record { id = i; message = placed_message the_placement; published = false }

abbrev marked_row : OutboxRow
marked_row = record { id = 1; message = placed_message the_placement; published = true }

abbrev two_rows : RelayWorld
two_rows = record { outbox = row 1 ∷ row 2 ∷ []; topic = []; locked = [] }

two_rows-IsSound : IsSound two_rows
two_rows-IsSound = record {
  marked = λ r h p. elim h [
    | inl e ↦ let never : r.published ≡ false = rw e refl in cc
    | inr k ↦ elim k [
      | inl e ↦ let never : r.published ≡ false = rw e refl in cc
      | inr n ↦ absurd n
    ]
  ];
  single = λ r r' h h' e. same r h ∙ sym (same r' h');
}
  where
    same : (r : OutboxRow) → In r two_rows.outbox → r.message ≡ placed_message the_placement
    same r (inl e) = ap (λ x. x.message) e
    same r (inr (inl e)) = ap (λ x. x.message) e
    same r (inr (inr n)) = absurd n

-- The first publication is carried out and its reply is lost.
abbrev unsteady : Session RelayWorld
unsteady = record {
  committed = two_rows;
  view = two_rows;
  turns =
      record { others = λ w. w; reply = served }
      ∷ record { others = λ w. w; reply = served }
      ∷ record { others = λ w. w; reply = lost }
      ∷ [];
}

unsteady-IsOpen : IsOpen protocol unsteady
unsteady-IsOpen = record {
  valid = two_rows-IsSound;
  seen = two_rows-IsSound;
  steady =
      let one : Allowed protocol (λ w. w) = record { keeps = λ d v. (v, protocol.Ahead-refl d) } in
      (one, (one, (one, tt)));
}

marked_is_published_example :
    In (placed_message the_placement) (cycles 2 1 unsteady).committed.topic
unfolding drain_batch begin read write emit commit rolled_back arrive batch available contains by_id
    settle publish mark sent
marked_is_published_example =
    marked_is_published 2 1 unsteady unsteady-IsOpen marked_row (inl refl) refl

relay_drains_example :
    let end = (cycles 2 1 (quiet two_rows)).committed in
    (available end.locked end.outbox ≡ [])
    × ((r : OutboxRow) → In r (available [] two_rows.outbox) → In r.message end.topic)
unfolding available contains
relay_drains_example = relay_drains 2 0 two_rows two_rows-IsSound (omega arith)
