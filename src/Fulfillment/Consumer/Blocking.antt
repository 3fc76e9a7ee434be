-- ===== src/Fulfillment/Consumer/Blocking.antt =====
-- A confirmation that the fulfillment worker can neither handle nor dead-letter,
-- services/fulfillment/internal/worker/consumer/worker.go.
use event_driven_order_fulfi.Common.{
  ℕ, zero, suc, ◌≡◌, refl, ◌∙◌, ap, true, none, some, List, ◌∷◌, drop, nat_key, err,
}
use event_driven_order_fulfi.Common.Table.{lookup}
use event_driven_order_fulfi.Common.Session.{Session, quiet, read, arrive}
use event_driven_order_fulfi.Platform.{Platform, Time, Uuid, nil_uuid}
use event_driven_order_fulfi.Consumer.{Message, transient, Worker, run}
use event_driven_order_fulfi.Consumer.Delivery.{lives, run_stopped}
use event_driven_order_fulfi.Fulfillment.Shipment.{validation, create}
use event_driven_order_fulfi.Fulfillment.Store.{World, get_by_order_id}
use event_driven_order_fulfi.Fulfillment.Service.{
  create_for_order, unless_error, is_not_found, open_shipment,
}
use event_driven_order_fulfi.Fulfillment.Consumer.{
  is_confirmed, decode_order, handle_confirmed, handle_message,
}

module _ ⦃p : Platform⦄ where
  create_refused :
      (id : Uuid) (now : Time) (w : World)
      → lookup nil_uuid w.shipments ≡ none
      → create_for_order id nil_uuid now (quiet w) ≡ (err validation, quiet w)
  unfolding create_for_order unless_error get_by_order_id read arrive is_not_found open_shipment
      create
  create_refused id now w h = rw h refl

  module _ (mint : Session World → Uuid × Time) where
    message_refused :
        (m : Message) (w : World)
        → is_confirmed m ≡ true
        → decode_order m.value ≡ some nil_uuid
        → lookup nil_uuid w.shipments ≡ none
        → handle_message mint m (quiet w) ≡ (err transient, quiet w)
    unfolding handle_message handle_confirmed
    message_refused m w c d h =
        let (id, now) = mint (quiet w) in rw (c, d, create_refused id now w h) refl

    -- Where everything answers and nobody else writes, a worker whose next message confirms the order
    -- with the nil UUID, which has no shipment, stops at it in every life: its offset, its table and
    -- its dead letters stay as they are.
    pub nil_order_blocks :
        (n : ℕ) (log rest : List Message) (m : Message) (r : Worker World) (w : World)
        → r.session ≡ quiet w
        → drop r.committed log ≡ m ∷ rest
        → is_confirmed m ≡ true
        → decode_order m.value ≡ some nil_uuid
        → lookup nil_uuid w.shipments ≡ none
        → lives (handle_message mint) n log r ≡ r
    nil_order_blocks zero log rest m r w s d c e h = refl
    nil_order_blocks (suc n) log rest m r w s d c e h =
        ap (lives (handle_message mint) n log) one_life
        ∙ nil_order_blocks n log rest m r w s d c e h
      where
        one_life : run (handle_message mint) r.committed (drop r.committed log) r ≡ r
        one_life =
            let here : handle_message mint m r.session ≡ (err transient, r.session) =
              rw s (message_refused m w c e h) in
            rw d (run_stopped (handle_message mint) r.committed m rest r here)
