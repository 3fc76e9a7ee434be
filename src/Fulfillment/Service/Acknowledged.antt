-- ===== src/Fulfillment/Service/Acknowledged.antt =====
-- What the answers of the fulfillment service stand for, services/fulfillment/internal/app/service.go.
use event_driven_order_fulfi.Common.{◌≡◌, List, ok}
use event_driven_order_fulfi.Common.Session.{Session}
use event_driven_order_fulfi.Common.Session.Protocol.{IsGood}
use event_driven_order_fulfi.Platform.{Platform, Time, Uuid}
use event_driven_order_fulfi.Fulfillment.Shipment.{Shipment, created}
use event_driven_order_fulfi.Fulfillment.Store.{World}
use event_driven_order_fulfi.Fulfillment.Store.Newer.{
  Published, Ahead-refl, Seen-Ahead, Row, Newer, protocol, Row-Seen, same_id_of_Seen,
}
use event_driven_order_fulfi.Fulfillment.Service.{create_for_order, created_event}
use event_driven_order_fulfi.Fulfillment.Service.Lifecycle.{
  Acknowledged, create_for_order-Sound, Request, perform_all, requests_keep_lifecycle,
}

module _ ⦃p : Platform⦄ where
  create_for_order-After :
      (id o : Uuid) (now : Time) (s : Session World) (x : Shipment)
      → IsGood protocol s
      → (create_for_order id o now s).0 ≡ ok x
      → IsGood protocol (create_for_order id o now s).1
        × Acknowledged o x (create_for_order id o now s).1.committed
  create_for_order-After id o now s x g h =
      let it = (create_for_order-Sound s.committed id o now).run s g (Ahead-refl s.committed) in
      (it.good, it.gives x h)

  -- Where the other sessions keep to the protocol and the table is valid, a creation that succeeds
  -- answers with a shipment of the order that is stored, possibly in a later version; and if the
  -- answer is still CREATED, its shipment.created event has been published.
  pub created_is_stored_and_announced :
      (id o : Uuid) (now : Time) (s : Session World) (x : Shipment)
      → IsGood protocol s
      → (create_for_order id o now s).0 ≡ ok x
      → let w = (create_for_order id o now s).1.committed in
        ((r : Shipment) × Row w o r × Newer x r)
        × (x.status ≡ created → Published (created_event x) w.topic)
  created_is_stored_and_announced id o now s x g h =
      let it = (create_for_order-After id o now s x g h).1 in
      (Row-Seen (create_for_order id o now s).1.committed it.same_order it.seen, it.announced)

  -- Where the other sessions keep to the protocol and the table is valid: of two creations for an
  -- order that succeed, with any requests in between, the second answers with the shipment of the
  -- first.
  pub created_once :
      (id id' o : Uuid) (now now' : Time) (qs : List Request) (s : Session World) (x y : Shipment)
      → IsGood protocol s
      → (create_for_order id o now s).0 ≡ ok x
      → let t = perform_all qs (create_for_order id o now s).1 in
        (create_for_order id' o now' t).0 ≡ ok y → y.id ≡ x.id
  created_once id id' o now now' qs s x y g h k =
      let (g1, a1) = create_for_order-After id o now s x g h in
      let (g2, ahead2) = requests_keep_lifecycle qs (create_for_order id o now s).1 g1 in
      let t = perform_all qs (create_for_order id o now s).1 in
      let it = (create_for_order-Sound t.committed id' o now').run t g2 (Ahead-refl t.committed) in
      let a3 = it.gives y k in
      let end = (create_for_order id' o now' t).1.committed in
      same_id_of_Seen end a1.same_order a3.same_order
        (Seen-Ahead (Seen-Ahead a1.seen ahead2) it.ahead) a3.seen
