-- ===== src/Examples/Shipments.antt =====
-- The theorems on the fulfillment service, at a shipment for the order 7.
use event_driven_order_fulfi.Common.{
  ◌≡◌, refl, some, none, length, nat_key, List, [], ◌∷◌, ok, take, All,
}
use event_driven_order_fulfi.Common.Text.{txt, text_beq}
use event_driven_order_fulfi.Common.Json.{str, obj, field, end, get_or_null, as_fields, as_text}
use event_driven_order_fulfi.Common.Table.{lookup, has, put}
use event_driven_order_fulfi.Common.Session.{
  Session, Reply, Turn, served, refused, lost, quiet, read, exec,
}
use event_driven_order_fulfi.Common.Session.Protocol.{IsSteady, IsGood}
use event_driven_order_fulfi.Platform.{Time, Uuid}
use event_driven_order_fulfi.Consumer.{Message, Worker, header_value}
use event_driven_order_fulfi.Consumer.Delivery.{lives}
use event_driven_order_fulfi.Fulfillment.Contracts.{unmarshal_order_confirmed}
use event_driven_order_fulfi.Fulfillment.Shipment.{Shipment, created, dispatched, create, dispatch}
use event_driven_order_fulfi.Fulfillment.Store.{
  World, get_by_order_id, has_id, insert, update, publish,
}
use event_driven_order_fulfi.Fulfillment.Store.Newer.{
  IsValid, Ahead, Ahead-refl, Row, Newer, Published, protocol,
}
use event_driven_order_fulfi.Fulfillment.Service.{
  create_for_order, created_event, insert_or_load, announce, dispatch_order, deliver_order,
  dispatched_event, delivered_event,
}
use event_driven_order_fulfi.Fulfillment.Service.Lifecycle.{
  Request, creates, dispatches_order, delivers_order, perform_all, requests_keep_lifecycle,
}
use event_driven_order_fulfi.Fulfillment.Service.Acknowledged.{
  created_is_stored_and_announced, created_once,
}
use event_driven_order_fulfi.Fulfillment.Service.Delivery.{
  opened, as_dispatched, as_delivered, shipment_is_delivered,
}
use event_driven_order_fulfi.Fulfillment.Consumer.{handle_message, decode_order}
use event_driven_order_fulfi.Fulfillment.Consumer.Delivery.{confirmed_order, confirmed_orders_ship}
use event_driven_order_fulfi.Fulfillment.Consumer.Blocking.{nil_order_blocks}
use event_driven_order_fulfi.Examples.{one_point}

abbrev empty_world : World
empty_world = record { shipments = []; topic = [] }

empty_world-IsValid : IsValid empty_world
unfolding lookup
empty_world-IsValid = record {
  keyed = λ o r h. cc;
  distinct = λ o o' r r' h h' e. cc;
  carried = λ o r h. cc;
}

-- Turns in which nobody else commits.
abbrev idle_turns : List Reply → List (Turn World)
idle_turns [] = []
idle_turns (r ∷ rs) = record { others = λ w. w; reply = r } ∷ idle_turns rs

idle_turns-IsSteady : (rs : List Reply) → IsSteady protocol (idle_turns rs)
idle_turns-IsSteady [] = tt
idle_turns-IsSteady (r ∷ rs) = (record { keeps = λ d v. (v, Ahead-refl d) }, idle_turns-IsSteady rs)

abbrev on_empty : List Reply → Session World
on_empty rs = record { committed = empty_world; view = empty_world; turns = idle_turns rs }

on_empty-IsGood : (rs : List Reply) → IsGood protocol (on_empty rs)
on_empty-IsGood rs = record {
  valid = empty_world-IsValid;
  outside = refl;
  steady = idle_turns-IsSteady rs;
}

-- The first insertion is committed and its reply is lost; the second read is refused.
abbrev shaky : Session World
shaky = on_empty (served ∷ lost ∷ refused ∷ [])

abbrev requests : List Request
requests =
    creates 1 7 100
    ∷ creates 2 7 200
    ∷ creates 3 7 300
    ∷ dispatches_order 7 (txt "UPS") (txt "1Z") 400
    ∷ delivers_order 7 500
    ∷ []

requests_keep_lifecycle_example :
    IsGood protocol (perform_all requests shaky)
    × Ahead empty_world (perform_all requests shaky).committed
requests_keep_lifecycle_example =
    requests_keep_lifecycle requests shaky (on_empty-IsGood (served ∷ lost ∷ refused ∷ []))

abbrev created_shipment : Shipment
created_shipment = opened 1 7 100

abbrev dispatched_shipment : Shipment
dispatched_shipment = record created_shipment {
  status = dispatched;
  carrier = txt "UPS";
  tracking_code = txt "1Z";
  version = 1;
  updated_at = 200;
}

created_ok : (create_for_order 1 7 100 (on_empty [])).0 ≡ ok created_shipment
unfolding create_for_order get_by_order_id read lookup create insert_or_load insert exec has
    announce publish
created_ok = refl

created_is_stored_and_announced_example :
    let w = (create_for_order 1 7 100 (on_empty [])).1.committed in
    ((r : Shipment) × Row w 7 r × Newer created_shipment r)
    × (created ≡ created → Published (created_event created_shipment) w.topic)
created_is_stored_and_announced_example =
    created_is_stored_and_announced 1 7 100 (on_empty []) created_shipment (on_empty-IsGood [])
      created_ok

abbrev a_dispatch : List Request
a_dispatch = dispatches_order 7 (txt "UPS") (txt "1Z") 200 ∷ []

created_once_example : dispatched_shipment.id ≡ created_shipment.id
unfolding create_for_order get_by_order_id read lookup create insert_or_load insert exec has
    announce publish dispatch_order put dispatch text_beq update
created_once_example =
    created_once 1 2 7 100 300 a_dispatch (on_empty []) created_shipment dispatched_shipment
      (on_empty-IsGood []) created_ok refl

shipment_is_delivered_example :
    let s1 = (create_for_order 1 7 100 (quiet empty_world)).1 in
    let s2 = (dispatch_order 7 (txt "UPS") (txt "1Z") 200 s1).1 in
    let s3 = (deliver_order 7 300 s2).1 in
    let x2 = as_dispatched (txt "UPS") (txt "1Z") 200 created_shipment in
    let x3 = as_delivered 300 dispatched_shipment in
    (lookup 7 s3.committed.shipments ≡ some (record x3 { version = 2 }))
    × (s3.committed.topic
        ≡ delivered_event 7 x3 ∷ dispatched_event 7 x2 ∷ created_event created_shipment ∷ [])
unfolding lookup has_id text_beq
shipment_is_delivered_example =
    shipment_is_delivered 1 7 (txt "UPS") (txt "1Z") 100 200 300 empty_world refl refl refl refl

-- order.confirmed for the order with this id.
abbrev confirmation : Uuid → Message
confirmation o = record {
  key = o ∷ [];
  value = some (obj (field (txt "orderId") (str (o ∷ [])) end));
  headers = (txt "event-type", txt "order.confirmed.v1") ∷ [];
}

-- A message that is not JSON.
abbrev garbled : Message
garbled = record {
  key = [];
  value = none;
  headers = (txt "event-type", txt "order.confirmed.v1") ∷ [];
}

abbrev messages : List Message
messages = confirmation 7 ∷ garbled ∷ confirmation 8 ∷ []

abbrev mint : Session World → Uuid × Time
mint s = (length s.committed.topic, 100)

-- The first commit of an offset is carried out and its reply is lost.
abbrev worker : Worker World
worker = record {
  session = on_empty (served ∷ lost ∷ []);
  committed = 0;
  dead = [];
  replies = lost ∷ [];
}

confirmed_orders_ship_example :
    let r = lives (handle_message mint) 3 messages worker in
    All
      (λ m.
        (o : Uuid) → confirmed_order mint m ≡ some o → (x : Shipment) × Row r.session.committed o x)
      (take r.committed messages)
confirmed_orders_ship_example =
    confirmed_orders_ship mint 3 messages worker (on_empty-IsGood (served ∷ lost ∷ [])) refl

abbrev blocked : Worker World
blocked = record { session = quiet empty_world; committed = 1; dead = []; replies = [] }

nil_order_blocks_example :
    lives (handle_message mint) 5 (confirmation 7 ∷ confirmation 0 ∷ confirmation 8 ∷ []) blocked
    ≡ blocked
unfolding text_beq header_value decode_order unmarshal_order_confirmed as_fields as_text get_or_null
    lookup
nil_order_blocks_example =
    nil_order_blocks mint 5 (confirmation 7 ∷ confirmation 0 ∷ confirmation 8 ∷ [])
      (confirmation 8 ∷ []) (confirmation 0) blocked empty_world refl refl refl refl refl
