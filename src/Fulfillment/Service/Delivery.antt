-- ===== src/Fulfillment/Service/Delivery.antt =====
-- A shipment's way from its creation to its delivery where everything answers,
-- services/fulfillment/internal/app/service.go.
use event_driven_order_fulfi.Common.{
  ◌+◌, ◌≡◌, refl, true, false, none, some, [], ◌∷◌, Bool-cases, inl, inr, nat_beq, nat_key, ◌==◌,
  ok, ==_refl,
}
use event_driven_order_fulfi.Common.Text.{text_beq, text_key}
use event_driven_order_fulfi.Common.Table.{Table, lookup, has, put, lookup-put_self}
use event_driven_order_fulfi.Common.Session.{quiet, read, exec, arrive}
use event_driven_order_fulfi.Platform.{Platform, Text, Time, Uuid, nil_uuid}
use event_driven_order_fulfi.Fulfillment.Shipment.{
  Shipment, created, dispatched, delivered, create, dispatch, deliver,
}
use event_driven_order_fulfi.Fulfillment.Store.{
  Event, World, get_by_order_id, has_id, insert, insert_row, matches, update_row, update_rows,
  affects, update, publish,
}
use event_driven_order_fulfi.Fulfillment.Store.Newer.{row_after, Row}
use event_driven_order_fulfi.Fulfillment.Service.{
  create_for_order, unless_error, open_shipment, insert_or_load, announce, dispatch_order,
  deliver_order, conclude, created_event, dispatched_event, delivered_event,
}

affects_of_row :
    (s r : Shipment) (t : Table Uuid Shipment) (o : Uuid)
    → lookup o t ≡ some r
    → matches s r ≡ true
    → affects s t ≡ true
unfolding lookup affects
affects_of_row s r [] o h m = cc
affects_of_row s r ((o', x) ∷ t) o h m = elim (Bool-cases (o' == o)) [
  | inl b ↦ let same : some x ≡ some r = rw b at h in let e : x ≡ r = cc in rw (e, m) refl
  | inr b ↦
      let h' = rw b at h in
      let rest = affects_of_row s r t o h' m in
      elim (Bool-cases (matches s x)) [ inl c ↦ rw c refl | inr c ↦ rw c rest ]
]

get_runs :
    (o : Uuid) (w : World) (r : Shipment)
    → Row w o r
    → get_by_order_id o (quiet w) ≡ (ok r, quiet w)
unfolding get_by_order_id read arrive
get_runs o w r h = rw h refl

abbrev pub opened : Uuid → Uuid → Time → Shipment
opened id o now = record {
  id = id;
  order_id = o;
  status = created;
  carrier = [];
  tracking_code = [];
  failure_reason = [];
  version = 0;
  created_at = now;
  updated_at = now;
}

abbrev pub as_dispatched : Text → Text → Time → Shipment → Shipment
as_dispatched carrier tracking_code now r = record r {
  status = dispatched;
  carrier = carrier;
  tracking_code = tracking_code;
  updated_at = now;
}

abbrev pub as_delivered : Time → Shipment → Shipment
as_delivered now r = record r { status = delivered; updated_at = now }

abbrev bumped : Shipment → Shipment
bumped r = record r { version = r.version + 1 }

matches_self : (s r : Shipment) → s.id ≡ r.id → s.version ≡ r.version → matches s r ≡ true
unfolding matches
matches_self s r e k = rw (e, k, ==_refl r.id, ==_refl r.version) refl

dispatch-as_dispatched :
    (carrier tracking_code : Text) (now : Time) (r : Shipment)
    → r.status ≡ created
    → text_beq carrier [] ≡ false
    → dispatch carrier tracking_code now r ≡ ok (true, as_dispatched carrier tracking_code now r)
unfolding dispatch
dispatch-as_dispatched carrier tracking_code now r st c = rw (st, c) refl

deliver-as_delivered :
    (now : Time) (r : Shipment)
    → r.status ≡ dispatched
    → deliver now r ≡ ok (true, as_delivered now r)
unfolding deliver
deliver-as_delivered now r st = rw st refl

-- The row of a shipment that was read, behind the UPDATE.
updated :
    (s r : Shipment) (t : Table Uuid Shipment) (o : Uuid)
    → lookup o t ≡ some r
    → s.id ≡ r.id
    → s.version ≡ r.version
    → lookup o (update_rows s t)
      ≡ some (record r {
        status = s.status;
        carrier = s.carrier;
        tracking_code = s.tracking_code;
        failure_reason = s.failure_reason;
        version = r.version + 1;
        updated_at = s.updated_at;
      })
unfolding update_row
updated s r t o h e k = rw (row_after s t o r h, matches_self s r e k) refl

module _ ⦃p : Platform⦄ where
  create_runs :
      (id o : Uuid) (now : Time) (w : World)
      → lookup o w.shipments ≡ none
      → has_id id w.shipments ≡ false
      → nat_beq o nil_uuid ≡ false
      → create_for_order id o now (quiet w) ≡ (
        ok (opened id o now),
        quiet (record {
          shipments = put o (opened id o now) w.shipments;
          topic = created_event (opened id o now) ∷ w.topic;
        }),
      )
  unfolding create_for_order unless_error get_by_order_id read arrive open_shipment insert_or_load
      insert exec insert_row has announce publish create
  create_runs id o now w h k n = rw (h, n, h, k) refl

  advance_runs :
      (o : Uuid) (w : World) (r s : Shipment) (event : Shipment → Event)
      → Row w o r
      → s.id ≡ r.id
      → s.version ≡ r.version
      → conclude event (true, s) (quiet w) ≡ (
        ok s,
        quiet (record { shipments = update_rows s w.shipments; topic = event s ∷ w.topic }),
      )
  unfolding conclude update exec arrive publish
  advance_runs o w r s event h e k =
      rw (affects_of_row s r w.shipments o h (matches_self s r e k)) refl

  dispatch_runs :
      (o : Uuid) (carrier tracking_code : Text) (now : Time) (w : World) (r : Shipment)
      → Row w o r
      → r.status ≡ created
      → text_beq carrier [] ≡ false
      → let s = as_dispatched carrier tracking_code now r in
        dispatch_order o carrier tracking_code now (quiet w) ≡ (
          ok s,
          quiet (record {
            shipments = update_rows s w.shipments;
            topic = dispatched_event o s ∷ w.topic;
          }),
        )
  unfolding dispatch_order
  dispatch_runs o carrier tracking_code now w r h st c =
      let s = as_dispatched carrier tracking_code now r in
      rw (get_runs o w r h, dispatch-as_dispatched carrier tracking_code now r st c)
        (advance_runs o w r s (dispatched_event o) h refl refl)

  deliver_runs :
      (o : Uuid) (now : Time) (w : World) (r : Shipment)
      → Row w o r
      → r.status ≡ dispatched
      → let s = as_delivered now r in
        deliver_order o now (quiet w) ≡ (
          ok s,
          quiet (record {
            shipments = update_rows s w.shipments;
            topic = delivered_event o s ∷ w.topic;
          }),
        )
  unfolding deliver_order
  deliver_runs o now w r h st =
      rw (get_runs o w r h, deliver-as_delivered now r st)
        (advance_runs o w r (as_delivered now r) (delivered_event o) h refl refl)

  -- Where everything answers and nobody else writes: for an order without a shipment, a new shipment
  -- id, and a carrier, a creation, a dispatch and a delivery leave the shipment DELIVERED with the
  -- carrier and the tracking code, at version 2, and publish its three events in this order.
  pub shipment_is_delivered :
      (id o : Uuid) (carrier tracking_code : Text) (t1 t2 t3 : Time) (w : World)
      → lookup o w.shipments ≡ none
      → has_id id w.shipments ≡ false
      → nat_beq o nil_uuid ≡ false
      → text_beq carrier [] ≡ false
      → let s1 = (create_for_order id o t1 (quiet w)).1 in
        let s2 = (dispatch_order o carrier tracking_code t2 s1).1 in
        let s3 = (deliver_order o t3 s2).1 in
        let x1 = opened id o t1 in
        let x2 = as_dispatched carrier tracking_code t2 x1 in
        let x3 = as_delivered t3 (bumped x2) in
        (lookup o s3.committed.shipments ≡ some (bumped x3))
        × (s3.committed.topic
            ≡ delivered_event o x3 ∷ dispatched_event o x2 ∷ created_event x1 ∷ w.topic)
  shipment_is_delivered id o carrier tracking_code t1 t2 t3 w h k n c =
      let x1 = opened id o t1 in
      let x2 = as_dispatched carrier tracking_code t2 x1 in
      let x3 = as_delivered t3 (bumped x2) in
      let rows1 = put o x1 w.shipments in
      let rows2 = update_rows x2 rows1 in
      let w1 : World = record { shipments = rows1; topic = created_event x1 ∷ w.topic } in
      let w2 : World = record { shipments = rows2; topic = dispatched_event o x2 ∷ w1.topic } in
      let row1 : Row w1 o x1 = lookup-put_self o x1 w.shipments in
      let row2 : Row w2 o (bumped x2) = updated x2 x1 rows1 o row1 refl refl in
      let row3 = updated x3 (bumped x2) rows2 o row2 refl refl in
      let run1 = create_runs id o t1 w h k n in
      let run2 = dispatch_runs o carrier tracking_code t2 w1 x1 row1 refl c in
      let run3 = deliver_runs o t3 w2 (bumped x2) row2 refl in rw (run1, run2, run3) (row3, refl)
