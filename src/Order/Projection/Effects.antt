-- ===== src/Order/Projection/Effects.antt =====
-- What one message does to the read model, services/order/internal/app/projection/service.go.
use event_driven_order_fulfi.Common.{
  ℕ, ◌≡◌, refl, ap, Option, none, some, nat_key, ◌==◌, Bool-cases, inl, inr, or_fail,
}
use event_driven_order_fulfi.Common.Json.{Json}
use event_driven_order_fulfi.Common.Json
use event_driven_order_fulfi.Common.Table.{lookup}
use event_driven_order_fulfi.Common.Session.{Session, quiet, exec, arrive, lift, continue, ◌>>=◌}
use event_driven_order_fulfi.Contracts.{EventType, order_placed, order_confirmed, order_cancelled}
use event_driven_order_fulfi.Contracts.OrderEvents.{
  OrderPlacedV1, unmarshal_order_placed, unmarshal_order_confirmed, unmarshal_order_cancelled,
}
use event_driven_order_fulfi.Consumer.{permanent}
use event_driven_order_fulfi.Platform.{Platform, Text}
use event_driven_order_fulfi.Order.Values.{OrderId, Status, pending, confirmed, cancelled}
use event_driven_order_fulfi.Order.Store.{Db, Projection}
use event_driven_order_fulfi.Order.Projection.{
  upsert_row, set_status, run_statement, placed_row, upsert_order_placed, update_status,
  apply_order_placed, apply_order_confirmed, apply_order_cancelled, apply,
}
use event_driven_order_fulfi.Order.Projection.Shape.{
  Shape, keep, become, set, act, Rows, IsFirst, at_order, upsert_row_lem, set_status_lem,
}

module _ ⦃p : Platform⦄ where
  -- The row that a placement asks for, if its body can be read.
  abbrev pub row_of : Option Json → Option Projection
  row_of payload =
      Json.◌>>=◌ (Json.◌>>=◌ payload unmarshal_order_placed)
        λ ev. Json.◌>>=◌ (p.parse_millis ev.placed_at) λ at. placed_row ev at

  abbrev pub order_of_confirmed : Option Json → Option OrderId
  order_of_confirmed payload =
      Json.◌>>=◌ (Json.◌>>=◌ payload unmarshal_order_confirmed) λ ev. p.uuid_parse ev.order_id

  abbrev pub order_of_cancelled : Option Json → Option OrderId
  order_of_cancelled payload =
      Json.◌>>=◌ (Json.◌>>=◌ payload unmarshal_order_cancelled) λ ev. p.uuid_parse ev.order_id

  abbrev pub upserts : Option Projection → OrderId → Shape
  upserts none o = keep
  upserts (some r) o = at_order r.order_id o (become r)

  abbrev pub sets : Option OrderId → Status → OrderId → Shape
  sets none st o = keep
  sets (some i) st o = at_order i o (set st)

  unfoldable pub shape_of : EventType → Option Json → OrderId → Shape
  shape_of order_placed payload o = upserts (row_of payload) o
  shape_of order_confirmed payload o = sets (order_of_confirmed payload) confirmed o
  shape_of order_cancelled payload o = sets (order_of_cancelled payload) cancelled o
  shape_of _ payload o = keep

  -- A database that a quiet session has come to, its rows changed in the given way.
  pub record Changed (f : OrderId → Shape) (d : Db) (s : Session Db) : Type 0 where
    pub db : Db
    pub at : s ≡ quiet db
    pub rows : (o : OrderId) → lookup o db.projections ≡ act (f o) (lookup o d.projections)

  unfoldable pub Changed-none : (d : Db) → Changed (λ o. keep) d (quiet d)
  Changed-none d = record { db = d; at = refl; rows = λ o. refl }

  pub Changed-run :
      (f : Rows → Rows) (g : OrderId → Shape) (d : Db)
      → ((o : OrderId) → lookup o (f d.projections) ≡ act (g o) (lookup o d.projections))
      → Changed g d (run_statement (some f) (quiet d)).1
  unfolding exec arrive
  Changed-run f g d h = record {
    db = record d { projections = f d.projections };
    at = refl;
    rows = h;
  }

  pub placed_row-version :
      (ev : OrderPlacedV1) (at : ℕ) (r : Projection) → placed_row ev at ≡ some r → r.version ≡ 1
  unfolding placed_row
  placed_row-version ev at r h =
      from (p.uuid_parse ev.order_id) (p.uuid_parse ev.customer_id) refl refl
    where
      from :
          (a b : Option OrderId)
          → p.uuid_parse ev.order_id ≡ a
          → p.uuid_parse ev.customer_id ≡ b
          → r.version ≡ 1
      from none b e k = let h' = rw e at h in cc
      from (some i) none e k = let h' = rw (e, k) at h in cc
      from (some i) (some c) e k =
          let h' = rw (e, k) at h in
          let same : r ≡ record {
            order_id = i;
            customer_id = c;
            status = pending;
            total_minor = ev.total_minor;
            currency = ev.currency;
            version = 1;
            placed_at = at;
          } =
            cc in
          ap (λ z. z.version) same

  pub upsert-Changed :
      (ev : OrderPlacedV1) (at : ℕ) (d : Db)
      → IsFirst d.projections
      → Changed (upserts (placed_row ev at)) d (upsert_order_placed ev at (quiet d)).1
  unfolding upsert_order_placed exec
  upsert-Changed ev at d f = from (placed_row ev at) refl
    where
      from :
          (r : Option Projection)
          → placed_row ev at ≡ r
          → Changed
              (upserts r)
              d
              (run_statement (Json.◌>>=◌ r λ r. some (upsert_row r)) (quiet d)).1
      from none e = Changed-none d
      from (some r) e =
          Changed-run (upsert_row r) _ d
            (λ o. upsert_row_lem r d.projections o (placed_row-version ev at r e) f)

  pub status-Changed :
      (order_id : Text) (st : Status) (d : Db)
      → Changed (sets (p.uuid_parse order_id) st) d (update_status order_id st (quiet d)).1
  unfolding update_status exec
  status-Changed order_id st d = from (p.uuid_parse order_id)
    where
      from :
          (i : Option OrderId)
          → Changed
              (sets i st)
              d
              (run_statement (Json.◌>>=◌ i λ i. some (set_status i st)) (quiet d)).1
      from none = Changed-none d
      from (some i) = Changed-run (set_status i st) _ d (λ o. set_status_lem i st d.projections o)

  pub placed-Changed :
      (payload : Option Json) (d : Db)
      → IsFirst d.projections
      → Changed (upserts (row_of payload)) d (apply_order_placed payload (quiet d)).1
  unfolding apply_order_placed
  placed-Changed payload d f = read_body (Json.◌>>=◌ payload unmarshal_order_placed)
    where
      read_time :
          (ev : OrderPlacedV1) (at : Option ℕ)
          → Changed
              (upserts (Json.◌>>=◌ at λ at. placed_row ev at))
              d
              (continue (lift (or_fail at permanent) (quiet d)) (λ at. upsert_order_placed ev at)).1
      read_time ev none = Changed-none d
      read_time ev (some at) = upsert-Changed ev at d f

      read_body :
          (found : Option OrderPlacedV1)
          → Changed
              (upserts (
                Json.◌>>=◌ found
                  λ ev. Json.◌>>=◌ (p.parse_millis ev.placed_at) λ at. placed_row ev at))
              d
              (continue (lift (or_fail found permanent) (quiet d)) (λ ev.
                lift (or_fail (p.parse_millis ev.placed_at) permanent) >>= λ at.
                upsert_order_placed ev at)).1
      read_body none = Changed-none d
      read_body (some ev) = read_time ev (p.parse_millis ev.placed_at)

  pub confirmed-Changed :
      (payload : Option Json) (d : Db)
      → Changed
          (sets (order_of_confirmed payload) confirmed)
          d
          (apply_order_confirmed payload (quiet d)).1
  unfolding apply_order_confirmed
  confirmed-Changed payload d =
      elim (Json.◌>>=◌ payload unmarshal_order_confirmed)
        as (λ found.
          Changed (sets (Json.◌>>=◌ found λ ev. p.uuid_parse ev.order_id) confirmed) d
            (continue (lift (or_fail found permanent) (quiet d))
              (λ ev. update_status ev.order_id confirmed)).1) [
                | none ↦ Changed-none d
                | some ev ↦ status-Changed ev.order_id confirmed d
              ]

  pub cancelled-Changed :
      (payload : Option Json) (d : Db)
      → Changed
          (sets (order_of_cancelled payload) cancelled)
          d
          (apply_order_cancelled payload (quiet d)).1
  unfolding apply_order_cancelled
  cancelled-Changed payload d =
      elim (Json.◌>>=◌ payload unmarshal_order_cancelled)
        as (λ found.
          Changed (sets (Json.◌>>=◌ found λ ev. p.uuid_parse ev.order_id) cancelled) d
            (continue (lift (or_fail found permanent) (quiet d))
              (λ ev. update_status ev.order_id cancelled)).1) [
                | none ↦ Changed-none d
                | some ev ↦ status-Changed ev.order_id cancelled d
              ]

  pub apply-Changed :
      (ty : EventType) (payload : Option Json) (d : Db)
      → IsFirst d.projections
      → Changed (shape_of ty payload) d (apply ty payload (quiet d)).1
  unfolding apply shape_of
  apply-Changed order_placed payload d f = placed-Changed payload d f
  apply-Changed order_confirmed payload d f = confirmed-Changed payload d
  apply-Changed order_cancelled payload d f = cancelled-Changed payload d
  apply-Changed _ payload d f = Changed-none d

  pub row_of-version :
      (payload : Option Json) (r : Projection) → row_of payload ≡ some r → r.version ≡ 1
  row_of-version payload r h = read_body (Json.◌>>=◌ payload unmarshal_order_placed) h
    where
      read_time :
          (ev : OrderPlacedV1) (at : Option ℕ)
          → (Json.◌>>=◌ at λ at. placed_row ev at) ≡ some r
          → r.version ≡ 1
      read_time ev none e = cc
      read_time ev (some at) e = placed_row-version ev at r e

      read_body :
          (found : Option OrderPlacedV1)
          → (Json.◌>>=◌ found λ ev. Json.◌>>=◌ (p.parse_millis ev.placed_at) λ at. placed_row ev at)
            ≡ some r
          → r.version ≡ 1
      read_body none e = cc
      read_body (some ev) e = read_time ev (p.parse_millis ev.placed_at) e

  pub at_order-become :
      (i o : OrderId) (q r : Projection) → at_order i o (become q) ≡ become r → q ≡ r
  at_order-become i o q r h = elim (Bool-cases (i == o)) [
    | inl b ↦ let h' = rw b at h in cc
    | inr b ↦ let h' = rw b at h in cc
  ]

  pub sets-become :
      (i : Option OrderId) (st : Status) (o : OrderId) (r : Projection) → ¬ (sets i st o ≡ become r)
  sets-become none st o r h = cc
  sets-become (some i) st o r h = elim (Bool-cases (i == o)) [
    | inl b ↦ let h' = rw b at h in cc
    | inr b ↦ let h' = rw b at h in cc
  ]

  pub upserts-version :
      (q : Option Projection) (o : OrderId) (r : Projection)
      → ((x : Projection) → q ≡ some x → x.version ≡ 1)
      → upserts q o ≡ become r
      → r.version ≡ 1
  upserts-version none o r h e = cc
  upserts-version (some q) o r h e =
      let same = at_order-become q.order_id o q r e in rw (← same) (h q refl)

  pub shape_of-version :
      (ty : EventType) (payload : Option Json) (o : OrderId) (r : Projection)
      → shape_of ty payload o ≡ become r
      → r.version ≡ 1
  unfolding shape_of
  shape_of-version order_placed payload o r e =
      upserts-version (row_of payload) o r (row_of-version payload) e
  shape_of-version order_confirmed payload o r e =
      absurd (sets-become (order_of_confirmed payload) confirmed o r e)
  shape_of-version order_cancelled payload o r e =
      absurd (sets-become (order_of_cancelled payload) cancelled o r e)
  shape_of-version _ payload o r e = cc
