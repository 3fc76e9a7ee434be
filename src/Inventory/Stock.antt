-- ===== src/Inventory/Stock.antt =====
-- The stock ledger and the reservation aggregate:
-- services/inventory/internal/domain/inventory/{stock_item,reservation,value_objects,errors}.go.
pub mod Ledger
pub mod Lifecycle
use event_driven_order_fulfi.Common.{
  ◌≡◌, Bool, true, false, ◌||◌, ◌&&◌, Option, none, some, List, [], ◌∷◌, ltb, if◌then◌else◌,
  Outcome, ok, err, ◌>>=◌, or_fail,
}
use event_driven_order_fulfi.Common.Int.{ℤ, pos, ltb_ℤ, leb_ℤ, add64, sub64}
use event_driven_order_fulfi.Common.Text.{text_beq, byte_len, trim_space}
use event_driven_order_fulfi.Platform.{Platform, Text, Uuid}

-- The sentinels of errors.go; `storage` is any error that wraps none of them.
pub data Error : Type 0 where
  validation invalid_identifier sku_not_found insufficient_stock reservation_not_found concurrency
        invalid_transition storage :
      Error

unfoldable pub new_sku : Text → Outcome Error Text
new_sku s =
    let t = trim_space s in if text_beq t [] || ltb 64 (byte_len t) then err validation else ok t

unfoldable pub new_quantity : ℤ → Outcome Error ℤ
new_quantity v = if leb_ℤ v (pos 0) || ltb_ℤ (pos 100000) v then err validation else ok v

module _ ⦃p : Platform⦄ where
  unfoldable pub parse_order_id : Text → Outcome Error Uuid
  parse_order_id s = or_fail (p.uuid_parse (trim_space s)) invalid_identifier

  unfoldable pub parse_reservation_id : Text → Outcome Error Uuid
  parse_reservation_id s = or_fail (p.uuid_parse (trim_space s)) invalid_identifier

pub record StockItem : Type 0 where
  pub sku : Text
  pub available : ℤ
  pub reserved : ℤ
  pub version : ℤ

unfoldable pub new_stock_item : Text → ℤ → Outcome Error StockItem
new_stock_item sku available =
    if ltb_ℤ available (pos 0)
    then err validation
    else ok (record { sku = sku; available = available; reserved = pos 0; version = pos 0 })

unfoldable pub reserve : ℤ → StockItem → Outcome Error StockItem
reserve qty s =
    if leb_ℤ qty (pos 0)
    then err validation
    else if ltb_ℤ s.available qty
    then err insufficient_stock
    else ok (record s { available = sub64 s.available qty; reserved = add64 s.reserved qty })

unfoldable pub release : ℤ → StockItem → Outcome Error StockItem
release qty s =
    if leb_ℤ qty (pos 0)
    then err validation
    else if ltb_ℤ s.reserved qty
    then err validation
    else ok (record s { reserved = sub64 s.reserved qty; available = add64 s.available qty })

unfoldable pub commit : ℤ → StockItem → Outcome Error StockItem
commit qty s =
    if leb_ℤ qty (pos 0)
    then err validation
    else if ltb_ℤ s.reserved qty
    then err validation
    else ok (record s { reserved = sub64 s.reserved qty })

pub data ReservationStatus : Type 0 where
  held committed released : ReservationStatus

pub record ReservationLine : Type 0 where
  pub sku : Text
  pub quantity : ℤ

pub record Reservation : Type 0 where
  pub id : Uuid
  pub order_id : Uuid
  pub status : ReservationStatus
  pub lines : List ReservationLine

abbrev pub member : Text → List Text → Bool
member s [] = false
member s (t ∷ seen) = text_beq s t || member s seen

-- The loop over the lines; `seen` are the SKUs before.
unfoldable pub has_duplicate : List Text → List ReservationLine → Bool
has_duplicate seen [] = false
has_duplicate seen (l ∷ rest) = member l.sku seen || has_duplicate (l.sku ∷ seen) rest

unfoldable pub new_reservation : Uuid → Uuid → List ReservationLine → Outcome Error Reservation
new_reservation id order_id [] = err validation
new_reservation id order_id (l ∷ rest) =
    if has_duplicate [] (l ∷ rest)
    then err validation
    else ok (record { id = id; order_id = order_id; status = held; lines = l ∷ rest })

-- `Reservation.Release` and `Reservation.Commit`: whether the status changed, and the aggregate.
release_from : ReservationStatus → Reservation → Outcome Error (Bool × Reservation)
release_from released r = ok (false, r)
release_from held r = ok (true, record r { status = released })
release_from committed r = err invalid_transition

unfoldable pub release_reservation : Reservation → Outcome Error (Bool × Reservation)
unfolding release_from
release_reservation r = release_from r.status r

commit_from : ReservationStatus → Reservation → Outcome Error (Bool × Reservation)
commit_from committed r = ok (false, r)
commit_from held r = ok (true, record r { status = committed })
commit_from released r = err invalid_transition

unfoldable pub commit_reservation : Reservation → Outcome Error (Bool × Reservation)
unfolding commit_from
commit_reservation r = commit_from r.status r
