-- ===== src/Inventory/Store.antt =====
-- The inventory service's database and its repository,
-- services/inventory/internal/infra/postgres/inventory_repository.go: the holding of stock and the
-- two transitions, each one transaction with optimistic retries. A generated reservation id is an
-- argument of each attempt; time stamps of rows are left out. Texts are compared by code points.
pub mod Transitions
pub mod Holding
pub mod Atomicity
pub mod HoldAtomicity
pub mod Replays
use event_driven_order_fulfi.Common.{
  ℕ, zero, suc, ◌≡◌, Bool, true, false, ◌||◌, Option, none, some, List, [], ◌∷◌, ◌++◌, nat_beq, ltb,
  map, if◌then◌else◌, Outcome, ok, err, or_fail, ◌==◌,
}
use event_driven_order_fulfi.Common
use event_driven_order_fulfi.Common.Int.{ℤ, pos, ltb_ℤ, add64}
use event_driven_order_fulfi.Common.Text.{text_lt, text_key}
use event_driven_order_fulfi.Common.Table.{Table, lookup, put}
use event_driven_order_fulfi.Common.Session.{
  Session, Action, pure, raise, lift, read, write, exec, begin, commit, rolled_back, ◌>>=◌, ◌>>◌,
}
use event_driven_order_fulfi.Platform.{Platform, Text, Uuid}
use event_driven_order_fulfi.Inventory.Stock.{
  Error, sku_not_found, reservation_not_found, concurrency, invalid_transition, storage, StockItem,
  ReservationStatus, held, committed, released, ReservationLine, Reservation, new_sku, new_quantity,
  parse_order_id, parse_reservation_id, release_reservation, commit_reservation,
}
use event_driven_order_fulfi.Inventory.Stock

pub record ReserveLine : Type 0 where
  pub sku : Text
  pub quantity : ℤ

pub record ReservationResult : Type 0 where
  pub reservation_id : Text
  pub order_id : Text
  pub status : ReservationStatus
  pub lines : List ReserveLine
  pub idempotent : Bool

-- Rows of `reservations` and of `reservation_lines`.
pub record ReservationRow : Type 0 where
  pub id : Uuid
  pub order_id : Uuid
  pub status : ReservationStatus

pub record LineRow : Type 0 where
  pub reservation_id : Uuid
  pub line : ReserveLine

-- A row of `stock_items` is an entry of the domain's ledger.
pub record Db : Type 0 where
  pub stock : Table Text StockItem
  pub reservations : List ReservationRow
  pub lines : List LineRow

insert_by_sku : ReserveLine → List ReserveLine → List ReserveLine
insert_by_sku l [] = l ∷ []
insert_by_sku l (m ∷ rest) =
    let later = insert_by_sku l rest in if text_lt m.sku l.sku then m ∷ later else l ∷ m ∷ rest

-- `sort.Slice` by SKU, and ORDER BY sku. No two lines of a reservation have one SKU.
unfoldable pub by_sku : List ReserveLine → List ReserveLine
unfolding insert_by_sku
by_sku [] = []
by_sku (l ∷ rest) = insert_by_sku l (by_sku rest)

unfoldable pub lines_from : Uuid → List LineRow → List ReserveLine
lines_from i [] = []
lines_from i (r ∷ rows) =
    let rest = lines_from i rows in if nat_beq r.reservation_id i then r.line ∷ rest else rest

-- `loadLines`
unfoldable pub load_lines : Uuid → Action Db Error (List ReserveLine)
unfolding lines_from by_sku
load_lines i = read storage (λ d. by_sku (lines_from i d.lines))

-- What an UPDATE guarded by the version does: it breaks a CHECK of the table, finds no row, or writes.
pub data Updated : Type 0 where
  violation missed written : Updated

-- UPDATE stock_items … WHERE sku = $3 AND version = $4
write_stock : Text → StockItem → ℤ → Db → Option StockItem → Updated × Db
write_stock sku item version d none = (missed, d)
write_stock sku item version d (some row) =
    if ltb_ℤ row.version version || ltb_ℤ version row.version
    then (missed, d)
    else if ltb_ℤ item.available (pos 0) || ltb_ℤ item.reserved (pos 0)
    then (violation, d)
    else (
      written,
      record d {
        stock =
            put sku
              (record row {
                available = item.available;
                reserved = item.reserved;
                version = add64 row.version (pos 1);
              })
              d.stock;
      },
    )

unfoldable pub update_stock : Text → StockItem → ℤ → Db → Updated × Db
unfolding write_stock
update_stock sku item version d = write_stock sku item version d (lookup sku d.stock)

-- UPDATE reservations SET status = $1 WHERE id = $2
unfoldable pub set_status : ReservationStatus → Uuid → List ReservationRow → List ReservationRow
set_status st i [] = []
set_status st i (r ∷ rows) =
    (if nat_beq r.id i then record r { status = st } else r) ∷ set_status st i rows

-- `UpsertStock`
upserted : Text → ℤ → Option StockItem → StockItem
upserted sku available none = record {
  sku = sku;
  available = available;
  reserved = pos 0;
  version = pos 0;
}
upserted sku available (some row) = record row {
  available = available;
  version = add64 row.version (pos 1);
}

unfoldable pub upsert_stock : Text → ℤ → Action Db Error (Unit {0})
unfolding upserted
upsert_stock sku available =
    exec storage (λ d.
      (tt, record d { stock = put sku (upserted sku available (lookup sku d.stock)) d.stock }))

-- `GetStock`
unfoldable pub get_stock : Text → Action Db Error StockItem
get_stock sku = do
  found ← read storage (λ d. lookup sku d.stock)
  lift (or_fail found sku_not_found)

-- One line of a ledger change: the item that is loaded, changed and written back; `false` if its
-- version has moved.
unfoldable pub after_update : Updated → Action Db Error Bool
after_update violation = raise storage
after_update missed = pure false
after_update written = pure true

unfoldable pub change_line :
    (ℤ → StockItem → Outcome Error StockItem) → ReserveLine → Action Db Error Bool
unfolding update_stock after_update
change_line change ln = do
  sku ← lift (new_sku ln.sku)
  found ← read storage (λ d. lookup ln.sku d.stock)
  row ← lift (or_fail found sku_not_found)
  item ← lift (change ln.quantity (record row { sku = sku }))
  updated ← write storage (update_stock ln.sku item row.version)
  after_update updated

-- The loop over the lines; `false` asks for a retry of the transaction.
unfoldable pub change_lines :
    (ℤ → StockItem → Outcome Error StockItem) → List ReserveLine → Action Db Error Bool
unfolding change_line
change_lines change [] = pure true
change_lines change (ln ∷ rest) = do
  moved ← change_line change ln
  if moved then change_lines change rest else pure false
