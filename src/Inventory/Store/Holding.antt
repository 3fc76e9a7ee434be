-- ===== src/Inventory/Store/Holding.antt =====
-- `Reserve` of the repository:
-- services/inventory/internal/infra/postgres/inventory_repository.go.
use event_driven_order_fulfi.Common.{
  ℕ, Bool, true, false, Option, none, some, List, [], ◌∷◌, ◌++◌, nat_beq, ◌||◌, if◌then◌else◌, ok,
  or_fail,
}
use event_driven_order_fulfi.Common.Text.{text_key}
use event_driven_order_fulfi.Common.Table.{lookup}
use event_driven_order_fulfi.Common.Session.{
  Action, pure, raise, lift, read, write, begin, commit, rolled_back, ◌>>=◌, ◌>>◌,
}
use event_driven_order_fulfi.Platform.{Platform, Text, Uuid}
use event_driven_order_fulfi.Inventory.Stock.{
  Error, sku_not_found, reservation_not_found, storage, StockItem, ReservationStatus, held, new_sku,
}
use event_driven_order_fulfi.Inventory.Stock
use event_driven_order_fulfi.Inventory.Store.{
  Db, ReserveLine, ReservationResult, ReservationRow, by_sku, load_lines, update_stock,
  after_update,
}
use event_driven_order_fulfi.Inventory.Store.Transitions.{
  find_row, result_of, retrying, max_occ_retries,
}

-- The loop that loads each SKU and reserves it in memory.
unfoldable pub reserve_items : List ReserveLine → Action Db Error (List StockItem)
reserve_items [] = pure []
reserve_items (ln ∷ rest) = do
  sku ← lift (new_sku ln.sku)
  found ← read storage (λ d. lookup ln.sku d.stock)
  row ← lift (or_fail found sku_not_found)
  item ← lift (Stock.reserve ln.quantity (record row { sku = sku }))
  items ← reserve_items rest
  pure (item ∷ items)

-- The loop that writes the items back; `false` asks for a retry.
unfoldable pub write_items : List StockItem → Action Db Error Bool
unfolding update_stock after_update
write_items [] = pure true
write_items (item ∷ rest) = do
  updated ← write storage (update_stock item.sku item item.version)
  moved ← after_update updated
  if moved then write_items rest else pure false

-- The unique constraints on the id and on the order.
is_reserved : Uuid → Uuid → List ReservationRow → Bool
is_reserved id i [] = false
is_reserved id i (r ∷ rows) =
    if nat_beq r.id id || nat_beq r.order_id i then true else is_reserved id i rows

-- INSERT INTO reservations; `false` is a unique violation.
unfoldable pub insert_reservation : Uuid → Uuid → Db → Bool × Db
unfolding is_reserved
insert_reservation id i d = if is_reserved id i d.reservations then (false, d) else (
  true,
  record d {
    reservations = d.reservations ++ record { id = id; order_id = i; status = held } ∷ [];
  },
)

-- The loop that inserts the lines. The key and the CHECK of `reservation_lines` are not modelled: the
-- lines that the use case passes have distinct SKUs and positive quantities.
unfoldable pub insert_lines : Uuid → List ReserveLine → Action Db Error (Unit {0})
insert_lines id [] = pure tt
insert_lines id (ln ∷ rest) = do
  write storage
      (λ d. (tt, record d { lines = d.lines ++ record { reservation_id = id; line = ln } ∷ [] }))
  insert_lines id rest

-- `tx.Rollback`, whose error is ignored.
abbrev pub rollback : Action Db Error (Unit {0})
rollback s = (ok tt, record s { view = s.committed })

module _ ⦃p : Platform⦄ where
  unfoldable pub found_reservation :
      Text → Option ReservationRow → Action Db Error (Option ReservationResult)
  found_reservation i none = pure none
  found_reservation i (some row) =
      load_lines row.id >>= λ lines. pure (some (result_of row i row.status lines false))

  -- `findReservationByOrder`
  unfoldable pub find_reservation_by_order : Text → Action Db Error (Option ReservationResult)
  unfolding found_reservation
  find_reservation_by_order i = do found ← find_row i; found_reservation i found

  -- `GetReservation`
  unfoldable pub get_reservation : Text → Action Db Error ReservationResult
  get_reservation i = do
    found ← find_reservation_by_order i
    lift (or_fail found reservation_not_found)

  abbrev pub replayed : ReservationResult → ReservationResult
  replayed existing = record existing { idempotent = true }

  abbrev pub or_missing : Option ReservationResult → Action Db Error (Option ReservationResult)
  or_missing none = raise storage
  or_missing (some existing) = pure (some (replayed existing))

  -- After a unique violation: the reservation that a concurrent request has made.
  unfoldable pub lost_race : Text → Action Db Error (Option ReservationResult)
  lost_race i = do rollback; found ← find_reservation_by_order i; or_missing found

  unfoldable pub created :
      Uuid → Text → List ReserveLine → Bool → Action Db Error (Option ReservationResult)
  unfolding insert_lines
  created id i lines false = lost_race i
  created id i lines true = do
    insert_lines id lines
    commit storage
        >> pure (
            some (record {
              reservation_id = p.uuid_string id;
              order_id = i;
              status = held;
              lines = lines;
              idempotent = false;
            }))

  unfoldable pub insert_reservation_row :
      Uuid → Uuid → List ReserveLine → Action Db Error (Option ReservationResult)
  unfolding insert_reservation
  insert_reservation_row id oid lines =
      write storage (insert_reservation id oid) >>= created id (p.uuid_string oid) lines

  -- The part of `reserveOnce` behind the check for a reservation of the order. The order id is the
  -- text of a UUID, which the column stores.
  unfoldable pub hold : Uuid → Uuid → List ReserveLine → Action Db Error (Option ReservationResult)
  unfolding reserve_items write_items
  hold id oid lines = do
    items ← reserve_items lines
    moved ← write_items items
    if moved then insert_reservation_row id oid lines else pure none

  abbrev pub or_held :
      Uuid
      → Uuid
      → List ReserveLine
      → Option ReservationResult
      → Action Db Error (Option ReservationResult)
  or_held id oid lines none = hold id oid lines
  or_held id oid lines (some existing) = pure (some (replayed existing))

  -- `reserveOnce`; none asks for a retry.
  unfoldable pub reserve_once :
      Uuid → Uuid → List ReserveLine → Action Db Error (Option ReservationResult)
  reserve_once id oid lines = rolled_back (do
    begin storage
    found ← find_reservation_by_order (p.uuid_string oid)
    or_held id oid lines found)

  -- `Reserve`; `ids` are the generated ids of the attempts.
  unfoldable pub reserve : (ℕ → Uuid) → Uuid → List ReserveLine → Action Db Error ReservationResult
  unfolding retrying
  reserve ids oid lines =
      retrying max_occ_retries (λ left. reserve_once (ids left) oid (by_sku lines))
