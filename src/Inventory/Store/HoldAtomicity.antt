-- ===== src/Inventory/Store/HoldAtomicity.antt =====
-- Holding stock leaves nothing behind when it fails:
-- services/inventory/internal/infra/postgres/inventory_repository.go.
use event_driven_order_fulfi.Common.{
  ℕ, refl, Bool, true, false, Option, none, some, List, [], ◌∷◌, or_fail,
}
use event_driven_order_fulfi.Common.Table.{lookup}
use event_driven_order_fulfi.Common.Text.{text_key}
use event_driven_order_fulfi.Common.Session.{Session}
use event_driven_order_fulfi.Common.Session.Drift.{
  Drift, Tentative, Tentative-pure, Tentative-raise, Tentative-lift, Tentative-read,
  Tentative-write, Tentative-begin, Tentative-bind, Tentative-if,
}
use event_driven_order_fulfi.Common.Session.Atomic.{
  Answered, Atomic, Atomic-Tentative, Atomic-rolled_back, Atomic-bind, Atomic-commit, Atomic-if,
  Failed,
}
use event_driven_order_fulfi.Platform.{Platform, Text, Uuid}
use event_driven_order_fulfi.Inventory.Stock.{Error, storage, sku_not_found, StockItem, new_sku}
use event_driven_order_fulfi.Inventory.Stock
use event_driven_order_fulfi.Inventory.Store.{
  Db, Updated, ReserveLine, ReservationResult, ReservationRow, by_sku, update_stock,
}
use event_driven_order_fulfi.Inventory.Store.Transitions.{max_occ_retries}
use event_driven_order_fulfi.Inventory.Store.Atomicity.{
  Unfinished, retrying-undone, after_update-Tentative, load_lines-Tentative, find_row-Tentative,
}
use event_driven_order_fulfi.Inventory.Store.Holding.{
  reserve_items, write_items, insert_reservation, insert_lines, rollback, find_reservation_by_order,
  found_reservation, lost_race, created, insert_reservation_row, hold, reserve_once, reserve,
  or_held, or_missing,
}

reserve_items-Tentative : (lines : List ReserveLine) → Tentative (reserve_items lines)
unfolding reserve_items
reserve_items-Tentative [] = Tentative-pure []
reserve_items-Tentative (ln ∷ rest) = Tentative-bind _ _ (Tentative-lift (new_sku ln.sku)) (λ sku.
    Tentative-bind _ _ (Tentative-read storage (λ (d : Db). lookup ln.sku d.stock)) (λ found.
      Tentative-bind _ _ (Tentative-lift (or_fail found sku_not_found)) (λ row.
        Tentative-bind _ _ (Tentative-lift (Stock.reserve ln.quantity (record row { sku = sku })))
          (λ item.
            Tentative-bind _ _ (reserve_items-Tentative rest)
              (λ items. Tentative-pure (item ∷ items))))))

write_items-Tentative : (items : List StockItem) → Tentative (write_items items)
unfolding write_items
write_items-Tentative [] = Tentative-pure true
write_items-Tentative (item ∷ rest) =
    Tentative-bind _ _ (Tentative-write storage (update_stock item.sku item item.version))
      (λ (updated : Updated).
        Tentative-bind _ _ (after_update-Tentative updated)
          (λ moved. Tentative-if moved _ _ (write_items-Tentative rest) (Tentative-pure false)))

insert_lines-Tentative : (id : Uuid) (lines : List ReserveLine) → Tentative (insert_lines id lines)
unfolding insert_lines
insert_lines-Tentative id [] = Tentative-pure tt
insert_lines-Tentative id (ln ∷ rest) =
    Tentative-bind _ _ (Tentative-write storage _) (λ _. insert_lines-Tentative id rest)

rollback-Tentative : Tentative rollback
rollback-Tentative = record {
  drift = λ s. record { taken = []; turns_eq = refl; committed_eq = refl };
}

module _ ⦃p : Platform⦄ where
  found_reservation-Tentative :
      (i : Text) (found : Option ReservationRow) → Tentative (found_reservation i found)
  unfolding found_reservation
  found_reservation-Tentative i none = Tentative-pure none
  found_reservation-Tentative i (some row) =
      Tentative-bind _ _ (load_lines-Tentative row.id) (λ lines. Tentative-pure _)

  find_reservation-Tentative : (i : Text) → Tentative (find_reservation_by_order i)
  unfolding find_reservation_by_order
  find_reservation-Tentative i =
      Tentative-bind _ _ (find_row-Tentative i) (found_reservation-Tentative i)

  or_missing-Tentative : (found : Option ReservationResult) → Tentative (or_missing found)
  or_missing-Tentative none = Tentative-raise storage
  or_missing-Tentative (some existing) = Tentative-pure _

  lost_race-Tentative : (i : Text) → Tentative (lost_race i)
  unfolding lost_race
  lost_race-Tentative i =
      Tentative-bind _ _ rollback-Tentative
        (λ _. Tentative-bind _ _ (find_reservation-Tentative i) or_missing-Tentative)

  created-Atomic :
      (id : Uuid) (i : Text) (lines : List ReserveLine) (inserted : Bool)
      → Atomic Unfinished (created id i lines inserted)
  unfolding created
  created-Atomic id i lines false = Atomic-Tentative (lost_race-Tentative i)
  created-Atomic id i lines true =
      Atomic-bind _ _ (insert_lines-Tentative id lines) (λ _. Atomic-commit storage _ (λ h. h))

  insert_row-Atomic :
      (id oid : Uuid) (lines : List ReserveLine)
      → Atomic Unfinished (insert_reservation_row id oid lines)
  unfolding insert_reservation_row
  insert_row-Atomic id oid lines =
      Atomic-bind _ _ (Tentative-write storage (insert_reservation id oid))
        (created-Atomic id (p.uuid_string oid) lines)

  hold-Atomic : (id oid : Uuid) (lines : List ReserveLine) → Atomic Unfinished (hold id oid lines)
  unfolding hold
  hold-Atomic id oid lines = Atomic-bind _ _ (reserve_items-Tentative lines) (λ items.
      Atomic-bind _ _ (write_items-Tentative items) (λ moved.
        Atomic-if moved _ _ (insert_row-Atomic id oid lines)
          (Atomic-Tentative (Tentative-pure none))))

  or_held-Atomic :
      (id oid : Uuid) (lines : List ReserveLine) (found : Option ReservationResult)
      → Atomic Unfinished (or_held id oid lines found)
  or_held-Atomic id oid lines none = hold-Atomic id oid lines
  or_held-Atomic id oid lines (some existing) = Atomic-Tentative (Tentative-pure _)

  reserve_once-Atomic :
      (id oid : Uuid) (lines : List ReserveLine) → Atomic Unfinished (reserve_once id oid lines)
  unfolding reserve_once
  reserve_once-Atomic id oid lines = Atomic-rolled_back (
      Atomic-bind _ _ (Tentative-begin storage) (λ _.
        Atomic-bind _ _ (find_reservation-Tentative (p.uuid_string oid))
          (or_held-Atomic id oid lines)))

  -- If a reservation of several lines fails, be it for one SKU that is short or unknown, for a lost
  -- race or for a failed statement, and after any number of retries, then no line is held: what is
  -- committed afterwards is what other sessions have made of the database. It is assumed that every
  -- statement gets its reply.
  pub reserve_atomic :
      (ids : ℕ → Uuid) (oid : Uuid) (lines : List ReserveLine) (s : Session Db)
      → Answered s.turns
      → Failed (reserve ids oid lines s).0
      → Drift s (reserve ids oid lines s).1
  unfolding reserve
  reserve_atomic ids oid lines s n f =
      retrying-undone (λ left. reserve_once (ids left) oid (by_sku lines))
        (λ left. reserve_once-Atomic (ids left) oid (by_sku lines)) max_occ_retries s n f
