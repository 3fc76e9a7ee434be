-- ===== src/Inventory/Store/Transitions.antt =====
-- `Release` and `Commit` of the repository:
-- services/inventory/internal/infra/postgres/inventory_repository.go.
use event_driven_order_fulfi.Common.{
  ℕ, zero, suc, ◌≡◌, Bool, true, false, Option, none, some, List, [], ◌∷◌, if◌then◌else◌, Outcome,
  ok, err, or_fail, ◌==◌,
}
use event_driven_order_fulfi.Common
use event_driven_order_fulfi.Common.Int.{ℤ}
use event_driven_order_fulfi.Common.Text.{text_key}
use event_driven_order_fulfi.Common.Session.{
  Action, pure, raise, lift, read, write, begin, commit, rolled_back, ◌>>=◌, ◌>>◌,
}
use event_driven_order_fulfi.Platform.{Platform, Text}
use event_driven_order_fulfi.Inventory.Stock.{
  Error, reservation_not_found, concurrency, invalid_transition, storage, StockItem,
  ReservationStatus, held, committed, released, ReservationLine, Reservation, new_sku, new_quantity,
  parse_order_id, parse_reservation_id, release_reservation, commit_reservation,
}
use event_driven_order_fulfi.Inventory.Stock
use event_driven_order_fulfi.Inventory.Store.{
  Db, ReserveLine, ReservationResult, ReservationRow, load_lines, change_lines, set_status,
}

-- The loop of `rehydrateReservation`.
unfoldable pub domain_lines : List ReserveLine → Outcome Error (List ReservationLine)
domain_lines [] = ok []
domain_lines (ln ∷ rest) = Common.◌>>=◌ (new_sku ln.sku) λ sku.
    Common.◌>>=◌ (new_quantity ln.quantity) λ qty.
      Common.◌>>=◌ (domain_lines rest) λ lines. ok (record { sku = sku; quantity = qty } ∷ lines)

-- The method of the aggregate and the one of its ledger entries, by target.
abbrev pub transition_to : ReservationStatus → Reservation → Outcome Error (Bool × Reservation)
transition_to released res = release_reservation res
transition_to committed res = commit_reservation res
transition_to held res = err invalid_transition

abbrev pub change_for : ReservationStatus → ℤ → StockItem → Outcome Error StockItem
change_for released = Stock.release
change_for committed = Stock.commit
change_for held = λ qty item. ok item

module _ ⦃p : Platform⦄ where
  -- SELECT … FROM reservations WHERE order_id = $1
  unfoldable pub row_of_order : Text → List ReservationRow → Option ReservationRow
  row_of_order i [] = none
  row_of_order i (r ∷ rows) = if p.uuid_string r.order_id == i then some r else row_of_order i rows

  unfoldable pub find_row : Text → Action Db Error (Option ReservationRow)
  unfolding row_of_order
  find_row i = read storage (λ d. row_of_order i d.reservations)

  unfoldable pub rehydrate_reservation :
      Text → Text → ReservationStatus → List ReserveLine → Outcome Error Reservation
  unfolding domain_lines
  rehydrate_reservation id order_id status lines = Common.◌>>=◌ (parse_reservation_id id) λ rid.
      Common.◌>>=◌ (parse_order_id order_id) λ oid.
        Common.◌>>=◌ (domain_lines lines)
          λ domain. ok (record { id = rid; order_id = oid; status = status; lines = domain })

  abbrev pub result_of :
      ReservationRow → Text → ReservationStatus → List ReserveLine → Bool → ReservationResult
  result_of row i st lines idempotent = record {
    reservation_id = p.uuid_string row.id;
    order_id = i;
    status = st;
    lines = lines;
    idempotent = idempotent;
  }

  -- The end of the transaction, once all lines are written.
  unfoldable pub finish :
      ReservationRow
      → Text
      → ReservationStatus
      → List ReserveLine
      → Action Db Error (Option ReservationResult)
  unfolding set_status
  finish row i target lines = do
    write storage (λ d. (tt, record d { reservations = set_status target row.id d.reservations }))
    commit storage >> pure (some (result_of row i target lines false))

  -- What follows the aggregate's answer: nothing if it was in the target status.
  unfoldable pub apply_change :
      Bool
      → ReservationRow
      → Text
      → ReservationStatus
      → List ReserveLine
      → Action Db Error (Option ReservationResult)
  apply_change false row i target lines = pure (some (result_of row i target lines true))
  apply_change true row i target lines = do
    moved ← change_lines (change_for target) lines
    if moved then finish row i target lines else pure none

  -- `transitionOnce`; none asks for a retry.
  unfoldable pub transition_once :
      Text → ReservationStatus → Action Db Error (Option ReservationResult)
  transition_once i target = rolled_back (do
    begin storage
    found ← find_row i
    row ← lift (or_fail found reservation_not_found)
    lines ← load_lines row.id
    res ← lift (rehydrate_reservation (p.uuid_string row.id) i row.status lines)
    answer ← lift (transition_to target res)
    apply_change answer.0 row i target lines)

abbrev pub max_occ_retries : ℕ
max_occ_retries = 5

-- The loop over the attempts of a transaction; the number counts the ones that are left.
unfoldable pub retrying : {A : Type 0} → ℕ → (ℕ → Action Db Error (Option A)) → Action Db Error A
retrying zero once = raise concurrency
retrying (suc left) once = do
  answer ← once left
  elim answer [ none ↦ retrying left once | some result ↦ pure result ]

module _ ⦃p : Platform⦄ where
  unfoldable pub transition : Text → ReservationStatus → Action Db Error ReservationResult
  unfolding retrying
  transition i target = retrying max_occ_retries (λ _. transition_once i target)

  unfoldable pub release : Text → Action Db Error ReservationResult
  release i = transition i released

  unfoldable pub commit_stock : Text → Action Db Error ReservationResult
  commit_stock i = transition i committed
