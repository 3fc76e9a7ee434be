-- ===== src/Inventory/Store/Atomicity.antt =====
-- The repository's transactions leave nothing behind when they fail, over all their retries:
-- services/inventory/internal/infra/postgres/inventory_repository.go.
use event_driven_order_fulfi.Common.{
  ℕ, zero, suc, Bool, true, false, Option, none, some, List, [], ◌∷◌, Outcome, ok, err, or_fail,
}
use event_driven_order_fulfi.Common.Int.{ℤ}
use event_driven_order_fulfi.Common.Session.{Session, Action, pure, continue}
use event_driven_order_fulfi.Common.Session.Drift.{
  Drift, Drift-refl, Drift-trans, Tentative, Tentative-pure, Tentative-raise, Tentative-lift,
  Tentative-read, Tentative-write, Tentative-begin, Tentative-bind, Tentative-if,
}
use event_driven_order_fulfi.Common.Session.Atomic.{
  Answered, Drift-Answered, Atomic, Atomic-Tentative, Atomic-rolled_back, Atomic-bind,
  Atomic-commit, Atomic-if, Failed,
}
use event_driven_order_fulfi.Common.Table.{lookup}
use event_driven_order_fulfi.Common.Text.{text_key}
use event_driven_order_fulfi.Platform.{Platform, Text, Uuid}
use event_driven_order_fulfi.Inventory.Stock.{
  new_sku, sku_not_found, reservation_not_found, Error, storage, StockItem, ReservationStatus,
}
use event_driven_order_fulfi.Inventory.Store.{
  Db, Updated, violation, missed, written, ReserveLine, ReservationRow, load_lines, change_line,
  change_lines, update_stock, after_update,
}
use event_driven_order_fulfi.Inventory.Store.Transitions.{
  find_row, finish, apply_change, transition_once, transition, retrying, change_for, transition_to,
  rehydrate_reservation, max_occ_retries,
}

-- An attempt that failed or asks for a retry.
abbrev pub Unfinished : {A : Type 0} → Outcome Error (Option A) → Type 0
Unfinished (ok none) = Unit
Unfinished (ok (some a)) = ⊥
Unfinished (err e) = Unit

pub after_update-Tentative : (u : Updated) → Tentative (after_update u)
unfolding after_update
after_update-Tentative violation = Tentative-raise storage
after_update-Tentative missed = Tentative-pure false
after_update-Tentative written = Tentative-pure true

change_line-Tentative :
    (change : ℤ → StockItem → Outcome Error StockItem) (ln : ReserveLine)
    → Tentative (change_line change ln)
unfolding change_line
change_line-Tentative change ln = Tentative-bind _ _ (Tentative-lift (new_sku ln.sku)) (λ sku.
    Tentative-bind _ _ (Tentative-read storage (λ (d : Db). lookup ln.sku d.stock)) (λ found.
      Tentative-bind _ _ (Tentative-lift (or_fail found sku_not_found)) (λ row.
        Tentative-bind _ _ (Tentative-lift (change ln.quantity (record row { sku = sku }))) (λ item.
          Tentative-bind _ _ (Tentative-write storage (update_stock ln.sku item row.version))
            after_update-Tentative))))

change_lines-Tentative :
    (change : ℤ → StockItem → Outcome Error StockItem) (lines : List ReserveLine)
    → Tentative (change_lines change lines)
unfolding change_lines
change_lines-Tentative change [] = Tentative-pure true
change_lines-Tentative change (ln ∷ rest) =
    Tentative-bind _ _ (change_line-Tentative change ln)
      (λ moved. Tentative-if moved _ _ (change_lines-Tentative change rest) (Tentative-pure false))

pub load_lines-Tentative : (i : Uuid) → Tentative (load_lines i)
unfolding load_lines
load_lines-Tentative i = Tentative-read storage _

module _ {A : Type 0} where
  abbrev or_retry : Action Db Error A → Option A → Action Db Error A
  or_retry more none = more
  or_retry more (some result) = pure result

  or_retry-undone :
      (more : Action Db Error A) (s : Session Db) (r : Outcome Error (Option A) × Session Db)
      → Answered s.turns
      → (Unfinished r.0 → Drift s r.1)
      → ((t : Session Db) → Answered t.turns → Failed (more t).0 → Drift t (more t).1)
      → Failed (continue r (or_retry more)).0
      → Drift s (continue r (or_retry more)).1
  or_retry-undone more s (ok none, t) n d k f = Drift-trans (d tt) (k t (Drift-Answered (d tt) n) f)
  or_retry-undone more s (ok (some a), t) n d k f = absurd f
  or_retry-undone more s (err e, t) n d k f = d tt

  pub retrying-undone :
      (once : ℕ → Action Db Error (Option A))
      → ((left : ℕ) → Atomic Unfinished (once left))
      → (left : ℕ) (s : Session Db) → Answered s.turns
      → Failed (retrying left once s).0
      → Drift s (retrying left once s).1
  unfolding retrying
  retrying-undone once h zero s n f = Drift-refl s
  retrying-undone once h (suc left) s n f =
      or_retry-undone (retrying left once) s (once left s) n ((h left).undone s n)
        (retrying-undone once h left) f

module _ ⦃p : Platform⦄ where
  pub find_row-Tentative : (i : Text) → Tentative (find_row i)
  unfolding find_row
  find_row-Tentative i = Tentative-read storage _

  finish-Atomic :
      (row : ReservationRow) (i : Text) (target : ReservationStatus) (lines : List ReserveLine)
      → Atomic Unfinished (finish row i target lines)
  unfolding finish
  finish-Atomic row i target lines =
      Atomic-bind _ _ (Tentative-write storage _) (λ _. Atomic-commit storage _ (λ h. h))

  apply_change-Atomic :
      (changed : Bool) (row : ReservationRow) (i : Text) (target : ReservationStatus)
      (lines : List ReserveLine)
      → Atomic Unfinished (apply_change changed row i target lines)
  unfolding apply_change
  apply_change-Atomic false row i target lines = Atomic-Tentative (Tentative-pure _)
  apply_change-Atomic true row i target lines =
      Atomic-bind _ _ (change_lines-Tentative (change_for target) lines) (λ moved.
        Atomic-if moved _ _ (finish-Atomic row i target lines)
          (Atomic-Tentative (Tentative-pure none)))

  transition_once-Atomic :
      (i : Text) (target : ReservationStatus) → Atomic Unfinished (transition_once i target)
  unfolding transition_once
  transition_once-Atomic i target = Atomic-rolled_back (
      Atomic-bind _ _ (Tentative-begin storage) (λ _.
        Atomic-bind _ _ (find_row-Tentative i) (λ found.
          Atomic-bind _ _ (Tentative-lift (or_fail found reservation_not_found)) (λ row.
            Atomic-bind _ _ (load_lines-Tentative row.id) (λ lines.
              Atomic-bind _ _
                (Tentative-lift (rehydrate_reservation (p.uuid_string row.id) i row.status lines))
                (λ res.
                  Atomic-bind _ _ (Tentative-lift (transition_to target res))
                    (λ answer. apply_change-Atomic answer.0 row i target lines)))))))

  -- If a release or a commit of a reservation fails, after any number of retries, then what is
  -- committed afterwards is what other sessions have made of the database: no ledger entry and no
  -- status is changed. It is assumed that every statement gets its reply.
  pub transition_atomic :
      (i : Text) (target : ReservationStatus) (s : Session Db)
      → Answered s.turns
      → Failed (transition i target s).0
      → Drift s (transition i target s).1
  unfolding transition
  transition_atomic i target s n f =
      retrying-undone (λ _. transition_once i target) (λ _. transition_once-Atomic i target)
        max_occ_retries s n f
