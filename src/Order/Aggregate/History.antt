-- ===== src/Order/Aggregate/History.antt =====
-- Event sourcing: the state in memory is the fold of the stored history and the staged events.
use event_driven_order_fulfi.Common.{
  ◌≡◌, refl, sym, ◌∙◌, ap, subst, List, [], ◌∷◌, ◌++◌, ok, arith, inl, inr, Outcome-cases, ◌≢◌,
}
use mathlib.Core.List.{append_assoc, append-nil}
use event_driven_order_fulfi.Platform.{Text, Time, nil_uuid}
use event_driven_order_fulfi.Order.Values.{
  OrderId, CustomerId, Money, LineItem, Address, Status, pending, confirmed, cancelled,
}
use event_driven_order_fulfi.Order.Aggregate.{
  DomainEvent, placed, confirmed_at, cancelled_at, Order, new_order, apply, raise, replay,
  rehydrate, place_order, total_of, confirm, confirm_from, cancel, cancel_from,
  mark_changes_committed,
}

pub replay-append : (o : Order) (h k : List DomainEvent) → replay o (h ++ k) ≡ replay (replay o h) k
unfolding replay
replay-append o [] k = refl
replay-append o (e ∷ h) k = replay-append _ h k

replay_one :
    (o : Order) (e : DomainEvent)
    → replay (mark_changes_committed o) (e ∷ []) ≡ mark_changes_committed (raise e o)
unfolding replay mark_changes_committed raise apply
replay_one o (placed ev) = refl
replay_one o (confirmed_at i t) = refl
replay_one o (cancelled_at i r t) = refl

-- Loading the history and the staged events gives the state in memory.
abbrev pub IsSourced : List DomainEvent → Order → Type 0
IsSourced history o = replay new_order (history ++ o.changes) ≡ mark_changes_committed o

pub raise_changes : (e : DomainEvent) (o : Order) → (raise e o).changes ≡ o.changes ++ e ∷ []
unfolding raise apply
raise_changes (placed ev) o = refl
raise_changes (confirmed_at i t) o = refl
raise_changes (cancelled_at i r t) o = refl

raise-IsSourced :
    (h : List DomainEvent) (e : DomainEvent) (o : Order) → IsSourced h o → IsSourced h (raise e o)
raise-IsSourced h e o s =
    ap (λ c. replay new_order (h ++ c)) (raise_changes e o)
    ∙ ap (replay new_order) (sym (append_assoc h o.changes (e ∷ [])))
    ∙ replay-append new_order (h ++ o.changes) (e ∷ [])
    ∙ ap (λ r. replay r (e ∷ [])) s
    ∙ replay_one o e

new_order-IsSourced : IsSourced [] new_order
unfolding replay mark_changes_committed
new_order-IsSourced = refl

-- The order that `place_order` makes once the total is known.
abbrev pub placement : OrderId → CustomerId → List LineItem → Address → Time → Money → Order
placement i c items a t total =
    raise
      (placed (record {
        order_id = i;
        customer_id = c;
        items = items;
        ship_to = a;
        total = total;
        placed_at = t;
      }))
      new_order

pub place_order-inv :
    (i : OrderId) (c : CustomerId) (items : List LineItem) (a : Address) (t : Time) {o : Order}
    → place_order i c items a t ≡ ok o
    → (i ≢ nil_uuid)
      × ((total : Money) × (total_of items ≡ ok total) × (o ≡ placement i c items a t total))
unfolding place_order
place_order-inv i c items a t h = elim (Outcome-cases (total_of items)) [
  | inl (total, e) ↦ (ground arith, (total, e, ground arith))
  | inr (x, e) ↦ ground arith
]

place_order-IsSourced :
    (i : OrderId) (c : CustomerId) (items : List LineItem) (a : Address) (t : Time) {o : Order}
    → place_order i c items a t ≡ ok o
    → IsSourced [] o
place_order-IsSourced i c items a t h =
    let (_, (total, _, e)) = place_order-inv i c items a t h in
    subst (IsSourced []) (sym e) (raise-IsSourced [] _ new_order new_order-IsSourced)

confirm_from-IsSourced :
    (st : Status) (h : List DomainEvent) (t : Time) (o o' : Order)
    → IsSourced h o
    → confirm_from st t o ≡ ok o'
    → IsSourced h o'
unfolding confirm_from
confirm_from-IsSourced confirmed h t o o' s e = subst (IsSourced h) (cc) s
confirm_from-IsSourced pending h t o o' s e =
    subst (IsSourced h) (cc) (raise-IsSourced h (confirmed_at o.id t) o s)
confirm_from-IsSourced _ h t o o' s e = cc

cancel_from-IsSourced :
    (st : Status) (h : List DomainEvent) (r : Text) (t : Time) (o o' : Order)
    → IsSourced h o
    → cancel_from st r t o ≡ ok o'
    → IsSourced h o'
unfolding cancel_from
cancel_from-IsSourced cancelled h r t o o' s e = subst (IsSourced h) (cc) s
cancel_from-IsSourced pending h r t o o' s e =
    subst (IsSourced h) (cc) (raise-IsSourced h (cancelled_at o.id r t) o s)
cancel_from-IsSourced _ h r t o o' s e = cc

-- An order as the program can come to hold it, with the history that is stored for it: newly
-- placed, loaded from a stored history, or after a call of `Confirm` or `Cancel` that succeeded.
pub data Holds : List DomainEvent → Order → Type 0 where
  places :
      (i : OrderId) (c : CustomerId) (items : List LineItem) (a : Address) (t : Time) {o : Order}
      → place_order i c items a t ≡ ok o
      → Holds [] o
  loads : {h : List DomainEvent} {o : Order} → rehydrate h ≡ ok o → Holds h o
  confirms :
      {h : List DomainEvent} {o o' : Order} (t : Time)
      → Holds h o
      → confirm t o ≡ ok o'
      → Holds h o'
  cancels :
      {h : List DomainEvent} {o o' : Order} (r : Text) (t : Time)
      → Holds h o
      → cancel r t o ≡ ok o'
      → Holds h o'

pub replay-changes : (o : Order) (h : List DomainEvent) → (replay o h).changes ≡ o.changes
unfolding replay apply
replay-changes o [] = refl
replay-changes o (placed ev ∷ h) = replay-changes _ h
replay-changes o (confirmed_at i t ∷ h) = replay-changes _ h
replay-changes o (cancelled_at i r t ∷ h) = replay-changes _ h

cleared : (o : Order) → o.changes ≡ [] → o ≡ mark_changes_committed o
unfolding mark_changes_committed
cleared o e = ap (λ c. record o { changes = c }) e

rehydrate-IsSourced : (h : List DomainEvent) {o : Order} → rehydrate h ≡ ok o → IsSourced h o
unfolding rehydrate
rehydrate-IsSourced [] e = cc
rehydrate-IsSourced (x ∷ h) {o} e =
    let loaded : replay new_order (x ∷ h) ≡ o = cc in
    let clean : o.changes ≡ [] = rw (← loaded) (replay-changes new_order (x ∷ h)) in
    ap (λ c. replay new_order (x ∷ h ++ c)) clean
    ∙ ap (replay new_order) (append-nil (x ∷ h))
    ∙ loaded
    ∙ cleared o clean

-- Every order that the program holds is the fold of its stored history and its staged events: what
-- `Rehydrate` gives after a save is the state in memory with the staged events cleared.
pub Holds-IsSourced : {h : List DomainEvent} {o : Order} → Holds h o → IsSourced h o
unfolding confirm cancel
Holds-IsSourced (places i c items a t e) = place_order-IsSourced i c items a t e
Holds-IsSourced (loads {h = h} e) = rehydrate-IsSourced h e
Holds-IsSourced (confirms {h = h} {o = o} {o' = o'} t k e) =
    confirm_from-IsSourced o.status h t o o' (Holds-IsSourced k) e
Holds-IsSourced (cancels {h = h} {o = o} {o' = o'} r t k e) =
    cancel_from-IsSourced o.status h r t o o' (Holds-IsSourced k) e
