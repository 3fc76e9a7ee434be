-- ===== src/Order/Aggregate/Totals.antt =====
-- When `PlaceOrder` accepts an order, and what its total is.
use event_driven_order_fulfi.Common.{
  ◌≡◌, ◌≢◌, refl, sym, ◌∙◌, List, [], ◌∷◌, map, Outcome, ok, err, arith, inl, inr, ◌↔◌, All,
  All-zip, All-unzip, All-map, subst, true, false, Bool-cases, >>=-ok,
}
use event_driven_order_fulfi.Common.Int.{add64}
use event_driven_order_fulfi.Common.Text.{text_beq, text_beq_iff}
use event_driven_order_fulfi.Platform.{Text, Time, nil_uuid}
use event_driven_order_fulfi.Order.Values.{
  Sku, Money, LineItem, Address, OrderId, CustomerId, add_money, line_total, validation, Error,
}
use event_driven_order_fulfi.Order.Aggregate.{Order, seen_in, sum_items, total_of, place_order}
use event_driven_order_fulfi.Order.Aggregate.History.{place_order-inv, placement}

-- No two entries are the same.
abbrev pub Distinct : List Sku → Type 0
Distinct [] = Unit
Distinct (k ∷ ks) = All (λ j. k ≢ j) ks × Distinct ks

-- The lines of an order that may stand together: their SKUs differ, also from those of `seen`, and
-- their prices are in one currency.
abbrev pub AreLines : List Sku → Text → List LineItem → Type 0
AreLines seen c items =
    All (λ li. All (λ j. j ≢ li.sku) seen) items
    × Distinct (map (λ li. li.sku) items)
    × All (λ li. li.unit_price.currency ≡ c) items

seen_in-false : (seen : List Sku) (k : Sku) → seen_in seen k ≡ false → All (λ j. j ≢ k) seen
unfolding seen_in
seen_in-false [] k h = tt
seen_in-false (j ∷ seen) k h = elim (Bool-cases (text_beq j k)) [
  | inl same ↦ absurd (clash (rw same at h))
  | inr other ↦
      (λ e. no_match (sym other ∙ (text_beq_iff j k).1 e), seen_in-false seen k (rw other at h))
]
  where
    clash : ¬ (true ≡ false)
    clash e = cc

    no_match : ¬ (false ≡ true)
    no_match e = cc

seen_in-All : (seen : List Sku) (k : Sku) → All (λ j. j ≢ k) seen → seen_in seen k ≡ false
unfolding seen_in
seen_in-All [] k h = refl
seen_in-All (j ∷ seen) k h = elim (Bool-cases (text_beq j k)) [
  | inl same ↦ absurd (h.0 ((text_beq_iff j k).0 same))
  | inr other ↦ rw other (seen_in-All seen k h.1)
]

pub add_money-inv :
    (t u : Money) {m : Money}
    → add_money t u ≡ ok m
    → (u.currency ≡ t.currency)
      × (m.currency ≡ t.currency)
      × (m.minor_units ≡ add64 t.minor_units u.minor_units)
unfolding add_money
add_money-inv t u h = ground (arith, text_beq_iff t.currency u.currency)

-- One round of the loop that is not left early.
pub sum_items-cons :
    (seen : List Sku) (t : Money) (li : LineItem) (rest : List LineItem) {m : Money}
    → sum_items seen t (li ∷ rest) ≡ ok m
    → (seen_in seen li.sku ≡ false)
      × ((s : Money) × (add_money t (line_total li) ≡ ok s)
          × (sum_items (li.sku ∷ seen) s rest ≡ ok m))
unfolding sum_items
sum_items-cons seen t li rest h = elim (Bool-cases (seen_in seen li.sku)) [
  | inl dup ↦ absurd (rejected (rw dup at h))
  | inr new ↦ (new, >>=-ok (add_money t (line_total li)) _ (rw new at h))
]
  where
    rejected : {m : Money} → ¬ (◌≡◌ {A = Outcome Error Money} (err validation) (ok m))
    rejected e = cc

sum_items-AreLines :
    (seen : List Sku) (t : Money) (items : List LineItem) {m : Money}
    → sum_items seen t items ≡ ok m
    → AreLines seen t.currency items × (m.currency ≡ t.currency)
unfolding sum_items line_total
sum_items-AreLines seen t [] h = ((tt, tt, tt), cc)
sum_items-AreLines seen t (li ∷ rest) h =
    let (new, (s, added, more)) = sum_items-cons seen t li rest h in
    let (currency, kept, _) = add_money-inv t (line_total li) added in
    let ((fresh, distinct, same), final) = sum_items-AreLines (li.sku ∷ seen) s rest more in
    let (differ, unseen) =
      All-unzip (λ x. li.sku ≢ x.sku) (λ x. All (λ j. j ≢ x.sku) seen) rest fresh in
    (
      (
        (seen_in-false seen li.sku new, unseen),
        ((All-map (λ (x : LineItem). x.sku) (λ j. li.sku ≢ j) rest).0 differ, distinct),
        (currency, subst (λ c. All (λ x. x.unit_price.currency ≡ c) rest) kept same),
      ),
      final ∙ kept,
    )

add_money-eq :
    (t u : Money)
    → u.currency ≡ t.currency
    → add_money t u
      ≡ ok (record { currency = t.currency; minor_units = add64 t.minor_units u.minor_units })
unfolding add_money
add_money-eq t u e = rw ((text_beq_iff t.currency u.currency).1 (sym e))

pub AreLines-sum_items :
    (seen : List Sku) (t : Money) (items : List LineItem)
    → AreLines seen t.currency items
    → (m : Money) × (sum_items seen t items ≡ ok m)
unfolding sum_items line_total
AreLines-sum_items seen t [] h = (t, refl)
AreLines-sum_items seen t (li ∷ rest) (fresh, distinct, same) =
    let differ = (All-map (λ (x : LineItem). x.sku) (λ j. li.sku ≢ j) rest).1 distinct.0 in
    let s : Money = record {
      currency = t.currency;
      minor_units = add64 t.minor_units (line_total li).minor_units;
    } in
    let both = All-zip (λ x. li.sku ≢ x.sku) (λ x. All (λ j. j ≢ x.sku) seen) rest differ fresh.1 in
    let (m, e) = AreLines-sum_items (li.sku ∷ seen) s rest (both, distinct.1, same.1) in
    (m, rw (seen_in-All seen li.sku fresh.0, add_money-eq t (line_total li) same.0) e)

-- The lines of a new order: at least one, all of one currency, and no SKU twice.
abbrev pub CanPlace : OrderId → List LineItem → Type 0
CanPlace i [] = ⊥
CanPlace i (li ∷ rest) = (i ≢ nil_uuid) × AreLines [] li.unit_price.currency (li ∷ rest)

total_of-CanPlace :
    (i : OrderId) (items : List LineItem) (m : Money)
    → i ≢ nil_uuid
    → total_of items ≡ ok m
    → CanPlace i items
unfolding total_of
total_of-CanPlace i [] m n h = cc
total_of-CanPlace i (li ∷ rest) m n h = (n, (sum_items-AreLines [] _ (li ∷ rest) h).0)

CanPlace-total_of :
    (i : OrderId) (items : List LineItem)
    → CanPlace i items
    → (i ≢ nil_uuid) × ((m : Money) × (total_of items ≡ ok m))
unfolding total_of
CanPlace-total_of i [] h = elim h [ ]
CanPlace-total_of i (li ∷ rest) (n, h) = (n, AreLines-sum_items [] _ (li ∷ rest) h)

pub place_order_of_total :
    (i : OrderId) (c : CustomerId) (items : List LineItem) (a : Address) (t : Time) (m : Money)
    → i ≢ nil_uuid
    → total_of items ≡ ok m
    → place_order i c items a t ≡ ok (placement i c items a t m)
unfolding place_order
place_order_of_total i c items a t m n e = ground arith

-- `PlaceOrder` accepts an order exactly when its id is not nil, it has at least one line, no two
-- lines have the same SKU, and all prices are in the currency of the first line.
pub place_order_accepts :
    (i : OrderId) (c : CustomerId) (items : List LineItem) (a : Address) (t : Time)
    → ((o : Order) × (place_order i c items a t ≡ ok o)) ↔ CanPlace i items
place_order_accepts i c items a t = (
  λ (o, h). let (n, (m, e, _)) = place_order-inv i c items a t h in total_of-CanPlace i items m n e,
  λ h.
      let (n, (m, e)) = CanPlace-total_of i items h in
      (placement i c items a t m, place_order_of_total i c items a t m n e),
)
