-- ===== src/Order/Store/Queries.antt =====
-- What the event store's queries find once the history of an order is stored.
use event_driven_order_fulfi.Common.{
  ℕ, ◌+◌, ◌≤◌, ◌<◌, ◌≡◌, refl, ap, ◌∙◌, true, false, List, [], ◌∷◌, ◌++◌, All, arith, length, ok,
}
use event_driven_order_fulfi.Platform.{Platform}
use event_driven_order_fulfi.Order.Values.{OrderId}
use event_driven_order_fulfi.Order.Aggregate.{DomainEvent}
use event_driven_order_fulfi.Order.Codec.RoundTrip.{IsValidEvent, decode-encode_event}
use event_driven_order_fulfi.Order.Store.{
  EventRow, aggregate_id, rows_of, by_version, is_taken, event_row, decode_rows,
}

pub rows_of-append :
    (i : OrderId) (rs ss : List EventRow) → rows_of i (rs ++ ss) ≡ rows_of i rs ++ rows_of i ss
unfolding rows_of
rows_of-append i [] ss = refl
rows_of-append i (r ∷ rs) ss = ground (arith, rows_of-append i rs ss)

is_taken-rows_of :
    (i : OrderId) (v : ℕ) (rows : List EventRow) → is_taken i v rows ≡ is_taken i v (rows_of i rows)
unfolding is_taken rows_of
is_taken-rows_of i v [] = refl
is_taken-rows_of i v (r ∷ rows) = ground (arith, is_taken-rows_of i v rows)

module _ ⦃p : Platform⦄ where
  -- The rows of a history; `v` is the version before its first event.
  abbrev pub history_rows : ℕ → List DomainEvent → List EventRow
  history_rows v [] = []
  history_rows v (e ∷ es) = event_row (v + 1) e ∷ history_rows (v + 1) es

  pub history_rows-append :
      (v : ℕ) (es fs : List DomainEvent)
      → history_rows v (es ++ fs) ≡ history_rows v es ++ history_rows (v + length es) fs
  history_rows-append v [] fs = ap (λ w. history_rows w fs) (omega arith)
  history_rows-append v (e ∷ es) fs =
      ap (λ rs. event_row (v + 1) e ∷ rs)
        (history_rows-append (v + 1) es fs
          ∙ ap (λ w. history_rows (v + 1) es ++ history_rows w fs) (omega arith))

  -- All events are of one order.
  abbrev pub AreOf : OrderId → List DomainEvent → Type 0
  AreOf i es = All (λ e. aggregate_id e ≡ i) es

  pub rows_of-history :
      (i : OrderId) (v : ℕ) (es : List DomainEvent)
      → AreOf i es
      → rows_of i (history_rows v es) ≡ history_rows v es
  unfolding rows_of event_row
  rows_of-history i v [] h = refl
  rows_of-history i v (e ∷ es) (h, hs) = ground (arith, rows_of-history i (v + 1) es hs)

  pub by_version-history :
      (v : ℕ) (es : List DomainEvent) → by_version (history_rows v es) ≡ history_rows v es
  unfolding by_version event_row
  by_version-history v [] = refl
  by_version-history v (e ∷ []) = refl
  by_version-history v (e ∷ f ∷ es) = rw (by_version-history (v + 1) (f ∷ es)) (ground arith)

  not_taken :
      (i : OrderId) (w v : ℕ) (es : List DomainEvent)
      → v + length es < w
      → is_taken i w (history_rows v es) ≡ false
  unfolding is_taken event_row
  not_taken i w v [] h = refl
  not_taken i w v (e ∷ es) h = ground (arith, not_taken i w (v + 1) es (omega arith))

  -- The versions up to the length of the history are used, the next one is free.
  pub next_is_free :
      (i : OrderId) (rows : List EventRow) (es : List DomainEvent)
      → rows_of i rows ≡ history_rows 0 es
      → is_taken i (length es + 1) rows ≡ false
  next_is_free i rows es h =
      is_taken-rows_of i (length es + 1) rows
      ∙ ap (is_taken i (length es + 1)) h
      ∙ not_taken i (length es + 1) 0 es (omega arith)

  taken_in_history :
      (i : OrderId) (w v : ℕ) (es : List DomainEvent)
      → AreOf i es
      → v < w
      → w ≤ v + length es
      → is_taken i w (history_rows v es) ≡ true
  unfolding is_taken event_row
  taken_in_history i w v [] h a b = absurd (omega arith)
  taken_in_history i w v (e ∷ es) (h, hs) a b = ground (arith, taken_in_history i w (v + 1) es hs)

  pub old_is_taken :
      (i : OrderId) (w : ℕ) (rows : List EventRow) (es : List DomainEvent)
      → rows_of i rows ≡ history_rows 0 es
      → AreOf i es
      → 0 < w
      → w ≤ length es
      → is_taken i w rows ≡ true
  old_is_taken i w rows es h o a b =
      is_taken-rows_of i w rows ∙ ap (is_taken i w) h ∙ taken_in_history i w 0 es o a (omega arith)

  pub decode_rows-history :
      (v : ℕ) (es : List DomainEvent)
      → All IsValidEvent es
      → decode_rows (history_rows v es) ≡ ok es
  unfolding decode_rows event_row
  decode_rows-history v [] h = refl
  decode_rows-history v (e ∷ es) (h, hs) =
      rw (decode-encode_event e h, decode_rows-history (v + 1) es hs)
