-- ===== src/Fulfillment/Consumer/Delivery.antt =====
-- Every confirmed order that the fulfillment worker has passed has its shipment,
-- services/fulfillment/internal/worker/consumer/worker.go.
use event_driven_order_fulfi.Common.{
  ℕ, ◌≡◌, refl, ◌∙◌, true, false, Option, none, some, List, [], ◌∷◌, All, take, Bool-cases, inl,
  inr, if◌then◌else◌, Outcome, ok, err,
}
use event_driven_order_fulfi.Common.Session.{Session}
use event_driven_order_fulfi.Common.Session.Protocol.{IsGood, After, Sound, Sound-if, Sound-pure}
use event_driven_order_fulfi.Platform.{Platform, Time, Uuid}
use event_driven_order_fulfi.Consumer.{Message, permanent, Worker}
use event_driven_order_fulfi.Consumer.Delivery.{Handler, lives, IsSettled, lives-IsReliable}
use event_driven_order_fulfi.Fulfillment.Shipment.{Error, Shipment}
use event_driven_order_fulfi.Fulfillment.Store.{World}
use event_driven_order_fulfi.Fulfillment.Store.Newer.{Row, protocol, Row-Seen}
use event_driven_order_fulfi.Fulfillment.Service.{create_for_order}
use event_driven_order_fulfi.Fulfillment.Service.Lifecycle.{Acknowledged, create_for_order-Sound}
use event_driven_order_fulfi.Fulfillment.Consumer.{
  is_confirmed, as_transient, decode_order, handle_confirmed, handle_message,
}

module _ ⦃p : Platform⦄ (mint : Session World → Uuid × Time) where
  -- The order that a message confirms.
  unfoldable pub confirmed_order : Message → Option Uuid
  confirmed_order m = if is_confirmed m then decode_order m.value else none

  abbrev pub Shipped : Message → World → Type 0
  Shipped m w = (o : Uuid) → confirmed_order m ≡ some o → (x : Shipment) × Row w o x

  confirmed_order_eq :
      (m : Message) → is_confirmed m ≡ true → confirmed_order m ≡ decode_order m.value
  unfolding confirmed_order
  confirmed_order_eq m c = rw c refl

  confirmed_order-none : (m : Message) → is_confirmed m ≡ false → confirmed_order m ≡ none
  unfolding confirmed_order
  confirmed_order-none m c = rw c refl

  as_transient-After :
      (past : World) (o : Uuid) (m : Message) (r : Outcome Error Shipment × Session World)
      → confirmed_order m ≡ some o
      → After protocol past (Acknowledged o) r
      → After protocol past (λ _ w. Shipped m w) (as_transient r)
  as_transient-After past o m (ok x, s) e a =
      let k = a.gives x refl in
      let (y, row, newer) = Row-Seen s.committed k.same_order k.seen in
      record {
        good = a.good;
        ahead = a.ahead;
        gives = λ u h o' f. let same : o ≡ o' = cc in (y, rw (← same) row);
      }
  as_transient-After past o m (err e, s) f a = record {
    good = a.good;
    ahead = a.ahead;
    gives = λ u h. cc;
  }

  handle_confirmed-Sound :
      (past : World) (m : Message)
      → is_confirmed m ≡ true
      → (found : Option Uuid) → decode_order m.value ≡ found
      → Sound protocol past (handle_confirmed mint m) (λ _ w. Shipped m w)
  unfolding handle_confirmed
  handle_confirmed-Sound past m c none e = record {
    run = λ s g l. rw e (record { good = g; ahead = l; gives = λ u h. cc });
  }
  handle_confirmed-Sound past m c (some o) e = record {
    run = λ s g l.
        let (id, now) = mint s in
        let this : confirmed_order m ≡ some o = confirmed_order_eq m c ∙ e in
        let it = (create_for_order-Sound past id o now).run s g l in
        rw e (as_transient-After past o m (create_for_order id o now s) this it);
  }

  handle_message-Sound :
      (past : World) (m : Message)
      → Sound protocol past (handle_message mint m) (λ _ w. Shipped m w)
  unfolding handle_message
  handle_message-Sound past m =
      Sound-if protocol past (λ _ w. Shipped m w) (is_confirmed m) _ _
        (λ c. handle_confirmed-Sound past m c (decode_order m.value) refl)
        (λ c.
          Sound-pure protocol past (λ _ w. Shipped m w) tt
            (λ d k o e. let never = confirmed_order-none m c in cc))

  -- Only a confirmation whose order cannot be read fails for good.
  abbrev pub Unreadable : Message → Type 0
  Unreadable m = (is_confirmed m ≡ true) × (decode_order m.value ≡ none)

  as_transient_lem :
      (r : Outcome Error Shipment × Session World) → ¬ ((as_transient r).0 ≡ err permanent)
  as_transient_lem (ok x, s) h = cc
  as_transient_lem (err e, s) h = cc

  handle_confirmed-permanent :
      (m : Message) (s : Session World) (found : Option Uuid)
      → decode_order m.value ≡ found
      → (handle_confirmed mint m s).0 ≡ err permanent
      → found ≡ none
  unfolding handle_confirmed
  handle_confirmed-permanent m s none e h = refl
  handle_confirmed-permanent m s (some o) e h =
      let (id, now) = mint s in
      let h' = rw e at h in absurd (as_transient_lem (create_for_order id o now s) h')

  handle_message-permanent :
      (m : Message) (s : Session World) → (handle_message mint m s).0 ≡ err permanent → Unreadable m
  unfolding handle_message
  handle_message-permanent m s h = elim (Bool-cases (is_confirmed m)) [
    | inl c ↦
        let h' = rw c at h in (c, handle_confirmed-permanent m s (decode_order m.value) refl h')
    | inr c ↦ let h' = rw c at h in cc
  ]

  handler : Handler protocol
  handler = record {
    handle = handle_message mint;
    Effect = Shipped;
    Poison = Unreadable;
    stable = λ m w w' e a o k.
        let (x, row) = e o k in let (x', row', newer) = a.rows o x row in (x', row');
    sound = handle_message-Sound;
    poison = handle_message-permanent;
  }

  IsSettled-Shipped :
      (r : Worker World) (m : Message)
      → IsSettled protocol handler r m
      → Shipped m r.session.committed
  unfolding handler
  IsSettled-Shipped r m (inl e) = e
  IsSettled-Shipped r m (inr ((c, none_read), dead)) =
      λ o k. let e = confirmed_order_eq m c ∙ none_read in cc

  All-Shipped :
      (r : Worker World) (ms : List Message)
      → All (IsSettled protocol handler r) ms
      → All (λ m. Shipped m r.session.committed) ms
  All-Shipped r [] a = tt
  All-Shipped r (m ∷ ms) a = (IsSettled-Shipped r m a.0, All-Shipped r ms a.1)

  -- A worker starts at offset 0 on a valid table, beside sessions that keep to the protocol. Whatever
  -- statements, publications and broker calls fail, and however often it restarts, every
  -- order.confirmed message below the committed offset whose body names an order has a shipment of
  -- that order in the table.
  pub confirmed_orders_ship :
      (n : ℕ) (log : List Message) (r : Worker World)
      → IsGood protocol r.session
      → r.committed ≡ 0
      → let r' = lives (handle_message mint) n log r in
        All
          (λ m.
            (o : Uuid) → confirmed_order m ≡ some o → (x : Shipment) × Row r'.session.committed o x)
          (take r'.committed log)
  unfolding handler
  confirmed_orders_ship n log r g e =
      let r' = lives (handle_message mint) n log r in
      let start : All (IsSettled protocol handler r) (take r.committed log) = rw e tt in
      let v = lives-IsReliable protocol handler n log r (record { good = g; settled = start }) in
      All-Shipped r' (take r'.committed log) v.settled
