-- ===== src/Fulfillment/Service/Lifecycle.antt =====
-- The use cases of the fulfillment service keep to the protocol of its store, whatever fails and
-- whatever other sessions of the service do, services/fulfillment/internal/app/service.go.
use event_driven_order_fulfi.Common.{
  ◌≡◌, sym, ap, subst, Bool, true, false, List, [], ◌∷◌, nat_beq, Bool-cases, inl, inr, Outcome, ok,
  err,
}
use event_driven_order_fulfi.Common.Session.{Session, lift, ◌>>=◌}
use event_driven_order_fulfi.Common.Session.Protocol.{
  IsGood, After, Sound, Sound-bind, Sound-lift, Sound-if, Sound-pure,
}
use event_driven_order_fulfi.Platform.{Platform, Text, Time, Uuid, nil_uuid}
use event_driven_order_fulfi.Fulfillment.Shipment.{
  Error, Shipment, ShipmentStatus, created, dispatched, delivered, failed, status_beq, create,
  dispatch, deliver,
}
use event_driven_order_fulfi.Fulfillment.Shipment.Lifecycle.{
  IsCarried, Legal, IsLegal, dispatches, delivers, apply-IsLegal,
}
use event_driven_order_fulfi.Fulfillment.Store.{Event, World, get_by_order_id}
use event_driven_order_fulfi.Fulfillment.Store.Newer.{
  Published, Ahead, Ahead-refl, Ahead-trans, Seen, Seen-Ahead, protocol,
}
use event_driven_order_fulfi.Fulfillment.Store.Guarantee.{
  get_by_order_id-Sound, insert-Sound, update-Sound, publish-Sound,
}
use event_driven_order_fulfi.Fulfillment.Service.{
  Service, branch_on, unless_error, created_event, dispatched_event, delivered_event,
  insert_or_load, open_shipment, announce, create_for_order, conclude, dispatch_order,
  deliver_order,
}

module _ (past : World) (Q : Shipment → World → Type 0) where
  branch_on-After :
      (is : Error → Bool) (r : Outcome Error Shipment × Session World) (k : Service Shipment)
      → ((w : World) → Sound protocol w k Q)
      → After protocol past Q r
      → After protocol past Q (branch_on is r k)
  branch_on-After is (ok a, s) k h x = x
  branch_on-After is (err e, s) k h x = elim (Bool-cases (is e)) [
    | inl b ↦
        let it = (h s.committed).run s x.good (Ahead-refl s.committed) in
        rw b (record { good = it.good; ahead = Ahead-trans x.ahead it.ahead; gives = it.gives })
    | inr b ↦ rw b x
  ]

  unless_error-Sound :
      (is : Error → Bool) (m k : Service Shipment)
      → Sound protocol past m Q
      → ((w : World) → Sound protocol w k Q)
      → Sound protocol past (unless_error is m k) Q
  unfolding unless_error
  unless_error-Sound is m k h j = record {
    run = λ s g l. branch_on-After is (m s) k j (h.run s g l);
  }

create_lem :
    (id o : Uuid) (now : Time) (s : Shipment)
    → create id o now ≡ ok s
    → (s.status ≡ created) × (s.order_id ≡ o)
unfolding create
create_lem id o now s h = elim (Bool-cases (nat_beq o nil_uuid)) [
  | inl b ↦ let h' = rw b at h in cc
  | inr b ↦
      let h' = rw b at h in
      let e : s ≡ record {
        id = id;
        order_id = o;
        status = created;
        carrier = [];
        tracking_code = [];
        failure_reason = [];
        version = 0;
        created_at = now;
        updated_at = now;
      } =
        cc in
      (ap (λ x. x.status) e, ap (λ x. x.order_id) e)
]

created_of_beq : (st : ShipmentStatus) → status_beq st created ≡ false → ¬ (st ≡ created)
unfolding status_beq
created_of_beq created h e = cc
created_of_beq dispatched h e = cc
created_of_beq delivered h e = cc
created_of_beq failed h e = cc

abbrev Of : Uuid → Shipment → World → Type 0
Of o s w = Seen s w × (s.order_id ≡ o)

module _ ⦃p : Platform⦄ where
  insert_or_load-Sound :
      (past : World) (o : Uuid) (s : Shipment)
      → (s.status ≡ created) × (s.order_id ≡ o)
      → Sound protocol past (insert_or_load o s) (Of o)
  unfolding insert_or_load
  insert_or_load-Sound past o s (st, e) =
      unless_error-Sound past (Of o) _ _ _
        (Sound-bind protocol past (λ _ w. Seen s w) _ _ _
          (insert-Sound past s (subst (λ x. IsCarried x s.carrier) (sym st) tt))
          (λ _ w a q. Sound-pure protocol w _ s (λ d k. (Seen-Ahead q k, e))))
        (λ w. get_by_order_id-Sound w o)

  open_shipment-Sound :
      (past : World) (id o : Uuid) (now : Time)
      → Sound protocol past (open_shipment id o now) (Of o)
  unfolding open_shipment
  open_shipment-Sound past id o now =
      Sound-bind protocol past (λ s _. (s.status ≡ created) × (s.order_id ≡ o)) _ _ _
        (Sound-lift protocol past _ _ (λ s d k h. create_lem id o now s h))
        (λ s w a q. insert_or_load-Sound w o s q)

  -- What the answer of `CreateForOrder` stands for.
  pub record Acknowledged (o : Uuid) (s : Shipment) (w : World) : Type 0 where
    pub same_order : s.order_id ≡ o
    pub seen : Seen s w
    pub announced : s.status ≡ created → Published (created_event s) w.topic

  announce-Sound :
      (past : World) (o : Uuid) (s : Shipment)
      → Of o s past
      → Sound protocol past (announce s) (Acknowledged o)
  unfolding announce
  announce-Sound past o s (seen, e) =
      Sound-if protocol past _ (status_beq s.status created) _ _
        (λ b.
          Sound-bind protocol past (λ _ w. Published (created_event s) w.topic) _ _ _
            (publish-Sound past (created_event s))
            (λ _ w a q. Sound-pure protocol w _ s (λ d k. record {
              same_order = e;
              seen = Seen-Ahead (Seen-Ahead seen a) k;
              announced = λ _. k.kept _ q;
            })))
        (λ b. Sound-pure protocol past _ s (λ d k. record {
          same_order = e;
          seen = Seen-Ahead seen k;
          announced = λ h. absurd (created_of_beq s.status b h);
        }))

  pub create_for_order-Sound :
      (past : World) (id o : Uuid) (now : Time)
      → Sound protocol past (create_for_order id o now) (Acknowledged o)
  unfolding create_for_order
  create_for_order-Sound past id o now =
      Sound-bind protocol past (Of o) _ _ _
        (unless_error-Sound past (Of o) _ _ _ (get_by_order_id-Sound past o)
          (λ w. open_shipment-Sound w id o now))
        (λ s w a q. announce-Sound w o s q)

  -- Nothing is said of the answer.
  abbrev pub Any : {A : Type 0} → A → World → Type 0
  Any a w = Unit

  conclude-Sound :
      (past : World) (x s : Shipment) (changed : Bool) (event : Shipment → Event)
      → Seen x past
      → Legal x s changed
      → Sound protocol past (conclude event (changed, s)) Any
  unfolding conclude
  conclude-Sound past x s false event seen l = Sound-pure protocol past _ s (λ d k. tt)
  conclude-Sound past x s true event seen l =
      Sound-bind protocol past (λ _ w. Seen x w) _ _ _ (update-Sound past x s l seen)
        (λ _ w a q.
          Sound-bind protocol w (λ _ d. Published (event s) d.topic) _ _ _
            (publish-Sound w (event s)) (λ _ d k r. Sound-pure protocol d _ s (λ d' k'. tt)))

  IsLegal-Legal :
      (x s : Shipment) (changed : Bool) (r : Outcome Error (Bool × Shipment))
      → IsLegal x r
      → r ≡ ok (changed, s)
      → Legal x s changed
  IsLegal-Legal x s changed r h e = let h' : IsLegal x (ok (changed, s)) = rw e at h in h'

  abbrev advance :
      Uuid → (Shipment → Outcome Error (Bool × Shipment)) → (Shipment → Event) → Service Shipment
  advance o f event = do s ← get_by_order_id o; moved ← lift (f s); conclude event moved

  advance-Sound :
      (past : World) (o : Uuid) (f : Shipment → Outcome Error (Bool × Shipment))
      (event : Shipment → Event)
      → ((s : Shipment) → IsLegal s (f s))
      → Sound protocol past (advance o f event) Any
  advance-Sound past o f event legal =
      Sound-bind protocol past (Of o) _ _ _ (get_by_order_id-Sound past o) (λ x w a q.
        Sound-bind protocol w (λ m d. Legal x m.1 m.0 × Seen x d) _ _ _
          (Sound-lift protocol w _ (f x)
            (λ m d k e. (IsLegal-Legal x m.1 m.0 (f x) (legal x) e, Seen-Ahead q.0 k)))
          (λ m d k l. conclude-Sound d x m.1 m.0 event l.1 l.0))

  dispatch_order-Sound :
      (past : World) (o : Uuid) (carrier tracking_code : Text) (now : Time)
      → Sound protocol past (dispatch_order o carrier tracking_code now) Any
  unfolding dispatch_order
  dispatch_order-Sound past o carrier tracking_code now =
      advance-Sound past o (dispatch carrier tracking_code now) (dispatched_event o)
        (λ s. apply-IsLegal (dispatches carrier tracking_code now) s)

  deliver_order-Sound :
      (past : World) (o : Uuid) (now : Time) → Sound protocol past (deliver_order o now) Any
  unfolding deliver_order
  deliver_order-Sound past o now =
      advance-Sound past o (deliver now) (delivered_event o) (λ s. apply-IsLegal (delivers now) s)

-- The requests that write.
pub data Request : Type 0 where
  creates : Uuid → Uuid → Time → Request
  dispatches_order : Uuid → Text → Text → Time → Request
  delivers_order : Uuid → Time → Request

module _ ⦃p : Platform⦄ where
  abbrev pub perform : Request → Service Shipment
  perform (creates id o now) = create_for_order id o now
  perform (dispatches_order o carrier tracking_code now) =
      dispatch_order o carrier tracking_code now
  perform (delivers_order o now) = deliver_order o now

  perform-Keeps :
      (q : Request) (s : Session World)
      → IsGood protocol s
      → IsGood protocol (perform q s).1 × Ahead s.committed (perform q s).1.committed
  perform-Keeps (creates id o now) s g =
      let it = (create_for_order-Sound s.committed id o now).run s g (Ahead-refl s.committed) in
      (it.good, it.ahead)
  perform-Keeps (dispatches_order o c t now) s g =
      let it = (dispatch_order-Sound s.committed o c t now).run s g (Ahead-refl s.committed) in
      (it.good, it.ahead)
  perform-Keeps (delivers_order o now) s g =
      let it = (deliver_order-Sound s.committed o now).run s g (Ahead-refl s.committed) in
      (it.good, it.ahead)

  abbrev pub perform_all : List Request → Session World → Session World
  perform_all [] s = s
  perform_all (q ∷ qs) s = perform_all qs (perform q s).1

  -- Where the other sessions of the service keep to its protocol, any requests do too, whatever
  -- statements and publications fail: from a valid table, the table stays valid, with one shipment
  -- for an order and one order for a shipment id, and a carrier for what is dispatched; each shipment
  -- stays the shipment of its order, changes along the lifecycle only and each time with a new
  -- version, and no published event is taken back.
  pub requests_keep_lifecycle :
      (qs : List Request) (s : Session World)
      → IsGood protocol s
      → IsGood protocol (perform_all qs s) × Ahead s.committed (perform_all qs s).committed
  requests_keep_lifecycle [] s g = (g, Ahead-refl s.committed)
  requests_keep_lifecycle (q ∷ qs) s g =
      let (g', a) = perform-Keeps q s g in
      let (g2, a2) = requests_keep_lifecycle qs (perform q s).1 g' in (g2, Ahead-trans a a2)
