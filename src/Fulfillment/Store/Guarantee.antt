-- ===== src/Fulfillment/Store/Guarantee.antt =====
-- The statements of the shipment repository keep to the protocol,
-- services/fulfillment/internal/infra/postgres/shipment_repository.go.
use event_driven_order_fulfi.Common.{
  ◌≡◌, refl, sym, ◌∙◌, ap, subst, Bool, true, false, ◌⊎◌, inl, inr, Option, none, some, ◌∷◌,
  Bool-cases, nat_beq_iff, nat_key, ◌==◌, ok, or_fail, arith,
}
use event_driven_order_fulfi.Common.Table.{
  lookup, has, put, lookup-put, lookup-put_self, lookup_of_has,
}
use event_driven_order_fulfi.Common.Session.Protocol.{
  Sound, Sound-bind, Sound-read, Sound-exec, Sound-lift, Sound-if, Sound-pure, Sound-raise,
}
use event_driven_order_fulfi.Platform.{Uuid}
use event_driven_order_fulfi.Fulfillment.Shipment.{Shipment, shipment_not_found, unavailable}
use event_driven_order_fulfi.Fulfillment.Shipment.Lifecycle.{stay, move, IsCarried, Legal}
use event_driven_order_fulfi.Fulfillment.Store.{
  Event, World, has_id, insert_row, matches, update_row, written, get_by_order_id, insert, update,
  publish,
}
use event_driven_order_fulfi.Fulfillment.Store.Newer.{
  Newer, Newer-refl, Published, Row, IsValid, Ahead, Ahead-refl, Seen, Seen-Ahead, protocol,
  has_id-row, row_after, row_before,
}

-- A statement's effect that keeps to the protocol.
abbrev Steps : World → World → Type 0
Steps w w' = IsValid w' × Ahead w w'

module _ (s : Shipment) (w : World) (v : IsValid w) (fresh : IsCarried s.status s.carrier) where
  -- A row of a table with the new row is the new one or an old one.
  Row-put :
      (o : Uuid) (r : Shipment)
      → lookup o (put s.order_id s w.shipments) ≡ some r
      → ((s.order_id ≡ o) × (r ≡ s)) ⊎ Row w o r
  Row-put o r h =
      let h' = rw (lookup-put s.order_id o s w.shipments) at h in
      elim (Bool-cases (s.order_id == o)) [
        | inl b ↦
            let same : some s ≡ some r = rw b at h' in inl ((nat_beq_iff s.order_id o).0 b, cc)
        | inr b ↦ inr (rw b at h')
      ]

  pub put-Steps :
      has s.order_id w.shipments ≡ false
      → has_id s.id w.shipments ≡ false
      → Steps w (record w { shipments = put s.order_id s w.shipments })
  put-Steps new_order new_id = (
    record {
      keyed =
          λ o r h. elim (Row-put o r h) [ inl (e, same) ↦ rw (same) e | inr old ↦ v.keyed o r old ];
      distinct = λ o o' r r' h h' e. elim (Row-put o r h) [
        | inl (p, same) ↦ elim (Row-put o' r' h') [
          | inl (p', same') ↦ sym p ∙ p'
          | inr old ↦ absurd (apart o' r' old (sym e ∙ ap (λ x. x.id) same))
        ]
        | inr old ↦ elim (Row-put o' r' h') [
          | inl (p', same') ↦ absurd (apart o r old (e ∙ ap (λ x. x.id) same'))
          | inr old' ↦ v.distinct o o' r r' old old' e
        ]
      ];
      carried = λ o r h. elim (Row-put o r h) [
        | inl (e, same) ↦ rw (same) fresh
        | inr old ↦ v.carried o r old
      ];
    },
    record { rows = λ o r h. (r, kept o r h, Newer-refl r); kept = λ e h. h },
  )
    where
      apart : (o : Uuid) (r : Shipment) → Row w o r → ¬ (r.id ≡ s.id)
      apart o r h e =
          let off = has_id-row s.id w.shipments o r new_id h in
          let on = (nat_beq_iff r.id s.id).1 e in cc

      kept :
          (o : Uuid) (r : Shipment) → Row w o r → lookup o (put s.order_id s w.shipments) ≡ some r
      kept o r h = elim (Bool-cases (s.order_id == o)) [
        | inl b ↦
            let e = (nat_beq_iff s.order_id o).0 b in
            let free = lookup_of_has s.order_id w.shipments new_order in
            let free' : lookup o w.shipments ≡ none = rw e at free in cc
        | inr b ↦ rw (lookup-put s.order_id o s w.shipments, b) h
      ]

module _ (x s : Shipment) (l : Legal x s true) (w : World) (v : IsValid w) (seen : Seen x w) where
  -- A row that the guarded UPDATE changes is the one that was read.
  matched : (o : Uuid) (r : Shipment) → Row w o r → matches s r ≡ true → r ≡ x
  unfolding matches
  matched o r h m =
      let (r', here, newer) = seen in
      let same_id : r.id ≡ s.id = ground arith in
      let same_version : r.version ≡ s.version = ground arith in
      let o_eq : o ≡ x.order_id =
        v.distinct o x.order_id r r' h here (same_id ∙ l.same_id ∙ sym newer.id_eq) in
      let h' : lookup x.order_id w.shipments ≡ some r = rw o_eq at h in
      let r_eq : r' ≡ r = cc in
      sym r_eq ∙ newer.unchanged (ap (λ y. y.version) r_eq ∙ same_version ∙ l.same_version)

  update_row-Newer :
      (o : Uuid) (r : Shipment)
      → Row w o r
      → Newer r (update_row s r) × IsCarried (update_row s r).status (update_row s r).carrier
  unfolding update_row
  update_row-Newer o r h = elim (Bool-cases (matches s r)) [
    | inl m ↦
        let e = matched o r h m in
        rw m (
          record {
            id_eq = refl;
            order_eq = refl;
            version_le = omega arith;
            unchanged = λ k. absurd (omega (arith, k));
            moves = move (rw e l.moved) stay;
          },
          l.carried (subst (λ y. IsCarried y.status y.carrier) e (v.carried o r h)),
        )
    | inr m ↦ rw m (Newer-refl r, v.carried o r h)
  ]

  update_row_ids :
      (o : Uuid) (r : Shipment)
      → Row w o r
      → ((update_row s r).id ≡ r.id) × ((update_row s r).order_id ≡ r.order_id)
  update_row_ids o r h = let n = (update_row-Newer o r h).0 in (n.id_eq, n.order_eq)

  pub written-Steps : Steps w (written s w).1
  written-Steps = (
    record {
      keyed = λ o r' h.
          let (r, old, e) = row_before s w.shipments o r' h in
          ap (λ y. y.order_id) e ∙ (update_row_ids o r old).1 ∙ v.keyed o r old;
      distinct = λ o o' q q' h h' e.
          let (r, old, k) = row_before s w.shipments o q h in
          let (r', old', k') = row_before s w.shipments o' q' h' in
          let i = ap (λ y. y.id) k ∙ (update_row_ids o r old).0 in
          let i' = ap (λ y. y.id) k' ∙ (update_row_ids o' r' old').0 in
          v.distinct o o' r r' old old' (sym i ∙ e ∙ i');
      carried = λ o r' h.
          let (r, old, e) = row_before s w.shipments o r' h in
          subst (λ y. IsCarried y.status y.carrier) (sym e) (update_row-Newer o r old).1;
    },
    record {
      rows = λ o r h. (update_row s r, row_after s w.shipments o r h, (update_row-Newer o r h).0);
      kept = λ e h. h;
    },
  )

pub publish-Steps : (e : Event) (w : World) → IsValid w → Steps w (record w { topic = e ∷ w.topic })
publish-Steps e w v = (
  record { keyed = v.keyed; distinct = v.distinct; carried = v.carried },
  record { rows = λ o r h. (r, h, Newer-refl r); kept = λ x h. inr h },
)

-- `GetByOrderID` gives the row of the order.
pub get_by_order_id-Sound :
    (past : World) (i : Uuid)
    → Sound protocol past (get_by_order_id i) (λ s w. Seen s w × (s.order_id ≡ i))
unfolding get_by_order_id
get_by_order_id-Sound past i =
    Sound-bind protocol past Found _ _ _
      (Sound-read protocol past _ unavailable _ (λ w v a s h.
        let k = v.keyed i s h in ((s, subst (λ o. Row w o s) (sym k) h, Newer-refl s), k)))
      (λ found w a q. Sound-lift protocol w _ _ (λ s d k h. stable found s w d q k h))
  where
    Found : Option Shipment → World → Type 0
    Found found w = (s : Shipment) → found ≡ some s → Seen s w × (s.order_id ≡ i)

    stable :
        (found : Option Shipment) (s : Shipment) (w d : World)
        → Found found w
        → Ahead w d
        → or_fail found shipment_not_found ≡ ok s
        → Seen s d × (s.order_id ≡ i)
    stable none s w d q k h = cc
    stable (some r) s w d q k h =
        let e : some r ≡ some s = cc in let (seen, here) = q s e in (Seen-Ahead seen k, here)

insert_row-Steps :
    (s : Shipment) (w : World)
    → IsValid w
    → IsCarried s.status s.carrier
    → IsValid (insert_row s w).1
      × Ahead w (insert_row s w).1
      × ((insert_row s w).0 ≡ true → Seen s (insert_row s w).1)
unfolding insert_row
insert_row-Steps s w v fresh = elim (Bool-cases (has s.order_id w.shipments)) [
  | inl b ↦ rw b (v, Ahead-refl w, λ e. cc)
  | inr b ↦ elim (Bool-cases (has_id s.id w.shipments)) [
    | inl c ↦ rw (b, c) (v, Ahead-refl w, λ e. cc)
    | inr c ↦
        let (v', a') = put-Steps s w v fresh b c in
        rw (b, c) (v', a', λ _. (s, lookup-put_self s.order_id s w.shipments, Newer-refl s))
  ]
]

-- `Insert` of a new shipment leaves it in the table.
pub insert-Sound :
    (past : World) (s : Shipment)
    → IsCarried s.status s.carrier
    → Sound protocol past (insert s) (λ _ w. Seen s w)
unfolding insert insert_row
insert-Sound past s fresh =
    Sound-bind protocol past Inserted _ _ _
      (Sound-exec protocol past _ unavailable _ (λ w v a. inserting w v))
      (λ inserted w a q.
        Sound-if protocol w _ inserted _ _
          (λ e. Sound-pure protocol w _ tt (λ d k. Seen-Ahead (q e) k))
          (λ e. Sound-raise protocol w _ _))
  where
    Inserted : Bool → World → Type 0
    Inserted inserted w = inserted ≡ true → Seen s w

    inserting :
        (w : World)
        → IsValid w
        → IsValid (insert_row s w).1
          × Ahead w (insert_row s w).1
          × Inserted (insert_row s w).0 (insert_row s w).1
    inserting w v = insert_row-Steps s w v fresh

-- `Update` of a shipment that was read and then moved.
pub update-Sound :
    (past : World) (x s : Shipment)
    → Legal x s true
    → Seen x past
    → Sound protocol past (update s) (λ _ w. Seen x w)
unfolding update
update-Sound past x s l seen =
    Sound-bind protocol past (λ _ w. Seen x w) _ _ _
      (Sound-exec protocol past _ unavailable _ (λ w v a.
        let now = Seen-Ahead seen a in
        let (v', a') = written-Steps x s l w v now in (v', a', Seen-Ahead now a')))
      (λ affected w a q.
        Sound-if protocol w _ affected _ _ (λ e. Sound-pure protocol w _ tt (λ d k. Seen-Ahead q k))
          (λ e. Sound-raise protocol w _ _))

pub publish-Sound :
    (past : World) (e : Event) → Sound protocol past (publish e) (λ _ w. Published e w.topic)
unfolding publish
publish-Sound past e =
    Sound-exec protocol past _ unavailable _
      (λ w v a. let (v', a') = publish-Steps e w v in (v', a', inl refl))
