-- ===== src/Fulfillment/Store/Newer.antt =====
-- How the shipments of the fulfillment service evolve, whoever writes them,
-- services/fulfillment/internal/infra/postgres/shipment_repository.go.
use event_driven_order_fulfi.Common.{
  ◌≤◌, ◌≡◌, refl, sym, ◌∙◌, ap, subst, false, ◌⊎◌, inl, inr, Option, none, some, List, [], ◌∷◌,
  Bool-cases, nat_beq, nat_key, ◌==◌, arith,
}
use event_driven_order_fulfi.Common.Table.{Table, lookup}
use event_driven_order_fulfi.Common.Session.Protocol.{Protocol}
use event_driven_order_fulfi.Platform.{Uuid}
use event_driven_order_fulfi.Fulfillment.Shipment.{Shipment}
use event_driven_order_fulfi.Fulfillment.Shipment.Lifecycle.{Moves, stay, Moves-trans, IsCarried}
use event_driven_order_fulfi.Fulfillment.Store.{Event, World, has_id, update_row, update_rows}

-- `r'` is `r`, or a later version of the same shipment.
pub record Newer (r r' : Shipment) : Type 0 where
  pub id_eq : r'.id ≡ r.id
  pub order_eq : r'.order_id ≡ r.order_id
  pub version_le : r.version ≤ r'.version
  pub unchanged : r'.version ≡ r.version → r' ≡ r
  pub moves : Moves r.status r'.status

pub Newer-refl : (r : Shipment) → Newer r r
Newer-refl r = record {
  id_eq = refl;
  order_eq = refl;
  version_le = omega arith;
  unchanged = λ _. refl;
  moves = stay;
}

pub Newer-trans : {a b c : Shipment} → Newer a b → Newer b c → Newer a c
Newer-trans {a} {b} {c} h k = record {
  id_eq = k.id_eq ∙ h.id_eq;
  order_eq = k.order_eq ∙ h.order_eq;
  version_le = omega (arith, h.version_le, k.version_le);
  unchanged = λ e.
      let kept : c.version ≡ b.version = omega (arith, e, h.version_le, k.version_le) in
      let same : c ≡ b = k.unchanged kept in
      let first : b.version ≡ a.version = omega (arith, e, kept) in same ∙ h.unchanged first;
  moves = Moves-trans h.moves k.moves;
}

abbrev pub Published : Event → List Event → Type 0
Published e [] = ⊥
Published e (x ∷ past) = (e ≡ x) ⊎ Published e past

-- The row of an order.
abbrev pub Row : World → Uuid → Shipment → Type 0
Row w o r = lookup o w.shipments ≡ some r

pub record IsValid (w : World) : Type 0 where
  pub keyed : (o : Uuid) (r : Shipment) → Row w o r → r.order_id ≡ o
  pub distinct : (o o' : Uuid) (r r' : Shipment) → Row w o r → Row w o' r' → r.id ≡ r'.id → o ≡ o'
  pub carried : (o : Uuid) (r : Shipment) → Row w o r → IsCarried r.status r.carrier

pub record Ahead (w w' : World) : Type 0 where
  pub rows : (o : Uuid) (r : Shipment) → Row w o r → (r' : Shipment) × Row w' o r' × Newer r r'
  pub kept : (e : Event) → Published e w.topic → Published e w'.topic

pub Ahead-refl : (w : World) → Ahead w w
Ahead-refl w = record { rows = λ o r h. (r, h, Newer-refl r); kept = λ e h. h }

pub Ahead-trans : {a b c : World} → Ahead a b → Ahead b c → Ahead a c
Ahead-trans h k = record {
  rows = λ o r x.
      let (r1, x1, n1) = h.rows o r x in
      let (r2, x2, n2) = k.rows o r1 x1 in (r2, x2, Newer-trans n1 n2);
  kept = λ e x. k.kept e (h.kept e x);
}

-- An order has one shipment, for good; a shipment keeps its ids and moves through its lifecycle,
-- each change with a new version; an event that was published stays published.
abbrev pub protocol : Protocol World
protocol = record {
  Holds = IsValid;
  Ahead = Ahead;
  Ahead-refl = Ahead-refl;
  Ahead-trans = Ahead-trans;
}

pub has_id-row :
    (i : Uuid) (t : Table Uuid Shipment) (o : Uuid) (r : Shipment)
    → has_id i t ≡ false
    → lookup o t ≡ some r
    → nat_beq r.id i ≡ false
unfolding has_id lookup
has_id-row i [] o r h e = cc
has_id-row i ((o', r') ∷ t) o r h e = ground (arith, has_id-row i t o r)

abbrev map_row : Shipment → Option Shipment → Option Shipment
map_row s none = none
map_row s (some r) = some (update_row s r)

pub lookup-update_rows :
    (s : Shipment) (t : Table Uuid Shipment) (o : Uuid)
    → lookup o (update_rows s t) ≡ map_row s (lookup o t)
unfolding lookup update_rows
lookup-update_rows s [] o = refl
lookup-update_rows s ((o', r) ∷ t) o = elim (Bool-cases (o' == o)) [
  | inl b ↦ rw b refl
  | inr b ↦ rw b (lookup-update_rows s t o)
]

pub row_after :
    (s : Shipment) (t : Table Uuid Shipment) (o : Uuid) (r : Shipment)
    → lookup o t ≡ some r
    → lookup o (update_rows s t) ≡ some (update_row s r)
row_after s t o r h = rw (lookup-update_rows s t o, h) refl

pub row_before :
    (s : Shipment) (t : Table Uuid Shipment) (o : Uuid) (r' : Shipment)
    → lookup o (update_rows s t) ≡ some r'
    → (r : Shipment) × (lookup o t ≡ some r) × (r' ≡ update_row s r)
row_before s t o r' h = from (lookup o t) refl
  where
    from :
        (found : Option Shipment)
        → lookup o t ≡ found
        → (r : Shipment) × (lookup o t ≡ some r) × (r' ≡ update_row s r)
    from none e = let never : none ≡ some r' = rw (lookup-update_rows s t o, e) at h in cc
    from (some r) e =
        let same : some (update_row s r) ≡ some r' = rw (lookup-update_rows s t o, e) at h in
        (r, e, cc)

-- A shipment that was read: its row holds it, or a later version of it.
abbrev pub Seen : Shipment → World → Type 0
Seen s w = (r : Shipment) × Row w s.order_id r × Newer s r

pub Seen-Ahead : {s : Shipment} {w w' : World} → Seen s w → Ahead w w' → Seen s w'
Seen-Ahead {s} (r, h, n) a = let (r', h', n') = a.rows s.order_id r h in (r', h', Newer-trans n n')

-- A shipment that was read is in the row of its order.
pub Row-Seen :
    {s : Shipment} {o : Uuid} (w : World)
    → s.order_id ≡ o
    → Seen s w
    → (r : Shipment) × Row w o r × Newer s r
Row-Seen w e (r, row, newer) = (r, subst (λ i. Row w i r) e row, newer)

-- Two shipments of one order that were read have one id.
pub same_id_of_Seen :
    {s t : Shipment} {o : Uuid} (w : World)
    → s.order_id ≡ o
    → t.order_id ≡ o
    → Seen s w
    → Seen t w
    → t.id ≡ s.id
same_id_of_Seen w e f h k =
    let (r, row, newer) = Row-Seen w e h in
    let (r', row', newer') = Row-Seen w f k in
    let same : r ≡ r' = cc in sym newer'.id_eq ∙ sym (ap (λ z. z.id) same) ∙ newer.id_eq
