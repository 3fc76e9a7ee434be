-- ===== src/Order/Projection/Shape.antt =====
-- What runs of messages do to the row of one order in the read model,
-- services/order/internal/infra/postgres/projection_repository.go.
use event_driven_order_fulfi.Common.{
  ◌≡◌, refl, sym, ◌∙◌, ap, true, Option, none, some, leb, nat_key, ◌==◌, Bool-cases, inl, inr,
  if◌then◌else◌, eq_of_==,
}
use event_driven_order_fulfi.Common.Table.{Table, lookup, put, lookup-put}
use event_driven_order_fulfi.Order.Values.{OrderId, Status}
use event_driven_order_fulfi.Order.Store.{Projection}
use event_driven_order_fulfi.Order.Projection.{upsert_row, set_status}

-- What a run of messages does to the row of one order.
pub data Shape : Type 0 where
  keep : Shape
  become : Projection → Shape
  set : Status → Shape

abbrev pub act : Shape → Option Projection → Option Projection
act keep x = x
act (become r) x = some r
act (set st) none = none
act (set st) (some r) = some (record r { status = st })

abbrev pub followed_by : Shape → Shape → Shape
followed_by s keep = s
followed_by s (become r) = become r
followed_by keep (set st) = set st
followed_by (become r) (set st) = become (record r { status = st })
followed_by (set st') (set st) = set st

pub act-followed_by :
    (s t : Shape) (x : Option Projection) → act (followed_by s t) x ≡ act t (act s x)
act-followed_by s keep x = refl
act-followed_by s (become r) x = refl
act-followed_by keep (set st) x = refl
act-followed_by (become r) (set st) x = refl
act-followed_by (set st') (set st) none = refl
act-followed_by (set st') (set st) (some r) = refl

pub act_twice : (s : Shape) (x : Option Projection) → act s (act s x) ≡ act s x
act_twice keep x = refl
act_twice (become r) x = refl
act_twice (set st) none = refl
act_twice (set st) (some r) = refl

abbrev pub Rows : Type 0
Rows = Table OrderId Projection

-- Every row stands at version 1, the only one that is ever written.
abbrev pub IsFirst : Rows → Type 0
IsFirst t = (o : OrderId) (r : Projection) → lookup o t ≡ some r → r.version ≡ 1

abbrev pub at_order : OrderId → OrderId → Shape → Shape
at_order i o s = if i == o then s else keep

pub upsert_row_lem :
    (r : Projection) (t : Rows) (o : OrderId)
    → r.version ≡ 1
    → IsFirst t
    → lookup o (upsert_row r t) ≡ act (at_order r.order_id o (become r)) (lookup o t)
unfolding upsert_row
upsert_row_lem r t o e f = from (lookup r.order_id t) refl
  where
    stored : lookup o (put r.order_id r t) ≡ act (at_order r.order_id o (become r)) (lookup o t)
    stored = elim (Bool-cases (r.order_id == o)) [
      | inl b ↦ rw (lookup-put r.order_id o r t, b) refl
      | inr b ↦ rw (lookup-put r.order_id o r t, b) refl
    ]

    from :
        (found : Option Projection)
        → lookup r.order_id t ≡ found
        → lookup o (elim found [
          | none ↦ put r.order_id r t
          | some old ↦ if leb old.version r.version then put r.order_id r t else t
        ])
          ≡ act (at_order r.order_id o (become r)) (lookup o t)
    from none h = stored
    from (some old) h =
        let same : leb old.version r.version ≡ true = rw (f r.order_id old h, e) refl in
        rw same stored

pub set_status_lem :
    (i : OrderId) (st : Status) (t : Rows) (o : OrderId)
    → lookup o (set_status i st t) ≡ act (at_order i o (set st)) (lookup o t)
unfolding set_status
set_status_lem i st t o = from (lookup i t) refl
  where
    from :
        (found : Option Projection)
        → lookup i t ≡ found
        → lookup o (elim found [ none ↦ t | some old ↦ put i (record old { status = st }) t ])
          ≡ act (at_order i o (set st)) (lookup o t)
    from none h = elim (Bool-cases (i == o)) [
      | inl b ↦ let h' = rw (eq_of_== i o b) at h in rw (b, h') refl
      | inr b ↦ rw b refl
    ]
    from (some old) h = elim (Bool-cases (i == o)) [
      | inl b ↦
          let h' = rw (eq_of_== i o b) at h in
          rw (lookup-put i o (record old { status = st }) t, b, h') refl
      | inr b ↦ rw (lookup-put i o (record old { status = st }) t, b) refl
    ]

pub IsFirst-act :
    (s : Shape) (x : Option Projection)
    → ((r : Projection) → s ≡ become r → r.version ≡ 1)
    → ((r : Projection) → x ≡ some r → r.version ≡ 1)
    → (r : Projection) → act s x ≡ some r
    → r.version ≡ 1
IsFirst-act keep x h k r e = k r e
IsFirst-act (become q) x h k r e = let same : q ≡ r = cc in rw (← same) (h q refl)
IsFirst-act (set st) none h k r e = cc
IsFirst-act (set st) (some q) h k r e =
    let same : record q { status = st } ≡ r = cc in ap (λ z. z.version) (sym same) ∙ k q refl
