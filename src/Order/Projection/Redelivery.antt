-- ===== src/Order/Projection/Redelivery.antt =====
-- The read model under redelivery, services/order/internal/app/projection/service.go and
-- services/order/internal/infra/postgres/projection_repository.go.
use event_driven_order_fulfi.Common.{◌≡◌, sym, ◌∙◌, ap, Option, List, [], ◌∷◌, nat_key}
use event_driven_order_fulfi.Common.Json.{Json}
use event_driven_order_fulfi.Common.Table.{lookup}
use event_driven_order_fulfi.Common.Session.{Session, quiet}
use event_driven_order_fulfi.Contracts.{EventType}
use event_driven_order_fulfi.Platform.{Platform}
use event_driven_order_fulfi.Order.Values.{OrderId}
use event_driven_order_fulfi.Order.Store.{Db}
use event_driven_order_fulfi.Order.Projection.{apply}
use event_driven_order_fulfi.Order.Projection.Shape.{
  Shape, keep, act, followed_by, act-followed_by, act_twice, IsFirst, IsFirst-act,
}
use event_driven_order_fulfi.Order.Projection.Effects.{
  shape_of, Changed, Changed-none, apply-Changed, shape_of-version,
}

module _ ⦃p : Platform⦄ where
  -- The projector's handling of messages in order; a message that fails has no effect.
  abbrev pub project : List (EventType × Option Json) → Session Db → Session Db
  project [] s = s
  project ((ty, payload) ∷ ms) s = project ms (apply ty payload s).1

  unfoldable pub shape_of_all : List (EventType × Option Json) → OrderId → Shape
  shape_of_all [] o = keep
  shape_of_all ((ty, payload) ∷ ms) o = followed_by (shape_of ty payload o) (shape_of_all ms o)

  pub record Projected (f : OrderId → Shape) (d : Db) (s : Session Db) : Type 0 where
    pub changed : Changed f d s
    pub first : IsFirst changed.db.projections

  pub project-Projected :
      (ms : List (EventType × Option Json)) (d : Db)
      → IsFirst d.projections
      → Projected (shape_of_all ms) d (project ms (quiet d))
  unfolding shape_of_all Changed-none
  project-Projected [] d f = record { changed = Changed-none d; first = f }
  project-Projected ((ty, payload) ∷ ms) d f =
      let c = apply-Changed ty payload d f in
      let f' : IsFirst c.db.projections = λ o r e.
        IsFirst-act (shape_of ty payload o) (lookup o d.projections)
          (λ q k. shape_of-version ty payload o q k) (λ q k. f o q k) r (sym (c.rows o) ∙ e) in
      let it = project-Projected ms c.db f' in
      rw c.at (record {
        changed = record {
          db = it.changed.db;
          at = it.changed.at;
          rows = λ o.
              it.changed.rows o
              ∙ ap (act (shape_of_all ms o)) (c.rows o)
              ∙ sym (
                  act-followed_by (shape_of ty payload o) (shape_of_all ms o)
                    (lookup o d.projections));
        };
        first = it.first;
      })

  -- Where everything answers and all rows stand at version 1: delivering any messages a second time,
  -- from their first one on and in their order, and then any others, leaves for every order the row
  -- that a single delivery leaves.
  pub redelivery_converges :
      (ms rest : List (EventType × Option Json)) (d : Db)
      → IsFirst d.projections
      → (o : OrderId)
      → lookup o (project rest (project ms (project ms (quiet d)))).committed.projections
        ≡ lookup o (project rest (project ms (quiet d))).committed.projections
  redelivery_converges ms rest d f o =
      let once = project-Projected ms d f in
      let twice = project-Projected ms once.changed.db once.first in
      let end = project-Projected rest once.changed.db once.first in
      let end' = project-Projected rest twice.changed.db twice.first in
      let same : lookup o twice.changed.db.projections ≡ lookup o once.changed.db.projections =
        twice.changed.rows o
        ∙ ap (act (shape_of_all ms o)) (once.changed.rows o)
        ∙ act_twice (shape_of_all ms o) (lookup o d.projections)
        ∙ sym (once.changed.rows o) in
      let rows' =
        end'.changed.rows o ∙ ap (act (shape_of_all rest o)) same ∙ sym (end.changed.rows o) in
      rw (once.changed.at, twice.changed.at, end.changed.at, end'.changed.at) rows'
