-- ===== src/Order/Relay.antt =====
-- The outbox relay: services/order/internal/infra/postgres/relay_store.go and
-- services/order/internal/worker/relay/relay.go. The world is the database, the topic, and the outbox
-- rows that transactions of other relays hold locked. What a publication writes stays written,
-- whatever becomes of the transaction; a publication that is written in part is one that fails after
-- another producer has written that part. The wait between two cycles and a shutdown are left out.
pub mod Marking
pub mod Draining
use event_driven_order_fulfi.Common.{
  ℕ, zero, suc, ◌+◌, ◌≡◌, Bool, true, false, not, ◌||◌, ◌&&◌, List, [], ◌∷◌, ◌++◌, map, take,
  length, ltb, nat_beq, if◌then◌else◌, Outcome, ok, err,
}
use event_driven_order_fulfi.Common.Session.{
  Reply, served, refused, lost, Session, Action, arrive, pure, raise, read, write, emit, begin,
  commit, rolled_back, ◌>>=◌, ◌>>◌,
}
use event_driven_order_fulfi.Order.Values.{Error, storage}
use event_driven_order_fulfi.Order.Store.{Db, OutboxMessage, OutboxRow}

-- The latest message of the topic comes first.
pub record RelayWorld : Type 0 where
  pub outbox : List OutboxRow
  pub topic : List OutboxMessage
  pub locked : List ℕ

unfoldable pub contains : ℕ → List ℕ → Bool
contains i [] = false
contains i (j ∷ js) = nat_beq i j || contains i js

-- WHERE published_at IS NULL … FOR UPDATE SKIP LOCKED
unfoldable pub available : List ℕ → List OutboxRow → List OutboxRow
unfolding contains
available locked [] = []
available locked (r ∷ rows) =
    let rest = available locked rows in
    if r.published || contains r.id locked then rest else r ∷ rest

unfoldable pub insert_by_id : OutboxRow → List OutboxRow → List OutboxRow
insert_by_id r [] = r ∷ []
insert_by_id r (s ∷ rows) =
    let rest = insert_by_id r rows in if ltb s.id r.id then s ∷ rest else r ∷ s ∷ rows

-- ORDER BY id ASC
unfoldable pub by_id : List OutboxRow → List OutboxRow
unfolding insert_by_id
by_id [] = []
by_id (r ∷ rows) = insert_by_id r (by_id rows)

-- The SELECT of `DrainBatch`.
unfoldable pub batch : ℕ → RelayWorld → List OutboxRow
unfolding available by_id
batch n w = take n (by_id (available w.locked w.outbox))

-- UPDATE outbox SET published_at = now() WHERE id = ANY($1)
unfoldable pub mark : List ℕ → List OutboxRow → List OutboxRow
unfolding contains
mark ids [] = []
mark ids (r ∷ rows) =
    (if contains r.id ids then record r { published = true } else r) ∷ mark ids rows

abbrev pub mark_published : List ℕ → RelayWorld → Unit {0} × RelayWorld
mark_published ids w = (tt, record w { outbox = mark ids w.outbox })

abbrev pub ids_of : List OutboxRow → List ℕ
ids_of rows = map (λ r. r.id) rows

-- The messages of a batch, behind those of the topic.
unfoldable pub sent : List OutboxRow → List OutboxMessage → List OutboxMessage
sent [] topic = topic
sent (r ∷ rows) topic = sent rows (r.message ∷ topic)

abbrev pub send : List OutboxRow → RelayWorld → RelayWorld
send rows w = record w { topic = sent rows w.topic }

-- The publisher of services/order/internal/infra/kafka/publisher.go.
unfoldable pub publish : List OutboxRow → Action RelayWorld Error (Unit {0})
unfolding sent
publish [] = pure tt
publish (r ∷ rows) = emit storage (send (r ∷ rows))

-- `DrainBatch`, behind the SELECT: how many rows were published.
unfoldable pub settle : List OutboxRow → Action RelayWorld Error ℕ
unfolding publish mark
settle [] = do commit storage; pure 0
settle (r ∷ rows) = do
  publish (r ∷ rows)
  write storage (mark_published (ids_of (r ∷ rows)))
  commit storage
  pure (length (r ∷ rows))

unfoldable pub drain_batch : ℕ → Action RelayWorld Error ℕ
unfolding batch settle
drain_batch n = rolled_back (do begin storage; rows ← read storage (batch n); settle rows)

-- Cycles of the loop of `Run`; an error ends a cycle, not the loop.
abbrev pub cycles : ℕ → ℕ → Session RelayWorld → Session RelayWorld
cycles zero n s = s
cycles (suc k) n s = cycles k n (drain_batch n s).1
