-- ===== src/Consumer.antt =====
-- The consumer loop that four workers share, services/order/internal/worker/projector/projector.go,
-- services/order/internal/worker/orchestrator/worker.go,
-- services/fulfillment/internal/worker/consumer/worker.go and
-- services/notification/internal/worker/consumer/worker.go, with the dead-letter publisher,
-- infra/deadletter/deadletter.go of each service. The messages of one partition are a list; a fetch
-- that fails is tried again and changes nothing. Each call of the broker is served, refused, or
-- served with its reply lost. The trace context and the text of the error in a dead letter are left
-- out, and a shutdown between two messages is the end of a life of the worker.
pub mod Delivery
use event_driven_order_fulfi.Common.{
  ℕ, zero, suc, ◌+◌, ◌≡◌, Bool, true, false, Option, List, [], ◌∷◌, ◌++◌, if◌then◌else◌, Outcome,
  ok, err,
}
use event_driven_order_fulfi.Common.Text.{txt, text_beq}
use event_driven_order_fulfi.Common.Json.{Json}
use event_driven_order_fulfi.Common.Session.{Session, Action, Reply, served, refused, lost}
use event_driven_order_fulfi.Platform.{Text}

-- A value that is not JSON is `none`.
pub record Message : Type 0 where
  pub key : Text
  pub value : Option Json
  pub headers : List (Text × Text)

-- `headerValue`
unfoldable pub header_value : List (Text × Text) → Text → Text
header_value [] key = []
header_value ((k, v) ∷ rest) key = if text_beq k key then v else header_value rest key

-- An error that wraps `ErrPermanent`, and any other.
pub data Failure : Type 0 where
  permanent transient : Failure

-- What the dead-letter topic holds of a message.
pub record DeadLetter : Type 0 where
  pub message : Message
  pub source_offset : ℕ

-- `committed` is the offset that the consumer group resumes from.
pub record Worker (W : Type 0) : Type 0 where
  pub session : Session W
  pub committed : ℕ
  pub dead : List DeadLetter
  pub replies : List Reply

unfoldable pub next_reply : List Reply → Reply × List Reply
next_reply [] = (served, [])
next_reply (r ∷ rest) = (r, rest)

module _ {W : Type 0} where
  unfoldable pub commit_answered : ℕ → Reply → Worker W → Bool × Worker W
  commit_answered at served r = (true, record r { committed = at + 1 })
  commit_answered at refused r = (false, r)
  commit_answered at lost r = (false, record r { committed = at + 1 })

  -- `CommitMessages`; `false` stops the worker.
  unfoldable pub commit_message : ℕ → Worker W → Bool × Worker W
  unfolding next_reply commit_answered
  commit_message at r =
      let (reply, rest) = next_reply r.replies in
      commit_answered at reply (record r { replies = rest })

  unfoldable pub publish_answered : DeadLetter → Reply → Worker W → Bool × Worker W
  publish_answered l served r = (true, record r { dead = l ∷ r.dead })
  publish_answered l refused r = (false, r)
  publish_answered l lost r = (false, record r { dead = l ∷ r.dead })

  -- `deadletter.Publisher.Publish`
  unfoldable pub publish_dead : DeadLetter → Worker W → Bool × Worker W
  unfolding next_reply publish_answered
  publish_dead l r =
      let (reply, rest) = next_reply r.replies in
      publish_answered l reply (record r { replies = rest })

  unfoldable pub commit_next : ℕ → Bool × Worker W → Bool × Worker W
  unfolding commit_message
  commit_next at (false, r) = (false, r)
  commit_next at (true, r) = commit_message at r

  unfoldable pub conclude : ℕ → Message → Outcome Failure (Unit {0}) → Worker W → Bool × Worker W
  unfolding commit_message publish_dead commit_next
  conclude at m (ok u) r = commit_message at r
  conclude at m (err permanent) r =
      commit_next at (publish_dead (record { message = m; source_offset = at }) r)
  conclude at m (err transient) r = (false, r)

  unfoldable pub proceed : Bool × Worker W → (Worker W → Worker W) → Worker W
  proceed (true, r) next = next r
  proceed (false, r) next = r

module _ {W : Type 0} (handle : Message → Action W Failure (Unit {0})) where
  -- The body of the loop of `Run`, for a message that was fetched.
  unfoldable pub process : ℕ → Message → Worker W → Bool × Worker W
  unfolding conclude
  process at m r =
      let (answer, s) = handle m r.session in conclude at m answer (record r { session = s })

  -- `Run`, from an offset on: until an error, or the end of what has been produced.
  unfoldable pub run : ℕ → List Message → Worker W → Worker W
  unfolding process proceed
  run at [] r = r
  run at (m ∷ rest) r = proceed (process at m r) (run (at + 1) rest)
