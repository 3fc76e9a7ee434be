-- ===== src/Notification/Dispatcher.antt =====
-- The dispatcher, services/notification/internal/app/dispatcher.go, over the table of
-- services/notification/internal/infra/postgres/notification_repository.go and a sender that may fail.
-- Generated ids of rows are not read again and are left out.
pub mod Once
pub mod Delivery
use event_driven_order_fulfi.Common.{
  ℕ, ◌≡◌, Bool, true, false, Option, List, [], ◌∷◌, ◌++◌, if◌then◌else◌, Outcome, ok, err,
}
use event_driven_order_fulfi.Common.Json.{Json}
use event_driven_order_fulfi.Common.Table.{Table, has, put}
use event_driven_order_fulfi.Common.Text.{txt, text_key}
use event_driven_order_fulfi.Common.Session.{Session, Action, pure, raise, exec, ◌>>=◌, ◌>>◌}
use event_driven_order_fulfi.Consumer.{Failure, permanent, transient}
use event_driven_order_fulfi.Contracts.{EventType}
use event_driven_order_fulfi.Platform.{Platform, Text, Time, Uuid}
use event_driven_order_fulfi.Notification.Contracts.{type_name}
use event_driven_order_fulfi.Notification.Render.{
  Message, Rendered, rendered, ignored, unreadable, render,
}

-- The only channel is EMAIL.
pub record Notification : Type 0 where
  pub dedupe_key : Text
  pub event_type : EventType
  pub order_id : Uuid
  pub recipient : Text
  pub subject : Text
  pub body : Text
  pub created_at : Time

-- The table by dedupe key, and what the sender has delivered, the latest first.
pub record World : Type 0 where
  pub notifications : Table Text Notification
  pub mailbox : List Notification

-- INSERT … ON CONFLICT (dedupe_key) DO NOTHING
unfoldable pub insert_if_new : Notification → World → Bool × World
insert_if_new n w =
    if has n.dedupe_key w.notifications
    then (false, w)
    else (true, record w { notifications = put n.dedupe_key n w.notifications })

unfoldable pub record_if_new : Notification → Action World Failure Bool
unfolding insert_if_new
record_if_new n = exec transient (insert_if_new n)

unfoldable pub send : Notification → Action World Failure (Unit {0})
send n = exec transient (λ w. (tt, record w { mailbox = n ∷ w.mailbox }))

-- `Handle`, behind the rendering.
unfoldable pub deliver : Notification → Action World Failure (Unit {0})
unfolding record_if_new send
deliver n = do is_new ← record_if_new n; if is_new then send n else pure tt

module _ ⦃p : Platform⦄ where
  unfoldable pub recipient_for : Uuid → Text
  recipient_for id = txt "notify+" ++ p.uuid_string id ++ txt "@example.com"

  unfoldable pub notification_of : EventType → Message → Time → Notification
  unfolding recipient_for
  notification_of ty m now = record {
    dedupe_key = type_name ty ++ txt ":" ++ p.uuid_string m.order_id;
    event_type = ty;
    order_id = m.order_id;
    recipient = recipient_for m.order_id;
    subject = m.subject;
    body = m.body;
    created_at = now;
  }

  unfoldable pub dispatch : EventType → Time → Rendered → Action World Failure (Unit {0})
  unfolding deliver notification_of
  dispatch ty now unreadable = raise permanent
  dispatch ty now ignored = pure tt
  dispatch ty now (rendered m) = deliver (notification_of ty m now)

  -- `Dispatcher.Handle`; `now` is what the clock reads.
  unfoldable pub handle : EventType → Option Json → Time → Action World Failure (Unit {0})
  unfolding dispatch render
  handle ty payload now = dispatch ty now (render ty payload)
