-- ===== src/Examples/Notifications.antt =====
-- The theorems on the notification service, at the confirmation of the order 7.
use event_driven_order_fulfi.Common.{◌≡◌, refl, Option, some, List, [], ◌∷◌, ◌++◌, err, ◌≤◌, arith}
use event_driven_order_fulfi.Common.Text.{txt, text_beq, trim_space, is_space}
use event_driven_order_fulfi.Common.Text.Decimal.{decimal, two_digits}
use event_driven_order_fulfi.Common.Json.{
  Json, str, obj, field, end, as_fields, as_text, get_or_null,
}
use event_driven_order_fulfi.Common.Table.{has}
use event_driven_order_fulfi.Common.Int.{pos, negsuc}
use event_driven_order_fulfi.Common.Session.{Session, refused, served, lost}
use event_driven_order_fulfi.Consumer.{transient}
use event_driven_order_fulfi.Contracts.{EventType, order_confirmed}
use event_driven_order_fulfi.Platform.{Time}
use event_driven_order_fulfi.Notification.Render.{
  Message, rendered, render, message, money, render_body, decode_order_id,
}
use event_driven_order_fulfi.Notification.Contracts.{unmarshal_ref}
use event_driven_order_fulfi.Notification.Dispatcher.{World, handle}
use event_driven_order_fulfi.Notification.Dispatcher.Once.{count}
use event_driven_order_fulfi.Notification.Dispatcher.Delivery.{
  IsFine, handle_all, notified_at_most_once, interrupted, deliver_again, lost_reply_never_sent,
}
use event_driven_order_fulfi.Examples.{one_point}

abbrev confirmation : Option Json
confirmation = some (obj (field (txt "orderId") (str (7 ∷ [])) end))

abbrev nothing_yet : World
nothing_yet = record { notifications = []; mailbox = [] }

-- The recording is refused, then answered; the sending is answered; then a recording is lost.
abbrev failing : Session World
failing = record {
  committed = nothing_yet;
  view = nothing_yet;
  turns =
      record { others = λ w. w; reply = refused }
      ∷ record { others = λ w. w; reply = served }
      ∷ record { others = λ w. w; reply = served }
      ∷ record { others = λ w. w; reply = lost }
      ∷ [];
}

failing-IsFine : IsFine failing
failing-IsFine = record {
  once = record { bounded = λ k. omega arith };
  keyed = tt;
  alone = (λ d. refl, (λ d. refl, (λ d. refl, (λ d. refl, tt))));
}

abbrev three_deliveries : List (EventType × Option Json × Time)
three_deliveries =
    (order_confirmed, confirmation, 5)
    ∷ (order_confirmed, confirmation, 6)
    ∷ (order_confirmed, confirmation, 7)
    ∷ []

notified_at_most_once_example :
    count (txt "order.confirmed.v1") 7 (handle_all three_deliveries failing).committed.mailbox ≤ 1
notified_at_most_once_example =
    notified_at_most_once three_deliveries failing failing-IsFine (txt "order.confirmed.v1") 7

abbrev the_message : Message
the_message =
    message 7 (txt "Order confirmed")
      (txt "Your order " ++ (7 ∷ txt " is confirmed and being prepared."))

confirmation-renders : render order_confirmed confirmation ≡ rendered the_message
unfolding render render_body decode_order_id unmarshal_ref as_fields as_text get_or_null text_beq
confirmation-renders = refl

lost_reply_never_sent_example :
    ((handle order_confirmed confirmation 5 (interrupted nothing_yet)).0 ≡ err transient)
    × ((deliver_again
          (6 ∷ 9 ∷ 9 ∷ [])
          order_confirmed
          confirmation
          (handle order_confirmed confirmation 5 (interrupted nothing_yet)).1).committed.mailbox
        ≡ [])
unfolding has
lost_reply_never_sent_example =
    lost_reply_never_sent (6 ∷ 9 ∷ 9 ∷ []) order_confirmed confirmation 5 the_message nothing_yet
      confirmation-renders refl

-- An amount below one unit loses its sign.
half_a_euro_back : money (negsuc 49) (txt "EUR") ≡ txt "0.50 EUR"
unfolding money trim_space is_space decimal two_digits
half_a_euro_back = refl

twelve_euro : money (pos 1299) (txt " EUR") ≡ txt "12.99 EUR"
unfolding money trim_space is_space decimal two_digits
twelve_euro = refl
