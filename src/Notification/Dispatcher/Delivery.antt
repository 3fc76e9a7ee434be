-- ===== src/Notification/Dispatcher/Delivery.antt =====
-- How often a message is sent, services/notification/internal/app/dispatcher.go.
use event_driven_order_fulfi.Common.{
  ◌≤◌, ◌≡◌, refl, Bool, true, false, Option, List, [], ◌∷◌, inl, inr, Bool-cases, if◌then◌else◌,
  All, nat_key, Outcome, ok, err, arith,
}
use event_driven_order_fulfi.Common.Json.{Json}
use event_driven_order_fulfi.Common.Table.{has, put, has-put_self}
use event_driven_order_fulfi.Common.Text.{text_key}
use event_driven_order_fulfi.Common.Session.{
  Session, lost, quiet, exec, arrive, arrive_at, continue, pure,
}
use event_driven_order_fulfi.Common.Session.Alone.{
  IsAlone, Done, failed, unanswered, answered, exec-Done,
}
use event_driven_order_fulfi.Consumer.{Failure, transient}
use event_driven_order_fulfi.Contracts.{EventType}
use event_driven_order_fulfi.Platform.{Platform, Text, Time, Uuid}
use event_driven_order_fulfi.Notification.Contracts.{type_name}
use event_driven_order_fulfi.Notification.Render.{
  Message, Rendered, rendered, ignored, unreadable, render,
}
use event_driven_order_fulfi.Notification.Dispatcher.{
  Notification, World, insert_if_new, record_if_new, send, notification_of, deliver, dispatch,
  handle,
}
use event_driven_order_fulfi.Notification.Dispatcher.Once.{
  count, at_most_one, IsOnce, Unsent, insert_if_new-IsOnce, sent-IsOnce, key_of, IsKeyed,
  count-with_key,
}

module _ ⦃p : Platform⦄ where
  -- Nobody else writes, and what was sent was recorded and sent once.
  pub record IsFine (s : Session World) : Type 0 where
    pub once : IsOnce s.committed
    pub keyed : All IsKeyed s.committed.mailbox
    pub alone : IsAlone s.turns

  send-IsFine :
      (n : Notification) (s : Session World)
      → IsKeyed n
      → IsFine s
      → Unsent n s.committed
      → IsFine (send n s).1
  unfolding send
  send-IsFine n s own f u =
      let (alone, done) =
        exec-Done transient (λ w. (tt, record w { mailbox = n ∷ w.mailbox })) s f.alone in
      let (once, keyed) = after _ _ done in record { once = once; keyed = keyed; alone = alone }
    where
      after :
          (r : Outcome Failure (Unit {0})) (w : World)
          → Done transient (λ w. (tt, record w { mailbox = n ∷ w.mailbox })) s.committed r w
          → IsOnce w × All IsKeyed w.mailbox
      after _ _ failed = (f.once, f.keyed)
      after _ _ unanswered = (sent-IsOnce n s.committed f.once u, (own, f.keyed))
      after _ _ answered = (sent-IsOnce n s.committed f.once u, (own, f.keyed))

  insert_if_new-IsKeyed :
      (n : Notification) (w : World)
      → All IsKeyed w.mailbox
      → All IsKeyed (insert_if_new n w).1.mailbox
  unfolding insert_if_new
  insert_if_new-IsKeyed n w h = elim (Bool-cases (has n.dedupe_key w.notifications)) [
    | inl x ↦ rw x h
    | inr x ↦ rw x h
  ]

  after_record :
      (n : Notification) (w : World) (r : Outcome Failure Bool) (t : Session World)
      → IsOnce w
      → All IsKeyed w.mailbox
      → IsAlone t.turns
      → Done transient (insert_if_new n) w r t.committed
      → IsFine t × (r ≡ ok true → Unsent n t.committed)
  after_record n w r t o h a d =
      let (once, keyed, new) = from r t.committed d in
      (record { once = once; keyed = keyed; alone = a }, new)
    where
      from :
          (r : Outcome Failure Bool) (c : World)
          → Done transient (insert_if_new n) w r c
          → IsOnce c × All IsKeyed c.mailbox × (r ≡ ok true → Unsent n c)
      from _ _ failed = (o, h, λ e. cc)
      from _ _ unanswered = ((insert_if_new-IsOnce n w o).0, insert_if_new-IsKeyed n w h, λ e. cc)
      from _ _ answered =
          let (once, new) = insert_if_new-IsOnce n w o in
          (
            once,
            insert_if_new-IsKeyed n w h,
            λ e. let b : (insert_if_new n w).0 ≡ true = cc in new b,
          )

  deliver-IsFine :
      (n : Notification) (s : Session World) → IsKeyed n → IsFine s → IsFine (deliver n s).1
  unfolding deliver record_if_new
  deliver-IsFine n s own f =
      let (alone, done) = exec-Done transient (insert_if_new n) s f.alone in
      onward (record_if_new n s) (
        after_record n s.committed (record_if_new n s).0 (record_if_new n s).1 f.once f.keyed alone
          done)
    where
      onward :
          (x : Outcome Failure Bool × Session World)
          → IsFine x.1 × (x.0 ≡ ok true → Unsent n x.1.committed)
          → IsFine (continue x (λ is_new. if is_new then send n else pure tt)).1
      onward (err e, t) (g, new) = g
      onward (ok false, t) (g, new) = g
      onward (ok true, t) (g, new) = send-IsFine n t own g (new refl)

  dispatch-IsFine :
      (ty : EventType) (now : Time) (r : Rendered) (s : Session World)
      → IsFine s
      → IsFine (dispatch ty now r s).1
  unfolding dispatch notification_of
  dispatch-IsFine ty now unreadable s f = f
  dispatch-IsFine ty now ignored s f = f
  dispatch-IsFine ty now (rendered m) s f = deliver-IsFine (notification_of ty m now) s refl f

  abbrev pub handle_all : List (EventType × Option Json × Time) → Session World → Session World
  handle_all [] s = s
  handle_all ((ty, payload, now) ∷ events) s = handle_all events (handle ty payload now s).1

  -- Where nobody else writes, and so far only recorded messages have been sent, each once and under
  -- the key of its event type and order: whatever statements and sendings fail, and however often
  -- and whenever events are delivered again, no two messages of one event type for one order are
  -- ever sent.
  pub notified_at_most_once :
      (events : List (EventType × Option Json × Time)) (s : Session World)
      → IsFine s
      → (name : Text) (id : Uuid) → count name id (handle_all events s).committed.mailbox ≤ 1
  unfolding handle
  notified_at_most_once [] s f name id =
      let k = key_of name id in
      let b = f.once.bounded k in
      let c = count-with_key name id s.committed.mailbox f.keyed in
      omega (arith, b, c, at_most_one (has k s.committed.notifications))
  notified_at_most_once ((ty, payload, now) ∷ events) s f name id =
      notified_at_most_once events (handle ty payload now s).1
        (dispatch-IsFine ty now (render ty payload) s f) name id

  -- The recording is carried out and its reply is lost; then everything answers.
  abbrev pub interrupted : World → Session World
  interrupted w = record {
    committed = w;
    view = w;
    turns = record { others = λ w. w; reply = lost } ∷ [];
  }

  -- Deliveries of one event, each at its time.
  abbrev pub deliver_again : List Time → EventType → Option Json → Session World → Session World
  deliver_again [] ty payload s = s
  deliver_again (now ∷ times) ty payload s =
      deliver_again times ty payload (handle ty payload now s).1

  duplicate_skipped :
      (times : List Time) (ty : EventType) (payload : Option Json) (m : Message) (w : World)
      → render ty payload ≡ rendered m
      → has (key_of (type_name ty) m.order_id) w.notifications ≡ true
      → deliver_again times ty payload (quiet w) ≡ quiet w
  unfolding handle dispatch deliver record_if_new insert_if_new exec arrive notification_of
  duplicate_skipped [] ty payload m w r h = refl
  duplicate_skipped (now ∷ times) ty payload m w r h =
      let once : (handle ty payload now (quiet w)).1 ≡ quiet w = rw (r, h) refl in
      rw once (duplicate_skipped times ty payload m w r h)

  -- Where the event can be rendered and no message of its type for its order is recorded yet: if the
  -- recording is carried out and the reply is lost, the handling fails, and however often and at
  -- whatever times the event is delivered again, nothing is sent, though everything answers.
  pub lost_reply_never_sent :
      (times : List Time) (ty : EventType) (payload : Option Json) (now : Time) (m : Message)
      (w : World)
      → render ty payload ≡ rendered m
      → has (key_of (type_name ty) m.order_id) w.notifications ≡ false
      → ((handle ty payload now (interrupted w)).0 ≡ err transient)
        × ((deliver_again times ty payload
              (handle ty payload now (interrupted w)).1).committed.mailbox
            ≡ w.mailbox)
  unfolding handle dispatch deliver record_if_new insert_if_new exec arrive arrive_at
      notification_of
  lost_reply_never_sent times ty payload now m w r h =
      let key = key_of (type_name ty) m.order_id in
      let msg = notification_of ty m now in
      let w' : World = record w { notifications = put key msg w.notifications } in
      let first : handle ty payload now (interrupted w) ≡ (err transient, quiet w') =
        rw (r, h) refl in
      let again =
        duplicate_skipped times ty payload m w' r (has-put_self key msg w.notifications) in
      rw (first, again) (refl, refl)
