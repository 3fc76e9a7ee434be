-- ===== src/Order/Relay/Marking.antt =====
-- Nothing is marked as published that is not on the topic,
-- services/order/internal/infra/postgres/relay_store.go.
use event_driven_order_fulfi.Common.{
  ℕ, zero, suc, ◌≡◌, refl, sym, ◌∙◌, ap, subst, true, ◌⊎◌, inl, inr, List, [], ◌∷◌, take, length,
  In, nat_beq, nat_beq_iff, ltb, Bool-cases, ◌||◌,
}
use event_driven_order_fulfi.Common.Session.{Session}
use event_driven_order_fulfi.Common.Session.Protocol.{Protocol}
use event_driven_order_fulfi.Common.Session.Transaction.{
  IsOpen, Keeps, Part, Part-bind, Part-read, Part-write, Part-emit, Part-commit, Part-pure,
  Keeps-transaction,
}
use event_driven_order_fulfi.Order.Values.{storage}
use event_driven_order_fulfi.Order.Store.{OutboxMessage, OutboxRow}
use event_driven_order_fulfi.Order.Relay.{
  RelayWorld, contains, available, insert_by_id, by_id, batch, mark, mark_published, ids_of, sent,
  send, publish, settle, drain_batch, cycles,
}

abbrev Sent : OutboxMessage → RelayWorld → Type 0
Sent m w = In m w.topic

-- What is marked has been sent, and an id belongs to one message.
pub record IsSound (w : RelayWorld) : Type 0 where
  pub marked : (r : OutboxRow) → In r w.outbox → r.published ≡ true → In r.message w.topic
  pub single :
      (r r' : OutboxRow) → In r w.outbox → In r' w.outbox → r.id ≡ r'.id → r.message ≡ r'.message

-- A row of the outbox, whether or not it is marked.
abbrev pub Stored : OutboxRow → RelayWorld → Type 0
Stored r w = (r' : OutboxRow) × In r' w.outbox × (r'.id ≡ r.id) × (r'.message ≡ r.message)

pub record Ahead (w w' : RelayWorld) : Type 0 where
  pub rows : (r : OutboxRow) → Stored r w → Stored r w'
  pub kept : (m : OutboxMessage) → In m w.topic → In m w'.topic

-- Rows stay in the outbox with their messages, and the topic only grows.
abbrev pub protocol : Protocol RelayWorld
protocol = record {
  Holds = IsSound;
  Ahead = Ahead;
  Ahead-refl = λ w. record { rows = λ r h. h; kept = λ m h. h };
  Ahead-trans =
      λ h k. record { rows = λ r x. k.rows r (h.rows r x); kept = λ m x. k.kept m (h.kept m x) };
}

In-sent_topic :
    (rows : List OutboxRow) (topic : List OutboxMessage) (m : OutboxMessage)
    → In m topic
    → In m (sent rows topic)
unfolding sent
In-sent_topic [] topic m h = h
In-sent_topic (r ∷ rows) topic m h = In-sent_topic rows (r.message ∷ topic) m (inr h)

In-sent :
    (rows : List OutboxRow) (topic : List OutboxMessage) (r : OutboxRow)
    → In r rows
    → In r.message (sent rows topic)
unfolding sent
In-sent [] topic r h = absurd h
In-sent (x ∷ rows) topic r (inl e) =
    In-sent_topic rows (x.message ∷ topic) r.message (inl (ap (λ y. y.message) e))
In-sent (x ∷ rows) topic r (inr h) = In-sent rows (x.message ∷ topic) r h

-- A row behind the UPDATE, and the row that it was.
In-mark :
    (ids : List ℕ) (rows : List OutboxRow) (r : OutboxRow)
    → In r (mark ids rows)
    → (x : OutboxRow) × In x rows
      × (r.id ≡ x.id)
      × (r.message ≡ x.message)
      × ((contains x.id ids ≡ true) ⊎ (r ≡ x))
unfolding mark
In-mark ids [] r h = absurd h
In-mark ids (x ∷ rows) r (inr h) = let (y, i, a, b, c) = In-mark ids rows r h in (y, inr i, a, b, c)
In-mark ids (x ∷ rows) r (inl e) = elim (Bool-cases (contains x.id ids)) [
  | inl b ↦
      let e' : r ≡ record x { published = true } = rw b at e in
      (x, inl refl, ap (λ y. y.id) e', ap (λ y. y.message) e', inl b)
  | inr b ↦
      let e' : r ≡ x = rw b at e in (x, inl refl, ap (λ y. y.id) e', ap (λ y. y.message) e', inr e')
]

Stored-mark :
    (ids : List ℕ) (rows : List OutboxRow) (r : OutboxRow)
    → In r rows
    → (x : OutboxRow) × In x (mark ids rows) × (x.id ≡ r.id) × (x.message ≡ r.message)
unfolding mark
Stored-mark ids [] r h = absurd h
Stored-mark ids (x ∷ rows) r (inr h) =
    let (y, i, a, b) = Stored-mark ids rows r h in (y, inr i, a, b)
Stored-mark ids (x ∷ rows) r (inl e) = elim (Bool-cases (contains x.id ids)) [
  | inl b ↦
      rw b (
        record x { published = true },
        inl refl,
        ap (λ y. y.id) (sym e),
        ap (λ y. y.message) (sym e),
      )
  | inr b ↦ rw b (x, inl refl, ap (λ y. y.id) (sym e), ap (λ y. y.message) (sym e))
]

contains-ids_of :
    (i : ℕ) (rows : List OutboxRow)
    → contains i (ids_of rows) ≡ true
    → (r : OutboxRow) × In r rows × (r.id ≡ i)
unfolding contains
contains-ids_of i [] h = cc
contains-ids_of i (r ∷ rows) h = elim (Bool-cases (nat_beq i r.id)) [
  | inl b ↦ (r, inl refl, sym ((nat_beq_iff i r.id).0 b))
  | inr b ↦ let h' = rw b at h in let (x, m, e) = contains-ids_of i rows h' in (x, inr m, e)
]

pub In-available :
    (locked : List ℕ) (rows : List OutboxRow) (r : OutboxRow)
    → In r (available locked rows)
    → In r rows
unfolding available
In-available locked [] r h = h
In-available locked (x ∷ rows) r h = elim (Bool-cases (x.published || contains x.id locked)) [
  | inl b ↦ inr (In-available locked rows r (rw b at h))
  | inr b ↦
      let h' : In r (x ∷ available locked rows) = rw b at h in
      elim h' [ inl e ↦ inl e | inr k ↦ inr (In-available locked rows r k) ]
]

In-insert_by_id :
    (x : OutboxRow) (rows : List OutboxRow) (r : OutboxRow)
    → In r (insert_by_id x rows)
    → In r (x ∷ rows)
unfolding insert_by_id
In-insert_by_id x [] r h = h
In-insert_by_id x (s ∷ rows) r h = elim (Bool-cases (ltb s.id x.id)) [
  | inl b ↦
      let h' : In r (s ∷ insert_by_id x rows) = rw b at h in
      elim h' [
        | inl e ↦ inr (inl e)
        | inr k ↦ elim (In-insert_by_id x rows r k) [ inl e ↦ inl e | inr m ↦ inr (inr m) ]
      ]
  | inr b ↦ let h' : In r (x ∷ s ∷ rows) = rw b at h in h'
]

pub In-by_id : (rows : List OutboxRow) (r : OutboxRow) → In r (by_id rows) → In r rows
unfolding by_id
In-by_id [] r h = h
In-by_id (x ∷ rows) r h = elim (In-insert_by_id x (by_id rows) r h) [
  | inl e ↦ inl e
  | inr k ↦ inr (In-by_id rows r k)
]

pub In-take : (n : ℕ) (rows : List OutboxRow) (r : OutboxRow) → In r (take n rows) → In r rows
In-take zero rows r h = absurd h
In-take (suc n) [] r h = h
In-take (suc n) (x ∷ rows) r (inl e) = inl e
In-take (suc n) (x ∷ rows) r (inr h) = inr (In-take n rows r h)

pub In-batch : (n : ℕ) (w : RelayWorld) (r : OutboxRow) → In r (batch n w) → In r w.outbox
unfolding batch
In-batch n w r h =
    In-available w.locked w.outbox r (
      In-by_id (available w.locked w.outbox) r
        (In-take n (by_id (available w.locked w.outbox)) r h))

-- The rows of a batch are in the outbox.
abbrev pub AllStored : List OutboxRow → RelayWorld → Type 0
AllStored rows w = (r : OutboxRow) → In r rows → Stored r w

abbrev pub AllSent : List OutboxRow → RelayWorld → Type 0
AllSent rows w = (r : OutboxRow) → In r rows → In r.message w.topic

pub send-Steps :
    (rows : List OutboxRow) (w : RelayWorld)
    → IsSound w
    → IsSound (send rows w) × Ahead w (send rows w) × AllSent rows (send rows w)
send-Steps rows w s = (
  record {
    marked = λ r h p. In-sent_topic rows w.topic r.message (s.marked r h p);
    single = s.single;
  },
  record { rows = λ r h. h; kept = λ m h. In-sent_topic rows w.topic m h },
  λ r h. In-sent rows w.topic r h,
)

pub mark-Steps :
    (rows : List OutboxRow) (w : RelayWorld)
    → IsSound w
    → AllStored rows w
    → AllSent rows w
    → IsSound (mark_published (ids_of rows) w).1 × Ahead w (mark_published (ids_of rows) w).1
mark-Steps rows w s stored sent_before = (
  record {
    marked = λ r h p.
        let (x, here, i, m, why) = In-mark (ids_of rows) w.outbox r h in
        elim why [
          | inl c ↦
              let (y, in_batch, same) = contains-ids_of x.id rows c in
              let (z, there, i', m') = stored y in_batch in
              let one : z.message ≡ x.message = s.single z x there here (i' ∙ same) in
              subst (λ t. In t w.topic) (sym m' ∙ one ∙ sym m) (sent_before y in_batch)
          | inr same ↦
              subst (λ t. In t w.topic) (sym m)
                (s.marked x here (ap (λ y. y.published) (sym same) ∙ p))
        ];
    single = λ r r' h h' e.
        let (x, here, i, m, why) = In-mark (ids_of rows) w.outbox r h in
        let (x', here', i', m', why') = In-mark (ids_of rows) w.outbox r' h' in
        m ∙ s.single x x' here here' (sym i ∙ e ∙ i') ∙ sym m';
  },
  record {
    rows = λ r (x, here, i, m).
        let (y, there, i', m') = Stored-mark (ids_of rows) w.outbox x here in
        (y, there, i' ∙ i, m' ∙ m);
    kept = λ m h. h;
  },
)

settle-Part :
    (past : RelayWorld) (rows : List OutboxRow)
    → AllStored rows past
    → Part protocol past (settle rows) (λ _ _. Unit {0})
unfolding settle publish
settle-Part past [] h =
    Part-bind protocol past (λ _ _. Unit {0}) _ _ _
      (Part-commit protocol past _ storage (λ d k. tt))
      (λ _ d k _. Part-pure protocol d _ 0 (λ d' k'. tt))
settle-Part past (r ∷ rest) h =
    let rows = r ∷ rest in
    Part-bind protocol past (λ _ w. AllSent rows w) _ _ _
      (Part-emit protocol past _ storage (send rows) (λ w s. send-Steps rows w s))
      (λ _ w a sent_now.
        Part-bind protocol w (λ _ _. Unit {0}) _ _ _
          (Part-write protocol w _ storage _ (λ d s k.
            let (v, l) =
              mark-Steps rows d s (λ x i. k.rows x (a.rows x (h x i)))
                (λ x i. k.kept x.message (sent_now x i)) in
            (v, l, tt)))
          (λ _ d k _.
            Part-bind protocol d (λ _ _. Unit {0}) _ _ _
              (Part-commit protocol d _ storage (λ d' k'. tt))
              (λ _ d' k' _. Part-pure protocol d' _ (length rows) (λ d2 k2. tt))))

drain_batch-Keeps : (n : ℕ) → Keeps protocol (drain_batch n)
unfolding drain_batch
drain_batch-Keeps n =
    Keeps-transaction protocol storage _ (λ _ _. Unit {0})
      (λ past.
        Part-bind protocol past (λ rows w. AllStored rows w) _ _ _
          (Part-read protocol past _ storage (batch n)
            (λ w s a r h. (r, In-batch n w r h, refl, refl)))
          (λ rows w a h. settle-Part w rows h))

-- Beside sessions that keep the rows of the outbox with their messages, mark no message that is not
-- on the topic and take nothing from the topic: however many cycles the relay makes, with batches of
-- any size, and whatever statements, publications and commits fail, every outbox row that is marked
-- as published has its message on the topic.
pub marked_is_published :
    (k n : ℕ) (s : Session RelayWorld)
    → IsOpen protocol s
    → (r : OutboxRow) → In r (cycles k n s).committed.outbox
    → r.published ≡ true
    → In r.message (cycles k n s).committed.topic
marked_is_published zero n s o r h p = o.valid.marked r h p
marked_is_published (suc k) n s o r h p =
    marked_is_published k n (drain_batch n s).1 ((drain_batch-Keeps n).run s o) r h p
