-- ===== src/Order/Relay/Draining.antt =====
-- The relay empties the outbox where everything answers,
-- services/order/internal/infra/postgres/relay_store.go and services/order/internal/worker/relay/relay.go.
use event_driven_order_fulfi.Common.{
  ℕ, zero, suc, ◌≤◌, ◌<◌, ◌≡◌, ◌≢◌, refl, ◌∙◌, ap, subst, Bool, true, false, ◌⊎◌, inl, inr, List,
  [], ◌∷◌, take, length, In, nat_beq_iff, ltb, Bool-cases, ◌||◌, arith,
}
use event_driven_order_fulfi.Common.Session.{
  Session, quiet, arrive, begin, read, write, emit, commit, rolled_back,
}
use event_driven_order_fulfi.Order.Store.{OutboxRow}
use event_driven_order_fulfi.Order.Relay.{
  RelayWorld, contains, available, insert_by_id, by_id, batch, mark, mark_published, ids_of, send,
  publish, settle, drain_batch, cycles,
}
use event_driven_order_fulfi.Order.Relay.Marking.{
  IsSound, Ahead, protocol, In-batch, send-Steps, mark-Steps, AllStored, In-available, In-by_id,
  In-take,
}

abbrev waiting : RelayWorld → List OutboxRow
waiting w = available w.locked w.outbox

mark-length_le :
    (locked ids : List ℕ) (rows : List OutboxRow)
    → length (available locked (mark ids rows)) ≤ length (available locked rows)
unfolding available mark
mark-length_le locked ids [] = omega arith
mark-length_le locked ids (x ∷ rows) =
    let h = mark-length_le locked ids rows in
    elim (Bool-cases (contains x.id ids)) [
      | inl b ↦ elim (Bool-cases (x.published || contains x.id locked)) [
        | inl c ↦ rw (b, c) h
        | inr c ↦ rw (b, c) (omega (arith, h))
      ]
      | inr b ↦ elim (Bool-cases (x.published || contains x.id locked)) [
        | inl c ↦ rw (b, c) h
        | inr c ↦ rw (b, c) (omega (arith, h))
      ]
    ]

mark-length_lt :
    (locked ids : List ℕ) (rows : List OutboxRow) (r : OutboxRow)
    → In r (available locked rows)
    → contains r.id ids ≡ true
    → length (available locked (mark ids rows)) < length (available locked rows)
unfolding available mark
mark-length_lt locked ids [] r h e = absurd h
mark-length_lt locked ids (x ∷ rows) r h e =
    elim (Bool-cases (x.published || contains x.id locked)) [
      | inl c ↦
          let h' = rw c at h in
          let rest = mark-length_lt locked ids rows r h' e in
          elim (Bool-cases (contains x.id ids)) [ inl b ↦ rw (b, c) rest | inr b ↦ rw (b, c) rest ]
      | inr c ↦
          let h' : In r (x ∷ available locked rows) = rw c at h in
          let le = mark-length_le locked ids rows in
          elim (Bool-cases (contains x.id ids)) [
            | inl b ↦ rw (b, c) (omega (arith, le))
            | inr b ↦ elim h' [
              | inl same ↦ let now : contains x.id ids ≡ true = rw (ap (λ y. y.id) same) at e in cc
              | inr k ↦
                  let rest = mark-length_lt locked ids rows r k e in rw (b, c) (omega (arith, rest))
            ]
          ]
    ]

insert_by_id-nonempty : (r : OutboxRow) (rows : List OutboxRow) → insert_by_id r rows ≢ []
unfolding insert_by_id
insert_by_id-nonempty r [] h = cc
insert_by_id-nonempty r (s ∷ rows) h = elim (Bool-cases (ltb s.id r.id)) [
  | inl b ↦ let h' = rw b at h in cc
  | inr b ↦ let h' = rw b at h in cc
]

take-nonempty : (m : ℕ) (rows : List OutboxRow) → take (suc m) rows ≡ [] → rows ≡ []
take-nonempty m [] h = refl
take-nonempty m (x ∷ rows) h = cc

by_id-empty : (rows : List OutboxRow) → by_id rows ≡ [] → rows ≡ []
unfolding by_id
by_id-empty [] h = refl
by_id-empty (x ∷ rows) h = absurd (insert_by_id-nonempty x (by_id rows) h)

In-batch-waiting : (n : ℕ) (w : RelayWorld) (r : OutboxRow) → In r (batch n w) → In r (waiting w)
unfolding batch
In-batch-waiting n w r h = In-by_id (waiting w) r (In-take n (by_id (waiting w)) r h)

contains_first : (i : ℕ) (ids : List ℕ) → contains i (i ∷ ids) ≡ true
unfolding contains
contains_first i ids = rw ((nat_beq_iff i i).1 refl) refl

batch-take : (m : ℕ) (w : RelayWorld) → take (suc m) (by_id (waiting w)) ≡ batch (suc m) w
unfolding batch
batch-take m w = refl

abbrev settled : List OutboxRow → RelayWorld → RelayWorld
settled rows w = (mark_published (ids_of rows) (send rows w)).1

-- A cycle where everything answers and nobody else writes: what is left, and that it is less.
record Cycle (n : ℕ) (w : RelayWorld) : Type 0 where
  pub end : RelayWorld
  pub runs : (drain_batch n (quiet w)).1 ≡ quiet end
  pub sound : IsSound end
  pub ahead : Ahead w end
  pub locks : end.locked ≡ w.locked
  pub fewer : (waiting end ≡ []) ⊎ (length (waiting end) < length (waiting w))

batch-Cycle :
    (m : ℕ) (w : RelayWorld) (rows : List OutboxRow)
    → batch (suc m) w ≡ rows
    → IsSound w
    → Cycle (suc m) w
unfolding drain_batch settle publish rolled_back begin read write emit commit arrive
batch-Cycle m w [] e s = record {
  end = w;
  runs = rw e refl;
  sound = s;
  ahead = protocol.Ahead-refl w;
  locks = refl;
  fewer = inl (by_id-empty (waiting w) (take-nonempty m (by_id (waiting w)) (batch-take m w ∙ e)));
}
batch-Cycle m w (r ∷ rest) e s =
    let rows = r ∷ rest in
    let in_batch : In r (batch (suc m) w) = rw e (inl refl) in
    let (s1, a1, sent_now) = send-Steps rows w s in
    let stored : AllStored rows (send rows w) =
      λ x i. (x, In-batch (suc m) w x (rw e i), refl, refl) in
    let (s2, a2) = mark-Steps rows (send rows w) s1 stored sent_now in
    record {
      end = settled rows w;
      runs = rw e refl;
      sound = s2;
      ahead = protocol.Ahead-trans a1 a2;
      locks = refl;
      fewer = inr (
          mark-length_lt w.locked (ids_of rows) w.outbox r (In-batch-waiting (suc m) w r in_batch)
            (contains_first r.id (ids_of rest)));
    }

record Drained (w : RelayWorld) (s : Session RelayWorld) : Type 0 where
  pub end : RelayWorld
  pub at : s ≡ quiet end
  pub sound : IsSound end
  pub ahead : Ahead w end
  pub locks : end.locked ≡ w.locked
  pub empty : waiting end ≡ []

nonempty_length : (rows : List OutboxRow) → length rows ≤ 0 → rows ≡ []
nonempty_length [] h = refl
nonempty_length (x ∷ rows) h = absurd (omega (arith, h))

shorter :
    (k : ℕ) (w : RelayWorld) (rows : List OutboxRow)
    → length (waiting w) ≤ suc k
    → (rows ≡ []) ⊎ (length rows < length (waiting w))
    → length rows ≤ k
shorter k w rows h (inl e) = rw e (omega arith)
shorter k w rows h (inr l) = omega (arith, h, l)

cycles-Drained :
    (k m : ℕ) (w : RelayWorld)
    → IsSound w
    → length (waiting w) ≤ k
    → Drained w (cycles k (suc m) (quiet w))
cycles-Drained zero m w s h = record {
  end = w;
  at = refl;
  sound = s;
  ahead = protocol.Ahead-refl w;
  locks = refl;
  empty = nonempty_length (waiting w) h;
}
cycles-Drained (suc k) m w s h =
    let c = batch-Cycle m w (batch (suc m) w) refl s in
    let it = cycles-Drained k m c.end c.sound (shorter k w (waiting c.end) h c.fewer) in
    rw c.runs (record {
      end = it.end;
      at = it.at;
      sound = it.sound;
      ahead = protocol.Ahead-trans c.ahead it.ahead;
      locks = it.locks ∙ c.locks;
      empty = it.empty;
    })

-- A row that does not wait is published, or another relay holds it.
waiting_or_done :
    (locked : List ℕ) (rows : List OutboxRow) (r : OutboxRow)
    → available locked rows ≡ []
    → In r rows
    → (r.published || contains r.id locked) ≡ true
unfolding available
waiting_or_done locked [] r e h = absurd h
waiting_or_done locked (x ∷ rows) r e h = elim (Bool-cases (x.published || contains x.id locked)) [
  | inl c ↦ elim h [
    | inl same ↦ rw same c
    | inr k ↦ let e' = rw c at e in waiting_or_done locked rows r e' k
  ]
  | inr c ↦ let e' = rw c at e in cc
]

second_false : (b c : Bool) → (b || c) ≡ false → c ≡ false
second_false true c h = cc
second_false false c h = h

unlocked :
    (locked : List ℕ) (rows : List OutboxRow) (r : OutboxRow)
    → In r (available locked rows)
    → contains r.id locked ≡ false
unfolding available
unlocked locked [] r h = absurd h
unlocked locked (x ∷ rows) r h = elim (Bool-cases (x.published || contains x.id locked)) [
  | inl c ↦ let h' = rw c at h in unlocked locked rows r h'
  | inr c ↦
      let h' : In r (x ∷ available locked rows) = rw c at h in
      elim h' [
        | inl same ↦ rw (ap (λ y. y.id) same) (second_false x.published _ c)
        | inr k ↦ unlocked locked rows r k
      ]
]

published_of_or : (b c : Bool) → (b || c) ≡ true → c ≡ false → b ≡ true
published_of_or true c h e = refl
published_of_or false c h e = cc

-- Where everything answers and nobody else writes, on an outbox whose ids belong to one message each
-- and that marks only what is on the topic: with a batch size of at least one, as many cycles as rows
-- wait, or more, leave no row waiting, and the message of every row that waited is on the topic.
pub relay_drains :
    (k m : ℕ) (w : RelayWorld)
    → IsSound w
    → length (available w.locked w.outbox) ≤ k
    → let end = (cycles k (suc m) (quiet w)).committed in
      (available end.locked end.outbox ≡ [])
      × ((r : OutboxRow) → In r (available w.locked w.outbox) → In r.message end.topic)
relay_drains k m w s h =
    let it = cycles-Drained k m w s h in
    rw it.at (
      it.empty,
      λ r i.
          let (x, here, same_id, same_message) =
            it.ahead.rows r (r, In-available w.locked w.outbox r i, refl, refl) in
          let free : contains x.id it.end.locked ≡ false =
            rw (it.locks, same_id) (unlocked w.locked w.outbox r i) in
          let done = waiting_or_done it.end.locked it.end.outbox x it.empty here in
          subst (λ t. In t it.end.topic) same_message
            (it.sound.marked x here (published_of_or x.published _ done free)),
    )
