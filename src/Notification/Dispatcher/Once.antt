-- ===== src/Notification/Dispatcher/Once.antt =====
-- What the table of notifications and the mailbox have in common,
-- services/notification/internal/app/dispatcher.go.
use event_driven_order_fulfi.Common.{
  ℕ, suc, ◌≤◌, ◌≡◌, Bool, true, false, List, [], ◌∷◌, inl, inr, Bool-cases, if◌then◌else◌, ◌==◌,
  ◌&&◌, ◌++◌, All, nat_key, eq_of_==, ==_refl, arith,
}
use event_driven_order_fulfi.Common.Table.{has, has-put, has-put_self}
use event_driven_order_fulfi.Common.Text.{txt, text_key}
use event_driven_order_fulfi.Platform.{Platform, Text, Uuid}
use event_driven_order_fulfi.Notification.Contracts.{type_name}
use event_driven_order_fulfi.Notification.Dispatcher.{Notification, World, insert_if_new}

counts_more : (b : Bool) (c d : ℕ) → c ≤ d → c ≤ (if b then suc d else d)
counts_more false c d h = h
counts_more true c d h = omega (arith, h)

-- How many messages with a key have been sent.
abbrev pub with_key : Text → List Notification → ℕ
with_key k [] = 0
with_key k (n ∷ sent) = let c = with_key k sent in if n.dedupe_key == k then suc c else c

-- How many messages of an event type, by its name, for an order have been sent.
abbrev pub count : Text → Uuid → List Notification → ℕ
count name id [] = 0
count name id (n ∷ sent) =
    let c = count name id sent in
    if (type_name n.event_type == name) && (n.order_id == id) then suc c else c

abbrev pub at_most : Bool → ℕ
at_most false = 0
at_most true = 1

pub at_most_one : (b : Bool) → at_most b ≤ 1
at_most_one false = omega arith
at_most_one true = omega arith

-- A message that was sent is recorded, and was sent once.
pub record IsOnce (w : World) : Type 0 where
  pub bounded : (k : Text) → with_key k w.mailbox ≤ at_most (has k w.notifications)

-- A message that is recorded and has not been sent yet.
pub record Unsent (n : Notification) (w : World) : Type 0 where
  pub none_sent : with_key n.dedupe_key w.mailbox ≡ 0
  pub is_recorded : has n.dedupe_key w.notifications ≡ true

pub insert_if_new-IsOnce :
    (n : Notification) (w : World)
    → IsOnce w
    → IsOnce (insert_if_new n w).1 × ((insert_if_new n w).0 ≡ true → Unsent n (insert_if_new n w).1)
unfolding insert_if_new
insert_if_new-IsOnce n w o = elim (Bool-cases (has n.dedupe_key w.notifications)) [
  | inl h ↦ rw h (o, λ e. cc)
  | inr h ↦
      let free : with_key n.dedupe_key w.mailbox ≤ 0 = rw h at (o.bounded n.dedupe_key) in
      rw h (
        record {
          bounded = λ k. elim (Bool-cases (n.dedupe_key == k)) [
            | inl b ↦ rw (has-put n.dedupe_key k n w.notifications, b) (bounded_by_one k)
            | inr b ↦ rw (has-put n.dedupe_key k n w.notifications, b) (o.bounded k)
          ];
        },
        λ e. record {
          none_sent = omega (arith, free);
          is_recorded = has-put_self n.dedupe_key n w.notifications;
        },
      )
]
  where
    bounded_by_one : (k : Text) → with_key k w.mailbox ≤ 1
    bounded_by_one k =
        let s = at_most_one (has k w.notifications) in let b = o.bounded k in omega (arith, s, b)

pub sent-IsOnce :
    (n : Notification) (w : World)
    → IsOnce w
    → Unsent n w
    → IsOnce (record w { mailbox = n ∷ w.mailbox })
sent-IsOnce n w o u = record {
  bounded = λ k. elim (Bool-cases (n.dedupe_key == k)) [
    | inl b ↦
        let e = eq_of_== n.dedupe_key k b in
        let here : has k w.notifications ≡ true = rw (← e) u.is_recorded in
        let zero_k : with_key k w.mailbox ≡ 0 = rw (← e) u.none_sent in
        rw (b, here, zero_k) (omega arith)
    | inr b ↦ rw b (o.bounded k)
  ];
}

module _ ⦃p : Platform⦄ where
  -- The key of an event type and an order, written out.
  abbrev pub key_of : Text → Uuid → Text
  key_of name id = name ++ txt ":" ++ p.uuid_string id

  abbrev pub IsKeyed : Notification → Type 0
  IsKeyed n = n.dedupe_key ≡ key_of (type_name n.event_type) n.order_id

  pub count-with_key :
      (name : Text) (id : Uuid) (sent : List Notification)
      → All IsKeyed sent
      → count name id sent ≤ with_key (key_of name id) sent
  count-with_key name id [] h = omega arith
  count-with_key name id (n ∷ sent) h =
      let rest = count-with_key name id sent h.1 in
      elim (Bool-cases (type_name n.event_type == name)) [
        | inr a ↦ rw a (counts_more (n.dedupe_key == key_of name id) _ _ rest)
        | inl a ↦ elim (Bool-cases (n.order_id == id)) [
          | inr b ↦ rw (a, b) (counts_more (n.dedupe_key == key_of name id) _ _ rest)
          | inl b ↦
              let same : (n.dedupe_key == key_of name id) ≡ true =
                rw (h.0, eq_of_== (type_name n.event_type) name a, eq_of_== n.order_id id b)
                  (==_refl (key_of name id)) in
              rw (a, b, same) (omega (arith, rest))
        ]
      ]
