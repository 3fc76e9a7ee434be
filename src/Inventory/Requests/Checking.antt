-- ===== src/Inventory/Requests/Checking.antt =====
-- Which commands pass the checks of services/inventory/internal/app/reserve.go.
use event_driven_order_fulfi.Common.{
  ◌≡◌, refl, subst, ◌≢◌, inl, inr, Bool, true, false, Bool-cases, ◌||◌, List, [], ◌∷◌, map, ok, All,
  ltb, >>=-ok,
}
use event_driven_order_fulfi.Common.Int.{pos, leb_ℤ, ltb_ℤ}
use event_driven_order_fulfi.Common.Text.{text_beq, trim_space, byte_len}
use event_driven_order_fulfi.Platform.{Text}
use event_driven_order_fulfi.Inventory.Stock.{new_sku, new_quantity}
use event_driven_order_fulfi.Inventory.Store.{ReserveLine}
use event_driven_order_fulfi.Inventory.Requests.{
  ReserveLineInput, is_seen, check_line, check_lines, checked,
}

-- The SKU is not blank and has at most 64 bytes, and the quantity is from 1 to 100000.
pub record IsValid (l : ReserveLineInput) : Type 0 where
  pub named : text_beq (trim_space l.sku) [] ≡ false
  pub short : ltb 64 (byte_len (trim_space l.sku)) ≡ false
  pub positive : leb_ℤ l.quantity (pos 0) ≡ false
  pub bounded : ltb_ℤ (pos 100000) l.quantity ≡ false

abbrev pub trimmed : ReserveLineInput → ReserveLine
trimmed l = record { sku = trim_space l.sku; quantity = l.quantity }

-- No two lines have one SKU.
abbrev pub IsDistinct : List ReserveLineInput → Type 0
IsDistinct [] = Unit
IsDistinct (l ∷ rest) =
    All (λ m. text_beq (trim_space l.sku) (trim_space m.sku) ≡ false) rest × IsDistinct rest

abbrev Unseen : List Text → ReserveLineInput → Type 0
Unseen seen l = is_seen (trim_space l.sku) seen ≡ false

check_line-valid :
    (l : ReserveLineInput) (seen : List Text)
    → IsValid l
    → Unseen seen l
    → check_line l seen ≡ ok (trimmed l)
unfolding check_line new_sku new_quantity
check_line-valid l seen v u = rw (v.named, v.short, v.positive, v.bounded, u) refl

check_line-ok :
    (l : ReserveLineInput) (seen : List Text) (m : ReserveLine)
    → check_line l seen ≡ ok m
    → IsValid l × (Unseen seen l × (m ≡ trimmed l))
unfolding check_line new_sku new_quantity
check_line-ok l seen m e = elim (Bool-cases (text_beq (trim_space l.sku) [])) [
  | inl a ↦ let x = rw a at e in cc
  | inr a ↦ elim (Bool-cases (ltb 64 (byte_len (trim_space l.sku)))) [
    | inl b ↦ let x = rw (a, b) at e in cc
    | inr b ↦ elim (Bool-cases (leb_ℤ l.quantity (pos 0))) [
      | inl c ↦ let x = rw (a, b, c) at e in cc
      | inr c ↦ elim (Bool-cases (ltb_ℤ (pos 100000) l.quantity)) [
        | inl d ↦ let x = rw (a, b, c, d) at e in cc
        | inr d ↦ elim (Bool-cases (is_seen (trim_space l.sku) seen)) [
          | inl u ↦ let x = rw (a, b, c, d, u) at e in cc
          | inr u ↦
              let x : ok (trimmed l) ≡ ok m = rw (a, b, c, d, u) at e in
              (record { named = a; short = b; positive = c; bounded = d }, (u, cc))
        ]
      ]
    ]
  ]
]

Unseen-below :
    (s : Text) (seen : List Text) (ls : List ReserveLineInput)
    → All (λ m. text_beq s (trim_space m.sku) ≡ false) ls
    → All (Unseen seen) ls
    → All (Unseen (s ∷ seen)) ls
unfolding is_seen
Unseen-below s seen [] d u = tt
Unseen-below s seen (l ∷ rest) d u = (rw (d.0, u.0) refl, Unseen-below s seen rest d.1 u.1)

Unseen-above :
    (s : Text) (seen : List Text) (ls : List ReserveLineInput)
    → All (Unseen (s ∷ seen)) ls
    → All (λ m. text_beq s (trim_space m.sku) ≡ false) ls × All (Unseen seen) ls
unfolding is_seen
Unseen-above s seen [] u = (tt, tt)
Unseen-above s seen (l ∷ rest) u =
    let (d, v) = Unseen-above s seen rest u.1 in
    let (x, y) = both (text_beq s (trim_space l.sku)) (is_seen (trim_space l.sku) seen) u.0 in
    ((x, d), (y, v))
  where
    both : (a b : Bool) → (a || b) ≡ false → (a ≡ false) × (b ≡ false)
    both false b e = (refl, e)
    both true b e = cc

abbrev Passes : List ReserveLineInput → List Text → Type 0
Passes ls seen = All IsValid ls × (All (Unseen seen) ls × IsDistinct ls)

check_lines-valid :
    (ls : List ReserveLineInput) (seen : List Text)
    → Passes ls seen
    → check_lines ls seen ≡ ok (map trimmed ls)
unfolding check_lines
check_lines-valid [] seen h = refl
check_lines-valid (l ∷ rest) seen (v, (u, d)) =
    let t = trim_space l.sku in
    rw
      (
        check_line-valid l seen v.0 u.0,
        check_lines-valid rest (t ∷ seen) (v.1, (Unseen-below t seen rest d.0 u.1, d.1)),
      )
      refl

check_lines-ok :
    (ls : List ReserveLineInput) (seen : List Text) (out : List ReserveLine)
    → check_lines ls seen ≡ ok out
    → Passes ls seen
unfolding check_lines
check_lines-ok [] seen out e = (tt, (tt, tt))
check_lines-ok (l ∷ rest) seen out e =
    let (m, first, e1) = >>=-ok (check_line l seen) _ e in
    let (v, (u, same)) = check_line-ok l seen m first in
    let (ms, others, e2) = >>=-ok (check_lines rest (m.sku ∷ seen)) _ e1 in
    let (vs, (us, d)) = check_lines-ok rest (m.sku ∷ seen) ms others in
    let (apart, unseen) = Unseen-above m.sku seen rest us in
    let apart_l : All (λ x. text_beq (trim_space l.sku) (trim_space x.sku) ≡ false) rest =
      subst (λ (x : ReserveLine). All (λ y. text_beq x.sku (trim_space y.sku) ≡ false) rest) same
        apart in
    ((v, vs), ((u, unseen), (apart_l, d)))

-- At least one line, each valid, no SKU twice.
pub record IsOrderable (ls : List ReserveLineInput) : Type 0 where
  pub nonempty : ls ≢ []
  pub valid : All IsValid ls
  pub distinct : IsDistinct ls

Unseen-of_none : (ls : List ReserveLineInput) → All (Unseen []) ls
unfolding is_seen
Unseen-of_none [] = tt
Unseen-of_none (l ∷ rest) = (refl, Unseen-of_none rest)

pub checked-IsOrderable :
    (ls : List ReserveLineInput) → IsOrderable ls → checked ls ≡ ok (map trimmed ls)
unfolding checked
checked-IsOrderable [] o = absurd (o.nonempty refl)
checked-IsOrderable (l ∷ rest) o =
    check_lines-valid (l ∷ rest) [] (o.valid, (Unseen-of_none (l ∷ rest), o.distinct))

pub IsOrderable-of_checked :
    (ls : List ReserveLineInput) (out : List ReserveLine) → checked ls ≡ ok out → IsOrderable ls
unfolding checked
IsOrderable-of_checked [] out e = cc
IsOrderable-of_checked (l ∷ rest) out e =
    let (v, (u, d)) = check_lines-ok (l ∷ rest) [] out e in
    record { nonempty = λ x. cc; valid = v; distinct = d }
