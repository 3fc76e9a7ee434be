-- ===== src/Inventory/Stock/Ledger.antt =====
-- What the operations on one SKU's ledger entry keep:
-- services/inventory/internal/domain/inventory/stock_item.go.
use event_driven_order_fulfi.Common.{
  ℕ, ◌+◌, ◌-◌, ◌≤◌, ◌<◌, ◌≡◌, refl, sym, subst, ap, ◌∙◌, List, [], ◌∷◌, Outcome, ok, ◌>>=◌, arith,
  >>=-ok,
}
use event_driven_order_fulfi.Common.Int.{
  ℤ, pos, negsuc, add64_small, sub64_small, int64_bound, pos_part,
}
use event_driven_order_fulfi.Inventory.Stock.{Error, StockItem, reserve, release, commit}

-- Neither count is negative, and together they fit an `int64`.
pub record IsSound (s : StockItem) : Type 0 where
  pub a : ℕ
  pub r : ℕ
  pub available_eq : s.available ≡ pos a
  pub reserved_eq : s.reserved ≡ pos r
  pub fits : a + r < int64_bound

-- The units of an entry, sellable and held.
abbrev pub units : StockItem → ℕ
units s = pos_part s.available + pos_part s.reserved

abbrev entry : StockItem → ℕ → ℕ → StockItem
entry s a r = record s { available = pos a; reserved = pos r }

-- `reserve` by a natural number on an entry with natural counts.
reserve_pos :
    (s : StockItem) (a r n : ℕ)
    → a + r < int64_bound
    → 0 < n
    → n ≤ a
    → reserve (pos n) (entry s a r) ≡ ok (entry s (a - n) (r + n))
unfolding reserve
reserve_pos s a r n h k l =
    rw (sub64_small a n l (omega (arith, h)), add64_small r n (omega (arith, h, l)))
      (ground (arith, k, l))

as_entry : (s : StockItem) (w : IsSound s) → s ≡ entry s w.a w.r
as_entry s w = rw (← w.available_eq, ← w.reserved_eq) refl

reserve-ok :
    (s : StockItem) (a r : ℕ) (qty : ℤ) {s' : StockItem}
    → reserve qty (entry s a r) ≡ ok s'
    → (n : ℕ) × (qty ≡ pos n) × (0 < n) × (n ≤ a)
unfolding reserve
reserve-ok s a r (pos n) e = (n, refl, ground arith, ground arith)
reserve-ok s a r (negsuc n) e = absurd (ground arith)

release_pos :
    (s : StockItem) (a r n : ℕ)
    → a + r < int64_bound
    → 0 < n
    → n ≤ r
    → release (pos n) (entry s a r) ≡ ok (entry s (a + n) (r - n))
unfolding release
release_pos s a r n h k l =
    rw (sub64_small r n l (omega (arith, h)), add64_small a n (omega (arith, h, l)))
      (ground (arith, k, l))

release-ok :
    (s : StockItem) (a r : ℕ) (qty : ℤ) {s' : StockItem}
    → release qty (entry s a r) ≡ ok s'
    → (n : ℕ) × (qty ≡ pos n) × (0 < n) × (n ≤ r)
unfolding release
release-ok s a r (pos n) e = (n, refl, ground arith, ground arith)
release-ok s a r (negsuc n) e = absurd (ground arith)

commit_pos :
    (s : StockItem) (a r n : ℕ)
    → a + r < int64_bound
    → 0 < n
    → n ≤ r
    → commit (pos n) (entry s a r) ≡ ok (entry s a (r - n))
unfolding commit
commit_pos s a r n h k l = rw (sub64_small r n l (omega (arith, h))) (ground (arith, k, l))

commit-ok :
    (s : StockItem) (a r : ℕ) (qty : ℤ) {s' : StockItem}
    → commit qty (entry s a r) ≡ ok s'
    → (n : ℕ) × (qty ≡ pos n) × (0 < n) × (n ≤ r)
unfolding commit
commit-ok s a r (pos n) e = (n, refl, ground arith, ground arith)
commit-ok s a r (negsuc n) e = absurd (ground arith)

-- Where the counts of an entry are not negative and fit an `int64` together, releasing what was
-- just reserved gives the entry back as it was.
pub release-reserve :
    (s s' : StockItem) (qty : ℤ) → IsSound s → reserve qty s ≡ ok s' → release qty s' ≡ ok s
release-reserve s s' qty w e =
    let at : reserve qty (entry s w.a w.r) ≡ ok s' = rw (← as_entry s w) e in
    let (n, q, some_units, enough) = reserve-ok s w.a w.r qty at in
    let it = reserve_pos s w.a w.r n w.fits some_units enough in
    let same : s' ≡ entry s (w.a - n) (w.r + n) = cc (at, it, q) in
    let back =
      release_pos s (w.a - n) (w.r + n) n (omega (arith, w.fits, enough)) some_units
        (omega arith) in
    let left : w.a - n + n ≡ w.a = omega (arith, enough) in
    let right : w.r + n - n ≡ w.r = omega arith in
    rw (same, q) (back ∙ rw (left, right) (ap ok (sym (as_entry s w))))

pub data Operation : Type 0 where
  reserving releasing committing : ℤ → Operation

abbrev pub perform : Operation → StockItem → Outcome Error StockItem
perform (reserving q) s = reserve q s
perform (releasing q) s = release q s
perform (committing q) s = commit q s

abbrev pub perform_all : List Operation → StockItem → Outcome Error StockItem
perform_all [] s = ok s
perform_all (o ∷ rest) s = perform o s >>= perform_all rest

-- The units that the commits take out.
abbrev pub shipped : List Operation → ℕ
shipped [] = 0
shipped (reserving q ∷ rest) = shipped rest
shipped (releasing q ∷ rest) = shipped rest
shipped (committing q ∷ rest) = pos_part q + shipped rest

entry-IsSound : (s : StockItem) (a r : ℕ) → a + r < int64_bound → IsSound (entry s a r)
entry-IsSound s a r h = record { a = a; r = r; available_eq = refl; reserved_eq = refl; fits = h }

abbrev Keeps : StockItem → ℕ → StockItem → Type 0
Keeps s out s' = IsSound s' × (units s' + out ≡ units s)

Keeps-entry :
    (s s' : StockItem) (b t a r out : ℕ)
    → s' ≡ entry s b t
    → b + t < int64_bound
    → b + t + out ≡ a + r
    → Keeps (entry s a r) out s'
Keeps-entry s s' b t a r out e h k = rw e (entry-IsSound s b t h, k)

perform-entry :
    (o : Operation) (s s' : StockItem) (a r : ℕ)
    → a + r < int64_bound
    → perform o (entry s a r) ≡ ok s'
    → Keeps (entry s a r) (shipped (o ∷ [])) s'
perform-entry (reserving qty) s s' a r h e =
    let (n, q, some_units, enough) = reserve-ok s a r qty e in
    let same : s' ≡ entry s (a - n) (r + n) = cc (e, reserve_pos s a r n h some_units enough, q) in
    Keeps-entry s s' (a - n) (r + n) a r _ same (omega (arith, h, enough))
      (omega (arith, enough, ap pos_part q))
perform-entry (releasing qty) s s' a r h e =
    let (n, q, some_units, enough) = release-ok s a r qty e in
    let same : s' ≡ entry s (a + n) (r - n) = cc (e, release_pos s a r n h some_units enough, q) in
    Keeps-entry s s' (a + n) (r - n) a r _ same (omega (arith, h, enough))
      (omega (arith, enough, ap pos_part q))
perform-entry (committing qty) s s' a r h e =
    let (n, q, some_units, enough) = commit-ok s a r qty e in
    let same : s' ≡ entry s a (r - n) = cc (e, commit_pos s a r n h some_units enough, q) in
    Keeps-entry s s' a (r - n) a r _ same (omega (arith, h, enough))
      (omega (arith, enough, ap pos_part q))

perform-Keeps :
    (o : Operation) (s s' : StockItem)
    → IsSound s
    → perform o s ≡ ok s'
    → Keeps s (shipped (o ∷ [])) s'
perform-Keeps o s s' w =
    subst (λ x. perform o x ≡ ok s' → Keeps x (shipped (o ∷ [])) s') (sym (as_entry s w))
      (perform-entry o s s' w.a w.r w.fits)

shipped_sum :
    (o : Operation) (os : List Operation) (last middle first : ℕ)
    → middle + shipped (o ∷ []) ≡ first
    → last + shipped os ≡ middle
    → last + shipped (o ∷ os) ≡ first
shipped_sum (reserving q) os last middle first h k = omega (arith, h, k)
shipped_sum (releasing q) os last middle first h k = omega (arith, h, k)
shipped_sum (committing q) os last middle first h k = omega (arith, h, k)

-- Any operations that succeed in a row on an entry whose counts are not negative and fit an
-- `int64` together keep it so, and lose no unit: what is sellable, what is held and what the
-- commits took out add up to what there was.
pub perform_all-Keeps :
    (os : List Operation) (s s' : StockItem)
    → IsSound s
    → perform_all os s ≡ ok s'
    → IsSound s' × (units s' + shipped os ≡ units s)
perform_all-Keeps [] s s' w e = let same : s ≡ s' = cc in rw (← same) (w, omega arith)
perform_all-Keeps (o ∷ os) s s' w e =
    let (m, first, then_all) = >>=-ok (perform o s) (perform_all os) e in
    let (v, one) = perform-Keeps o s m w first in
    let (u, more) = perform_all-Keeps os m s' v then_all in
    (u, shipped_sum o os (units s') (units m) (units s) one more)
