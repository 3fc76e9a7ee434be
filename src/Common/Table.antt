-- ===== src/Common/Table.antt =====
-- A database table with a unique key, or a Go map, as an association list.
use mathlib.Core.Path.{◌≡◌, refl}
use mathlib.Core.Bool.{Bool, true, false}
use mathlib.Core.Logic.{inl, inr}
use mathlib.Core.Option.{Option, none, some}
use mathlib.Core.List.{List, [], ◌∷◌}
use native.Mathlib.Omega.{arith}
use event_driven_order_fulfi.Common.Tests.{if◌then◌else◌, Key, ◌==◌, ==_refl, Bool-cases}

abbrev pub Table {ℓ κ} : Type ℓ → Type κ → Type (ℓ ⊔ κ)
Table K V = List (K × V)

module _ {ℓ κ} {K : Type ℓ} {V : Type κ} ⦃e : Key K⦄ where
  unfoldable pub lookup : K → Table K V → Option V
  lookup k [] = none
  lookup k ((j, v) ∷ t) = if j == k then some v else lookup k t

  -- Whether a row has the key.
  unfoldable pub has : K → Table K V → Bool
  unfolding lookup
  has k t = elim (lookup k t) [ none ↦ false | some _ ↦ true ]

  -- Replace the row of the key, or add one.
  unfoldable pub put : K → V → Table K V → Table K V
  put k v [] = (k, v) ∷ []
  put k v ((j, w) ∷ t) = if j == k then (k, v) ∷ t else (j, w) ∷ put k v t

  pub lookup-put :
      (k j : K) (v : V) (t : Table K V)
      → lookup j (put k v t) ≡ (if k == j then some v else lookup j t)
  unfolding lookup put
  lookup-put k j v [] = refl
  lookup-put k j v ((i, w) ∷ t) =
      ground (arith, e.same_iff k j, e.same_iff i k, e.same_iff i j, lookup-put k j v t)

  pub lookup-put_self : (k : K) (v : V) (t : Table K V) → lookup k (put k v t) ≡ some v
  lookup-put_self k v t = ground (arith, lookup-put k k v t, e.same_iff k k)

  pub lookup-put_ne :
      (k j : K) (v : V) (t : Table K V) → (k == j) ≡ false → lookup j (put k v t) ≡ lookup j t
  lookup-put_ne k j v t h = ground (arith, lookup-put k j v t)

  pub lookup_of_has : (k : K) (t : Table K V) → has k t ≡ false → lookup k t ≡ none
  unfolding has
  lookup_of_has k t h = from (lookup k t) h
    where
      from : (o : Option V) → elim o [ none ↦ false | some _ ↦ true ] ≡ false → o ≡ none
      from none e = refl
      from (some v) e = cc

  pub has-put :
      (k j : K) (v : V) (t : Table K V) → has j (put k v t) ≡ (if k == j then true else has j t)
  unfolding has
  has-put k j v t = elim (Bool-cases (k == j)) [
    | inl b ↦
        let e : lookup j (put k v t) ≡ some v = rw (lookup-put k j v t, b) refl in
        rw (e, b, has) refl
    | inr b ↦
        let e : lookup j (put k v t) ≡ lookup j t = rw (lookup-put k j v t, b) refl in
        rw (e, b, has) refl
  ]

  pub has-put_self : (k : K) (v : V) (t : Table K V) → has k (put k v t) ≡ true
  has-put_self k v t = rw (has-put k k v t, ==_refl k) refl
