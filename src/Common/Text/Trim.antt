-- ===== src/Common/Text/Trim.antt =====
-- `strings.TrimSpace`, with the spaces of Unicode's White_Space property.
use Prim.Native.Nat.{ℕ}
use mathlib.Core.Path.{◌≡◌, refl, ap, ◌∙◌}
use mathlib.Core.Bool.{Bool, false, ◌&&◌, ◌||◌}
use mathlib.Core.List.{List, [], ◌∷◌, map}
use mathlib.Core.Logic.{inl, inr}
use native.Mathlib.Omega.{arith}
use event_driven_order_fulfi.Common.Tests.{leb, nat_beq, if◌then◌else◌, Bool-cases}

-- `unicode.IsSpace`
unfoldable pub is_space : ℕ → Bool
is_space c =
    (leb 0x9 c && leb c 0xd)
    || nat_beq c 0x20
    || nat_beq c 0x85
    || nat_beq c 0xa0
    || nat_beq c 0x1680
    || (leb 0x2000 c && leb c 0x200a)
    || nat_beq c 0x2028
    || nat_beq c 0x2029
    || nat_beq c 0x202f
    || nat_beq c 0x205f
    || nat_beq c 0x3000

unfoldable pub trim_left : List ℕ → List ℕ
trim_left [] = []
trim_left (c ∷ s) = if is_space c then trim_left s else c ∷ s

-- A space is dropped where nothing is kept behind it.
unfoldable pub keep_front : ℕ → List ℕ → List ℕ
keep_front c [] = if is_space c then [] else c ∷ []
keep_front c (d ∷ s) = c ∷ d ∷ s

unfoldable pub trim_right : List ℕ → List ℕ
unfolding keep_front
trim_right [] = []
trim_right (c ∷ s) = keep_front c (trim_right s)

unfoldable pub trim_space : List ℕ → List ℕ
unfolding trim_left trim_right
trim_space s = trim_right (trim_left s)

trim_right-keep_front :
    (c : ℕ) (s : List ℕ) → trim_right s ≡ s → trim_right (keep_front c s) ≡ keep_front c s
unfolding trim_right
trim_right-keep_front c [] h = ground arith
trim_right-keep_front c (d ∷ s) h = rw h

pub trim_right-trim_right : (s : List ℕ) → trim_right (trim_right s) ≡ trim_right s
unfolding trim_right
trim_right-trim_right [] = refl
trim_right-trim_right (c ∷ s) = trim_right-keep_front c (trim_right s) (trim_right-trim_right s)

keep_front-head :
    (c : ℕ) (s : List ℕ) → is_space c ≡ false → trim_left (keep_front c s) ≡ keep_front c s
unfolding trim_left keep_front
keep_front-head c [] h = rw (h, h)
keep_front-head c (d ∷ s) h = rw h

trim_left-trim_space : (s : List ℕ) → trim_left (trim_space s) ≡ trim_space s
unfolding trim_space
trim_left-trim_space [] = refl
trim_left-trim_space (c ∷ s) = elim (Bool-cases (is_space c)) [
  | inl space ↦ rw space (trim_left-trim_space s)
  | inr other ↦ rw other (keep_front-head c (trim_right s) other)
]

-- Trimming twice is trimming once.
pub trim_space-trim_space : (s : List ℕ) → trim_space (trim_space s) ≡ trim_space s
unfolding trim_space
trim_space-trim_space s =
    ap trim_right (trim_left-trim_space s) ∙ trim_right-trim_right (trim_left s)

module _ (f : ℕ → ℕ) (keeps : (c : ℕ) → is_space (f c) ≡ is_space c) where
  trim_left-map : (s : List ℕ) → trim_left (map f s) ≡ map f (trim_left s)
  unfolding trim_left
  trim_left-map [] = refl
  trim_left-map (c ∷ s) = elim (Bool-cases (is_space c)) [
    | inl space ↦ rw (keeps c, space) (trim_left-map s)
    | inr other ↦ rw (keeps c, other)
  ]

  keep_front-map : (c : ℕ) (s : List ℕ) → keep_front (f c) (map f s) ≡ map f (keep_front c s)
  unfolding keep_front
  keep_front-map c [] = elim (Bool-cases (is_space c)) [
    | inl space ↦ rw (keeps c, space)
    | inr other ↦ rw (keeps c, other)
  ]
  keep_front-map c (d ∷ s) = refl

  trim_right-map : (s : List ℕ) → trim_right (map f s) ≡ map f (trim_right s)
  unfolding trim_right
  trim_right-map [] = refl
  trim_right-map (c ∷ s) = rw (trim_right-map s) (keep_front-map c (trim_right s))

  -- A change of letters that keeps spaces commutes with trimming.
  pub trim_space-map : (s : List ℕ) → trim_space (map f s) ≡ map f (trim_space s)
  unfolding trim_space
  trim_space-map s = rw (trim_left-map s) (trim_right-map (trim_left s))
