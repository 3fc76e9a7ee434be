-- ===== src/Common/Text.antt =====
-- Go strings that hold valid UTF-8, as lists of code points, and what the program uses of the
-- `strings` package: `TrimSpace`, `==`, `<` and `len`.
mod Trim
pub mod Decimal
unfoldable pub use Trim.*
use Prim.Native.Nat.{ℕ, ◌+◌}
use Prim.Native.Char.{code}
use Prim.Native.String.{String}
use mathlib.Core.Path.{◌≡◌, refl, ap₂}
use mathlib.Core.Logic.{◌↔◌}
use mathlib.Core.Bool.{Bool, true, false, ◌&&◌, ◌||◌}
use mathlib.Core.List.{List, [], ◌∷◌}
use native.Mathlib.Omega.{arith}
use event_driven_order_fulfi.Common.Tests.{ltb, leb, nat_beq, nat_beq_iff, if◌then◌else◌, Key}

-- The code points of a literal.
abbrev pub txt : String → List ℕ
txt String.[] = []
txt (String.◌∷◌ c s) = code c ∷ txt s

unfoldable pub text_beq : List ℕ → List ℕ → Bool
text_beq [] [] = true
text_beq [] (b ∷ t) = false
text_beq (a ∷ s) [] = false
text_beq (a ∷ s) (b ∷ t) = nat_beq a b && text_beq s t

text_eq_of_beq : (s t : List ℕ) → text_beq s t ≡ true → s ≡ t
unfolding text_beq
text_eq_of_beq [] [] h = refl
text_eq_of_beq [] (b ∷ t) h = cc
text_eq_of_beq (a ∷ s) [] h = cc
text_eq_of_beq (a ∷ s) (b ∷ t) h = ground (arith, text_eq_of_beq s t)

text_beq_refl : (s : List ℕ) → text_beq s s ≡ true
unfolding text_beq
text_beq_refl [] = refl
text_beq_refl (a ∷ s) = ground (arith, text_beq_refl s)

pub text_beq_iff : (s t : List ℕ) → (text_beq s t ≡ true) ↔ (s ≡ t)
text_beq_iff s t = (text_eq_of_beq s t, λ e. rw e (text_beq_refl t))

instance abbrev pub text_key : Key (List ℕ)
text_key = record { same = text_beq; same_iff = text_beq_iff }

-- Go compares strings byte by byte. UTF-8 keeps the order of code points.
unfoldable pub text_lt : List ℕ → List ℕ → Bool
text_lt [] [] = false
text_lt [] (b ∷ t) = true
text_lt (a ∷ s) [] = false
text_lt (a ∷ s) (b ∷ t) = ltb a b || (nat_beq a b && text_lt s t)

-- The bytes that a code point takes in UTF-8, and `len`.
unfoldable pub rune_len : ℕ → ℕ
rune_len c = if ltb c 0x80 then 1 else if ltb c 0x800 then 2 else if ltb c 0x1_0000 then 3 else 4

unfoldable pub byte_len : List ℕ → ℕ
unfolding rune_len
byte_len [] = 0
byte_len (c ∷ s) = rune_len c + byte_len s
