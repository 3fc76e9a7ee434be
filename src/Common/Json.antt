-- ===== src/Common/Json.antt =====
-- JSON values, and how `encoding/json` reads the fields of a struct. A field that is absent or null
-- keeps its zero value, a value of the wrong kind or out of range is an error, and of two fields
-- with one name the last counts. Field names are matched exactly, as every producer in the
-- repository writes them; numbers are integers, as all numeric fields are.
use Prim.Native.Nat.{ℕ}
use mathlib.Core.Bool.{Bool, ◌&&◌}
use mathlib.Core.Option.{Option, none, some}
use mathlib.Core.List.{List, []}
use event_driven_order_fulfi.Common.Tests.{ltb, leb, if◌then◌else◌}
use event_driven_order_fulfi.Common.Int.{ℤ, pos, pos_part, neg_part}
use event_driven_order_fulfi.Common.Text.{text_beq}

mutual
  pub data Json : Type 0 where
    null : Json
    flag : Bool → Json
    num : ℤ → Json
    str : List ℕ → Json
    arr : Items → Json
    obj : Fields → Json

  pub data Items : Type 0 where
    nil : Items
    cons : Json → Items → Items

  pub data Fields : Type 0 where
    end : Fields
    field : List ℕ → Json → Fields → Fields

-- The value of a field, `null` if there is none.
unfoldable pub get_or_null : List ℕ → Json → Fields → Json
get_or_null k found end = found
get_or_null k found (field j v rest) = get_or_null k (if text_beq j k then v else found) rest

abbrev pub get : List ℕ → Fields → Json
get k f = get_or_null k null f

unfoldable pub as_fields : Json → Option Fields
as_fields null = some end
as_fields (obj f) = some f
as_fields _ = none

unfoldable pub as_items : Json → Option Items
as_items null = some nil
as_items (arr xs) = some xs
as_items _ = none

unfoldable pub as_text : Json → Option (List ℕ)
as_text null = some []
as_text (str s) = some s
as_text _ = none

abbrev pub fits : ℕ → ℤ → Bool
fits bound z = ltb (pos_part z) bound && leb (neg_part z) bound

abbrev pub int32_bound : ℕ
int32_bound = 2147483648

-- An integer field of a struct, `bound` the first number past its type.
unfoldable pub as_int : ℕ → Json → Option ℤ
as_int bound null = some (pos 0)
as_int bound (num z) = if fits bound z then some z else none
as_int bound _ = none

-- A chain of conversions.
infixl 5 ◌>>=◌
abbrev pub ◌>>=◌ : {A B : Type 0} → Option A → (A → Option B) → Option B
none >>= f = none
some a >>= f = f a
