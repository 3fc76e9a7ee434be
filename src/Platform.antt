-- ===== src/Platform.antt =====
-- What the services take from outside the repository: github.com/google/uuid, the letter tables of
-- Go's `unicode` package, and the time layouts of Go's `time` package. A UUID is its 16 bytes read
-- as one number; a time is a count of nanoseconds. The laws are what the packages document.
use event_driven_order_fulfi.Common.{ℕ, ◌*◌, ◌/◌, ◌≡◌, Option, some, List, map}
use event_driven_order_fulfi.Common.Text.{is_space}

abbrev pub Text : Type 0
Text = List ℕ

abbrev pub Uuid : Type 0
Uuid = ℕ

abbrev pub Time : Type 0
Time = ℕ

-- `uuid.Nil`
abbrev pub nil_uuid : Uuid
nil_uuid = 0

pub record Platform : Type 0 where
  -- `uuid.Parse` and `UUID.String`
  pub uuid_parse : Text → Option Uuid
  pub uuid_string : Uuid → Text
  -- What `String` prints is parsed back, and has no space in it.
  pub parse-string : (u : Uuid) → uuid_parse (uuid_string u) ≡ some u
  -- `unicode.ToUpper`
  pub upper_rune : ℕ → ℕ
  pub upper-upper : (c : ℕ) → upper_rune (upper_rune c) ≡ upper_rune c
  pub is_space-upper : (c : ℕ) → is_space (upper_rune c) ≡ is_space c
  -- `Time.Format` and `time.Parse` at the millisecond layout of the wire
  pub format_millis : Time → Text
  pub parse_millis : Text → Option Time
  pub parse-format : (t : Time) → parse_millis (format_millis t) ≡ some (t / 1000000 * 1000000)
  -- `Time.MarshalJSON` and `Time.UnmarshalJSON`
  pub format_nanos : Time → Text
  pub parse_nanos : Text → Option Time
  pub parse-format_nanos : (t : Time) → parse_nanos (format_nanos t) ≡ some t

-- `strings.ToUpper`
unfoldable pub to_upper : ⦃p : Platform⦄ → Text → Text
to_upper ⦃p⦄ s = map p.upper_rune s
