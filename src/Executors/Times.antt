-- ===== src/Executors/Times.antt =====
-- parseTime (services/executors/src/safeguards/safeguards.ts): a text in the RFC 3339 shape, with any
-- number of digits in its fraction, is handed to the platform's `Date.parse`.
use mathlib.Core.Option
use aurora_ai_native.Prelude.{
  ℕ, String, Bool, ◌≡◌, Option, none, some, List, [], ◌∷◌, eqb, if◌then◌else◌, if-some, DateParse,
  codes,
}
use aurora_ai_native.Containment.Time.{digit, fits, after, date_and_time, zone}

-- What is left behind the digits, taken greedily.
skip_digits : List ℕ → List ℕ
skip_digits [] = []
skip_digits (c ∷ cs) = if fits digit c then skip_digits cs else c ∷ cs

-- `(?:\.\d+)?`
abbrev any_fraction : Option (List ℕ) → Option (List ℕ)
any_fraction none = none
any_fraction (some []) = some []
any_fraction (some (c ∷ cs)) =
    if eqb c b'.' then Option.map skip_digits (after (digit ∷ []) cs) else some (c ∷ cs)

-- RFC3339.test
unfoldable pub rfc3339 : String → Bool
unfolding after skip_digits
rfc3339 value = zone (any_fraction (after date_and_time (codes value)))

unfoldable pub parse_time : DateParse → String → Option ℕ
unfolding rfc3339
parse_time date_parse value = if rfc3339 value then date_parse value else none

-- An instant that is read is the one that the platform reads.
pub parse_time-parsed :
    (date_parse : DateParse) (value : String) (n : ℕ)
    → parse_time date_parse value ≡ some n
    → date_parse value ≡ some n
unfolding parse_time
parse_time-parsed date_parse value n h = if-some (rfc3339 value) (date_parse value) n h
