-- ===== src/Containment/Time.antt =====
-- timestampMs (services/executors/src/failure-containment/failure-containment.ts): a text in the
-- RFC 3339 shape is handed to the platform's `Date.parse`. `none` stands for `undefined`.
use mathlib.Core.Option
use aurora_ai_native.Prelude.{
  ℕ, zero, suc, String, Bool, true, false, ◌&&◌, ◌||◌, Option, none, some, List, [], ◌∷◌, leb, eqb,
  if◌then◌else◌, DateParse, codes, ◌≡◌, if-some,
}

-- What one place of the pattern asks for: `\d`, or a character.
pub data Shape : Type 0 where
  digit : Shape
  only : ℕ → Shape

abbrev pub fits : Shape → ℕ → Bool
fits digit c = leb b'0' c && leb c b'9'
fits (only d) c = eqb c d

-- What is left of a text behind the given places.
unfoldable pub after : List Shape → List ℕ → Option (List ℕ)
after [] cs = some cs
after (p ∷ ps) [] = none
after (p ∷ ps) (c ∷ cs) = if fits p c then after ps cs else none

abbrev pub date_and_time : List Shape
date_and_time =
    digit
    ∷ digit
    ∷ digit
    ∷ digit
    ∷ only b'-'
    ∷ digit
    ∷ digit
    ∷ only b'-'
    ∷ digit
    ∷ digit
    ∷ only b'T'
    ∷ digit
    ∷ digit
    ∷ only b':'
    ∷ digit
    ∷ digit
    ∷ only b':'
    ∷ digit
    ∷ digit
    ∷ []

-- At most `room` digits, taken greedily: a digit that is left over fits no zone.
digits : ℕ → List ℕ → List ℕ
digits room [] = []
digits zero (c ∷ cs) = c ∷ cs
digits (suc room) (c ∷ cs) = if fits digit c then digits room cs else c ∷ cs

-- `(?:\.\d{1,9})?`
abbrev fraction : List ℕ → Option (List ℕ)
fraction [] = some []
fraction (c ∷ cs) =
    if eqb c b'.' then Option.map (digits 8) (after (digit ∷ []) cs) else some (c ∷ cs)

abbrev pub is_end : Option (List ℕ) → Bool
is_end none = false
is_end (some []) = true
is_end (some (c ∷ cs)) = false

-- `(?:Z|[+-]\d{2}:\d{2})$`
abbrev pub zone : Option (List ℕ) → Bool
zone none = false
zone (some []) = false
zone (some (c ∷ cs)) =
    if eqb c b'Z'
    then is_end (some cs)
    else (eqb c b'+' || eqb c b'-')
      && is_end (after (digit ∷ digit ∷ only b':' ∷ digit ∷ digit ∷ []) cs)

abbrev then_fraction : Option (List ℕ) → Option (List ℕ)
then_fraction none = none
then_fraction (some cs) = fraction cs

-- RFC3339_PATTERN.test
unfoldable pub rfc3339_pattern : String → Bool
unfolding after digits
rfc3339_pattern value = zone (then_fraction (after date_and_time (codes value)))

unfoldable pub timestamp_ms : DateParse → String → Option ℕ
unfolding rfc3339_pattern
timestamp_ms date_parse value = if rfc3339_pattern value then date_parse value else none

-- An instant that is read is the one that the platform reads.
pub timestamp_ms-parsed :
    (date_parse : DateParse) (value : String) (n : ℕ)
    → timestamp_ms date_parse value ≡ some n
    → date_parse value ≡ some n
unfolding timestamp_ms
timestamp_ms-parsed date_parse value n h = if-some (rfc3339_pattern value) (date_parse value) n h
