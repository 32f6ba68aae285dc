-- ===== src/Prelude/Text.antt =====
-- What the source asks of a text by itself: what is left of it after `trim()`, and its characters.
use Prim.Native.Nat.{ℕ, ◌+◌}
use Prim.Native.Char.{code}
use Prim.Native.String.{String, compare}
use Prim.Native.Nat.{Ordering}
use mathlib.Core.Bool.{Bool, true, false, ◌||◌, ◌&&◌, not}
use mathlib.Core.Option.{Option}
use mathlib.Core.List.{List, [], ◌∷◌, reverse}
use aurora_ai_native.Prelude.Tests.{leb, eqb, if◌then◌else◌}
use aurora_ai_native.Prelude.Lists.{length, all}

-- The white space and line ends that `String.prototype.trim` removes.
unfoldable pub is_space : ℕ → Bool
is_space c =
    leb 9 c && leb c 13
    || eqb c 32
    || eqb c 160
    || eqb c 5760
    || leb 8192 c && leb c 8202
    || leb 8232 c && leb c 8233
    || eqb c 8239
    || eqb c 8287
    || eqb c 12288
    || eqb c 65279

-- `value.trim().length > 0`: some character is no white space.
unfoldable pub non_empty : String → Bool
unfolding is_space
non_empty String.[] = false
non_empty (String.◌∷◌ c s) = not (is_space (code c)) || non_empty s

-- The order in which `sort()` puts texts, `a <= b`, by code points: the platform compares units of UTF-16,
-- which differs where a character above U+FFFF meets one from U+E000 to U+FFFF.
abbrev pub text_le : String → String → Bool
text_le a b = elim (compare a b) [ Ordering.gt ↦ false | _ ↦ true ]

-- The platform's `Date.parse`, which the development takes as a parameter. An instant is a number of
-- milliseconds from an origin before every date in use, so that it is natural: the code only
-- compares instants and adds to them. `none` stands for NaN.
abbrev pub DateParse : Type 0
DateParse = String → Option ℕ

-- The code points of a text.
abbrev pub codes : String → List ℕ
codes String.[] = []
codes (String.◌∷◌ c s) = code c ∷ codes s

skip_spaces : List ℕ → List ℕ
skip_spaces [] = []
skip_spaces (c ∷ cs) = if is_space c then skip_spaces cs else c ∷ cs

utf16_length : List ℕ → ℕ
utf16_length [] = 0
utf16_length (c ∷ cs) = (if leb 65536 c then 2 else 1) + utf16_length cs

-- `value.trim().length`, in units of UTF-16.
unfoldable pub trimmed_length : String → ℕ
unfolding skip_spaces is_space utf16_length
trimmed_length s = utf16_length (skip_spaces (reverse (skip_spaces (codes s))))

-- `/^[A-Za-z0-9._:-]{1,max}$/.test(value)`
identifier_char : ℕ → Bool
identifier_char c =
    leb b'A' c && leb c b'Z'
    || leb b'a' c && leb c b'z'
    || leb b'0' c && leb c b'9'
    || eqb c b'.'
    || eqb c b'_'
    || eqb c b':'
    || eqb c b'-'

unfoldable pub is_identifier : ℕ → String → Bool
unfolding identifier_char
is_identifier most s =
    leb 1 (length (codes s)) && leb (length (codes s)) most && all identifier_char (codes s)
