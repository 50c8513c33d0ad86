-- ===== src/Text/Space.antt =====
-- `strings.TrimSpace`, `strings.ToUpper` and `strings.ToLower`.
use transferly.Prelude.{
  ℕ, zero, suc, ◌+◌, ◌-◌, Bool, ◌&&◌, ◌||◌, List, [], ◌∷◌, Option, none, some, Bytes, leb, ◌==◌,
  if◌then◌else◌, map, reverse,
}
use transferly.Text.Utf8.{decode_rune, runes}

-- `unicode.IsSpace`
pub is_space : ℕ → Bool
is_space r =
    (leb 0x9 r && leb r 0xD)
    || r == 0x20
    || r == 0x85
    || r == 0xA0
    || r == 0x1680
    || (leb 0x2000 r && leb r 0x200A)
    || r == 0x2028
    || r == 0x2029
    || r == 0x202F
    || r == 0x205F
    || r == 0x3000

-- How many more bytes a decoded rune holds, if it is white space.
white : Option (ℕ × ℕ) → Option ℕ
white none = none
white (some (r, width)) = if is_space r then some width else none

-- The number is of the bytes that the last white space still holds.
trim_front : ℕ → Bytes → Bytes
trim_front k [] = []
trim_front (suc k) (b ∷ s) = trim_front k s
trim_front zero (b ∷ s) = elim (white (decode_rune b s)) [
  | none ↦ b ∷ s
  | some width ↦ trim_front width s
]

exactly : ℕ → Option ℕ → Option ℕ
exactly n none = none
exactly n (some m) = if m == n then some m else none

or_else : Option ℕ → Option ℕ → Option ℕ
or_else (some n) o = some n
or_else none o = o

-- The same for the last rune of a text, whose bytes are given last byte first.
white_last : Bytes → Option ℕ
unfolding white exactly or_else
white_last [] = none
white_last (b ∷ []) = exactly 0 (white (decode_rune b []))
white_last (b ∷ c ∷ []) =
    or_else (exactly 0 (white (decode_rune b []))) (exactly 1 (white (decode_rune c (b ∷ []))))
white_last (b ∷ c ∷ d ∷ s) = or_else (exactly 0 (white (decode_rune b []))) (
    or_else (exactly 1 (white (decode_rune c (b ∷ []))))
      (exactly 2 (white (decode_rune d (c ∷ b ∷ [])))))

trim_back : ℕ → Bytes → Bytes
trim_back k [] = []
trim_back (suc k) (b ∷ s) = trim_back k s
trim_back zero (b ∷ s) = elim (white_last (b ∷ s)) [ none ↦ b ∷ s | some width ↦ trim_back width s ]

unfoldable pub trim_space : Bytes → Bytes
unfolding trim_front trim_back white_last white is_space decode_rune
trim_space s = reverse (trim_back 0 (reverse (trim_front 0 s)))

-- The case mappings with an ASCII result. The program compares what they yield with ASCII words
-- (and with words that end in a superscript digit, which has no case), so the other mappings
-- change no comparison.
upper_rune : ℕ → ℕ
upper_rune r =
    if leb b'a' r && leb r b'z'
    then r - 32
    else if r == 0x131
    then b'I'
    else if r == 0x17F
    then b'S'
    else r

lower_rune : ℕ → ℕ
lower_rune r =
    if leb b'A' r && leb r b'Z'
    then r + 32
    else if r == 0x130
    then b'i'
    else if r == 0x212A
    then b'k'
    else r

-- The runes of `strings.ToUpper(s)` and of `strings.ToLower(s)`.
unfoldable pub to_upper : Bytes → List ℕ
unfolding upper_rune
to_upper s = map upper_rune (runes s)

unfoldable pub to_lower : Bytes → List ℕ
unfolding lower_rune
to_lower s = map lower_rune (runes s)
