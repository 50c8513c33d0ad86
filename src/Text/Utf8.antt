-- ===== src/Text/Utf8.antt =====
-- UTF-8 decoding as `range` over a string does it, `utf8.ValidString`, and `utf16.Encode`'s length.
use transferly.Prelude.{
  ℕ, zero, suc, ◌+◌, ◌-◌, ◌*◌, ◌≤◌, ◌<◌, ◌≡◌, Bool, true, ◌&&◌, List, [], ◌∷◌, Option, none, some,
  Bytes, arith, ltb, leb, ◌==◌, if◌then◌else◌, any, take, All, is_some,
}

continuation : ℕ → Bool
continuation c = leb 0x80 c && leb c 0xBF

two : ℕ → Bytes → Option (ℕ × ℕ)
two b (c ∷ s) = if continuation c then some ((b - 0xC0) * 64 + (c - 0x80), 1) else none
two b [] = none

three : ℕ → Bytes → Option (ℕ × ℕ)
three b (c ∷ d ∷ s) =
    if leb (if b == 0xE0 then 0xA0 else 0x80) c
      && leb c (if b == 0xED then 0x9F else 0xBF)
      && continuation d
    then some ((b - 0xE0) * 4096 + (c - 0x80) * 64 + (d - 0x80), 2)
    else none
three b _ = none

four : ℕ → Bytes → Option (ℕ × ℕ)
four b (c ∷ d ∷ e ∷ s) =
    if leb (if b == 0xF0 then 0x90 else 0x80) c
      && leb c (if b == 0xF4 then 0x8F else 0xBF)
      && continuation d
      && continuation e
    then some ((b - 0xF0) * 262144 + (c - 0x80) * 4096 + (d - 0x80) * 64 + (e - 0x80), 3)
    else none
four b _ = none

-- The rune that starts with byte `b`, and how many bytes of the rest belong to it.
unfoldable pub decode_rune : ℕ → Bytes → Option (ℕ × ℕ)
unfolding two three four continuation
decode_rune b s =
    if ltb b 0x80
    then some (b, 0)
    else if leb 0xC2 b && leb b 0xDF
    then two b s
    else if leb 0xE0 b && leb b 0xEF
    then three b s
    else if leb 0xF0 b && leb b 0xF4
    then four b s
    else none

-- An invalid byte is U+FFFD, and one byte wide.
abbrev or_error : Option (ℕ × ℕ) → ℕ × ℕ
or_error (some r) = r
or_error none = (0xFFFD, 0)

-- The number is of the bytes that the last rune still holds.
pub runes_after : ℕ → Bytes → List ℕ
runes_after k [] = []
runes_after (suc k) (b ∷ s) = runes_after k s
runes_after zero (b ∷ s) = let (r, width) = or_error (decode_rune b s) in r ∷ runes_after width s

-- `[]rune(s)`
unfoldable pub runes : Bytes → List ℕ
unfolding runes_after decode_rune
runes s = runes_after 0 s

pub valid_after : ℕ → Bytes → Bool
valid_after k [] = true
valid_after (suc k) (b ∷ s) = valid_after k s
valid_after zero (b ∷ s) =
    let (r, width) = or_error (decode_rune b s) in is_some (decode_rune b s) && valid_after width s

-- `utf8.ValidString`
unfoldable pub valid_utf8 : Bytes → Bool
unfolding valid_after decode_rune
valid_utf8 s = valid_after 0 s

pub units : List ℕ → ℕ
units [] = 0
units (r ∷ rs) = (if ltb r 0x10000 then 1 else 2) + units rs

-- `len(utf16.Encode([]rune(s)))`
unfoldable pub utf16_length : Bytes → ℕ
unfolding units runes
utf16_length s = units (runes s)

decode_rune-ascii : (b : ℕ) (s : Bytes) → b < 128 → or_error (decode_rune b s) ≡ (b, 0)
unfolding decode_rune
decode_rune-ascii b s h = ground arith

-- The bytes that a rune holds after its first are no ASCII characters.
abbrev Wide : Bytes → Type 0
Wide = All (λ c. 128 ≤ c)

decode_rune-Wide : (b : ℕ) (s : Bytes) → Wide (take (or_error (decode_rune b s)).1 s)
unfolding decode_rune
decode_rune-Wide b [] = ground arith
decode_rune-Wide b (c ∷ []) = ground arith
decode_rune-Wide b (c ∷ d ∷ []) = ground arith
decode_rune-Wide b (c ∷ d ∷ e ∷ s) = ground arith

abbrev pub has : ℕ → List ℕ → Bool
has b = any (λ c. c == b)

has-runes_after :
    (b k : ℕ) (s : Bytes)
    → b < 128
    → Wide (take k s)
    → has b s ≡ true
    → has b (runes_after k s) ≡ true
unfolding runes_after
has-runes_after b k [] ascii wide h = cc
has-runes_after b (suc k) (c ∷ s) ascii wide h = has-runes_after b k s ascii wide.1 (ground arith)
has-runes_after b zero (c ∷ s) ascii wide h = ground (
  arith,
  decode_rune-ascii c s,
  has-runes_after b (or_error (decode_rune c s)).1 s ascii (decode_rune-Wide c s),
)

-- An ASCII character that stands among the bytes is one of the runes.
pub has-runes : (b : ℕ) (s : Bytes) → b < 128 → has b s ≡ true → has b (runes s) ≡ true
unfolding runes
has-runes b s ascii h = has-runes_after b 0 s ascii tt h
