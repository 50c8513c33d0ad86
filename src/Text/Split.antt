-- ===== src/Text/Split.antt =====
-- `strings.Split` and `strings.Join` at a one-byte separator, prefixes and suffixes.
use transferly.Text.Utf8.{has}
use transferly.Prelude.{
  ◌⊎◌, ◌||◌, ℕ, ◌≡◌, ◌≢◌, refl, Bool, true, false, ◌&&◌, List, [], ◌∷◌, ◌++◌, none, some, Bytes,
  arith, ◌==◌, if◌then◌else◌, any, last?,
}

abbrev cons_first : ℕ → List Bytes → List Bytes
cons_first c [] = (c ∷ []) ∷ []
cons_first c (p ∷ ps) = (c ∷ p) ∷ ps

unfoldable pub split : ℕ → Bytes → List Bytes
split b [] = [] ∷ []
split b (c ∷ s) = let rest = split b s in if c == b then [] ∷ rest else cons_first c rest

unfoldable pub join : ℕ → List Bytes → Bytes
join b [] = []
join b (p ∷ []) = p
join b (p ∷ q ∷ ps) = p ++ b ∷ join b (q ∷ ps)

unfoldable pub has_prefix : Bytes → Bytes → Bool
has_prefix s [] = true
has_prefix [] (b ∷ p) = false
has_prefix (c ∷ s) (b ∷ p) = (c == b) && has_prefix s p

-- `strings.HasSuffix` at a suffix of one byte.
unfoldable pub ends_with : Bytes → ℕ → Bool
ends_with s b = elim (last? s) [ none ↦ false | some c ↦ c == b ]

-- The text in front of the first `b`; the whole text where there is none.
unfoldable pub before : ℕ → Bytes → Bytes
before b [] = []
before b (c ∷ s) = let rest = before b s in if c == b then [] else c ∷ rest

pub split-ne-nil : (b : ℕ) (s : Bytes) → split b s ≢ []
unfolding split
split-ne-nil b [] h = cc
split-ne-nil b (c ∷ s) h = ground (arith, split-ne-nil b s)

join-nil-cons : (b : ℕ) (ps : List Bytes) → ps ≢ [] → join b ([] ∷ ps) ≡ b ∷ join b ps
unfolding join
join-nil-cons b [] h = absurd (h refl)
join-nil-cons b (p ∷ ps) h = refl

join-cons_first : (b c : ℕ) (ps : List Bytes) → ps ≢ [] → join b (cons_first c ps) ≡ c ∷ join b ps
unfolding join
join-cons_first b c [] h = absurd (h refl)
join-cons_first b c (p ∷ []) h = refl
join-cons_first b c (p ∷ q ∷ ps) h = refl

-- Splitting loses nothing.
pub join-split : (b : ℕ) (s : Bytes) → join b (split b s) ≡ s
unfolding split
join-split b [] = unfold join in refl
join-split b (c ∷ s) = ground (
  arith,
  join-split b s,
  join-nil-cons b (split b s) (split-ne-nil b s),
  join-cons_first b c (split b s) (split-ne-nil b s),
)

has-cons_first :
    (b c : ℕ) (ps : List Bytes) → any (has b) (cons_first c ps) ≡ (c == b) || any (has b) ps
has-cons_first b c [] = ground arith
has-cons_first b c (p ∷ ps) = ground arith

-- A byte of a text is the separator or stands in one of the parts.
pub has-split :
    (b separator : ℕ) (s : Bytes)
    → has b s ≡ true
    → (b ≡ separator) ⊎ (any (has b) (split separator s) ≡ true)
unfolding split
has-split b separator [] h = cc
has-split b separator (c ∷ s) h =
    ground (arith, has-split b separator s, has-cons_first b c (split separator s))
