-- ===== src/Session/Code.antt =====
-- verificationCodeFromMaterial; `sha` is crypto/sha256's Sum256.
use transferly.Prelude.{
  ℕ, zero, suc, ◌+◌, ◌-◌, ◌*◌, ◌/◌, ◌%◌, ◌^◌, ◌≡◌, ◌≤◌, ◌<◌, refl, [], ◌∷◌, ◌++◌, Bytes, arith, ltb,
  if◌then◌else◌, length, length-append, replicate, All, All-append, Bool-cases, inl, inr, ◌∙◌,
}

-- `binary.BigEndian.Uint32`
unfoldable pub uint32 : Bytes → ℕ
uint32 (a ∷ b ∷ c ∷ d ∷ s) = ((a * 256 + b) * 256 + c) * 256 + d
uint32 _ = 0

-- Decimal digits, as `%d` of fmt prints them; a number has fewer digits than the fuel.
unfoldable pub decimal : ℕ → ℕ → Bytes
decimal zero n = []
decimal (suc fuel) n =
    let rest = decimal fuel (n / 10) in
    if ltb n 10 then (48 + n) ∷ [] else rest ++ (48 + n % 10) ∷ []

-- `%06d`
unfoldable pub padded : ℕ → Bytes → Bytes
padded width s = replicate (width - length s) 48 ++ s

-- verificationCodeFromMaterial
unfoldable pub verification_code_from_material : (Bytes → Bytes) → Bytes → Bytes
unfolding padded
verification_code_from_material sha material =
    let value = uint32 (sha material) % 1000000 in padded 6 (decimal (suc value) value)

-- The number that a text of digits stands for.
abbrev pub value_of : ℕ → Bytes → ℕ
value_of n [] = n
value_of n (c ∷ s) = value_of (n * 10 + (c - 48)) s

abbrev pub IsDigit : ℕ → Type 0
IsDigit c = (48 ≤ c) × (c ≤ 57)

-- Below 10 ^ k there are at most k digits.
decimal-length : (k fuel n : ℕ) → n < 10 ^ suc k → length (decimal fuel n) ≤ suc k
unfolding decimal
decimal-length k zero n h = omega arith
decimal-length zero (suc fuel) n h = ground arith
decimal-length (suc k) (suc fuel) n h =
    let least : n / 10 < 10 ^ suc k = omega arith in
    ground (
      arith,
      decimal-length k fuel (n / 10) least,
      length-append (decimal fuel (n / 10)) ((48 + n % 10) ∷ []),
    )

decimal-digits : (fuel n : ℕ) → All IsDigit (decimal fuel n)
unfolding decimal
decimal-digits zero n = tt
decimal-digits (suc fuel) n = elim (Bool-cases (ltb n 10)) [
  | inl small ↦ rw (small, decimal) ((omega arith, ground arith), tt)
  | inr large ↦
      rw (large, decimal)
        (All-append IsDigit (decimal fuel (n / 10)) ((48 + n % 10) ∷ [])
          (decimal-digits fuel (n / 10)) ((omega arith, omega arith), tt))
]

value_of-last : (m d : ℕ) (s : Bytes) → value_of m (s ++ (48 + d) ∷ []) ≡ value_of m s * 10 + d
value_of-last m d [] = omega arith
value_of-last m d (c ∷ s) = value_of-last (m * 10 + (c - 48)) d s

pub decimal-value : (fuel n : ℕ) → n < fuel → value_of 0 (decimal fuel n) ≡ n
unfolding decimal
decimal-value zero n h = omega arith
decimal-value (suc fuel) n h = elim (Bool-cases (ltb n 10)) [
  | inl small ↦ rw (small, decimal) (omega arith)
  | inr large ↦
      let shorter : n / 10 < fuel = ground arith in
      rw
        (
          large,
          decimal,
          value_of-last 0 (n % 10) (decimal fuel (n / 10)),
          decimal-value fuel (n / 10) shorter,
        )
        (omega arith)
]

padded-value : (k : ℕ) (s : Bytes) → value_of 0 (replicate k 48 ++ s) ≡ value_of 0 s
padded-value zero s = refl
padded-value (suc k) s = padded-value k s

replicate-digits : (k : ℕ) → All IsDigit (replicate k 48)
replicate-digits zero = tt
replicate-digits (suc k) = ((omega arith, omega arith), replicate-digits k)

length-replicate : (k : ℕ) → length {A = ℕ} (replicate k 48) ≡ k
length-replicate zero = refl
length-replicate (suc k) = ground (arith, length-replicate k)

-- The verification code is six decimal digits, and they read as the first 32 bits of the digest modulo a
-- million: leading zeros are kept, and nothing of the number is cut.
pub verification_code_from_material-digits :
    (sha : Bytes → Bytes) (material : Bytes)
    → (length (verification_code_from_material sha material) ≡ 6)
      × All IsDigit (verification_code_from_material sha material)
      × (value_of 0 (verification_code_from_material sha material)
          ≡ uint32 (sha material) % 1000000)
unfolding verification_code_from_material padded
verification_code_from_material-digits sha material =
    let value = uint32 (sha material) % 1000000 in
    let s = decimal (suc value) value in
    let fits : length s ≤ 6 = decimal-length 5 (suc value) value (omega arith) in
    (
      ground
          (arith, length-append (replicate (6 - length s) 48) s, length-replicate (6 - length s)),
      All-append IsDigit (replicate (6 - length s) 48) s (replicate-digits (6 - length s))
          (decimal-digits (suc value) value),
      padded-value (6 - length s) s ∙ decimal-value (suc value) value (omega arith),
    )
