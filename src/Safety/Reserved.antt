-- ===== src/Safety/Reserved.antt =====
-- The device names of Windows, and that no accepted path has a component with one as its base.
use transferly.Prelude.{
  ℕ, ◌≡◌, refl, sym, ap, ◌∙◌, Bool, true, false, ◌||◌, ◌&&◌, List, [], ◌∷◌, ◌++◌, Bytes, codes,
  same, arith, leb, ◌==◌, any, All, map,
}
use transferly.Text.Split.{split, before}
use transferly.Text.Space.{to_upper}
use transferly.Safety.{is_windows_reserved_base, accepts, contains, superscripts}
use transferly.Safety.Confine.{IsGood, accepts-IsAccepted}
use transferly.Safety.Characters.{validate_windows_component-IsValid}

abbrev com_port : ℕ → List ℕ
com_port d = b'C' ∷ b'O' ∷ b'M' ∷ d ∷ []

abbrev printer : ℕ → List ℕ
printer d = b'L' ∷ b'P' ∷ b'T' ∷ d ∷ []

-- The digits 1 to 9, and the superscripts one, two and three.
abbrev device_digits : List ℕ
device_digits = 0xB9 ∷ 0xB2 ∷ 0xB3 ∷ codes "123456789"

abbrev device_words : List (List ℕ)
device_words = codes "CON" ∷ codes "PRN" ∷ codes "AUX" ∷ codes "NUL" ∷ codes "CLOCK$" ∷ []

-- The names as Windows documents them, one by one.
abbrev pub device_names : List (List ℕ)
device_names = device_words ++ (map com_port device_digits ++ map printer device_digits)

module _ {ℓ} {A : Type ℓ} where
  any-append : (p : A → Bool) (xs ys : List A) → any p (xs ++ ys) ≡ any p xs || any p ys
  any-append p [] ys = refl
  any-append p (x ∷ xs) ys = ground (arith, any-append p xs ys)

any-digits :
    (a b c d x y z : ℕ) (ds : List ℕ)
    → any (same (a ∷ b ∷ c ∷ d ∷ [])) (map (λ e. x ∷ y ∷ z ∷ e ∷ []) ds)
      ≡ same (a ∷ b ∷ c ∷ []) (x ∷ y ∷ z ∷ []) && any (λ e. e == d) ds
any-digits a b c d x y z [] = ground arith
any-digits a b c d x y z (e ∷ ds) = ground (arith, any-digits a b c d x y z ds)

any-longer :
    (a b c d e x y z : ℕ) (base ds : List ℕ)
    → any (same (a ∷ b ∷ c ∷ d ∷ e ∷ base)) (map (λ k. x ∷ y ∷ z ∷ k ∷ []) ds) ≡ false
any-longer a b c d e x y z base [] = refl
any-longer a b c d e x y z base (k ∷ ds) = ground (arith, any-longer a b c d e x y z base ds)

any-shorter :
    (a b c x y z : ℕ) (ds : List ℕ)
    → any (same (a ∷ b ∷ c ∷ [])) (map (λ k. x ∷ y ∷ z ∷ k ∷ []) ds) ≡ false
any-shorter a b c x y z [] = refl
any-shorter a b c x y z (k ∷ ds) = ground (arith, any-shorter a b c x y z ds)

digit_range :
    (d : ℕ)
    → any (λ c. c == d) device_digits ≡ (leb b'1' d && leb d b'9') || contains superscripts d
digit_range d = ground arith

no_word : (a b c d : ℕ) → any (same (a ∷ b ∷ c ∷ d ∷ [])) device_words ≡ false
no_word a b c d = ground arith

names_cases :
    (base : List ℕ)
    → any (same base) device_names
      ≡ any (same base) device_words
        || (any (same base) (map com_port device_digits)
            || any (same base) (map printer device_digits))
names_cases base =
    any-append (same base) device_words (map com_port device_digits ++ map printer device_digits)
    ∙ ap (λ b. any (same base) device_words || b)
        (any-append (same base) (map com_port device_digits) (map printer device_digits))

neither : (w a b : Bool) → a ≡ false → b ≡ false → w || false || false ≡ w || (a || b)
neither w a b h k = ground arith

-- `m` and `n` tell the two devices, `p` and `q` the digits and the superscripts.
either :
    (w m n p₁ p₂ q a b e : Bool)
    → w ≡ false
    → a ≡ m && e
    → b ≡ n && e
    → e ≡ (p₁ && p₂) || q
    → w || (m || n) && p₁ && p₂ || (m || n) && q ≡ w || (a || b)
either w m n p₁ p₂ q a b e h₁ h₂ h₃ h₄ = rw (h₁, h₂, h₃, h₄) (ground arith)

-- The tests of the code name exactly the devices.
pub is_windows_reserved_base-device_names :
    (base : List ℕ) → is_windows_reserved_base base ≡ any (same base) device_names
unfolding is_windows_reserved_base
is_windows_reserved_base-device_names [] = refl
is_windows_reserved_base-device_names (a ∷ []) = ground arith
is_windows_reserved_base-device_names (a ∷ b ∷ []) = ground arith
is_windows_reserved_base-device_names (a ∷ b ∷ c ∷ []) =
    neither _ _ _ (any-shorter a b c b'C' b'O' b'M' device_digits)
      (any-shorter a b c b'L' b'P' b'T' device_digits)
    ∙ sym (names_cases (a ∷ b ∷ c ∷ []))
is_windows_reserved_base-device_names (a ∷ b ∷ c ∷ d ∷ []) =
    either (any (same (a ∷ b ∷ c ∷ d ∷ [])) device_words) _ _ _ _ _ _ _ _ (no_word a b c d)
      (any-digits a b c d b'C' b'O' b'M' device_digits)
      (any-digits a b c d b'L' b'P' b'T' device_digits) (digit_range d)
    ∙ sym (names_cases (a ∷ b ∷ c ∷ d ∷ []))
is_windows_reserved_base-device_names (a ∷ b ∷ c ∷ d ∷ e ∷ base) =
    neither _ _ _ (any-longer a b c d e b'C' b'O' b'M' base device_digits)
      (any-longer a b c d e b'L' b'P' b'T' base device_digits)
    ∙ sym (names_cases (a ∷ b ∷ c ∷ d ∷ e ∷ base))

names_free :
    (cs : List Bytes)
    → All IsGood cs
    → All (λ c. any (same (to_upper (before b'.' c))) device_names ≡ false) cs
names_free [] good = tt
names_free (c ∷ cs) good = (
  cc (
    is_windows_reserved_base-device_names (to_upper (before b'.' c)),
    (validate_windows_component-IsValid c good.0.valid).free,
  ),
  names_free cs good.1,
)

-- No component of an accepted path is a device name of Windows, whatever its case and extension.
pub accepts-device_names :
    (path : Bytes)
    → accepts path ≡ true
    → All (λ c. any (same (to_upper (before b'.' c))) device_names ≡ false) (split b'/' path)
accepts-device_names path h = names_free (split b'/' path) (accepts-IsAccepted path h).components
