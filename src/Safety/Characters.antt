-- ===== src/Safety/Characters.antt =====
-- The bytes of an accepted path.
use transferly.Prelude.{
  ℕ, ◌≡◌, ◌≢◌, ◌≤◌, ◌<◌, refl, true, false, ◌||◌, List, [], ◌∷◌, Bytes, arith, ltb, ◌==◌, ==_iff,
  dec_lt, subst, any, All, ok, reject_if-ok, reject_if, Bool, >>=-eq-ok, inl, inr, Bool-cases,
}
use transferly.Text.Utf8.{has, runes, has-runes, utf16_length}
use transferly.Text.Split.{split, has-split, ends_with, before}
use transferly.Text.Space.{to_upper}
use transferly.Safety.{
  contains, windows_characters, check_characters, validate_windows_component,
  is_windows_reserved_base, accepts, max_windows_component, PathError, reserved_name,
}
use transferly.Safety.Confine.{IsGood, accepts-IsAccepted}

-- Neither a control character nor one of those that Windows keeps for itself.
abbrev IsAllowed : ℕ → Type 0
IsAllowed c = (32 ≤ c) × (c ≢ 127) × (contains windows_characters c ≡ false)

check_characters-IsAllowed :
    (rs : List ℕ) (c : ℕ) → check_characters rs ≡ ok tt → has c rs ≡ true → IsAllowed c
unfolding check_characters
check_characters-IsAllowed [] c h m = cc
check_characters-IsAllowed (r ∷ rs) c h m =
    let (printed, h₁) = reject_if-ok (ltb r 32 || r == 127) _ _ h in
    let (kept, h₂) = reject_if-ok (contains windows_characters r) _ _ h₁ in
    elim (Bool-cases (r == c)) [
      | inl e ↦
          subst IsAllowed ((==_iff r c).0 e)
            (ground (arith, printed), ground (arith, printed), kept)
      | inr e ↦ check_characters-IsAllowed rs c h₂ (ground arith)
    ]

-- What an accepted component has passed.
pub record IsValid (component : Bytes) : Type 0 where
  pub fits : utf16_length component ≤ max_windows_component
  pub no_dot_at_end : ends_with component b'.' ≡ false
  pub no_space_at_end : ends_with component b' ' ≡ false
  pub characters : check_characters (runes component) ≡ ok tt
  pub free : is_windows_reserved_base (to_upper (before b'.' component)) ≡ false

not_below : (a b : ℕ) → ltb a b ≡ false → b ≤ a
not_below a b h = ground arith

neither : (a b : Bool) → (a || b) ≡ false → (a ≡ false) × (b ≡ false)
neither a b h = (ground arith, ground arith)

passed : (bad : Bool) (e : PathError) → reject_if bad e ≡ ok tt → bad ≡ false
passed true e h = cc
passed false e h = refl

pub validate_windows_component-IsValid :
    (c : Bytes) → validate_windows_component c ≡ ok tt → IsValid c
unfolding validate_windows_component
validate_windows_component-IsValid c h =
    let (fits, h₁) = reject_if-ok (ltb max_windows_component (utf16_length c)) _ _ h in
    let (ends, h₂) = reject_if-ok (ends_with c b'.' || ends_with c b' ') _ _ h₁ in
    let (u, characters, h₃) = >>=-eq-ok (check_characters (runes c)) _ h₂ in
    let (no_dot, no_space) = neither (ends_with c b'.') (ends_with c b' ') ends in
    record {
      fits = not_below max_windows_component (utf16_length c) fits;
      no_dot_at_end = no_dot;
      no_space_at_end = no_space;
      characters = characters;
      free = passed (is_windows_reserved_base (to_upper (before b'.' c))) reserved_name h₃;
    }

component-IsAllowed :
    (cs : List Bytes) (b : ℕ) → All IsGood cs → b < 128 → any (has b) cs ≡ true → IsAllowed b
component-IsAllowed [] b good ascii m = cc
component-IsAllowed (c ∷ cs) b good ascii m = elim (Bool-cases (has b c)) [
  | inl here ↦
      check_characters-IsAllowed (runes c) b
        (validate_windows_component-IsValid c good.0.valid).characters (has-runes b c ascii here)
  | inr later ↦ component-IsAllowed cs b good.1 ascii (ground arith)
]

-- No byte of an accepted path is a control character, and none but the slash between components is
-- one of the characters that Windows keeps for itself.
pub accepts-IsAllowed :
    (path : Bytes) (b : ℕ)
    → accepts path ≡ true
    → has b path ≡ true
    → (32 ≤ b) × (b ≢ 127) × (contains windows_characters b ≡ true → b ≡ b'/')
accepts-IsAllowed path b h m = elim (dec_lt b 128) [
  | yes ascii ↦ elim (has-split b b'/' path m) [
    | inl slash ↦ rw slash (omega arith, omega arith, λ _. refl)
    | inr part ↦
        let (printable, no_delete, kept) =
          component-IsAllowed (split b'/' path) b (accepts-IsAccepted path h).components ascii
            part in
        (printable, no_delete, λ taken. cc)
  ]
  | no wide ↦ (omega arith, omega arith, λ taken. ground arith)
]
