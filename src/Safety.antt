-- ===== src/Safety.antt =====
-- internal/terminal/safety.go: which paths of a manifest may touch the file system.
pub mod Confine
pub mod Characters
pub mod Reserved
mod Tests
use transferly.Prelude.{
  ℕ, ◌+◌, ◌-◌, ◌*◌, ◌≤◌, ◌<◌, ◌≡◌, Bool, true, false, not, ◌&&◌, ◌||◌, List, [], ◌∷◌, ◌++◌, Option,
  none, some, Bytes, codes, same, arith, ltb, leb, ◌==◌, if◌then◌else◌, any, length, Result, ok,
  fail, ◌>>=◌, ◌>>◌, reject_if,
}
use transferly.Text.Utf8.{runes, valid_utf8, utf16_length}
use transferly.Text.Split.{split, join, has_prefix, ends_with, before}
use transferly.Text.FilePath.{FilePath, dot_dot, clean, rel}
use transferly.Text.Space.{to_upper}

abbrev pub max_manifest_entries : ℕ
max_manifest_entries = 100000

abbrev pub max_manifest_omissions : ℕ
max_manifest_omissions = 100000

abbrev pub max_manifest_path_bytes : ℕ
max_manifest_path_bytes = 3000

abbrev pub max_windows_component : ℕ
max_windows_component = 255

abbrev pub max_windows_path : ℕ
max_windows_path = 32767

abbrev pub max_omission_reason : ℕ
max_omission_reason = 1024

-- One constructor for each message of the two validations.
pub data PathError : Type 0 where
  empty_path invalid_utf8 path_too_long absolute_path backslash empty_component dot_segment :
      PathError
  traversal_segment component_too_long trailing_alias control_character colon reserved_name :
      PathError
  invalid_character : ℕ → PathError

unfoldable pub is_ascii_letter : ℕ → Bool
is_ascii_letter value = leb b'a' value && leb value b'z' || leb b'A' value && leb value b'Z'

-- `len(path) >= 2 && isASCIILetter(path[0]) && path[1] == ':'`
has_drive : Bytes → Bool
unfolding is_ascii_letter
has_drive (a ∷ b ∷ path) = is_ascii_letter a && b == b':'
has_drive _ = false

-- `strings.ContainsRune(value, character)`, and `strings.Contains` at one ASCII character.
abbrev pub contains : List ℕ → ℕ → Bool
contains value character = any (λ c. c == character) value

abbrev pub windows_characters : List ℕ
windows_characters = codes "<>:\"/\\\\|?*"

-- The loop over the characters of a component.
unfoldable pub check_characters : List ℕ → Result PathError (Unit {0})
check_characters [] = ok tt
check_characters (character ∷ rest) = do
  reject_if (ltb character 32 || character == 127) control_character
  reject_if (contains windows_characters character)
      (if character == b':' then colon else invalid_character character)
  check_characters rest

abbrev reserved_words : List Bytes
reserved_words = codes "CON" ∷ codes "PRN" ∷ codes "AUX" ∷ codes "NUL" ∷ codes "CLOCK$" ∷ []

-- The superscript digits one, two and three.
abbrev superscripts : List ℕ
superscripts = 0xB9 ∷ 0xB2 ∷ 0xB3 ∷ []

-- The runes of `base`, with `len(base) == 4` read as four runes: a base of three ASCII letters and
-- an ASCII digit has as many bytes as runes.
numbered_device : List ℕ → Bool
numbered_device (a ∷ b ∷ c ∷ d ∷ []) =
    (same (a ∷ b ∷ c ∷ []) (codes "COM") || same (a ∷ b ∷ c ∷ []) (codes "LPT"))
    && leb b'1' d
    && leb d b'9'
numbered_device _ = false

superscript_device : List ℕ → Bool
superscript_device (a ∷ b ∷ c ∷ d ∷ []) =
    (same (a ∷ b ∷ c ∷ []) (codes "COM") || same (a ∷ b ∷ c ∷ []) (codes "LPT"))
    && contains superscripts d
superscript_device _ = false

unfoldable pub is_windows_reserved_base : List ℕ → Bool
unfolding numbered_device superscript_device
is_windows_reserved_base base =
    any (same base) reserved_words || numbered_device base || superscript_device base

unfoldable pub validate_windows_component : Bytes → Result PathError (Unit {0})
validate_windows_component component = do
  reject_if (ltb max_windows_component (utf16_length component)) component_too_long
  reject_if (ends_with component b'.' || ends_with component b' ') trailing_alias
  check_characters (runes component)
  reject_if (is_windows_reserved_base (to_upper (before b'.' component))) reserved_name

-- The loop over the components.
unfoldable pub check_components : List Bytes → Result PathError (Unit {0})
check_components [] = ok tt
check_components (component ∷ rest) = do
  reject_if (same component []) empty_component
  reject_if (same component (codes ".")) dot_segment
  reject_if (same component (codes "..")) traversal_segment
  validate_windows_component component
  check_components rest

unfoldable pub validate_manifest_path : Bytes → Result PathError (Unit {0})
unfolding check_components has_drive
validate_manifest_path path = do
  reject_if (same path []) empty_path
  reject_if (not (valid_utf8 path)) invalid_utf8
  reject_if (ltb max_manifest_path_bytes (length path) || ltb max_windows_path (utf16_length path))
      path_too_long
  reject_if (has_prefix path (codes "/") || has_drive path) absolute_path
  reject_if (contains path b'\\') backslash
  check_components (split b'/' path)

-- `err == nil`
abbrev pub accepts : Bytes → Bool
accepts path = elim (validate_manifest_path path) [ ok _ ↦ true | fail _ ↦ false ]

pub data BeneathError : Type 0 where
  escapes_destination resolved_too_long : BeneathError

-- `relative == ".."` or it starts with `../`. (A relative path is never absolute.)
abbrev climbs : FilePath → Bool
climbs [] = false
climbs (c ∷ cs) = same c dot_dot

-- The text of an absolute path.
abbrev render : FilePath → Bytes
render path = b'/' ∷ join b'/' path

-- `filepath.Abs` of an absolute path cleans it.
unfoldable pub ensure_path_beneath : FilePath → FilePath → Result BeneathError (Unit {0})
ensure_path_beneath destination candidate = do
  reject_if (climbs (rel (clean destination) (clean candidate))) escapes_destination
  reject_if (ltb max_windows_path (utf16_length (render (clean candidate)))) resolved_too_long
  ok tt
