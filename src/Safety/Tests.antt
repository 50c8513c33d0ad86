-- ===== src/Safety/Tests.antt =====
-- Runs of the path checks, and the theorems at concrete paths.
use transferly.Prelude.{
  ℕ, ◌≡◌, ◌≢◌, ◌≤◌, refl, true, false, ◌++◌, Bytes, codes, same, any, All, ok, arith,
}
use transferly.Text.Split.{split, join, before, has_prefix, ends_with}
use transferly.Text.Utf8.{utf16_length, runes, valid_utf8}
use transferly.Text.Space.{to_upper}
use transferly.Text.FilePath.{FilePath, clean, join_path, rel, IsPlain}
use transferly.Safety.{
  accepts, validate_manifest_path, validate_windows_component, check_components, check_characters,
  ensure_path_beneath, climbs, render, contains, windows_characters, max_windows_path,
  is_windows_reserved_base, has_drive,
}
use transferly.Safety.Confine.{
  join_path-accepted, ensure_path_beneath-below, ensure_path_beneath-accepted,
}
use transferly.Safety.Characters.{accepts-IsAllowed}
use transferly.Safety.Reserved.{
  is_windows_reserved_base-device_names, accepts-device_names, device_names,
}
use transferly.Protocol.Samples.{downloads}

abbrev report : Bytes
report = codes "docs/report.txt"

report_accepted : accepts report ≡ true
unfolding validate_manifest_path check_components validate_windows_component check_characters
    is_windows_reserved_base split has_prefix ends_with before runes utf16_length valid_utf8
    to_upper has_drive
report_accepted = refl

climb_refused : accepts (codes "../secret") ≡ false
unfolding validate_manifest_path check_components validate_windows_component check_characters
    is_windows_reserved_base split has_prefix ends_with before runes utf16_length valid_utf8
    to_upper has_drive
climb_refused = refl

device_refused : accepts (codes "docs/com1.txt") ≡ false
unfolding validate_manifest_path check_components validate_windows_component check_characters
    is_windows_reserved_base split has_prefix ends_with before runes utf16_length valid_utf8
    to_upper has_drive
device_refused = refl

downloads-IsPlain : All IsPlain downloads
downloads-IsPlain = ((λ h. cc, λ h. cc, λ h. cc), ((λ h. cc, λ h. cc, λ h. cc), tt))

join_path-accepted_example :
    (join_path downloads report ≡ downloads ++ split b'/' report) × All IsPlain (split b'/' report)
join_path-accepted_example = join_path-accepted downloads report downloads-IsPlain report_accepted

beneath : ensure_path_beneath downloads (join_path downloads report) ≡ ok tt
unfolding ensure_path_beneath join_path clean rel split utf16_length join
beneath = refl

short : utf16_length (render (join_path downloads report)) ≤ max_windows_path
unfolding join_path clean split utf16_length join
short = omega arith

ensure_path_beneath-accepted_example :
    ensure_path_beneath downloads (join_path downloads report) ≡ ok tt
ensure_path_beneath-accepted_example =
    ensure_path_beneath-accepted downloads report downloads-IsPlain report_accepted short

ensure_path_beneath-below_example :
    (rest : FilePath) × (clean (join_path downloads report) ≡ clean downloads ++ rest)
    × (climbs rest ≡ false)
ensure_path_beneath-below_example =
    ensure_path_beneath-below downloads (join_path downloads report) beneath

abbrev slash : ℕ
slash = b'/'

accepts-IsAllowed_example :
    (32 ≤ slash) × (slash ≢ 127) × (contains windows_characters slash ≡ true → slash ≡ b'/')
accepts-IsAllowed_example = accepts-IsAllowed report slash report_accepted refl

accepts-device_names_example :
    All (λ c. any (same (to_upper (before b'.' c))) device_names ≡ false) (split b'/' report)
accepts-device_names_example = accepts-device_names report report_accepted

is_windows_reserved_base-device_names_example :
    is_windows_reserved_base (codes "LPT9") ≡ any (same (codes "LPT9")) device_names
is_windows_reserved_base-device_names_example = is_windows_reserved_base-device_names (codes "LPT9")
