-- ===== src/Commands.antt =====
-- internal/terminal/commands.go and parsePathArguments of internal/terminal/manifest.go: how a
-- typed line becomes a command, an answer to the verification code, or an answer to a waiting offer.
pub mod Arguments
pub mod Dispatch
mod Tests
use transferly.Prelude.{
  ℕ, zero, suc, ◌+◌, ◌≡◌, Bool, true, false, not, ◌&&◌, ◌||◌, List, [], ◌∷◌, ◌++◌, Option, none,
  some, Bytes, codes, same, arith, ltb, leb, ◌==◌, if◌then◌else◌, any, length, last?,
}
use transferly.Text.Space.{trim_space, to_lower}

abbrev quote_mark : ℕ
quote_mark = b'"'

is_blank : ℕ → Bool
is_blank c = c == b' ' || c == b'\t'

unfoldable pub ends_line : ℕ → Bool
ends_line c = c == b'\r' || c == b'\n'

-- Where the index of parsePathArguments stands: between two arguments, inside quotes, right behind
-- a closing quote, or inside a plain argument; with the bytes since `start`.
pub data Place : Type 0 where
  between after_quote : Place
  quoted plain : Bytes → Place

-- `none` is the `false` of a malformed line.
scan : Place → List Bytes → Bytes → Option (List Bytes)
scan between paths [] = some paths
scan after_quote paths [] = some paths
scan (quoted word) paths [] = none
scan (plain word) paths [] = some (paths ++ word ∷ [])
scan between paths (c ∷ s) =
    let skip = scan between paths s in
    let open_quote = scan (quoted []) paths s in
    let start = scan (plain (c ∷ [])) paths s in
    if is_blank c
    then skip
    else if c == quote_mark
    then open_quote
    else if ends_line c
    then none
    else start
scan after_quote paths (c ∷ s) =
    let skip = scan between paths s in if is_blank c then skip else none
scan (quoted word) paths (c ∷ s) =
    let close = scan after_quote (paths ++ word ∷ []) s in
    let more = scan (quoted (word ++ c ∷ [])) paths s in
    if c == quote_mark
    then (if same word [] then none else close)
    else if ends_line c
    then none
    else more
scan (plain word) paths (c ∷ s) =
    let close = scan between (paths ++ word ∷ []) s in
    let more = scan (plain (word ++ c ∷ [])) paths s in
    if is_blank c then close else if c == quote_mark || ends_line c then none else more

-- `return paths, len(paths) > 0`
some_paths : Option (List Bytes) → Option (List Bytes)
some_paths none = none
some_paths (some []) = none
some_paths (some (p ∷ paths)) = some (p ∷ paths)

unfoldable pub parse_path_arguments : Bytes → Option (List Bytes)
unfolding scan some_paths is_blank ends_line
parse_path_arguments argument = some_paths (scan between [] argument)

-- The text up to the first blank, and the text behind it.
cut : Bytes → Bytes × Bytes
unfolding is_blank
cut [] = ([], [])
cut (c ∷ s) = let (word, rest) = cut s in if is_blank c then ([], s) else (c ∷ word, rest)

-- The command as the runes of its lower-case form.
unfoldable pub split_command : Bytes → List ℕ × Bytes
unfolding cut
split_command line = let (word, rest) = cut line in (to_lower word, trim_space rest)

-- `argument[1 : len(argument)-1]` behind the first byte.
drop_last : Bytes → Bytes
drop_last [] = []
drop_last (c ∷ []) = []
drop_last (c ∷ d ∷ s) = c ∷ drop_last (d ∷ s)

-- An argument in quotes is taken as it stands between them.
unquote : Bytes → Option Bytes
unfolding drop_last ends_line
unquote [] = none
unquote (c ∷ []) = if c == quote_mark || ends_line c then none else some (c ∷ [])
unquote (c ∷ d ∷ s) =
    if c == quote_mark
      && same (elim (last? (d ∷ s)) [ none ↦ [] | some e ↦ e ∷ [] ]) (quote_mark ∷ [])
    then some (drop_last (d ∷ s))
    else if any (λ e. e == quote_mark || ends_line e) (c ∷ d ∷ s)
    then none
    else some (c ∷ d ∷ s)

-- `return argument, argument != ""`
non_empty : Option Bytes → Option Bytes
non_empty none = none
non_empty (some []) = none
non_empty (some (c ∷ s)) = some (c ∷ s)

unfoldable pub one_path_argument : Bytes → Option Bytes
unfolding unquote non_empty
one_path_argument argument = non_empty (unquote (trim_space argument))
