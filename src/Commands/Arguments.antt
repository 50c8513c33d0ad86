-- ===== src/Commands/Arguments.antt =====
-- Paths that the user quotes reach the program unchanged.
use transferly.Prelude.{
  ◌≡◌, ◌≢◌, refl, ap, ◌∙◌, false, ◌||◌, List, [], ◌∷◌, ◌++◌, some, Bytes, same_iff, arith, ◌==◌,
  All, map, append-nil, append_assoc,
}
use transferly.Text.Split.{join}
use transferly.Commands.{
  quote_mark, is_blank, ends_line, between, after_quote, quoted, scan, some_paths,
  parse_path_arguments,
}

abbrev pub quote : Bytes → Bytes
quote path = quote_mark ∷ (path ++ quote_mark ∷ [])

-- A path that can stand between quotes: no Windows file name holds a quote or an end of line.
abbrev pub IsQuotable : Bytes → Type 0
IsQuotable path = (path ≢ []) × All (λ c. (c == quote_mark || ends_line c) ≡ false) path

scan-quoted :
    (path word : Bytes) (paths : List Bytes) (s : Bytes)
    → All (λ c. (c == quote_mark || ends_line c) ≡ false) path
    → word ++ path ≢ []
    → scan (quoted word) paths (path ++ quote_mark ∷ s)
      ≡ scan after_quote (paths ++ (word ++ path) ∷ []) s
unfolding scan
scan-quoted [] word paths s fine n =
    let same_word = append-nil word in
    rw same_word (ground (arith, same_iff word [], rw same_word at n))
scan-quoted (c ∷ path) word paths s fine n =
    let longer = append_assoc word (c ∷ []) path in
    ground (
      arith,
      scan-quoted path (word ++ c ∷ []) paths s fine.1 (rw longer n),
      ap (λ (w : Bytes). scan after_quote (paths ++ w ∷ []) s) longer,
    )

scan-quotes :
    (path : Bytes) (rest paths : List Bytes)
    → All IsQuotable (path ∷ rest)
    → scan between paths (join b' ' (map quote (path ∷ rest))) ≡ some (paths ++ path ∷ rest)
unfolding join scan is_blank
scan-quotes path [] paths fine = scan-quoted path [] paths [] fine.0.1 fine.0.0
scan-quotes path (q ∷ rest) paths fine = rw (append_assoc path (quote_mark ∷ [])) (
    scan-quoted path [] paths _ fine.0.1 fine.0.0
    ∙ scan-quotes q rest (paths ++ path ∷ []) fine.1
    ∙ ap some (append_assoc paths (path ∷ []) (q ∷ rest)))

some_paths-cons : (paths : List Bytes) → paths ≢ [] → some_paths (some paths) ≡ some paths
unfolding some_paths
some_paths-cons [] h = absurd (h refl)
some_paths-cons (p ∷ paths) h = refl

-- Any non-empty list of paths that can stand between quotes, each quoted and joined by blanks, is
-- read back as that list.
pub parse_path_arguments-quotes :
    (paths : List Bytes)
    → paths ≢ []
    → All IsQuotable paths
    → parse_path_arguments (join b' ' (map quote paths)) ≡ some paths
unfolding parse_path_arguments
parse_path_arguments-quotes [] n fine = absurd (n refl)
parse_path_arguments-quotes (path ∷ rest) n fine = rw (scan-quotes path rest [] fine)
