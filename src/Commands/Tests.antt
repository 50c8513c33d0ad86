-- ===== src/Commands/Tests.antt =====
-- Runs of the command line, and its theorems at typed lines.
use transferly.Prelude.{◌≡◌, ◌↔◌, refl, true, false, [], ◌∷◌, List, some, Bytes, codes, map, All}
use transferly.Text.Split.{join}
use transferly.Commands.{ends_line, parse_path_arguments}
use transferly.Commands.Arguments.{quote, IsQuotable, parse_path_arguments-quotes}
use transferly.Commands.Dispatch.{answer, SaysYes, handle_line, handle_line-confirms}

abbrev paths : List Bytes
paths = codes "my notes" ∷ codes "b" ∷ []

paths-IsQuotable : All IsQuotable paths
unfolding ends_line
paths-IsQuotable = (
  (λ h. cc, (refl, (refl, (refl, (refl, (refl, (refl, (refl, (refl, tt))))))))),
  ((λ h. cc, (refl, tt)), tt),
)

parse_path_arguments-quotes_example :
    parse_path_arguments (join b' ' (map quote paths)) ≡ some paths
parse_path_arguments-quotes_example = parse_path_arguments-quotes paths (λ h. cc) paths-IsQuotable

handle_line-confirms_example :
    (handle_line true false (codes "yes") ≡ answer true) ↔ ((true ≡ true) × SaysYes (codes "yes"))
handle_line-confirms_example = handle_line-confirms true false (codes "yes")
