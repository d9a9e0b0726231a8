-- ===== src/Formats/Tests.antt =====
-- The formats at concrete inputs.
use goexpose.Formats.Lines.{format_lines_iff}
use goexpose.Text.Split.{Lacks}
use goexpose.Value.{arr, strings}
use goexpose.Common.{All, List, String, [], inr, ◌≢◌, none, ok, some, refl, ◌≡◌, ◌↔◌, ◌∷◌}
use goexpose.Dict.{Dict, lookup}
use goexpose.Formats.{
  FormatFunc, format, format_lines, format_text, formats_delimiter, verify_format, verify_parts,
}
use goexpose.Formats.Picking.{Picks, format-verify_format}
use goexpose.Formats.Verify.{IsKnown, nonempty, verify_format_iff, with_text}
use goexpose.Text.{join, split}

abbrev registry : Dict FormatFunc
registry = ("text", format_text) ∷ ("lines", format_lines) ∷ []

verifies : verify_format registry "lines" ≡ ok "lines|text"
unfolding verify_format verify_parts split join lookup
verifies = refl

texts : lookup "text" registry ≡ some format_text
unfolding lookup
texts = refl

verify_format_iff_example : (verify_format registry "lines|" ≡ ok "lines|text") ↔ (
    All (IsKnown registry) (nonempty (split formats_delimiter "lines|"))
    × ("lines|text"
        ≡ join formats_delimiter (with_text (nonempty (split formats_delimiter "lines|")))))
verify_format_iff_example = verify_format_iff registry "lines|" "lines|text"

format-verify_format_example :
    Picks registry "a b" (split formats_delimiter "lines|text") (format registry "a b" "lines|text")
    × ((format registry "a b" "lines|text").error ≡ none)
format-verify_format_example =
    format-verify_format registry "lines" "lines|text" "a b" texts verifies

abbrev two_lines : List String
two_lines = "a" ∷ "b" ∷ []

format_lines_iff_example :
    (format_lines "a\nb" ≡ inr (arr (strings two_lines)))
    ↔ ((join "\n" two_lines ≡ "a\nb") × (two_lines ≢ []) × All (Lacks "\n") two_lines)
format_lines_iff_example = format_lines_iff "a\nb" two_lines
