-- ===== src/Formats/Lines.antt =====
-- What `FormatLines` makes of a body.
use mathlib.Core.Path.{subst}
use goexpose.Common.{All, List, [], String, ap, inr, refl, sym, ◌≡◌, ◌↔◌, ◌≢◌, ◌∷◌, ◌∙◌}
use goexpose.Formats.{format_lines}
use goexpose.Text.{join, split}
use goexpose.Text.Split.{Lacks, join-split, split-Lacks, split-cons, split-join}
use goexpose.Value.{arr, strings}

strings_injective : (ps qs : List String) → strings ps ≡ strings qs → ps ≡ qs
strings_injective [] [] h = refl
strings_injective [] (q ∷ qs) h = cc
strings_injective (p ∷ ps) [] h = cc
strings_injective (p ∷ ps) (q ∷ qs) h =
    let first : p ≡ q = cc in let rest = strings_injective ps qs cc in λ i. first i ∷ rest i

split_back :
    (body : String) (lines : List String)
    → join "\n" lines ≡ body
    → lines ≢ []
    → All (Lacks "\n") lines
    → split "\n" body ≡ lines
split_back body [] e some plain = absurd (some refl)
split_back body (l ∷ ls) e some plain = ap (split "\n") (sym e) ∙ split-join "\n" l ls plain

-- The "lines" format gives exactly these lines for the body that they make with line breaks
-- between them, where there is at least one and none has a line break in it.
pub format_lines_iff :
    (body : String) (lines : List String)
    → (format_lines body ≡ inr (arr (strings lines)))
      ↔ ((join "\n" lines ≡ body) × (lines ≢ []) × All (Lacks "\n") lines)
unfolding format_lines
format_lines_iff body lines = (
  λ h.
      let same = strings_injective (split "\n" body) lines cc in
      let (first, more, e) = split-cons "\n" body in
      (
        ap (join "\n") (sym same) ∙ join-split "\n" body,
        λ none. cc (same, none, e),
        subst (All (Lacks "\n")) same (split-Lacks "\n" body),
      ),
  λ (e, some, plain). ap (λ ls. inr (arr (strings ls))) (split_back body lines e some plain),
)
