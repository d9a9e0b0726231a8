-- ===== src/Response/Tests.antt =====
-- Responses at concrete inputs.
use goexpose.Response.Abstract.{new_page, page, page-perform_all-new_response, effect_all}
use goexpose.Common.{[], inr, ◌∷◌, ◌≡◌}
use goexpose.Response.{Response, new_response, set_result, status_ok}
use goexpose.Response.Consistency.{result, strip, perform_all}
use goexpose.Response.Writing.{Codec}
use goexpose.Value.{str}

abbrev response : Response
response = set_result (str "done") (new_response status_ok)

-- Every value is written as "{}", and indented with a space before it.
abbrev codec : Codec
codec = record {
  marshal = λ v. inr (123 ∷ 125 ∷ []);
  marshal_indent = λ v. inr (32 ∷ 123 ∷ 125 ∷ []);
  compact = λ b. inr (123 ∷ 125 ∷ []);
  base64 = λ b. b;
}

page-perform_all-new_response_example :
    page (perform_all (result (str "done") ∷ strip ∷ []) (new_response 200))
    ≡ effect_all (result (str "done") ∷ strip ∷ []) (new_page 200)
page-perform_all-new_response_example =
    page-perform_all-new_response 200 (result (str "done") ∷ strip ∷ [])
