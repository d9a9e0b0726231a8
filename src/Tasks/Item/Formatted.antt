-- ===== src/Tasks/Item/Formatted.antt =====
-- The end of an item whose output goes through `Format`: the formatted value with its format, or the
-- error of `Format`.
use goexpose.Common.{Error, Option, inl, none, some, refl, ◌≡◌}
use goexpose.Formats.{Formatted}
use goexpose.Response.{Response}
use goexpose.Tasks.Item.{Item, check, give_with}
use goexpose.Tasks.Item.Outcome.{Ends, IsDone, IsFresh, give_with-IsDone}
use goexpose.Tasks.Item.Rules.{fail-Ends, give_with-Ends}
use goexpose.Value.{str}

module _ {W : Type 0} where
  abbrev pub conclude : Formatted → Item W (Unit {0})
  conclude f = elim f.error [
    | none ↦ give_with f.value "format" (str f.format)
    | some e ↦ check (inl e)
  ]

  pub conclude-Ends : (f : Formatted) → Ends (conclude f)
  conclude-Ends f = go f.error
    where
      go :
          (o : Option Error)
          → Ends (elim o as (λ _. Item W (Unit {0})) [
            | none ↦ give_with f.value "format" (str f.format)
            | some e ↦ check (inl e)
          ])
      go none = give_with-Ends f.value "format" (str f.format) refl refl
      go (some e) = fail-Ends e

  pub conclude-IsDone :
      (f : Formatted) (r : Response) (w : W)
      → f.error ≡ none
      → IsFresh r
      → IsDone (conclude f r w).1
  unfolding give_with
  conclude-IsDone f r w e fresh =
      rw e (give_with-IsDone f.value "format" (str f.format) refl refl r fresh)
