-- ===== src/Tasks/Item/Answers.antt =====
-- The answer of a task whose items are chains of steps.
use goexpose.Common.{Error, List, Option, length, ok, refl, ◌≡◌}
use goexpose.Response.{new_response, status_ok}
use goexpose.Tasks.Item.{Item, blank, each, each-All, length-each, run_item}
use goexpose.Tasks.Item.Outcome.{Ends, IsSettled, run_item-IsSettled}
use goexpose.Tasks.Single.{Answers, finish, single_index, single_index-Finishes}
use goexpose.Value.{ℤ}

module _ {W A : Type 0} (steps : A → Item W (Unit {0})) where
  pub items-Answers :
      (xs : List A) (w : W) (e : Error) (s : Option ℤ) (i : ℤ)
      → ((x : A) → Ends (steps x))
      → single_index e s (length xs) ≡ ok i
      → Answers IsSettled s i
          (length xs)
          (finish i (each (λ x. run_item (steps x) blank) xs w).0 (new_response status_ok))
  items-Answers xs w e s i ends checked =
      let f = λ (x : A). run_item (steps x) blank in
      record {
        results = (each f xs w).0;
        each_item = each-All f IsSettled xs w (λ x w'. run_item-IsSettled (steps x) w' (ends x));
        count = length-each f xs w;
        finished = refl;
        finishes =
            single_index-Finishes e s (length xs) i (each f xs w).0 (new_response status_ok) checked
              (length-each f xs w);
      }
