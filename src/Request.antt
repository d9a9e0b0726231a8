-- ===== src/Request.antt =====
-- What the program reads of a `*http.Request`, and of the router's variables for it.
use goexpose.Common.{Error, Option, String}
use goexpose.Dict.{Dict}

pub record Request : Type 0 where
  pub method : String
  pub path : String
  -- `r.Header.Get`
  pub header : String → String
  -- `r.URL.Query().Get`
  pub query : String → String
  -- `mux.Vars(r)`
  pub vars : Dict String
  -- `r.Body` where it is not nil: what `ioutil.ReadAll` reads of it, and the error that it ends with
  pub body : Option (String × Option Error)
