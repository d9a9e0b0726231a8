-- ===== src/Tasks/Sample.antt =====
-- A request and an interpolation for the tests of the tasks.
use goexpose.Common.{[], inr, none}
use goexpose.Request.{Request}
use goexpose.Utils.{Interpolate}

abbrev pub plain : Interpolate
plain template vars = inr template

abbrev pub request : Request
request = record {
  method = "GET";
  path = "/";
  header = λ name. "";
  query = λ name. "";
  vars = [];
  body = none;
}
