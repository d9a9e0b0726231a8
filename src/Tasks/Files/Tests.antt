-- ===== src/Tasks/Files/Tests.antt =====
-- The filesystem task at concrete inputs.
use goexpose.Common.{[], false, inr, none, ok, ◌∷◌, ◌≡◌}
use goexpose.Request.{Request}
use goexpose.Response.{Response}
use goexpose.Tasks.Files.{FileSystem, FilesystemConfig, run}
use goexpose.Tasks.Files.Answer.{Serves, filesystem_run-Serves}
use goexpose.Utils.{Interpolate}

abbrev plain : Interpolate
plain template vars = inr template

abbrev request : Request
request = record {
  method = "GET";
  path = "/";
  header = λ name. "";
  query = λ name. "";
  vars = [];
  body = none;
}

-- A file system where each path is a file with one byte.
abbrev files : FileSystem (Unit {0})
files = record {
  join = λ directory file. file;
  file_of = λ full. full;
  stat = λ full w. (inr false, w);
  read_dir = λ full w. (inr [], w);
  read_file = λ full w. (inr (65 ∷ []), w);
  base64 = λ contents. "QQ==";
  lower = λ text. text;
}

abbrev config : FilesystemConfig
config = record { file = "a.txt"; output = ""; directory = "/srv"; index = false }

filesystem_run-Serves_example :
    (response : Response) × ((run plain files config request [] tt).0 ≡ ok response)
    × Serves response
filesystem_run-Serves_example = filesystem_run-Serves plain files config request [] tt
