-- ===== src/Tasks/Files/Answer.antt =====
-- What a filesystem task answers.
use goexpose.Common.{
  Bool, Bool-cases, Error, List, String, false, inl, inr, none, refl, some, true, ◌==◌, ◌≡◌, ◌⊎◌,
  map, ok,
}
use goexpose.Dict.{Dict, insert, lookup}
use goexpose.Request.{Request}
use goexpose.Response.{
  Response, add_value, new_response, responses, set_error, set_result, set_status, status_ok,
}
use goexpose.Response.Keys.{value}
use goexpose.Tasks.Files.{
  FileSystem, FilesystemConfig, contents_of, entry, failed, failed_output, file_response, listing,
  locate, missing, run, send_raw, serve,
}
use goexpose.Text.{trim_space}
use goexpose.Utils.{Interpolate}
use goexpose.Value.{Bytes, Value, error, str}

-- The statuses of a filesystem task, with what comes with each: 200 with a result and no error, or
-- with raw contents; 404 with neither; 500 with the error and no result.
pub data Serves (r : Response) : Type 0 where
  found :
      (answer : Value)
      → r.status ≡ 200
      → value "result" r ≡ some answer
      → value "error" r ≡ none
      → Serves r
  raw : (contents : Bytes) → r.status ≡ 200 → r.raw ≡ some contents → Serves r
  absent : r.status ≡ 404 → value "result" r ≡ none → value "error" r ≡ none → Serves r
  broken :
      (e : Error)
      → r.status ≡ 500
      → value "result" r ≡ none
      → value "error" r ≡ some (error e)
      → Serves r

failed-Serves : (e : Error) → Serves (failed e)
unfolding set_error set_status new_response add_value insert lookup
failed-Serves e = broken e refl refl refl

failed_output-Serves : (e : Error) → Serves (failed_output e)
unfolding set_error set_status new_response add_value insert lookup
failed_output-Serves e = broken e refl refl refl

missing-Serves : Serves missing
unfolding set_status new_response add_value insert lookup
missing-Serves = absent refl refl refl

done-Serves : (v : Value) → Serves (set_result v (new_response status_ok))
unfolding set_result set_status new_response add_value insert lookup
done-Serves v = found v refl refl refl

named-Serves :
    (v name : Value) → Serves (add_value "filename" name (set_result v (new_response status_ok)))
unfolding set_result set_status new_response add_value insert lookup
named-Serves v name = found v refl refl refl

raw-Serves : (contents : Bytes) → Serves (send_raw contents)
unfolding set_status new_response add_value
raw-Serves contents = raw contents refl refl

module _ {W : Type 0} (interpolate : Interpolate) (fs : FileSystem W) where
  listing-Serves :
      (full : String) (items : Error ⊎ List (String × Bool))
      → Serves (listing interpolate fs full items)
  listing-Serves full (inl e) = failed-Serves e
  listing-Serves full (inr items) = done-Serves (responses (map (entry interpolate fs full) items))

  contents-Serves :
      (full : String) (contents : Bytes) (output : Error ⊎ String)
      → Serves (contents_of interpolate fs full contents output)
  contents-Serves full contents (inl e) = failed_output-Serves e
  contents-Serves full contents (inr output) =
      elim (Bool-cases (trim_space (fs.lower output) == "raw")) [
        | inl asked ↦ rw asked (raw-Serves contents)
        | inr other ↦ rw other (named-Serves (str (fs.base64 contents)) (str (fs.file_of full)))
      ]

  file-Serves :
      (f : FilesystemConfig) (vars : Dict Value) (full : String) (contents : Error ⊎ Bytes)
      → Serves (file_response interpolate fs f vars full contents)
  file-Serves f vars full (inl e) = failed-Serves e
  file-Serves f vars full (inr contents) = contents-Serves full contents (interpolate f.output vars)

  serve-Serves :
      (f : FilesystemConfig) (vars : Dict Value) (full : String) (x : Error ⊎ Bool) (w : W)
      → Serves (serve interpolate fs f vars full x w).0
  unfolding serve
  serve-Serves f vars full (inl e) w = missing-Serves
  serve-Serves f vars full (inr true) w = elim (Bool-cases f.index) [
    | inl shown ↦ rw shown (listing-Serves full (fs.read_dir full w).0)
    | inr hidden ↦ rw hidden missing-Serves
  ]
  serve-Serves f vars full (inr false) w = file-Serves f vars full (fs.read_file full w).0

  locate-Serves :
      (f : FilesystemConfig) (vars : Dict Value) (file directory : Error ⊎ String) (w : W)
      → Serves (locate interpolate fs f vars file directory w).0
  unfolding locate
  locate-Serves f vars (inl e) directory w = failed-Serves e
  locate-Serves f vars (inr file) (inl e) w = failed-Serves e
  locate-Serves f vars (inr file) (inr directory) w =
      let full = fs.join directory file in
      serve-Serves f vars full (fs.stat full w).0 (fs.stat full w).1

  -- Whatever the templates and the file system do, a filesystem task does not panic: it answers 200
  -- with a result and no error or with raw contents, 404 with neither a result nor an error, or 500
  -- with the error and no result.
  pub filesystem_run-Serves :
      (f : FilesystemConfig) (r : Request) (vars : Dict Value) (w : W)
      → (response : Response) × ((run interpolate fs f r vars w).0 ≡ ok response) × Serves response
  unfolding run
  filesystem_run-Serves f r vars w =
      let file = interpolate f.file vars in
      let directory = interpolate f.directory vars in
      (
        (locate interpolate fs f vars file directory w).0,
        refl,
        locate-Serves f vars file directory w,
      )
