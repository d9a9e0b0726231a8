-- ===== src/Tasks/Files.antt =====
-- The filesystem task of tasks.go.
pub mod Answer
pub mod Tests
use goexpose.Common.{
  Bool, Error, List, [], Result, String, false, if◌then◌else◌, inl, inr, map, not, ok, outcome,
  true, ◌==◌, ◌>>=◌, ◌∷◌, ◌⊎◌, none, some,
}
use goexpose.Config.{TaskConfig}
use goexpose.Dict.{Dict}
use goexpose.Effect.{Call, Io}
use goexpose.Request.{Request}
use goexpose.Response.{
  Response, add_value, new_response, responses, set_error, set_result, set_status,
  status_internal_server_error, status_not_found, status_ok,
}
use goexpose.Tasks.{Tasker, task}
use goexpose.Tasks.Item.{blank}
use goexpose.Text.{trim_space}
use goexpose.Utils.{Interpolate}
use goexpose.Value.{Bytes, Value, bool, error, str}

pub record FilesystemConfig : Type 0 where
  pub file : String
  pub output : String
  pub directory : String
  pub index : Bool

abbrev pub new_config : FilesystemConfig
new_config = record { file = ""; output = ""; directory = ""; index = false }

unfoldable pub validate : FilesystemConfig → Result FilesystemConfig
validate f = ok (record f { file = trim_space f.file; directory = trim_space f.directory })

-- `filepath.Join`, the file of `filepath.Split`, `os.Stat` with `IsDir`, `ioutil.ReadDir` with the
-- name and `IsDir` of each item, `ioutil.ReadFile`, `EncodeToString` of base64 and `strings.ToLower`.
pub record FileSystem (W : Type 0) : Type 0 where
  pub join : String → String → String
  pub file_of : String → String
  pub stat : String → Call W Bool
  pub read_dir : String → Call W (List (String × Bool))
  pub read_file : String → Call W Bytes
  pub base64 : Bytes → String
  pub lower : String → String

-- What the task returns where a call fails, and where there is no file.
abbrev pub failed : Error → Response
failed e = set_error (error e) (set_status status_internal_server_error (new_response status_ok))

abbrev pub failed_output : Error → Response
failed_output e =
    set_status status_internal_server_error (set_error (error e) (new_response status_ok))

abbrev pub missing : Response
missing = set_status status_not_found (new_response status_ok)

abbrev pub send_raw : Bytes → Response
send_raw contents = record (new_response status_ok) { raw = some contents }

module _ {W : Type 0} (interpolate : Interpolate) (fs : FileSystem W) where
  abbrev pub entry : String → String × Bool → Response
  entry full item = add_value "is_dir" (bool item.1) (set_result (str (fs.join full item.0)) blank)

  abbrev pub listing : String → Error ⊎ List (String × Bool) → Response
  listing full (inl e) = failed e
  listing full (inr items) =
      set_result (responses (map (entry full) items)) (new_response status_ok)

  abbrev pub contents_of : String → Bytes → Error ⊎ String → Response
  contents_of full contents (inl e) = failed_output e
  contents_of full contents (inr output) =
      if trim_space (fs.lower output) == "raw"
      then send_raw contents
      else add_value "filename" (str (fs.file_of full))
          (set_result (str (fs.base64 contents)) (new_response status_ok))

  abbrev pub file_response : FilesystemConfig → Dict Value → String → Error ⊎ Bytes → Response
  file_response f vars full (inl e) = failed e
  file_response f vars full (inr contents) = contents_of full contents (interpolate f.output vars)

  -- After `os.Stat`.
  unfoldable pub serve : FilesystemConfig → Dict Value → String → Error ⊎ Bool → W → Response × W
  serve f vars full (inl e) w = (missing, w)
  serve f vars full (inr true) w =
      if not f.index
      then (missing, w)
      else let (items, w') = fs.read_dir full w in (listing full items, w')
  serve f vars full (inr false) w =
      let (contents, w') = fs.read_file full w in (file_response f vars full contents, w')

  unfoldable pub locate :
      FilesystemConfig → Dict Value → Error ⊎ String → Error ⊎ String → W → Response × W
  locate f vars (inl e) directory w = (failed e, w)
  locate f vars (inr filename) (inl e) w = (failed e, w)
  locate f vars (inr filename) (inr directory) w =
      let full = fs.join directory filename in
      let (found, w') = fs.stat full w in serve f vars full found w'

  unfoldable pub run : FilesystemConfig → Request → Dict Value → Io W Response
  run f r vars w =
      let (response, w') =
        locate f vars (interpolate f.file vars) (interpolate f.directory vars) w in
      (ok response, w')

  unfoldable pub filesystem_factory :
      (String → FilesystemConfig → Error ⊎ FilesystemConfig) → TaskConfig → Result (List (Tasker W))
  filesystem_factory unmarshal tc = do
    config ← outcome (unmarshal tc.config new_config)
    config' ← validate config
    ok (task (run config') ∷ [])
