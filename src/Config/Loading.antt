-- ===== src/Config/Loading.antt =====
-- `NewConfigFromFilename` of config.go, and the table of file formats that its `init` fills.
use goexpose.Common.{
  outcome, Error, [], Result, String, err, if◌then◌else◌, inl, inr, new, ok, ◌==◌, ◌>>=◌, ◌∷◌, ◌⊎◌,
  ◌≡◌, arith,
}
use goexpose.Config.{Config, new_config}
use goexpose.Dict.{Dict}
use goexpose.Value.{Bytes}

-- `ioutil.ReadFile`, `filepath.Abs(filepath.Dir(filename))`, `json.Unmarshal` into a `Config`, and
-- `yaml.YAMLToJSON`.
pub record Files : Type 0 where
  pub read_file : String → Error ⊎ Bytes
  pub absolute_directory : String → Error ⊎ String
  pub unmarshal_json : Bytes → Config → Error ⊎ Config
  pub yaml_to_json : Bytes → Error ⊎ Bytes

-- An `unmarshalFunc`, returning the target that it fills.
abbrev pub UnmarshalFunc : Type 0
UnmarshalFunc = Bytes → Config → Error ⊎ Config

unfoldable pub unmarshal_yaml : Files → UnmarshalFunc
unmarshal_yaml f body target = elim (f.yaml_to_json body) [
  | inl e ↦ inl e
  | inr response ↦ f.unmarshal_json response target
]

unfoldable pub config_formats : Files → Dict UnmarshalFunc
unfolding unmarshal_yaml
config_formats f = ("json", f.unmarshal_json) ∷ ("yaml", unmarshal_yaml f) ∷ []

-- The loop over the table: the first entry of that name decodes, and the loop ends.
unfoldable pub decode_with : Dict UnmarshalFunc → String → Bytes → Config → Result Config
decode_with [] format body target = err (new "file format not found")
decode_with ((name, unmarshal) ∷ rest) format body target =
    if name == format then outcome (unmarshal body target) else decode_with rest format body target

unfoldable pub new_config_from_filename : Files → String → String → Result Config
unfolding decode_with config_formats
new_config_from_filename f filename format = do
  body ← outcome (f.read_file filename)
  config ← decode_with (config_formats f) format body new_config
  directory ← outcome (f.absolute_directory filename)
  ok (record config { directory = directory })

-- The files of which YAML has been turned into JSON.
abbrev pub converted : Files → Files
converted f = record f {
  read_file = λ filename. elim (f.read_file filename) [ inl e ↦ inl e | inr b ↦ f.yaml_to_json b ];
}

-- Loading a YAML file is loading the JSON that it converts to, errors included.
pub new_config_from_filename-yaml :
    (f : Files) (filename : String)
    → new_config_from_filename f filename "yaml"
      ≡ new_config_from_filename (converted f) filename "json"
unfolding new_config_from_filename
new_config_from_filename-yaml f filename = ground arith
