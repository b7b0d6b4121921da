-- ===== src/Config/ValueSource.antt =====
-- pkg/config/v1/value_source.go: a value that is read from a file or from a command's output.
-- `read_file` is os.ReadFile; `output` runs the command in the environment that it is given, where
-- no entry means that of the process. An error is `inl`. pkg/policy/security/unsafe.go: the unsafe
-- features that are allowed.
use cnfrp.Common.{
  Bool, true, false, Option, none, some, List, [], ◌∷◌, ◌++◌, map, ◌==◌, ◌⊎◌, inl, inr,
  if◌then◌else◌, any, String, string_eq, eqb,
}
use cnfrp.Common.Bytes.{Text, text_eq}
use cnfrp.Common.Dict.{Dict, get, put}
use cnfrp.Config.Bandwidth.{trim_space}

pub record FileSource : Type 0 where
  pub path : Text

pub record ExecEnvVar : Type 0 where
  pub name : Text
  pub value : Text

pub record ExecSource : Type 0 where
  pub command : Text
  pub args : List Text
  pub env : List ExecEnvVar

pub record ValueSource : Type 0 where
  pub type : String
  pub file : Option FileSource
  pub exec : Option ExecSource

-- the texts of `errors.New` and `fmt.Errorf`
pub data ValueError : Type 0 where
  nil_source : ValueError
  file_required : ValueError
  exec_required : ValueError
  unsupported_type : String → ValueError
  nil_file : ValueError
  empty_path : ValueError
  nil_exec : ValueError
  empty_command : ValueError
  empty_env_name : ValueError
  equals_in_env_name : ValueError
  not_read : Text → ValueError
  not_executed : Text → ValueError

unfoldable pub validate_file : Option FileSource → Option ValueError
validate_file none = some nil_file
validate_file (some f) = if f.path == [] then some empty_path else none

-- the loop over the environment
unfoldable pub validate_env : List ExecEnvVar → Option ValueError
validate_env [] = none
validate_env (v ∷ rest) =
    let later = validate_env rest in
    if v.name == []
    then some empty_env_name
    else if any (λ c. eqb c b'=') v.name
    then some equals_in_env_name
    else later

unfoldable pub validate_exec : Option ExecSource → Option ValueError
unfolding validate_env
validate_exec none = some nil_exec
validate_exec (some e) = if e.command == [] then some empty_command else validate_env e.env

unfoldable pub validate_source : Option ValueSource → Option ValueError
unfolding validate_file validate_exec
validate_source none = some nil_source
validate_source (some v) =
    if v.type == "file"
    then elim v.file [ none ↦ some file_required | some f ↦ validate_file (some f) ]
    else if v.type == "exec"
    then elim v.exec [ none ↦ some exec_required | some e ↦ validate_exec (some e) ]
    else some (unsupported_type v.type)

module _ (read_file : Text → Option Text) (environ : List Text)
    (output : Text → List Text → List Text → Option Text) where
  unfoldable pub resolve_file : Option FileSource → ValueError ⊎ Text
  resolve_file none = inl nil_file
  resolve_file (some f) = elim (validate_file (some f)) [
    | some err ↦ inl err
    | none ↦ elim (read_file f.path) [
      | none ↦ inl (not_read f.path)
      | some content ↦ inr (trim_space content)
    ]
  ]

  -- `cmd.Env`
  unfoldable pub command_env : List ExecEnvVar → List Text
  command_env [] = []
  command_env (v ∷ rest) =
      environ ++ map (λ (x : ExecEnvVar). x.name ++ (b'=' ∷ x.value)) (v ∷ rest)

  unfoldable pub resolve_exec : Option ExecSource → ValueError ⊎ Text
  unfolding command_env
  resolve_exec none = inl nil_exec
  resolve_exec (some e) = elim (validate_exec (some e)) [
    | some err ↦ inl err
    | none ↦ elim (output e.command e.args (command_env e.env)) [
      | none ↦ inl (not_executed e.command)
      | some content ↦ inr (trim_space content)
    ]
  ]

  unfoldable pub resolve : Option ValueSource → ValueError ⊎ Text
  unfolding resolve_file resolve_exec
  resolve none = inl nil_source
  resolve (some v) = elim (validate_source (some v)) [
    | some err ↦ inl err
    | none ↦
        if v.type == "file"
        then resolve_file v.file
        else if v.type == "exec"
        then resolve_exec v.exec
        else inl (unsupported_type v.type)
  ]

-- `none` is the nil pointer
abbrev pub UnsafeFeatures : Type 0
UnsafeFeatures = Option (Dict String Bool)

allow_all : List String → Dict String Bool → Dict String Bool
allow_all [] features = features
allow_all (f ∷ rest) features = allow_all rest (put f true features)

unfoldable pub new_unsafe_features : List String → UnsafeFeatures
unfolding allow_all
new_unsafe_features allowed = some (allow_all allowed [])

unfoldable pub is_allowed : UnsafeFeatures → String → Bool
is_allowed none feature = false
is_allowed (some features) feature = elim (get feature features) [ none ↦ false | some b ↦ b ]
