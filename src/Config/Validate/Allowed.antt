-- ===== src/Config/Validate/Allowed.antt =====
-- What the values that pkg/config/v1/validation and pkg/config/v1/value_source.go accept look like,
-- written out without the checks.
use cnfrp.Common.{
  ◌≡◌, ◌≢◌, ◌↔◌, ◌⊎◌, inl, inr, refl, sym, ap, subst, Bool, true, false, Option, none, some, List,
  [], ◌∷◌, String, ◌==◌, string_eq, str_eq_iff, OneOf, any_iff, any, eqb, eqb_iff, All, arith,
  Bool-cases,
}
use cnfrp.Common.Bytes.{Text, text_eq, text_beq_iff}
use cnfrp.Common.Dict.{Dict, get}
use cnfrp.Config.Options.{TlsConfig, LogConfig}
use cnfrp.Config.ValueSource.{
  FileSource, ExecEnvVar, ExecSource, ValueSource, UnsafeFeatures, is_allowed, validate_file,
  validate_env, validate_exec, validate_source, file_required, exec_required,
}
use cnfrp.Config.Validate.{contains, every, validate_log, validate_tls_files, supported_log_levels}

pub contains_iff : (xs : List String) (s : String) → (contains xs s ≡ true) ↔ OneOf xs s
unfolding contains
contains_iff xs s = any_iff xs s

pub every_iff : (xs subset : List String) → (every xs subset ≡ true) ↔ All (λ s. OneOf xs s) subset
unfolding every
every_iff xs [] = ((λ h. tt), (λ h. refl))
every_iff xs (s ∷ rest) = ground (arith, contains_iff xs s, every_iff xs rest)

-- TLS is off, or both of its files are named
abbrev pub TlsFiles : Option TlsConfig → Type 0
TlsFiles none = Unit
TlsFiles (some tls) = (tls.cert_file ≢ "") × (tls.key_file ≢ "")

pub validate_tls_files-TlsFiles :
    (tls : Option TlsConfig) → (validate_tls_files tls ≡ none) ↔ TlsFiles tls
unfolding validate_tls_files
validate_tls_files-TlsFiles none = ((λ h. tt), (λ h. refl))
validate_tls_files-TlsFiles (some tls) =
    ground (arith, str_eq_iff tls.cert_file "", str_eq_iff tls.key_file "")

pub log_iff :
    (c : LogConfig)
    → (validate_log c ≡ none) ↔ OneOf ("trace" ∷ "debug" ∷ "info" ∷ "warn" ∷ "error" ∷ []) c.level
unfolding validate_log
log_iff c = ground (arith, contains_iff supported_log_levels c.level)

-- a file that is named
abbrev pub NamedFile : Option FileSource → Type 0
NamedFile none = ⊥
NamedFile (some f) = f.path ≢ []

-- a variable has a name without an equals sign
abbrev pub NamedVar : ExecEnvVar → Type 0
NamedVar v = (v.name ≢ []) × All (λ c. c ≢ b'=') v.name

-- a command that is named, with named variables
abbrev pub NamedCommand : Option ExecSource → Type 0
NamedCommand none = ⊥
NamedCommand (some e) = (e.command ≢ []) × All NamedVar e.env

no_equals_iff : (t : Text) → (any (λ c. eqb c b'=') t ≡ false) ↔ All (λ c. c ≢ b'=') t
no_equals_iff [] = ((λ h. tt), (λ h. refl))
no_equals_iff (c ∷ cs) = ground (arith, eqb_iff c b'=', no_equals_iff cs)

env_iff : (vs : List ExecEnvVar) → (validate_env vs ≡ none) ↔ All NamedVar vs
unfolding validate_env
env_iff [] = ((λ h. tt), (λ h. refl))
env_iff (v ∷ vs) = ground (arith, text_beq_iff v.name [], no_equals_iff v.name, env_iff vs)

file_iff : (f : Option FileSource) → (validate_file f ≡ none) ↔ NamedFile f
unfolding validate_file
file_iff none = ground arith
file_iff (some f) = ground (arith, text_beq_iff f.path [])

exec_iff : (e : Option ExecSource) → (validate_exec e ≡ none) ↔ NamedCommand e
unfolding validate_exec
exec_iff none = ground arith
exec_iff (some e) = ground (arith, text_beq_iff e.command [], env_iff e.env)

-- A source: a file that is named, or a command that is named.
abbrev pub NamedSource : ValueSource → Type 0
NamedSource v = ((v.type ≡ "file") × NamedFile v.file) ⊎ ((v.type ≡ "exec") × NamedCommand v.exec)

given_file :
    (f : Option FileSource)
    → ((elim f [ none ↦ some file_required | some g ↦ validate_file (some g) ]) ≡ none)
      ↔ NamedFile f
given_file none = ground arith
given_file (some g) = file_iff (some g)

given_command :
    (e : Option ExecSource)
    → ((elim e [ none ↦ some exec_required | some g ↦ validate_exec (some g) ]) ≡ none)
      ↔ NamedCommand e
given_command none = ground arith
given_command (some g) = exec_iff (some g)

file_not_exec : (s : String) → s ≡ "file" → s ≢ "exec"
file_not_exec s h k =
    let yes : (s == "exec") ≡ true = (str_eq_iff s "exec").1 k in
    let no : (s == "exec") ≡ false = subst (λ x. (x == "exec") ≡ false) (sym h) refl in cc

pub source_iff : (v : ValueSource) → (validate_source (some v) ≡ none) ↔ NamedSource v
unfolding validate_source
source_iff v = elim (Bool-cases (v.type == "file")) [
  | inl e ↦
      let is_file : v.type ≡ "file" = (str_eq_iff v.type "file").0 e in
      let not_exec : v.type ≢ "exec" = file_not_exec v.type is_file in
      rw (validate_source, e)
        (
          (λ h. inl (is_file, (given_file v.file).0 h)),
          (λ n. elim n [ inl (t, f) ↦ (given_file v.file).1 f | inr (t, g) ↦ absurd (not_exec t) ]),
        )
  | inr e ↦ ground (arith, str_eq_iff v.type "file", str_eq_iff v.type "exec", given_command v.exec)
]

-- A feature is allowed: there is a table of features, and it says so.
abbrev pub Allowed : UnsafeFeatures → String → Type 0
Allowed features name =
    (table : Dict String Bool) × (features ≡ some table) × (get name table ≡ some true)

get_true : (o : Option Bool) → (elim o [ none ↦ false | some b ↦ b ]) ≡ true → o ≡ some true
get_true none h = cc
get_true (some b) h = cc

pub is_allowed-Allowed :
    (features : UnsafeFeatures) (name : String)
    → (is_allowed features name ≡ true) ↔ Allowed features name
unfolding is_allowed
is_allowed-Allowed none name = ((λ h. cc), (λ (d, e, h). cc))
is_allowed-Allowed (some table) name = (
  (λ h. (table, refl, get_true (get name table) h)),
  (λ (d, e, h).
      let same : d ≡ table = sym (ap (λ o. elim o [ none ↦ table | some t ↦ t ]) e) in
      let found : get name table ≡ some true = subst (λ t. get name t ≡ some true) same h in
      rw (is_allowed, found) refl),
)
