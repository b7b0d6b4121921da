-- ===== src/Source/Store.antt =====
-- pkg/config/source/store.go: the source that the API changes, and that a file keeps. The calls of
-- the file system are arguments: each save is told which of its calls fails, if one does. Encoding
-- and decoding are parameters.

pub mod Keep
pub mod Reopen
pub mod Lookups
use cnfrp.Common.{
  Bool, true, false, Option, none, some, List, [], ◌∷◌, ◌==◌, if◌then◌else◌, is_some,
}
use cnfrp.Common.Bytes.{Text, text_eq}
use cnfrp.Common.Dict.{Dict, get, put, del}
use cnfrp.Source.{Configurer, BaseSource, Configs, values, new_base_source}

-- which call of a save fails
pub data Fault : Type 0 where
  mkdir_all open_file write sync close_file rename : Fault

-- the file at the path and the one at the path with `.tmp`
pub record Disk (F : Type 0) : Type 0 where
  pub file : Option F
  pub tmp : Option F

pub data StoreError : Type 0 where
  nil_config empty_name already_exists not_found persist_failed : StoreError

-- jsonx and the decoders of the configurations, R the raw text of one
pub record Codec (P V F R : Type 0) : Type 0 where
  pub marshal : List (Configurer P) × List (Configurer V) → Option F
  pub unmarshal : F → Option (List R × List R)
  pub decode_proxy : R → Option (Configurer P)
  pub decode_visitor : R → Option (Configurer V)

-- writing the bytes: through a temporary file, which is removed on an error after it was opened
unfoldable pub write_file : {F : Type 0} → Option Fault → F → Disk F → Bool × Disk F
write_file none bytes d = (true, record { file = some bytes; tmp = none })
write_file (some Fault.mkdir_all) bytes d = (false, d)
write_file (some Fault.open_file) bytes d = (false, d)
write_file (some Fault.write) bytes d = (false, record d { tmp = none })
write_file (some Fault.sync) bytes d = (false, record d { tmp = none })
write_file (some Fault.close_file) bytes d = (false, record d { tmp = none })
write_file (some Fault.rename) bytes d = (false, record d { tmp = none })

abbrev pub Saver : Type 0 → Type 0 → Type 0
Saver A F = Configs A → Bool × Disk F

abbrev pub Change : Type 0 → Type 0 → Type 0
Change A F = Option StoreError × (Configs A × Disk F)

abbrev pub Changed : Type 0 → Type 0 → Type 0 → Type 0
Changed P V F = Option StoreError × (BaseSource P V × Disk F)

pub data Call (P V : Type 0) : Type 0 where
  adds_proxy updates_proxy : Option (Configurer P) → Call P V
  removes_proxy : Text → Call P V
  adds_visitor updates_visitor : Option (Configurer V) → Call P V
  removes_visitor : Text → Call P V

-- one kind of configuration, with what saves a changed map
module _ {A F : Type 0} where
  -- the answer after the save of the map `m`, with the map to go back to
  unfoldable pub persisted : Bool × Disk F → Configs A → Configs A → Change A F
  persisted (true, d) m back = (none, (m, d))
  persisted (false, d) m back = (some persist_failed, (back, d))

  unfoldable pub add : Saver A F → Option (Configurer A) → Configs A → Disk F → Change A F
  add save none m d = (some nil_config, (m, d))
  add save (some c) m d =
      let m2 = put c.name c m in
      if c.name == []
      then (some empty_name, (m, d))
      else if is_some (get c.name m)
      then (some already_exists, (m, d))
      else persisted (save m2) m2 (del c.name m2)

  -- for a name that is there, with the configuration that it had
  unfoldable pub update_found : Saver A F → Configurer A → Configurer A → Configs A → Change A F
  update_found save old c m = let m2 = put c.name c m in persisted (save m2) m2 (put c.name old m2)

  unfoldable pub update : Saver A F → Option (Configurer A) → Configs A → Disk F → Change A F
  update save none m d = (some nil_config, (m, d))
  update save (some c) m d =
      if c.name == [] then (some empty_name, (m, d)) else elim (get c.name m) [
        | none ↦ (some not_found, (m, d))
        | some old ↦ update_found save old c m
      ]

  unfoldable pub remove_found : Saver A F → Configurer A → Text → Configs A → Change A F
  remove_found save old name m = let m2 = del name m in persisted (save m2) m2 (put name old m2)

  unfoldable pub remove : Saver A F → Text → Configs A → Disk F → Change A F
  remove save name m d = if name == [] then (some empty_name, (m, d)) else elim (get name m) [
    | none ↦ (some not_found, (m, d))
    | some old ↦ remove_found save old name m
  ]

unfoldable pub load_entries :
    {A R : Type 0} → (R → Option (Configurer A)) → List R → Configs A → Option (Configs A)
load_entries decode [] m = some m
load_entries decode (r ∷ rs) m = elim (decode r) [
  | none ↦ none
  | some c ↦ if c.name == [] then none else load_entries decode rs (put c.name c m)
]

module _ {P V F : Type 0} where
  abbrev pub with_proxies : BaseSource P V → Change P F → Changed P V F
  with_proxies s c = (c.0, (record s { proxies = c.1.0 }, c.1.1))

  abbrev pub with_visitors : BaseSource P V → Change V F → Changed P V F
  with_visitors s c = (c.0, (record s { visitors = c.1.0 }, c.1.1))

module _ {P V F R : Type 0} (codec : Codec P V F R) where
  unfoldable pub save_to_file : Option Fault → BaseSource P V → Disk F → Bool × Disk F
  save_to_file fault s d = elim (codec.marshal (values s.proxies, values s.visitors)) [
    | none ↦ (false, d)
    | some bytes ↦ write_file fault bytes d
  ]

  abbrev pub save_proxies : Option Fault → BaseSource P V → Disk F → Configs P → Bool × Disk F
  save_proxies fault s d m = save_to_file fault (record s { proxies = m }) d

  abbrev pub save_visitors : Option Fault → BaseSource P V → Disk F → Configs V → Bool × Disk F
  save_visitors fault s d m = save_to_file fault (record s { visitors = m }) d

  unfoldable pub add_proxy :
      Option Fault → Option (Configurer P) → BaseSource P V → Disk F → Changed P V F
  add_proxy fault c s d = with_proxies s (add (save_proxies fault s d) c s.proxies d)

  unfoldable pub update_proxy :
      Option Fault → Option (Configurer P) → BaseSource P V → Disk F → Changed P V F
  update_proxy fault c s d = with_proxies s (update (save_proxies fault s d) c s.proxies d)

  unfoldable pub remove_proxy : Option Fault → Text → BaseSource P V → Disk F → Changed P V F
  remove_proxy fault name s d = with_proxies s (remove (save_proxies fault s d) name s.proxies d)

  unfoldable pub add_visitor :
      Option Fault → Option (Configurer V) → BaseSource P V → Disk F → Changed P V F
  add_visitor fault c s d = with_visitors s (add (save_visitors fault s d) c s.visitors d)

  unfoldable pub update_visitor :
      Option Fault → Option (Configurer V) → BaseSource P V → Disk F → Changed P V F
  update_visitor fault c s d = with_visitors s (update (save_visitors fault s d) c s.visitors d)

  unfoldable pub remove_visitor : Option Fault → Text → BaseSource P V → Disk F → Changed P V F
  remove_visitor fault name s d =
      with_visitors s (remove (save_visitors fault s d) name s.visitors d)

  unfoldable pub get_proxy : Text → BaseSource P V → Option (Configurer P)
  get_proxy name s = get name s.proxies

  unfoldable pub get_visitor : Text → BaseSource P V → Option (Configurer V)
  get_visitor name s = get name s.visitors

  -- what the bytes of a file hold
  unfoldable pub load_from_bytes : F → Option (BaseSource P V)
  load_from_bytes bytes = elim (codec.unmarshal bytes) [
    | none ↦ none
    | some stored ↦ elim (load_entries codec.decode_proxy stored.0 []) [
      | none ↦ none
      | some ps ↦ elim (load_entries codec.decode_visitor stored.1 []) [
        | none ↦ none
        | some vs ↦ some (record { proxies = ps; visitors = vs })
      ]
    ]
  ]

  -- a missing file is an empty store
  unfoldable pub new_store_source : Disk F → Option (BaseSource P V)
  new_store_source d = elim d.file [
    | none ↦ some new_base_source
    | some bytes ↦ load_from_bytes bytes
  ]

  unfoldable pub step : BaseSource P V × Disk F → Option Fault × Call P V → Changed P V F
  step (s, d) (fault, adds_proxy c) = add_proxy fault c s d
  step (s, d) (fault, updates_proxy c) = update_proxy fault c s d
  step (s, d) (fault, removes_proxy name) = remove_proxy fault name s d
  step (s, d) (fault, adds_visitor c) = add_visitor fault c s d
  step (s, d) (fault, updates_visitor c) = update_visitor fault c s d
  step (s, d) (fault, removes_visitor name) = remove_visitor fault name s d

  unfoldable pub run :
      BaseSource P V × Disk F → List (Option Fault × Call P V) → BaseSource P V × Disk F
  run st [] = st
  run st (c ∷ cs) = run (step st c).1 cs
