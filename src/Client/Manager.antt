-- ===== src/Client/Manager.antt =====
-- client/proxy/proxy_manager.go: the wrappers of a client by name. `reflect.DeepEqual` is an
-- argument.
pub mod Laws
use cnfrp.Common.{
  ℕ, ◌≡◌, String, Bool, true, false, Option, none, some, List, [], ◌∷◌, ◌++◌, if◌then◌else◌, map,
  is_some,
}
use cnfrp.Common.Bytes.{Text, text_eq}
use cnfrp.Common.Dict.{Dict, get, put, del}
use cnfrp.Client.Wrapper.{
  ProxyConfigurer, Wrapper, Phase, Event, new_wrapper, set_running_status, stop, in_work_conn,
}

pub record WorkingStatus (C : Type 0) : Type 0 where
  pub name : Text
  pub phase : Phase
  pub err : String
  pub cfg : ProxyConfigurer C
  pub remote_addr : String

module _ {C : Type 0} where
  -- `lo.KeyBy`: a later configuration of a name wins
  unfoldable pub key_by :
      List (ProxyConfigurer C) → Dict Text (ProxyConfigurer C) → Dict Text (ProxyConfigurer C)
  key_by [] m = m
  key_by (c ∷ cs) m = key_by cs (put c.name c m)

  -- whether the loop keeps a wrapper
  unfoldable pub keeps :
      (ProxyConfigurer C → ProxyConfigurer C → Bool) → Wrapper C → Option (ProxyConfigurer C) → Bool
  keeps deep_equal w none = false
  keeps deep_equal w (some c) = deep_equal w.cfg c

  -- the wrappers that stay, with what the others send as they stop
  unfoldable pub remove_changed :
      (ProxyConfigurer C → ProxyConfigurer C → Bool)
      → Dict Text (ProxyConfigurer C)
      → Dict Text (Wrapper C)
      → List Event × Dict Text (Wrapper C)
  remove_changed deep_equal cfgs [] = ([], [])
  remove_changed deep_equal cfgs ((name, w) ∷ m) =
      let (sent, rest) = remove_changed deep_equal cfgs m in
      if keeps deep_equal w (get name cfgs)
      then (sent, (name, w) ∷ rest)
      else ((stop w).0 ++ sent, rest)

  unfoldable pub add_missing :
      Text → List (ProxyConfigurer C) → Dict Text (Wrapper C) → Dict Text (Wrapper C)
  add_missing user [] m = m
  add_missing user (c ∷ cs) m =
      if is_some (get c.name m)
      then add_missing user cs m
      else add_missing user cs (put c.name (new_wrapper user c) m)

  unfoldable pub update_all :
      (ProxyConfigurer C → ProxyConfigurer C → Bool)
      → Text
      → List (ProxyConfigurer C)
      → Dict Text (Wrapper C)
      → List Event × Dict Text (Wrapper C)
  update_all deep_equal user cfgs m =
      let (sent, kept) = remove_changed deep_equal (key_by cfgs []) m in
      (sent, add_missing user cfgs kept)

  -- the answer of the server; none: no proxy of the name
  unfoldable pub start_proxy :
      Text
      → String
      → String
      → Option String
      → ℕ
      → Dict Text (Wrapper C)
      → Option Bool × (List Event × Dict Text (Wrapper C))
  start_proxy name addr resp_err ran now m = elim (get name m) [
    | none ↦ (none, ([], m))
    | some w ↦
        let r = set_running_status addr resp_err ran now w in (some r.0, (r.1.0, put name r.1.1 m))
  ]

  unfoldable pub close_all : Dict Text (Wrapper C) → List Event
  close_all [] = []
  close_all ((name, w) ∷ m) = (stop w).0 ++ close_all m

  unfoldable pub close : Dict Text (Wrapper C) → List Event × Dict Text (Wrapper C)
  close m = (close_all m, [])

  -- whether the work connection goes to a proxy; otherwise it is closed
  unfoldable pub handle_work_conn : Text → Dict Text (Wrapper C) → Bool
  handle_work_conn name m = elim (get name m) [ none ↦ false | some w ↦ in_work_conn w ]

  unfoldable pub get_status : Wrapper C → WorkingStatus C
  get_status w = record {
    name = w.cfg.name;
    phase = w.phase;
    err = w.err;
    cfg = w.cfg;
    remote_addr = w.remote_addr;
  }

  unfoldable pub get_all_proxy_status : Dict Text (Wrapper C) → List (WorkingStatus C)
  get_all_proxy_status m = map (λ e. get_status e.1) m

  unfoldable pub get_proxy_status : Text → Dict Text (Wrapper C) → Option (WorkingStatus C)
  get_proxy_status name m = elim (get name m) [ none ↦ none | some w ↦ some (get_status w) ]
