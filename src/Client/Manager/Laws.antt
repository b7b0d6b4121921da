-- ===== src/Client/Manager/Laws.antt =====
-- What a reload does to the proxies of a client.
use cnfrp.Common.{
  ◌≡◌, refl, ap, ◌∙◌, Bool, Option, none, some, List, [], ◌∷◌, if◌then◌else◌, ◌==◌, arith, first_of,
  first_of-none,
}
use cnfrp.Common.Bytes.{Text, text_eq, text_beq_iff}
use cnfrp.Common.Dict.{Dict, get, put, get-put, Distinct}
use cnfrp.Client.Wrapper.{ProxyConfigurer, Wrapper, new_wrapper}
use cnfrp.Client.Manager.{key_by, keeps, remove_changed, add_missing, update_all}

module _ {C : Type 0} where
  -- the first and the last configuration of a name
  abbrev pub first_cfg : Text → List (ProxyConfigurer C) → Option (ProxyConfigurer C)
  first_cfg j [] = none
  first_cfg j (c ∷ cs) = if c.name == j then some c else first_cfg j cs

  abbrev pub last_cfg : Text → List (ProxyConfigurer C) → Option (ProxyConfigurer C)
  last_cfg j [] = none
  last_cfg j (c ∷ cs) = first_of (last_cfg j cs) (if c.name == j then some c else none)

  -- a wrapper that is kept by a reload
  abbrev pub kept_by :
      (ProxyConfigurer C → ProxyConfigurer C → Bool)
      → Option (ProxyConfigurer C)
      → Option (Wrapper C)
      → Option (Wrapper C)
  kept_by deep_equal c none = none
  kept_by deep_equal none (some w) = none
  kept_by deep_equal (some c) (some w) = if deep_equal w.cfg c then some w else none

  abbrev pub started : Text → Option (ProxyConfigurer C) → Option (Wrapper C)
  started user none = none
  started user (some c) = some (new_wrapper user c)

  get-key_by :
      (j : Text) (cs : List (ProxyConfigurer C)) (m : Dict Text (ProxyConfigurer C))
      → get j (key_by cs m) ≡ first_of (last_cfg j cs) (get j m)
  unfolding key_by
  get-key_by j [] m = refl
  get-key_by j (c ∷ cs) m = ground (arith, get-key_by j cs (put c.name c m), get-put c.name j c m)

  get-remove_changed :
      (deep_equal : ProxyConfigurer C → ProxyConfigurer C → Bool)
      (cfgs : Dict Text (ProxyConfigurer C)) (m : Dict Text (Wrapper C)) (j : Text)
      → Distinct m
      → get j (remove_changed deep_equal cfgs m).1 ≡ kept_by deep_equal (get j cfgs) (get j m)
  unfolding remove_changed keeps get
  get-remove_changed deep_equal cfgs [] j d = refl
  get-remove_changed deep_equal cfgs ((name, w) ∷ m) j d =
      ground (arith, get-remove_changed deep_equal cfgs m j d.1, text_beq_iff name j)

  get-add_missing :
      (user : Text) (cs : List (ProxyConfigurer C)) (m : Dict Text (Wrapper C)) (j : Text)
      → get j (add_missing user cs m) ≡ first_of (get j m) (started user (first_cfg j cs))
  unfolding add_missing
  get-add_missing user [] m j = ground arith
  get-add_missing user (c ∷ cs) m j = ground (
    arith,
    get-add_missing user cs m j,
    get-add_missing user cs (put c.name (new_wrapper user c) m) j,
    get-put c.name j (new_wrapper user c) m,
    text_beq_iff c.name j,
  )

-- After a reload of a manager with one wrapper per name, a name has the wrapper that it had,
-- unchanged, if that was made from a configuration deeply equal to the last new one of the name;
-- otherwise a new wrapper for the first new configuration of the name; and none if no new
-- configuration has the name.
pub get-update_all :
    {C : Type 0} (deep_equal : ProxyConfigurer C → ProxyConfigurer C → Bool) (user : Text)
    (cfgs : List (ProxyConfigurer C)) (m : Dict Text (Wrapper C)) (j : Text)
    → Distinct m
    → get j (update_all deep_equal user cfgs m).1
      ≡ first_of (kept_by deep_equal (last_cfg j cfgs) (get j m)) (started user (first_cfg j cfgs))
unfolding update_all get
get-update_all deep_equal user cfgs m j d =
    let by_name = key_by cfgs [] in
    get-add_missing user cfgs (remove_changed deep_equal by_name m).1 j
    ∙ ap (λ o. first_of o (started user (first_cfg j cfgs)))
        (get-remove_changed deep_equal by_name m j d
          ∙ ap (λ c. kept_by deep_equal c (get j m))
              (get-key_by j cfgs [] ∙ first_of-none (last_cfg j cfgs)))
