-- ===== src/Source/Store/Lookups.antt =====
-- The store as two maps: what a call does to the lookups, where it is accepted and where not.
use cnfrp.Common.{
  ◌≡◌, refl, sym, Bool, true, false, Option, none, some, [], ◌==◌, is_some, if◌then◌else◌,
  Option-cases, Bool-cases, inl, inr,
}
use cnfrp.Common.Bytes.{Text, text_eq}
use cnfrp.Common.Dict.{get, put, del, get-put, get-del}
use cnfrp.Source.{Configurer, Configs, BaseSource}
use cnfrp.Source.Store.{
  Fault, Disk, Codec, Saver, Change, Call, adds_proxy, updates_proxy, removes_proxy, adds_visitor,
  updates_visitor, removes_visitor, persisted, add, update_found, update, remove_found, remove,
  add_proxy, update_proxy, remove_proxy, add_visitor, update_visitor, remove_visitor, get_proxy,
  get_visitor, step, save_proxies, save_visitors,
}
use cnfrp.Source.Store.Keep.{undo_put-SameGet, undo_del-SameGet, put_back-SameGet}

module _ {A : Type 0} where
  -- what the lookup of a name becomes by an accepted change
  abbrev pub set_one : Option (Configurer A) → Text → Option (Configurer A) → Option (Configurer A)
  set_one none j old = old
  set_one (some c) j old = if c.name == j then some c else old

  abbrev pub drop_one : Text → Text → Option (Configurer A) → Option (Configurer A)
  drop_one name j old = if name == j then none else old

module _ {A F : Type 0} where
  abbrev Becomes : Change A F → Text → Option (Configurer A) → Option (Configurer A) → Type 0
  Becomes c j old new = get j c.1.0 ≡ (if is_some c.0 then old else new)

  persisted-Becomes :
      (r : Bool × Disk F) (n back : Configs A) (j : Text) (old new : Option (Configurer A))
      → get j back ≡ old
      → get j n ≡ new
      → Becomes (persisted r n back) j old new
  unfolding persisted
  persisted-Becomes (true, d) n back j old new b a = a
  persisted-Becomes (false, d) n back j old new b a = b

  add-Becomes :
      (save : Saver A F) (c : Option (Configurer A)) (m : Configs A) (d : Disk F) (j : Text)
      → Becomes (add save c m d) j (get j m) (set_one c j (get j m))
  unfolding add
  add-Becomes save none m d j = refl
  add-Becomes save (some c) m d j = elim (Bool-cases (c.name == [])) [
    | inl unnamed ↦ rw unnamed refl
    | inr named ↦ elim (Option-cases (get c.name m)) [
      | inr (b, e) ↦ rw (named, e) refl
      | inl e ↦
          rw (named, e)
            (let n = put c.name c m in
              persisted-Becomes (save n) n (del c.name n) j (get j m) (set_one (some c) j (get j m))
                (sym (undo_put-SameGet c m e j)) (get-put c.name j c m))
    ]
  ]

  update-Becomes :
      (save : Saver A F) (c : Option (Configurer A)) (m : Configs A) (d : Disk F) (j : Text)
      → Becomes (update save c m d) j (get j m) (set_one c j (get j m))
  unfolding update update_found
  update-Becomes save none m d j = refl
  update-Becomes save (some c) m d j = elim (Bool-cases (c.name == [])) [
    | inl unnamed ↦ rw unnamed refl
    | inr named ↦ elim (Option-cases (get c.name m)) [
      | inl e ↦ rw (named, e) refl
      | inr (old, e) ↦
          rw (named, e)
            (let n = put c.name c m in
              persisted-Becomes (save n) n (put c.name old n) j (get j m)
                (set_one (some c) j (get j m)) (sym (put_back-SameGet c c.name old m refl e j))
                (get-put c.name j c m))
    ]
  ]

  remove-Becomes :
      (save : Saver A F) (name : Text) (m : Configs A) (d : Disk F) (j : Text)
      → Becomes (remove save name m d) j (get j m) (drop_one name j (get j m))
  unfolding remove remove_found
  remove-Becomes save name m d j = elim (Bool-cases (name == [])) [
    | inl unnamed ↦ rw unnamed refl
    | inr named ↦ elim (Option-cases (get name m)) [
      | inl e ↦ rw (named, e) refl
      | inr (old, e) ↦
          rw (named, e)
            (let n = del name m in
              persisted-Becomes (save n) n (put name old n) j (get j m) (drop_one name j (get j m))
                (sym (undo_del-SameGet name old m e j)) (get-del name j m))
    ]
  ]

module _ {P V : Type 0} where
  -- the two maps after an accepted call, as functions
  abbrev pub proxy_after : Call P V → Text → Option (Configurer P) → Option (Configurer P)
  proxy_after (adds_proxy c) j old = set_one c j old
  proxy_after (updates_proxy c) j old = set_one c j old
  proxy_after (removes_proxy name) j old = drop_one name j old
  proxy_after (adds_visitor c) j old = old
  proxy_after (updates_visitor c) j old = old
  proxy_after (removes_visitor name) j old = old

  abbrev pub visitor_after : Call P V → Text → Option (Configurer V) → Option (Configurer V)
  visitor_after (adds_visitor c) j old = set_one c j old
  visitor_after (updates_visitor c) j old = set_one c j old
  visitor_after (removes_visitor name) j old = drop_one name j old
  visitor_after (adds_proxy c) j old = old
  visitor_after (updates_proxy c) j old = old
  visitor_after (removes_proxy name) j old = old

same_either : {A : Type 0} (b : Bool) (x : A) → x ≡ (if b then x else x)
same_either true x = refl
same_either false x = refl

-- A call of the store that reports an error, a failed save included, changes no lookup; one that
-- reports none sets the lookup of the name that it adds or updates, or drops that of the name that
-- it removes, and changes no other lookup of either kind.
pub step-get :
    {P V F R : Type 0} (codec : Codec P V F R) (fault : Option Fault) (c : Call P V)
    (s : BaseSource P V) (d : Disk F) (j : Text)
    → let r = step codec (s, d) (fault, c) in
      (get_proxy codec j r.1.0
        ≡ (if is_some r.0 then get_proxy codec j s else proxy_after c j (get_proxy codec j s)))
      × (get_visitor codec j r.1.0 ≡ (
          if is_some r.0 then get_visitor codec j s else visitor_after c j (get_visitor codec j s)))
unfolding step get_proxy get_visitor add_proxy update_proxy remove_proxy add_visitor update_visitor
    remove_visitor
step-get codec fault (adds_proxy c) s d j =
    let k = save_proxies codec fault s d in
    (
      add-Becomes k c s.proxies d j,
      same_either (is_some (add k c s.proxies d).0) (get j s.visitors),
    )
step-get codec fault (updates_proxy c) s d j =
    let k = save_proxies codec fault s d in
    (
      update-Becomes k c s.proxies d j,
      same_either (is_some (update k c s.proxies d).0) (get j s.visitors),
    )
step-get codec fault (removes_proxy name) s d j =
    let k = save_proxies codec fault s d in
    (
      remove-Becomes k name s.proxies d j,
      same_either (is_some (remove k name s.proxies d).0) (get j s.visitors),
    )
step-get codec fault (adds_visitor c) s d j =
    let k = save_visitors codec fault s d in
    (
      same_either (is_some (add k c s.visitors d).0) (get j s.proxies),
      add-Becomes k c s.visitors d j,
    )
step-get codec fault (updates_visitor c) s d j =
    let k = save_visitors codec fault s d in
    (
      same_either (is_some (update k c s.visitors d).0) (get j s.proxies),
      update-Becomes k c s.visitors d j,
    )
step-get codec fault (removes_visitor name) s d j =
    let k = save_visitors codec fault s d in
    (
      same_either (is_some (remove k name s.visitors d).0) (get j s.proxies),
      remove-Becomes k name s.visitors d j,
    )
