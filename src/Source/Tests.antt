-- ===== src/Source/Tests.antt =====
-- The sources on concrete inputs. Here a file holds the configurations themselves.
use cnfrp.Common.{
  ℕ, ◌≡◌, ◌⊎◌, refl, sym, true, false, is_some, if◌then◌else◌, Option, none, some, List, [], ◌∷◌,
}
use cnfrp.Common.Bytes.{Text, text_eq, less, text_beq}
use cnfrp.Common.Dict.{get, put, del}
use cnfrp.Source.{
  Configurer, BaseSource, new_base_source, load, load_enabled, is_enabled, replace_all,
}
use cnfrp.Source.Laws.{replace_all-atomic, last, Named}
use cnfrp.Source.Store.{
  already_exists, empty_name, not_found, Fault, Codec, Call, adds_proxy, updates_proxy,
  removes_proxy, write_file, persisted, add, update_found, update, remove_found, remove,
  save_to_file, add_proxy, update_proxy, remove_proxy, get_proxy, get_visitor, step, run,
}
use cnfrp.Source.Store.Reopen.{Lossless, Reopens, run-Reopens}
use cnfrp.Source.Store.Keep.{Wf}
use cnfrp.Source.Store.Lookups.{step-get, proxy_after, visitor_after}
use cnfrp.Source.Aggregator.{
  Aggregator, load_all, maps_to_sorted_slices, merge, get_sources_locked, put_all, insert, sort,
}
use cnfrp.Source.Aggregator.Laws.{Sorted, find, proxy_of, visitor_of, load_all-Sorted}

abbrev ssh : Text
ssh = b's' ∷ b's' ∷ b'h' ∷ []

abbrev www : Text
www = b'w' ∷ b'e' ∷ b'b' ∷ []

abbrev ssh_to : ℕ → Configurer ℕ
ssh_to port = record { name = ssh; enabled = none; body = port }

abbrev web : Configurer ℕ
web = record { name = www; enabled = none; body = 80 }

abbrev off : Configurer ℕ
off = record { name = www; enabled = some false; body = 0 }

abbrev Saved : Type 0
Saved = List (Configurer ℕ) × List (Configurer ℕ)

abbrev plain : Codec ℕ ℕ Saved (Configurer ℕ)
plain = record {
  marshal = λ d. some d;
  unmarshal = λ d. some d;
  decode_proxy = λ r. some r;
  decode_visitor = λ r. some r;
}

plain_lossless : Lossless plain
plain_lossless ps vs bytes e = ((ps, vs), (sym e, (refl, refl)))

abbrev calls : List (Option Fault × Call ℕ ℕ)
calls =
    (none, adds_proxy (some (ssh_to 22)))
    ∷ (none, adds_proxy (some web))
    ∷ (some Fault.sync, removes_proxy ssh)
    ∷ (some Fault.rename, updates_proxy (some (ssh_to 2222)))
    ∷ []

run-Reopens_example :
    let last = run plain (new_base_source, record { file = none; tmp = none }) calls in
    Reopens plain last.0 last.1
run-Reopens_example = run-Reopens plain plain_lossless calls none

-- The failed removal and the failed update leave the first configuration.
kept :
    get_proxy plain ssh (run plain (new_base_source, record { file = none; tmp = none }) calls).0
    ≡ some (ssh_to 22)
unfolding new_base_source run step get_proxy get put del add_proxy update_proxy remove_proxy add
    update update_found remove remove_found persisted save_to_file write_file text_beq
kept = refl

abbrev file_source : BaseSource ℕ ℕ
file_source = record { proxies = (www, web) ∷ (ssh, ssh_to 1) ∷ []; visitors = [] }

abbrev store_source : BaseSource ℕ ℕ
store_source = record { proxies = (www, off) ∷ (ssh, ssh_to 2) ∷ []; visitors = [] }

abbrev both : Aggregator ℕ ℕ
both = record { config_source = file_source; store_source = some store_source }

-- A configuration that the store disables does not hide the file's.
loaded : (load_all both).0 ≡ ssh_to 2 ∷ web ∷ []
unfolding load_all maps_to_sorted_slices merge get_sources_locked put_all insert sort load
    load_enabled is_enabled put less text_beq
loaded = refl

load_all-Sorted_example :
    (Sorted (load_all both).0 × Sorted (load_all both).1)
    × ((j : Text)
        → (find j (load_all both).0 ≡ proxy_of both j)
          × (find j (load_all both).1 ≡ visitor_of both j))
unfolding get text_beq
load_all-Sorted_example = load_all-Sorted both (
  (((refl, (refl, tt)), (refl, (λ e. cc, (refl, (λ e. cc, tt))))), (tt, tt)),
  (((refl, (refl, tt)), (refl, (λ e. cc, (refl, (λ e. cc, tt))))), (tt, tt)),
)

abbrev taken : BaseSource ℕ ℕ
taken = record { proxies = (ssh, ssh_to 22) ∷ []; visitors = [] }

abbrev removal : Call ℕ ℕ
removal = removes_proxy ssh

step-get_example :
    let r = step plain (taken, record { file = none; tmp = none }) (none, removal) in
    (get_proxy plain ssh r.1.0 ≡ (
      if is_some r.0
      then get_proxy plain ssh taken
      else proxy_after removal ssh (get_proxy plain ssh taken)))
    × (get_visitor plain ssh r.1.0 ≡ (
        if is_some r.0
        then get_visitor plain ssh taken
        else visitor_after removal ssh (get_visitor plain ssh taken)))
step-get_example = step-get plain none removal taken (record { file = none; tmp = none }) ssh

-- A second proxy of a name is refused, and so is one without a name.
answers :
    ((step plain (taken, record { file = none; tmp = none }) (none, adds_proxy (some (ssh_to 1)))).0
      ≡ some already_exists)
    × ((step plain
          (taken, record { file = none; tmp = none })
          (none, adds_proxy (some (record { name = []; enabled = none; body = 1 })))).0
        ≡ some empty_name)
    × ((step plain (taken, record { file = none; tmp = none }) (none, updates_proxy (some web))).0
        ≡ some not_found)
unfolding step add_proxy update_proxy add update get text_beq
answers = (refl, refl, refl)

replace_all-atomic_example :
    let r = replace_all (some (ssh_to 1) ∷ none ∷ []) [] taken in
    ((Named (some (ssh_to 1) ∷ none ∷ []) × Named {A = ℕ} [])
      × ((r.0 ≡ true)
          × ((Wf r.1.proxies × Wf r.1.visitors)
              × ((j : Text)
                  → (get j r.1.proxies ≡ last j (some (ssh_to 1) ∷ none ∷ []))
                    × (get j r.1.visitors ≡ last j [])))))
    ⊎ ((¬ (Named (some (ssh_to 1) ∷ none ∷ []) × Named {A = ℕ} []))
        × ((r.0 ≡ false) × (r.1 ≡ taken)))
replace_all-atomic_example = replace_all-atomic (some (ssh_to 1) ∷ none ∷ []) [] taken
