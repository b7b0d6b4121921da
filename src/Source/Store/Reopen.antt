-- ===== src/Source/Store/Reopen.antt =====
-- The store and its file: what the file holds after any calls, with any calls of the file system
-- failing.
use cnfrp.Common.{
  ◌≡◌, refl, ◌∙◌, true, false, Option, none, some, List, [], ◌∷◌, map, arith, Option-cases, inl,
  inr, first_of, first_of-none,
}
use cnfrp.Common.Bytes.{Text, text_eq, text_beq, text_beq_iff}
use cnfrp.Common.Dict.{get, put, get-put}
use cnfrp.Source.{Configurer, Configs, BaseSource, values, new_base_source}
use cnfrp.Source.Store.{
  Fault, Disk, Codec, Call, adds_proxy, updates_proxy, removes_proxy, adds_visitor, updates_visitor,
  removes_visitor, write_file, save_to_file, save_proxies, save_visitors, load_entries,
  load_from_bytes, new_store_source, add_proxy, update_proxy, remove_proxy, add_visitor,
  update_visitor, remove_visitor, get_proxy, get_visitor, step, run,
}
use cnfrp.Source.Store.Keep.{Wf, Promise, add-Kept, update-Kept, remove-Kept}

write_file-file :
    {F : Type 0} (fault : Option Fault) (b : F) (d : Disk F)
    → ((write_file fault b d).0 ≡ true → (write_file fault b d).1.file ≡ some b)
      × ((write_file fault b d).0 ≡ false → (write_file fault b d).1.file ≡ d.file)
unfolding write_file
write_file-file none b d = (λ e. refl, λ e. cc)
write_file-file (some Fault.mkdir_all) b d = (λ e. cc, λ e. refl)
write_file-file (some Fault.open_file) b d = (λ e. cc, λ e. refl)
write_file-file (some Fault.write) b d = (λ e. cc, λ e. refl)
write_file-file (some Fault.sync) b d = (λ e. cc, λ e. refl)
write_file-file (some Fault.close_file) b d = (λ e. cc, λ e. refl)
write_file-file (some Fault.rename) b d = (λ e. cc, λ e. refl)

load_entries-cons :
    {A R : Type 0} (decode : R → Option (Configurer A)) (r : R) (c : Configurer A) (rs : List R)
    (acc : Configs A)
    → decode r ≡ some c
    → text_beq c.name [] ≡ false
    → load_entries decode (r ∷ rs) acc ≡ load_entries decode rs (put c.name c acc)
unfolding load_entries
load_entries-cons decode r c rs acc hd named = rw (hd, load_entries, named) refl

-- Reading back the values of a well-formed map gives its lookups, before those of the map read into.
load_entries-values :
    {A R : Type 0} (decode : R → Option (Configurer A)) (rs : List R) (m acc : Configs A)
    → Wf m
    → map decode rs ≡ map some (values m)
    → (n : Configs A) × ((load_entries decode rs acc ≡ some n)
        × ((j : Text) → get j n ≡ first_of (get j m) (get j acc)))
unfolding load_entries get
load_entries-values decode [] [] acc w e = (acc, (refl, λ j. refl))
load_entries-values decode [] (b ∷ m) acc w e = cc
load_entries-values decode (r ∷ rs) [] acc w e = cc
load_entries-values decode (r ∷ rs) ((k, c) ∷ m) acc w e =
    let hd : decode r ≡ some c = cc in
    let tl : map decode rs ≡ map some (values m) = cc in
    let named : text_beq c.name [] ≡ false = ground (arith, text_beq_iff c.name []) in
    let (n, (read, gets)) =
      load_entries-values decode rs m (put c.name c acc) (w.0.1, w.1.1.1) tl in
    (
      n,
      (
        load_entries-cons decode r c rs acc hd named ∙ read,
        λ j.
            ground (
              arith,
              gets j,
              get-put c.name j c acc,
              text_beq_iff k j,
              text_beq_iff c.name j,
              w.1.0,
            ),
      ),
    )

module _ {P V F R : Type 0} (codec : Codec P V F R) where
  -- Decoding what was encoded gives the configurations back.
  abbrev pub Lossless : Type 0
  Lossless =
      (ps : List (Configurer P)) (vs : List (Configurer V)) (bytes : F)
      → codec.marshal (ps, vs) ≡ some bytes
      → (raw : List R × List R) × ((codec.unmarshal bytes ≡ some raw)
          × ((map codec.decode_proxy raw.0 ≡ map some ps)
              × (map codec.decode_visitor raw.1 ≡ map some vs)))

  -- A store that is opened on the disk answers every lookup as `s` does.
  abbrev pub Reopens : BaseSource P V → Disk F → Type 0
  Reopens s d =
      (o : BaseSource P V) × ((new_store_source codec d ≡ some o)
        × (((name : Text) → get_proxy codec name o ≡ get_proxy codec name s)
            × ((name : Text) → get_visitor codec name o ≡ get_visitor codec name s)))

  abbrev pub Inv : BaseSource P V × Disk F → Type 0
  Inv (s, d) = Wf s.proxies × (Wf s.visitors × Reopens s d)

  save_to_file-file :
      (fault : Option Fault) (s : BaseSource P V) (d : Disk F)
      → ((save_to_file codec fault s d).0 ≡ true
          → (b : F) × ((codec.marshal (values s.proxies, values s.visitors) ≡ some b)
              × ((save_to_file codec fault s d).1.file ≡ some b)))
        × ((save_to_file codec fault s d).0 ≡ false
            → (save_to_file codec fault s d).1.file ≡ d.file)
  unfolding save_to_file
  save_to_file-file fault s d =
      elim (Option-cases (codec.marshal (values s.proxies, values s.visitors))) [
        | inl e ↦ rw (e, save_to_file) (λ t. cc, λ f. refl)
        | inr (b, e) ↦
            rw (e, save_to_file)
              (let w = write_file-file fault b d in (λ t. (b, (refl, w.0 t)), λ f. w.1 f))
      ]

  module _ (lossless : Lossless) where
    saved-Reopens :
        (s : BaseSource P V) (d : Disk F) (b : F)
        → Wf s.proxies
        → Wf s.visitors
        → codec.marshal (values s.proxies, values s.visitors) ≡ some b
        → d.file ≡ some b
        → Reopens s d
    unfolding new_store_source load_from_bytes get_proxy get_visitor get
    saved-Reopens s d b wp wv m f =
        let (raw, (u, (eps, evs))) = lossless (values s.proxies) (values s.visitors) b m in
        let (np, (rp, gp)) = load_entries-values codec.decode_proxy raw.0 s.proxies [] wp eps in
        let (nv, (rv, gv)) = load_entries-values codec.decode_visitor raw.1 s.visitors [] wv evs in
        (
          record { proxies = np; visitors = nv },
          (
            rw (f, new_store_source, u, load_from_bytes, rp, rv) refl,
            (
              λ j. gp j ∙ first_of-none (get j s.proxies),
              λ j. gv j ∙ first_of-none (get j s.visitors),
            ),
          ),
        )

    unsaved-Reopens :
        (s : BaseSource P V) (d e : Disk F) → e.file ≡ d.file → Reopens s d → Reopens s e
    unfolding new_store_source
    unsaved-Reopens s d e same h = (h.0, (rw (new_store_source, same) h.1.0, h.1.1))

    proxies_promise :
        (fault : Option Fault) (s : BaseSource P V) (d : Disk F)
        → Wf s.visitors
        → Promise P F (save_proxies codec fault s d) d
    unfolding get_proxy get_visitor
    proxies_promise fault s d wv = record {
      Good = λ m e. Reopens (record s { proxies = m }) e;
      respects = λ m n e same h. (h.0, (h.1.0, (λ j. h.1.1.0 j ∙ same j, h.1.1.1)));
      saved = λ m w t.
          let s2 : BaseSource P V = record s { proxies = m } in
          let f = (save_to_file-file fault s2 d).0 t in
          saved-Reopens s2 (save_to_file codec fault s2 d).1 f.0 w wv f.1.0 f.1.1;
      unsaved = λ m n t g.
          let s2 : BaseSource P V = record s { proxies = m } in
          unsaved-Reopens (record s { proxies = n }) d (save_to_file codec fault s2 d).1
            ((save_to_file-file fault s2 d).1 t) g;
    }

    visitors_promise :
        (fault : Option Fault) (s : BaseSource P V) (d : Disk F)
        → Wf s.proxies
        → Promise V F (save_visitors codec fault s d) d
    unfolding get_proxy get_visitor
    visitors_promise fault s d wp = record {
      Good = λ m e. Reopens (record s { visitors = m }) e;
      respects = λ m n e same h. (h.0, (h.1.0, (h.1.1.0, λ j. h.1.1.1 j ∙ same j)));
      saved = λ m w t.
          let s2 : BaseSource P V = record s { visitors = m } in
          let f = (save_to_file-file fault s2 d).0 t in
          saved-Reopens s2 (save_to_file codec fault s2 d).1 f.0 wp w f.1.0 f.1.1;
      unsaved = λ m n t g.
          let s2 : BaseSource P V = record s { visitors = m } in
          unsaved-Reopens (record s { visitors = n }) d (save_to_file codec fault s2 d).1
            ((save_to_file-file fault s2 d).1 t) g;
    }

    step-Inv :
        (st : BaseSource P V × Disk F) (fault : Option Fault) (c : Call P V)
        → Inv st
        → Inv (step codec st (fault, c)).1
    unfolding step add_proxy update_proxy remove_proxy add_visitor update_visitor remove_visitor
        proxies_promise visitors_promise
    step-Inv (s, d) fault (adds_proxy c) (wp, (wv, h)) =
        let k = add-Kept (proxies_promise fault s d wv) c s.proxies wp h in (k.0, (wv, k.1))
    step-Inv (s, d) fault (updates_proxy c) (wp, (wv, h)) =
        let k = update-Kept (proxies_promise fault s d wv) c s.proxies wp h in (k.0, (wv, k.1))
    step-Inv (s, d) fault (removes_proxy name) (wp, (wv, h)) =
        let k = remove-Kept (proxies_promise fault s d wv) name s.proxies wp h in (k.0, (wv, k.1))
    step-Inv (s, d) fault (adds_visitor c) (wp, (wv, h)) =
        let k = add-Kept (visitors_promise fault s d wp) c s.visitors wv h in (wp, k)
    step-Inv (s, d) fault (updates_visitor c) (wp, (wv, h)) =
        let k = update-Kept (visitors_promise fault s d wp) c s.visitors wv h in (wp, k)
    step-Inv (s, d) fault (removes_visitor name) (wp, (wv, h)) =
        let k = remove-Kept (visitors_promise fault s d wp) name s.visitors wv h in (wp, k)

    run-Inv :
        (calls : List (Option Fault × Call P V)) (st : BaseSource P V × Disk F)
        → Inv st
        → Inv (run codec st calls)
    unfolding run
    run-Inv [] st h = h
    run-Inv ((f, c) ∷ cs) st h = run-Inv cs (step codec st (f, c)).1 (step-Inv st f c h)

-- For a codec that is lossless, after any calls on a new store without a file, with any calls of
-- the file system failing at each save, a store that is opened on the disk that is left has the
-- same proxy and the same visitor, or none, under every name as the running store.
pub run-Reopens :
    {P V F R : Type 0} (codec : Codec P V F R)
    → Lossless codec
    → (calls : List (Option Fault × Call P V)) (tmp : Option F)
    → let last = run codec (new_base_source, record { file = none; tmp = tmp }) calls in
      Reopens codec last.0 last.1
unfolding new_base_source new_store_source
run-Reopens codec lossless calls tmp =
    (run-Inv codec lossless calls (new_base_source, record { file = none; tmp = tmp })
      ((tt, tt), ((tt, tt), (new_base_source, (refl, (λ j. refl, λ j. refl)))))).1.1
