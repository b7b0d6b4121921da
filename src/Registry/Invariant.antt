-- ===== src/Registry/Invariant.antt =====
-- What the two maps of the client registry say of one another.
use cnfrp.Common.{
  ℕ, String, ◌≡◌, ◌≢◌, false, Option, none, some, List, [], ◌∷◌, ◌==◌, nat_eq, string_eq,
  str_eq_iff, arith, Option-cases, Bool-cases, inl, inr, if◌then◌else◌, not, same_self,
}
use cnfrp.Common.Dict.{Dict, get, put, del, get-put, get-del}
use cnfrp.Registry.{
  ClientInfo, ClientRegistry, Hello, empty, key_of, conflicts, base_info, connected, forget_run,
  info_of, register, disconnected, end_run, mark_offline_by_run_id, Call, registers, ends, step,
  run,
}

-- The run of the client at a key.
abbrev pub run_of : String → Dict String ClientInfo → Option String
run_of k clients = elim (get k clients) [ none ↦ none | some info ↦ some info.run_id ]

pub record Inv (cr : ClientRegistry) : Type 0 where
  -- an indexed run has a name and is the current run of the client that the index names
  pub indexed : (r k : String) → get r cr.run_index ≡ some k → run_of k cr.clients ≡ some r
  pub named : (r k : String) → get r cr.run_index ≡ some k → r ≢ ""
  -- every client stands under its own key, and is online exactly if it has a run
  pub key : (k : String) (info : ClientInfo) → get k cr.clients ≡ some info → info.key ≡ k
  pub online :
      (k : String) (info : ClientInfo)
      → get k cr.clients ≡ some info
      → info.online ≡ not (info.run_id == "")
  -- a client that is kept offline has a client id
  pub offline :
      (k : String) (info : ClientInfo)
      → get k cr.clients ≡ some info
      → info.online ≡ false
      → info.raw_client_id ≢ ""

abbrev accepted : Hello → ℕ → ClientRegistry → ClientRegistry
accepted h now cr = record {
  clients = put (key_of h) (connected h now (base_info h now (info_of h cr))) cr.clients;
  run_index = put h.run_id (key_of h) (forget_run (info_of h cr) cr.run_index);
}

abbrev NotRun : String → Option ClientInfo → Type 0
NotRun r none = Unit
NotRun r (some info) = info.run_id ≢ r

get-forget_run :
    (o : Option ClientInfo) (index : Dict String String) (r k : String)
    → get r (forget_run o index) ≡ some k
    → r ≢ ""
    → (get r index ≡ some k) × NotRun r o
unfolding forget_run
get-forget_run none index r k e ne = (e, tt)
get-forget_run (some info) index r k e ne =
    ground (arith, get-del info.run_id r index, str_eq_iff info.run_id "", str_eq_iff info.run_id r)

get-forget_run_mono :
    (o : Option ClientInfo) (index : Dict String String) (r k : String)
    → get r (forget_run o index) ≡ some k
    → get r index ≡ some k
unfolding forget_run
get-forget_run_mono none index r k e = e
get-forget_run_mono (some info) index r k e = ground (arith, get-del info.run_id r index)

-- What the end of a run makes of the record at the key of that run.
abbrev pub ended : String → ℕ → Option ClientInfo → Option ClientInfo
ended run_id now none = none
ended run_id now (some info) =
    if info.run_id == run_id
    then if info.raw_client_id == "" then none else some (disconnected now info)
    else some info

pub get-end_run :
    (key run_id : String) (now : ℕ) (clients : Dict String ClientInfo) (k : String)
    → get k (end_run key run_id now clients)
      ≡ (if key == k then ended run_id now (get k clients) else get k clients)
unfolding end_run
get-end_run key run_id now clients k = elim (Option-cases (get key clients)) [
  | inl e ↦ ground (arith, str_eq_iff key k)
  | inr (info, e) ↦ ground (
    arith,
    str_eq_iff key k,
    get-put key k (disconnected now info) clients,
    get-del key k clients,
  )
]

module _ (cr : ClientRegistry) (v : Inv cr) where
  key-base_info : (h : Hello) (now : ℕ) → (base_info h now (info_of h cr)).key ≡ key_of h
  unfolding base_info
  key-base_info h now = elim (Option-cases (info_of h cr)) [
    | inl e ↦ rw (e, base_info)
    | inr (info, e) ↦ rw (e, base_info) (v.key (key_of h) info e)
  ]

  -- a run that stays indexed is not the one of the record that is taken over
  other_key :
      (h : Hello) (r k : String)
      → get r cr.run_index ≡ some k
      → NotRun r (info_of h cr)
      → (key_of h == k) ≡ false
  other_key h r k e n = elim (Option-cases (info_of h cr)) [
    | inl g ↦ ground (arith, str_eq_iff (key_of h) k, v.indexed r k e)
    | inr (info, g) ↦
        let differs : info.run_id ≢ r = rw g at n in
        ground (arith, str_eq_iff (key_of h) k, v.indexed r k e)
  ]

  accepted-indexed :
      (h : Hello) (now : ℕ) (r k : String)
      → get r (accepted h now cr).run_index ≡ some k
      → run_of k (accepted h now cr).clients ≡ some r
  unfolding connected
  accepted-indexed h now r k e = elim (Bool-cases (h.run_id == r)) [
    | inl same ↦ ground (
      arith,
      str_eq_iff h.run_id r,
      same_self (key_of h),
      get-put h.run_id r (key_of h) (forget_run (info_of h cr) cr.run_index),
      get-put (key_of h) k (connected h now (base_info h now (info_of h cr))) cr.clients,
    )
    | inr other ↦
        let kept : get r (forget_run (info_of h cr) cr.run_index) ≡ some k =
          ground (arith, get-put h.run_id r (key_of h) (forget_run (info_of h cr) cr.run_index)) in
        let indexed : get r cr.run_index ≡ some k =
          get-forget_run_mono (info_of h cr) cr.run_index r k kept in
        let (_, free) = get-forget_run (info_of h cr) cr.run_index r k kept (v.named r k indexed) in
        ground (
          arith,
          v.indexed r k indexed,
          other_key h r k indexed free,
          get-put (key_of h) k (connected h now (base_info h now (info_of h cr))) cr.clients,
        )
  ]

  accepted-Inv : (h : Hello) (now : ℕ) → h.run_id ≢ "" → Inv (accepted h now cr)
  unfolding connected
  accepted-Inv h now ne = record {
    indexed = accepted-indexed h now;
    named = λ r k e. ground (
      arith,
      str_eq_iff h.run_id r,
      v.named r k,
      get-put h.run_id r (key_of h) (forget_run (info_of h cr) cr.run_index),
      get-forget_run_mono (info_of h cr) cr.run_index r k,
    );
    key = λ k info e. ground (
      arith,
      v.key k info,
      str_eq_iff (key_of h) k,
      key-base_info h now,
      get-put (key_of h) k (connected h now (base_info h now (info_of h cr))) cr.clients,
    );
    online = λ k info e. ground (
      arith,
      v.online k info,
      str_eq_iff h.run_id "",
      get-put (key_of h) k (connected h now (base_info h now (info_of h cr))) cr.clients,
    );
    offline = λ k info e f. ground (
      arith,
      v.offline k info,
      str_eq_iff h.run_id "",
      get-put (key_of h) k (connected h now (base_info h now (info_of h cr))) cr.clients,
    );
  }

  end_run-Inv :
      (run_id key : String) (now : ℕ)
      → get run_id cr.run_index ≡ some key
      → Inv (record {
        clients = end_run key run_id now cr.clients;
        run_index = del run_id cr.run_index;
      })
  unfolding disconnected
  end_run-Inv run_id key now g = record {
    indexed = λ r k e. ground (
      arith,
      v.indexed r k,
      v.indexed run_id key,
      str_eq_iff key k,
      str_eq_iff run_id r,
      get-del run_id r cr.run_index,
      get-end_run key run_id now cr.clients k,
    );
    named = λ r k e. ground (arith, v.named r k, get-del run_id r cr.run_index);
    key = λ k info e. elim (Option-cases (get k cr.clients)) [
      | inl missing ↦ ground (arith, get-end_run key run_id now cr.clients k)
      | inr (old, found) ↦
          ground (arith, v.key k old found, get-end_run key run_id now cr.clients k)
    ];
    online = λ k info e. elim (Option-cases (get k cr.clients)) [
      | inl missing ↦ ground (arith, get-end_run key run_id now cr.clients k)
      | inr (old, found) ↦ ground (
        arith,
        str_eq_iff info.run_id "",
        v.online k old found,
        get-end_run key run_id now cr.clients k,
      )
    ];
    offline = λ k info e f. elim (Option-cases (get k cr.clients)) [
      | inl missing ↦ ground (arith, get-end_run key run_id now cr.clients k)
      | inr (old, found) ↦ ground (
        arith,
        str_eq_iff old.raw_client_id "",
        v.offline k old found,
        get-end_run key run_id now cr.clients k,
      )
    ];
  }

  register-Inv : (h : Hello) (now : ℕ) → Inv (register h now cr).1
  unfolding register
  register-Inv h now = elim (Bool-cases (h.run_id == "")) [
    | inl e ↦ rw e v
    | inr e ↦ rw e (elim (Bool-cases (conflicts h (info_of h cr))) [
      | inl c ↦ rw c v
      | inr c ↦ rw c (accepted-Inv h now (ground (arith, str_eq_iff h.run_id "")))
    ])
  ]

  mark_offline-Inv : (run_id : String) (now : ℕ) → Inv (mark_offline_by_run_id run_id now cr)
  unfolding mark_offline_by_run_id
  mark_offline-Inv run_id now = elim (Option-cases (get run_id cr.run_index)) [
    | inl e ↦ rw (e, mark_offline_by_run_id) v
    | inr (key, e) ↦ rw (e, mark_offline_by_run_id) (end_run-Inv run_id key now e)
  ]

  step-Inv : (c : ℕ × Call) → Inv (step cr c)
  unfolding step
  step-Inv (now, registers h) = register-Inv h now
  step-Inv (now, ends run_id) = mark_offline-Inv run_id now

Inv-empty : Inv empty
unfolding get
Inv-empty = record {
  indexed = λ r k e. cc;
  named = λ r k e. cc;
  key = λ k info e. cc;
  online = λ k info e. cc;
  offline = λ k info e. cc;
}

run-Inv : (cr : ClientRegistry) (cs : List (ℕ × Call)) → Inv cr → Inv (run cr cs)
unfolding run
run-Inv cr [] v = v
run-Inv cr (c ∷ cs) v = run-Inv (step cr c) cs (step-Inv cr v c)

-- After any registrations and ends of runs on an empty registry: an indexed run has a non-empty id
-- and is the run of the client that the index names, every client stands under its own key and is
-- online exactly if it has a run, and a client that is kept offline has a client id of its own.
pub run-empty-Inv : (cs : List (ℕ × Call)) → Inv (run empty cs)
run-empty-Inv cs = run-Inv empty cs Inv-empty
