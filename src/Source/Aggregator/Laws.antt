-- ===== src/Source/Aggregator/Laws.antt =====
-- What the aggregator loads: the enabled configurations, the store's before the file's, in order.
use cnfrp.Common.{
  ◌≡◌, refl, ap, ◌∙◌, false, Option, none, some, List, [], ◌∷◌, arith, ◌==◌, if◌then◌else◌,
  Bool-cases, inl, inr,
}
use cnfrp.Common.Bytes.{Text, text_eq, text_beq_iff, less, less_irrefl, not_less_of_less}
use cnfrp.Common.Dict.{get, put, get-put}
use cnfrp.Source.{Configurer, Configs, BaseSource, load, load_enabled, is_enabled, values}
use cnfrp.Source.Aggregator.{
  Aggregator, get_sources_locked, put_all, insert, sort, merge, maps_to_sorted_slices, load_all,
}
use cnfrp.Source.Store.Keep.{Keyed, Wf, put-Keyed}
use cnfrp.Common.{true, first_of, first_of-none}

module _ {A : Type 0} where
  -- the configuration of a name in a list
  abbrev pub find : Text → List (Configurer A) → Option (Configurer A)
  find j [] = none
  find j (c ∷ cs) = if c.name == j then some c else find j cs

  -- a configuration that does not say that it is disabled
  abbrev pub if_enabled : Option (Configurer A) → Option (Configurer A)
  if_enabled none = none
  if_enabled (some c) = if (elim c.enabled [ none ↦ true | some b ↦ b ]) then some c else none

  abbrev Follows : Configurer A → List (Configurer A) → Type 0
  Follows c [] = Unit
  Follows c (x ∷ xs) = less x.name c.name ≡ false

  -- no name is less than the one before it
  abbrev pub Sorted : List (Configurer A) → Type 0
  Sorted [] = Unit
  Sorted (c ∷ cs) = Follows c cs × Sorted cs

  insert-Follows :
      (c x : Configurer A) (xs : List (Configurer A))
      → less c.name x.name ≡ false
      → Follows x xs
      → Follows x (insert c xs)
  unfolding insert
  insert-Follows c x [] h f = h
  insert-Follows c x (y ∷ ys) h f = ground arith

  insert-Sorted : (c : Configurer A) (xs : List (Configurer A)) → Sorted xs → Sorted (insert c xs)
  unfolding insert
  insert-Sorted c [] h = (tt, tt)
  insert-Sorted c (x ∷ xs) h = elim (Bool-cases (less x.name c.name)) [
    | inl e ↦
        rw e (insert-Follows c x xs (not_less_of_less x.name c.name e) h.0, insert-Sorted c xs h.1)
    | inr e ↦ rw e (e, h)
  ]

  sort-Sorted : (cs : List (Configurer A)) → Sorted (sort cs)
  unfolding sort
  sort-Sorted [] = tt
  sort-Sorted (c ∷ cs) = insert-Sorted c (sort cs) (sort-Sorted cs)

  find-insert :
      (j : Text) (c : Configurer A) (xs : List (Configurer A))
      → find j (insert c xs) ≡ (if c.name == j then some c else find j xs)
  unfolding insert
  find-insert j c [] = refl
  find-insert j c (x ∷ xs) =
      ground
        (arith, find-insert j c xs, text_beq_iff x.name j, text_beq_iff c.name j, less_irrefl j)

  find-sort : (j : Text) (cs : List (Configurer A)) → find j (sort cs) ≡ find j cs
  unfolding sort
  find-sort j [] = refl
  find-sort j (c ∷ cs) = ground (arith, find-insert j c (sort cs), find-sort j cs)

  find-values : (j : Text) (m : Configs A) → Keyed m → find j (values m) ≡ get j m
  unfolding get
  find-values j [] h = refl
  find-values j ((k, c) ∷ m) h = rw (h.0, find-values j m h.1.1) refl

  put_all-Keyed : (n m : Configs A) → Keyed n → Keyed m → Keyed (put_all (load_enabled n) m)
  unfolding put_all load_enabled
  put_all-Keyed [] m hn hm = hm
  put_all-Keyed ((k, c) ∷ n) m hn hm = elim (Bool-cases (is_enabled c)) [
    | inl e ↦
        rw e (put_all-Keyed n (put c.name c m) hn.1.1 (put-Keyed c m (λ f. hn.1.0 (hn.0 ∙ f)) hm))
    | inr e ↦ rw e (put_all-Keyed n m hn.1.1 hm)
  ]

  get-put_all :
      (j : Text) (n m : Configs A)
      → Wf n
      → get j (put_all (load_enabled n) m) ≡ first_of (if_enabled (get j n)) (get j m)
  unfolding put_all load_enabled is_enabled get
  get-put_all j [] m w = refl
  get-put_all j ((k, c) ∷ n) m w = elim (Bool-cases (is_enabled c)) [
    | inl e ↦ rw e (
        get-put_all j n (put c.name c m) (w.0.1, w.1.1.1)
        ∙ ground
            (arith, get-put c.name j c m, text_beq_iff k j, text_beq_iff c.name j, w.1.0, w.0.0))
    | inr e ↦ rw e (get-put_all j n m (w.0.1, w.1.1.1) ∙ ground (arith, text_beq_iff k j, w.0.0))
  ]

  find-one :
      (j : Text) (c : Configs A)
      → Wf c
      → find j (sort (values (put_all (load_enabled c) []))) ≡ if_enabled (get j c)
  unfolding get
  find-one j c w =
      let m = put_all (load_enabled c) [] in
      find-sort j (values m)
      ∙ find-values j m (put_all-Keyed c [] w.1 tt)
      ∙ get-put_all j c [] w
      ∙ first_of-none (if_enabled (get j c))

  find-two :
      (j : Text) (c s : Configs A)
      → Wf c
      → Wf s
      → find j (sort (values (put_all (load_enabled s) (put_all (load_enabled c) []))))
        ≡ first_of (if_enabled (get j s)) (if_enabled (get j c))
  unfolding get
  find-two j c s wc ws =
      let m = put_all (load_enabled c) [] in
      let n = put_all (load_enabled s) m in
      find-sort j (values n)
      ∙ find-values j n (put_all-Keyed s m ws.1 (put_all-Keyed c [] wc.1 tt))
      ∙ get-put_all j s m ws
      ∙ ap (first_of (if_enabled (get j s)))
          (get-put_all j c [] wc ∙ first_of-none (if_enabled (get j c)))

module _ {P V : Type 0} where
  abbrev WfSource : BaseSource P V → Type 0
  WfSource s = Wf s.proxies × Wf s.visitors

  abbrev WfStore : Option (BaseSource P V) → Type 0
  WfStore none = Unit
  WfStore (some s) = WfSource s

  -- what a name stands for: the store's configuration if it is enabled, else the file's if it is
  abbrev pub proxy_of : Aggregator P V → Text → Option (Configurer P)
  proxy_of a j = elim a.store_source [
    | none ↦ if_enabled (get j a.config_source.proxies)
    | some s ↦ first_of (if_enabled (get j s.proxies)) (if_enabled (get j a.config_source.proxies))
  ]

  abbrev pub visitor_of : Aggregator P V → Text → Option (Configurer V)
  visitor_of a j = elim a.store_source [
    | none ↦ if_enabled (get j a.config_source.visitors)
    | some s ↦
        first_of (if_enabled (get j s.visitors)) (if_enabled (get j a.config_source.visitors))
  ]

  abbrev pub WfAggregator : Aggregator P V → Type 0
  WfAggregator a = WfSource a.config_source × WfStore a.store_source

abbrev Loads : {P V : Type 0} → Aggregator P V → Type 0
Loads a =
    (Sorted (load_all a).0 × Sorted (load_all a).1)
    × ((j : Text)
        → (find j (load_all a).0 ≡ proxy_of a j) × (find j (load_all a).1 ≡ visitor_of a j))

loads :
    {P V : Type 0} (c : BaseSource P V) (o : Option (BaseSource P V))
    → WfSource c
    → WfStore o
    → Loads (record { config_source = c; store_source = o })
unfolding load_all maps_to_sorted_slices merge get_sources_locked load
loads c none wc wo =
    ((sort-Sorted _, sort-Sorted _), λ j. (find-one j c.proxies wc.0, find-one j c.visitors wc.1))
loads c (some s) wc ws = (
  (sort-Sorted _, sort-Sorted _),
  λ j. (find-two j c.proxies s.proxies wc.0 ws.0, find-two j c.visitors s.visitors wc.1 ws.1),
)

-- With sources whose configurations stand once each under their own, non-empty names, what the
-- aggregator loads is in the order of the names, and under every name it has the configuration of
-- the store if that is there and enabled, else that of the file if that is there and enabled, else
-- none.
pub load_all-Sorted :
    {P V : Type 0} (a : Aggregator P V)
    → WfAggregator a
    → (Sorted (load_all a).0 × Sorted (load_all a).1)
      × ((j : Text)
          → (find j (load_all a).0 ≡ proxy_of a j) × (find j (load_all a).1 ≡ visitor_of a j))
load_all-Sorted a h = loads a.config_source a.store_source h.0 h.1
