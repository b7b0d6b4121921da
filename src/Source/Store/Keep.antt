-- ===== src/Source/Store/Keep.antt =====
-- One kind of configuration in the store: what each change keeps, and what it answers.
use cnfrp.Common.{
  ◌≡◌, ◌≢◌, refl, sym, subst, ◌∙◌, Bool, true, false, Option, none, some, [], ◌∷◌, arith, ◌==◌,
  Option-cases, Bool-cases, inl, inr,
}
use cnfrp.Common.Bytes.{Text, text_eq, text_beq_iff}
use cnfrp.Common.Dict.{get, put, del, get-put, get-del, Distinct, put-Distinct, del-Distinct}
use cnfrp.Source.{Configurer, Configs}
use cnfrp.Source.Store.{
  Disk, Saver, Change, persisted, add, update_found, update, remove_found, remove,
}

-- each configuration stands under its own name, which is not empty
abbrev pub Keyed : {A : Type 0} → Configs A → Type 0
Keyed [] = Unit
Keyed ((k, c) ∷ m) = (k ≡ c.name) × ((k ≢ []) × Keyed m)

abbrev pub Wf : {A : Type 0} → Configs A → Type 0
Wf m = Distinct m × Keyed m

abbrev pub SameGet : {A : Type 0} → Configs A → Configs A → Type 0
SameGet m n = (j : Text) → get j m ≡ get j n

pub put-Keyed :
    {A : Type 0} (c : Configurer A) (m : Configs A) → c.name ≢ [] → Keyed m → Keyed (put c.name c m)
unfolding put
put-Keyed c [] ne h = (refl, (ne, tt))
put-Keyed c ((k, b) ∷ m) ne h = elim (Bool-cases (k == c.name)) [
  | inl e ↦ rw e (refl, (ne, h.1.1))
  | inr e ↦ rw e (h.0, (h.1.0, put-Keyed c m ne h.1.1))
]

pub del-Keyed : {A : Type 0} (k : Text) (m : Configs A) → Keyed m → Keyed (del k m)
unfolding del
del-Keyed k [] h = tt
del-Keyed k ((j, b) ∷ m) h = elim (Bool-cases (j == k)) [
  | inl e ↦ rw e (del-Keyed k m h.1.1)
  | inr e ↦ rw e (h.0, (h.1.0, del-Keyed k m h.1.1))
]

get-Keyed :
    {A : Type 0} (k : Text) (old : Configurer A) (m : Configs A)
    → Keyed m
    → get k m ≡ some old
    → (old.name ≡ k) × (k ≢ [])
unfolding get
get-Keyed k old [] h e = cc
get-Keyed k old ((j, b) ∷ m) h e = elim (Bool-cases (j == k)) [
  | inl same ↦ ground (arith, text_beq_iff j k)
  | inr other ↦ get-Keyed k old m h.1.1 (ground arith)
]

-- what an answered change does to the lookups: `before` is taken where it is refused
pub put_back-SameGet :
    {A : Type 0} (c : Configurer A) (k : Text) (b : Configurer A) (m : Configs A)
    → c.name ≡ k
    → get k m ≡ some b
    → SameGet m (put k b (put c.name c m))
put_back-SameGet c k b m e found j =
    ground (arith, get-put k j b (put c.name c m), get-put c.name j c m, text_beq_iff k j)

pub undo_del-SameGet :
    {A : Type 0} (k : Text) (b : Configurer A) (m : Configs A)
    → get k m ≡ some b
    → SameGet m (put k b (del k m))
undo_del-SameGet k b m found j =
    ground (arith, get-put k j b (del k m), get-del k j m, text_beq_iff k j)

pub undo_put-SameGet :
    {A : Type 0} (c : Configurer A) (m : Configs A)
    → get c.name m ≡ none
    → SameGet m (del c.name (put c.name c m))
undo_put-SameGet c m missing j =
    ground (arith, get-del c.name j (put c.name c m), get-put c.name j c m, text_beq_iff c.name j)

-- What the rest of the store and the disk keep, for a map and a disk.
pub record Promise (A F : Type 0) (save : Saver A F) (d : Disk F) : Type 1 where
  pub Good : Configs A → Disk F → Type 0
  pub respects : (m n : Configs A) (d2 : Disk F) → SameGet m n → Good m d2 → Good n d2
  pub saved : (m : Configs A) → Wf m → (save m).0 ≡ true → Good m (save m).1
  pub unsaved : (m n : Configs A) → (save m).0 ≡ false → Good n d → Good n (save m).1

module _ {A F : Type 0} {save : Saver A F} {d : Disk F} (p : Promise A F save d) where
  abbrev Kept : Change A F → Type 0
  Kept c = Wf c.1.0 × p.Good c.1.0 c.1.1

  persisted_pair-Kept :
      (r : Bool × Disk F) (n back : Configs A)
      → Wf n
      → Wf back
      → (r.0 ≡ true → p.Good n r.1)
      → (r.0 ≡ false → p.Good back r.1)
      → Kept (persisted r n back)
  unfolding persisted
  persisted_pair-Kept (true, d2) n back wn wb ok bad = (wn, ok refl)
  persisted_pair-Kept (false, d2) n back wn wb ok bad = (wb, bad refl)

  persisted-Kept :
      (m n back : Configs A)
      → Wf n
      → Wf back
      → SameGet m back
      → p.Good m d
      → Kept (persisted (save n) n back)
  persisted-Kept m n back wn wb same g =
      persisted_pair-Kept (save n) n back wn wb (p.saved n wn)
        (λ e. p.unsaved n back e (p.respects m back d same g))

  put-Wf : (c : Configurer A) (m : Configs A) → c.name ≢ [] → Wf m → Wf (put c.name c m)
  put-Wf c m ne w = (put-Distinct c.name c m w.0, put-Keyed c m ne w.1)

  del-Wf : (k : Text) (m : Configs A) → Wf m → Wf (del k m)
  del-Wf k m w = (del-Distinct k m w.0, del-Keyed k m w.1)

  put_back-Wf :
      (k : Text) (old : Configurer A) (m : Configs A)
      → (old.name ≡ k) × (k ≢ [])
      → Wf m
      → Wf (put k old m)
  put_back-Wf k old m (e, ne) w =
      subst (λ i. Wf (put i old m)) e (put-Wf old m (λ f. ne (sym e ∙ f)) w)

  pub add-Kept :
      (c : Option (Configurer A)) (m : Configs A) → Wf m → p.Good m d → Kept (add save c m d)
  unfolding add
  add-Kept none m w g = (w, g)
  add-Kept (some c) m w g = elim (Bool-cases (c.name == [])) [
    | inl unnamed ↦ rw unnamed (w, g)
    | inr named ↦ elim (Option-cases (get c.name m)) [
      | inr (b, e) ↦ rw (named, e) (w, g)
      | inl e ↦
          rw (named, e)
            (let w2 = put-Wf c m (ground (arith, text_beq_iff c.name [])) w in
              persisted-Kept m (put c.name c m) (del c.name (put c.name c m)) w2
                (del-Wf c.name (put c.name c m) w2) (undo_put-SameGet c m e) g)
    ]
  ]

  pub update-Kept :
      (c : Option (Configurer A)) (m : Configs A) → Wf m → p.Good m d → Kept (update save c m d)
  unfolding update update_found
  update-Kept none m w g = (w, g)
  update-Kept (some c) m w g = elim (Bool-cases (c.name == [])) [
    | inl unnamed ↦ rw unnamed (w, g)
    | inr named ↦ elim (Option-cases (get c.name m)) [
      | inl e ↦ rw (named, e) (w, g)
      | inr (old, e) ↦
          rw (named, e)
            (let k = get-Keyed c.name old m w.1 e in
              let w2 = put-Wf c m k.1 w in
              persisted-Kept m (put c.name c m) (put c.name old (put c.name c m)) w2
                (put_back-Wf c.name old (put c.name c m) k w2)
                (put_back-SameGet c c.name old m refl e) g)
    ]
  ]

  pub remove-Kept : (name : Text) (m : Configs A) → Wf m → p.Good m d → Kept (remove save name m d)
  unfolding remove remove_found
  remove-Kept name m w g = elim (Bool-cases (name == [])) [
    | inl unnamed ↦ rw unnamed (w, g)
    | inr named ↦ elim (Option-cases (get name m)) [
      | inl e ↦ rw (named, e) (w, g)
      | inr (old, e) ↦
          rw (named, e)
            (let w2 = del-Wf name m w in
              persisted-Kept m (del name m) (put name old (del name m)) w2
                (put_back-Wf name old (del name m) (get-Keyed name old m w.1 e) w2)
                (undo_del-SameGet name old m e) g)
    ]
  ]
