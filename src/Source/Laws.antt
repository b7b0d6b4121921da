-- ===== src/Source/Laws.antt =====
-- The configuration file's source: a replacement is all or nothing.
use cnfrp.Common.{
  ◌≡◌, ◌≢◌, ◌⊎◌, refl, ◌∙◌, true, false, Option, none, some, List, [], ◌∷◌, arith, ◌==◌,
  if◌then◌else◌, Bool-cases, inl, inr,
}
use cnfrp.Common.Bytes.{Text, text_eq, text_beq_iff}
use cnfrp.Common.Dict.{get, put, get-put, put-Distinct}
use cnfrp.Source.{Configurer, Configs, BaseSource, collect, replace_all}
use cnfrp.Source.Store.Keep.{Wf, put-Keyed}
use cnfrp.Common.{first_of, first_of-none}

module _ {A : Type 0} where
  -- the last configuration of a name in a list
  abbrev pub last : Text → List (Option (Configurer A)) → Option (Configurer A)
  last j [] = none
  last j (none ∷ cs) = last j cs
  last j (some c ∷ cs) = first_of (last j cs) (if c.name == j then some c else none)

  -- every entry is there and has a name
  abbrev pub Named : List (Option (Configurer A)) → Type 0
  Named [] = Unit
  Named (none ∷ cs) = ⊥
  Named (some c ∷ cs) = (c.name ≢ []) × Named cs

  abbrev Collected : List (Option (Configurer A)) → Configs A → Configs A → Type 0
  Collected cs m n = Wf n × ((j : Text) → get j n ≡ first_of (last j cs) (get j m))

  collected :
      (cs : List (Option (Configurer A))) (m : Configs A)
      → Wf m
      → ((n : Configs A) × ((collect cs m ≡ some n) × (Named cs × Collected cs m n)))
        ⊎ ((collect cs m ≡ none) × ¬ Named cs)
  unfolding collect
  collected [] m w = inl (m, (refl, (tt, (w, λ j. refl))))
  collected (none ∷ cs) m w = inr (refl, λ h. h)
  collected (some c ∷ cs) m w = elim (Bool-cases (c.name == [])) [
    | inl unnamed ↦ inr (rw unnamed refl, λ h. h.0 ((text_beq_iff c.name []).0 unnamed))
    | inr named ↦
        let ne : c.name ≢ [] = ground (arith, text_beq_iff c.name []) in
        elim (collected cs (put c.name c m) (put-Distinct c.name c m w.0, put-Keyed c m ne w.1)) [
          | inl (n, (e, (all, (wn, gets)))) ↦ inl (
            n,
            (rw named e, ((ne, all), (wn, λ j. ground (arith, gets j, get-put c.name j c m)))),
          )
          | inr (e, bad) ↦ inr (rw named e, λ h. bad h.1)
        ]
  ]

-- A replacement succeeds exactly if every proxy and visitor is there and has a name: then each name
-- has the last configuration of that name in the lists, and the maps hold each configuration once,
-- under its own name. Otherwise the source is as before.
pub replace_all-atomic :
    {P V : Type 0} (ps : List (Option (Configurer P))) (vs : List (Option (Configurer V)))
    (s : BaseSource P V)
    → let r = replace_all ps vs s in
      ((Named ps × Named vs)
        × ((r.0 ≡ true)
            × ((Wf r.1.proxies × Wf r.1.visitors)
                × ((j : Text)
                    → (get j r.1.proxies ≡ last j ps) × (get j r.1.visitors ≡ last j vs)))))
      ⊎ ((¬ (Named ps × Named vs)) × ((r.0 ≡ false) × (r.1 ≡ s)))
unfolding replace_all get
replace_all-atomic ps vs s = elim (collected ps [] (tt, tt)) [
  | inr (e, bad) ↦ inr ((λ h. bad h.0), rw (replace_all, e) (refl, refl))
  | inl (np, (ep, (hp, (wp, gp)))) ↦ elim (collected vs [] (tt, tt)) [
    | inr (e, bad) ↦ inr ((λ h. bad h.1), rw (replace_all, ep, e) (refl, refl))
    | inl (nv, (ev, (hv, (wv, gv)))) ↦ inl (
      (hp, hv),
      rw (replace_all, ep, ev)
          (
            refl,
            ((wp, wv), λ j. (gp j ∙ first_of-none (last j ps), gv j ∙ first_of-none (last j vs))),
          ),
    )
  ]
]
