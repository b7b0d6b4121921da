-- ===== src/Vhost/Muxer/Laws.antt =====
-- What `getListener` may choose.
use cnfrp.Common.{String, ◌≡◌, sym, ◌∙◌, Option, none, some, List, [], ◌∷◌, ◌++◌, inl, inr, ◌⊎◌}
use mathlib.Core.List.{append_assoc}
use cnfrp.Common.Bytes.{Text, join, split, join-split, join_from}
use cnfrp.Vhost.Router.{Routers}
use cnfrp.Vhost.Muxer.{star, dot, or_else, find_router, find_wildcard, get_listener}

-- A registered domain fits a host: it is the host, it is `*`, or it is `*.` before a part of the
-- host that begins after a dot and has a dot in it.
pub data Fits (host : Text) : Text → Type 0 where
  exact : Fits host host
  wildcard :
      (before domain rest : Text)
      → host ≡ before ++ (dot ∷ (domain ++ (dot ∷ rest)))
      → Fits host (star ++ (dot ∷ (domain ++ (dot ∷ rest))))
  all : Fits host star

module _ {ℓ} {P : Type ℓ} where
  -- What is chosen is registered under a domain that fits.
  abbrev pub FoundIn : Text → Text → String → Routers P → P → Type ℓ
  FoundIn host path user table p =
      (d : Text) × Fits host d × (find_router d path user table ≡ some p)

  or_else-cases : (a b : Option P) (p : P) → or_else a b ≡ some p → (a ≡ some p) ⊎ (b ≡ some p)
  or_else-cases none b p e = inr e
  or_else-cases (some a) b p e = inl e

  find_wildcard-FoundIn :
      (host before : Text) (labels : List Text) (path : Text) (user : String) (table : Routers P)
      (p : P)
      → host ≡ before ++ join dot labels
      → find_wildcard labels path user table ≡ some p
      → FoundIn host path user table p
  unfolding find_wildcard join join_from
  find_wildcard-FoundIn host before [] path user table p h e = cc
  find_wildcard-FoundIn host before (a ∷ []) path user table p h e = cc
  find_wildcard-FoundIn host before (a ∷ b ∷ []) path user table p h e = cc
  find_wildcard-FoundIn host before (a ∷ b ∷ c ∷ rest) path user table p h e =
      elim (or_else-cases _ _ p e) [
        | inl now ↦ (
          _,
          wildcard (before ++ a) b (join_from dot c rest) (h ∙ sym (append_assoc before a _)),
          now,
        )
        | inr later ↦
            find_wildcard-FoundIn host (before ++ (a ++ (dot ∷ []))) (b ∷ c ∷ rest) path user table
              p (h ∙ simp append_assoc) later
      ]

  pub get_listener-FoundIn :
      (name path : Text) (user : String) (table : Routers P) (p : P)
      → get_listener name path user table ≡ some p
      → FoundIn name path user table p
  unfolding get_listener
  get_listener-FoundIn name path user table p e = elim (or_else-cases _ _ p e) [
    | inl h ↦ (name, exact, h)
    | inr later ↦ elim (or_else-cases _ _ p later) [
      | inl h ↦
          find_wildcard-FoundIn name [] (split dot name) path user table p
            (sym (join-split dot name)) h
      | inr h ↦ (star, all, h)
    ]
  ]
