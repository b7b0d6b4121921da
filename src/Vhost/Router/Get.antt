-- ===== src/Vhost/Router/Get.antt =====
-- `Get` after any calls: it answers the longest registered location.
use cnfrp.Common.{
  String, ◌≡◌, Bool, true, false, Option, none, some, List, [], ◌∷◌, string_eq, length,
  if◌then◌else◌, is_some, Bool-cases, inl, inr, ◌≤◌,
}
use cnfrp.Common.Bytes.{Text, text_eq, has_prefix, to_lower}
use cnfrp.Common.Dict.{get}
use cnfrp.Vhost.Router.{
  Router, Routers, routers_of, exist, add_sorted, add, del, get_router, Call, adds, dels, step, run,
}
use cnfrp.Vhost.Router.Order.{Sorted, Longest, sort-Sorted, keep-Sorted, find_prefix-Longest}
use cnfrp.Vhost.Router.Laws.{routers_of-add_sorted, routers_of-del}

module _ {ℓ} {P : Type ℓ} where
  -- Every list of the table has its greatest location first.
  abbrev pub IsSorted : Routers P → Type 0
  IsSorted table = (d : Text) (u : String) → Sorted (routers_of d u table)

  if-Sorted :
      (b : Bool) (xs ys : List (Router P)) → Sorted xs → Sorted ys → Sorted (if b then xs else ys)
  if-Sorted true xs ys hx hy = hx
  if-Sorted false xs ys hx hy = hy

  add_sorted-IsSorted :
      (d l : Text) (u : String) (payload : P) (table : Routers P)
      → IsSorted table
      → IsSorted (add_sorted d l u payload table)
  add_sorted-IsSorted d l u payload table s d' u' =
      rw routers_of-add_sorted (if-Sorted _ _ (routers_of d' u' table) (sort-Sorted _) (s d' u'))

  del-IsSorted :
      (d l : Text) (u : String) (table : Routers P) → IsSorted table → IsSorted (del d l u table)
  del-IsSorted d l u table s d' u' =
      rw routers_of-del
        (if-Sorted _ _ (routers_of d' u' table) (keep-Sorted _ _ (s (to_lower d) u)) (s d' u'))

  step-IsSorted : (table : Routers P) (c : Call P) → IsSorted table → IsSorted (step table c)
  unfolding step add
  step-IsSorted table (adds d l u payload) s =
      elim (Bool-cases (is_some (exist (to_lower d) l u table))) [
        | inl h ↦ rw (h, step) s
        | inr h ↦ rw (h, step) (add_sorted-IsSorted (to_lower d) l u payload table s)
      ]
  step-IsSorted table (dels d l u) s = del-IsSorted d l u table s

  run-IsSorted : (table : Routers P) (cs : List (Call P)) → IsSorted table → IsSorted (run table cs)
  unfolding run
  run-IsSorted table [] s = s
  run-IsSorted table (c ∷ cs) s = run-IsSorted (step table c) cs (step-IsSorted table c s)

IsSorted-empty {ℓ} : (P : Type ℓ) → IsSorted {P = P} []
unfolding routers_of get
IsSorted-empty P d u = tt

module _ {ℓ} {P : Type ℓ} where
  -- What `Get` may answer: the registration with the longest location that is a prefix of the
  -- path, or nothing where no registered location is one.
  abbrev pub Answer : Text → Text → String → Routers P → Option (Router P) → Type ℓ
  Answer host path user table none =
      (k : Text) (r : Router P)
      → exist (to_lower host) k user table ≡ some r
      → has_prefix path k ≡ false
  Answer host path user table (some r) =
      (has_prefix path r.location ≡ true)
      × (exist (to_lower host) r.location user table ≡ some r)
      × ((k : Text) (x : Router P)
          → exist (to_lower host) k user table ≡ some x
          → has_prefix path k ≡ true
          → length k ≤ length r.location)

  Answer-Longest :
      (host path : Text) (user : String) (table : Routers P) (o : Option (Router P))
      → Longest path (routers_of (to_lower host) user table) o
      → Answer host path user table o
  unfolding exist
  Answer-Longest host path user table none l = l
  Answer-Longest host path user table (some r) l = l

  -- After any sequence of Add and Del calls on an empty table, Get answers the registration of the
  -- lower-cased host and the user whose location is the longest registered prefix of the path, and
  -- answers nothing only where no registered location is a prefix of the path.
  pub get_router-run :
      (cs : List (Call P)) (host path : Text) (user : String)
      → Answer host path user (run [] cs) (get_router host path user (run [] cs))
  unfolding get_router
  get_router-run cs host path user = Answer-Longest host path user (run [] cs) _ (
      find_prefix-Longest path (routers_of (to_lower host) user (run [] cs))
        (run-IsSorted [] cs (IsSorted-empty P) (to_lower host) user))
