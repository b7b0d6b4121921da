-- ===== src/Client/Naming.antt =====
-- pkg/naming/names.go: the name of a proxy at the server, and back.
use cnfrp.Common.{
  ◌≡◌, refl, true, [], ◌∷◌, ◌++◌, ◌==◌, if◌then◌else◌, arith, Bool-cases, inl, inr, ℕ,
}
use cnfrp.Common.Bytes.{Text, text_eq, has_prefix}

abbrev pub dot : ℕ
dot = b'.'

unfoldable pub add_user_prefix : Text → Text → Text
add_user_prefix user name = if user == [] then name else user ++ (dot ∷ name)

-- the text without its prefix: `strings.CutPrefix`, where the prefix is there
unfoldable pub cut : Text → Text → Text
cut s [] = s
cut [] (c ∷ p) = []
cut (b ∷ s) (c ∷ p) = cut s p

unfoldable pub strip_user_prefix : Text → Text → Text
strip_user_prefix user name =
    if user == []
    then name
    else if has_prefix name (user ++ (dot ∷ []))
    then cut name (user ++ (dot ∷ []))
    else name

unfoldable pub build_target_server_proxy_name : Text → Text → Text → Text
build_target_server_proxy_name local_user server_user server_name =
    if server_user == []
    then add_user_prefix local_user server_name
    else add_user_prefix server_user server_name

prefix_of_added : (u n : Text) → has_prefix (u ++ (dot ∷ n)) (u ++ (dot ∷ [])) ≡ true
unfolding has_prefix
prefix_of_added [] n = refl
prefix_of_added (c ∷ u) n = ground (arith, prefix_of_added u n)

cut_of_added : (u n : Text) → cut (u ++ (dot ∷ n)) (u ++ (dot ∷ [])) ≡ n
unfolding cut
cut_of_added [] n = refl
cut_of_added (c ∷ u) n = cut_of_added u n

-- Stripping a user from the name that adding that user gives returns the name.
pub strip_user_prefix-add_user_prefix :
    (user name : Text) → strip_user_prefix user (add_user_prefix user name) ≡ name
unfolding strip_user_prefix add_user_prefix
strip_user_prefix-add_user_prefix user name = elim (Bool-cases (user == [])) [
  | inl e ↦ rw e refl
  | inr e ↦ rw (e, prefix_of_added user name) (cut_of_added user name)
]
