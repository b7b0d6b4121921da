-- ===== src/Visitor.antt =====
-- server/visitor/visitor.go, with InternalListener of pkg/util/net/listener.go and GetAuthKey of
-- pkg/util/util/util.go: the listeners of the proxies that only visitors reach. The manager and the
-- proxy share a listener, which is known by its address. `C` is the type of the connections;
-- `md5_hex` is the digest as text, `with_encryption` and `with_compression` are those of golib, and
-- `wrap` is WrapReadWriteCloserToConn.
pub mod Laws
pub mod Tests
use cnfrp.Common.{
  ℕ, zero, suc, ◌+◌, ◌/◌, ◌%◌, Bool, true, false, not, ◌&&◌, Option, none, some, List, [], ◌∷◌,
  ◌++◌, String, ◌==◌, string_eq, nat_eq, if◌then◌else◌, ltb, length, any,
}
use cnfrp.Common.Bytes.{Text, text_eq}
use cnfrp.Common.Dict.{Dict, get, put, del, has}
use cnfrp.Common.Integer.{ℤ, pos, negsuc}

-- `strconv.FormatInt` in base 10; the fuel is the number and one more
unfoldable pub digits : ℕ → ℕ → Text
digits zero n = []
digits (suc fuel) n =
    let front = digits fuel (n / 10) in
    if ltb n 10 then (b'0' + n) ∷ [] else front ++ ((b'0' + n % 10) ∷ [])

unfoldable pub format_int : ℤ → Text
unfolding digits
format_int (pos n) = digits (suc n) n
format_int (negsuc n) = b'-' ∷ digits (suc (suc n)) (suc n)

unfoldable pub get_auth_key : (Text → Text) → Text → ℤ → Text
unfolding format_int
get_auth_key md5_hex token timestamp = md5_hex (token ++ format_int timestamp)

-- the channel holds 128 connections
pub record InternalListener (C : Type 0) : Type 0 where
  pub accept_ch : List C
  pub closed : Bool

abbrev pub accept_size : ℕ
accept_size = 128

pub record ListenerBundle : Type 0 where
  pub l : ℕ
  pub sk : Text
  pub allow_users : List String

pub record Manager (C : Type 0) : Type 0 where
  pub listeners : Dict String ListenerBundle
  pub heap : Dict ℕ (InternalListener C)
  pub next : ℕ

-- the texts of `fmt.Errorf`
pub data VisitorError : Type 0 where
  repeated : String → VisitorError
  auth_failed : String → VisitorError
  user_not_allowed : String → String → VisitorError
  encryption_failed : VisitorError
  listener_closed : VisitorError
  no_listener : String → VisitorError

-- `slices.Contains`
unfoldable pub allows : List String → String → Bool
allows users user = any (λ u. u == user) users

-- the checks of the key and of the user
unfoldable pub check_visitor :
    (Text → Text) → String → ListenerBundle → ℤ → Text → String → Option VisitorError
unfolding get_auth_key allows
check_visitor md5_hex name b timestamp sign_key visitor_user =
    if not (get_auth_key md5_hex b.sk timestamp == sign_key)
    then some (auth_failed name)
    else if not (allows b.allow_users visitor_user) && not (allows b.allow_users "*")
    then some (user_not_allowed name visitor_user)
    else none

module _ {C : Type 0} where
  abbrev pub new_internal_listener : InternalListener C
  new_internal_listener = record { accept_ch = []; closed = false }

  -- a full channel drops the connection, a closed one panics, which is an error
  unfoldable pub put_conn : C → InternalListener C → Option VisitorError × InternalListener C
  put_conn conn l =
      if l.closed
      then (some listener_closed, l)
      else if ltb (length l.accept_ch) accept_size
      then (none, record l { accept_ch = l.accept_ch ++ (conn ∷ []) })
      else (none, l)

  -- `Accept` where it does not wait: a connection, or the error that the listener is closed
  unfoldable pub accept : InternalListener C → Option C × InternalListener C
  accept l = elim l.accept_ch [ [] ↦ (none, l) | c ∷ cs ↦ (some c, record l { accept_ch = cs }) ]

  unfoldable pub close_internal : InternalListener C → InternalListener C
  close_internal l = if not l.closed then record l { closed = true } else l

  abbrev pub new_manager : Manager C
  new_manager = record { listeners = []; heap = []; next = 0 }

  -- the address of the listener, or the error
  unfoldable pub listen :
      String → Text → List String → Manager C → (Option VisitorError × ℕ) × Manager C
  listen name sk allow_users m =
      if has name m.listeners then ((some (repeated name), m.next), m) else (
        (none, m.next),
        record m {
          listeners =
              put name (record { l = m.next; sk = sk; allow_users = allow_users }) m.listeners;
          heap = put m.next new_internal_listener m.heap;
          next = suc m.next;
        },
      )

  unfoldable pub close_listener : String → Manager C → Manager C
  close_listener name m = record m { listeners = del name m.listeners }

  -- `PutConn` on the listener at an address
  unfoldable pub put_at : ℕ → C → Manager C → Option VisitorError × Manager C
  unfolding put_conn
  put_at a conn m = elim (get a m.heap) [
    | none ↦ (some listener_closed, m)
    | some l ↦ let (err, after) = put_conn conn l in (err, record m { heap = put a after m.heap })
  ]

  module _ (md5_hex : Text → Text) (with_encryption : Text → C → Option C)
      (with_compression : C → C) (wrap : C → C → C) where
    abbrev pub compressed : Bool → C → C
    compressed use_compression rwc = if use_compression then with_compression rwc else rwc

    -- a visitor who may come in
    unfoldable pub admit :
        ListenerBundle → C → Bool → Bool → Manager C → Option VisitorError × Manager C
    unfolding put_at
    admit b conn use_encryption use_compression m =
        elim (if use_encryption then with_encryption b.sk conn else some conn) [
          | none ↦ (some encryption_failed, m)
          | some rwc ↦ put_at b.l (wrap (compressed use_compression rwc) conn) m
        ]

    unfoldable pub new_conn :
        String → C → ℤ → Text → Bool → Bool → String → Manager C → Option VisitorError × Manager C
    unfolding check_visitor admit
    new_conn name conn timestamp sign_key use_encryption use_compression visitor_user m =
        elim (get name m.listeners) [
          | none ↦ (some (no_listener name), m)
          | some b ↦ elim (check_visitor md5_hex name b timestamp sign_key visitor_user) [
            | some err ↦ (some err, m)
            | none ↦ admit b conn use_encryption use_compression m
          ]
        ]
