-- ===== src/Visitor/Laws.antt =====
-- server/visitor/visitor.go, `NewConn`: who reaches a proxy.
use cnfrp.Common.{
  List, OneOf, any_iff, length, ◌≤◌, arith, ltb, [], ◌∷◌, zero, suc, ◌+◌, ◌/◌, ◌%◌, ◌<◌, ◌++◌, ℕ,
  ◌≡◌, refl, ap, ◌∙◌, Bool, true, false, not, ◌&&◌, Option, none, some, String, string_eq, nat_eq,
  if◌then◌else◌, ◌⊎◌, inl, inr, Option-cases, Bool-cases, eqb, eqb_iff,
}
use cnfrp.Common.Bytes.{Text, text_eq, text_beq_iff}
use cnfrp.Common.Dict.{get, put, get-put, get-put_self}
use cnfrp.Common.Integer.{ℤ}
use cnfrp.Visitor.{
  digits, InternalListener, VisitorError, listener_closed, encryption_failed, ListenerBundle,
  Manager, get_auth_key, format_int, allows, put_conn, put_at, admit, check_visitor, new_conn,
  compressed,
}

-- Fuel above the number is enough for its digits.
digits-enough : (fuel n : ℕ) → n < fuel → digits (suc fuel) n ≡ digits fuel n
unfolding digits
digits-enough zero n h = absurd (omega arith)
digits-enough (suc fuel) n h = elim (Bool-cases (ltb n 10)) [
  | inl e ↦ rw e refl
  | inr e ↦
      let below : n / 10 < fuel = ground arith in
      rw e
        (ap (λ (front : Text). front ++ ((b'0' + n % 10) ∷ [])) (digits-enough fuel (n / 10) below))
]

-- The visitor has the key of the bundle for its time, and the bundle allows it or everyone.
abbrev pub MayEnter : (Text → Text) → ListenerBundle → ℤ → Text → String → Type 0
MayEnter md5_hex b timestamp sign_key user =
    (md5_hex (b.sk ++ format_int timestamp) ≡ sign_key)
    × (OneOf b.allow_users user ⊎ OneOf b.allow_users "*")

-- No error: both tests failed.
tests_failed {ℓ} :
    {E : Type ℓ} (b c : Bool) (x y : E)
    → (if not b then some x else if c then some y else none) ≡ none
    → (b ≡ true) × (c ≡ false)
tests_failed true true x y h = cc
tests_failed true false x y h = (refl, refl)
tests_failed false c x y h = cc

one_allowed : (a b : Bool) → (not a && not b) ≡ false → (a ≡ true) ⊎ (b ≡ true)
one_allowed true b h = inl refl
one_allowed false true h = inr refl
one_allowed false false h = cc

check_visitor-none :
    (md5_hex : Text → Text) (name : String) (b : ListenerBundle) (timestamp : ℤ) (sign_key : Text)
    (user : String)
    → check_visitor md5_hex name b timestamp sign_key user ≡ none
    → MayEnter md5_hex b timestamp sign_key user
unfolding check_visitor get_auth_key allows
check_visitor-none md5_hex name b timestamp sign_key user h =
    let (key, allowed) = tests_failed _ _ _ _ h in
    (
      (text_beq_iff (get_auth_key md5_hex b.sk timestamp) sign_key).0 key,
      elim (one_allowed _ _ allowed) [
        | inl e ↦ inl ((any_iff b.allow_users user).0 e)
        | inr e ↦ inr ((any_iff b.allow_users "*").0 e)
      ],
    )

tests_passed {ℓ} :
    {E : Type ℓ} (b c : Bool) (x y : E)
    → b ≡ true
    → c ≡ false
    → (if not b then some x else if c then some y else none) ≡ none
tests_passed true true x y h k = cc
tests_passed true false x y h k = refl
tests_passed false c x y h k = cc

none_refused : (a b : Bool) → (a ≡ true) ⊎ (b ≡ true) → (not a && not b) ≡ false
none_refused a b h = ground arith

check_visitor-MayEnter :
    (md5_hex : Text → Text) (name : String) (b : ListenerBundle) (timestamp : ℤ) (sign_key : Text)
    (user : String)
    → MayEnter md5_hex b timestamp sign_key user
    → check_visitor md5_hex name b timestamp sign_key user ≡ none
unfolding check_visitor get_auth_key allows
check_visitor-MayEnter md5_hex name b timestamp sign_key user (key, allowed) =
    tests_passed _ _ _ _ ((text_beq_iff (get_auth_key md5_hex b.sk timestamp) sign_key).1 key) (
      none_refused _ _ (elim allowed [
        | inl e ↦ inl ((any_iff b.allow_users user).1 e)
        | inr e ↦ inr ((any_iff b.allow_users "*").1 e)
      ]))

module _ {C : Type 0} where
  -- What a listener `l` makes of a connection, with the error and the listener after it: closed, it
  -- reports that; open, it queues the connection behind at most 127 others, and else drops it.
  pub record Received (conn : C) (l : InternalListener C) (err : Option VisitorError)
      (after : Option (InternalListener C)) : Type 0 where
    pub closed : l.closed ≡ true → (err ≡ some listener_closed) × (after ≡ some l)
    pub queued :
        l.closed ≡ false
        → length l.accept_ch < 128
        → (err ≡ none)
          × (after ≡ some (record { accept_ch = l.accept_ch ++ (conn ∷ []); closed = false }))
    pub full : l.closed ≡ false → 128 ≤ length l.accept_ch → (err ≡ none) × (after ≡ some l)

  put_conn-Received :
      (conn : C) (queue : List C) (c : Bool)
      → let l : InternalListener C = record { accept_ch = queue; closed = c } in
        Received conn l (put_conn conn l).0 (some (put_conn conn l).1)
  unfolding put_conn
  put_conn-Received conn queue true = record {
    closed = λ e. (refl, refl);
    queued = λ e. cc;
    full = λ e. cc;
  }
  put_conn-Received conn queue false = record {
    closed = λ e. cc;
    queued =
        λ e few. let room : ltb (length queue) 128 ≡ true = ground arith in rw room (refl, refl);
    full = λ e many.
        let no_room : ltb (length queue) 128 ≡ false = ground arith in rw no_room (refl, refl);
  }

  put_at-Received :
      (a : ℕ) (conn : C) (m : Manager C) (l : InternalListener C)
      → get a m.heap ≡ some l
      → Received conn l (put_at a conn m).0 (get a (put_at a conn m).1.heap)
  unfolding put_at
  put_at-Received a conn m l e =
      let found : put_at a conn m
          ≡ ((put_conn conn l).0, record m { heap = put a (put_conn conn l).1 m.heap }) =
        rw (put_at, e) refl in
      rw (found, get-put_self a (put_conn conn l).1 m.heap)
        (put_conn-Received conn l.accept_ch l.closed)

  put_at-get :
      (a : ℕ) (conn : C) (m : Manager C) (other : ℕ)
      → (get other (put_at a conn m).1.heap ≡ get other m.heap) ⊎ (a ≡ other)
  unfolding put_at
  put_at-get a conn m other = elim (Option-cases (get a m.heap)) [
    | inl e ↦ rw (put_at, e) (inl refl)
    | inr (l, e) ↦ elim (Bool-cases (eqb a other)) [
      | inl same ↦ inr ((eqb_iff a other).0 same)
      | inr apart ↦ inl (
          rw (put_at, e)
            (get-put a other (put_conn conn l).1 m.heap
              ∙ ap (λ t. if t then some (put_conn conn l).1 else get other m.heap) apart))
    ]
  ]

  module _ (md5_hex : Text → Text) (with_encryption : Text → C → Option C)
      (with_compression : C → C) (wrap : C → C → C) where
    admit-get :
        (b : ListenerBundle) (conn : C) (use_encryption use_compression : Bool) (m : Manager C)
        (other : ℕ)
        → (get other
              (admit md5_hex with_encryption with_compression wrap b conn use_encryption
                use_compression m).1.heap
            ≡ get other m.heap)
          ⊎ (b.l ≡ other)
    unfolding admit
    admit-get b conn use_encryption use_compression m other =
        elim (Option-cases (if use_encryption then with_encryption b.sk conn else some conn)) [
          | inl e ↦ rw (admit, e) (inl refl)
          | inr (rwc, e) ↦
              rw (admit, e)
                (put_at-get b.l
                  (wrap
                    (compressed md5_hex with_encryption with_compression wrap use_compression rwc)
                    conn)
                  m other)
        ]

    -- What a visitor who may enter the proxy of a bundle gets, with the result of a call: an error
    -- if the connection cannot be encrypted with the key of the bundle; otherwise the listener of
    -- the bundle receives the connection, encrypted and compressed as the visitor asks.
    pub record Admitted (b : ListenerBundle) (conn : C) (use_encryption use_compression : Bool)
        (m : Manager C) (result : Option VisitorError × Manager C) : Type 0 where
      pub not_encrypted :
          use_encryption ≡ true
          → with_encryption b.sk conn ≡ none
          → result ≡ (some encryption_failed, m)
      pub received :
          (rwc : C)
          → (if use_encryption then with_encryption b.sk conn else some conn) ≡ some rwc
          → (l : InternalListener C) → get b.l m.heap ≡ some l
          → Received
              (wrap (if use_compression then with_compression rwc else rwc) conn)
              l
              result.0
              (get b.l result.1.heap)

    admit-Admitted :
        (b : ListenerBundle) (conn : C) (use_encryption use_compression : Bool) (m : Manager C)
        → Admitted b conn use_encryption use_compression m (
            admit md5_hex with_encryption with_compression wrap b conn use_encryption
              use_compression m)
    unfolding admit
    admit-Admitted b conn use_encryption use_compression m = record {
      not_encrypted = λ on e. rw (admit, on, e) refl;
      received = λ rwc e l at. rw (admit, e) (put_at-Received b.l _ m l at);
    }

    new_conn-Entered :
        (name : String) (conn : C) (timestamp : ℤ) (sign_key : Text)
        (use_encryption use_compression : Bool) (visitor_user : String) (m : Manager C) (a : ℕ)
        → let after =
            new_conn md5_hex with_encryption with_compression wrap name conn timestamp sign_key
              use_encryption use_compression visitor_user m in
          (get a after.1.heap ≡ get a m.heap)
          ⊎ (b : ListenerBundle) × (get name m.listeners ≡ some b)
            × (b.l ≡ a)
            × MayEnter md5_hex b timestamp sign_key visitor_user
    unfolding new_conn
    new_conn-Entered name conn timestamp sign_key use_encryption use_compression visitor_user m a =
        elim (Option-cases (get name m.listeners)) [
          | inl e ↦ rw (new_conn, e) (inl refl)
          | inr (b, e) ↦
              elim (Option-cases (check_visitor md5_hex name b timestamp sign_key visitor_user)) [
                | inr (err, k) ↦ rw (new_conn, e, k) (inl refl)
                | inl k ↦
                    rw (new_conn, e, k)
                      (elim (admit-get b conn use_encryption use_compression m a) [
                        | inl same ↦ inl same
                        | inr at ↦ inr (
                          b,
                          refl,
                          at,
                          check_visitor-none md5_hex name b timestamp sign_key visitor_user k,
                        )
                      ])
              ]
        ]

    -- NewConn changes the listener at an address only if this is the listener of the bundle that is
    -- registered under the name, the key that was sent is the digest of the key of the bundle and
    -- the time that was sent, and the bundle lists the user or the star. Where there is such a
    -- bundle: if the connection is to be encrypted and cannot be, NewConn reports that and changes
    -- nothing; otherwise the connection, encrypted and compressed as asked, comes behind those that
    -- wait at the listener of the bundle, without an error, unless 128 wait, when it is dropped
    -- without an error, or the listener is closed, which is an error.
    pub new_conn-MayEnter :
        (name : String) (conn : C) (timestamp : ℤ) (sign_key : Text)
        (use_encryption use_compression : Bool) (visitor_user : String) (m : Manager C)
        → let after =
            new_conn md5_hex with_encryption with_compression wrap name conn timestamp sign_key
              use_encryption use_compression visitor_user m in
          ((a : ℕ)
            → (get a after.1.heap ≡ get a m.heap)
              ⊎ (b : ListenerBundle) × (get name m.listeners ≡ some b)
                × (b.l ≡ a)
                × MayEnter md5_hex b timestamp sign_key visitor_user)
          × ((b : ListenerBundle)
              → get name m.listeners ≡ some b
              → MayEnter md5_hex b timestamp sign_key visitor_user
              → Admitted b conn use_encryption use_compression m after)
    unfolding new_conn
    new_conn-MayEnter name conn timestamp sign_key use_encryption use_compression visitor_user m = (
      (λ a.
          new_conn-Entered name conn timestamp sign_key use_encryption use_compression visitor_user
            m a),
      (λ b e may.
          rw
            (new_conn, e, check_visitor-MayEnter md5_hex name b timestamp sign_key visitor_user may)
            (admit-Admitted b conn use_encryption use_compression m)),
    )
