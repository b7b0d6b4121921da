-- ===== src/Control/Pool/Laws.antt =====
-- server/control.go: no work connection is lost or handed out twice.
use cnfrp.Common.{
  ℕ, ◌≤◌, ◌≡◌, refl, sym, ap, ◌∙◌, Bool, true, false, List, [], ◌∷◌, ◌++◌, ltb, length, arith,
  if_cases, length-append,
}
use mathlib.Core.List.{append_assoc, append-nil}
use cnfrp.Control.Pool.{
  WorkConns, new_work_conns, RegisterAnswer, register_work_conn, get_work_conn, await_work_conn,
  close_work_conns, Trace, PoolCall, registers, gets, awaits, ends, no_trace, accepted_by,
  pool_step, pool_run,
}

module _ {C : Type 0} where
  -- Every accepted connection was handed out, was dropped at the end or waits, in the order of
  -- acceptance; after the end none waits, and before it none was dropped; no more wait than fit.
  pub record Kept (s : WorkConns C × Trace C) : Type 0 where
    pub order : s.1.accepted ≡ s.1.handed ++ (s.1.dropped ++ s.0.waiting)
    pub after_end : s.0.closed ≡ true → s.0.waiting ≡ []
    pub before_end : s.0.closed ≡ false → s.1.dropped ≡ []
    pub fits : length s.0.waiting ≤ s.0.size

  abbrev pool : List C → ℕ → Bool → WorkConns C
  pool ws n b = record { waiting = ws; size = n; closed = b }

  -- an answer that hands nothing out
  nothing-Kept :
      (p : WorkConns C) (t : Trace C) → Kept (p, t) → Kept (p, record t { handed = t.handed ++ [] })
  nothing-Kept p t k = record {
    order = k.order ∙ ap (λ xs. xs ++ (t.dropped ++ p.waiting)) (sym (append-nil t.handed));
    after_end = k.after_end;
    before_end = k.before_end;
    fits = k.fits;
  }

  -- the first connection that waits is handed out
  popped-Kept :
      (x : C) (ws : List C) (n : ℕ) (b : Bool) (t : Trace C)
      → Kept (pool (x ∷ ws) n b, t)
      → Kept (pool ws n b, record t { handed = t.handed ++ (x ∷ []) })
  popped-Kept x ws n true t k = let no = k.after_end refl in cc
  popped-Kept x ws n false t k = record {
    order =
        k.order
        ∙ ap (λ d. t.handed ++ (d ++ (x ∷ ws))) (k.before_end refl)
        ∙ sym (append_assoc t.handed (x ∷ []) ws)
        ∙ ap (λ d. (t.handed ++ (x ∷ [])) ++ (d ++ ws)) (sym (k.before_end refl));
    after_end = λ e. cc;
    before_end = k.before_end;
    fits = let room = k.fits in omega arith;
  }

  register-Kept :
      (c : C) (ws : List C) (n : ℕ) (b : Bool) (t : Trace C)
      → Kept (pool ws n b, t)
      → Kept (pool_step (pool ws n b, t) (registers c))
  unfolding pool_step register_work_conn
  register-Kept c ws n true t k = record {
    order = append-nil t.accepted ∙ k.order;
    after_end = k.after_end;
    before_end = k.before_end;
    fits = k.fits;
  }
  register-Kept c ws n false t k =
      if_cases
        (λ (r : RegisterAnswer × WorkConns C).
          Kept (r.1, record t { accepted = t.accepted ++ accepted_by c r.0 }))
        (ltb (length ws) n) _ _
        (λ e. record {
          order =
              ap (λ xs. xs ++ (c ∷ [])) k.order
              ∙ append_assoc t.handed (t.dropped ++ ws) (c ∷ [])
              ∙ ap (λ xs. t.handed ++ xs) (append_assoc t.dropped ws (c ∷ []));
          after_end = λ closed. cc;
          before_end = k.before_end;
          fits = let more = length-append ws (c ∷ []) in ground arith;
        })
        (λ e. record {
          order = append-nil t.accepted ∙ k.order;
          after_end = k.after_end;
          before_end = k.before_end;
          fits = k.fits;
        })

  get-Kept :
      (sent : Bool) (ws : List C) (n : ℕ) (b : Bool) (t : Trace C)
      → Kept (pool ws n b, t)
      → Kept (pool_step (pool ws n b, t) (gets sent))
  unfolding pool_step get_work_conn
  get-Kept sent (x ∷ ws) n b t k = popped-Kept x ws n b t k
  get-Kept sent [] n true t k = nothing-Kept (pool [] n true) t k
  get-Kept true [] n false t k = nothing-Kept (pool [] n false) t k
  get-Kept false [] n false t k = nothing-Kept (pool [] n false) t k

  await-Kept :
      (late : Bool) (ws : List C) (n : ℕ) (b : Bool) (t : Trace C)
      → Kept (pool ws n b, t)
      → Kept (pool_step (pool ws n b, t) (awaits late))
  unfolding pool_step await_work_conn
  await-Kept true ws n b t k = nothing-Kept (pool ws n b) t k
  await-Kept false (x ∷ ws) n b t k = popped-Kept x ws n b t k
  await-Kept false [] n true t k = nothing-Kept (pool [] n true) t k
  await-Kept false [] n false t k = nothing-Kept (pool [] n false) t k

  end-Kept :
      (ws : List C) (n : ℕ) (b : Bool) (t : Trace C)
      → Kept (pool ws n b, t)
      → Kept (pool_step (pool ws n b, t) ends)
  unfolding pool_step close_work_conns
  end-Kept ws n b t k = record {
    order = k.order ∙ ap (λ xs. t.handed ++ xs) (sym (append-nil (t.dropped ++ ws)));
    after_end = λ e. refl;
    before_end = λ e. cc;
    fits = omega arith;
  }

  step-Kept : (s : WorkConns C × Trace C) (c : PoolCall C) → Kept s → Kept (pool_step s c)
  step-Kept (p, t) (registers c) k = register-Kept c p.waiting p.size p.closed t k
  step-Kept (p, t) (gets sent) k = get-Kept sent p.waiting p.size p.closed t k
  step-Kept (p, t) (awaits late) k = await-Kept late p.waiting p.size p.closed t k
  step-Kept (p, t) ends k = end-Kept p.waiting p.size p.closed t k

  run-Kept : (cs : List (PoolCall C)) (s : WorkConns C × Trace C) → Kept s → Kept (pool_run s cs)
  unfolding pool_run
  run-Kept [] s k = k
  run-Kept (c ∷ cs) s k = run-Kept cs (pool_step s c) (step-Kept s c k)

  -- After any calls on a new pool for a number of connections that is not negative: the connections
  -- that were accepted are, in this order, those that were handed out, those that were dropped at
  -- the end of the session and those that wait; none waits after the end, none was dropped before
  -- it, and no more wait than the channel holds.
  pub pool_run-Kept :
      (pool_count : ℕ) (cs : List (PoolCall C))
      → Kept (pool_run (new_work_conns pool_count, no_trace) cs)
  pool_run-Kept pool_count cs =
      run-Kept cs (new_work_conns pool_count, no_trace)
        (record { order = refl; after_end = λ e. refl; before_end = λ e. refl; fits = omega arith })
