-- ===== src/Client/Wrapper/Laws.antt =====
-- What a wrapper tells the server, over any run.
use cnfrp.Common.{
  ℕ, ◌≡◌, refl, subst, String, Bool, true, false, Option, none, some, List, [], ◌∷◌, not, if_cases,
  ◌==◌, string_eq,
}
use cnfrp.Common.Bytes.{Text}
use cnfrp.Client.Wrapper.{
  ProxyConfigurer, Wrapper, Phase, new_phase, wait_start, start_err, running, check_failed, closed,
  Event, start_proxy, close_proxy, Call, response, stops, checks, normal, failed, new_wrapper,
  answered, set_running_status, stop, asks_start, takes_back, check_round, status_normal_callback,
  status_failed_callback, step, is_wait_start,
}

-- the last message that was sent, if any
abbrev pub after : Option Event → List Event → Option Event
after last [] = last
after last (e ∷ es) = after (some e) es

-- What the phase says of the last message: a proxy that waits or runs was asked for last, one that
-- is closed or unhealthy was given up last, and a new one has sent nothing.
abbrev pub Told : Text → Phase → Option Event → Type 0
Told wire new_phase last = last ≡ none
Told wire wait_start last = last ≡ some (start_proxy wire)
Told wire start_err last = Unit
Told wire running last = last ≡ some (start_proxy wire)
Told wire check_failed last = last ≡ some (close_proxy wire)
Told wire closed last = last ≡ some (close_proxy wire)

waiting : (p : Phase) → is_wait_start p ≡ true → p ≡ wait_start
waiting new_phase h = cc
waiting wait_start h = refl
waiting start_err h = cc
waiting running h = cc
waiting check_failed h = cc
waiting closed h = cc

module _ {C : Type 0} where
  -- the state and the last message after some calls
  unfoldable pub run : Wrapper C → Option Event → List (ℕ × Call) → Wrapper C × Option Event
  run w last [] = (w, last)
  run w last (c ∷ cs) = let (sent, next) = step w c in run next (after last sent) cs

  abbrev Ok : Option Event → List Event × Wrapper C → Type 0
  Ok last r = Told r.1.wire_name r.1.phase (after last r.0)

  answered-Told :
      (addr e : String) (ran : Option String) (now : ℕ) (w : Wrapper C) (last : Option Event)
      → last ≡ some (start_proxy w.wire_name)
      → Ok last (answered addr e ran now w).1
  unfolding answered
  answered-Told addr e none now w last h =
      if_cases (λ (r : Bool × (List Event × Wrapper C)). Ok last r.1) (not (e == "")) _ _ (λ b. tt)
        (λ b. h)
  answered-Told addr e (some x) now w last h =
      if_cases (λ (r : Bool × (List Event × Wrapper C)). Ok last r.1) (not (e == "")) _ _ (λ b. tt)
        (λ b. tt)

  step-Told :
      (c : ℕ × Call) (w : Wrapper C) (last : Option Event)
      → Told w.wire_name w.phase last
      → Ok last (step w c)
  unfolding step stop check_round set_running_status status_normal_callback status_failed_callback
  step-Told (now, response addr e ran) w last h =
      if_cases (λ (r : Bool × (List Event × Wrapper C)). Ok last r.1) (is_wait_start w.phase)
        (answered addr e ran now w) (true, ([], w))
        (λ b.
          answered-Told addr e ran now w last
            (subst (λ p. Told w.wire_name p last) (waiting w.phase b) h))
        (λ b. h)
  step-Told (now, stops) w last h = refl
  step-Told (now, checks) w last h =
      if_cases (Ok last) (not w.unhealthy) _ _
        (λ b. if_cases (Ok last) (asks_start now w w.phase) _ _ (λ t. refl) (λ t. h))
        (λ b. if_cases (Ok last) (takes_back w.phase) _ _ (λ t. refl) (λ t. h))
  step-Told (now, normal) w last h = h
  step-Told (now, failed) w last h = h

  run_from-Told :
      (cs : List (ℕ × Call)) (w : Wrapper C) (last : Option Event)
      → Told w.wire_name w.phase last
      → let r = run w last cs in Told r.0.wire_name r.0.phase r.1
  unfolding run
  run_from-Told [] w last h = h
  run_from-Told (c ∷ cs) w last h =
      run_from-Told cs (step w c).1 (after last (step w c).0) (step-Told c w last h)

  step-closed : (c : ℕ × Call) (w : Wrapper C) → w.phase ≡ closed → (step w c).1.phase ≡ closed
  unfolding step stop check_round set_running_status status_normal_callback status_failed_callback
      asks_start takes_back
  step-closed (now, response addr e ran) w h =
      if_cases (λ (r : Bool × (List Event × Wrapper C)). r.1.1.phase ≡ closed)
        (is_wait_start w.phase) (answered addr e ran now w) (true, ([], w))
        (λ b. let f : false ≡ true = subst (λ p. is_wait_start p ≡ true) h b in cc) (λ b. h)
  step-closed (now, stops) w h = refl
  step-closed (now, checks) w h =
      if_cases (λ (r : List Event × Wrapper C). r.1.phase ≡ closed) (not w.unhealthy) _ _
        (λ b.
          if_cases (λ (r : List Event × Wrapper C). r.1.phase ≡ closed) (asks_start now w w.phase) _
            _ (λ t. let f : false ≡ true = subst (λ p. asks_start now w p ≡ true) h t in cc)
            (λ t. h))
        (λ b.
          if_cases (λ (r : List Event × Wrapper C). r.1.phase ≡ closed) (takes_back w.phase) _ _
            (λ t. let f : false ≡ true = subst (λ p. takes_back p ≡ true) h t in cc) (λ t. h))
  step-closed (now, normal) w h = h
  step-closed (now, failed) w h = h

  run-closed :
      (cs : List (ℕ × Call)) (w : Wrapper C) (last : Option Event)
      → w.phase ≡ closed
      → (run w last cs).0.phase ≡ closed
  unfolding run
  run-closed [] w last h = h
  run-closed (c ∷ cs) w last h =
      run-closed cs (step w c).1 (after last (step w c).0) (step-closed c w h)

-- After a stop, whatever is called later, the wrapper stays closed and the last message that it has
-- sent closes its proxy: it never asks to start it again.
pub run-stops :
    {C : Type 0} (w : Wrapper C) (last : Option Event) (now : ℕ) (cs : List (ℕ × Call))
    → let r = run w last ((now, stops) ∷ cs) in
      (r.0.phase ≡ closed) × (r.1 ≡ some (close_proxy r.0.wire_name))
unfolding run step stop
run-stops w last now cs =
    let gone : Wrapper _ = (stop w).1 in
    let shut = run-closed cs gone (some (close_proxy w.wire_name)) refl in
    let told = run_from-Told cs gone (some (close_proxy w.wire_name)) refl in
    (
      shut,
      subst
          (λ p.
            Told (run gone (some (close_proxy w.wire_name)) cs).0.wire_name p
              (run gone (some (close_proxy w.wire_name)) cs).1)
          shut told,
    )

-- Over any run of a new wrapper, with any answers, health changes and times: while it waits for the
-- start or runs, the last message that it sent asks to start its proxy under its name at the
-- server; while it is closed or its check has failed, the last one closes that proxy; a wrapper
-- that is still new has sent nothing.
pub run-Told :
    {C : Type 0} (user : Text) (cfg : ProxyConfigurer C) (cs : List (ℕ × Call))
    → let r = run (new_wrapper user cfg) none cs in Told r.0.wire_name r.0.phase r.1
unfolding new_wrapper
run-Told user cfg cs = run_from-Told cs (new_wrapper user cfg) none refl
