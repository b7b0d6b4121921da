-- ===== src/Client/Tests.antt =====
-- The client's proxies and monitors on concrete inputs.
use cnfrp.Common.{ℕ, ◌≡◌, refl, Bool, true, false, none, some, List, [], ◌∷◌, first_of, eqb}
use cnfrp.Common.Bytes.{Text, text_eq}
use cnfrp.Common.Dict.{get}
use cnfrp.Common.Integer.{pos}
use cnfrp.Client.Health.{
  Monitor, status_normal, status_failed, new_monitor, positive_or, check_round, check_rounds,
  failed_enough,
}
use cnfrp.Client.Health.Laws.{Alternates, check_rounds-Alternates}
use cnfrp.Client.Wrapper.{
  ProxyConfigurer, closed, close_proxy, Call, response, stops, checks, normal, failed, new_wrapper,
}
use cnfrp.Client.Wrapper.Laws.{Told, run, run-Told, run-stops}
use cnfrp.Client.Manager.{update_all}
use cnfrp.Client.Manager.Laws.{first_cfg, last_cfg, kept_by, started, get-update_all}

abbrev alice : Text
alice = b'a' ∷ b'l' ∷ []

abbrev ssh : Text
ssh = b's' ∷ b's' ∷ b'h' ∷ []

abbrev monitor : Monitor
monitor = record {
  interval_seconds = 10;
  timeout_seconds = 3;
  max_failed_times = 3;
  failed_times = 0;
  status_ok = false;
}

-- The defaults stand in for settings that are not positive.
defaults : new_monitor (pos 0) (pos 0) (pos 3) ≡ monitor
unfolding new_monitor positive_or
defaults = refl

abbrev flaky : List Bool
flaky = true ∷ false ∷ false ∷ false ∷ true ∷ false ∷ []

check_rounds-Alternates_example :
    Alternates false (check_rounds flaky monitor).0 (check_rounds flaky monitor).1.status_ok
check_rounds-Alternates_example = check_rounds-Alternates flaky monitor

-- Three failures take the service down; after it is back, one does.
callbacks :
    (check_rounds flaky monitor).0
    ≡ status_normal ∷ status_failed ∷ status_normal ∷ status_failed ∷ []
unfolding check_rounds check_round failed_enough
callbacks = refl

abbrev plain : ℕ → ProxyConfigurer ℕ
plain port = record { name = ssh; health_check_type = ""; local_port = 22; body = port }

abbrev calls : List (ℕ × Call)
calls =
    (1, checks)
    ∷ (2, response ":6000" "" none)
    ∷ (3, failed)
    ∷ (4, checks)
    ∷ (5, normal)
    ∷ (6, checks)
    ∷ []

run-Told_example :
    let r = run (new_wrapper alice (plain 1)) none calls in Told r.0.wire_name r.0.phase r.1
run-Told_example = run-Told alice (plain 1) calls

run-stops_example :
    let r = run (new_wrapper alice (plain 1)) none ((7, stops) ∷ calls) in
    (r.0.phase ≡ closed) × (r.1 ≡ some (close_proxy r.0.wire_name))
run-stops_example = run-stops (new_wrapper alice (plain 1)) none 7 calls

abbrev same_body : ProxyConfigurer ℕ → ProxyConfigurer ℕ → Bool
same_body a b = eqb a.body b.body

get-update_all_example :
    get ssh (update_all same_body alice (plain 2 ∷ []) ((ssh, new_wrapper alice (plain 1)) ∷ [])).1
    ≡ first_of
        (kept_by same_body
          (last_cfg ssh (plain 2 ∷ []))
          (get ssh ((ssh, new_wrapper alice (plain 1)) ∷ [])))
        (started alice (first_cfg ssh (plain 2 ∷ [])))
unfolding get
get-update_all_example =
    get-update_all same_body alice (plain 2 ∷ []) ((ssh, new_wrapper alice (plain 1)) ∷ []) ssh
      (refl, tt)
