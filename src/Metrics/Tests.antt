-- ===== src/Metrics/Tests.antt =====
-- pkg/util/metric and pkg/metrics/mem: a counter over three days, and two proxies of which one is
-- closed. A time is the number of its day.
use cnfrp.Common.{
  ℕ, ◌-◌, ◌<◌, ◌≡◌, refl, Option, none, some, List, [], ◌∷◌, string_eq, get_elem?, arith,
}
use cnfrp.Common.Integer.{ℤ, pos}
use cnfrp.Metrics.{
  rotate, shifted, inc, dec, add_first, DateCounter, get_last_days_count, new_date_counter, reserve,
  new_counter,
}
use cnfrp.Metrics.Days.{total}
use cnfrp.Metrics.Uses.{Use, incs, decs, use_all, history, get_last_days_count-total}
use cnfrp.Metrics.Statistics.{ProxyStatistics, ServerStatistics}

abbrev same_day : ℕ → ℕ
same_day t = t

abbrev days : ℕ → ℕ → ℤ
days now at = pos (now - at)

abbrev uses : List (ℕ × Use)
uses = (10, incs 5) ∷ (11, incs 7) ∷ (11, decs 2) ∷ []

three_days :
    (get_last_days_count same_day days 12 7
      (use_all same_day days same_day uses (new_date_counter same_day days 10 (pos 3)))).0
    ≡ 0 ∷ 5 ∷ 5 ∷ []
unfolding get_last_days_count use_all new_date_counter rotate shifted inc dec add_first reserve
three_days = refl

two_below_three : 2 < reserve (pos 3)
unfolding reserve
two_below_three = omega arith

get_last_days_count-total_example :
    get_elem?
      (get_last_days_count same_day days 12 7
        (use_all same_day days same_day uses (new_date_counter same_day days 10 (pos 3)))).0
      2
    ≡ some (total (history same_day days same_day uses []) 12 2)
get_last_days_count-total_example =
    get_last_days_count-total same_day days same_day (λ now at order. refl) 10 12 (pos 3) uses 7 2
      (omega arith, (omega arith, (omega arith, omega arith))) (omega arith) two_below_three

abbrev counter : DateCounter ℕ
counter = record { reserve_days = 1; counts = 0 ∷ []; last_update_date = 0 }

abbrev closed_at : Option ℕ → ProxyStatistics ℕ
closed_at t = record {
  name = "p";
  proxy_type = "tcp";
  user = "";
  client_id = "";
  traffic_in = counter;
  traffic_out = counter;
  cur_conns = new_counter;
  last_start_time = 1;
  last_close_time = t;
}

abbrev server : ServerStatistics ℕ
server = record {
  total_traffic_in = counter;
  total_traffic_out = counter;
  cur_conns = new_counter;
  client_counts = new_counter;
  proxy_type_counts = [];
  proxy_statistics = ("ssh", closed_at (some 2)) ∷ ("web", closed_at none) ∷ [];
}
