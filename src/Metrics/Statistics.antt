-- ===== src/Metrics/Statistics.antt =====
-- pkg/metrics/mem/server.go and types.go: the statistics of the server. Each method runs under a
-- lock. `midnight` and `span` are as in Metrics.antt; `before` is Time.Before, `since now at` is
-- time.Since, and `format` is Time.Format with the layout of the source.
pub mod Answers
pub mod Cleared
use cnfrp.Common.{
  ℕ, suc, ◌+◌, Bool, true, false, not, ◌&&◌, ◌||◌, Option, none, some, List, [], ◌∷◌, ◌++◌, String,
  ◌==◌, string_eq, if◌then◌else◌, length, map,
}
use cnfrp.Common.Dict.{Dict, get, put}
use cnfrp.Common.Integer.{ℤ, pos, lt_int}
use cnfrp.Metrics.{
  Counter, new_counter, inc_counter, dec_counter, DateCounter, new_date_counter, today_count,
  get_last_days_count, inc,
}

abbrev pub reserve_days : ℕ
reserve_days = 7

-- A proxy has a start time from its first entry on; a close time that is not set is `none`.
pub record ProxyStatistics (T : Type 0) : Type 0 where
  pub name : String
  pub proxy_type : String
  pub user : String
  pub client_id : String
  pub traffic_in : DateCounter T
  pub traffic_out : DateCounter T
  pub cur_conns : Counter
  pub last_start_time : T
  pub last_close_time : Option T

pub record ServerStatistics (T : Type 0) : Type 0 where
  pub total_traffic_in : DateCounter T
  pub total_traffic_out : DateCounter T
  pub cur_conns : Counter
  pub client_counts : Counter
  pub proxy_type_counts : Dict String Counter
  pub proxy_statistics : Dict String (ProxyStatistics T)

-- the count of a type, which may not be there
unfoldable pub count_of : Option Counter → Counter
count_of none = new_counter
count_of (some c) = c

-- the statistics of one proxy, changed where there are any
unfoldable pub on_proxy :
    {T : Type 0}
    → String
    → (ProxyStatistics T → ProxyStatistics T)
    → ServerStatistics T
    → ServerStatistics T
on_proxy name change m = elim (get name m.proxy_statistics) [
  | none ↦ m
  | some s ↦ record m { proxy_statistics = put name (change s) m.proxy_statistics }
]

module _ {T : Type 0} where
  unfoldable pub new_client : ServerStatistics T → ServerStatistics T
  new_client m = record m { client_counts = inc_counter 1 m.client_counts }

  unfoldable pub close_client : ServerStatistics T → ServerStatistics T
  close_client m = record m { client_counts = dec_counter 1 m.client_counts }

  unfoldable pub open_connection : String → ServerStatistics T → ServerStatistics T
  unfolding on_proxy
  open_connection name m =
      on_proxy name (λ s. record s { cur_conns = inc_counter 1 s.cur_conns })
        (record m { cur_conns = inc_counter 1 m.cur_conns })

  unfoldable pub close_connection : String → ServerStatistics T → ServerStatistics T
  unfolding on_proxy
  close_connection name m =
      on_proxy name (λ s. record s { cur_conns = dec_counter 1 s.cur_conns })
        (record m { cur_conns = dec_counter 1 m.cur_conns })

  -- `CloseProxy`
  unfoldable pub close_statistics : T → String → String → ServerStatistics T → ServerStatistics T
  unfolding on_proxy
  close_statistics now name proxy_type m =
      on_proxy name (λ s. record s { last_close_time = some now })
        (elim (get proxy_type m.proxy_type_counts) [
          | none ↦ m
          | some c ↦ record m {
            proxy_type_counts = put proxy_type (dec_counter 1 c) m.proxy_type_counts;
          }
        ])

module _ {T : Type 0} (midnight : T → T) (span : T → T → ℤ) where
  unfoldable pub new_server_metrics : T → ServerStatistics T
  new_server_metrics now = record {
    total_traffic_in = new_date_counter midnight span now (pos reserve_days);
    total_traffic_out = new_date_counter midnight span now (pos reserve_days);
    cur_conns = new_counter;
    client_counts = new_counter;
    proxy_type_counts = [];
    proxy_statistics = [];
  }

  abbrev fresh_statistics : T → String → String → ProxyStatistics T
  fresh_statistics now name proxy_type = record {
    name = name;
    proxy_type = proxy_type;
    user = "";
    client_id = "";
    traffic_in = new_date_counter midnight span now (pos reserve_days);
    traffic_out = new_date_counter midnight span now (pos reserve_days);
    cur_conns = new_counter;
    last_start_time = now;
    last_close_time = none;
  }

  -- the statistics that are kept for a proxy that comes back with its type
  unfoldable pub statistics_of :
      T → String → String → Option (ProxyStatistics T) → ProxyStatistics T
  statistics_of now name proxy_type none = fresh_statistics now name proxy_type
  statistics_of now name proxy_type (some s) =
      if not (s.proxy_type == proxy_type) then fresh_statistics now name proxy_type else s

  -- `NewProxy`
  unfoldable pub open_statistics :
      T → String → String → String → String → ServerStatistics T → ServerStatistics T
  unfolding count_of statistics_of
  open_statistics now name proxy_type user client_id m = record m {
    proxy_type_counts =
        put proxy_type (inc_counter 1 (count_of (get proxy_type m.proxy_type_counts)))
          m.proxy_type_counts;
    proxy_statistics =
        put name
          (record (statistics_of now name proxy_type (get name m.proxy_statistics)) {
            user = user;
            client_id = client_id;
            last_start_time = now;
          })
          m.proxy_statistics;
  }

  unfoldable pub add_traffic_in : T → String → ℕ → ServerStatistics T → ServerStatistics T
  unfolding on_proxy
  add_traffic_in now name n m =
      on_proxy name (λ s. record s { traffic_in = inc midnight span now n s.traffic_in })
        (record m { total_traffic_in = inc midnight span now n m.total_traffic_in })

  unfoldable pub add_traffic_out : T → String → ℕ → ServerStatistics T → ServerStatistics T
  unfolding on_proxy
  add_traffic_out now name n m =
      on_proxy name (λ s. record s { traffic_out = inc midnight span now n s.traffic_out })
        (record m { total_traffic_out = inc midnight span now n m.total_traffic_out })
