-- ===== src/Metrics/Statistics/Answers.antt =====
-- pkg/metrics/mem/server.go: what the statistics answer. Reading a counter of days turns it, so an
-- answer comes with the next state. `format` is Time.Format with the layout of the source.
use cnfrp.Common.{ℕ, not, Option, none, some, List, [], ◌∷◌, String, ◌==◌, string_eq, if◌then◌else◌}
use cnfrp.Common.Dict.{Dict, get, put}
use cnfrp.Common.Integer.{ℤ}
use cnfrp.Metrics.{Counter, today_count, get_last_days_count}
use cnfrp.Metrics.Statistics.{reserve_days, ProxyStatistics, ServerStatistics}

pub record ServerStats : Type 0 where
  pub total_traffic_in : ℕ
  pub total_traffic_out : ℕ
  pub cur_conns : Counter
  pub client_counts : Counter
  pub proxy_type_counts : Dict String Counter

pub record ProxyStats : Type 0 where
  pub name : String
  pub type : String
  pub user : String
  pub client_id : String
  pub today_traffic_in : ℕ
  pub today_traffic_out : ℕ
  pub last_start_time : String
  pub last_close_time : String
  pub cur_conns : Counter

pub record ProxyTrafficInfo : Type 0 where
  pub name : String
  pub traffic_in : List ℕ
  pub traffic_out : List ℕ

module _ {T : Type 0} (midnight : T → T) (span : T → T → ℤ) where
  unfoldable pub get_server : T → ServerStatistics T → ServerStats × ServerStatistics T
  get_server now m =
      let (arrived, turned_in) = today_count midnight span now m.total_traffic_in in
      let (left, turned_out) = today_count midnight span now m.total_traffic_out in
      (
        record {
          total_traffic_in = arrived;
          total_traffic_out = left;
          cur_conns = m.cur_conns;
          client_counts = m.client_counts;
          proxy_type_counts = m.proxy_type_counts;
        },
        record m { total_traffic_in = turned_in; total_traffic_out = turned_out },
      )

  unfoldable pub get_proxy_traffic :
      T → String → ServerStatistics T → Option ProxyTrafficInfo × ServerStatistics T
  get_proxy_traffic now name m = elim (get name m.proxy_statistics) [
    | none ↦ (none, m)
    | some s ↦
        let (arrived, turned_in) =
          get_last_days_count midnight span now reserve_days s.traffic_in in
        let (left, turned_out) = get_last_days_count midnight span now reserve_days s.traffic_out in
        (
          some (record { name = name; traffic_in = arrived; traffic_out = left }),
          record m {
            proxy_statistics =
                put name (record s { traffic_in = turned_in; traffic_out = turned_out })
                  m.proxy_statistics;
          },
        )
  ]

  module _ (format : T → String) where
    unfoldable pub to_proxy_stats : T → String → ProxyStatistics T → ProxyStats × ProxyStatistics T
    to_proxy_stats now name s =
        let (arrived, turned_in) = today_count midnight span now s.traffic_in in
        let (left, turned_out) = today_count midnight span now s.traffic_out in
        (
          record {
            name = name;
            type = s.proxy_type;
            user = s.user;
            client_id = s.client_id;
            today_traffic_in = arrived;
            today_traffic_out = left;
            last_start_time = format s.last_start_time;
            last_close_time = elim s.last_close_time [ none ↦ "" | some t ↦ format t ];
            cur_conns = s.cur_conns;
          },
          record s { traffic_in = turned_in; traffic_out = turned_out },
        )

    -- the loop of `GetProxiesByType`
    unfoldable pub stats_by_type :
        T
        → String
        → Dict String (ProxyStatistics T)
        → List ProxyStats × Dict String (ProxyStatistics T)
    unfolding to_proxy_stats
    stats_by_type now proxy_type [] = ([], [])
    stats_by_type now proxy_type ((name, s) ∷ rest) =
        let (others, later) = stats_by_type now proxy_type rest in
        let (stats, turned) = to_proxy_stats now name s in
        if not (s.proxy_type == proxy_type)
        then (others, (name, s) ∷ later)
        else (stats ∷ others, (name, turned) ∷ later)

    unfoldable pub get_proxies_by_type :
        T → String → ServerStatistics T → List ProxyStats × ServerStatistics T
    unfolding stats_by_type
    get_proxies_by_type now proxy_type m =
        let (stats, turned) = stats_by_type now proxy_type m.proxy_statistics in
        (stats, record m { proxy_statistics = turned })

    -- the answer for one proxy whose entry was found
    unfoldable pub answer_for :
        T → String → ProxyStatistics T → ServerStatistics T → Option ProxyStats × ServerStatistics T
    unfolding to_proxy_stats
    answer_for now name s m =
        let (stats, turned) = to_proxy_stats now name s in
        (some stats, record m { proxy_statistics = put name turned m.proxy_statistics })

    unfoldable pub get_proxy_by_name :
        T → String → ServerStatistics T → Option ProxyStats × ServerStatistics T
    unfolding answer_for
    get_proxy_by_name now name m = elim (get name m.proxy_statistics) [
      | none ↦ (none, m)
      | some s ↦ answer_for now name s m
    ]

    unfoldable pub get_proxies_by_type_and_name :
        T → String → String → ServerStatistics T → Option ProxyStats × ServerStatistics T
    unfolding answer_for
    get_proxies_by_type_and_name now proxy_type name m = elim (get name m.proxy_statistics) [
      | none ↦ (none, m)
      | some s ↦ if s.proxy_type == proxy_type then answer_for now name s m else (none, m)
    ]
