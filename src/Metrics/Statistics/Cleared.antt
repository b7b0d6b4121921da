-- ===== src/Metrics/Statistics/Cleared.antt =====
-- pkg/metrics/mem/server.go, `clearUselessInfo`: the statistics of proxies that are closed for long
-- are dropped. `before` is Time.Before and `since now at` is time.Since.
use cnfrp.Common.{
  ℕ, suc, Bool, false, ◌&&◌, Option, none, some, [], ◌∷◌, String, string_eq, if◌then◌else◌, length,
}
use cnfrp.Common.Dict.{Dict}
use cnfrp.Common.Integer.{ℤ, pos, lt_int}
use cnfrp.Common.{◌≡◌, true}
use cnfrp.Metrics.Statistics.{ProxyStatistics, ServerStatistics}

module _ {T : Type 0} (before : T → T → Bool) (since : T → T → ℤ) where
  -- closed for longer than a time, and not started since
  unfoldable pub useless : T → ℤ → ProxyStatistics T → Bool
  useless now continuous_offline_duration s = elim s.last_close_time [
    | none ↦ false
    | some closed ↦
        before s.last_start_time closed && lt_int continuous_offline_duration (since now closed)
  ]

  unfoldable pub clear_entries :
      T → ℤ → Dict String (ProxyStatistics T) → ℕ × Dict String (ProxyStatistics T)
  unfolding useless
  clear_entries now continuous_offline_duration [] = (0, [])
  clear_entries now continuous_offline_duration ((name, s) ∷ rest) =
      let (count, kept) = clear_entries now continuous_offline_duration rest in
      if useless now continuous_offline_duration s
      then (suc count, kept)
      else (count, (name, s) ∷ kept)

  -- `clearUselessInfo`: how many were cleared, of how many
  unfoldable pub clear_useless_info : T → ℤ → ServerStatistics T → (ℕ × ℕ) × ServerStatistics T
  unfolding clear_entries
  clear_useless_info now continuous_offline_duration m =
      let (count, kept) = clear_entries now continuous_offline_duration m.proxy_statistics in
      ((count, length m.proxy_statistics), record m { proxy_statistics = kept })

  -- `ClearOfflineProxies`
  unfoldable pub clear_offline_proxies : T → ServerStatistics T → (ℕ × ℕ) × ServerStatistics T
  unfolding clear_useless_info
  clear_offline_proxies now m = clear_useless_info now (pos 0) m

  -- A proxy that was closed at a time, was last started before it, and is closed for longer than a
  -- duration.
  abbrev pub LongClosed : T → ℤ → ProxyStatistics T → Type 0
  LongClosed now duration s =
      (closed : T) × (s.last_close_time ≡ some closed)
      × (before s.last_start_time closed ≡ true)
      × (lt_int duration (since now closed) ≡ true)

  -- what becomes of the statistics under a name
  abbrev pub Kept : T → ℤ → Option (ProxyStatistics T) → Option (ProxyStatistics T) → Type 0
  Kept now duration none after = after ≡ none
  Kept now duration (some s) after =
      (LongClosed now duration s → after ≡ none) × (¬ LongClosed now duration s → after ≡ some s)

  -- what is kept of an entry
  kept_of : T → ℤ → Option (ProxyStatistics T) → Option (ProxyStatistics T)
  kept_of now duration none = none
  kept_of now duration (some s) = if useless now duration s then none else some s
