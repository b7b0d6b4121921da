-- ===== src/NatHole/Classify/Laws.antt =====
-- What the classification of a NAT says of the addresses that were seen.
use cnfrp.Common.{
  ℕ, ◌+◌, ◌-◌, ◌≤◌, ◌≡◌, ◌≢◌, refl, sym, subst, ap, ◌∙◌, ◌↔◌, String, ◌&&◌, ◌||◌, Bool, true, false,
  if◌then◌else◌, Option, none, some, List, [], ◌∷◌, ◌==◌, string_eq, str_eq_iff, arith, not, any,
  Option-cases, inl, inr, leb, All,
}
use Prim.Native.Nat.{max, min}
use cnfrp.NatHole.Classify.{
  NatFeature, easy_nat, hard_nat, no_change, ip_changed, port_changed, both_changed, Scan,
  scan_start, Address, scan_address, scan_all, behavior_of, nat_type_of, feature_of, read_address,
  scan, classify_nat_feature,
}

-- All addresses read, or none if one cannot be.
module _ (split_host_port : String → Option (String × String)) (atoi : String → Option ℕ) where
  unfoldable pub read_all : List String → Option (List Address)
  read_all [] = some []
  read_all (addr ∷ rest) = elim (read_address split_host_port atoi addr) [
    | none ↦ none
    | some a ↦ elim (read_all rest) [ none ↦ none | some bs ↦ some (a ∷ bs) ]
  ]

  scan-scan_all :
      (local_ips : List String) (s : Scan) (addrs : List String)
      → scan split_host_port atoi local_ips s addrs
        ≡ elim (read_all addrs) [ none ↦ none | some bs ↦ some (scan_all local_ips s bs) ]
  unfolding scan read_all scan_all
  scan-scan_all local_ips s [] = refl
  scan-scan_all local_ips s (addr ∷ rest) =
      elim (Option-cases (read_address split_host_port atoi addr)) [
        | inl e ↦ ground arith
        | inr (a, e) ↦ ground (arith, scan-scan_all local_ips (scan_address local_ips s a) rest)
      ]

scan_all-flags :
    (local_ips : List String) (s : Scan) (bs : List Address)
    → s.base_ip ≢ ""
    → ((scan_all local_ips s bs).ip_changed
        ≡ (s.ip_changed || any (λ b. not (s.base_ip == b.ip)) bs))
      × ((scan_all local_ips s bs).port_changed
          ≡ (s.port_changed || any (λ b. not (s.base_port == b.port)) bs))
      × ((scan_all local_ips s bs).public_network
          ≡ (s.public_network || any (λ b. any (λ l. l == b.ip) local_ips) bs))
unfolding scan_all scan_address
scan_all-flags local_ips s [] h = ground arith
scan_all-flags local_ips s (a ∷ rest) h = ground (
  arith,
  str_eq_iff s.base_ip "",
  scan_all-flags local_ips
      (record s {
        public_network = s.public_network || any (λ l. l == a.ip) local_ips;
        port_max = max s.port_max a.port_num;
        port_min = min s.port_min a.port_num;
        ip_changed = s.ip_changed || not (s.base_ip == a.ip);
        port_changed = s.port_changed || not (s.base_port == a.port);
      })
      rest h,
)

abbrev Within : Scan → List Address → Type 0
Within s bs = All (λ b. (s.port_min ≤ b.port_num) × (b.port_num ≤ s.port_max)) bs

-- The loop only widens the range of ports, and every port it meets is in it.
scan_all-range :
    (local_ips : List String) (s : Scan) (bs : List Address)
    → s.base_ip ≢ ""
    → ((scan_all local_ips s bs).port_min ≤ s.port_min)
      × (s.port_max ≤ (scan_all local_ips s bs).port_max)
      × Within (scan_all local_ips s bs) bs
unfolding scan_all scan_address
scan_all-range local_ips s [] h = (omega arith, omega arith, tt)
scan_all-range local_ips s (a ∷ rest) h =
    let t : Scan = record s {
      public_network = s.public_network || any (λ l. l == a.ip) local_ips;
      port_max = max s.port_max a.port_num;
      port_min = min s.port_min a.port_num;
      ip_changed = s.ip_changed || not (s.base_ip == a.ip);
      port_changed = s.port_changed || not (s.base_port == a.port);
    } in
    let not_first : scan_address local_ips s a ≡ t = ground (arith, str_eq_iff s.base_ip "") in
    let ih = scan_all-range local_ips t rest h in
    subst
      (λ u.
        ((scan_all local_ips u rest).port_min ≤ s.port_min)
        × (s.port_max ≤ (scan_all local_ips u rest).port_max)
        × Within (scan_all local_ips u rest) (a ∷ rest))
      (sym not_first)
      (omega (arith, ih.0), omega (arith, ih.1), ((omega (arith, ih.0), omega (arith, ih.1)), ih.2))

-- Whether some later address differs from the first in its IP, and in its port.
abbrev pub differs_ip : Address → List Address → Bool
differs_ip a bs = any (λ b. not (a.ip == b.ip)) bs

abbrev pub differs_port : Address → List Address → Bool
differs_port a bs = any (λ b. not (a.port == b.port)) bs

-- What a feature says of the addresses `a ∷ bs` that it was made from.
pub record Describes (local_ips : List String) (a : Address) (bs : List Address) (f : NatFeature)
    : Type 0 where
  pub behavior : f.behavior ≡ (
      if differs_ip a bs
      then if differs_port a bs then both_changed else ip_changed
      else if differs_port a bs
      then port_changed
      else no_change)
  pub nat_type :
      f.nat_type
      ≡ (if differs_ip a bs then hard_nat else if differs_port a bs then hard_nat else easy_nat)
  pub public_network : f.public_network ≡ any (λ b. any (λ l. l == b.ip) local_ips) (a ∷ bs)
  -- if only the port changes, no two ports are further apart than the difference
  pub spread :
      f.behavior ≡ port_changed
      → All (λ x. All (λ y. x.port_num ≤ y.port_num + f.ports_difference) (a ∷ bs)) (a ∷ bs)
  pub regular : f.regular_ports_change ≡ (leb f.ports_difference 5 && leb 1 f.ports_difference)

spread_of_range :
    (s : Scan) (x : Address) (bs : List Address)
    → x.port_num ≤ s.port_max
    → Within s bs
    → All (λ y. x.port_num ≤ y.port_num + (s.port_max - s.port_min)) bs
spread_of_range s x [] h w = tt
spread_of_range s x (y ∷ bs) h w = (omega (arith, w.0.0), spread_of_range s x bs h w.1)

spread-All :
    (s : Scan) (xs bs : List Address)
    → Within s xs
    → Within s bs
    → All (λ x. All (λ y. x.port_num ≤ y.port_num + (s.port_max - s.port_min)) bs) xs
spread-All s [] bs wx w = tt
spread-All s (x ∷ xs) bs wx w = (spread_of_range s x bs wx.0.1 w, spread-All s xs bs wx.1 w)

difference-feature_of :
    (s : Scan)
    → (feature_of s).behavior ≡ port_changed
    → (feature_of s).ports_difference ≡ s.port_max - s.port_min
unfolding feature_of
difference-feature_of s e = ground arith

behavior-changes :
    (i p : Bool)
    → behavior_of i p ≡ (
        if i then if p then both_changed else ip_changed else if p then port_changed else no_change)
behavior-changes true true = refl
behavior-changes true false = refl
behavior-changes false true = refl
behavior-changes false false = refl

nat_type-changes :
    (i p : Bool)
    → nat_type_of (behavior_of i p) ≡ (if i then hard_nat else if p then hard_nat else easy_nat)
nat_type-changes true true = refl
nat_type-changes true false = refl
nat_type-changes false true = refl
nat_type-changes false false = refl

feature_of-Describes :
    (local_ips : List String) (a : Address) (bs : List Address) (s : Scan)
    → s.ip_changed ≡ any (λ b. not (a.ip == b.ip)) bs
    → s.port_changed ≡ any (λ b. not (a.port == b.port)) bs
    → s.public_network ≡ any (λ b. any (λ l. l == b.ip) local_ips) (a ∷ bs)
    → Within s (a ∷ bs)
    → Describes local_ips a bs (feature_of s)
unfolding feature_of
feature_of-Describes local_ips a bs s hi hp hn w = record {
  behavior = rw (hi, hp) (behavior-changes (differs_ip a bs) (differs_port a bs));
  nat_type = rw (hi, hp) (nat_type-changes (differs_ip a bs) (differs_port a bs));
  public_network = hn;
  spread = λ e.
      subst (λ d. All (λ x. All (λ y. x.port_num ≤ y.port_num + d) (a ∷ bs)) (a ∷ bs))
        (sym (difference-feature_of s e)) (spread-All s (a ∷ bs) (a ∷ bs) w w);
  regular = refl;
}

-- the scan after the first address, whose IP is not empty
abbrev first_scan : List String → Address → Scan
first_scan local_ips a = record scan_start {
  public_network = any (λ l. l == a.ip) local_ips;
  base_ip = a.ip;
  base_port = a.port;
  port_max = a.port_num;
  port_min = a.port_num;
}

scan_all-first :
    (local_ips : List String) (a : Address) (bs : List Address)
    → scan_all local_ips scan_start (a ∷ bs) ≡ scan_all local_ips (first_scan local_ips a) bs
unfolding scan_all scan_address
scan_all-first local_ips a bs = refl

scanned-Describes :
    (local_ips : List String) (a : Address) (bs : List Address)
    → a.ip ≢ ""
    → Describes local_ips a bs (feature_of (scan_all local_ips scan_start (a ∷ bs)))
scanned-Describes local_ips a bs h =
    let first : Scan = first_scan local_ips a in
    let flags = scan_all-flags local_ips first bs h in
    let range = scan_all-range local_ips first bs h in
    rw scan_all-first (
      feature_of-Describes local_ips a bs (scan_all local_ips first bs) flags.0 flags.1 flags.2
        ((range.0, range.1), range.2))

module _ (split_host_port : String → Option (String × String)) (atoi : String → Option ℕ) where
  -- If at least two addresses are given, all can be read and the first has an IP: the
  -- classification succeeds. Its behaviour tells whether a later address differs from the first in
  -- its IP and whether one differs in its port, the NAT is easy if none differs in either and hard
  -- otherwise, the network is public exactly if one of the IPs is local, the change is regular
  -- exactly if the difference is from 1 to 5, and where only the port changes no two ports are
  -- further apart than the difference.
  pub classify-Describes :
      (addrs local_ips : List String) (a b : Address) (bs : List Address)
      → read_all split_host_port atoi addrs ≡ some (a ∷ b ∷ bs)
      → a.ip ≢ ""
      → (f : NatFeature) × (classify_nat_feature split_host_port atoi addrs local_ips ≡ some f)
        × Describes local_ips a (b ∷ bs) f
  unfolding classify_nat_feature read_all
  classify-Describes [] local_ips a b bs e h = absurd (ground arith)
  classify-Describes (addr ∷ []) local_ips a b bs e h = absurd (ground arith)
  classify-Describes (addr ∷ next ∷ rest) local_ips a b bs e h =
      let found : scan split_host_port atoi local_ips scan_start (addr ∷ next ∷ rest)
          ≡ some (scan_all local_ips scan_start (a ∷ b ∷ bs)) =
        scan-scan_all split_host_port atoi local_ips scan_start (addr ∷ next ∷ rest)
        ∙ ap (λ o. elim o [ none ↦ none | some cs ↦ some (scan_all local_ips scan_start cs) ]) e in
      (
        feature_of (scan_all local_ips scan_start (a ∷ b ∷ bs)),
        rw (found, classify_nat_feature),
        scanned-Describes local_ips a (b ∷ bs) h,
      )

  -- For two or more addresses the classification fails exactly if one of them cannot be read.
  pub classify-error :
      (addr next : String) (rest local_ips : List String)
      → (classify_nat_feature split_host_port atoi (addr ∷ next ∷ rest) local_ips ≡ none)
        ↔ (read_all split_host_port atoi (addr ∷ next ∷ rest) ≡ none)
  unfolding classify_nat_feature
  classify-error addr next rest local_ips =
      ground (arith, scan-scan_all split_host_port atoi local_ips scan_start (addr ∷ next ∷ rest))
