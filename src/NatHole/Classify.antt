-- ===== src/NatHole/Classify.antt =====
-- pkg/nathole/classify.go. Splitting an address and reading a port are the standard library's
-- `net.SplitHostPort` and `strconv.Atoi`; the functions take them as arguments.
pub mod Laws
use cnfrp.Common.{
  ℕ, zero, suc, ◌+◌, ◌-◌, String, Bool, true, false, ◌&&◌, ◌||◌, Option, none, some, List, [], ◌∷◌,
  ◌==◌, string_eq, ltb, leb, if◌then◌else◌, not, any,
}
use Prim.Native.Nat.{max, min}

pub data NatType : Type 0 where
  easy_nat hard_nat : NatType

pub data Behavior : Type 0 where
  no_change ip_changed port_changed both_changed : Behavior

pub record NatFeature : Type 0 where
  pub nat_type : NatType
  pub behavior : Behavior
  pub ports_difference : ℕ
  pub regular_ports_change : Bool
  pub public_network : Bool

-- the variables of the loop over the addresses
pub record Scan : Type 0 where
  pub public_network : Bool
  pub base_ip : String
  pub base_port : String
  pub port_max : ℕ
  pub port_min : ℕ
  pub ip_changed : Bool
  pub port_changed : Bool

abbrev pub scan_start : Scan
scan_start = record {
  public_network = false;
  base_ip = "";
  base_port = "";
  port_max = 0;
  port_min = 0;
  ip_changed = false;
  port_changed = false;
}

pub record Address : Type 0 where
  pub ip : String
  pub port : String
  pub port_num : ℕ

-- one round of the loop, once the address is read
unfoldable pub scan_address : List String → Scan → Address → Scan
scan_address local_ips s a =
    let is_public = s.public_network || any (λ l. l == a.ip) local_ips in
    if s.base_ip == ""
    then record s {
      public_network = is_public;
      base_ip = a.ip;
      base_port = a.port;
      port_max = a.port_num;
      port_min = a.port_num;
    }
    else record s {
      public_network = is_public;
      port_max = max s.port_max a.port_num;
      port_min = min s.port_min a.port_num;
      ip_changed = s.ip_changed || not (s.base_ip == a.ip);
      port_changed = s.port_changed || not (s.base_port == a.port);
    }

unfoldable pub scan_all : List String → Scan → List Address → Scan
scan_all local_ips s [] = s
scan_all local_ips s (a ∷ rest) = scan_all local_ips (scan_address local_ips s a) rest

abbrev pub behavior_of : Bool → Bool → Behavior
behavior_of true true = both_changed
behavior_of true false = ip_changed
behavior_of false true = port_changed
behavior_of false false = no_change

abbrev pub nat_type_of : Behavior → NatType
nat_type_of no_change = easy_nat
nat_type_of _ = hard_nat

-- the part of the function after the loop
unfoldable pub feature_of : Scan → NatFeature
feature_of s =
    let behavior = behavior_of s.ip_changed s.port_changed in
    let difference : ℕ = elim behavior [ port_changed ↦ s.port_max - s.port_min | _ ↦ 0 ] in
    record {
      nat_type = nat_type_of behavior;
      behavior = behavior;
      ports_difference = difference;
      regular_ports_change = leb difference 5 && leb 1 difference;
      public_network = s.public_network;
    }

module _ (split_host_port : String → Option (String × String)) (atoi : String → Option ℕ) where
  unfoldable pub read_address : String → Option Address
  read_address addr = elim (split_host_port addr) [
    | none ↦ none
    | some (ip, port) ↦ elim (atoi port) [
      | none ↦ none
      | some n ↦ some (record { ip = ip; port = port; port_num = n })
    ]
  ]

  -- the loop; the first address that cannot be read ends it with an error
  unfoldable pub scan : List String → Scan → List String → Option Scan
  scan local_ips s [] = some s
  scan local_ips s (addr ∷ rest) = elim (read_address addr) [
    | none ↦ none
    | some a ↦ scan local_ips (scan_address local_ips s a) rest
  ]

  -- `none` is an error
  unfoldable pub classify_nat_feature : List String → List String → Option NatFeature
  classify_nat_feature [] local_ips = none
  classify_nat_feature (addr ∷ []) local_ips = none
  classify_nat_feature (addr ∷ next ∷ rest) local_ips =
      elim (scan local_ips scan_start (addr ∷ next ∷ rest)) [
        | none ↦ none
        | some s ↦ some (feature_of s)
      ]

pub record Counts : Type 0 where
  pub easy : ℕ
  pub hard : ℕ
  pub regular : ℕ

unfoldable pub count_feature : Counts → NatFeature → Counts
count_feature n f = elim f.nat_type [
  | easy_nat ↦ record n { easy = n.easy + 1 }
  | hard_nat ↦ record n {
    hard = n.hard + 1;
    regular = if f.regular_ports_change then n.regular + 1 else n.regular;
  }
]

unfoldable pub classify_feature_count : Counts → List NatFeature → Counts
classify_feature_count n [] = n
classify_feature_count n (f ∷ rest) = classify_feature_count (count_feature n f) rest
