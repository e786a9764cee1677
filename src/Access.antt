-- ===== src/Access.antt =====
-- internal/access: whether a client or a request is blocked, globally and for a profile.
pub mod Decision
mod Examples
use ad_guard_dns.Base.{
  ℕ, Bool, true, false, not, ◌&&◌, ◌||◌, String, List, [], ◌∷◌, Option, some, none, any, contains,
  nat_eq, map, if◌then◌else◌, ◌==◌, string_eq, trim_dot,
}
use ad_guard_dns.Net.{Addr, Prefix, prefix_contains}
use ad_guard_dns.Settings.{
  DefaultProfile, AccessProfile, empty_profile, default_profile, Standard, empty_blocker,
  shared_blocker, ProfileConfig,
}

-- What the DNS engine of urlfilter answers: no rule matches, only rules of another kind match, or a
-- network rule does, with whether it allows.
pub data Matched : Type 0 where
  unmatched host_matched : Matched
  network_matched : Bool → Matched

-- The engine for the rules of one list, and `strings.ToLower`.
pub record Engines : Type 0 where
  pub match_request : List String → String → ℕ → Matched
  pub to_lower : String → String

pub record Question : Type 0 where
  pub name : String
  pub q_type : ℕ

pub record Global : Type 0 where
  pub blocked_domains : List String
  pub blocked_nets : List Prefix

pub record StandardBlockerConfig : Type 0 where
  pub allowed_nets : List Prefix
  pub blocked_nets : List Prefix
  pub allowed_asn : List ℕ
  pub blocked_asn : List ℕ
  pub blocklist_domain_rules : List String

pub record StandardBlocker : Type 0 where
  pub allowed_nets : List Prefix
  pub blocked_nets : List Prefix
  pub allowed_asn : List ℕ
  pub blocked_asn : List ℕ
  pub blocked_hosts_rules : List String

unfoldable pub match_nets : List Prefix → Addr → Bool
match_nets [] ip = false
match_nets (n ∷ ns) ip = if prefix_contains n ip then true else match_nets ns ip

-- the ASN of the location, if there is one
unfoldable pub match_asns : List ℕ → Option ℕ → Bool
match_asns asns none = false
match_asns asns (some asn) = contains asns asn

blocks : Matched → Bool
blocks unmatched = false
blocks host_matched = true
blocks (network_matched whitelist) = not whitelist

module _ (e : Engines) where
  unfoldable pub match_blocked : String → ℕ → List String → Bool
  unfolding blocks
  match_blocked host qt rules = blocks (e.match_request (map e.to_lower rules) host qt)

  unfoldable pub normalize_query_domain : String → String
  normalize_query_domain host = if host == "." then host else e.to_lower (trim_dot host)

  unfoldable pub is_blocked_host : String → ℕ → Global → Bool
  is_blocked_host host qt g = match_blocked host qt g.blocked_domains

  unfoldable pub is_blocked_ip : Addr → Global → Bool
  is_blocked_ip ip g = any (λ n. prefix_contains n ip) g.blocked_nets

  -- `SetConfig`, which replaces every setting under the lock
  unfoldable pub set_config : StandardBlockerConfig → StandardBlocker → StandardBlocker
  set_config c b = record {
    allowed_nets = c.allowed_nets;
    blocked_nets = c.blocked_nets;
    allowed_asn = c.allowed_asn;
    blocked_asn = c.blocked_asn;
    blocked_hosts_rules = c.blocklist_domain_rules;
  }

  by_lists : List ℕ → List Prefix → List ℕ → List Prefix → Addr → Option ℕ → Bool
  unfolding match_nets match_asns
  by_lists allowed_asn allowed_nets blocked_asn blocked_nets ip l =
      if match_asns allowed_asn l || match_nets allowed_nets ip
      then false
      else match_asns blocked_asn l || match_nets blocked_nets ip

  unfoldable pub standard_is_blocked_by_nets : Addr → Option ℕ → StandardBlocker → Bool
  unfolding by_lists
  standard_is_blocked_by_nets ip l b =
      by_lists b.allowed_asn b.allowed_nets b.blocked_asn b.blocked_nets ip l

  unfoldable pub standard_is_blocked : Question → Addr → Option ℕ → StandardBlocker → Bool
  standard_is_blocked q ip l b =
      standard_is_blocked_by_nets ip l b
      || match_blocked (normalize_query_domain q.name) q.q_type b.blocked_hosts_rules

  unfoldable pub is_blocked_by_nets : Addr → Option ℕ → DefaultProfile → Bool
  unfolding by_lists
  is_blocked_by_nets ip l p =
      by_lists p.allowed_asn p.allowed_nets p.blocked_asn p.blocked_nets ip l

  unfoldable pub is_blocked_by_hosts_eng : Question → DefaultProfile → Bool
  is_blocked_by_hosts_eng q p =
      match_blocked (normalize_query_domain q.name) q.q_type p.blocklist_domain_rules

  by_standard : StandardBlocker → Question → Addr → Option ℕ → Standard → Bool
  unfolding standard_is_blocked
  by_standard b q ip l empty_blocker = false
  by_standard b q ip l shared_blocker = standard_is_blocked q ip l b

  -- `Profile.IsBlocked`, with the blocker that the profiles share
  unfoldable pub is_blocked : StandardBlocker → Question → Addr → Option ℕ → AccessProfile → Bool
  unfolding by_standard
  is_blocked b q ip l empty_profile = false
  is_blocked b q ip l (default_profile p) =
      is_blocked_by_nets ip l p || is_blocked_by_hosts_eng q p || by_standard b q ip l p.standard
