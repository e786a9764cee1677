-- ===== src/Settings.antt =====
-- internal/filter/config.go, internal/dnsmsg/blockingmode.go, internal/access/profile.go,
-- internal/agd/ratelimit.go and internal/agdpasswd: the settings that a profile and a device hold.
use ad_guard_dns.Base.{ℕ, Bool, true, String, List, Option}
use ad_guard_dns.Net.{Addr, Prefix}
use ad_guard_dns.Schedule.{ConfigSchedule}

-- `dnsmsg.BlockingMode`
pub data BlockingMode : Type 0 where
  custom_ip : List Addr → List Addr → BlockingMode
  nxdomain null_ip refused : BlockingMode

-- `filter` is the filter by the rules that it is made from (its engine is compiled on the first
-- use), and none for a nil filter
pub record ConfigCustomFilter : Type 0 where
  pub filter : Option (List String)
  pub enabled : Bool

pub record ConfigCustomRuleList : Type 0 where
  pub ids : List String
  pub enabled : Bool

pub record ConfigRuleList : Type 0 where
  pub ids : List String
  pub enabled : Bool

pub record ConfigCategories : Type 0 where
  pub ids : List String
  pub enabled : Bool

pub record ConfigParental : Type 0 where
  pub categories : ConfigCategories
  pub pause_schedule : Option ConfigSchedule
  pub blocked_services : List String
  pub enabled : Bool
  pub adult_blocking_enabled : Bool
  pub safe_search_general_enabled : Bool
  pub safe_search_youtube_enabled : Bool

pub record ConfigTyposquatting : Type 0 where
  pub enabled : Bool

pub record ConfigSafeBrowsing : Type 0 where
  pub typosquatting : ConfigTyposquatting
  pub enabled : Bool
  pub dangerous_domains_enabled : Bool
  pub newly_registered_domains_enabled : Bool

pub record ConfigClient : Type 0 where
  pub custom_filter : ConfigCustomFilter
  pub custom_rule_list : ConfigCustomRuleList
  pub parental : ConfigParental
  pub rule_list : ConfigRuleList
  pub safe_browsing : ConfigSafeBrowsing

-- `access.ProfileConfig`; an ASN is a `uint32`
pub record ProfileConfig : Type 0 where
  pub allowed_nets : List Prefix
  pub blocked_nets : List Prefix
  pub allowed_asn : List ℕ
  pub blocked_asn : List ℕ
  pub blocklist_domain_rules : List String
  pub standard_enabled : Bool

-- the `standard` blocker of a profile's access manager: the empty one, or the one that all share
pub data Standard : Type 0 where
  empty_blocker shared_blocker : Standard

pub record DefaultProfile : Type 0 where
  pub standard : Standard
  pub allowed_nets : List Prefix
  pub blocked_nets : List Prefix
  pub allowed_asn : List ℕ
  pub blocked_asn : List ℕ
  pub blocklist_domain_rules : List String
  pub standard_enabled : Bool

-- `access.Profile`: `EmptyProfile` and `DefaultProfile`
pub data AccessProfile : Type 0 where
  empty_profile : AccessProfile
  default_profile : DefaultProfile → AccessProfile

pub record RatelimitConfig : Type 0 where
  pub client_subnets : List Prefix
  pub rps : ℕ
  pub enabled : Bool

-- `agd.Ratelimiter`: the global one, or a profile's own with its subnets, rate and size estimate. Its
-- counter is left to RateLimit.
pub data Ratelimiter : Type 0 where
  global_ratelimiter : Ratelimiter
  default_ratelimiter : List Prefix → ℕ → ℕ → Ratelimiter

-- `agdpasswd.Authenticator`; a hash comes with bcrypt's comparison of a password with it
pub data Authenticator : Type 0 where
  allow_authenticator : Authenticator
  password_hash_bcrypt : List ℕ → (String → Bool) → Authenticator

abbrev pub authenticates : Authenticator → String → Bool
authenticates allow_authenticator w = true
authenticates (password_hash_bcrypt hash compare_hash) w = compare_hash w

pub record ConfigGroup : Type 0 where
  pub parental : ConfigParental
  pub rule_list : ConfigRuleList
  pub safe_browsing : ConfigSafeBrowsing

-- `filter.Config`
pub data FilterConfig : Type 0 where
  config_client : ConfigClient → FilterConfig
  config_group : ConfigGroup → FilterConfig
