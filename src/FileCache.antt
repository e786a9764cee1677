-- ===== src/FileCache.antt =====
-- internal/profiledb/filecacheopb: the file cache of the profiles and devices. This file has the
-- messages of internal/profiledb/internal/fcpb/fc.proto, where a message that may be absent is an
-- Option; Encode makes them from the profiles and devices, and Decode reads them back.
mod Encode
mod Decode
mod Parts
mod RoundTrip
mod Whole
mod Examples
use ad_guard_dns.Base.{ℕ, ◌≡◌, Bool, String, List, [], ◌∷◌, Option, some, none}

-- What the code calls of the protobuf module: the conversion of times and durations, which may be
-- absent where they are read.
pub record WellKnown : Type 1 where
  pub Timestamp : Type 0
  pub Duration : Type 0
  pub new_timestamp : ℕ → Timestamp
  pub as_time : Option Timestamp → ℕ
  pub new_duration : ℕ → Duration
  pub as_duration : Option Duration → ℕ
  pub as_time-new : (t : ℕ) → as_time (some (new_timestamp t)) ≡ t
  pub as_duration-new : (d : ℕ) → as_duration (some (new_duration d)) ≡ d

-- the errors of the conversions, less the texts that wrap them
pub data LoadError : Type 0 where
  bad_address bad_time_zone bad_domain_state bad_version : LoadError

pub data Outcome {ℓ} (A : Type ℓ) : Type ℓ where
  ok : A → Outcome A
  err : LoadError → Outcome A
  panicked : Outcome A

infixl 5 ◌>>=◌
abbrev pub ◌>>=◌ {ℓ κ} : {A : Type ℓ} {B : Type κ} → Outcome A → (A → Outcome B) → Outcome B
ok a >>= f = f a
err e >>= f = err e
panicked >>= f = panicked

-- a loop that appends what `f` makes of each element, and stops at the first error
unfoldable pub for_each {ℓ κ} :
    {A : Type ℓ} {B : Type κ} → (A → Outcome B) → List A → Outcome (List B)
for_each f [] = ok []
for_each f (x ∷ xs) = f x >>= λ y. for_each f xs >>= λ ys. ok (y ∷ ys)

pub record CidrRange : Type 0 where
  pub address : List ℕ
  pub bits : ℕ

pub record PbCustomIp : Type 0 where
  pub ipv4 : List (List ℕ)
  pub ipv6 : List (List ℕ)

-- a oneof of the blocking modes
pub data PbBlockingMode : Type 0 where
  not_set : PbBlockingMode
  pb_custom_ip : PbCustomIp → PbBlockingMode
  pb_nxdomain pb_null_ip pb_refused : PbBlockingMode

pub record PbAccess : Type 0 where
  pub allowlist_cidr : List CidrRange
  pub blocklist_cidr : List CidrRange
  pub allowlist_asn : List ℕ
  pub blocklist_asn : List ℕ
  pub blocklist_domain_rules : List String
  pub standard_enabled : Bool

pub record PbRatelimiter : Type 0 where
  pub client_cidr : List CidrRange
  pub rps : ℕ
  pub enabled : Bool

pub record PbDayInterval : Type 0 where
  pub start : ℕ
  pub stop : ℕ

pub record PbWeek : Type 0 where
  pub mon : Option PbDayInterval
  pub tue : Option PbDayInterval
  pub wed : Option PbDayInterval
  pub thu : Option PbDayInterval
  pub fri : Option PbDayInterval
  pub sat : Option PbDayInterval
  pub sun : Option PbDayInterval

pub record PbSchedule : Type 0 where
  pub week : Option PbWeek
  pub time_zone : String

-- `Custom`, `CustomRuleList`, `RuleList` and `CategoryFilter` are each a list and a flag.
pub record PbList : Type 0 where
  pub items : List String
  pub enabled : Bool

pub record PbParental : Type 0 where
  pub pause_schedule : Option PbSchedule
  pub category_filter : Option PbList
  pub blocked_services : List String
  pub enabled : Bool
  pub adult_blocking_enabled : Bool
  pub safe_search_general_enabled : Bool
  pub safe_search_youtube_enabled : Bool

pub record PbSafeBrowsing : Type 0 where
  pub typosquatting : Option Bool
  pub enabled : Bool
  pub dangerous_domains_enabled : Bool
  pub newly_registered_domains_enabled : Bool

-- `category_filter` is the deprecated field
pub record PbFilterConfig : Type 0 where
  pub custom : Option PbList
  pub custom_rule_list : Option PbList
  pub category_filter : Option PbList
  pub parental : Option PbParental
  pub rule_list : Option PbList
  pub safe_browsing : Option PbSafeBrowsing

pub record PbAuth : Type 0 where
  pub doh_auth_only : Bool
  pub password_hash_bcrypt : Option (List ℕ)

pub record PbDevice : Type 0 where
  pub authentication : Option PbAuth
  pub device_id : String
  pub linked_ip : List ℕ
  pub human_id_lower : String
  pub device_name : String
  pub dedicated_ips : List (List ℕ)
  pub filtering_enabled : Bool

module _ ⦃W : WellKnown⦄ where
  open W use {Timestamp, Duration}

  pub record PbCurrent : Type 0 where
    pub not_before : Option Timestamp
    pub not_after : Option Timestamp
    pub cert_name : String
    pub enabled : Bool

  pub record PbPending : Type 0 where
    pub expire : Option Timestamp
    pub well_known_path : String

  pub data PbDomainState : Type 0 where
    state_current : PbCurrent → PbDomainState
    state_pending : PbPending → PbDomainState
    state_not_set : PbDomainState

  pub record PbDomainConfig : Type 0 where
    pub state : PbDomainState
    pub domains : List String

  pub record PbCustomDomains : Type 0 where
    pub domains : List PbDomainConfig
    pub enabled : Bool

  pub record PbProfile : Type 0 where
    pub custom_domains : Option PbCustomDomains
    pub filter_config : Option PbFilterConfig
    pub access : Option PbAccess
    pub blocking_mode : PbBlockingMode
    pub adult_blocking_mode : PbBlockingMode
    pub safe_browsing_blocking_mode : PbBlockingMode
    pub ratelimiter : Option PbRatelimiter
    pub account_id : String
    pub account_id_int : ℕ
    pub profile_id : String
    pub device_ids : List String
    pub filtered_response_ttl : Option Duration
    pub auto_devices_enabled : Bool
    pub block_chrome_prefetch : Bool
    pub block_firefox_canary : Bool
    pub block_private_relay : Bool
    pub deleted : Bool
    pub filtering_enabled : Bool
    pub ip_log_enabled : Bool
    pub query_log_enabled : Bool
    pub query_log_stream : Bool

  pub record PbFileCache : Type 0 where
    pub sync_time : Option Timestamp
    pub profiles : List PbProfile
    pub devices : List PbDevice
    pub version : ℕ
