-- ===== src/Agd.antt =====
-- internal/agd/profile.go, device.go and customdomain.go: the profiles and devices that the parts
-- of the program share.
pub mod Ids
use ad_guard_dns.Base.{
  ℕ, string_eq, ◌≡◌, Bool, ◌||◌, ◌&&◌, not, String, List, Option, ◌==◌, contains,
}
use ad_guard_dns.Net.{Addr}
use ad_guard_dns.Settings.{Authenticator, ConfigClient, BlockingMode, AccessProfile, Ratelimiter}

-- The sets of device identifiers, `container.MapSet` of the golibs module. What the program relies
-- on is membership after `NewMapSet`, `Union` and `Delete`, and that `Range` and `Values` go over the
-- members.
pub record DeviceSets : Type 1 where
  pub Ids : Type 0
  pub has : Ids → String → Bool
  pub union : Ids → Ids → Ids
  pub remove : String → Ids → Ids
  pub of_list : List String → Ids
  pub elements : Ids → List String
  pub has-union : (a b : Ids) (x : String) → has (union a b) x ≡ has a x || has b x
  pub has-remove : (a : Ids) (x y : String) → has (remove y a) x ≡ has a x && not (y == x)
  pub has-of_list : (xs : List String) (x : String) → has (of_list xs) x ≡ contains xs x
  pub contains-elements : (a : Ids) (x : String) → contains (elements a) x ≡ has a x

pub record CurrentState : Type 0 where
  pub not_before : ℕ
  pub not_after : ℕ
  pub cert_name : String
  pub enabled : Bool

pub record PendingState : Type 0 where
  pub expire : ℕ
  pub well_known_path : String

-- `CustomDomainState`; `missing` is a nil value
pub data CustomDomainState : Type 0 where
  current : CurrentState → CustomDomainState
  pending : PendingState → CustomDomainState
  missing : CustomDomainState

pub record CustomDomainConfig : Type 0 where
  pub state : CustomDomainState
  pub domains : List String

pub record AccountCustomDomains : Type 0 where
  pub domains : List CustomDomainConfig
  pub enabled : Bool

pub record AuthSettings : Type 0 where
  pub enabled : Bool
  pub doh_auth_only : Bool
  pub password_hash : Authenticator

pub record Device : Type 0 where
  pub id : String
  pub dedicated_ips : List Addr
  pub linked_ip : Addr
  pub human_id_lower : String
  pub name : String
  pub filtering_enabled : Bool
  pub auth : AuthSettings

module _ ⦃S : DeviceSets⦄ where
  open S use {Ids}

  -- `account_id` is an `int32` as its bits, and a nil blocking mode is none
  pub record Profile : Type 0 where
    pub id : String
    pub account_id : ℕ
    pub device_ids : Ids
    pub custom_domains : AccountCustomDomains
    pub filter_config : ConfigClient
    pub access : AccessProfile
    pub adult_blocking_mode : Option BlockingMode
    pub blocking_mode : Option BlockingMode
    pub safe_browsing_blocking_mode : Option BlockingMode
    pub ratelimiter : Ratelimiter
    pub filtered_response_ttl : ℕ
    pub auto_devices_enabled : Bool
    pub block_chrome_prefetch : Bool
    pub block_firefox_canary : Bool
    pub block_private_relay : Bool
    pub deleted : Bool
    pub filtering_enabled : Bool
    pub ip_log_enabled : Bool
    pub query_log_enabled : Bool
    pub query_log_stream : Bool
