-- ===== src/DeviceFinder.antt =====
-- internal/dnssvc/internal/devicefinder: what the device finder works on. Data holds the extraction
-- of the device data from a request, and Search the search for the device and its authentication.
mod Data
mod Search
mod Guarded
mod Examples
use ad_guard_dns.Base.{ℕ, Bool, true, false, String, List, Option}
use ad_guard_dns.Net.{Addr}
use ad_guard_dns.Agd.{DeviceSets, Profile, Device}
use ad_guard_dns.ProfileDb.{DbError}
use ad_guard_dns.ProfileDb.Lookup.{Found}

pub data Protocol : Type 0 where
  dns doh doq dot dnscrypt : Protocol

pub record AddrPort : Type 0 where
  pub addr : Addr
  pub port : ℕ

-- `agd.Server`; `has_addr` looks the address up in the bind data
pub record Server : Type 0 where
  pub protocol : Protocol
  pub linked_ip_enabled : Bool
  pub binds_to_interfaces : Bool
  pub has_addr : AddrPort → Bool

pub record ExtHumanId : Type 0 where
  pub human_id : String
  pub profile_id : String
  pub device_type : ℕ

-- The data that a custom domain can wrap.
pub data PlainData : Type 0 where
  device_id : String → PlainData
  ext_human_id : ExtHumanId → PlainData

pub data DeviceData : Type 0 where
  plain : PlainData → DeviceData
  custom_domain : PlainData → String → List String → DeviceData

pub record Userinfo : Type 0 where
  pub username : String
  pub password : Option String

-- `deviceDataError` by its type, and the errors of the authentication and the database.
pub data FindError : Type 0 where
  bad_basic_auth bad_url_path bad_server_name bad_edns_option bad_custom_domain : FindError
  authentication_failed no_password no_userinfo not_doh : FindError
  db_error : DbError → FindError

pub data Result {ℓ} (A : Type ℓ) : Type ℓ where
  ok : A → Result A
  err : FindError → Result A

infixl 5 ◌>>=◌
abbrev pub ◌>>=◌ {ℓ κ} : {A : Type ℓ} {B : Type κ} → Result A → (A → Result B) → Result B
ok a >>= f = f a
err e >>= f = err e

-- An EDNS option: its code, and its bytes where it is an `EDNS0_LOCAL`.
pub record EdnsOption : Type 0 where
  pub code : ℕ
  pub local_data : Option String

-- `dnsserver.RequestInfo` and the EDNS options of the message, with the elements of the URL path
-- after the DNS endpoint, or the error of `pathElements`.
pub record RequestInfo : Type 0 where
  pub server_name : String
  pub userinfo : Option Userinfo
  pub url_elem : Result (Option String)
  pub edns_options : Option (List EdnsOption)

-- The text functions of the finder: they are not modelled, and the theorems hold for any.
pub record Texts : Type 0 where
  pub to_lower : String → String
  pub new_device_id : String → Option String
  pub parse_device_data : String → Option PlainData
  pub is_wildcard : String → Bool
  pub trim_wildcard : String → String
  pub is_immediate_subdomain : String → String → Bool
  -- `name[:len(name)-len(domain)-1]`
  pub cut_domain : String → String → String

module _ ⦃S : DeviceSets⦄ where
  -- `profiledb.Interface`, as it answers during one search
  pub record ProfileDbInterface : Type 0 where
    pub profile_by_device_id : String → Found
    pub profile_by_human_id : String → String → Found
    pub profile_by_dedicated_ip : Addr → Found
    pub profile_by_linked_ip : Addr → Found
    pub create_auto_device : String → String → ℕ → Found

  -- `custom_domains` is `CustomDomainDB.Match`: a domain, or "", and the profiles, or nil.
  pub record Finder : Type 0 where
    pub srv : Server
    pub custom_domains : String → String × Option (List String)
    pub profile_db : ProfileDbInterface
    pub device_domains : List String
    pub texts : Texts

  pub data DeviceResult : Type 0 where
    result_ok : Profile → Device → DeviceResult
    result_error : FindError → DeviceResult
    unknown_dedicated : FindError → DeviceResult
    authentication_failure : FindError → DeviceResult
