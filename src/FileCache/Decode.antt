-- ===== src/FileCache/Decode.antt =====
-- internal/profiledb/filecacheopb: from the messages to the profiles and devices.
use ad_guard_dns.Base.{
  ℕ, ◌%◌, ◌^◌, Bool, true, false, not, String, List, [], ◌∷◌, Option, some, none, eqb,
  if◌then◌else◌,
}
use ad_guard_dns.Net.{Addr, Prefix}
use ad_guard_dns.Net.Bytes.{unmarshal_binary, addr_from_slice}
use ad_guard_dns.Schedule.{DayInterval, WeeklySchedule, Location, ConfigSchedule, load_location}
use ad_guard_dns.Settings.{
  BlockingMode, custom_ip, nxdomain, null_ip, refused, ConfigCategories, ConfigParental,
  ConfigClient, ProfileConfig, DefaultProfile, AccessProfile, empty_profile, default_profile,
  empty_blocker, shared_blocker, Ratelimiter, global_ratelimiter, default_ratelimiter,
  Authenticator, allow_authenticator, password_hash_bcrypt,
}
use ad_guard_dns.Agd.{
  DeviceSets, CustomDomainState, current, pending, CustomDomainConfig, AccountCustomDomains,
  AuthSettings, Device, Profile,
}
use ad_guard_dns.Agd.Ids.{new_account_id, new_account_id_from_string}
use ad_guard_dns.ProfileDb.Refresh.{FileCache}
use ad_guard_dns.FileCache.{
  WellKnown, bad_address, bad_time_zone, bad_domain_state, bad_version, Outcome, ok, err, panicked,
  ◌>>=◌, for_each, CidrRange, PbBlockingMode, not_set, pb_custom_ip, pb_nxdomain, pb_null_ip,
  pb_refused, PbAccess, PbRatelimiter, PbDayInterval, PbWeek, PbSchedule, PbList, PbParental,
  PbSafeBrowsing, PbFilterConfig, PbAuth, PbDevice, PbDomainState, state_current, state_pending,
  state_not_set, PbDomainConfig, PbCustomDomains, PbProfile, PbFileCache,
}

to_address : Option Addr → Outcome Addr
to_address none = err bad_address
to_address (some a) = ok a

unfoldable pub byte_slices_to_ips : List (List ℕ) → Outcome (List Addr)
unfolding to_address
byte_slices_to_ips slices = for_each (λ b. to_address (unmarshal_binary b)) slices

to_prefix : ℕ → Option Addr → Outcome Prefix
to_prefix bits none = panicked
to_prefix bits (some a) = ok (record { addr = a; bits = bits })

-- A prefix with more bits than its address has stands for the invalid one of `PrefixFrom`.
unfoldable pub cidr_ranges_to_prefixes : List CidrRange → Outcome (List Prefix)
unfolding to_prefix
cidr_ranges_to_prefixes cidrs =
    for_each (λ (c : CidrRange). to_prefix c.bits (addr_from_slice c.address)) cidrs

-- the switch that the three kinds of blocking modes share, with its error for another oneof left out
unfoldable pub mode_to_internal : PbBlockingMode → Outcome (Option BlockingMode)
mode_to_internal not_set = ok none
mode_to_internal (pb_custom_ip ips) = byte_slices_to_ips ips.ipv4 >>= λ ips4.
    byte_slices_to_ips ips.ipv6 >>= λ ips6. ok (some (custom_ip ips4 ips6))
mode_to_internal pb_nxdomain = ok (some nxdomain)
mode_to_internal pb_null_ip = ok (some null_ip)
mode_to_internal pb_refused = ok (some refused)

abbrev pub blocking_mode_to_internal : PbBlockingMode → Outcome (Option BlockingMode)
blocking_mode_to_internal m = mode_to_internal m

abbrev pub adult_blocking_mode_to_internal : PbBlockingMode → Outcome (Option BlockingMode)
adult_blocking_mode_to_internal m = mode_to_internal m

abbrev pub safe_browsing_blocking_mode_to_internal : PbBlockingMode → Outcome (Option BlockingMode)
safe_browsing_blocking_mode_to_internal m = mode_to_internal m

unfoldable pub day_interval_to_internal : Option PbDayInterval → Option DayInterval
day_interval_to_internal none = none
day_interval_to_internal (some i) =
    some (record { start = i.start % 2 ^ 16; stop = i.stop % 2 ^ 16 })

-- the getters of an absent week give absent days
week_to_internal : Option PbWeek → WeeklySchedule
unfolding day_interval_to_internal
week_to_internal none = record {
  sun = none;
  mon = none;
  tue = none;
  wed = none;
  thu = none;
  fri = none;
  sat = none;
}
week_to_internal (some w) = record {
  sun = day_interval_to_internal w.sun;
  mon = day_interval_to_internal w.mon;
  tue = day_interval_to_internal w.tue;
  wed = day_interval_to_internal w.wed;
  thu = day_interval_to_internal w.thu;
  fri = day_interval_to_internal w.fri;
  sat = day_interval_to_internal w.sat;
}

to_schedule : WeeklySchedule → Option Location → Outcome (Option ConfigSchedule)
to_schedule w none = err bad_time_zone
to_schedule w (some l) = ok (some (record { week = w; time_zone = l }))

unfoldable pub filter_config_schedule_to_internal :
    (String → Bool) → Option PbSchedule → Outcome (Option ConfigSchedule)
unfolding to_schedule week_to_internal
filter_config_schedule_to_internal known none = ok none
filter_config_schedule_to_internal known (some s) =
    to_schedule (week_to_internal s.week) (load_location known s.time_zone)

-- the getters of an absent list
abbrev items_of : Option PbList → List String
items_of none = []
items_of (some l) = l.items

abbrev enabled_of : Option PbList → Bool
enabled_of none = false
enabled_of (some l) = l.enabled

-- The field of the parental settings, then the deprecated one, then a disabled configuration.
category_filter_to_internal : Option PbList → Option PbList → ConfigCategories
category_filter_to_internal (some c) deprecated = record { ids = c.items; enabled = c.enabled }
category_filter_to_internal none deprecated = record {
  ids = items_of deprecated;
  enabled = enabled_of deprecated;
}

config_parental_to_internal :
    Option PbList → Option ConfigSchedule → Option PbParental → ConfigParental
unfolding category_filter_to_internal
config_parental_to_internal deprecated schedule none = record {
  categories = category_filter_to_internal none deprecated;
  pause_schedule = schedule;
  blocked_services = [];
  enabled = false;
  adult_blocking_enabled = false;
  safe_search_general_enabled = false;
  safe_search_youtube_enabled = false;
}
config_parental_to_internal deprecated schedule (some p) = record {
  categories = category_filter_to_internal p.category_filter deprecated;
  pause_schedule = schedule;
  blocked_services = p.blocked_services;
  enabled = p.enabled;
  adult_blocking_enabled = p.adult_blocking_enabled;
  safe_search_general_enabled = p.safe_search_general_enabled;
  safe_search_youtube_enabled = p.safe_search_youtube_enabled;
}

-- a filter is made only of a rule or more
custom_of_rules : List String → Option (List String)
custom_of_rules [] = none
custom_of_rules (r ∷ rs) = some (r ∷ rs)

abbrev schedule_of : Option PbParental → Option PbSchedule
schedule_of none = none
schedule_of (some p) = p.pause_schedule

abbrev is_true : Option Bool → Bool
is_true none = false
is_true (some b) = b

abbrev safe_browsing_of : Option PbSafeBrowsing → PbSafeBrowsing
safe_browsing_of none = record {
  typosquatting = none;
  enabled = false;
  dangerous_domains_enabled = false;
  newly_registered_domains_enabled = false;
}
safe_browsing_of (some s) = s

abbrev filter_config_of : Option PbFilterConfig → PbFilterConfig
filter_config_of none = record {
  custom = none;
  custom_rule_list = none;
  category_filter = none;
  parental = none;
  rule_list = none;
  safe_browsing = none;
}
filter_config_of (some f) = f

client_of_schedule : PbFilterConfig → Option ConfigSchedule → ConfigClient
unfolding custom_of_rules config_parental_to_internal
client_of_schedule f schedule =
    let sb = safe_browsing_of f.safe_browsing in
    record {
      custom_filter = record {
        filter = custom_of_rules (items_of f.custom);
        enabled = enabled_of f.custom;
      };
      custom_rule_list = record {
        ids = items_of f.custom_rule_list;
        enabled = enabled_of f.custom_rule_list;
      };
      parental = config_parental_to_internal f.category_filter schedule f.parental;
      rule_list = record { ids = items_of f.rule_list; enabled = enabled_of f.rule_list };
      safe_browsing = record {
        typosquatting = record { enabled = is_true sb.typosquatting };
        enabled = sb.enabled;
        dangerous_domains_enabled = sb.dangerous_domains_enabled;
        newly_registered_domains_enabled = sb.newly_registered_domains_enabled;
      };
    }

unfoldable pub config_client_to_internal :
    (String → Bool) → Option PbFilterConfig → Outcome ConfigClient
unfolding client_of_schedule
config_client_to_internal known conf =
    let f = filter_config_of conf in
    filter_config_schedule_to_internal known (schedule_of f.parental) >>= λ schedule.
    ok (client_of_schedule f schedule)

-- `ProfileConstructor.New`
unfoldable pub new_profile : ProfileConfig → DefaultProfile
new_profile c = record {
  standard = if c.standard_enabled then shared_blocker else empty_blocker;
  allowed_nets = c.allowed_nets;
  blocked_nets = c.blocked_nets;
  allowed_asn = c.allowed_asn;
  blocked_asn = c.blocked_asn;
  blocklist_domain_rules = c.blocklist_domain_rules;
  standard_enabled = c.standard_enabled;
}

unfoldable pub access_to_internal : Option PbAccess → Outcome AccessProfile
unfolding new_profile
access_to_internal none = ok empty_profile
access_to_internal (some a) = cidr_ranges_to_prefixes a.allowlist_cidr >>= λ allowed.
    cidr_ranges_to_prefixes a.blocklist_cidr >>= λ blocked. ok (
      default_profile (
        new_profile (record {
          allowed_nets = allowed;
          blocked_nets = blocked;
          allowed_asn = a.allowlist_asn;
          blocked_asn = a.blocklist_asn;
          blocklist_domain_rules = a.blocklist_domain_rules;
          standard_enabled = a.standard_enabled;
        })))

enabled_rate_limiter : ℕ → PbRatelimiter → Outcome Ratelimiter
enabled_rate_limiter est r =
    cidr_ranges_to_prefixes r.client_cidr >>= λ nets. ok (default_ratelimiter nets r.rps est)

-- `est` is the estimate of the size of a response
unfoldable pub rate_limiter_to_internal : ℕ → Option PbRatelimiter → Outcome Ratelimiter
unfolding enabled_rate_limiter
rate_limiter_to_internal est none = ok global_ratelimiter
rate_limiter_to_internal est (some r) =
    if r.enabled then enabled_rate_limiter est r else ok global_ratelimiter

-- A oneof of the hashes that is set is a bcrypt one; `compare_hash` is bcrypt's comparison.
doh_password_to_internal : (List ℕ → String → Bool) → Option (List ℕ) → Authenticator
doh_password_to_internal compare_hash none = allow_authenticator
doh_password_to_internal compare_hash (some hash) = password_hash_bcrypt hash (compare_hash hash)

unfoldable pub auth_to_internal : (List ℕ → String → Bool) → Option PbAuth → AuthSettings
unfolding doh_password_to_internal
auth_to_internal compare_hash none = record {
  enabled = false;
  doh_auth_only = false;
  password_hash = allow_authenticator;
}
auth_to_internal compare_hash (some a) = record {
  enabled = true;
  doh_auth_only = a.doh_auth_only;
  password_hash = doh_password_to_internal compare_hash a.password_hash_bcrypt;
}

unfoldable pub device_to_internal : (List ℕ → String → Bool) → PbDevice → Outcome Device
unfolding to_address
device_to_internal compare_hash d = do
  linked ← to_address (unmarshal_binary d.linked_ip)
  dedicated ← byte_slices_to_ips d.dedicated_ips
  ok (record {
    id = d.device_id;
    dedicated_ips = dedicated;
    linked_ip = linked;
    human_id_lower = d.human_id_lower;
    name = d.device_name;
    filtering_enabled = d.filtering_enabled;
    auth = auth_to_internal compare_hash d.authentication;
  })

unfoldable pub devices_from_protobuf :
    (List ℕ → String → Bool) → List PbDevice → Outcome (List Device)
devices_from_protobuf compare_hash ds = for_each (device_to_internal compare_hash) ds

-- `newAccountIDFromProtobuf`, where an error leaves the empty ID
id_or_empty : Option ℕ → ℕ
id_or_empty none = 0
id_or_empty (some i) = i

unfoldable pub account_id_from_protobuf : ℕ → String → ℕ
unfolding id_or_empty
account_id_from_protobuf i s =
    id_or_empty (if not (eqb i 0) then new_account_id i else new_account_id_from_string s)

module _ ⦃W : WellKnown⦄ where
  open W use {as_time, as_duration}

  domain_state_to_internal : PbDomainState → Outcome CustomDomainState
  domain_state_to_internal (state_current s) = ok (
      current (record {
        not_before = as_time s.not_before;
        not_after = as_time s.not_after;
        cert_name = s.cert_name;
        enabled = s.enabled;
      }))
  domain_state_to_internal (state_pending s) =
      ok (pending (record { expire = as_time s.expire; well_known_path = s.well_known_path }))
  domain_state_to_internal state_not_set = err bad_domain_state

  unfoldable pub custom_domain_config_to_internal : PbDomainConfig → Outcome CustomDomainConfig
  unfolding domain_state_to_internal
  custom_domain_config_to_internal c =
      domain_state_to_internal c.state >>= λ s. ok (record { state = s; domains = c.domains })

  unfoldable pub custom_domains_to_internal : Option PbCustomDomains → Outcome AccountCustomDomains
  custom_domains_to_internal none = ok (record { domains = []; enabled = false })
  custom_domains_to_internal (some c) =
      for_each custom_domain_config_to_internal c.domains >>= λ confs.
      ok (record { domains = confs; enabled = c.enabled })

  module _ ⦃S : DeviceSets⦄ where
    open S use {of_list}

    unfoldable pub profile_to_internal : (String → Bool) → ℕ → PbProfile → Outcome Profile
    profile_to_internal known est p = do
      abm ← adult_blocking_mode_to_internal p.adult_blocking_mode
      sbm ← safe_browsing_blocking_mode_to_internal p.safe_browsing_blocking_mode
      bm ← blocking_mode_to_internal p.blocking_mode
      domains ← custom_domains_to_internal p.custom_domains
      filters ← config_client_to_internal known p.filter_config
      access ← access_to_internal p.access
      limiter ← rate_limiter_to_internal est p.ratelimiter
      ok (record {
        id = p.profile_id;
        account_id = account_id_from_protobuf p.account_id_int p.account_id;
        device_ids = of_list p.device_ids;
        custom_domains = domains;
        filter_config = filters;
        access = access;
        adult_blocking_mode = abm;
        blocking_mode = bm;
        safe_browsing_blocking_mode = sbm;
        ratelimiter = limiter;
        filtered_response_ttl = as_duration p.filtered_response_ttl;
        auto_devices_enabled = p.auto_devices_enabled;
        block_chrome_prefetch = p.block_chrome_prefetch;
        block_firefox_canary = p.block_firefox_canary;
        block_private_relay = p.block_private_relay;
        deleted = p.deleted;
        filtering_enabled = p.filtering_enabled;
        ip_log_enabled = p.ip_log_enabled;
        query_log_enabled = p.query_log_enabled;
        query_log_stream = p.query_log_stream;
      })

    unfoldable pub profiles_to_internal :
        (String → Bool) → ℕ → List PbProfile → Outcome (List Profile)
    profiles_to_internal known est ps = for_each (profile_to_internal known est) ps

    unfoldable pub file_cache_to_internal :
        (String → Bool) → ℕ → (List ℕ → String → Bool) → PbFileCache → Outcome FileCache
    file_cache_to_internal known est compare_hash c = do
      profiles ← profiles_to_internal known est c.profiles
      devices ← devices_from_protobuf compare_hash c.devices
      ok (record { sync_time = as_time c.sync_time; profiles = profiles; devices = devices })

    -- `Load` from the decoded message on
    abbrev pub file_cache_version : ℕ
    file_cache_version = 19

    unfoldable pub load_message :
        (String → Bool) → ℕ → (List ℕ → String → Bool) → PbFileCache → Outcome FileCache
    load_message known est compare_hash c =
        if not (eqb c.version file_cache_version)
        then err bad_version
        else file_cache_to_internal known est compare_hash c
