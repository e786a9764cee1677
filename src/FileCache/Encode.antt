-- ===== src/FileCache/Encode.antt =====
-- internal/profiledb/filecacheopb: from the profiles and devices to the messages.
use Prim.Native.Nat.{Ordering}
use Prim.Native.String.{compare}
use ad_guard_dns.Base.{
  ℕ, ◌-◌, ◌^◌, Bool, true, false, String, List, [], ◌∷◌, map, Option, some, none, leb,
  if◌then◌else◌,
}
use ad_guard_dns.Net.{Addr, invalid, v4, v6, Prefix}
use ad_guard_dns.Net.Bytes.{marshal_binary}
use ad_guard_dns.Schedule.{DayInterval, ConfigSchedule}
use ad_guard_dns.Settings.{
  BlockingMode, custom_ip, nxdomain, null_ip, refused, ConfigParental, ConfigClient, ProfileConfig,
  AccessProfile, empty_profile, default_profile, RatelimitConfig, Ratelimiter, global_ratelimiter,
  default_ratelimiter, Authenticator, allow_authenticator, password_hash_bcrypt,
}
use ad_guard_dns.Agd.{
  DeviceSets, CustomDomainState, current, pending, missing, CustomDomainConfig,
  AccountCustomDomains, AuthSettings, Device, Profile,
}
use ad_guard_dns.FileCache.{
  WellKnown, Outcome, ok, panicked, ◌>>=◌, for_each, CidrRange, PbBlockingMode, not_set,
  pb_custom_ip, pb_nxdomain, pb_null_ip, pb_refused, PbAccess, PbRatelimiter, PbDayInterval,
  PbSchedule, PbParental, PbFilterConfig, PbAuth, PbDevice, PbDomainState, state_current,
  state_pending, PbDomainConfig, PbCustomDomains, PbProfile, PbFileCache,
}

-- `Prefix.Bits`, -1 where there are more bits than the address has, as a `uint32`
abbrev pub bit_len : Addr → ℕ
bit_len invalid = 0
bit_len (v4 a) = 32
bit_len (v6 a) = 128

abbrev pub prefix_bits : Prefix → ℕ
prefix_bits p = if leb p.bits (bit_len p.addr) then p.bits else 2 ^ 32 - 1

unfoldable pub cidr_range : Prefix → CidrRange
cidr_range p = record { address = marshal_binary p.addr; bits = prefix_bits p }

unfoldable pub prefixes_to_protobuf : List Prefix → List CidrRange
unfolding cidr_range
prefixes_to_protobuf nets = map cidr_range nets

unfoldable pub ips_to_byte_slices : List Addr → List (List ℕ)
ips_to_byte_slices ips = map marshal_binary ips

unfoldable pub mode_to_protobuf : BlockingMode → PbBlockingMode
mode_to_protobuf (custom_ip ips4 ips6) =
    pb_custom_ip (record { ipv4 = ips_to_byte_slices ips4; ipv6 = ips_to_byte_slices ips6 })
mode_to_protobuf nxdomain = pb_nxdomain
mode_to_protobuf null_ip = pb_null_ip
mode_to_protobuf refused = pb_refused

unfoldable pub set_blocking_mode : Option BlockingMode → Outcome PbBlockingMode
unfolding mode_to_protobuf
set_blocking_mode none = panicked
set_blocking_mode (some m) = ok (mode_to_protobuf m)

unfoldable pub set_adult_blocking_mode : Option BlockingMode → Outcome PbBlockingMode
unfolding mode_to_protobuf
set_adult_blocking_mode none = ok not_set
set_adult_blocking_mode (some m) = ok (mode_to_protobuf m)

unfoldable pub set_safe_browsing_blocking_mode : Option BlockingMode → Outcome PbBlockingMode
unfolding mode_to_protobuf
set_safe_browsing_blocking_mode none = ok not_set
set_safe_browsing_blocking_mode (some m) = ok (mode_to_protobuf m)

unfoldable pub day_interval_to_protobuf : Option DayInterval → Option PbDayInterval
day_interval_to_protobuf none = none
day_interval_to_protobuf (some i) = some (record { start = i.start; stop = i.stop })

unfoldable pub schedule_to_protobuf : Option ConfigSchedule → Option PbSchedule
unfolding day_interval_to_protobuf
schedule_to_protobuf none = none
schedule_to_protobuf (some c) = some (record {
  week = some (record {
    mon = day_interval_to_protobuf c.week.mon;
    tue = day_interval_to_protobuf c.week.tue;
    wed = day_interval_to_protobuf c.week.wed;
    thu = day_interval_to_protobuf c.week.thu;
    fri = day_interval_to_protobuf c.week.fri;
    sat = day_interval_to_protobuf c.week.sat;
    sun = day_interval_to_protobuf c.week.sun;
  });
  time_zone = c.time_zone.name;
})

-- `Rules` of a nil filter panics
filter_rules : Bool → Option (List String) → Outcome (List String)
filter_rules false f = ok []
filter_rules true none = panicked
filter_rules true (some rules) = ok rules

parental_to_protobuf : ConfigParental → PbParental
parental_to_protobuf p = record {
  pause_schedule = schedule_to_protobuf p.pause_schedule;
  category_filter = some (record { items = p.categories.ids; enabled = p.categories.enabled });
  blocked_services = p.blocked_services;
  enabled = p.enabled;
  adult_blocking_enabled = p.adult_blocking_enabled;
  safe_search_general_enabled = p.safe_search_general_enabled;
  safe_search_youtube_enabled = p.safe_search_youtube_enabled;
}

unfoldable pub filter_config_to_protobuf : ConfigClient → Outcome PbFilterConfig
unfolding filter_rules parental_to_protobuf
filter_config_to_protobuf c =
    filter_rules c.custom_filter.enabled c.custom_filter.filter >>= λ rules. ok (record {
      custom = some (record { items = rules; enabled = c.custom_filter.enabled });
      custom_rule_list =
          some (record { items = c.custom_rule_list.ids; enabled = c.custom_rule_list.enabled });
      category_filter = none;
      parental = some (parental_to_protobuf c.parental);
      rule_list = some (record { items = c.rule_list.ids; enabled = c.rule_list.enabled });
      safe_browsing = some (record {
        typosquatting = some c.safe_browsing.typosquatting.enabled;
        enabled = c.safe_browsing.enabled;
        dangerous_domains_enabled = c.safe_browsing.dangerous_domains_enabled;
        newly_registered_domains_enabled = c.safe_browsing.newly_registered_domains_enabled;
      });
    })

-- `Config` of the access manager
unfoldable pub access_config : AccessProfile → Option ProfileConfig
access_config empty_profile = none
access_config (default_profile p) = some (record {
  allowed_nets = p.allowed_nets;
  blocked_nets = p.blocked_nets;
  allowed_asn = p.allowed_asn;
  blocked_asn = p.blocked_asn;
  blocklist_domain_rules = p.blocklist_domain_rules;
  standard_enabled = p.standard_enabled;
})

unfoldable pub access_to_protobuf : Option ProfileConfig → Option PbAccess
access_to_protobuf none = none
access_to_protobuf (some c) = some (record {
  allowlist_cidr = prefixes_to_protobuf c.allowed_nets;
  blocklist_cidr = prefixes_to_protobuf c.blocked_nets;
  allowlist_asn = c.allowed_asn;
  blocklist_asn = c.blocked_asn;
  blocklist_domain_rules = c.blocklist_domain_rules;
  standard_enabled = c.standard_enabled;
})

-- `Config` of a rate limiter is never nil
unfoldable pub ratelimit_config : Ratelimiter → RatelimitConfig
ratelimit_config global_ratelimiter = record { client_subnets = []; rps = 0; enabled = false }
ratelimit_config (default_ratelimiter subnets rps est) = record {
  client_subnets = subnets;
  rps = rps;
  enabled = true;
}

unfoldable pub ratelimiter_to_protobuf : RatelimitConfig → Option PbRatelimiter
ratelimiter_to_protobuf c = some (record {
  client_cidr = prefixes_to_protobuf c.client_subnets;
  rps = c.rps;
  enabled = c.enabled;
})

-- The hash is not the nil slice, which no conversion from the backend makes; the message would not
-- hold a nil one.
unfoldable pub doh_password_to_protobuf : Authenticator → Option (List ℕ)
doh_password_to_protobuf allow_authenticator = none
doh_password_to_protobuf (password_hash_bcrypt hash compare_hash) = some hash

unfoldable pub auth_to_protobuf : AuthSettings → Option PbAuth
unfolding doh_password_to_protobuf
auth_to_protobuf s =
    if s.enabled
    then some (record {
      doh_auth_only = s.doh_auth_only;
      password_hash_bcrypt = doh_password_to_protobuf s.password_hash;
    })
    else none

unfoldable pub device_to_protobuf : Device → PbDevice
device_to_protobuf d = record {
  authentication = auth_to_protobuf d.auth;
  device_id = d.id;
  linked_ip = marshal_binary d.linked_ip;
  human_id_lower = d.human_id_lower;
  device_name = d.name;
  dedicated_ips = ips_to_byte_slices d.dedicated_ips;
  filtering_enabled = d.filtering_enabled;
}

unfoldable pub devices_to_protobuf : List Device → List PbDevice
devices_to_protobuf ds = map device_to_protobuf ds

-- the order of Go's strings
abbrev pub string_leb : String → String → Bool
string_leb a b = elim (compare a b) [ Ordering.gt ↦ false | _ ↦ true ]

-- slices.Sort and slices.SortFunc, of elements by a text that each has
module _ {ℓ} {A : Type ℓ} (key : A → String) where
  unfoldable pub insert_sorted : A → List A → List A
  insert_sorted x [] = x ∷ []
  insert_sorted x (y ∷ ys) =
      if string_leb (key x) (key y) then x ∷ y ∷ ys else y ∷ insert_sorted x ys

  unfoldable pub sort_by : List A → List A
  unfolding insert_sorted
  sort_by [] = []
  sort_by (x ∷ xs) = insert_sorted x (sort_by xs)

module _ ⦃W : WellKnown⦄ where
  open W use {new_timestamp, new_duration}

  domain_state_to_protobuf : CustomDomainState → Outcome PbDomainState
  domain_state_to_protobuf (current s) = ok (
      state_current (record {
        not_before = some (new_timestamp s.not_before);
        not_after = some (new_timestamp s.not_after);
        cert_name = s.cert_name;
        enabled = s.enabled;
      }))
  domain_state_to_protobuf (pending s) = ok (
      state_pending
        (record { expire = some (new_timestamp s.expire); well_known_path = s.well_known_path }))
  domain_state_to_protobuf missing = panicked

  unfoldable pub domain_config_to_protobuf : CustomDomainConfig → Outcome PbDomainConfig
  unfolding domain_state_to_protobuf
  domain_config_to_protobuf c =
      domain_state_to_protobuf c.state >>= λ s. ok (record { state = s; domains = c.domains })

  unfoldable pub custom_domain_configs_to_protobuf :
      List CustomDomainConfig → Outcome (List PbDomainConfig)
  unfolding domain_config_to_protobuf
  custom_domain_configs_to_protobuf confs = for_each domain_config_to_protobuf confs

  unfoldable pub custom_domains_to_protobuf : AccountCustomDomains → Outcome PbCustomDomains
  custom_domains_to_protobuf acd = custom_domain_configs_to_protobuf acd.domains >>= λ confs.
      ok (record { domains = confs; enabled = acd.enabled })

  module _ ⦃S : DeviceSets⦄ where
    open S use {elements}

    -- The builder never sets the stream flag of the query log.
    unfoldable pub profile_to_protobuf : Profile → Outcome PbProfile
    profile_to_protobuf p = do
      domains ← custom_domains_to_protobuf p.custom_domains
      filters ← filter_config_to_protobuf p.filter_config
      bm ← set_blocking_mode p.blocking_mode
      abm ← set_adult_blocking_mode p.adult_blocking_mode
      sbm ← set_safe_browsing_blocking_mode p.safe_browsing_blocking_mode
      ok (record {
        custom_domains = some domains;
        filter_config = some filters;
        access = access_to_protobuf (access_config p.access);
        blocking_mode = bm;
        adult_blocking_mode = abm;
        safe_browsing_blocking_mode = sbm;
        ratelimiter = ratelimiter_to_protobuf (ratelimit_config p.ratelimiter);
        account_id = "";
        account_id_int = p.account_id;
        profile_id = p.id;
        device_ids = sort_by (λ id. id) (elements p.device_ids);
        filtered_response_ttl = some (new_duration p.filtered_response_ttl);
        auto_devices_enabled = p.auto_devices_enabled;
        block_chrome_prefetch = p.block_chrome_prefetch;
        block_firefox_canary = p.block_firefox_canary;
        block_private_relay = p.block_private_relay;
        deleted = p.deleted;
        filtering_enabled = p.filtering_enabled;
        ip_log_enabled = p.ip_log_enabled;
        query_log_enabled = p.query_log_enabled;
        query_log_stream = false;
      })

    unfoldable pub profiles_to_protobuf : List Profile → Outcome (List PbProfile)
    profiles_to_protobuf ps = for_each profile_to_protobuf ps

    unfoldable pub file_cache_to_protobuf : ℕ → List Profile → List Device → ℕ → Outcome PbFileCache
    file_cache_to_protobuf sync_time profiles devices version =
        profiles_to_protobuf (sort_by (λ p. p.id) profiles) >>= λ pbs. ok (record {
          sync_time = some (new_timestamp sync_time);
          profiles = pbs;
          devices = devices_to_protobuf (sort_by (λ d. d.id) devices);
          version = version;
        })
