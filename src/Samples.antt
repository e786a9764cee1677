-- ===== src/Samples.antt =====
-- Sets of device identifiers as lists, and a small database, for the examples of the other modules.
use ad_guard_dns.Base.{
  ◌≡◌, refl, true, false, not, ◌&&◌, ◌||◌, String, some, none, List, [], ◌∷◌, ◌++◌, ◌==◌, ==_iff,
  string_eq, contains, if◌then◌else◌, arith,
}
use ad_guard_dns.Net.{v4}
use ad_guard_dns.Schedule.{ConfigSchedule}
use ad_guard_dns.Settings.{
  password_hash_bcrypt, ConfigClient, AccessProfile, default_profile, empty_blocker, custom_ip,
  nxdomain, null_ip, global_ratelimiter,
}
use ad_guard_dns.Agd.{DeviceSets, Profile, Device, AuthSettings}
use ad_guard_dns.ProfileDb.{Default}
use ad_guard_dns.Access.{Engines, host_matched, unmatched, StandardBlocker}
use ad_guard_dns.Messages.{Constructor, Msg}

abbrev removed : String → List String → List String
removed y [] = []
removed y (x ∷ xs) = if y == x then removed y xs else x ∷ removed y xs

pub contains-append :
    (a b : List String) (x : String) → contains (a ++ b) x ≡ (contains a x || contains b x)
contains-append [] b x = refl
contains-append (y ∷ a) b x = ground (arith, contains-append a b x)

pub contains-removed :
    (a : List String) (x y : String) → contains (removed y a) x ≡ (contains a x && not (y == x))
contains-removed [] x y = refl
contains-removed (z ∷ a) x y =
    ground (arith, contains-removed a x y, ==_iff y z, ==_iff z x, ==_iff y x)

instance abbrev pub list_sets : DeviceSets
list_sets = record {
  Ids = List String;
  has = contains;
  union = ◌++◌;
  remove = removed;
  of_list = λ a. a;
  elements = λ a. a;
  has-union = contains-append;
  has-remove = contains-removed;
  has-of_list = λ a x. refl;
  contains-elements = λ a x. refl;
}

abbrev pub auth : AuthSettings
auth = record {
  enabled = true;
  doh_auth_only = true;
  password_hash = password_hash_bcrypt (1 ∷ []) (λ w. w == "secret");
}

abbrev pub phone : Device
phone = record {
  id = "dev1234";
  dedicated_ips = v4 7 ∷ [];
  linked_ip = v4 9;
  human_id_lower = "my-phone";
  name = "My phone";
  filtering_enabled = true;
  auth = auth;
}

abbrev pub evenings : ConfigSchedule
evenings = record {
  week = record {
    sun = none;
    mon = some (record { start = 1200; stop = 1440 });
    tue = none;
    wed = none;
    thu = none;
    fri = some (record { start = 0; stop = 0 });
    sat = none;
  };
  time_zone = record { name = "UTC" };
}

abbrev pub home_filters : ConfigClient
home_filters = record {
  custom_filter = record { filter = some ("||ads.example^" ∷ []); enabled = true };
  custom_rule_list = record { ids = []; enabled = false };
  parental = record {
    categories = record { ids = "gambling" ∷ []; enabled = true };
    pause_schedule = some evenings;
    blocked_services = "games" ∷ [];
    enabled = true;
    adult_blocking_enabled = true;
    safe_search_general_enabled = true;
    safe_search_youtube_enabled = false;
  };
  rule_list = record { ids = "adguard_dns_filter" ∷ []; enabled = true };
  safe_browsing = record {
    typosquatting = record { enabled = true };
    enabled = true;
    dangerous_domains_enabled = true;
    newly_registered_domains_enabled = false;
  };
}

abbrev pub home_access : AccessProfile
home_access = default_profile (record {
  standard = empty_blocker;
  allowed_nets = record { addr = v4 167772160; bits = 8 } ∷ [];
  blocked_nets = [];
  allowed_asn = [];
  blocked_asn = 1 ∷ [];
  blocklist_domain_rules = "block.test" ∷ [];
  standard_enabled = false;
})

abbrev pub home : Profile
home = record {
  id = "prof1234";
  account_id = 123;
  device_ids = "dev1234" ∷ [];
  custom_domains = record { domains = []; enabled = false };
  filter_config = home_filters;
  access = home_access;
  adult_blocking_mode = none;
  blocking_mode = some (custom_ip (v4 1 ∷ []) []);
  safe_browsing_blocking_mode = some nxdomain;
  ratelimiter = global_ratelimiter;
  filtered_response_ttl = 10;
  auto_devices_enabled = false;
  block_chrome_prefetch = true;
  block_firefox_canary = true;
  block_private_relay = false;
  deleted = false;
  filtering_enabled = true;
  ip_log_enabled = true;
  query_log_enabled = true;
  query_log_stream = true;
}

abbrev pub office : Profile
office = record home { id = "prof5678" }

abbrev pub empty_db : Default
empty_db = record {
  profiles = [];
  devices = [];
  dedicated_ip_to_device_id = [];
  device_id_to_profile_id = [];
  human_id_to_device_id = [];
  linked_ip_to_device_id = [];
  sync_time = 0;
  last_cache_sync = 0;
  last_full_sync = 0;
  last_full_sync_error = 0;
  cache_ivl = 60;
  full_sync_ivl = 3600;
  full_sync_retry_ivl = 300;
  cert_calls = [];
  collected = [];
}

-- one profile with one device
abbrev pub synced_db : Default
synced_db = record empty_db {
  profiles = ("prof1234", home) ∷ [];
  devices = ("dev1234", phone) ∷ [];
  dedicated_ip_to_device_id = (v4 7, "dev1234") ∷ [];
  device_id_to_profile_id = ("dev1234", "prof1234") ∷ [];
  human_id_to_device_id = (record { lower = "my-phone"; profile = "prof1234" }, "dev1234") ∷ [];
  linked_ip_to_device_id = (v4 9, "dev1234") ∷ [];
}

abbrev pub messages : Constructor
messages = record {
  blocking_mode = null_ip;
  flt_resp_ttl = 10_000_000_000;
  ede_enabled = true;
  sde = "blocked";
}

abbrev pub question_a : Msg
question_a = record {
  id = 7;
  question = record { name = "ads.example."; q_type = 1; q_class = 1 };
  rcode = 0;
  authenticated_data = false;
  answers = [];
  ns = [];
  extra = [];
  opt = none;
}

-- a rule blocks the host that it is
abbrev pub engines : Engines
engines = record {
  match_request = λ rules host qt. if contains rules host then host_matched else unmatched;
  to_lower = λ s. s;
}

abbrev pub no_standard : StandardBlocker
no_standard = record {
  allowed_nets = [];
  blocked_nets = [];
  allowed_asn = [];
  blocked_asn = [];
  blocked_hosts_rules = [];
}
