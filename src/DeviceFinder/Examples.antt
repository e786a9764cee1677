-- ===== src/DeviceFinder/Examples.antt =====
-- internal/dnssvc/internal/devicefinder: the theorems at a phone that asks over DNS-over-HTTPS, and
-- at a server with dedicated addresses.
use ad_guard_dns.Base.{
  ◌≡◌, ◌≢◌, ◌↔◌, ◌&&◌, refl, true, false, [], ◌∷◌, some, none, string_eq, ◌==◌, if◌then◌else◌,
}
use ad_guard_dns.Net.{v4}
use ad_guard_dns.ProfileDb.{device_not_found}
use ad_guard_dns.ProfileDb.Lookup.{found, failed}
use ad_guard_dns.DeviceFinder.{
  Protocol, dns, doh, dnscrypt, AddrPort, device_id, custom_domain, Userinfo, ok, RequestInfo,
  Texts, Finder, ProfileDbInterface, result_ok,
}
use ad_guard_dns.DeviceFinder.Data.{device_data, device_id_from_edns}
use ad_guard_dns.DeviceFinder.Search.{find, find_device, device_from_db, authenticate}
use ad_guard_dns.DeviceFinder.Guarded.{
  MayUse, authenticate-MayUse, find-authenticated, dns_lookup, find-dns_lookup, NamedBy,
  find-NamedBy,
}
use ad_guard_dns.Samples.{list_sets, phone, home}

abbrev texts : Texts
texts = record {
  to_lower = λ s. s;
  new_device_id = λ s. some s;
  parse_device_data = λ s. some (device_id s);
  is_wildcard = λ s. false;
  trim_wildcard = λ s. s;
  is_immediate_subdomain = λ s d. false;
  cut_domain = λ s d. s;
}

abbrev profile_db : ProfileDbInterface
profile_db = record {
  profile_by_device_id =
      λ id. if id == "dev1234" then found home phone else failed device_not_found;
  profile_by_human_id = λ p h. failed device_not_found;
  profile_by_dedicated_ip = λ ip. failed device_not_found;
  profile_by_linked_ip = λ ip. found home phone;
  create_auto_device = λ p h t. failed device_not_found;
}

abbrev finder : Protocol → Finder
finder proto = record {
  srv = record {
    protocol = proto;
    linked_ip_enabled = true;
    binds_to_interfaces = true;
    has_addr = λ a. false;
  };
  custom_domains = λ s. ("", none);
  profile_db = profile_db;
  device_domains = [];
  texts = texts;
}

abbrev user : Userinfo
user = record { username = "dev1234"; password = some "secret" }

abbrev info : RequestInfo
info = record {
  server_name = "dns.example.com";
  userinfo = some user;
  url_elem = ok none;
  edns_options = none;
}

abbrev addr : AddrPort
addr = record { addr = v4 1; port = 53 }

-- the user name is the device ID, and the password is right
find_run : find (finder doh) info addr addr ≡ some (result_ok home phone)
unfolding find device_data find_device device_from_db authenticate
find_run = refl

find-authenticated_example :
    (home.deleted ≡ false)
    × ((finder doh).srv.protocol ≢ dnscrypt)
    × (authenticate (finder doh).srv info.userinfo phone ≡ none)
find-authenticated_example = find-authenticated (finder doh) info addr addr home phone find_run

authenticate-MayUse_example : MayUse (finder doh).srv (some user) phone
unfolding authenticate
authenticate-MayUse_example = authenticate-MayUse (finder doh).srv (some user) phone refl refl

-- a device by the dedicated address that the request came to
abbrev dedicated : Finder
dedicated = record (finder dns) {
  profile_db = record profile_db { profile_by_dedicated_ip = λ ip. found home phone };
}

find-dns_lookup_example : (find dedicated info addr addr ≡ some (result_ok home phone)) ↔ (
    (dns_lookup dedicated none addr.addr addr ≡ found home phone)
    × (home.deleted ≡ false)
    × ((phone.auth.enabled && phone.auth.doh_auth_only) ≡ false))
unfolding device_id_from_edns
find-dns_lookup_example = find-dns_lookup dedicated info addr addr none home phone refl refl

-- the same phone, under a custom domain of its profile
abbrev at_home : Finder
at_home = record (finder doh) { custom_domains = λ s. ("*.example.com", some (home.id ∷ [])) }

device_data_run :
    device_data at_home info
    ≡ ok (some (custom_domain (device_id "dev1234") "*.example.com" (home.id ∷ [])))
unfolding device_data
device_data_run = refl

find-at_home : find at_home info addr addr ≡ some (result_ok home phone)
unfolding find device_data find_device device_from_db authenticate
find-at_home = refl

find-NamedBy_example : NamedBy at_home (home.id ∷ []) home phone (device_id "dev1234")
find-NamedBy_example =
    find-NamedBy at_home info addr addr (device_id "dev1234") "*.example.com" (home.id ∷ []) home
      phone device_data_run find-at_home
