-- ===== src/DeviceFinder/Search.antt =====
-- internal/dnssvc/internal/devicefinder/device.go and devicefinder.go: the search for the device of
-- a request, and its authentication.
use ad_guard_dns.Base.{
  Bool, true, false, not, ◌&&◌, String, List, Option, some, none, string_eq, contains,
  if◌then◌else◌,
}
use ad_guard_dns.Net.{Addr}
use ad_guard_dns.Settings.{authenticates}
use ad_guard_dns.Agd.{DeviceSets, Profile, Device, AuthSettings}
use ad_guard_dns.ProfileDb.{DbError, device_not_found, profile_not_found, other}
use ad_guard_dns.ProfileDb.Lookup.{Found, found, failed}
use ad_guard_dns.DeviceFinder.{
  Protocol, dns, doh, dnscrypt, AddrPort, Server, ExtHumanId, PlainData, device_id, ext_human_id,
  DeviceData, plain, custom_domain, Userinfo, FindError, authentication_failed, no_password,
  no_userinfo, not_doh, db_error, Result, ok, err, RequestInfo, Finder, DeviceResult, result_ok,
  result_error, unknown_dedicated, authentication_failure,
}
use ad_guard_dns.DeviceFinder.Data.{device_data}

unfoldable pub supports_device_id : Protocol → Bool
supports_device_id dnscrypt = false
supports_device_id _ = true

unfoldable pub is_profile_db_not_found : DbError → Bool
is_profile_db_not_found device_not_found = true
is_profile_db_not_found profile_not_found = true
is_profile_db_not_found (other e) = false

check_password : AuthSettings → Option String → Option FindError
check_password conf none = some no_password
check_password conf (some password) =
    if authenticates conf.password_hash password then none else some authentication_failed

check_userinfo : AuthSettings → Option Userinfo → Option FindError
unfolding check_password
check_userinfo conf none = if conf.doh_auth_only then some no_userinfo else none
check_userinfo conf (some u) = check_password conf u.password

check_doh : Protocol → AuthSettings → Option Userinfo → Option FindError
unfolding check_userinfo
check_doh doh conf u = check_userinfo conf u
check_doh _ conf u = if conf.doh_auth_only then some not_doh else none

-- `none` is a nil error.
unfoldable pub authenticate : Server → Option Userinfo → Device → Option FindError
unfolding check_doh
authenticate srv u dev = if dev.auth.enabled then check_doh srv.protocol dev.auth u else none

module _ ⦃S : DeviceSets⦄ where
  -- The three results of `deviceByExtID`: a pair, an error, or neither.
  pub data Answer : Type 0 where
    pair : Profile → Device → Answer
    nothing : Answer
    broken : DbError → Answer

  abbrev pub to_answer : Found → Answer
  to_answer (found p d) = pair p d
  to_answer (failed e) = broken e

  unfoldable pub new_device_result : Answer → Option DeviceResult
  unfolding is_profile_db_not_found
  new_device_result (pair p d) = some (result_ok p d)
  new_device_result nothing = none
  new_device_result (broken e) =
      if is_profile_db_not_found e then none else some (result_error (db_error e))

  created : Found → Answer
  created (found p d) = pair p d
  created (failed profile_not_found) = nothing
  created (failed e) = broken e

  or_create : Found → Found → Answer
  unfolding created
  or_create (found p d) create = pair p d
  or_create (failed profile_not_found) create = nothing
  or_create (failed device_not_found) create = created create
  or_create (failed (other e)) create = broken (other e)

  module _ (f : Finder) where
    unfoldable pub device_by_ext_id : ExtHumanId → Answer
    unfolding or_create
    device_by_ext_id x =
        or_create (f.profile_db.profile_by_human_id x.profile_id (f.texts.to_lower x.human_id))
          (f.profile_db.create_auto_device x.profile_id x.human_id x.device_type)

    by_domain_id : List String → Found → Option DeviceResult
    unfolding new_device_result
    by_domain_id ids (found p d) = if contains ids p.id then new_device_result (pair p d) else none
    by_domain_id ids (failed e) = new_device_result (broken e)

    unfoldable pub device_result_by_custom_domain : PlainData → List String → Option DeviceResult
    unfolding by_domain_id device_by_ext_id
    device_result_by_custom_domain (device_id id) ids =
        by_domain_id ids (f.profile_db.profile_by_device_id id)
    device_result_by_custom_domain (ext_human_id x) ids = new_device_result (device_by_ext_id x)

    local_result : Found → Option DeviceResult
    local_result (found p d) = some (result_ok p d)
    local_result (failed e) = some (
        if is_profile_db_not_found e
        then unknown_dedicated (db_error e)
        else result_error (db_error e))

    unfoldable pub device_by_local_addr : Addr → Option DeviceResult
    unfolding local_result is_profile_db_not_found
    device_by_local_addr ip = local_result (f.profile_db.profile_by_dedicated_ip ip)

    unfoldable pub device_by_addrs : AddrPort → Addr → Option DeviceResult
    unfolding device_by_local_addr new_device_result
    device_by_addrs laddr remote_ip =
        if f.srv.binds_to_interfaces && not (f.srv.has_addr laddr)
        then device_by_local_addr laddr.addr
        else if f.srv.linked_ip_enabled
        then new_device_result (to_answer (f.profile_db.profile_by_linked_ip remote_ip))
        else none

    by_addrs_for : Protocol → AddrPort → Addr → Option DeviceResult
    unfolding device_by_addrs
    by_addrs_for dns laddr remote_ip = device_by_addrs laddr remote_ip
    by_addrs_for _ laddr remote_ip = none

    unfoldable pub device_from_db : AddrPort → Addr → Option DeviceData → Option DeviceResult
    unfolding by_addrs_for device_result_by_custom_domain device_by_ext_id
    device_from_db laddr remote_ip none = by_addrs_for f.srv.protocol laddr remote_ip
    device_from_db laddr remote_ip (some (plain (device_id id))) =
        new_device_result (to_answer (f.profile_db.profile_by_device_id id))
    device_from_db laddr remote_ip (some (plain (ext_human_id x))) =
        new_device_result (device_by_ext_id x)
    device_from_db laddr remote_ip (some (custom_domain d domain ids)) =
        device_result_by_custom_domain d ids

    not_deleted : Option DeviceResult → Option DeviceResult
    not_deleted (some (result_ok p d)) = if p.deleted then none else some (result_ok p d)
    not_deleted r = r

    unfoldable pub find_device : AddrPort → Addr → Option DeviceData → Option DeviceResult
    unfolding not_deleted
    find_device laddr remote_ip dd = not_deleted (device_from_db laddr remote_ip dd)

    unfoldable pub authenticated_result :
        RequestInfo → Profile → Device → Option FindError → DeviceResult
    authenticated_result info p d none = result_ok p d
    authenticated_result info p d (some e) = authentication_failure e

    finish : RequestInfo → Option DeviceResult → Option DeviceResult
    unfolding authenticated_result
    finish info (some (result_ok p d)) =
        some (authenticated_result info p d (authenticate f.srv info.userinfo d))
    finish info r = r

    with_data : RequestInfo → AddrPort → Addr → Result (Option DeviceData) → Option DeviceResult
    unfolding finish
    with_data info laddr remote_ip (err e) = some (result_error e)
    with_data info laddr remote_ip (ok dd) = finish info (find_device laddr remote_ip dd)

    unfoldable pub find : RequestInfo → AddrPort → AddrPort → Option DeviceResult
    unfolding with_data supports_device_id
    find info raddr laddr =
        if supports_device_id f.srv.protocol
        then with_data info laddr raddr.addr (device_data f info)
        else none
