-- ===== src/DeviceFinder/Data.antt =====
-- internal/dnssvc/internal/devicefinder/devicedata.go: the device data of a request.
use ad_guard_dns.Base.{
  ℕ, Bool, true, false, not, ◌&&◌, String, List, [], ◌∷◌, Option, some, none, ◌==◌, string_eq,
  contains, if◌then◌else◌, eqb,
}
use ad_guard_dns.Agd.{DeviceSets}
use ad_guard_dns.DeviceFinder.{
  Protocol, doh, doq, dot, PlainData, device_id, ext_human_id, DeviceData, plain, custom_domain,
  Userinfo, FindError, bad_basic_auth, bad_url_path, bad_server_name, bad_edns_option,
  bad_custom_domain, Result, ok, err, ◌>>=◌, RequestInfo, EdnsOption, Finder, Texts,
}

-- `Protocol.IsStdEncrypted`
abbrev pub is_std_encrypted : Protocol → Bool
is_std_encrypted doh = true
is_std_encrypted doq = true
is_std_encrypted dot = true
is_std_encrypted _ = false

abbrev pub dnsmasq_cpe_id_option : ℕ
dnsmasq_cpe_id_option = 65074

-- an `Option` for the empty identifier that stands for none
validated : FindError → Option String → Result (Option String)
validated e none = err e
validated e (some id) = ok (some id)

local_device_id : Texts → Option String → Result (Option String)
unfolding validated
local_device_id t none = ok none
local_device_id t (some bytes) = validated bad_edns_option (t.new_device_id bytes)

unfoldable pub device_id_from_edns_opt : Texts → EdnsOption → Result (Option String)
unfolding local_device_id
device_id_from_edns_opt t opt =
    if eqb opt.code dnsmasq_cpe_id_option then local_device_id t opt.local_data else ok none

-- The loop goes on while an option gives neither an identifier nor an error.
abbrev or_next : Result (Option String) → Result (Option String) → Result (Option String)
or_next (ok none) rest = rest
or_next (ok (some id)) rest = ok (some id)
or_next (err e) rest = err e

edns_loop : Texts → List EdnsOption → Result (Option String)
edns_loop t [] = ok none
edns_loop t (o ∷ os) = or_next (device_id_from_edns_opt t o) (edns_loop t os)

unfoldable pub device_id_from_edns : Texts → Option (List EdnsOption) → Result (Option String)
unfolding edns_loop device_id_from_edns_opt
device_id_from_edns t none = ok none
device_id_from_edns t (some os) = edns_loop t os

abbrev parsed : FindError → Option PlainData → Result (Option PlainData)
parsed e none = err e
parsed e (some d) = ok (some d)

from_url : Texts → Result (Option String) → Result (Option PlainData)
from_url t (err e) = err bad_url_path
from_url t (ok none) = ok none
from_url t (ok (some elem)) = parsed bad_url_path (t.parse_device_data elem)

from_userinfo : Option String → Result (Option PlainData)
from_userinfo none = err bad_basic_auth
from_userinfo (some id) = ok (some (device_id id))

doh_data : Texts → RequestInfo → Option Userinfo → Result (Option PlainData)
unfolding from_url from_userinfo
doh_data t info none = from_url t info.url_elem
doh_data t info (some u) = from_userinfo (t.new_device_id u.username)

unfoldable pub device_data_for_doh : Texts → RequestInfo → Result (Option PlainData)
unfolding doh_data
device_data_for_doh t info = doh_data t info info.userinfo

wrap : PlainData → String → List String → Result (Option DeviceData)
wrap (ext_human_id x) domain ids =
    if contains ids x.profile_id
    then ok (some (custom_domain (ext_human_id x) domain ids))
    else err bad_custom_domain
wrap (device_id id) domain ids = ok (some (custom_domain (device_id id) domain ids))

unfoldable pub wrap_custom_domain :
    Option PlainData → String → Option (List String) → Result (Option DeviceData)
unfolding wrap
wrap_custom_domain none domain ids = ok none
wrap_custom_domain (some d) domain none = ok (some (plain d))
wrap_custom_domain (some d) domain (some ids) = wrap d domain ids

match_lower : Texts → String → List String → String
match_lower t sub [] = ""
match_lower t sub (domain ∷ ds) =
    if t.is_immediate_subdomain sub domain then domain else match_lower t sub ds

-- "" where no domain matches
unfoldable pub match_domain : Texts → String → List String → String
unfolding match_lower
match_domain t sub ds = match_lower t (t.to_lower sub) ds

abbrev is_empty : List String → Bool
is_empty [] = true
is_empty (d ∷ ds) = false

module _ ⦃S : DeviceSets⦄ where
  module _ (f : Finder) where
    by_matched : String → String → Result (Option PlainData)
    by_matched name domain =
        if domain == ""
        then ok none
        else parsed bad_server_name (f.texts.parse_device_data (f.texts.cut_domain name domain))

    unfoldable pub device_data_from_cli_srv_name : String → String → Result (Option PlainData)
    unfolding by_matched match_domain
    device_data_from_cli_srv_name name domain =
        if name == ""
        then ok none
        else by_matched name
            (if domain == "" then match_domain f.texts name f.device_domains else domain)

    from_tls : String → String → Result (Option PlainData)
    unfolding device_data_from_cli_srv_name
    from_tls domain name =
        if is_empty f.device_domains && domain == ""
        then ok none
        else if not (domain == "") && not (f.texts.is_wildcard domain)
        then ok none
        else device_data_from_cli_srv_name name (f.texts.trim_wildcard domain)

    recheck_tls : String → String → Option PlainData → Result (Option PlainData)
    unfolding from_tls
    recheck_tls domain name none = from_tls domain name
    recheck_tls domain name (some d) = ok (some d)

    by_protocol : Protocol → RequestInfo → String → String → Result (Option PlainData)
    unfolding recheck_tls device_data_for_doh
    by_protocol doh info domain name = device_data_for_doh f.texts info >>= recheck_tls domain name
    by_protocol _ info domain name = from_tls domain name

    unfoldable pub device_data_from_srv_req_info :
        RequestInfo → String → String → Result (Option PlainData)
    unfolding by_protocol
    device_data_from_srv_req_info info domain name = by_protocol f.srv.protocol info domain name

    unfoldable pub device_data_from_encrypted : RequestInfo → Result (Option DeviceData)
    unfolding device_data_from_srv_req_info wrap_custom_domain
    device_data_from_encrypted info =
        let name = info.server_name in
        let (domain, ids) =
          if name == "" then ("", none) else f.custom_domains (f.texts.to_lower name) in
        device_data_from_srv_req_info info domain name >>= λ d. wrap_custom_domain d domain ids

    from_edns : Option String → Option DeviceData
    from_edns none = none
    from_edns (some id) = some (plain (device_id id))

    unfoldable pub device_data : RequestInfo → Result (Option DeviceData)
    unfolding device_data_from_encrypted device_id_from_edns from_edns
    device_data info =
        if is_std_encrypted f.srv.protocol
        then device_data_from_encrypted info
        else device_id_from_edns f.texts info.edns_options >>= λ id. ok (from_edns id)
