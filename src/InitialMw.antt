-- ===== src/InitialMw.antt =====
-- internal/dnssvc/internal/initial: the middleware that answers the special domains itself.
pub mod Disclosure
mod Examples
use ad_guard_dns.Base.{
  ℕ, ◌+◌, Bool, true, false, not, ◌&&◌, ◌||◌, String, List, [], ◌∷◌, ◌++◌, Option, some, none, eqb,
  ltb, contains, map, if◌then◌else◌, ◌==◌, string_eq,
}
use Prim.Native.String.{find, slice, len, ◌++◌ as ◌+++◌}
use ad_guard_dns.Agd.{DeviceSets, Profile, Device}
use ad_guard_dns.Messages.{
  Msg, Rr, svcb_rr, Constructor, Opt, new_resp, new_resp_rcode, rcode_success, rcode_name_error,
  rcode_refused, qtype_a, qtype_aaaa,
}
use ad_guard_dns.DeviceFinder.{
  DeviceResult, result_ok, result_error, unknown_dedicated, authentication_failure,
}
use ad_guard_dns.RateLimitMw.{device_data}
use ad_guard_dns.MainMw.{Served, serve_error, served}
use ad_guard_dns.Filter.{Outcome, done, panicked}

abbrev resolver_arpa_domain : String
resolver_arpa_domain = "resolver.arpa"

abbrev ddr_label : String
ddr_label = "_dns"

abbrev ddr_domain : String
ddr_domain = "_dns.resolver.arpa"

abbrev type_svcb : ℕ
type_svcb = 64

-- a template of an SVCB record: its TTL, its target, and a number for the rest
pub record Template : Type 0 where
  pub ttl : ℕ
  pub target : String
  pub rest : ℕ

-- `DDRConfig`; the sets of names are lists
pub record DdrConfig : Type 0 where
  pub device_targets : List String
  pub public_targets : List String
  pub device_record_templates : List Template
  pub public_record_templates : List Template
  pub enabled : Bool

-- the flags of a filtering group
pub record Group : Type 0 where
  pub block_chrome_prefetch : Bool
  pub block_firefox_canary : Bool
  pub block_private_relay : Bool

-- the handlers of the special domains
pub data Special : Type 0 where
  ddr ddr_no_data bad_resolver_arpa private_relay chrome_prefetch firefox_canary : Special

-- `strings.Cut` at the first dot
unfoldable pub cut : String → Option (String × String)
cut s =
    if ltb (find s ".") (len s)
    then some (slice s 0 (find s "."), slice s (find s "." + 1) (len s))
    else none

module _ ⦃S : DeviceSets⦄ where
  pub record Info : Type 0 where
    pub device_result : Option DeviceResult
    pub filtering_group : Group
    pub messages : Constructor
    pub host : String
    pub q_type : ℕ
    pub q_class : ℕ

  abbrev pub device_of : Option (Profile × Device) → Option Device
  device_of none = none
  device_of (some (p, d)) = some d

  by_device_label : DdrConfig → Device → Option (String × String) → Bool
  by_device_label c d none = false
  by_device_label c d (some (label, domain)) =
      if label == d.id then contains c.device_targets domain else false

  of_device : DdrConfig → String → Option Device → Bool
  unfolding by_device_label cut
  of_device c domain none = false
  of_device c domain (some d) = by_device_label c d (cut domain)

  by_label : DdrConfig → Info → Option (String × String) → Bool
  unfolding of_device
  by_label c ri none = false
  by_label c ri (some (label, domain)) =
      if not (label == ddr_label)
      then false
      else if contains c.public_targets domain
      then true
      else of_device c domain (device_of (device_data ri.device_result))

  unfoldable pub is_ddr_domain : DdrConfig → Info → String → Bool
  unfolding by_label cut
  is_ddr_domain c ri host = by_label c ri (cut host)

  unfoldable pub is_ddr_request : DdrConfig → Info → Bool
  is_ddr_request c ri =
      if not (eqb ri.q_type type_svcb)
      then false
      else if ri.host == ddr_domain
      then true
      else is_ddr_domain c ri ri.host

  abbrev pub is_address_query : Info → Bool
  is_address_query ri = eqb ri.q_type qtype_a || eqb ri.q_type qtype_aaaa

  -- the profile's flag where there is a profile, and the group's otherwise
  flag : (Profile → Bool) → Bool → Option (Profile × Device) → Bool
  flag of group none = group
  flag of group (some (p, d)) = of p

  unfoldable pub should_block_private_relay : Info → Bool
  unfolding flag
  should_block_private_relay ri =
      (ri.host == "mask.icloud.com"
        || ri.host == "mask-h2.icloud.com"
        || ri.host == "mask-canary.icloud.com")
      && flag (λ p. p.block_private_relay) ri.filtering_group.block_private_relay
          (device_data ri.device_result)

  unfoldable pub should_block_chrome_prefetch : Info → Bool
  unfolding flag
  should_block_chrome_prefetch ri =
      is_address_query ri
      && ri.host == "dns-tunnel-check.googlezip.net"
      && flag (λ p. p.block_chrome_prefetch) ri.filtering_group.block_chrome_prefetch
          (device_data ri.device_result)

  unfoldable pub should_block_firefox_canary : Info → Bool
  unfolding flag
  should_block_firefox_canary ri =
      is_address_query ri
      && ri.host == "use-application-dns.net"
      && flag (λ p. p.block_firefox_canary) ri.filtering_group.block_firefox_canary
          (device_data ri.device_result)

  unfoldable pub special_domain_handler : Info → Option Special
  special_domain_handler ri =
      if should_block_private_relay ri
      then some private_relay
      else if should_block_chrome_prefetch ri
      then some chrome_prefetch
      else if should_block_firefox_canary ri
      then some firefox_canary
      else none

  ddr_of_device : Option Device → Special
  ddr_of_device none = ddr
  ddr_of_device (some d) = if d.auth.enabled && d.auth.doh_auth_only then ddr_no_data else ddr

  ddr_handler : Option DeviceResult → Special
  unfolding ddr_of_device
  ddr_handler (some (authentication_failure e)) = ddr_no_data
  ddr_handler r = ddr_of_device (device_of (device_data r))

  -- `is_subdomain` is netutil's
  unfoldable pub req_info_special_handler :
      (String → String → Bool) → DdrConfig → Info → Option Special
  unfolding ddr_handler
  req_info_special_handler is_subdomain c ri =
      if not (eqb ri.q_class 1)
      then none
      else if is_ddr_request c ri
      then some (ddr_handler ri.device_result)
      else if is_subdomain ri.host resolver_arpa_domain
      then some bad_resolver_arpa
      else special_domain_handler ri

  ddr_answers : DdrConfig → String → Option Device → List Rr
  ddr_answers c name none = map (λ r. svcb_rr name r.ttl r.target r.rest) c.public_record_templates
  ddr_answers c name (some d) =
      map (λ r. svcb_rr name r.ttl (d.id +++ "." +++ r.target) r.rest) c.device_record_templates

  unfoldable pub new_resp_ddr : DdrConfig → Msg → Info → Msg
  unfolding ddr_answers new_resp
  new_resp_ddr c req ri = record (new_resp req) {
    answers = ddr_answers c req.question.name (device_of (device_data ri.device_result));
  }

  -- what the handler writes
  unfoldable pub reply : DdrConfig → Msg → Info → Special → Msg
  reply c req ri ddr =
      if c.enabled then new_resp_ddr c req ri else new_resp_rcode ri.messages req rcode_name_error
  reply c req ri ddr_no_data =
      new_resp_rcode ri.messages req (if c.enabled then rcode_success else rcode_name_error)
  reply c req ri bad_resolver_arpa = new_resp_rcode ri.messages req rcode_success
  reply c req ri private_relay = new_resp_rcode ri.messages req rcode_name_error
  reply c req ri chrome_prefetch = new_resp_rcode ri.messages req rcode_name_error
  reply c req ri firefox_canary = new_resp_rcode ri.messages req rcode_refused

  is_do : Option Opt → Bool
  is_do none = false
  is_do (some o) = o.dnssec_ok

  -- the message that is written, or the error of the next handler; a nil response is dereferenced
  after_next : Bool → Served → Outcome (Option Msg)
  after_next wants (serve_error err) = done none
  after_next wants (served none) = panicked
  after_next wants (served (some m)) =
      done (some (record m { authenticated_data = m.authenticated_data && wants }))

  by_handler :
      DdrConfig → (Msg → Served) → Info → Bool → Msg → Option Special → Outcome (Option Msg)
  unfolding after_next
  by_handler c next ri wants req none = after_next wants (next req)
  by_handler c next ri wants req (some h) = done (some (reply c req ri h))

  -- `Wrap`'s handler: the request is passed on with its AD flag set
  unfoldable pub wrap :
      (String → String → Bool) → DdrConfig → (Msg → Served) → Info → Msg → Outcome (Option Msg)
  unfolding by_handler is_do
  wrap is_subdomain c next ri req =
      by_handler c next ri (req.authenticated_data || is_do req.opt)
        (record req { authenticated_data = true }) (req_info_special_handler is_subdomain c ri)
