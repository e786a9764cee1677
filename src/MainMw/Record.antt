-- ===== src/MainMw/Record.antt =====
-- internal/dnssvc/internal/mainmw/record.go: the query log, the billing and the rule statistics.
pub mod Events
pub mod Private
pub mod Billed
use ad_guard_dns.Base.{
  trim_dot, ℕ, ◌-◌, ◌%◌, ◌^◌, Bool, true, false, ◌||◌, not, String, List, [], ◌∷◌, ◌++◌, Option,
  some, none, eqb, if◌then◌else◌, ◌==◌, string_eq,
}
use ad_guard_dns.Net.{Addr, invalid, v4, v6, addr_eq}
use ad_guard_dns.Agd.{DeviceSets, Profile, Device}
use ad_guard_dns.Messages.{
  Msg, Rr, a_rr, aaaa_rr, https_rr, SvcbValue, ipv4_hint, ipv6_hint, other_value, rcode_success,
}
use ad_guard_dns.MainMw.{
  FilteringContext, Location, Entry, Event, collected, rule_counted, billed, logged, QueryLogResult,
  written, timed_out, failed, Run, Texts, Middleware, RequestInfo, Call,
}
use ad_guard_dns.MainMw.Filtering.{filtering_data, add_event, collect_error}

abbrev pub country_not_applicable : String
country_not_applicable = "QN"

abbrev pub country_none : String
country_none = ""

-- `agdnet.NormalizeDomain`
unfoldable pub normalize_domain : Texts → String → String
normalize_domain t fqdn = t.to_lower (trim_dot fqdn)

-- What is found in an answer: no address, or one that is converted with its family's conversion.
pub data Found : Type 0 where
  nothing : Found
  found4 found6 : Addr → Found

-- nothing for a hint with no addresses
unfoldable pub ip_from_httpsrr_kv : SvcbValue → Found
ip_from_httpsrr_kv (ipv4_hint (ip ∷ ips)) = found4 ip
ip_from_httpsrr_kv (ipv6_hint (ip ∷ ips)) = found6 ip
ip_from_httpsrr_kv _ = nothing

or_next : Found → Found → Found
or_next nothing next = next
or_next (found4 ip) next = found4 ip
or_next (found6 ip) next = found6 ip

first_hint : List SvcbValue → Found
unfolding or_next
first_hint [] = nothing
first_hint (v ∷ vs) = or_next (ip_from_httpsrr_kv v) (first_hint vs)

first_answer : List Rr → Found
unfolding first_hint
first_answer [] = nothing
first_answer (a_rr name ttl ip ∷ rrs) = found4 ip
first_answer (aaaa_rr name ttl ip ∷ rrs) = found6 ip
first_answer (https_rr name ttl vs ∷ rrs) = first_hint vs
first_answer (_ ∷ rrs) = first_answer rrs

-- a nil address is no address; `none` is an error
converted : Texts → Found → Option Addr
converted t nothing = some invalid
converted t (found4 invalid) = some invalid
converted t (found6 invalid) = some invalid
converted t (found4 ip) = t.ip_to_addr4 ip
converted t (found6 ip) = t.ip_to_addr6 ip

unfoldable pub ip_from_answer : Texts → List Rr → Option Addr
unfolding converted first_answer
ip_from_answer t rrs = converted t (first_answer rrs)

pub record ResponseData : Type 0 where
  pub rcode : ℕ
  pub ip : Addr
  pub dnssec : Bool

with_address : Msg → Option Addr → Run → ResponseData × Run
with_address m none r = (
  record { rcode = m.rcode % 2 ^ 16; ip = invalid; dnssec = m.authenticated_data },
  add_event (collected "getting response data") r,
)
with_address m (some ip) r =
    (record { rcode = m.rcode % 2 ^ 16; ip = ip; dnssec = m.authenticated_data }, r)

-- the error is collected, and the address is then missing
unfoldable pub response_data : Texts → Option Msg → Run → ResponseData × Run
unfolding with_address
response_data t none r = (record { rcode = 255; ip = invalid; dnssec = false }, r)
response_data t (some m) r = with_address m (ip_from_answer t m.answers) r

abbrev is_unspecified : Addr → Bool
is_unspecified (v4 a) = eqb a 0
is_unspecified (v6 a) = eqb a 0
is_unspecified invalid = false

country_of : Option Location → String
country_of none = country_none
country_of (some l) = l.country

unfoldable pub country : Middleware → String → Addr → Run → String × Run
unfolding country_of
country mw host ip r =
    let (l, err) = mw.geo_ip_data host ip in
    (country_of l, collect_error "getting geoip data" err r)

abbrev modified_host : Texts → String → Option Msg → String
modified_host t host none = host
modified_host t host (some m) = normalize_domain t m.question.name

unfoldable pub response_country : Texts → Middleware → String → Addr → ℕ → Run → String × Run
response_country t mw host ip rcode r =
    if not (eqb rcode rcode_success) || ip == invalid || is_unspecified ip
    then (country_not_applicable, r)
    else country mw (modified_host t host r.fctx.modified_request) ip r

-- timeouts are not collected
pub log_result : QueryLogResult → Run → Run
log_result written r = r
log_result (timed_out err) r = r
log_result (failed err) r = add_event (collected "writing query log") r

-- where the query is blocked, the address is the original response's
pub blocked_address : Texts → Bool → ResponseData → Run → Addr × Run
blocked_address t false d r = (d.ip, r)
blocked_address t true d r =
    let (orig, r') = response_data t r.fctx.original_response r in (orig.ip, r')

-- the write to the query log
write_entry : Middleware → Entry → Run → Run
unfolding log_result
write_entry mw e r = log_result (mw.query_log_write e) (add_event (logged e) r)

module _ ⦃S : DeviceSets⦄ where
  complete : RequestInfo → Bool → Entry → ResponseData → String → Entry
  complete ri log_ip e d ctry = record e {
    response_code = d.rcode;
    dnssec = d.dnssec;
    remote_ip = if log_ip then ri.remote_ip else e.remote_ip;
    response_country = ctry;
  }

  unfoldable pub write_query_log_entry :
      Texts → Middleware → RequestInfo → Entry → Bool → Bool → Run → Run
  unfolding write_entry complete blocked_address response_country
  write_query_log_entry t mw ri e blocked log_ip r0 =
      let (d, r1) = response_data t r0.fctx.filtered_response r0 in
      let (ip, r2) = blocked_address t blocked d r1 in
      let (ctry, r3) = response_country t mw ri.host ip d.rcode r2 in
      write_entry mw (complete ri log_ip e d ctry) r3

  abbrev loc_country : Option Location → String
  loc_country none = ""
  loc_country (some l) = l.country

  abbrev loc_asn : Option Location → ℕ
  loc_asn none = 0
  loc_asn (some l) = l.asn

  new_entry : Call → RequestInfo → Profile → Device → FilteringContext → Entry
  new_entry c ri p d fctx = record {
    remote_ip = invalid;
    request_result = fctx.request_result;
    response_result = fctx.response_result;
    time = ri.start_time;
    profile_id = p.id;
    device_id = d.id;
    client_country = loc_country ri.location;
    response_country = "";
    domain_fqdn = fctx.original_request.question.name;
    elapsed = c.total_time;
    client_asn = loc_asn ri.location;
    request_type = ri.q_type;
    response_code = 0;
    account_id = p.account_id;
    protocol = ri.protocol;
    dnssec = false;
    stream = p.query_log_stream;
  }

  bill : RequestInfo → Device → Run → Run
  bill ri d r =
      add_event
        (billed d.id (loc_country ri.location) (loc_asn ri.location) ri.start_time ri.protocol) r

  -- the query of a profile: it is billed, and logged where the profile has the log on
  record_profile : Texts → Middleware → Call → RequestInfo → Bool → Run → Profile → Device → Run
  unfolding bill new_entry
  record_profile t mw c ri blocked r p d =
      if p.query_log_enabled
      then write_query_log_entry t mw ri (new_entry c ri p d r.fctx) blocked p.ip_log_enabled
          (bill ri d r)
      else bill ri d r

  for_device :
      Texts → Middleware → Call → RequestInfo → Bool → Run → Option (Profile × Device) → Run
  unfolding record_profile
  for_device t mw c ri blocked r none = r
  for_device t mw c ri blocked r (some (p, d)) = record_profile t mw c ri blocked r p d

  unfoldable pub record_query_info : Texts → Middleware → Call → RequestInfo → Run → Run
  unfolding for_device
  record_query_info t mw c ri r =
      let (id, text, blocked) = filtering_data r.fctx in
      for_device t mw c ri blocked (add_event (rule_counted id text) r) ri.device_data
