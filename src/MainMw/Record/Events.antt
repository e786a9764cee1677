-- ===== src/MainMw/Record/Events.antt =====
-- internal/dnssvc/internal/mainmw/record.go: what the reading of a response does.
use ad_guard_dns.Base.{
  ℕ, Bool, true, false, ◌||◌, not, String, List, ◌∷◌, [], ◌++◌, Option, some, none, eqb,
  if◌then◌else◌, ◌==◌,
}
use ad_guard_dns.Net.{Addr, invalid, addr_eq}
use ad_guard_dns.Agd.{DeviceSets, Profile, Device}
use ad_guard_dns.Messages.{Msg, rcode_success}
use ad_guard_dns.MainMw.{
  Event, measured, write, rule_counted, billed, logged, Entry, RequestInfo, Call, collected,
  QueryLogResult, written, timed_out, failed, Run, Texts, Middleware,
}
use ad_guard_dns.MainMw.Filtering.{add_event}
use ad_guard_dns.MainMw.Filtering.Events.{collect_error-all}
use ad_guard_dns.MainMw.Record.{
  response_data, with_address, blocked_address, ResponseData, response_country, country, log_result,
  ip_from_answer, modified_host, write_query_log_entry, write_entry, complete, record_profile, bill,
  new_entry, loc_country, loc_asn, for_device, record_query_info, is_unspecified,
  country_not_applicable,
}

-- the events of recording, other than errors
abbrev pub IsRecord : Event → Type 0
IsRecord (write q m) = ⊥
IsRecord (measured m) = ⊥
IsRecord _ = Unit

module _ (t : Texts) (mw : Middleware) (K : List Event → Type 0)
    (collected-ok : (label : String) (es : List Event)
      → K es
      → K (es ++ collected label ∷ [])) where
  abbrev Ok : Run → Type 0
  Ok r = K r.events

  with_address-Ok : (m : Msg) (ip : Option Addr) (r : Run) → Ok r → Ok ((with_address m ip r).1)
  unfolding with_address
  with_address-Ok m none r h = collected-ok "getting response data" r.events h
  with_address-Ok m (some ip) r h = h

  pub response_data-Ok : (m : Option Msg) (r : Run) → Ok r → Ok ((response_data t m r).1)
  unfolding response_data
  response_data-Ok none r h = h
  response_data-Ok (some m) r h = with_address-Ok m (ip_from_answer t m.answers) r h

  pub blocked_address-Ok :
      (b : Bool) (d : ResponseData) (r : Run) → Ok r → Ok ((blocked_address t b d r).1)
  unfolding blocked_address
  blocked_address-Ok true d r h = response_data-Ok r.fctx.original_response r h
  blocked_address-Ok false d r h = h

  pub response_country-Ok :
      (host : String) (ip : Addr) (rc : ℕ) (r : Run)
      → Ok r
      → Ok ((response_country t mw host ip rc r).1)
  unfolding response_country country
  response_country-Ok host ip rc r h =
      elim (not (eqb rc rcode_success) || ip == invalid || is_unspecified ip)
        as (λ b. Ok (
          (if b
            then (country_not_applicable, r)
            else country mw (modified_host t host r.fctx.modified_request) ip r).1)) [
              | true ↦ h
              | false ↦ collect_error-all K collected-ok "getting geoip data" _ r h
            ]

  pub log_result-Ok : (res : QueryLogResult) (r : Run) → Ok r → Ok (log_result res r)
  unfolding log_result
  log_result-Ok written r h = h
  log_result-Ok (timed_out err) r h = h
  log_result-Ok (failed err) r h = collected-ok "writing query log" r.events h

  module _ (others-ok : (e : Event) (es : List Event) → IsRecord e → K es → K (es ++ e ∷ []))
      ⦃S : DeviceSets⦄ (ri : RequestInfo) (c : Call) where
    write_query_log_entry-Ok :
        (e : Entry) (b log_ip : Bool) (r : Run)
        → Ok r
        → Ok (write_query_log_entry t mw ri e b log_ip r)
    unfolding write_query_log_entry write_entry
    write_query_log_entry-Ok e b log_ip r h =
        let x1 = response_data t r.fctx.filtered_response r in
        let x2 = blocked_address t b x1.0 x1.1 in
        let x3 = response_country t mw ri.host x2.0 x1.0.rcode x2.1 in
        let e' = complete ri log_ip e x1.0 x3.0 in
        log_result-Ok (mw.query_log_write e') (add_event (logged e') x3.1) (
          others-ok (logged e') x3.1.events tt (
            response_country-Ok ri.host x2.0 x1.0.rcode x2.1
              (blocked_address-Ok b x1.0 x1.1 (response_data-Ok r.fctx.filtered_response r h))))

    record_profile-Ok :
        (b : Bool) (r : Run) (p : Profile) (d : Device)
        → Ok r
        → Ok (record_profile t mw c ri b r p d)
    unfolding record_profile bill
    record_profile-Ok b r p d h =
        let k =
          others-ok
            (billed d.id (loc_country ri.location) (loc_asn ri.location) ri.start_time ri.protocol)
            r.events tt h in
        elim p.query_log_enabled
          as (λ on. Ok (
            if on
            then write_query_log_entry t mw ri (new_entry c ri p d r.fctx) b p.ip_log_enabled
                (bill ri d r)
            else bill ri d r)) [
              | true ↦
                  write_query_log_entry-Ok (new_entry c ri p d r.fctx) b p.ip_log_enabled
                    (bill ri d r) k
              | false ↦ k
            ]

    for_device-Ok :
        (b : Bool) (r : Run) (o : Option (Profile × Device))
        → Ok r
        → Ok (for_device t mw c ri b r o)
    unfolding for_device
    for_device-Ok b r none h = h
    for_device-Ok b r (some (p, d)) h = record_profile-Ok b r p d h

    pub record_query_info-Ok : (r : Run) → Ok r → Ok (record_query_info t mw c ri r)
    unfolding record_query_info
    record_query_info-Ok r h =
        for_device-Ok _ _ ri.device_data (others-ok (rule_counted _ _) r.events tt h)
