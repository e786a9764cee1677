-- ===== src/MainMw/Record/Billed.antt =====
-- internal/dnssvc/internal/mainmw/record.go: how often a query is billed and logged.
use ad_guard_dns.Base.{
  ℕ, ◌+◌, ◌≡◌, refl, ◌∙◌, ap, Bool, true, false, String, List, [], ◌∷◌, ◌++◌, Option, some, none,
  if◌then◌else◌, arith,
}
use mathlib.Core.List.{append-nil}
use ad_guard_dns.Agd.{DeviceSets, Profile, Device}
use ad_guard_dns.MainMw.{
  Event, collected, rule_counted, billed, logged, Entry, Run, Texts, Middleware, RequestInfo, Call,
}
use ad_guard_dns.MainMw.Filtering.{add_event}
use ad_guard_dns.MainMw.Record.{
  record_query_info, for_device, record_profile, bill, new_entry, write_query_log_entry,
  write_entry, complete, loc_country, loc_asn, response_data, blocked_address, response_country,
}
use ad_guard_dns.MainMw.Record.Events.{
  response_data-Ok, blocked_address-Ok, response_country-Ok, log_result-Ok,
}

-- a query that is billed: the device, the country, the ASN, the start, and the protocol
pub record Bill : Type 0 where
  pub device : String
  pub country : String
  pub asn : ℕ
  pub start : ℕ
  pub proto : ℕ

abbrev pub bills : List Event → List Bill
bills [] = []
bills (billed id ctry asn start proto ∷ es) =
    record { device = id; country = ctry; asn = asn; start = start; proto = proto } ∷ bills es
bills (_ ∷ es) = bills es

abbrev pub entries : List Event → ℕ
entries [] = 0
entries (logged e ∷ es) = 1 + entries es
entries (_ ∷ es) = entries es

abbrev pub Tally : List Bill → ℕ → List Event → Type 0
Tally bs n es = (bills es ≡ bs) × (entries es ≡ n)

bills-append : (xs ys : List Event) → bills (xs ++ ys) ≡ bills xs ++ bills ys
bills-append [] ys = refl
bills-append (billed id ctry asn start proto ∷ xs) ys = rw (bills-append xs ys) refl
bills-append (_ ∷ xs) ys = bills-append xs ys

entries-append : (xs ys : List Event) → entries (xs ++ ys) ≡ entries xs + entries ys
entries-append [] ys = omega arith
entries-append (logged e ∷ xs) ys = omega (arith, entries-append xs ys)
entries-append (_ ∷ xs) ys = entries-append xs ys

-- an event that is neither a bill nor an entry
pub Tally-other :
    (bs : List Bill) (n : ℕ) (e : Event) (es : List Event)
    → bills (e ∷ []) ≡ []
    → entries (e ∷ []) ≡ 0
    → Tally bs n es
    → Tally bs n (es ++ e ∷ [])
Tally-other bs n e es b0 n0 h = (
  bills-append es (e ∷ []) ∙ ap (◌++◌ (bills es)) b0 ∙ append-nil (bills es) ∙ h.0,
  omega (arith, entries-append es (e ∷ []), n0, h.1),
)

Tally-logged :
    (bs : List Bill) (n : ℕ) (e : Entry) (es : List Event)
    → Tally bs n es
    → Tally bs (n + 1) (es ++ logged e ∷ [])
Tally-logged bs n e es h = (
  bills-append es (logged e ∷ []) ∙ append-nil (bills es) ∙ h.0,
  omega (arith, entries-append es (logged e ∷ []), h.1),
)

module _ ⦃S : DeviceSets⦄ (ri : RequestInfo) where
  abbrev pub bill_of : Device → Bill
  bill_of d = record {
    device = d.id;
    country = loc_country ri.location;
    asn = loc_asn ri.location;
    start = ri.start_time;
    proto = ri.protocol;
  }

  abbrev pub number : Bool → ℕ
  number b = if b then 1 else 0

  -- what is recorded of a query that has been answered
  abbrev pub due : Option (Profile × Device) → List Bill × ℕ
  due none = ([], 0)
  due (some (p, d)) = (bill_of d ∷ [], number p.query_log_enabled)

module _ ⦃S : DeviceSets⦄ (t : Texts) (mw : Middleware) (c : Call) (ri : RequestInfo) where
  module _ (bs : List Bill) where
    collected-ok :
        (n : ℕ) (label : String) (es : List Event)
        → Tally bs n es
        → Tally bs n (es ++ collected label ∷ [])
    collected-ok n label es h = Tally-other bs n (collected label) es refl refl h

    write_entry-Tally :
        (n : ℕ) (e : Entry) (r : Run)
        → Tally bs n r.events
        → Tally bs (n + 1) (write_entry mw e r).events
    unfolding write_entry
    write_entry-Tally n e r h =
        log_result-Ok t mw (Tally bs (n + 1)) (collected-ok (n + 1)) (mw.query_log_write e)
          (add_event (logged e) r) (Tally-logged bs n e r.events h)

    write_query_log_entry-Tally :
        (n : ℕ) (e : Entry) (b log_ip : Bool) (r : Run)
        → Tally bs n r.events
        → Tally bs (n + 1) (write_query_log_entry t mw ri e b log_ip r).events
    unfolding write_query_log_entry
    write_query_log_entry-Tally n e b log_ip r h =
        let x1 = response_data t r.fctx.filtered_response r in
        let x2 = blocked_address t b x1.0 x1.1 in
        let x3 = response_country t mw ri.host x2.0 x1.0.rcode x2.1 in
        write_entry-Tally n (complete ri log_ip e x1.0 x3.0) x3.1 (
          response_country-Ok t mw (Tally bs n) (collected-ok n) ri.host x2.0 x1.0.rcode x2.1 (
            blocked_address-Ok t mw (Tally bs n) (collected-ok n) b x1.0 x1.1
              (response_data-Ok t mw (Tally bs n) (collected-ok n) r.fctx.filtered_response r h)))

  bill-Tally :
      (d : Device) (r : Run)
      → Tally [] 0 r.events
      → Tally (bill_of ri d ∷ []) 0 (bill ri d r).events
  unfolding bill
  bill-Tally d r h = (
    bills-append r.events _ ∙ ap (λ bs. bs ++ bill_of ri d ∷ []) h.0,
    omega (
      arith,
      entries-append r.events (
          billed d.id (loc_country ri.location) (loc_asn ri.location) ri.start_time ri.protocol
          ∷ []),
      h.1,
    ),
  )

  record_profile-Tally :
      (b : Bool) (r : Run) (p : Profile) (d : Device)
      → Tally [] 0 r.events
      → Tally
          (bill_of ri d ∷ [])
          (number ri p.query_log_enabled)
          (record_profile t mw c ri b r p d).events
  unfolding record_profile
  record_profile-Tally b r p d h =
      elim p.query_log_enabled
        as (λ on.
          Tally (bill_of ri d ∷ []) (number ri on)
            (if on
              then write_query_log_entry t mw ri (new_entry c ri p d r.fctx) b p.ip_log_enabled
                  (bill ri d r)
              else bill ri d r).events) [
                | true ↦
                    write_query_log_entry-Tally (bill_of ri d ∷ []) 0 _ b p.ip_log_enabled _
                      (bill-Tally d r h)
                | false ↦ bill-Tally d r h
              ]

  for_device-Tally :
      (b : Bool) (r : Run) (o : Option (Profile × Device))
      → Tally [] 0 r.events
      → Tally (due ri o).0 (due ri o).1 (for_device t mw c ri b r o).events
  unfolding for_device
  for_device-Tally b r none h = h
  for_device-Tally b r (some (p, d)) h = record_profile-Tally b r p d h

  pub record_query_info-Tally :
      (r : Run)
      → Tally [] 0 r.events
      → Tally
          (due ri ri.device_data).0
          (due ri ri.device_data).1
          (record_query_info t mw c ri r).events
  unfolding record_query_info
  record_query_info-Tally r h =
      for_device-Tally _ _ ri.device_data (Tally-other [] 0 (rule_counted _ _) r.events refl refl h)
