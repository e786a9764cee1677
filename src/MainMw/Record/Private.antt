-- ===== src/MainMw/Record/Private.antt =====
-- internal/dnssvc/internal/mainmw/record.go: what of a query is billed and logged.
use ad_guard_dns.Base.{
  ◌≡◌, ◌≢◌, refl, Bool, true, false, String, List, [], ◌∷◌, ◌++◌, Option, some, none, All,
  if◌then◌else◌, Bool-cases, inl, inr, ◌⊎◌,
}
use ad_guard_dns.Net.{invalid}
use ad_guard_dns.Agd.{DeviceSets, Profile, Device}
use ad_guard_dns.MainMw.{
  Entry, Event, collected, rule_counted, billed, logged, Run, Texts, Middleware, RequestInfo, Call,
}
use ad_guard_dns.MainMw.Outcomes.{All-snoc}
use ad_guard_dns.MainMw.Filtering.{add_event}
use ad_guard_dns.MainMw.Record.{
  record_query_info, for_device, record_profile, bill, new_entry, write_query_log_entry,
  write_entry, complete, response_data, blocked_address, response_country,
}
use ad_guard_dns.MainMw.Record.Events.{
  response_data-Ok, blocked_address-Ok, response_country-Ok, log_result-Ok,
}

module _ ⦃S : DeviceSets⦄ (ri : RequestInfo) where
  -- What an event may tell: a bill is for the device of the query; an entry of the log is for its profile
  -- and device, and only where the profile has the log on, with an address only where it logs addresses.
  abbrev pub IsPrivate : Event → Type 0
  IsPrivate (billed id ctry asn start proto) =
      (p : Profile) × (d : Device) × (ri.device_data ≡ some (p, d)) × (id ≡ d.id)
  IsPrivate (logged e) =
      (p : Profile) × (d : Device) × (ri.device_data ≡ some (p, d))
      × (p.query_log_enabled ≡ true)
      × (e.profile_id ≡ p.id)
      × (e.device_id ≡ d.id)
      × (e.remote_ip ≢ invalid → p.ip_log_enabled ≡ true)
  IsPrivate _ = Unit

  abbrev Private : Run → Type 0
  Private r = All IsPrivate r.events

module _ ⦃S : DeviceSets⦄ (t : Texts) (mw : Middleware) (c : Call) (ri : RequestInfo) where
  collected-ok :
      (label : String) (es : List Event)
      → All (IsPrivate ri) es
      → All (IsPrivate ri) (es ++ collected label ∷ [])
  collected-ok label es h = All-snoc (IsPrivate ri) es (collected label) h tt

  add_event-Private :
      (e : Event) (r : Run) → IsPrivate ri e → Private ri r → Private ri (add_event e r)
  add_event-Private e r p h = All-snoc (IsPrivate ri) r.events e h p

  module _ (p : Profile) (d : Device) (is_device : ri.device_data ≡ some (p, d)) where
    only_if : (b : Bool) → (if b then ri.remote_ip else invalid) ≢ invalid → b ≡ true
    only_if true h = refl
    only_if false h = elim (h refl) [ ]

    entry-IsPrivate :
        (e : Entry)
        → p.query_log_enabled ≡ true
        → e.profile_id ≡ p.id
        → e.device_id ≡ d.id
        → (e.remote_ip ≢ invalid → p.ip_log_enabled ≡ true)
        → IsPrivate ri (logged e)
    entry-IsPrivate e on i j k = (p, d, is_device, on, i, j, k)

    write_entry-Private :
        (e : Entry) (r : Run)
        → IsPrivate ri (logged e)
        → Private ri r
        → Private ri (write_entry mw e r)
    unfolding write_entry
    write_entry-Private e r i h =
        log_result-Ok t mw (All (IsPrivate ri)) collected-ok (mw.query_log_write e)
          (add_event (logged e) r) (add_event-Private (logged e) r i h)

    write_query_log_entry-Private :
        (b : Bool) (r : Run)
        → p.query_log_enabled ≡ true
        → Private ri r
        → Private ri
            (write_query_log_entry t mw ri (new_entry c ri p d r.fctx) b p.ip_log_enabled r)
    unfolding write_query_log_entry new_entry complete
    write_query_log_entry-Private b r on h =
        let x1 = response_data t r.fctx.filtered_response r in
        let x2 = blocked_address t b x1.0 x1.1 in
        let x3 = response_country t mw ri.host x2.0 x1.0.rcode x2.1 in
        let e = complete ri p.ip_log_enabled (new_entry c ri p d r.fctx) x1.0 x3.0 in
        write_entry-Private e x3.1 (entry-IsPrivate e on refl refl (only_if p.ip_log_enabled)) (
          response_country-Ok t mw (All (IsPrivate ri)) collected-ok ri.host x2.0 x1.0.rcode x2.1 (
            blocked_address-Ok t mw (All (IsPrivate ri)) collected-ok b x1.0 x1.1 (
              response_data-Ok t mw (All (IsPrivate ri)) collected-ok r.fctx.filtered_response r
                h)))

    bill-Private : (r : Run) → Private ri r → Private ri (bill ri d r)
    unfolding bill
    bill-Private r h = add_event-Private _ r (p, d, is_device, refl) h

    record_profile-Private :
        (b : Bool) (r : Run) → Private ri r → Private ri (record_profile t mw c ri b r p d)
    unfolding record_profile bill
    record_profile-Private b r h = on_or_off (Bool-cases p.query_log_enabled)
      where
        on_or_off :
            (p.query_log_enabled ≡ true) ⊎ (p.query_log_enabled ≡ false)
            → Private ri (record_profile t mw c ri b r p d)
        on_or_off (inl on) =
            rw on (write_query_log_entry-Private b (bill ri d r) on (bill-Private r h))
        on_or_off (inr off) = rw off (bill-Private r h)

  for_device-Private :
      (b : Bool) (r : Run) (o : Option (Profile × Device))
      → ri.device_data ≡ o
      → Private ri r
      → Private ri (for_device t mw c ri b r o)
  unfolding for_device
  for_device-Private b r none e h = h
  for_device-Private b r (some (p, d)) e h = record_profile-Private p d e b r h

  pub record_query_info-Private :
      (r : Run) → Private ri r → Private ri (record_query_info t mw c ri r)
  unfolding record_query_info
  record_query_info-Private r h =
      for_device-Private _ _ ri.device_data refl (add_event-Private (rule_counted _ _) r tt h)
