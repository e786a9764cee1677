-- ===== src/MainMw/Debug/Kept.antt =====
-- internal/dnssvc/internal/mainmw/debug.go: a debug response is made without an error.
use ad_guard_dns.Base.{
  ◌≡◌, refl, ap, ◌∙◌, true, false, String, Option, some, none, if◌then◌else◌, ◌==◌, string_eq,
}
use ad_guard_dns.Agd.{DeviceSets, Profile, Device}
use ad_guard_dns.Messages.{Msg, append_debug_extra, qtype_txt}
use ad_guard_dns.MainMw.{
  FilterResult, FilteringContext, Location, Texts, Middleware, RequestInfo, Call,
}
use ad_guard_dns.MainMw.Filtering.{with_class, class_chaos}
use ad_guard_dns.MainMw.Debug.{
  ◌>>=?◌, append_extra, append_not_empty, append_debug_extra_from_location,
  add_debug_extra_from_filtering, debug_response, debug_result, append_debug_extra_from_device,
  device_of, append_profile, append_location, append_debug_extra_from_context, debug_request,
  debug_message,
}

-- a message with the identifier and the question of another
abbrev pub Kept : Msg → Option Msg → Type 0
Kept m o = (n : Msg) × (o ≡ some n) × (n.id ≡ m.id) × (n.question ≡ m.question)

bind-Kept :
    (m : Msg) (o : Option Msg) (f : Msg → Option Msg)
    → Kept m o
    → ((n : Msg) → Kept n (f n))
    → Kept m (o >>=? f)
bind-Kept m o f h k = let x = k h.0 in (x.0, ap (λ o. o >>=? f) h.1 ∙ x.1, x.2 ∙ h.2, x.3 ∙ h.3)

module _ (mw : Middleware) (req : Msg) (is_txt : req.question.q_type ≡ qtype_txt) where
  append_extra-Kept :
      (prefix suffix text : String) (m : Msg) → Kept m (append_extra mw req prefix suffix text m)
  unfolding append_extra append_debug_extra
  append_extra-Kept prefix suffix text m = simp is_txt (_, refl, refl, refl)

  append_not_empty-Kept :
      (suffix text : String) (m : Msg) → Kept m (append_not_empty mw req suffix text m)
  unfolding append_not_empty
  append_not_empty-Kept suffix text m =
      elim (text == "")
        as (λ b. Kept m (if b then some m else append_extra mw req "" suffix text m)) [
          | true ↦ (m, refl, refl, refl)
          | false ↦ append_extra-Kept "" suffix text m
        ]

  append_location-Kept :
      (t : Texts) (l : Option Location) (m : Msg) → Kept m (append_location t mw req l m)
  unfolding append_location append_debug_extra_from_location
  append_location-Kept t none m = (m, refl, refl, refl)
  append_location-Kept t (some loc) m =
      bind-Kept m _ _
        (bind-Kept m _ _ (append_extra-Kept "" "country" loc.country m)
          (append_extra-Kept "" "asn" (t.format_uint loc.asn)))
        (append_not_empty-Kept "subdivision" loc.top_subdivision)

  debug_response-Kept :
      (apply_to : String) (res : Option FilterResult) (m : Msg)
      → Kept m (debug_response mw req apply_to res m)
  unfolding debug_response add_debug_extra_from_filtering
  debug_response-Kept apply_to none m = append_extra-Kept apply_to "res-type" "normal" m
  debug_response-Kept apply_to (some res) m =
      bind-Kept m _ _
        (bind-Kept m _ _ (append_extra-Kept apply_to "res-type" _ m)
          (append_extra-Kept apply_to "rule" _))
        (append_extra-Kept apply_to "rule-list-id" _)

  debug_result-Kept :
      (req_res resp_res : Option FilterResult) (m : Msg)
      → Kept m (debug_result mw req req_res resp_res m)
  unfolding debug_result
  debug_result-Kept none resp_res m = debug_response-Kept "resp" resp_res m
  debug_result-Kept (some res) resp_res m = debug_response-Kept "req" (some res) m

  module _ ⦃S : DeviceSets⦄ where
    device-Kept : (d : Option Device) (m : Msg) → Kept m (append_debug_extra_from_device mw req d m)
    unfolding append_debug_extra_from_device
    device-Kept none m = (m, refl, refl, refl)
    device-Kept (some d) m =
        bind-Kept m _ _ (append_extra-Kept "" "device-id" d.id m)
          (append_not_empty-Kept "human-id" d.human_id_lower)

    profile-Kept : (o : Option (Profile × Device)) (m : Msg) → Kept m (append_profile mw req o m)
    unfolding append_profile
    profile-Kept none m = (m, refl, refl, refl)
    profile-Kept (some (p, d)) m = append_extra-Kept "" "profile-id" p.id m

    context-Kept :
        (t : Texts) (ri : RequestInfo) (m : Msg)
        → Kept m (append_debug_extra_from_context t mw ri req m)
    unfolding append_debug_extra_from_context
    context-Kept t ri m =
        bind-Kept m _ _
          (bind-Kept m _ _ (device-Kept (device_of ri.device_data) m) (profile-Kept ri.device_data))
          (append_location-Kept t ri.location)

module _ ⦃S : DeviceSets⦄ (t : Texts) (mw : Middleware) (c : Call) (ri : RequestInfo) where
  -- the response has the identifier and the question of the filtered one, with the class changed back
  pub debug_message-Kept :
      (fctx : FilteringContext) (m : Msg)
      → Kept (with_class class_chaos m) (debug_message t mw c ri fctx m)
  unfolding debug_message
  debug_message-Kept fctx m =
      let req = debug_request fctx.original_request in
      let m0 = with_class class_chaos m in
      bind-Kept m0 _ _
        (bind-Kept m0 _ _
          (bind-Kept m0 _ _
            (bind-Kept m0 _ _
              (append_extra-Kept mw req refl "" "client-ip" (t.addr_string c.remote_addr) m0)
              (append_extra-Kept mw req refl "" "server-ip" (t.addr_string c.local_addr)))
            (append_extra-Kept mw req refl "" "node-name" mw.node_name))
          (context-Kept mw req refl t ri))
        (debug_result-Kept mw req refl fctx.request_result fctx.response_result)
