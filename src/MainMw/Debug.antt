-- ===== src/MainMw/Debug.antt =====
-- internal/dnssvc/internal/mainmw/debug.go: the response to a debug request.
pub mod Kept
use ad_guard_dns.Base.{
  ℕ, Bool, true, false, String, List, [], ◌∷◌, Option, some, none, if◌then◌else◌, ◌==◌, string_eq,
}
use Prim.Native.String.{◌++◌ as ◌+++◌}
use ad_guard_dns.Agd.{DeviceSets, Profile, Device}
use ad_guard_dns.Messages.{Msg, append_debug_extra, qtype_txt}
use ad_guard_dns.MainMw.{
  FilterResult, result_allowed, result_blocked, result_modified_request, result_modified_response,
  FilteringContext, Location, Texts, Middleware, RequestInfo, Call,
}
use ad_guard_dns.MainMw.Filtering.{matched_rule, with_class, class_chaos}

abbrev hdr_domain : String
hdr_domain = "adguard-dns.com."

-- `setQuestionName`: the name in the debug request
unfoldable pub question_name : String → String → String
question_name prefix suffix =
    if prefix == ""
    then suffix +++ "." +++ hdr_domain
    else prefix +++ "." +++ suffix +++ "." +++ hdr_domain

infixl 5 ◌>>=?◌
abbrev ◌>>=?◌ {ℓ κ} : {A : Type ℓ} {B : Type κ} → Option A → (A → Option B) → Option B
none >>=? f = none
some a >>=? f = f a

-- a text under a name; `debug_req` is the request with its type and class changed
append_extra : Middleware → Msg → String → String → String → Msg → Option Msg
append_extra mw debug_req prefix suffix text resp =
    append_debug_extra mw.messages
      (record debug_req {
        question = record (debug_req.question) { name = question_name prefix suffix };
      })
      resp text

-- a text that is left out where it is empty
append_not_empty : Middleware → Msg → String → String → Msg → Option Msg
unfolding append_extra
append_not_empty mw debug_req suffix text resp =
    if text == "" then some resp else append_extra mw debug_req "" suffix text resp

unfoldable pub append_debug_extra_from_location :
    Texts → Middleware → Msg → Location → Msg → Option Msg
unfolding append_extra append_not_empty
append_debug_extra_from_location t mw debug_req loc resp =
    append_extra mw debug_req "" "country" loc.country resp
    >>=? append_extra mw debug_req "" "asn" (t.format_uint loc.asn)
    >>=? append_not_empty mw debug_req "subdivision" loc.top_subdivision

unfoldable pub add_debug_extra_from_filtering :
    Middleware → Msg → String → String → String → String → Msg → Option Msg
unfolding append_extra
add_debug_extra_from_filtering mw debug_req apply_to state rule rule_id resp =
    append_extra mw debug_req apply_to "res-type" state resp
    >>=? append_extra mw debug_req apply_to "rule" rule
    >>=? append_extra mw debug_req apply_to "rule-list-id" rule_id

abbrev state_of : FilterResult → String
state_of (result_allowed l x) = "allowed"
state_of (result_blocked l x) = "blocked"
state_of (result_modified_request l x m) = "modified"
state_of (result_modified_response l x m) = "modified"

unfoldable pub debug_response : Middleware → Msg → String → Option FilterResult → Msg → Option Msg
unfolding append_extra
debug_response mw debug_req apply_to none resp =
    append_extra mw debug_req apply_to "res-type" "normal" resp
debug_response mw debug_req apply_to (some res) resp =
    add_debug_extra_from_filtering mw debug_req apply_to (state_of res) (matched_rule res).1
      (matched_rule res).0 resp

-- the request's result where there is one, and the response's otherwise
debug_result : Middleware → Msg → Option FilterResult → Option FilterResult → Msg → Option Msg
debug_result mw debug_req none resp_res resp = debug_response mw debug_req "resp" resp_res resp
debug_result mw debug_req (some res) resp_res resp =
    debug_response mw debug_req "req" (some res) resp

append_location : Texts → Middleware → Msg → Option Location → Msg → Option Msg
append_location t mw debug_req none resp = some resp
append_location t mw debug_req (some loc) resp =
    append_debug_extra_from_location t mw debug_req loc resp

abbrev debug_request : Msg → Msg
debug_request req = record req {
  question = record (req.question) { q_type = qtype_txt; q_class = class_chaos };
}

module _ ⦃S : DeviceSets⦄ where
  unfoldable pub append_debug_extra_from_device :
      Middleware → Msg → Option Device → Msg → Option Msg
  unfolding append_extra append_not_empty
  append_debug_extra_from_device mw debug_req none resp = some resp
  append_debug_extra_from_device mw debug_req (some d) resp =
      append_extra mw debug_req "" "device-id" d.id resp
      >>=? append_not_empty mw debug_req "human-id" d.human_id_lower

  abbrev device_of : Option (Profile × Device) → Option Device
  device_of none = none
  device_of (some (p, d)) = some d

  append_profile : Middleware → Msg → Option (Profile × Device) → Msg → Option Msg
  unfolding append_extra
  append_profile mw debug_req none resp = some resp
  append_profile mw debug_req (some (p, d)) resp =
      append_extra mw debug_req "" "profile-id" p.id resp

  unfoldable pub append_debug_extra_from_context :
      Texts → Middleware → RequestInfo → Msg → Msg → Option Msg
  unfolding append_profile append_location
  append_debug_extra_from_context t mw ri debug_req resp =
      append_debug_extra_from_device mw debug_req (device_of ri.device_data) resp
      >>=? append_profile mw debug_req ri.device_data
      >>=? append_location t mw debug_req ri.location

  -- The response that `writeDebugResponse` writes, or none for an error.
  unfoldable pub debug_message :
      Texts → Middleware → Call → RequestInfo → FilteringContext → Msg → Option Msg
  unfolding append_extra debug_result
  debug_message t mw c ri fctx resp =
      let req = debug_request fctx.original_request in
      append_extra mw req "" "client-ip" (t.addr_string c.remote_addr) (with_class class_chaos resp)
      >>=? append_extra mw req "" "server-ip" (t.addr_string c.local_addr)
      >>=? append_extra mw req "" "node-name" mw.node_name
      >>=? append_debug_extra_from_context t mw ri req
      >>=? debug_result mw req fctx.request_result fctx.response_result
