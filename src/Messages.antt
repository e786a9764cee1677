-- ===== src/Messages.antt =====
-- internal/dnsmsg/constructor.go and response.go: the messages that answer a request themselves.
pub mod Blocked
pub mod Answers
mod Examples
use ad_guard_dns.Base.{
  ℕ, ◌/◌, ◌%◌, ◌^◌, Bool, true, false, String, List, [], ◌∷◌, ◌++◌, Option, some, none, eqb,
  if◌then◌else◌, not, ◌&&◌, ◌||◌, ◌==◌, string_eq,
}
use ad_guard_dns.Net.{Addr, invalid, v4, v6}
use ad_guard_dns.Settings.{BlockingMode, custom_ip, nxdomain, null_ip, refused}

pub record Question : Type 0 where
  pub name : String
  pub q_type : ℕ
  pub q_class : ℕ

-- A value of an HTTPS record: hints of addresses, or another one.
pub data SvcbValue : Type 0 where
  ipv4_hint ipv6_hint : List Addr → SvcbValue
  other_value : SvcbValue

-- The resource records that the program makes or looks into, with the name and the TTL of the header.
-- The address of a record with no address is invalid, and a text is whole. An SVCB record has its
-- target, and a number for its priority and values.
pub data Rr : Type 0 where
  a_rr aaaa_rr : String → ℕ → Addr → Rr
  cname_rr : String → ℕ → String → Rr
  https_rr : String → ℕ → List SvcbValue → Rr
  txt_rr : String → ℕ → String → Rr
  svcb_rr : String → ℕ → String → ℕ → Rr
  soa_rr : String → ℕ → Rr
  other_rr : ℕ → Rr

-- an extended DNS error with its code and text, or another option
pub data EdnsOption : Type 0 where
  ede : ℕ → String → EdnsOption
  other_option : ℕ → EdnsOption

pub record Opt : Type 0 where
  pub udp_size : ℕ
  pub dnssec_ok : Bool
  pub options : List EdnsOption

-- `dns.Msg` with one question; its additional section is the records of `extra` and the OPT record
pub record Msg : Type 0 where
  pub id : ℕ
  pub question : Question
  pub rcode : ℕ
  pub authenticated_data : Bool
  pub answers : List Rr
  pub ns : List Rr
  pub extra : List Rr
  pub opt : Option Opt

pub record Constructor : Type 0 where
  pub blocking_mode : BlockingMode
  pub flt_resp_ttl : ℕ
  pub ede_enabled : Bool
  pub sde : String

abbrev pub rcode_success : ℕ
rcode_success = 0

abbrev pub rcode_name_error : ℕ
rcode_name_error = 3

abbrev pub rcode_refused : ℕ
rcode_refused = 5

abbrev pub qtype_a : ℕ
qtype_a = 1

abbrev pub qtype_aaaa : ℕ
qtype_aaaa = 28

abbrev pub qtype_txt : ℕ
qtype_txt = 16

abbrev pub extended_error_code_filtered : ℕ
extended_error_code_filtered = 17

-- the TTL of a header: `uint32(c.fltRespTTL.Seconds())` of nanoseconds
abbrev pub header_ttl : Constructor → ℕ
header_ttl c = c.flt_resp_ttl / 1_000_000_000 % 2 ^ 32

unfoldable pub new_resp : Msg → Msg
new_resp req = record {
  id = req.id;
  question = req.question;
  rcode = rcode_success;
  authenticated_data = false;
  answers = [];
  ns = [];
  extra = [];
  opt = none;
}

unfoldable pub find_ede : List EdnsOption → Option (ℕ × String)
find_ede [] = none
find_ede (ede code text ∷ os) = some (code, text)
find_ede (other_option n ∷ os) = find_ede os

sde_for : Constructor → Option (ℕ × String) → String
sde_for c none = ""
sde_for c (some (code, text)) = if eqb code 0 && text == "" then c.sde else ""

unfoldable pub sde_for_req_opt : Constructor → Opt → String
unfolding sde_for find_ede
sde_for_req_opt c o = sde_for c (find_ede o.options)

-- `resp.IsEdns0()`, or a new record with the size and the DO bit of the request's
response_opt : Opt → Option Opt → Opt
response_opt req_opt none = record {
  udp_size = req_opt.udp_size;
  dnssec_ok = req_opt.dnssec_ok;
  options = [];
}
response_opt req_opt (some o) = o

with_ede : Constructor → ℕ → Opt → Opt → Opt
with_ede c n req_opt o = elim (find_ede o.options) [
  | some e ↦ o
  | none ↦ record o { options = o.options ++ ede n (sde_for_req_opt c req_opt) ∷ [] }
]

add_ede_for : Constructor → Option Opt → ℕ → Msg → Msg
unfolding response_opt with_ede
add_ede_for c none n resp = resp
add_ede_for c (some req_opt) n resp = record resp {
  opt = some (with_ede c n req_opt (response_opt req_opt resp.opt));
}

unfoldable pub add_ede : Constructor → Msg → ℕ → Msg → Msg
unfolding add_ede_for
add_ede c req n resp = if c.ede_enabled then add_ede_for c req.opt n resp else resp

unfoldable pub new_soa_records : Constructor → Msg → List Rr
new_soa_records c req = soa_rr req.question.name (header_ttl c) ∷ []

unfoldable pub new_blocked_resp_rcode : Constructor → Msg → ℕ → Msg
unfolding new_resp
new_blocked_resp_rcode c req rc =
    add_ede c req extended_error_code_filtered (record (new_resp req) { rcode = rc })

-- none for an address of the wrong family
unfoldable pub new_answer_a : Constructor → String → Addr → Option Rr
new_answer_a c fqdn invalid = some (a_rr fqdn (header_ttl c) (v4 0))
new_answer_a c fqdn (v4 a) = some (a_rr fqdn (header_ttl c) (v4 a))
new_answer_a c fqdn (v6 a) = none

unfoldable pub new_answer_aaaa : Constructor → String → Addr → Option Rr
new_answer_aaaa c fqdn invalid = some (aaaa_rr fqdn (header_ttl c) (v6 0))
new_answer_aaaa c fqdn (v4 a) = none
new_answer_aaaa c fqdn (v6 a) = some (aaaa_rr fqdn (header_ttl c) (v6 a))

abbrev cons_answer : Option Rr → Option (List Rr) → Option (List Rr)
cons_answer none rest = none
cons_answer (some rr) none = none
cons_answer (some rr) (some rrs) = some (rr ∷ rrs)

-- the loop over the addresses, which stops at the first error
unfoldable pub make_answers : (Addr → Option Rr) → List Addr → Option (List Rr)
make_answers make [] = some []
make_answers make (ip ∷ ips) = cons_answer (make ip) (make_answers make ips)

with_answers : Msg → Option (List Rr) → Option Msg
with_answers req none = none
with_answers req (some rrs) = some (record (new_resp req) { answers = rrs })

unfoldable pub new_msg_a : Constructor → Msg → List Addr → Option Msg
unfolding with_answers new_resp
new_msg_a c req ips = with_answers req (make_answers (new_answer_a c req.question.name) ips)

unfoldable pub new_msg_aaaa : Constructor → Msg → List Addr → Option Msg
unfolding with_answers new_resp
new_msg_aaaa c req ips = with_answers req (make_answers (new_answer_aaaa c req.question.name) ips)

-- none for another type, or an address of the wrong family
unfoldable pub new_blocked_resp_ip : Constructor → Msg → List Addr → Option Msg
new_blocked_resp_ip c req ips =
    if eqb req.question.q_type qtype_a
    then new_msg_a c req ips
    else if eqb req.question.q_type qtype_aaaa
    then new_msg_aaaa c req ips
    else none

filtered : Constructor → Msg → Option Msg → Option Msg
filtered c req none = none
filtered c req (some m) = some (add_ede c req extended_error_code_filtered m)

unfoldable pub new_blocked_null_ip_resp : Constructor → Msg → Option Msg
unfolding filtered
new_blocked_null_ip_resp c req = filtered c req (
    if eqb req.question.q_type qtype_a
    then new_msg_a c req (invalid ∷ [])
    else if eqb req.question.q_type qtype_aaaa
    then new_msg_aaaa c req (invalid ∷ [])
    else none)

unfoldable pub new_resp_rcode : Constructor → Msg → ℕ → Msg
unfolding new_resp
new_resp_rcode c req rc = record (new_resp req) { rcode = rc; ns = new_soa_records c req }

-- a response with a code and the authority section
unfoldable pub nodata : Constructor → Msg → ℕ → Msg
nodata c req rc = record (new_blocked_resp_rcode c req rc) { ns = new_soa_records c req }

is_empty : List Addr → Bool
is_empty [] = true
is_empty (ip ∷ ips) = false

unfoldable pub new_blocked_custom_ip_resp : Constructor → Msg → List Addr → List Addr → Option Msg
unfolding is_empty
new_blocked_custom_ip_resp c req ipv4 ipv6 =
    if eqb req.question.q_type qtype_a && not (is_empty ipv4)
    then new_blocked_resp_ip c req ipv4
    else if eqb req.question.q_type qtype_aaaa && not (is_empty ipv6)
    then new_blocked_resp_ip c req ipv6
    else some (nodata c req rcode_success)

blocked_by : Constructor → Msg → BlockingMode → Option Msg
blocked_by c req (custom_ip ipv4 ipv6) = new_blocked_custom_ip_resp c req ipv4 ipv6
blocked_by c req null_ip =
    if eqb req.question.q_type qtype_a || eqb req.question.q_type qtype_aaaa
    then new_blocked_null_ip_resp c req
    else some (nodata c req rcode_success)
blocked_by c req nxdomain = some (nodata c req rcode_name_error)
blocked_by c req refused = some (nodata c req rcode_refused)

mode_or : BlockingMode → Option BlockingMode → BlockingMode
mode_or default none = default
mode_or default (some m) = m

-- none for an error
unfoldable pub new_blocked_resp : Constructor → Msg → Option BlockingMode → Option Msg
unfolding blocked_by mode_or
new_blocked_resp c req mode = blocked_by c req (mode_or c.blocking_mode mode)

-- none for a question of another type than TXT
unfoldable pub append_debug_extra : Constructor → Msg → Msg → String → Option Msg
append_debug_extra c req resp str =
    if eqb req.question.q_type qtype_txt
    then some
        (record resp { extra = resp.extra ++ txt_rr req.question.name (header_ttl c) str ∷ [] })
    else none

-- `target` is fully qualified
unfoldable pub new_answer_cname : Constructor → Msg → String → Rr
new_answer_cname c req target = cname_rr req.question.name (header_ttl c) target
