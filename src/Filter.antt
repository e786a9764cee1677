-- ===== src/Filter.antt =====
-- internal/filter: the requests and results of the filters, and the rule engine that they call.
pub mod Rewrite
pub mod Collector
pub mod Composite
pub mod Samples
mod Examples
use ad_guard_dns.Base.{ℕ, ◌≡◌, Bool, true, String, List, Option, some, any, eqb}
use ad_guard_dns.Net.{Addr}

-- What is read of a message that a rewrite makes: the new question name, or the response code and
-- the values of the answers.
pub data Result : Type 0 where
  allowed blocked : String → String → Result
  modified_request : String → String → String → Result
  modified_response : String → String → ℕ → List ℕ → Result

pub record Request : Type 0 where
  pub remote_ip : Addr
  pub client_name : String
  pub host : String
  pub q_type : ℕ

-- The rules of the urlfilter module, with the address by which the collector tells them apart.
pub record NetworkRule : Type 0 where
  pub ptr : ℕ
  pub text : String
  pub whitelist : Bool

pub record HostRule : Type 0 where
  pub ptr : ℕ
  pub text : String

-- A rule with `$dnsrewrite`. The value is known by a number.
pub record RewriteRule : Type 0 where
  pub text : String
  pub new_cname : String
  pub rcode : ℕ
  pub rr_type : ℕ
  pub value : ℕ

-- `urlfilter.DNSRequest` and `urlfilter.DNSResult`
pub record UfRequest : Type 0 where
  pub answer : Bool
  pub client_ip : Addr
  pub client_ids : List String
  pub dns_type : ℕ
  pub hostname : String

pub record UfResult : Type 0 where
  pub network_rules : List NetworkRule
  pub host_rules4 : List HostRule
  pub host_rules6 : List HostRule
  pub dns_rewrites : List RewriteRule

-- `rules.GetDNSBasicRule` of urlfilter: which of the rules wins, if any does. It is one of them.
pub record Rules : Type 0 where
  pub basic_rule : List NetworkRule → Option NetworkRule
  pub basic_rule-any :
      (rs : List NetworkRule) (r : NetworkRule)
      → basic_rule rs ≡ some r
      → any (λ x. eqb x.ptr r.ptr) rs ≡ true

-- A result, or the panic for a rule that the collector does not know.
pub data Outcome {ℓ} (A : Type ℓ) : Type ℓ where
  done : A → Outcome A
  panicked : Outcome A

abbrev pub id_custom : String
id_custom = "custom"

abbrev pub id_blocked_service : String
id_blocked_service = "blocked_service"

abbrev pub type_a : ℕ
type_a = 1

abbrev pub type_cname : ℕ
type_cname = 5

abbrev pub type_aaaa : ℕ
type_aaaa = 28

abbrev pub type_https : ℕ
type_https = 65
