-- ===== src/MainMw.antt =====
-- internal/dnssvc/internal/mainmw: the main middleware, which filters, answers and records a query. Here
-- is what it holds and what it calls.
pub mod Outcomes
pub mod Composite
pub mod Filtering
pub mod Record
pub mod Debug
pub mod Handler
use ad_guard_dns.Base.{ℕ, Bool, String, List, [], Option, none}
use ad_guard_dns.Net.{Addr, invalid}
use ad_guard_dns.Settings.{FilterConfig}
use ad_guard_dns.Agd.{DeviceSets, Profile, Device}
use ad_guard_dns.Messages.{Msg, Constructor}
use ad_guard_dns.Filter.{Outcome}

-- `filter.Result`, with the list and the rule that matched
pub data FilterResult : Type 0 where
  result_allowed result_blocked : String → String → FilterResult
  result_modified_request result_modified_response : String → String → Msg → FilterResult

-- `filter.Request` and `filter.Response`
pub record FilterRequest : Type 0 where
  pub dns : Msg
  pub messages : Constructor
  pub remote_ip : Addr
  pub client_name : String
  pub host : String
  pub q_type : ℕ
  pub q_class : ℕ

pub record FilterResponse : Type 0 where
  pub dns : Option Msg
  pub remote_ip : Addr
  pub client_name : String

-- `filter.Interface`: a result, if there is one, and an error, if there is one
pub record FilterInterface : Type 0 where
  pub filter_request : FilterRequest → Outcome (Option FilterResult × Option String)
  pub filter_response : FilterResponse → Outcome (Option FilterResult × Option String)

-- `geoip.Location`
pub record Location : Type 0 where
  pub country : String
  pub continent : String
  pub top_subdivision : String
  pub asn : ℕ

-- The context of filtering one query. A nil message or result is none.
pub record FilteringContext : Type 0 where
  pub original_request : Msg
  pub modified_request : Option Msg
  pub original_response : Option Msg
  pub filtered_response : Option Msg
  pub request_result : Option FilterResult
  pub response_result : Option FilterResult
  pub elapsed : ℕ
  pub is_debug : Bool

pub record RequestMetrics : Type 0 where
  pub remote_ip : Addr
  pub continent : String
  pub country : String
  pub filter_list_id : String
  pub filtering_duration : ℕ
  pub asn : ℕ
  pub is_anonymous : Bool
  pub is_blocked : Bool

-- `querylog.Entry`
pub record Entry : Type 0 where
  pub remote_ip : Addr
  pub request_result : Option FilterResult
  pub response_result : Option FilterResult
  pub time : ℕ
  pub profile_id : String
  pub device_id : String
  pub client_country : String
  pub response_country : String
  pub domain_fqdn : String
  pub elapsed : ℕ
  pub client_asn : ℕ
  pub request_type : ℕ
  pub response_code : ℕ
  pub account_id : ℕ
  pub protocol : ℕ
  pub dnssec : Bool
  pub stream : Bool

-- What `querylog.Interface` answers to `Write`.
pub data QueryLogResult : Type 0 where
  written : QueryLogResult
  timed_out failed : String → QueryLogResult

-- What the middleware does to the rest of the program, in order: errors that are collected, a message
-- that is written to the client for a request, and the calls of the statistics and the query log.
pub data Event : Type 0 where
  collected : String → Event
  measured : RequestMetrics → Event
  write : Msg → Option Msg → Event
  rule_counted : String → String → Event
  billed : String → String → ℕ → ℕ → ℕ → Event
  logged : Entry → Event

-- A query in work: its context and the events so far.
pub record Run : Type 0 where
  pub fctx : FilteringContext
  pub events : List Event

-- The library functions that the middleware calls: `netutil.IPToAddr` of golibs for each family, and
-- those of Go's strings, strconv and netip that are not written out.
pub record Texts : Type 0 where
  pub ip_to_addr4 : Addr → Option Addr
  pub ip_to_addr6 : Addr → Option Addr
  pub to_lower : String → String
  pub format_uint : ℕ → String
  pub addr_string : Addr → String

-- The interfaces that the middleware holds, as they answer.
pub record Middleware : Type 0 where
  pub messages : Constructor
  pub for_config : Option FilterConfig → FilterInterface
  pub geo_ip_data : String → Addr → Option Location × Option String
  pub query_log_write : Entry → QueryLogResult
  pub node_name : String

-- What `next.ServeDNS` does: an error, or a message, if it writes one.
pub data Served : Type 0 where
  serve_error : String → Served
  served : Option Msg → Served

module _ ⦃S : DeviceSets⦄ where
  -- `agd.RequestInfo`, with `DeviceData` as a field, and the start of the request
  pub record RequestInfo : Type 0 where
    pub device_data : Option (Profile × Device)
    pub location : Option Location
    pub filtering_group : FilterConfig
    pub messages : Constructor
    pub protocol : ℕ
    pub remote_ip : Addr
    pub host : String
    pub q_type : ℕ
    pub q_class : ℕ
    pub start_time : ℕ

  -- What surrounds one query: the next handler, the response writer, the context's error after the
  -- request is filtered, and how long the parts take.
  pub record Call : Type 0 where
    pub next : RequestInfo → Msg → Served
    pub write_msg : Msg → Option Msg → Option String
    pub context_error : Option String
    pub request_time : ℕ
    pub response_time : ℕ
    pub total_time : ℕ
    pub remote_addr : Addr
    pub local_addr : Addr
