-- ===== src/MainMw/Composite.antt =====
-- internal/filter and internal/dnssvc/internal/mainmw: the composite filter as the middleware's filter.
use ad_guard_dns.Base.{ℕ, ◌≡◌, ◌≢◌, refl, true, String, List, Option, some, none, arith}
use ad_guard_dns.Messages.{Msg, Rr}
use ad_guard_dns.Filter.{
  Result, allowed, blocked, modified_request, modified_response, Request, Rules, Outcome, done,
  panicked,
}
use ad_guard_dns.Filter.Rewrite.{Answers}
use ad_guard_dns.Filter.Composite.{Filter, Filtered, result, failed, filter_request, ◌>>=◌}
use ad_guard_dns.Filter.Composite.Safe.{IsWellNamed, filter_request-done}
use ad_guard_dns.Filter.Composite.Responses.{Answer, Response, filter_response}
use ad_guard_dns.Filter.Composite.Responses.Safe.{filter_response-done}
use ad_guard_dns.Filter.Composite.Responses.Unmodified.{
  is_unmodified, filter_response-is_unmodified,
}
use ad_guard_dns.MainMw.Outcomes.{DoneWith}
use ad_guard_dns.MainMw.{
  FilterResult, result_allowed, result_blocked, result_modified_request, result_modified_response,
  FilterRequest, FilterResponse, FilterInterface,
}

-- How the messages of the one are those of the other: the answers that are read of a message, and the
-- response with a code and values that is made to a request.
pub record View : Type 0 where
  pub answers_of : List Rr → List Answer
  pub response_of : ℕ → List ℕ → Msg → Msg

module _ (v : View) where
  abbrev pub convert : Msg → Result → FilterResult
  convert req (allowed l x) = result_allowed l x
  convert req (blocked l x) = result_blocked l x
  convert req (modified_request l x name) =
      result_modified_request l x (record req { question = record (req.question) { name = name } })
  convert req (modified_response l x rc values) =
      result_modified_response l x (v.response_of rc values req)

  abbrev pub convert_option : Msg → Option Result → Option FilterResult
  convert_option req none = none
  convert_option req (some r) = some (convert req r)

  abbrev pub convert_filtered : Msg → Filtered → Option FilterResult × Option String
  convert_filtered req (result o) = (convert_option req o, none)
  convert_filtered req (failed msg) = (none, some msg)

  module _ (e : Rules) (a : Answers) (f : Filter) where
    abbrev request_of : FilterRequest → Request
    request_of x = record {
      remote_ip = x.remote_ip;
      client_name = x.client_name;
      host = x.host;
      q_type = x.q_type;
    }

    abbrev response_of_msg : FilterResponse → Msg → Response
    response_of_msg x m = record {
      remote_ip = x.remote_ip;
      client_name = x.client_name;
      answers = v.answers_of m.answers;
    }

    -- a nil message is dereferenced
    abbrev filtered_msg :
        FilterResponse → Option Msg → Outcome (Option FilterResult × Option String)
    filtered_msg x none = panicked
    filtered_msg x (some m) =
        filter_response e f (response_of_msg x m) >>= λ r. done (convert_option m r, none)

    abbrev pub composite : FilterInterface
    composite = record {
      filter_request =
          λ x. filter_request e a f (request_of x) >>= λ r. done (convert_filtered x.dns r);
      filter_response = λ x. filtered_msg x x.dns;
    }

-- a filter that gives a result or an error for each request, and for each message no rewrite
abbrev pub IsUnmodified : Option FilterResult → Type 0
IsUnmodified (some (result_modified_request l x m)) = ⊥
IsUnmodified (some (result_modified_response l x m)) = ⊥
IsUnmodified _ = Unit

pub record IsSound (fi : FilterInterface) : Type 0 where
  pub request-done : (x : FilterRequest) → fi.filter_request x ≢ panicked
  pub response-done :
      (x : FilterResponse) (m : Msg)
      → x.dns ≡ some m
      → DoneWith
          (λ (r : Option FilterResult × Option String). IsUnmodified r.0)
          (fi.filter_response x)

module _ (v : View) (e : Rules) (a : Answers) (f : Filter) (named : IsWellNamed f) where
  convert-IsUnmodified :
      (m : Msg) (o : Outcome (Option Result))
      → o ≢ panicked
      → is_unmodified o ≡ true
      → DoneWith
          (λ (r : Option FilterResult × Option String). IsUnmodified r.0)
          (o >>= λ r. done (convert_option v m r, none))
  convert-IsUnmodified m panicked n h = absurd (n refl)
  convert-IsUnmodified m (done none) n h = tt
  convert-IsUnmodified m (done (some (allowed l x))) n h = tt
  convert-IsUnmodified m (done (some (blocked l x))) n h = tt
  convert-IsUnmodified m (done (some (modified_request l x name))) n h = ground arith
  convert-IsUnmodified m (done (some (modified_response l x rc values))) n h = ground arith

  bind_done-ne :
      (req : Msg) (o : Outcome Filtered)
      → o ≢ panicked
      → (o >>= λ r. done (convert_filtered v req r)) ≢ panicked
  bind_done-ne req (done r) n = λ p. cc
  bind_done-ne req panicked n = absurd (n refl)

  pub composite-IsSound : IsSound (composite v e a f)
  composite-IsSound = record {
    request-done =
        λ x. bind_done-ne x.dns _ (filter_request-done e a f named (request_of v e a f x));
    response-done = λ x m h. simp h (
        convert-IsUnmodified m _ (filter_response-done e f named (response_of_msg v e a f x m))
          (filter_response-is_unmodified e f (response_of_msg v e a f x m)));
  }
