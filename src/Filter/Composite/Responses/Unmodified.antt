-- ===== src/Filter/Composite/Responses/Unmodified.antt =====
-- internal/filter/internal/composite/composite.go: a response is allowed or blocked, and never
-- rewritten.
use ad_guard_dns.Base.{
  ℕ, ◌≡◌, refl, Bool, true, false, String, List, [], ◌∷◌, Option, some, none, arith, Option-cases,
  inl, inr,
}
use ad_guard_dns.Filter.{
  Result, modified_request, modified_response, UfRequest, UfResult, Rules, Outcome, done, panicked,
  NetworkRule, type_a, type_aaaa, type_cname, type_https,
}
use ad_guard_dns.Filter.Collector.{
  Collector, to_internal, net_rule_data_to_result, hosts_rules_to_result,
}
use ad_guard_dns.Filter.Composite.{Filter, ◌>>=◌}
use ad_guard_dns.Filter.Composite.Responses.{
  Response, Answer, SvcbValue, hint, other_value, a_record, aaaa_record, cname_record, https_record,
  other_record, filter_resp_with_rule_lists, hint_loop, filter_https_answer, filter_answer,
  answer_loop, filter_response, or_rest, resp_custom_lists, after_custom_resp, resp_common,
  filter_svcb_hint,
}

-- No message takes the place of the response.
abbrev pub is_unmodified : Outcome (Option Result) → Bool
is_unmodified (done (some (modified_request l r n))) = false
is_unmodified (done (some (modified_response l r c xs))) = false
is_unmodified o = true

net_rule-is_unmodified :
    (c : Collector) (r : NetworkRule) → is_unmodified (net_rule_data_to_result c r) ≡ true
unfolding net_rule_data_to_result
net_rule-is_unmodified c r = ground arith

hosts-is_unmodified : (c : Collector) (rr : ℕ) → is_unmodified (hosts_rules_to_result c rr) ≡ true
unfolding hosts_rules_to_result
hosts-is_unmodified c rr = ground arith

module _ (e : Rules) where
  to_internal-is_unmodified : (c : Collector) (rr : ℕ) → is_unmodified (to_internal e c rr) ≡ true
  unfolding to_internal
  to_internal-is_unmodified c rr = elim (Option-cases (e.basic_rule c.network_rules)) [
    | inl n ↦ ground (arith, hosts-is_unmodified c rr)
    | inr (r, s) ↦ ground (arith, net_rule-is_unmodified c r)
  ]

  or_rest-is_unmodified :
      (o rest : Outcome (Option Result))
      → is_unmodified o ≡ true
      → is_unmodified rest ≡ true
      → is_unmodified (or_rest o rest) ≡ true
  or_rest-is_unmodified o rest h k = ground arith

  module _ (f : Filter) (resp : Response) where
    custom_lists-is_unmodified :
        (q : UfRequest) (rr : ℕ) (c : Collector) (o : Outcome (Option Result))
        → is_unmodified o ≡ true
        → is_unmodified (o >>= resp_custom_lists e f q rr c) ≡ true
    unfolding resp_custom_lists resp_common
    custom_lists-is_unmodified q rr c (done (some r)) h = h
    custom_lists-is_unmodified q rr c (done none) h = to_internal-is_unmodified _ rr
    custom_lists-is_unmodified q rr c panicked h = refl

    after_custom_resp-is_unmodified :
        (q : UfRequest) (rr : ℕ) (o : Option UfResult)
        → is_unmodified (after_custom_resp e f q rr o) ≡ true
    unfolding after_custom_resp
    after_custom_resp-is_unmodified q rr none =
        custom_lists-is_unmodified q rr _ _ (to_internal-is_unmodified _ rr)
    after_custom_resp-is_unmodified q rr (some res) = to_internal-is_unmodified _ rr

    rule_lists-is_unmodified :
        (host : String) (rr : ℕ)
        → is_unmodified (filter_resp_with_rule_lists e f resp host rr) ≡ true
    unfolding filter_resp_with_rule_lists
    rule_lists-is_unmodified host rr = after_custom_resp-is_unmodified _ rr _

    hint_loop-is_unmodified : (ss : List String) → is_unmodified (hint_loop e f resp ss) ≡ true
    unfolding hint_loop
    hint_loop-is_unmodified [] = refl
    hint_loop-is_unmodified (s ∷ ss) =
        or_rest-is_unmodified _ _ (rule_lists-is_unmodified s type_https)
          (hint_loop-is_unmodified ss)

    https-is_unmodified :
        (vs : List SvcbValue) → is_unmodified (filter_https_answer e f resp vs) ≡ true
    unfolding filter_https_answer filter_svcb_hint
    https-is_unmodified [] = refl
    https-is_unmodified (hint ss ∷ vs) =
        or_rest-is_unmodified _ _ (hint_loop-is_unmodified ss) (https-is_unmodified vs)
    https-is_unmodified (other_value ∷ vs) = https-is_unmodified vs

    answer-is_unmodified : (x : Answer) → is_unmodified (filter_answer e f resp x) ≡ true
    unfolding filter_answer
    answer-is_unmodified (https_record vs) = https-is_unmodified vs
    answer-is_unmodified (a_record ip) = rule_lists-is_unmodified ip type_a
    answer-is_unmodified (aaaa_record ip) = rule_lists-is_unmodified ip type_aaaa
    answer-is_unmodified (cname_record t) = rule_lists-is_unmodified t type_cname
    answer-is_unmodified other_record = refl

    answers-is_unmodified : (xs : List Answer) → is_unmodified (answer_loop e f resp xs) ≡ true
    unfolding answer_loop
    answers-is_unmodified [] = refl
    answers-is_unmodified (x ∷ xs) =
        or_rest-is_unmodified _ _ (answer-is_unmodified x) (answers-is_unmodified xs)

    -- The filtering of a response gives no rewritten message, whatever the rules are: it allows the
    -- response, blocks it, or gives no result.
    pub filter_response-is_unmodified : is_unmodified (filter_response e f resp) ≡ true
    unfolding filter_response
    filter_response-is_unmodified = answers-is_unmodified resp.answers
