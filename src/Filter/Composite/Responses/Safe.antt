-- ===== src/Filter/Composite/Responses/Safe.antt =====
-- internal/filter/internal/composite: the filtering of a response does not panic.
use ad_guard_dns.Base.{
  ℕ, ◌≢◌, refl, String, List, [], ◌∷◌, Option, some, none, All, Option-cases, inl, inr, arith,
  ==_iff, string_eq,
}
use ad_guard_dns.Filter.{
  Result, UfRequest, UfResult, Rules, Outcome, done, panicked, id_custom, id_blocked_service,
  type_https, type_a, type_aaaa, type_cname,
}
use ad_guard_dns.Filter.Collector.{Collector, new_collector}
use ad_guard_dns.Filter.Collector.Known.{Known, new_collector-Known, add-Known, to_internal-done}
use ad_guard_dns.Filter.Composite.{Filter, RuleList, clear_client_ids, ◌>>=◌}
use ad_guard_dns.Filter.Composite.Safe.{IsWellNamed, service_loop-Known}
use ad_guard_dns.Filter.Composite.Responses.{
  Answer, a_record, aaaa_record, cname_record, https_record, other_record, SvcbValue, hint,
  other_value, Response, resp_loop, resp_common, resp_custom_lists, after_custom_resp,
  filter_resp_with_rule_lists, or_rest, hint_loop, filter_svcb_hint, filter_https_answer,
  filter_answer, answer_loop, filter_response,
}

resp_loop-Known :
    (q : UfRequest) (ls : List RuleList) (c : Collector)
    → All (λ rl. rl.id ≢ id_blocked_service) ls
    → Known c
    → Known (resp_loop q ls c)
unfolding resp_loop
resp_loop-Known q [] c h k = k
resp_loop-Known q (rl ∷ rls) c h k = elim (Option-cases (rl.set_url_filter_result q)) [
  | inl n ↦ rw (n, resp_loop) (resp_loop-Known q rls c h.1 k)
  | inr (res, s) ↦
      rw (s, resp_loop)
        (resp_loop-Known q rls _ h.1 (add-Known rl.id "" (λ e. absurd (h.0 e)) res k))
]

custom_ne : id_custom ≢ id_blocked_service
custom_ne = ground (arith, ==_iff id_custom id_blocked_service)

or_rest-done :
    (o rest : Outcome (Option Result)) → o ≢ panicked → rest ≢ panicked → or_rest o rest ≢ panicked
or_rest-done panicked rest h k = absurd (h refl)
or_rest-done (done (some r)) rest h k = λ p. cc
or_rest-done (done none) rest h k = k

module _ (e : Rules) (f : Filter) (named : IsWellNamed f) (resp : Response) where
  resp_common-done :
      (q : UfRequest) (rr : ℕ) (c : Collector) → Known c → resp_common e f q rr c ≢ panicked
  unfolding resp_common
  resp_common-done q rr c k = to_internal-done e _ rr (
      service_loop-Known q f.svc_lists _ named.services
        (resp_loop-Known q f.rule_lists c named.common k))

  custom_lists-done :
      (q : UfRequest) (rr : ℕ) (c : Collector) (o : Outcome (Option Result))
      → Known c
      → o ≢ panicked
      → (o >>= resp_custom_lists e f q rr c) ≢ panicked
  unfolding resp_custom_lists
  custom_lists-done q rr c (done (some r)) k h = λ p. cc
  custom_lists-done q rr c (done none) k h = resp_common-done (clear_client_ids q) rr c k
  custom_lists-done q rr c panicked k h = absurd (h refl)

  after_custom_resp-done :
      (q : UfRequest) (rr : ℕ) (o : Option UfResult) → after_custom_resp e f q rr o ≢ panicked
  unfolding after_custom_resp
  after_custom_resp-done q rr none =
      let k =
        resp_loop-Known q f.custom_rule_lists new_collector named.custom_lists
          new_collector-Known in
      custom_lists-done q rr _ _ k (to_internal-done e _ rr k)
  after_custom_resp-done q rr (some res) =
      to_internal-done e _ rr
        (add-Known id_custom "" (λ p. absurd (custom_ne p)) res new_collector-Known)

  rule_lists-done :
      (host : String) (rr : ℕ) → filter_resp_with_rule_lists e f resp host rr ≢ panicked
  unfolding filter_resp_with_rule_lists
  rule_lists-done host rr = after_custom_resp-done _ rr _

  hint_loop-done : (ss : List String) → hint_loop e f resp ss ≢ panicked
  unfolding hint_loop
  hint_loop-done [] = λ p. cc
  hint_loop-done (s ∷ ss) = or_rest-done _ _ (rule_lists-done s type_https) (hint_loop-done ss)

  https-done : (vs : List SvcbValue) → filter_https_answer e f resp vs ≢ panicked
  unfolding filter_https_answer filter_svcb_hint
  https-done [] = λ p. cc
  https-done (hint ss ∷ vs) = or_rest-done _ _ (hint_loop-done ss) (https-done vs)
  https-done (other_value ∷ vs) = https-done vs

  answer-done : (x : Answer) → filter_answer e f resp x ≢ panicked
  unfolding filter_answer
  answer-done (https_record vs) = https-done vs
  answer-done (a_record ip) = rule_lists-done ip type_a
  answer-done (aaaa_record ip) = rule_lists-done ip type_aaaa
  answer-done (cname_record t) = rule_lists-done t type_cname
  answer-done other_record = λ p. cc

  answer_loop-done : (xs : List Answer) → answer_loop e f resp xs ≢ panicked
  unfolding answer_loop
  answer_loop-done [] = λ p. cc
  answer_loop-done (x ∷ xs) = or_rest-done _ _ (answer-done x) (answer_loop-done xs)

  -- The filtering of a response never panics, if the rule lists have IDs other than that of the
  -- blocked services and the lists of the blocked services name their service.
  pub filter_response-done : filter_response e f resp ≢ panicked
  unfolding filter_response
  filter_response-done = answer_loop-done resp.answers
