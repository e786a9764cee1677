-- ===== src/Filter/Rewrite.antt =====
-- internal/filter/internal/rulelist/dnsrewrite.go: the rewrites of a request by rules.
use ad_guard_dns.Base.{
  ℕ, Bool, not, String, List, [], ◌∷◌, ◌++◌, Option, some, none, ◌==◌, string_eq, eqb,
  if◌then◌else◌,
}
use ad_guard_dns.Filter.{Result, modified_request, modified_response, Request, RewriteRule}

-- `strings.EqualFold`, `dns.Fqdn`, and the answers that `filterDNSRewriteResponse` makes of a value
-- for a type: an error, no answer, or an answer. They are not modelled.
pub record Answers : Type 0 where
  pub equal_fold : String → String → Bool
  pub fqdn : String → String
  pub make : ℕ → ℕ → Option (Option ℕ)

-- `responses` holds the values by their type, in order.
pub record RewriteResult : Type 0 where
  pub responses : List (ℕ × ℕ)
  pub canon_name : String
  pub rule_text : String
  pub rcode : ℕ

abbrev pub no_result : RewriteResult
no_result = record { responses = []; canon_name = ""; rule_text = ""; rcode = 0 }

unfoldable pub process_rules : List RewriteRule → RewriteResult → RewriteResult
process_rules [] res = res
process_rules (r ∷ rs) res =
    let rest =
      process_rules rs
        (record res { responses = res.responses ++ (r.rr_type, r.value) ∷ []; rcode = r.rcode }) in
    if not (r.new_cname == "")
    then record res { canon_name = r.new_cname; rule_text = r.text }
    else if not (eqb r.rcode 0)
    then record res { rule_text = r.text; rcode = r.rcode }
    else rest

module _ (a : Answers) where
  add_answer : Option (Option ℕ) → Option (List ℕ) → Option (List ℕ)
  add_answer none rest = none
  add_answer (some x) none = none
  add_answer (some none) (some xs) = some xs
  add_answer (some (some x)) (some xs) = some (x ∷ xs)

  -- the loop of `filterDNSRewrite` over the values of the type asked for
  unfoldable pub make_answers : ℕ → List (ℕ × ℕ) → Option (List ℕ)
  unfolding add_answer
  make_answers rr [] = some []
  make_answers rr ((t, v) ∷ vs) =
      let rest = make_answers rr vs in if eqb t rr then add_answer (a.make rr v) rest else rest

  answered : String → Option (List ℕ) → Option Result
  answered id none = none
  answered id (some xs) = some (modified_response id "" 0 xs)

  by_result : Request → String → RewriteResult → Option Result
  unfolding answered make_answers
  by_result req id res =
      if not (res.canon_name == "")
      then (if a.equal_fold res.canon_name req.host
          then none
          else some (modified_request id res.rule_text (a.fqdn res.canon_name)))
      else if not (eqb res.rcode 0)
      then some (modified_response id res.rule_text res.rcode [])
      else answered id (make_answers req.q_type res.responses)

  unfoldable pub process_dns_rewrites : Request → List RewriteRule → String → Option Result
  unfolding by_result process_rules
  process_dns_rewrites req [] id = none
  process_dns_rewrites req (r ∷ rs) id = by_result req id (process_rules (r ∷ rs) no_result)
