-- ===== src/Filter/Composite/Safe.antt =====
-- internal/filter/internal/composite: the filter does not panic, and a response is never rewritten.
use ad_guard_dns.Base.{
  ℕ, ◌≢◌, refl, false, String, List, [], ◌∷◌, Option, some, none, arith, All, ==_iff, string_eq,
  Option-cases, inl, inr,
}
use ad_guard_dns.Filter.{
  Result, Request, UfRequest, UfResult, Rules, Outcome, done, panicked, id_custom,
  id_blocked_service,
}
use ad_guard_dns.Filter.Rewrite.{Answers, process_dns_rewrites}
use ad_guard_dns.Filter.Collector.{Collector, new_collector, to_internal}
use ad_guard_dns.Filter.Collector.Known.{
  IsNamed, Known, new_collector-Known, add-Known, to_internal-done,
}
use ad_guard_dns.Filter.Composite.{
  Filter, RuleList, list_loop, service_loop, matched_list, filter_req_with_rule_lists,
  filter_request, uf_request, add_client_id, or_collected, filter_req_with_custom_filter,
  filter_req_with_custom_rule_lists, custom_outcome, after_custom, after_custom_lists, after_common,
  ◌>>=◌,
}

-- The lists have IDs of their own, and those of the blocked services name their service.
pub record IsWellNamed (f : Filter) : Type 0 where
  pub common : All (λ rl. rl.id ≢ id_blocked_service) f.rule_lists
  pub custom_lists : All (λ rl. rl.id ≢ id_blocked_service) f.custom_rule_lists
  pub services : All (λ rl. IsNamed rl.id rl.svc_id) f.svc_lists

module _ (a : Answers) where
  matched_list-Known :
      (req : Request) (id : String) (c : Collector) (o : Option UfResult)
      → id ≢ id_blocked_service
      → Known c
      → Known (matched_list a req id c o).1
  unfolding matched_list
  matched_list-Known req id c none ne k = k
  matched_list-Known req id c (some res) ne k =
      elim (Option-cases (process_dns_rewrites a req res.dns_rewrites id)) [
        | inl n ↦ rw (n, matched_list) (add-Known id "" (λ e. absurd (ne e)) res k)
        | inr (r, s) ↦ rw (s, matched_list) k
      ]

  list_loop-Known :
      (req : Request) (q : UfRequest) (ls : List RuleList) (c : Collector)
      → All (λ rl. rl.id ≢ id_blocked_service) ls
      → Known c
      → Known (list_loop a req q ls c).1
  unfolding list_loop
  list_loop-Known req q [] c h k = k
  list_loop-Known req q (rl ∷ rls) c h k =
      elim (Option-cases (matched_list a req rl.id c (rl.set_url_filter_result q)).0) [
        | inl n ↦
            rw (n, list_loop)
              (list_loop-Known req q rls _ h.1
                (matched_list-Known req rl.id c (rl.set_url_filter_result q) h.0 k))
        | inr (r, s) ↦
            rw (s, list_loop) (matched_list-Known req rl.id c (rl.set_url_filter_result q) h.0 k)
      ]

pub service_loop-Known :
    (q : UfRequest) (ls : List RuleList) (c : Collector)
    → All (λ rl. IsNamed rl.id rl.svc_id) ls
    → Known c
    → Known (service_loop q ls c)
unfolding service_loop
service_loop-Known q [] c h k = k
service_loop-Known q (rl ∷ rls) c h k = elim (Option-cases (rl.set_url_filter_result q)) [
  | inl n ↦ rw (n, service_loop) (service_loop-Known q rls c h.1 k)
  | inr (res, s) ↦
      rw (s, service_loop) (service_loop-Known q rls _ h.1 (add-Known rl.id rl.svc_id h.0 res k))
]

-- A stage that does not panic, and whose collector knows its rules.
abbrev Good : Outcome (Option Result × Collector) → Type 0
Good (done (r, c)) = Known c
Good panicked = ⊥

module _ (e : Rules) (a : Answers) where
  or_collected-Good :
      (rr : ℕ) (rc : Option Result × Collector) → Known rc.1 → Good (or_collected e a rr rc)
  or_collected-Good rr (some r, c) k = k
  or_collected-Good rr (none, c) k = collected (to_internal e c rr) (to_internal-done e c rr k)
    where
      collected : (o : Outcome (Option Result)) → o ≢ panicked → Good (o >>= λ r. done (r, c))
      collected (done r) h = k
      collected panicked h = absurd (h refl)

  custom_ne : id_custom ≢ id_blocked_service
  custom_ne = ground (arith, ==_iff id_custom id_blocked_service)

  custom_outcome-Good :
      (req : Request) (c : Collector) (o : Option UfResult)
      → Known c
      → Good (custom_outcome e a req c o)
  unfolding custom_outcome
  custom_outcome-Good req c none k = k
  custom_outcome-Good req c (some res) k =
      or_collected-Good req.q_type (matched_list a req id_custom c (some res))
        (matched_list-Known a req id_custom c (some res) custom_ne k)

  module _ (f : Filter) (named : IsWellNamed f) (req : Request) where
    custom_filter-Good :
        (q : UfRequest) (c : Collector)
        → Known c
        → Good (filter_req_with_custom_filter e a f req q c)
    unfolding filter_req_with_custom_filter
    custom_filter-Good q c k = elim (Option-cases f.custom) [
      | inl n ↦ rw (n, filter_req_with_custom_filter) k
      | inr (set, s) ↦
          rw (s, filter_req_with_custom_filter)
            (custom_outcome-Good req c (set (add_client_id req.client_name q)) k)
    ]

    custom_lists-Good :
        (q : UfRequest) (c : Collector)
        → Known c
        → Good (filter_req_with_custom_rule_lists e a f req q c)
    unfolding filter_req_with_custom_rule_lists
    custom_lists-Good q c k = or_collected-Good req.q_type _ (
        list_loop-Known a req (add_client_id req.client_name q) f.custom_rule_lists c
          named.custom_lists k)

    bind_done-ne {ℓ κ} :
        {A : Type ℓ} {B : Type κ} (o : Outcome A) (g : A → B)
        → o ≢ panicked
        → (o >>= λ r. done (g r)) ≢ panicked
    bind_done-ne (done r) g h = λ p. cc
    bind_done-ne panicked g h = absurd (h refl)

    after_common-done :
        (q : UfRequest) (rc : Option Result × Collector)
        → Known rc.1
        → after_common e a f req q rc ≢ panicked
    unfolding after_common
    after_common-done q (some r, c) k = λ p. cc
    after_common-done q (none, c) k =
        bind_done-ne _ (λ r. (r, false))
          (to_internal-done e _ req.q_type (service_loop-Known q f.svc_lists c named.services k))

    after_custom_lists-done :
        (q : UfRequest) (o : Outcome (Option Result × Collector))
        → Good o
        → (o >>= after_custom_lists e a f req q) ≢ panicked
    unfolding after_custom_lists
    after_custom_lists-done q (done (some r, c)) k = λ p. cc
    after_custom_lists-done q (done (none, c)) k =
        after_common-done _ _ (list_loop-Known a req _ f.rule_lists c named.common k)
    after_custom_lists-done q panicked k = absurd k

    after_custom-done :
        (q : UfRequest) (o : Outcome (Option Result × Collector))
        → Good o
        → (o >>= after_custom e a f req q) ≢ panicked
    unfolding after_custom
    after_custom-done q (done (some r, c)) k = λ p. cc
    after_custom-done q (done (none, c)) k = after_custom_lists-done q _ (custom_lists-Good q c k)
    after_custom-done q panicked k = absurd k

    -- The filtering of a request never panics, if the rule lists have IDs other than that of the
    -- blocked services and the lists of the blocked services name their service.
    pub filter_request-done : filter_request e a f req ≢ panicked
    unfolding filter_request filter_req_with_rule_lists
    filter_request-done = bind_done-ne _ _ (
        after_custom-done (uf_request req) _
          (custom_filter-Good (uf_request req) new_collector new_collector-Known))
