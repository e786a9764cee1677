-- ===== src/Filter/Collector/Known.antt =====
-- internal/filter/internal/composite/result.go: the collector knows every rule that it holds, so it
-- does not panic.
use ad_guard_dns.Base.{
  ℕ, ◌≡◌, ◌≢◌, ◌⊎◌, Bool, true, false, ◌||◌, String, List, [], ◌∷◌, ◌++◌, some, none, ◌==◌,
  string_eq, nat_eq, eqb, if◌then◌else◌, any, arith, ==_iff, Option-cases, inl, inr,
}
use ad_guard_dns.Base.Map.{Map, lookup, insert, lookup-insert}
use ad_guard_dns.Filter.{NetworkRule, HostRule, UfResult, Rules, panicked, id_blocked_service}
use ad_guard_dns.Filter.Collector.{
  Collector, new_collector, set_svc, add_network_rules, add_host_rules4, add_host_rules6, add,
  to_internal, net_rule_data_to_result, hosts_rules_to_result, host_rule_data_to_result,
  first_host_rule,
}

-- The rule at `p` has an ID, and a service where the ID is that of the blocked services.
abbrev pub is_known : Map ℕ String → Map ℕ String → ℕ → Bool
is_known ids svcs p = elim (lookup p ids) [
  | none ↦ false
  | some id ↦
      if id == id_blocked_service
      then elim (lookup p svcs) [ none ↦ false | some s ↦ true ]
      else true
]

-- A list may be added under `id` with `svc`.
abbrev pub IsNamed : String → String → Type 0
IsNamed id svc = id ≡ id_blocked_service → svc ≢ ""

is_known-insert :
    (ids svcs : Map ℕ String) (q p : ℕ) (id svc : String)
    → IsNamed id svc
    → eqb q p || is_known ids svcs p ≡ true
    → is_known (insert q id ids) (set_svc q svc svcs) p ≡ true
is_known-insert ids svcs q p id svc named h = ground (
  arith,
  lookup-insert q p id ids,
  lookup-insert q p svc svcs,
  ==_iff id id_blocked_service,
  ==_iff svc "",
)

any-append {ℓ} :
    {A : Type ℓ} (f : A → Bool) (xs : List A) (x : A) → any f (xs ++ x ∷ []) ≡ any f xs || f x
any-append f [] x = ground arith
any-append f (y ∷ xs) x = ground (arith, any-append f xs x)

pub record Known (c : Collector) : Type 0 where
  pub nets :
      (p : ℕ)
      → any (λ x. eqb x.ptr p) c.network_rules ≡ true
      → is_known c.net_rule_ids c.net_rule_svc_ids p ≡ true
  pub hosts4 :
      (p : ℕ)
      → any (λ x. eqb x.ptr p) c.host_rules4 ≡ true
      → is_known c.host_rule_ids c.host_rule_svc_ids p ≡ true
  pub hosts6 :
      (p : ℕ)
      → any (λ x. eqb x.ptr p) c.host_rules6 ≡ true
      → is_known c.host_rule_ids c.host_rule_svc_ids p ≡ true

pub new_collector-Known : Known new_collector
new_collector-Known = record { nets = λ p h. cc; hosts4 = λ p h. cc; hosts6 = λ p h. cc }

module _ (id svc : String) (named : IsNamed id svc) where
  add_network_rules-Known :
      (rs : List NetworkRule) {c : Collector} → Known c → Known (add_network_rules id svc rs c)
  unfolding add_network_rules
  add_network_rules-Known [] k = k
  add_network_rules-Known (r ∷ rs) {c} k = add_network_rules-Known rs (record {
    nets = λ p h.
        is_known-insert c.net_rule_ids c.net_rule_svc_ids r.ptr p id svc named (
          ground
            (arith, any-append (λ (x : NetworkRule). eqb x.ptr p) c.network_rules r, k.nets p));
    hosts4 = k.hosts4;
    hosts6 = k.hosts6;
  })

  add_host_rules4-Known :
      (rs : List HostRule) {c : Collector} → Known c → Known (add_host_rules4 id svc rs c)
  unfolding add_host_rules4
  add_host_rules4-Known [] k = k
  add_host_rules4-Known (r ∷ rs) {c} k = add_host_rules4-Known rs (record {
    nets = k.nets;
    hosts4 = λ p h.
        is_known-insert c.host_rule_ids c.host_rule_svc_ids r.ptr p id svc named
          (ground (arith, any-append (λ (x : HostRule). eqb x.ptr p) c.host_rules4 r, k.hosts4 p));
    hosts6 = λ p h.
        is_known-insert c.host_rule_ids c.host_rule_svc_ids r.ptr p id svc named
          (ground (arith, k.hosts6 p));
  })

  add_host_rules6-Known :
      (rs : List HostRule) {c : Collector} → Known c → Known (add_host_rules6 id svc rs c)
  unfolding add_host_rules6
  add_host_rules6-Known [] k = k
  add_host_rules6-Known (r ∷ rs) {c} k = add_host_rules6-Known rs (record {
    nets = k.nets;
    hosts4 = λ p h.
        is_known-insert c.host_rule_ids c.host_rule_svc_ids r.ptr p id svc named
          (ground (arith, k.hosts4 p));
    hosts6 = λ p h.
        is_known-insert c.host_rule_ids c.host_rule_svc_ids r.ptr p id svc named
          (ground (arith, any-append (λ (x : HostRule). eqb x.ptr p) c.host_rules6 r, k.hosts6 p));
  })

  -- The collector still knows all its rules when those of a list are added, if the lists of the
  -- blocked services name their service.
  pub add-Known : (dr : UfResult) {c : Collector} → Known c → Known (add id svc dr c)
  unfolding add
  add-Known dr k =
      add_host_rules6-Known dr.host_rules6
        (add_host_rules4-Known dr.host_rules4 (add_network_rules-Known dr.network_rules k))

net_rule-done :
    (c : Collector) (r : NetworkRule)
    → is_known c.net_rule_ids c.net_rule_svc_ids r.ptr ≡ true
    → net_rule_data_to_result c r ≢ panicked
unfolding net_rule_data_to_result
net_rule-done c r k = ground arith

host_rule-done :
    (c : Collector) (r : HostRule)
    → is_known c.host_rule_ids c.host_rule_svc_ids r.ptr ≡ true
    → host_rule_data_to_result c r ≢ panicked
unfolding host_rule_data_to_result
host_rule-done c r k = ground arith

first_host_rule-any :
    (rr : ℕ) (rs4 rs6 : List HostRule) (r : HostRule)
    → first_host_rule rr rs4 rs6 ≡ some r
    → (any (λ x. eqb x.ptr r.ptr) rs4 ≡ true) ⊎ (any (λ x. eqb x.ptr r.ptr) rs6 ≡ true)
unfolding first_host_rule
first_host_rule-any rr [] [] r h = ground arith
first_host_rule-any rr [] (r6 ∷ rs6) r h = inr (ground arith)
first_host_rule-any rr (r4 ∷ rs4) [] r h = inl (ground arith)
first_host_rule-any rr (r4 ∷ rs4) (r6 ∷ rs6) r h = ground arith

hosts-done : (c : Collector) (rr : ℕ) → Known c → hosts_rules_to_result c rr ≢ panicked
unfolding hosts_rules_to_result
hosts-done c rr k = elim (Option-cases (first_host_rule rr c.host_rules4 c.host_rules6)) [
  | inl n ↦ ground arith
  | inr (r, s) ↦ elim (first_host_rule-any rr c.host_rules4 c.host_rules6 r s) [
    | inl h ↦ ground (arith, host_rule-done c r (k.hosts4 r.ptr h))
    | inr h ↦ ground (arith, host_rule-done c r (k.hosts6 r.ptr h))
  ]
]

-- A collector that knows its rules gives a result of them without a panic.
pub to_internal-done :
    (e : Rules) (c : Collector) (rr : ℕ) → Known c → to_internal e c rr ≢ panicked
unfolding to_internal
to_internal-done e c rr k = elim (Option-cases (e.basic_rule c.network_rules)) [
  | inl n ↦ ground (arith, hosts-done c rr k)
  | inr (r, s) ↦
      ground (arith, net_rule-done c r (k.nets r.ptr (e.basic_rule-any c.network_rules r s)))
]
