-- ===== src/Access/Decision.antt =====
-- internal/access: what the decision says, and that a new standard configuration takes effect.
use ad_guard_dns.Base.{
  ℕ, ◌≡◌, refl, ap, Bool, false, not, ◌&&◌, ◌||◌, List, [], ◌∷◌, Option, some, none, any, contains,
  nat_eq, arith,
}
use ad_guard_dns.Net.{Addr, Prefix, prefix_contains}
use ad_guard_dns.Settings.{DefaultProfile, default_profile, empty_blocker, shared_blocker, Standard}
use ad_guard_dns.Access.{
  Engines, Question, StandardBlocker, StandardBlockerConfig, match_nets, match_asns, match_blocked,
  normalize_query_domain, set_config, by_lists, by_standard, is_blocked, is_blocked_by_nets,
  is_blocked_by_hosts_eng, standard_is_blocked, standard_is_blocked_by_nets,
}

match_nets-any :
    (ns : List Prefix) (ip : Addr) → match_nets ns ip ≡ any (λ n. prefix_contains n ip) ns
unfolding match_nets
match_nets-any [] ip = refl
match_nets-any (n ∷ ns) ip = ground (arith, match_nets-any ns ip)

-- the client is in the networks or has one of the numbers
abbrev pub is_in : List ℕ → List Prefix → Addr → Option ℕ → Bool
is_in asns nets ip none = any (λ n. prefix_contains n ip) nets
is_in asns nets ip (some asn) = contains asns asn || any (λ n. prefix_contains n ip) nets

module _ (e : Engines) where
  by_lists-is_in :
      (allowed_asn : List ℕ) (allowed : List Prefix) (blocked_asn : List ℕ) (blocked : List Prefix)
      (ip : Addr) (l : Option ℕ)
      → by_lists e allowed_asn allowed blocked_asn blocked ip l
        ≡ (is_in blocked_asn blocked ip l && not (is_in allowed_asn allowed ip l))
  unfolding by_lists match_asns
  by_lists-is_in aa an ba bn ip none = ground (arith, match_nets-any an ip, match_nets-any bn ip)
  by_lists-is_in aa an ba bn ip (some asn) =
      ground (arith, match_nets-any an ip, match_nets-any bn ip)

  -- the standard settings, where the profile shares them
  abbrev pub standard_blocks : StandardBlockerConfig → Question → Addr → Option ℕ → Standard → Bool
  standard_blocks c q ip l empty_blocker = false
  standard_blocks c q ip l shared_blocker =
      (is_in c.blocked_asn c.blocked_nets ip l && not (is_in c.allowed_asn c.allowed_nets ip l))
      || match_blocked e (normalize_query_domain e q.name) q.q_type c.blocklist_domain_rules

  by_standard-blocks :
      (c : StandardBlockerConfig) (b : StandardBlocker) (q : Question) (ip : Addr) (l : Option ℕ)
      (k : Standard)
      → by_standard e (set_config e c b) q ip l k ≡ standard_blocks c q ip l k
  unfolding by_standard set_config standard_is_blocked standard_is_blocked_by_nets
  by_standard-blocks c b q ip l empty_blocker = refl
  by_standard-blocks c b q ip l shared_blocker =
      ap
        (λ x.
          x || match_blocked e (normalize_query_domain e q.name) q.q_type c.blocklist_domain_rules)
        (by_lists-is_in c.allowed_asn c.allowed_nets c.blocked_asn c.blocked_nets ip l)

  -- A profile with access settings blocks a request exactly if the client is in a blocked network or
  -- autonomous system and in no allowed one, or a rule of the profile blocks the question, or, where the
  -- profile shares the standard settings, those that were set last do so in the same way. An allowed
  -- network of the profile excepts from neither the rules nor the standard settings.
  pub is_blocked-set_config :
      (c : StandardBlockerConfig) (b : StandardBlocker) (q : Question) (ip : Addr) (l : Option ℕ)
      (p : DefaultProfile)
      → is_blocked e (set_config e c b) q ip l (default_profile p) ≡ (
          (is_in p.blocked_asn p.blocked_nets ip l && not (is_in p.allowed_asn p.allowed_nets ip l))
          || match_blocked e (normalize_query_domain e q.name) q.q_type p.blocklist_domain_rules
          || standard_blocks c q ip l p.standard)
  unfolding is_blocked is_blocked_by_nets is_blocked_by_hosts_eng
  is_blocked-set_config c b q ip l p = simp (
    by_lists-is_in p.allowed_asn p.allowed_nets p.blocked_asn p.blocked_nets ip l,
    by_standard-blocks c b q ip l p.standard,
  )
