-- ===== src/Access/Examples.antt =====
-- internal/access: the theorem at a profile with an allowed network inside a blocked one.
use ad_guard_dns.Base.{◌≡◌, true, not, ◌&&◌, ◌||◌, [], ◌∷◌, some}
use ad_guard_dns.Net.{v4}
use ad_guard_dns.Settings.{DefaultProfile, default_profile, shared_blocker}
use ad_guard_dns.Access.{
  Question, StandardBlockerConfig, is_blocked, set_config, match_blocked, normalize_query_domain,
}
use ad_guard_dns.Access.Decision.{is_in, standard_blocks, is_blocked-set_config}
use ad_guard_dns.Samples.{engines, no_standard}

abbrev profile : DefaultProfile
profile = record {
  standard = shared_blocker;
  allowed_nets = record { addr = v4 167772160; bits = 8 } ∷ [];
  blocked_nets = record { addr = v4 0; bits = 0 } ∷ [];
  allowed_asn = [];
  blocked_asn = [];
  blocklist_domain_rules = "block.test" ∷ [];
  standard_enabled = true;
}

abbrev question : Question
question = record { name = "example.org."; q_type = 1 }

abbrev numbers : StandardBlockerConfig
numbers = record {
  allowed_nets = [];
  blocked_nets = [];
  allowed_asn = [];
  blocked_asn = 64512 ∷ [];
  blocklist_domain_rules = [];
}

-- the client's network is allowed by the profile, and its autonomous system is blocked by the standard settings
is_blocked-set_config_example :
    is_blocked engines
      (set_config engines numbers no_standard)
      question
      (v4 167772161)
      (some 64512)
      (default_profile profile)
    ≡ ((is_in [] (record { addr = v4 0; bits = 0 } ∷ []) (v4 167772161) (some 64512)
          && not (
              is_in [] (record { addr = v4 167772160; bits = 8 } ∷ []) (v4 167772161) (some 64512)))
        || match_blocked engines
            (normalize_query_domain engines "example.org.")
            1
            ("block.test" ∷ [])
        || standard_blocks engines numbers question (v4 167772161) (some 64512) shared_blocker)
is_blocked-set_config_example =
    is_blocked-set_config engines numbers no_standard question (v4 167772161) (some 64512) profile
