-- ===== src/RateLimitMw/Examples.antt =====
-- internal/dnssvc/internal/ratelimitmw: the theorem at a query of a phone that its profile's limit lets pass.
use ad_guard_dns.Base.{◌≡◌, true, false, [], ◌∷◌, some, none}
use ad_guard_dns.Net.{v4}
use ad_guard_dns.Samples.{list_sets, home, phone, engines, no_standard, question_a}
use ad_guard_dns.RateLimit.{passes}
use ad_guard_dns.RateLimit.Backoff.{answers}
use ad_guard_dns.DeviceFinder.{result_ok}
use ad_guard_dns.MainMw.{served}
use ad_guard_dns.RateLimitMw.{Setup, Query, located, wrap}
use ad_guard_dns.RateLimitMw.Gate.{calls_of, number, is_admitted, wrap-is_admitted}

abbrev setup : Setup
setup = record {
  engines = engines;
  access_manager = record { blocked_domains = "blocked.test" ∷ []; blocked_nets = [] };
  standard = no_standard;
  protos = 1 ∷ [];
  protocol = 1;
  location = located none;
  found = some (result_ok home phone);
  profile_check = passes;
  limiter = answers true false;
  next = served (some question_a);
  write_fails = false;
}

abbrev query : Query
query = record {
  port = 53000;
  remote_ip = v4 9;
  question = record { name = "example.org."; q_type = 1 };
}

wrap-is_admitted_example : calls_of (wrap setup query) ≡ number (is_admitted setup query)
wrap-is_admitted_example = wrap-is_admitted setup query
