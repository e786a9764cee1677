-- ===== src/InitialMw/Examples.antt =====
-- internal/dnssvc/internal/initial: the theorem at a query for the resolvers by a phone that has to authenticate.
use ad_guard_dns.Base.{String, Bool, true, false, [], ◌∷◌, some}
use ad_guard_dns.Samples.{list_sets, home, phone, messages, question_a}
use ad_guard_dns.Messages.{Msg}
use ad_guard_dns.DeviceFinder.{result_ok}
use ad_guard_dns.InitialMw.{DdrConfig, Info}

abbrev config : DdrConfig
config = record {
  device_targets = "d.dns.example" ∷ [];
  public_targets = "dns.example" ∷ [];
  device_record_templates = record { ttl = 60; target = "d.dns.example."; rest = 1 } ∷ [];
  public_record_templates = record { ttl = 60; target = "dns.example."; rest = 1 } ∷ [];
  enabled = true;
}

abbrev info : Info
info = record {
  device_result = some (result_ok home phone);
  filtering_group = record {
    block_chrome_prefetch = false;
    block_firefox_canary = false;
    block_private_relay = false;
  };
  messages = messages;
  host = "_dns.resolver.arpa";
  q_type = 64;
  q_class = 1;
}

abbrev no_subdomain : String → String → Bool
no_subdomain sub domain = false

abbrev request : Msg
request = record question_a {
  question = record { name = "_dns.resolver.arpa."; q_type = 64; q_class = 1 };
}
