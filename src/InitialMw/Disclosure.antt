-- ===== src/InitialMw/Disclosure.antt =====
-- internal/dnssvc/internal/initial/specialdomain.go: what a special domain tells of the resolvers.
use ad_guard_dns.Base.{◌≡◌, Bool, true, false, ◌&&◌, [], Option, some, string_eq}
use ad_guard_dns.Agd.{DeviceSets}
use ad_guard_dns.Messages.{Msg}
use ad_guard_dns.DeviceFinder.{DeviceResult, result_ok, authentication_failure}
use ad_guard_dns.InitialMw.{Special, ddr}

-- not the handler that tells of the resolvers
abbrev Hides : Option Special → Type 0
Hides (some ddr) = ⊥
Hides _ = Unit

-- a reply with no answers to the request
abbrev pub IsEmptyReply : Msg → Msg → Type 0
IsEmptyReply req m = (m.answers ≡ []) × (m.id ≡ req.id) × (m.question ≡ req.question)

module _ ⦃S : DeviceSets⦄ where
  -- the device of the query is only to be used with authentication over HTTPS, or has failed it
  abbrev pub is_guarded : Option DeviceResult → Bool
  is_guarded (some (result_ok p d)) = d.auth.enabled && d.auth.doh_auth_only
  is_guarded (some (authentication_failure e)) = true
  is_guarded _ = false
