-- ===== src/Messages/Examples.antt =====
-- internal/dnsmsg: examples of blocked responses.
use ad_guard_dns.Base.{◌≡◌, [], ◌∷◌, some}
use ad_guard_dns.Net.{v4}
use ad_guard_dns.Settings.{custom_ip}
use ad_guard_dns.Samples.{messages, question_a}
use ad_guard_dns.Messages.{Msg, a_rr, new_blocked_resp}
use ad_guard_dns.Messages.Blocked.{new_blocked_resp-IsBlockedBy}

custom_ip_response :
    (m : Msg) × (new_blocked_resp messages question_a (some (custom_ip (v4 1 ∷ v4 2 ∷ []) []))
      ≡ some m)
    × (m.id ≡ 7)
    × (m.question ≡ question_a.question)
    × (m.rcode ≡ 0)
    × (m.answers ≡ a_rr "ads.example." 10 (v4 1) ∷ a_rr "ads.example." 10 (v4 2) ∷ [])
custom_ip_response =
    new_blocked_resp-IsBlockedBy messages question_a (some (custom_ip (v4 1 ∷ v4 2 ∷ []) []))
      ((tt, (tt, tt)), tt)
