-- ===== src/AnswerStats/Examples.antt =====
-- internal/dnsdb/buffer.go: the an addition to an empty buffer.
use ad_guard_dns.Base.{◌≡◌, refl, List, [], ◌∷◌}
use ad_guard_dns.Base.Map.{lookup}
use ad_guard_dns.AnswerStats.{key_eq, Rr, address, other, Buffer, new_buffer, add}

abbrev buffer : Buffer
buffer = new_buffer 2

abbrev answers : List Rr
answers = address "1.2.3.4" 1 ∷ other 65 ∷ []

added : (add "example.com" answers 1 0 buffer).0 ≡ 1
unfolding add new_buffer lookup
added = refl
