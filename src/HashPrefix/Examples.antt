-- ===== src/HashPrefix/Examples.antt =====
-- internal/filter/hashprefix/storage.go: the theorems at a hash that pads the host.
use ad_guard_dns.Base.{◌≡◌, false, List, [], ◌∷◌, ◌++◌, any, take, arith}
use ad_guard_dns.Base.Map.{lookup}
use ad_guard_dns.CustomDomains.{Name, name_eq}
use ad_guard_dns.HashPrefix.{Sha256, SuffixMap, suffixes, reset, matches, hashes}
use ad_guard_dns.HashPrefix.Matches.{is_hit, matches-reset}
use ad_guard_dns.HashPrefix.Encoded.{pairs, encoded, hashes-encoded}

abbrev zeros : Name
zeros =
    0 ∷ 0 ∷ 0 ∷ 0 ∷ 0 ∷ 0 ∷ 0 ∷ 0 ∷ 0 ∷ 0 ∷ 0 ∷ 0 ∷ 0 ∷ 0 ∷ 0 ∷ 0 ∷ 0 ∷ 0 ∷ 0 ∷ 0 ∷ 0 ∷ 0 ∷ 0 ∷ 0
    ∷ 0 ∷ 0 ∷ 0 ∷ 0 ∷ 0 ∷ 0 ∷ 0 ∷ 0 ∷ []

instance abbrev padding : Sha256
padding = record { sum = λ host. take 32 (host ++ zeros) }

-- a comment, an empty line, and two hosts
abbrev lines : List Name
lines = (35 ∷ 97 ∷ []) ∷ [] ∷ (97 ∷ 98 ∷ 99 ∷ []) ∷ (97 ∷ 98 ∷ 100 ∷ []) ∷ []

matches-reset_example :
    matches (97 ∷ 98 ∷ 99 ∷ []) (reset lines false []).1 ≡ any (is_hit (97 ∷ 98 ∷ 99 ∷ [])) lines
matches-reset_example = matches-reset (97 ∷ 98 ∷ 99 ∷ []) lines false []

abbrev storage : SuffixMap
storage = ((97 ∷ 98 ∷ []), (take 30 (99 ∷ zeros) ∷ take 30 (100 ∷ zeros) ∷ [])) ∷ []

hashes-encoded_example :
    hashes ((97 ∷ 98 ∷ []) ∷ []) storage ≡ encoded (pairs ((97 ∷ 98 ∷ []) ∷ []) storage)
unfolding pairs suffixes lookup
hashes-encoded_example =
    hashes-encoded ((97 ∷ 98 ∷ []) ∷ []) storage (omega arith, (omega arith, tt))
