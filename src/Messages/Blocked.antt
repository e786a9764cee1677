-- ===== src/Messages/Blocked.antt =====
-- internal/dnsmsg/response.go: what is in a blocked response.
use ad_guard_dns.Base.{
  ℕ, ◌≡◌, refl, true, false, List, [], ◌∷◌, Option, some, none, eqb, All, arith, if◌then◌else◌, ◌⊎◌,
  Bool-cases, inl, inr, ◌∙◌,
}
use ad_guard_dns.Net.{Addr, invalid, v4, v6}
use ad_guard_dns.Settings.{BlockingMode, custom_ip, nxdomain, null_ip, refused}
use ad_guard_dns.Messages.{
  Msg, Opt, Rr, a_rr, aaaa_rr, Constructor, header_ttl, qtype_a, qtype_aaaa, rcode_success,
  rcode_name_error, rcode_refused, add_ede, add_ede_for, extended_error_code_filtered, new_resp,
  make_answers, new_answer_a, new_answer_aaaa, new_msg_a, new_msg_aaaa, new_blocked_resp_ip,
  new_blocked_null_ip_resp, new_blocked_resp_rcode, new_blocked_custom_ip_resp, new_blocked_resp,
  nodata, with_answers, is_empty, filtered, blocked_by, mode_or,
}

-- `mode` as it is used
abbrev pub used_mode : Constructor → Option BlockingMode → BlockingMode
used_mode c none = c.blocking_mode
used_mode c (some m) = m

-- the custom addresses of each family are of that family
abbrev pub IsV4 : Addr → Type 0
IsV4 (v6 a) = ⊥
IsV4 a = Unit

abbrev pub IsV6 : Addr → Type 0
IsV6 (v4 a) = ⊥
IsV6 a = Unit

abbrev pub IsFamilies : BlockingMode → Type 0
IsFamilies (custom_ip ipv4 ipv6) = All IsV4 ipv4 × All IsV6 ipv6
IsFamilies m = Unit

abbrev pub rcode_of : BlockingMode → ℕ
rcode_of nxdomain = rcode_name_error
rcode_of refused = rcode_refused
rcode_of m = rcode_success

abbrev pub unspecified_or : ℕ → Addr → Addr
unspecified_or t invalid = if eqb t qtype_a then v4 0 else v6 0
unspecified_or t a = a

-- the addresses that a mode answers a question of a type with
abbrev pub addresses : BlockingMode → ℕ → List Addr
addresses (custom_ip ipv4 ipv6) t =
    if eqb t qtype_a then ipv4 else if eqb t qtype_aaaa then ipv6 else []
addresses null_ip t =
    if eqb t qtype_a then invalid ∷ [] else if eqb t qtype_aaaa then invalid ∷ [] else []
addresses m t = []

abbrev pub address_rr : Constructor → Msg → Addr → Rr
address_rr c req a =
    if eqb req.question.q_type qtype_a
    then a_rr req.question.name (header_ttl c) (unspecified_or qtype_a a)
    else aaaa_rr req.question.name (header_ttl c) (unspecified_or qtype_aaaa a)

abbrev pub address_rrs : Constructor → Msg → List Addr → List Rr
address_rrs c req [] = []
address_rrs c req (a ∷ ips) = address_rr c req a ∷ address_rrs c req ips

abbrev Same : Msg → Msg → Type 0
Same m n = (m.id ≡ n.id) × (m.question ≡ n.question) × (m.rcode ≡ n.rcode) × (m.answers ≡ n.answers)

add_ede_for-keeps :
    (c : Constructor) (o : Option Opt) (n : ℕ) (m : Msg) → Same (add_ede_for c o n m) m
unfolding add_ede_for
add_ede_for-keeps c none n m = (refl, refl, refl, refl)
add_ede_for-keeps c (some o) n m = (refl, refl, refl, refl)

add_ede-keeps : (c : Constructor) (req : Msg) (n : ℕ) (m : Msg) → Same (add_ede c req n m) m
unfolding add_ede
add_ede-keeps c req n m =
    elim c.ede_enabled as (λ b. Same (if b then add_ede_for c req.opt n m else m) m) [
      | false ↦ (refl, refl, refl, refl)
      | true ↦ add_ede_for-keeps c req.opt n m
    ]

module _ (c : Constructor) (req : Msg) where
  not_both : eqb req.question.q_type qtype_a ≡ true → eqb req.question.q_type qtype_aaaa ≡ true → ⊥
  not_both t u = ground arith

  make_answers-a :
      (ips : List Addr)
      → eqb req.question.q_type qtype_a ≡ true
      → All IsV4 ips
      → make_answers (new_answer_a c req.question.name) ips ≡ some (address_rrs c req ips)
  unfolding make_answers new_answer_a
  make_answers-a [] t h = refl
  make_answers-a (invalid ∷ ips) t h = rw (make_answers-a ips t h.1, t) refl
  make_answers-a (v4 a ∷ ips) t h = rw (make_answers-a ips t h.1, t) refl
  make_answers-a (v6 a ∷ ips) t h = elim h.0 [ ]

  make_answers-aaaa :
      (ips : List Addr)
      → eqb req.question.q_type qtype_a ≡ false
      → All IsV6 ips
      → make_answers (new_answer_aaaa c req.question.name) ips ≡ some (address_rrs c req ips)
  unfolding make_answers new_answer_aaaa
  make_answers-aaaa [] t h = refl
  make_answers-aaaa (invalid ∷ ips) t h = rw (make_answers-aaaa ips t h.1, t) refl
  make_answers-aaaa (v6 a ∷ ips) t h = rw (make_answers-aaaa ips t h.1, t) refl
  make_answers-aaaa (v4 a ∷ ips) t h = elim h.0 [ ]

  -- what a blocked response is, with the code and the addresses of its answers
  abbrev pub IsBlockedBy : ℕ → List Addr → Option Msg → Type 0
  IsBlockedBy rc ips resp =
      (m : Msg) × (resp ≡ some m)
      × (m.id ≡ req.id)
      × (m.question ≡ req.question)
      × (m.rcode ≡ rc)
      × (m.answers ≡ address_rrs c req ips)

  with_ede-IsBlockedBy :
      (rc : ℕ) (ips : List Addr) (m : Msg)
      → m.id ≡ req.id
      → m.question ≡ req.question
      → m.rcode ≡ rc
      → m.answers ≡ address_rrs c req ips
      → IsBlockedBy rc ips (some (add_ede c req extended_error_code_filtered m))
  with_ede-IsBlockedBy rc ips m i q r a =
      let k = add_ede-keeps c req extended_error_code_filtered m in
      (add_ede c req extended_error_code_filtered m, refl, k.0 ∙ i, k.1 ∙ q, k.2 ∙ r, k.3 ∙ a)

  -- a response of the constructor with a code, no answers and an authority section
  nodata-IsBlockedBy : (rc : ℕ) → IsBlockedBy rc [] (some (nodata c req rc))
  unfolding nodata new_blocked_resp_rcode new_resp
  nodata-IsBlockedBy rc =
      let k =
        add_ede-keeps c req extended_error_code_filtered (record (new_resp req) { rcode = rc }) in
      (nodata c req rc, refl, k.0, k.1, k.2, k.3)

  with_answers-IsBlockedBy :
      (ips : List Addr)
      → IsBlockedBy rcode_success ips (with_answers req (some (address_rrs c req ips)))
  unfolding with_answers new_resp
  with_answers-IsBlockedBy ips = (_, refl, refl, refl, refl, refl)

  new_blocked_resp_ip-a :
      (ips : List Addr)
      → eqb req.question.q_type qtype_a ≡ true
      → All IsV4 ips
      → new_blocked_resp_ip c req ips ≡ with_answers req (some (address_rrs c req ips))
  unfolding new_blocked_resp_ip new_msg_a
  new_blocked_resp_ip-a ips t h = rw (t, make_answers-a ips t h) refl

  new_blocked_resp_ip-aaaa :
      (ips : List Addr)
      → eqb req.question.q_type qtype_a ≡ false
      → eqb req.question.q_type qtype_aaaa ≡ true
      → All IsV6 ips
      → new_blocked_resp_ip c req ips ≡ with_answers req (some (address_rrs c req ips))
  unfolding new_blocked_resp_ip new_msg_aaaa
  new_blocked_resp_ip-aaaa ips t u h = rw (t, u, make_answers-aaaa ips t h) refl

  custom-IsBlockedBy :
      (ipv4 ipv6 : List Addr)
      → All IsV4 ipv4
      → All IsV6 ipv6
      → IsBlockedBy rcode_success
          (addresses (custom_ip ipv4 ipv6) req.question.q_type)
          (new_blocked_custom_ip_resp c req ipv4 ipv6)
  unfolding new_blocked_custom_ip_resp is_empty
  custom-IsBlockedBy ipv4 ipv6 h4 h6 =
      by_type ipv4 ipv6 h4 h6 (Bool-cases (eqb req.question.q_type qtype_a))
        (Bool-cases (eqb req.question.q_type qtype_aaaa))
    where
      by_type :
          (ipv4 ipv6 : List Addr)
          → All IsV4 ipv4
          → All IsV6 ipv6
          → (eqb req.question.q_type qtype_a ≡ true) ⊎ (eqb req.question.q_type qtype_a ≡ false)
          → (eqb req.question.q_type qtype_aaaa ≡ true)
            ⊎ (eqb req.question.q_type qtype_aaaa ≡ false)
          → IsBlockedBy rcode_success
              (addresses (custom_ip ipv4 ipv6) req.question.q_type)
              (new_blocked_custom_ip_resp c req ipv4 ipv6)
      by_type [] ipv6 h4 h6 (inl t) (inl u) = elim (not_both t u) [ ]
      by_type [] ipv6 h4 h6 (inl t) (inr u) = rw (t, u) (nodata-IsBlockedBy rcode_success)
      by_type (ip ∷ ipv4) ipv6 h4 h6 (inl t) u =
          rw (t, new_blocked_resp_ip-a (ip ∷ ipv4) t h4) (with_answers-IsBlockedBy (ip ∷ ipv4))
      by_type ipv4 [] h4 h6 (inr t) (inl u) = rw (t, u) (nodata-IsBlockedBy rcode_success)
      by_type ipv4 (ip ∷ ipv6) h4 h6 (inr t) (inl u) =
          rw (t, u, new_blocked_resp_ip-aaaa (ip ∷ ipv6) t u h6)
            (with_answers-IsBlockedBy (ip ∷ ipv6))
      by_type ipv4 ipv6 h4 h6 (inr t) (inr u) = rw (t, u) (nodata-IsBlockedBy rcode_success)

  filtered-IsBlockedBy :
      (ips : List Addr)
      → IsBlockedBy rcode_success ips
          (filtered c req (with_answers req (some (address_rrs c req ips))))
  unfolding filtered with_answers new_resp
  filtered-IsBlockedBy ips = with_ede-IsBlockedBy rcode_success ips _ refl refl refl refl

  null_ip-IsBlockedBy :
      IsBlockedBy rcode_success (addresses null_ip req.question.q_type) (blocked_by c req null_ip)
  unfolding blocked_by new_blocked_null_ip_resp new_msg_a new_msg_aaaa
  null_ip-IsBlockedBy =
      by_type (Bool-cases (eqb req.question.q_type qtype_a))
        (Bool-cases (eqb req.question.q_type qtype_aaaa))
    where
      by_type :
          (eqb req.question.q_type qtype_a ≡ true) ⊎ (eqb req.question.q_type qtype_a ≡ false)
          → (eqb req.question.q_type qtype_aaaa ≡ true)
            ⊎ (eqb req.question.q_type qtype_aaaa ≡ false)
          → IsBlockedBy rcode_success
              (addresses null_ip req.question.q_type)
              (blocked_by c req null_ip)
      by_type (inl t) u =
          rw (t, make_answers-a (invalid ∷ []) t (tt, tt)) (filtered-IsBlockedBy (invalid ∷ []))
      by_type (inr t) (inl u) =
          rw (t, u, make_answers-aaaa (invalid ∷ []) t (tt, tt))
            (filtered-IsBlockedBy (invalid ∷ []))
      by_type (inr t) (inr u) = rw (t, u) (nodata-IsBlockedBy rcode_success)

  blocked_by-IsBlockedBy :
      (mode : BlockingMode)
      → IsFamilies mode
      → IsBlockedBy (rcode_of mode) (addresses mode req.question.q_type) (blocked_by c req mode)
  unfolding blocked_by
  blocked_by-IsBlockedBy (custom_ip ipv4 ipv6) h = custom-IsBlockedBy ipv4 ipv6 h.0 h.1
  blocked_by-IsBlockedBy null_ip h = null_ip-IsBlockedBy
  blocked_by-IsBlockedBy nxdomain h = nodata-IsBlockedBy rcode_name_error
  blocked_by-IsBlockedBy refused h = nodata-IsBlockedBy rcode_refused

  -- Where the custom addresses are of their families, the constructor makes a response to a blocked
  -- request without an error. It has the request's identifier and question, the response code of the
  -- mode that is given, or of the constructor's where none is, and as answers exactly the records of
  -- the addresses that the mode has for the question's type.
  pub new_blocked_resp-IsBlockedBy :
      (mode : Option BlockingMode)
      → IsFamilies (used_mode c mode)
      → (m : Msg) × (new_blocked_resp c req mode ≡ some m)
        × (m.id ≡ req.id)
        × (m.question ≡ req.question)
        × (m.rcode ≡ rcode_of (used_mode c mode))
        × (m.answers ≡ address_rrs c req (addresses (used_mode c mode) req.question.q_type))
  unfolding new_blocked_resp mode_or
  new_blocked_resp-IsBlockedBy none h = blocked_by-IsBlockedBy c.blocking_mode h
  new_blocked_resp-IsBlockedBy (some mode) h = blocked_by-IsBlockedBy mode h
