-- ===== src/Messages/Answers.antt =====
-- internal/dnsmsg: the messages of the constructor are answers to the request.
use ad_guard_dns.Base.{
  ℕ, ◌≡◌, refl, Bool, true, false, ◌&&◌, ◌||◌, not, List, [], ◌∷◌, Option, some, none, eqb,
  if◌then◌else◌,
}
use ad_guard_dns.Net.{Addr, invalid}
use ad_guard_dns.Settings.{BlockingMode, custom_ip, nxdomain, null_ip, refused}
use ad_guard_dns.Messages.{
  Msg, Rr, Constructor, Opt, qtype_a, qtype_aaaa, rcode_success, rcode_name_error, rcode_refused,
  extended_error_code_filtered, add_ede, add_ede_for, new_resp, new_msg_a, new_msg_aaaa,
  new_blocked_resp_ip, new_blocked_null_ip_resp, new_blocked_resp_rcode, new_blocked_custom_ip_resp,
  new_blocked_resp, nodata, with_answers, filtered, blocked_by, mode_or, is_empty,
}

-- a message with the identifier and the question of a request
abbrev pub Answers : Msg → Msg → Type 0
Answers req m = (m.id ≡ req.id) × (m.question ≡ req.question)

abbrev pub IsAnswer : Msg → Option Msg → Type 0
IsAnswer req none = Unit
IsAnswer req (some m) = Answers req m

module _ {ℓ κ} {A : Type ℓ} (P : A → Type κ) where
  pub if-holds : (b : Bool) (x y : A) → P x → P y → P (if b then x else y)
  if-holds true x y p q = p
  if-holds false x y p q = q

module _ (c : Constructor) (req : Msg) where
  add_ede_for-Answers :
      (o : Option Opt) (n : ℕ) (m : Msg) → Answers req m → Answers req (add_ede_for c o n m)
  unfolding add_ede_for
  add_ede_for-Answers none n m h = h
  add_ede_for-Answers (some o) n m h = h

  add_ede-Answers : (n : ℕ) (m : Msg) → Answers req m → Answers req (add_ede c req n m)
  unfolding add_ede
  add_ede-Answers n m h =
      if-holds (Answers req) c.ede_enabled (add_ede_for c req.opt n m) m
        (add_ede_for-Answers req.opt n m h) h

  nodata-Answers : (rc : ℕ) → Answers req (nodata c req rc)
  unfolding nodata new_blocked_resp_rcode new_resp
  nodata-Answers rc =
      add_ede-Answers extended_error_code_filtered (record (new_resp req) { rcode = rc })
        (refl, refl)

  with_answers-IsAnswer : (rrs : Option (List Rr)) → IsAnswer req (with_answers req rrs)
  unfolding with_answers new_resp
  with_answers-IsAnswer none = tt
  with_answers-IsAnswer (some rrs) = (refl, refl)

  filtered-IsAnswer : (m : Option Msg) → IsAnswer req m → IsAnswer req (filtered c req m)
  unfolding filtered
  filtered-IsAnswer none h = tt
  filtered-IsAnswer (some m) h = add_ede-Answers extended_error_code_filtered m h

  a_or_aaaa-IsAnswer :
      (m n : Option Msg)
      → IsAnswer req m
      → IsAnswer req n
      → IsAnswer req (
          if eqb req.question.q_type qtype_a
          then m
          else if eqb req.question.q_type qtype_aaaa
          then n
          else none)
  a_or_aaaa-IsAnswer m n h i =
      let aaaa = eqb req.question.q_type qtype_aaaa in
      if-holds (IsAnswer req) (eqb req.question.q_type qtype_a) m (if aaaa then n else none) h
        (if-holds (IsAnswer req) aaaa n none i tt)

  new_blocked_resp_ip-IsAnswer : (ips : List Addr) → IsAnswer req (new_blocked_resp_ip c req ips)
  unfolding new_blocked_resp_ip new_msg_a new_msg_aaaa
  new_blocked_resp_ip-IsAnswer ips =
      a_or_aaaa-IsAnswer (new_msg_a c req ips) (new_msg_aaaa c req ips) (with_answers-IsAnswer _)
        (with_answers-IsAnswer _)

  null_ip-IsAnswer : IsAnswer req (new_blocked_null_ip_resp c req)
  unfolding new_blocked_null_ip_resp new_msg_a new_msg_aaaa
  null_ip-IsAnswer = filtered-IsAnswer _ (
      a_or_aaaa-IsAnswer (new_msg_a c req (invalid ∷ [])) (new_msg_aaaa c req (invalid ∷ []))
        (with_answers-IsAnswer _) (with_answers-IsAnswer _))

  custom_ip-IsAnswer :
      (ipv4 ipv6 : List Addr) → IsAnswer req (new_blocked_custom_ip_resp c req ipv4 ipv6)
  unfolding new_blocked_custom_ip_resp is_empty
  custom_ip-IsAnswer ipv4 ipv6 =
      let use6 = eqb req.question.q_type qtype_aaaa && not (is_empty ipv6) in
      let resp6 = new_blocked_resp_ip c req ipv6 in
      let empty = some (nodata c req rcode_success) in
      if-holds (IsAnswer req) (eqb req.question.q_type qtype_a && not (is_empty ipv4))
        (new_blocked_resp_ip c req ipv4) (if use6 then resp6 else empty)
        (new_blocked_resp_ip-IsAnswer ipv4)
        (if-holds (IsAnswer req) use6 resp6 empty (new_blocked_resp_ip-IsAnswer ipv6)
          (nodata-Answers rcode_success))

  blocked_by-IsAnswer : (mode : BlockingMode) → IsAnswer req (blocked_by c req mode)
  unfolding blocked_by
  blocked_by-IsAnswer (custom_ip ipv4 ipv6) = custom_ip-IsAnswer ipv4 ipv6
  blocked_by-IsAnswer null_ip =
      if-holds (IsAnswer req)
        (eqb req.question.q_type qtype_a || eqb req.question.q_type qtype_aaaa)
        (new_blocked_null_ip_resp c req) (some (nodata c req rcode_success)) null_ip-IsAnswer
        (nodata-Answers rcode_success)
  blocked_by-IsAnswer nxdomain = nodata-Answers rcode_name_error
  blocked_by-IsAnswer refused = nodata-Answers rcode_refused

  pub new_blocked_resp-IsAnswer :
      (mode : Option BlockingMode) → IsAnswer req (new_blocked_resp c req mode)
  unfolding new_blocked_resp
  new_blocked_resp-IsAnswer mode = blocked_by-IsAnswer (mode_or c.blocking_mode mode)
