-- ===== src/FileCache/Examples.antt =====
-- internal/profiledb/filecacheopb: the theorems at one profile with one device.
use ad_guard_dns.Base.{
  ℕ, ◌≡◌, refl, Bool, false, String, List, [], ◌∷◌, Option, some, none, ◌==◌, string_eq, eqb, arith,
  if◌then◌else◌,
}
use ad_guard_dns.Agd.Ids.{new_account_id_from_string, parse_digits, new_account_id}
use ad_guard_dns.Schedule.{load_location}
use ad_guard_dns.FileCache.{WellKnown, ok, err, bad_version, ◌>>=◌}
use ad_guard_dns.FileCache.Encode.{profile_to_protobuf, file_cache_to_protobuf}
use ad_guard_dns.FileCache.Decode.{profile_to_internal, load_message, file_cache_version}
use ad_guard_dns.FileCache.Parts.{IsDevice}
use ad_guard_dns.FileCache.RoundTrip.{IsStorable, reloaded, profile_to_internal-profile_to_protobuf}
use ad_guard_dns.FileCache.Whole.{reloaded_cache, load_message-file_cache_to_protobuf}
use ad_guard_dns.Samples.{list_sets, phone, home}

account_id_from_text : new_account_id_from_string "+123" ≡ some 123
unfolding new_account_id_from_string parse_digits new_account_id
account_id_from_text = refl

abbrev value_or_zero : Option ℕ → ℕ
value_or_zero none = 0
value_or_zero (some n) = n

instance abbrev plain_times : WellKnown
plain_times = record {
  Timestamp = ℕ;
  Duration = ℕ;
  new_timestamp = λ t. t;
  as_time = value_or_zero;
  new_duration = λ d. d;
  as_duration = value_or_zero;
  as_time-new = λ t. refl;
  as_duration-new = λ d. refl;
}

abbrev no_zones : String → Bool
no_zones name = false

abbrev one_password : List ℕ → String → Bool
one_password hash w = w == "secret"

home-IsStorable : IsStorable no_zones 100 home
unfolding load_location
home-IsStorable = record {
  account = omega arith;
  domains = tt;
  filters = (tt, (refl, tt, omega arith, tt, tt, tt, omega arith, tt));
  access = ((omega arith, tt), tt, refl);
  mode = ((omega arith, tt), tt);
  adult_mode = tt;
  safe_browsing_mode = tt;
  limiter = tt;
}

phone-IsDevice : IsDevice one_password phone
phone-IsDevice = (refl, omega arith, (omega arith, tt))

profile_to_internal-profile_to_protobuf_example :
    (profile_to_protobuf home >>= profile_to_internal no_zones 100) ≡ ok (reloaded home)
profile_to_internal-profile_to_protobuf_example =
    profile_to_internal-profile_to_protobuf no_zones 100 home home-IsStorable

load_message-file_cache_to_protobuf_example :
    (file_cache_to_protobuf 5 (home ∷ []) (phone ∷ []) 18
      >>= load_message no_zones 100 one_password)
    ≡ (if eqb 18 file_cache_version
        then ok (reloaded_cache 5 (home ∷ []) (phone ∷ []))
        else err bad_version)
load_message-file_cache_to_protobuf_example =
    load_message-file_cache_to_protobuf no_zones 100 one_password 5 18 (home ∷ []) (phone ∷ [])
      (home-IsStorable, tt) (phone-IsDevice, tt)
