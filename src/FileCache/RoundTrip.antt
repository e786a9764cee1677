-- ===== src/FileCache/RoundTrip.antt =====
-- internal/profiledb/filecacheopb: what comes back of a profile that is stored and loaded.
use ad_guard_dns.Base.{
  ℕ, ◌^◌, ◌<◌, ◌≡◌, refl, Bool, false, String, List, [], ◌∷◌, map, Option, some, none, All,
  contains, string_eq, ◌||◌, arith, ◌==◌,
}
use ad_guard_dns.Settings.{BlockingMode}
use ad_guard_dns.Agd.{
  DeviceSets, CustomDomainState, current, pending, missing, CustomDomainConfig,
  AccountCustomDomains, Profile,
}
use ad_guard_dns.Agd.Ids.{new_account_id, new_account_id_from_string}
use ad_guard_dns.FileCache.{WellKnown, Outcome, ok, err, panicked, ◌>>=◌, for_each}
use ad_guard_dns.FileCache.Encode.{
  set_blocking_mode, set_adult_blocking_mode, set_safe_browsing_blocking_mode,
  custom_domain_configs_to_protobuf, custom_domains_to_protobuf, filter_config_to_protobuf,
  domain_config_to_protobuf, sort_by, insert_sorted, profile_to_protobuf,
}
use ad_guard_dns.FileCache.Decode.{
  mode_to_internal, custom_domain_config_to_internal, custom_domains_to_internal,
  account_id_from_protobuf, profile_to_internal,
}
use ad_guard_dns.FileCache.Parts.{
  for_each-for_each, IsMode, mode_round, IsFilters, filters_round, IsAccess, access_round,
  IsRatelimiter, ratelimiter_round,
}

-- inversion of a chain that succeeds
pub >>=-ok {ℓ κ} :
    {A : Type ℓ} {B : Type κ} (m : Outcome A) (f : A → Outcome B) (b : B)
    → (m >>= f) ≡ ok b
    → (a : A) × (m ≡ ok a) × (f a ≡ ok b)
>>=-ok (ok a) f b h = (a, refl, h)
>>=-ok (err e) f b h = cc
>>=-ok panicked f b h = cc

map_self {ℓ} : {A : Type ℓ} (xs : List A) → map (λ x. x) xs ≡ xs
map_self [] = refl
map_self (x ∷ xs) = rw (map_self xs)

account_round : (i : ℕ) → i < 2 ^ 31 → account_id_from_protobuf i "" ≡ i
unfolding account_id_from_protobuf new_account_id new_account_id_from_string
account_round i h = ground arith

contains-insert_sorted :
    (y x : String) (xs : List String)
    → contains (insert_sorted (λ s. s) y xs) x ≡ (y == x || contains xs x)
unfolding insert_sorted
contains-insert_sorted y x [] = refl
contains-insert_sorted y x (z ∷ zs) = ground (arith, contains-insert_sorted y x zs)

pub contains-sort_by :
    (xs : List String) (x : String) → contains (sort_by (λ s. s) xs) x ≡ contains xs x
unfolding sort_by
contains-sort_by [] x = refl
contains-sort_by (y ∷ ys) x =
    ground (arith, contains-insert_sorted y x (sort_by (λ s. s) ys), contains-sort_by ys x)

abbrev pub IsOptionalMode : Option BlockingMode → Type 0
IsOptionalMode none = Unit
IsOptionalMode (some m) = IsMode m

abbrev pub IsRequiredMode : Option BlockingMode → Type 0
IsRequiredMode none = ⊥
IsRequiredMode (some m) = IsMode m

required_round :
    (m : Option BlockingMode) → IsRequiredMode m → (set_blocking_mode m >>= mode_to_internal) ≡ ok m
unfolding set_blocking_mode
required_round none h = absurd h
required_round (some m) h = mode_round m h

adult_round :
    (m : Option BlockingMode)
    → IsOptionalMode m
    → (set_adult_blocking_mode m >>= mode_to_internal) ≡ ok m
unfolding set_adult_blocking_mode mode_to_internal
adult_round none h = refl
adult_round (some m) h = mode_round m h

safe_browsing_round :
    (m : Option BlockingMode)
    → IsOptionalMode m
    → (set_safe_browsing_blocking_mode m >>= mode_to_internal) ≡ ok m
unfolding set_safe_browsing_blocking_mode mode_to_internal
safe_browsing_round none h = refl
safe_browsing_round (some m) h = mode_round m h

abbrev pub IsState : CustomDomainState → Type 0
IsState missing = ⊥
IsState s = Unit

module _ ⦃W : WellKnown⦄ where
  open W use {as_time-new, as_duration-new}

  domain_round :
      (s : CustomDomainState) (ds : List String)
      → IsState s
      → (domain_config_to_protobuf (record { state = s; domains = ds })
          >>= custom_domain_config_to_internal)
        ≡ ok (record { state = s; domains = ds })
  unfolding domain_config_to_protobuf custom_domain_config_to_internal
  domain_round (current s) ds h = rw (as_time-new s.not_before, as_time-new s.not_after)
  domain_round (pending s) ds h = rw (as_time-new s.expire)
  domain_round missing ds h = absurd h

  abbrev pub IsDomains : AccountCustomDomains → Type 0
  IsDomains d = All (λ (c : CustomDomainConfig). IsState c.state) d.domains

  domains_round :
      (d : AccountCustomDomains)
      → IsDomains d
      → (custom_domains_to_protobuf d >>= λ pb. custom_domains_to_internal (some pb)) ≡ ok d
  unfolding custom_domains_to_protobuf custom_domains_to_internal custom_domain_configs_to_protobuf
  domains_round d h =
      let e =
        for_each-for_each (λ (c : CustomDomainConfig). IsState c.state) domain_config_to_protobuf
          custom_domain_config_to_internal (λ c. c) (λ c. domain_round c.state c.domains) d.domains
          h in
      let (pbs, p, q) = >>=-ok (for_each domain_config_to_protobuf d.domains) _ _ e in
      rw (p, q, map_self d.domains)

  module _ ⦃S : DeviceSets⦄ where
    open S use {of_list, elements, has, has-of_list, contains-elements}

    -- what the database holds of a profile: a blocking mode, addresses and networks in their ranges, a
    -- custom filter just where it is enabled, and what the other parts ask
    pub record IsStorable (known : String → Bool) (est : ℕ) (p : Profile) : Type 0 where
      pub account : p.account_id < 2 ^ 31
      pub domains : IsDomains p.custom_domains
      pub filters : IsFilters known p.filter_config
      pub access : IsAccess p.access
      pub mode : IsRequiredMode p.blocking_mode
      pub adult_mode : IsOptionalMode p.adult_blocking_mode
      pub safe_browsing_mode : IsOptionalMode p.safe_browsing_blocking_mode
      pub limiter : IsRatelimiter est p.ratelimiter

    -- the profile with its set of devices made anew, and without the stream flag of the query log
    abbrev pub reloaded : Profile → Profile
    reloaded p = record p {
      device_ids = of_list (sort_by (λ id. id) (elements p.device_ids));
      query_log_stream = false;
    }

    -- A profile that the database may hold is stored without a panic and loaded without an error, and
    -- what is loaded is the profile, its device IDs collected into a new set and its stream flag of
    -- the query log lost.
    pub profile_to_internal-profile_to_protobuf :
        (known : String → Bool) (est : ℕ) (p : Profile)
        → IsStorable known est p
        → (profile_to_protobuf p >>= profile_to_internal known est) ≡ ok (reloaded p)
    unfolding profile_to_protobuf profile_to_internal
    profile_to_internal-profile_to_protobuf known est p v =
        let (ds, d1, d2) =
          >>=-ok (custom_domains_to_protobuf p.custom_domains) _ _
            (domains_round p.custom_domains v.domains) in
        let (fs, f1, f2) =
          >>=-ok (filter_config_to_protobuf p.filter_config) _ _
            (filters_round known p.filter_config v.filters) in
        let (m, m1, m2) =
          >>=-ok (set_blocking_mode p.blocking_mode) _ _ (required_round p.blocking_mode v.mode) in
        let (a, a1, a2) =
          >>=-ok (set_adult_blocking_mode p.adult_blocking_mode) _ _
            (adult_round p.adult_blocking_mode v.adult_mode) in
        let (s, s1, s2) =
          >>=-ok (set_safe_browsing_blocking_mode p.safe_browsing_blocking_mode) _ _
            (safe_browsing_round p.safe_browsing_blocking_mode v.safe_browsing_mode) in
        rw (
          d1,
          f1,
          m1,
          a1,
          s1,
          a2,
          s2,
          m2,
          d2,
          f2,
          access_round p.access v.access,
          ratelimiter_round est p.ratelimiter v.limiter,
          account_round p.account_id v.account,
          as_duration-new p.filtered_response_ttl,
        )

    -- The set of device IDs that is loaded has the devices of the profile.
    pub has-reloaded :
        (p : Profile) (x : String) → has (reloaded p).device_ids x ≡ has p.device_ids x
    has-reloaded p x =
        rw (has-of_list, contains-sort_by (elements p.device_ids) x, contains-elements)
