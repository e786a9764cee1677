-- ===== src/FileCache/Parts.antt =====
-- internal/profiledb/filecacheopb: the round trips of the settings of a profile and a device.
use ad_guard_dns.Base.{
  ℕ, ◌^◌, ◌-◌, leb, ◌<◌, ◌≡◌, refl, Bool, true, false, String, List, [], ◌∷◌, map, Option, some,
  none, All, arith, if◌then◌else◌,
}
use ad_guard_dns.Net.{Addr, Prefix, invalid, v4, v6}
use ad_guard_dns.Net.Bytes.{
  IsAddr, IsPrefix, IsPrefixOf, marshal_binary, unmarshal-marshal, addr_from_slice-marshal,
}
use ad_guard_dns.Schedule.{DayInterval, ConfigSchedule, load_location}
use ad_guard_dns.Settings.{
  BlockingMode, custom_ip, nxdomain, null_ip, refused, ConfigClient, AccessProfile, empty_profile,
  default_profile, empty_blocker, shared_blocker, Ratelimiter, global_ratelimiter,
  default_ratelimiter, Authenticator, allow_authenticator, password_hash_bcrypt,
}
use ad_guard_dns.Agd.{Device}
use ad_guard_dns.FileCache.{Outcome, ok, err, panicked, ◌>>=◌, for_each}
use ad_guard_dns.FileCache.Encode.{
  cidr_range, prefixes_to_protobuf, ips_to_byte_slices, mode_to_protobuf, day_interval_to_protobuf,
  schedule_to_protobuf, filter_config_to_protobuf, bit_len, access_config, access_to_protobuf,
  ratelimit_config, ratelimiter_to_protobuf, auth_to_protobuf, device_to_protobuf,
}
use ad_guard_dns.FileCache.Decode.{
  byte_slices_to_ips, cidr_ranges_to_prefixes, mode_to_internal, day_interval_to_internal,
  filter_config_schedule_to_internal, config_client_to_internal, access_to_internal,
  rate_limiter_to_internal, auth_to_internal, device_to_internal,
}

-- A list that is encoded element by element is decoded if each of them is.
pub for_each-map {ℓ κ ι} :
    {A : Type ℓ} {B : Type κ} (P : A → Type ι) (f : B → Outcome A) (g : A → B)
    → ((x : A) → P x → f (g x) ≡ ok x)
    → (xs : List A) → All P xs
    → for_each f (map g xs) ≡ ok xs
unfolding for_each
for_each-map P f g q [] h = refl
for_each-map P f g q (x ∷ xs) h = rw (q x h.0, for_each-map P f g q xs h.1)

for_each-cons {ℓ κ} :
    {B : Type ℓ} {C : Type κ} (o : Outcome B) (rest : Outcome (List B)) (f : B → Outcome C) (c : C)
    (cs : List C)
    → (o >>= f) ≡ ok c
    → (rest >>= for_each f) ≡ ok cs
    → ((o >>= λ y. rest >>= λ ys. ok (y ∷ ys)) >>= for_each f) ≡ ok (c ∷ cs)
unfolding for_each
for_each-cons (ok y) (ok ys) f c cs p q = rw (p, q)
for_each-cons (ok y) (err e) f c cs p q = cc
for_each-cons (ok y) panicked f c cs p q = cc
for_each-cons (err e) rest f c cs p q = cc
for_each-cons panicked rest f c cs p q = cc

-- the same where the encoding may panic, and what is decoded is `h x`
pub for_each-for_each {ℓ κ ι μ} :
    {A : Type ℓ} {B : Type κ} {C : Type ι} (P : A → Type μ) (g : A → Outcome B) (f : B → Outcome C)
    (h : A → C)
    → ((x : A) → P x → (g x >>= f) ≡ ok (h x))
    → (xs : List A) → All P xs
    → (for_each g xs >>= for_each f) ≡ ok (map h xs)
unfolding for_each
for_each-for_each P g f h q [] p = refl
for_each-for_each P g f h q (x ∷ xs) p =
    for_each-cons (g x) (for_each g xs) f (h x) (map h xs) (q x p.0)
      (for_each-for_each P g f h q xs p.1)

ips_round :
    (ips : List Addr) → All IsAddr ips → byte_slices_to_ips (ips_to_byte_slices ips) ≡ ok ips
unfolding byte_slices_to_ips ips_to_byte_slices
ips_round ips h = for_each-map IsAddr _ marshal_binary (λ a p. rw (unmarshal-marshal a p)) ips h

bits_of_valid :
    (a : Addr) (n : ℕ) → IsPrefixOf a n → (if leb n (bit_len a) then n else 2 ^ 32 - 1) ≡ n
bits_of_valid invalid n h = absurd h
bits_of_valid (v4 a) n h = ground arith
bits_of_valid (v6 a) n h = ground arith

pub prefixes_round :
    (nets : List Prefix)
    → All IsPrefix nets
    → cidr_ranges_to_prefixes (prefixes_to_protobuf nets) ≡ ok nets
unfolding cidr_ranges_to_prefixes prefixes_to_protobuf
prefixes_round nets h =
    for_each-map IsPrefix _ cidr_range
      (λ p v. rw (addr_from_slice-marshal p v, bits_of_valid p.addr p.bits v)) nets h

abbrev pub IsMode : BlockingMode → Type 0
IsMode (custom_ip ips4 ips6) = All IsAddr ips4 × All IsAddr ips6
IsMode m = Unit

pub mode_round : (m : BlockingMode) → IsMode m → mode_to_internal (mode_to_protobuf m) ≡ ok (some m)
unfolding mode_to_internal mode_to_protobuf
mode_round (custom_ip ips4 ips6) h = rw (ips_round ips4 h.0, ips_round ips6 h.1)
mode_round nxdomain h = refl
mode_round null_ip h = refl
mode_round refused h = refl

abbrev pub IsInterval : Option DayInterval → Type 0
IsInterval none = Unit
IsInterval (some i) = (i.start < 2 ^ 16) × (i.stop < 2 ^ 16)

interval_round :
    (i : Option DayInterval)
    → IsInterval i
    → day_interval_to_internal (day_interval_to_protobuf i) ≡ i
unfolding day_interval_to_internal day_interval_to_protobuf
interval_round none h = refl
interval_round (some i) h = ground arith

-- a schedule whose time zone the system's database has
abbrev pub IsSchedule : (String → Bool) → Option ConfigSchedule → Type 0
IsSchedule known none = Unit
IsSchedule known (some s) =
    (load_location known s.time_zone.name ≡ some s.time_zone)
    × IsInterval s.week.sun
    × IsInterval s.week.mon
    × IsInterval s.week.tue
    × IsInterval s.week.wed
    × IsInterval s.week.thu
    × IsInterval s.week.fri
    × IsInterval s.week.sat

pub schedule_round :
    (known : String → Bool) (s : Option ConfigSchedule)
    → IsSchedule known s
    → filter_config_schedule_to_internal known (schedule_to_protobuf s) ≡ ok s
unfolding filter_config_schedule_to_internal schedule_to_protobuf
schedule_round known none h = refl
schedule_round known (some s) h = rw (
  h.0,
  interval_round s.week.sun h.1,
  interval_round s.week.mon h.2,
  interval_round s.week.tue h.3,
  interval_round s.week.wed h.4,
  interval_round s.week.thu h.5,
  interval_round s.week.fri h.6,
  interval_round s.week.sat h.7,
)

-- The custom filter is there just where it is enabled, and has a rule then.
abbrev pub IsCustom : Option (List String) → Bool → Type 0
IsCustom none false = Unit
IsCustom (some (r ∷ rs)) true = Unit
IsCustom f e = ⊥

abbrev pub IsFilters : (String → Bool) → ConfigClient → Type 0
IsFilters known c =
    IsCustom c.custom_filter.filter c.custom_filter.enabled
    × IsSchedule known c.parental.pause_schedule

custom_round :
    (known : String → Bool) (f : Option (List String)) (e : Bool) (c : ConfigClient)
    → IsCustom f e
    → IsSchedule known c.parental.pause_schedule
    → (filter_config_to_protobuf (record c { custom_filter = record { filter = f; enabled = e } })
        >>= λ pb. config_client_to_internal known (some pb))
      ≡ ok (record c { custom_filter = record { filter = f; enabled = e } })
unfolding filter_config_to_protobuf config_client_to_internal
custom_round known none false c h v = rw (schedule_round known c.parental.pause_schedule v)
custom_round known (some (r ∷ rs)) true c h v =
    rw (schedule_round known c.parental.pause_schedule v)
custom_round known none true c h v = absurd h
custom_round known (some []) e c h v = absurd h
custom_round known (some (r ∷ rs)) false c h v = absurd h

pub filters_round :
    (known : String → Bool) (c : ConfigClient)
    → IsFilters known c
    → (filter_config_to_protobuf c >>= λ pb. config_client_to_internal known (some pb)) ≡ ok c
filters_round known c h =
    custom_round known c.custom_filter.filter c.custom_filter.enabled c h.0 h.1

-- the access manager has valid networks, and the standard blocker where that is enabled
abbrev pub IsAccess : AccessProfile → Type 0
IsAccess empty_profile = Unit
IsAccess (default_profile p) =
    All IsPrefix p.allowed_nets
    × All IsPrefix p.blocked_nets
    × (p.standard ≡ (if p.standard_enabled then shared_blocker else empty_blocker))

pub access_round :
    (a : AccessProfile)
    → IsAccess a
    → access_to_internal (access_to_protobuf (access_config a)) ≡ ok a
unfolding access_to_internal access_to_protobuf access_config
access_round empty_profile h = refl
access_round (default_profile p) h =
    rw (prefixes_round p.allowed_nets h.0, prefixes_round p.blocked_nets h.1, ← h.2)

-- the limiter has valid subnets and was made with the size estimate of this start
abbrev pub IsRatelimiter : ℕ → Ratelimiter → Type 0
IsRatelimiter est global_ratelimiter = Unit
IsRatelimiter est (default_ratelimiter nets rps e) = All IsPrefix nets × (e ≡ est)

pub ratelimiter_round :
    (est : ℕ) (r : Ratelimiter)
    → IsRatelimiter est r
    → rate_limiter_to_internal est (ratelimiter_to_protobuf (ratelimit_config r)) ≡ ok r
unfolding rate_limiter_to_internal ratelimiter_to_protobuf ratelimit_config
ratelimiter_round est global_ratelimiter h = refl
ratelimiter_round est (default_ratelimiter nets rps e) h = rw (prefixes_round nets h.0, h.1)

-- The hash compares by bcrypt. Settings that are not enabled are the ones that the storage makes
-- where a device has none.
abbrev pub IsAuth : (List ℕ → String → Bool) → Authenticator → Bool → Bool → Type 0
IsAuth compare_hash (password_hash_bcrypt hash c) true only = c ≡ compare_hash hash
IsAuth compare_hash allow_authenticator true only = Unit
IsAuth compare_hash allow_authenticator false false = Unit
IsAuth compare_hash p e only = ⊥

auth_parts :
    (compare_hash : List ℕ → String → Bool) (p : Authenticator) (e only : Bool)
    → IsAuth compare_hash p e only
    → auth_to_internal compare_hash
        (auth_to_protobuf (record { enabled = e; doh_auth_only = only; password_hash = p }))
      ≡ record { enabled = e; doh_auth_only = only; password_hash = p }
unfolding auth_to_internal auth_to_protobuf
auth_parts compare_hash (password_hash_bcrypt hash c) true only h = rw h
auth_parts compare_hash allow_authenticator true only h = refl
auth_parts compare_hash allow_authenticator false false h = refl
auth_parts compare_hash (password_hash_bcrypt hash c) false only h = absurd h
auth_parts compare_hash allow_authenticator false true h = absurd h

abbrev pub IsDevice : (List ℕ → String → Bool) → Device → Type 0
IsDevice compare_hash d =
    IsAuth compare_hash d.auth.password_hash d.auth.enabled d.auth.doh_auth_only
    × IsAddr d.linked_ip
    × All IsAddr d.dedicated_ips

pub device_round :
    (compare_hash : List ℕ → String → Bool) (d : Device)
    → IsDevice compare_hash d
    → device_to_internal compare_hash (device_to_protobuf d) ≡ ok d
unfolding device_to_internal device_to_protobuf
device_round compare_hash d h = rw (
  unmarshal-marshal d.linked_ip h.1,
  ips_round d.dedicated_ips h.2,
  auth_parts compare_hash d.auth.password_hash d.auth.enabled d.auth.doh_auth_only h.0,
)
