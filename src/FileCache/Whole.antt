-- ===== src/FileCache/Whole.antt =====
-- internal/profiledb/filecacheopb: what comes back of a whole cache that is stored and loaded.
use ad_guard_dns.Base.{
  ℕ, ◌≡◌, Bool, String, List, [], ◌∷◌, map, All, eqb, if◌then◌else◌, Bool-cases, inl, inr,
}
use ad_guard_dns.Agd.{DeviceSets, Device, Profile}
use ad_guard_dns.ProfileDb.Refresh.{FileCache}
use ad_guard_dns.FileCache.{WellKnown, ok, err, bad_version, ◌>>=◌, for_each}
use ad_guard_dns.FileCache.Encode.{
  string_leb, insert_sorted, sort_by, device_to_protobuf, devices_to_protobuf, profile_to_protobuf,
  profiles_to_protobuf, file_cache_to_protobuf,
}
use ad_guard_dns.FileCache.Decode.{
  device_to_internal, devices_from_protobuf, profile_to_internal, profiles_to_internal,
  file_cache_to_internal, load_message, file_cache_version,
}
use ad_guard_dns.FileCache.Parts.{for_each-map, for_each-for_each, IsDevice, device_round}
use ad_guard_dns.FileCache.RoundTrip.{
  >>=-ok, IsStorable, reloaded, profile_to_internal-profile_to_protobuf,
}

module _ {ℓ κ} {A : Type ℓ} (key : A → String) (P : A → Type κ) where
  All-insert_sorted : (x : A) (xs : List A) → P x → All P xs → All P (insert_sorted key x xs)
  unfolding insert_sorted
  All-insert_sorted x [] p h = (p, tt)
  All-insert_sorted x (y ∷ ys) p h = elim (Bool-cases (string_leb (key x) (key y))) [
    | inl e ↦ rw e (p, h)
    | inr e ↦ rw e (h.0, All-insert_sorted x ys p h.1)
  ]

  All-sort_by : (xs : List A) → All P xs → All P (sort_by key xs)
  unfolding sort_by
  All-sort_by [] h = tt
  All-sort_by (x ∷ xs) h = All-insert_sorted x (sort_by key xs) h.0 (All-sort_by xs h.1)

module _ ⦃W : WellKnown⦄ ⦃S : DeviceSets⦄ where
  open W use {as_time-new}

  -- the cache with the profiles and devices sorted by their IDs
  abbrev pub reloaded_cache : ℕ → List Profile → List Device → FileCache
  reloaded_cache t profiles devices = record {
    sync_time = t;
    profiles = map reloaded (sort_by (λ p. p.id) profiles);
    devices = sort_by (λ d. d.id) devices;
  }

  module _ (known : String → Bool) (est : ℕ) (compare_hash : List ℕ → String → Bool) where
    -- A cache of profiles and devices that the database may hold is stored without a panic. What is
    -- loaded from it, where it has the version of the program, is the time, the profiles and the
    -- devices in the order of their IDs, each profile as it is reloaded; and where it has another
    -- version, the error of that.
    pub load_message-file_cache_to_protobuf :
        (t version : ℕ) (profiles : List Profile) (devices : List Device)
        → All (IsStorable known est) profiles
        → All (IsDevice compare_hash) devices
        → (file_cache_to_protobuf t profiles devices version
            >>= load_message known est compare_hash)
          ≡ (if eqb version file_cache_version
              then ok (reloaded_cache t profiles devices)
              else err bad_version)
    unfolding file_cache_to_protobuf profiles_to_protobuf load_message file_cache_to_internal
        profiles_to_internal devices_to_protobuf devices_from_protobuf
    load_message-file_cache_to_protobuf t version profiles devices v w =
        let sorted = sort_by {A = Profile} (λ p. p.id) profiles in
        let e =
          for_each-for_each (IsStorable known est) profile_to_protobuf
            (profile_to_internal known est) reloaded
            (profile_to_internal-profile_to_protobuf known est) sorted
            (All-sort_by (λ p. p.id) (IsStorable known est) profiles v) in
        let (pbs, p, q) = >>=-ok (for_each profile_to_protobuf sorted) _ _ e in
        let d =
          for_each-map (IsDevice compare_hash) (device_to_internal compare_hash) device_to_protobuf
            (device_round compare_hash) (sort_by (λ d. d.id) devices)
            (All-sort_by (λ d. d.id) (IsDevice compare_hash) devices w) in
        rw p (elim (Bool-cases (eqb version 19)) [
          | inl same ↦ rw (same, q, d, as_time-new t)
          | inr differ ↦ rw differ
        ])
