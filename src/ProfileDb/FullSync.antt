-- ===== src/ProfileDb/FullSync.antt =====
-- internal/profiledb/default.go: after a full synchronisation the lookup by a device ID answers
-- what the response alone says, whatever the database held before.
use ad_guard_dns.Base.{
  ◌≡◌, refl, ◌∙◌, String, List, Option, none, some, ◌==◌, string_eq, if◌then◌else◌, arith,
  last_match, or_else,
}
use ad_guard_dns.Base.Map.{lookup}
use ad_guard_dns.Agd.{DeviceSets, Profile, Device}
use ad_guard_dns.ProfileDb.{
  Default, device_not_found, profile_not_found, set_profiles_full, clear_maps,
  set_profile_full_loop,
}
use ad_guard_dns.ProfileDb.Lookup.{Found, found, failed, profile_by_device_id, by_profile_id}
use ad_guard_dns.ProfileDb.Keeps.{
  profiles-set_devices, owners-set_devices, lookup-devices-set_devices,
  lookup-profiles-set_profile_full_loop, devices-set_profile_full_loop, id_of,
  lookup-owners-set_profile_full_loop,
}

module _ ⦃S : DeviceSets⦄ where
  open S use {has}

  answer : Profile → Option Device → Found
  answer p none = failed device_not_found
  answer p (some d) = found p d

  -- The device is answered with the last profile under the ID of the last profile that claims it,
  -- if that profile claims it too.
  claimed : String → List Device → Option Profile → Found
  unfolding answer
  claimed id ds none = failed profile_not_found
  claimed id ds (some p) =
      if has p.device_ids id
      then answer p (last_match (λ d. d.id == id) ds)
      else failed device_not_found

  owned : String → List Profile → List Device → Option Profile → Found
  unfolding claimed
  owned id ps ds none = failed device_not_found
  owned id ps ds (some q) = claimed id ds (last_match (λ p. p.id == q.id) ps)

  pub by_response : String → List Profile → List Device → Found
  unfolding owned
  by_response id ps ds = owned id ps ds (last_match (λ p. has p.device_ids id) ps)

  or_else-none {ℓ} : {A : Type ℓ} (x : Option A) → or_else x none ≡ x
  or_else-none none = refl
  or_else-none (some x) = refl

  module _ (db : Default) (ps : List Profile) (ds : List Device) where
    pub lookup-owner :
        (id : String)
        → lookup id (set_profiles_full db ps ds).device_id_to_profile_id
          ≡ id_of (last_match (λ p. has p.device_ids id) ps)
    unfolding set_profiles_full clear_maps lookup
    lookup-owner id =
        rw owners-set_devices
          (lookup-owners-set_profile_full_loop (clear_maps db) ps id ∙ or_else-none _)

    pub lookup-profile :
        (k : String)
        → lookup k (set_profiles_full db ps ds).profiles ≡ last_match (λ p. p.id == k) ps
    unfolding set_profiles_full clear_maps lookup
    lookup-profile k =
        rw profiles-set_devices
          (lookup-profiles-set_profile_full_loop (clear_maps db) ps k ∙ or_else-none _)

    pub lookup-device :
        (k : String)
        → lookup k (set_profiles_full db ps ds).devices ≡ last_match (λ d. d.id == k) ds
    unfolding set_profiles_full clear_maps lookup
    lookup-device k =
        lookup-devices-set_devices (set_profile_full_loop (clear_maps db) ps) ds k
        ∙ rw devices-set_profile_full_loop (or_else-none _)

    by_owner :
        (id : String) (o : Option Profile)
        → (by_profile_id (set_profiles_full db ps ds) id (id_of o)).0 ≡ owned id ps ds o
    unfolding by_profile_id owned
    by_owner id none = refl
    by_owner id (some q) = ground (arith, lookup-profile q.id, lookup-device id)

    -- After a full synchronisation the answer for a device ID is `by_response`: it is a function of
    -- the response alone, whatever the database held before.
    pub profile_by_device_id-set_profiles_full :
        (id : String)
        → (profile_by_device_id (set_profiles_full db ps ds) id).0 ≡ by_response id ps ds
    unfolding profile_by_device_id by_response
    profile_by_device_id-set_profiles_full id =
        rw (lookup-owner id) (by_owner id (last_match (λ p. has p.device_ids id) ps))
