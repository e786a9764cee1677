-- ===== src/ProfileDb/Times.antt =====
-- Setting profiles and devices leaves the times of the database and its intervals alone.
use ad_guard_dns.Base.{◌≡◌, List, [], ◌∷◌, arith}
use ad_guard_dns.Agd.{DeviceSets, Profile, Device}
use ad_guard_dns.ProfileDb.{
  Default, set_profile_certs, set_device, set_devices, clear_maps, set_profile_full,
  set_profile_full_loop, set_profiles_full,
}

module _ ⦃S : DeviceSets⦄ where
  pub record SameTimes (a b : Default) : Type 0 where
    pub sync_time : a.sync_time ≡ b.sync_time
    pub last_full_sync_error : a.last_full_sync_error ≡ b.last_full_sync_error
    pub full_sync_ivl : a.full_sync_ivl ≡ b.full_sync_ivl
    pub full_sync_retry_ivl : a.full_sync_retry_ivl ≡ b.full_sync_retry_ivl

  set_devices-SameTimes : (db : Default) (ds : List Device) → SameTimes (set_devices db ds) db
  unfolding set_devices set_device
  set_devices-SameTimes db [] = ground arith
  set_devices-SameTimes db (d ∷ ds) = ground (arith, set_devices-SameTimes (set_device db d) ds)

  set_profile_full-SameTimes : (db : Default) (p : Profile) → SameTimes (set_profile_full db p) db
  unfolding set_profile_full set_profile_certs
  set_profile_full-SameTimes db p = ground arith

  set_profile_full_loop-SameTimes :
      (db : Default) (ps : List Profile) → SameTimes (set_profile_full_loop db ps) db
  unfolding set_profile_full_loop
  set_profile_full_loop-SameTimes db [] = ground arith
  set_profile_full_loop-SameTimes db (p ∷ ps) = ground (
    arith,
    set_profile_full_loop-SameTimes (set_profile_full db p) ps,
    set_profile_full-SameTimes db p,
  )

  pub set_profiles_full-SameTimes :
      (db : Default) (ps : List Profile) (ds : List Device)
      → SameTimes (set_profiles_full db ps ds) db
  unfolding set_profiles_full clear_maps
  set_profiles_full-SameTimes db ps ds = ground (
    arith,
    set_devices-SameTimes (set_profile_full_loop (clear_maps db) ps) ds,
    set_profile_full_loop-SameTimes (clear_maps db) ps,
  )
