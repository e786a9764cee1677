-- ===== src/ProfileDb/Moved.antt =====
-- internal/profiledb/default.go: a device that a sync moves to another profile, and the link from
-- its human-readable ID in the old profile.
use ad_guard_dns.Base.{◌≡◌, ◌≢◌, true, String, [], ◌∷◌, some, none, string_eq, arith, ==_iff}
use ad_guard_dns.Base.Map.{lookup, lookup-insert}
use ad_guard_dns.Agd.{DeviceSets, Profile, Device}
use ad_guard_dns.ProfileDb.{
  Default, key_eq, set_device, set_devices, set_profiles, set_profile, set_profile_loop,
  apply_changes, set_profile_certs, store_profile,
}
use ad_guard_dns.ProfileDb.Lookup.{found, profile_by_device_id, profile_by_human_id}
use ad_guard_dns.ProfileDb.Keeps.{lookup-attach_all, set_profile_certs-SameMaps}

module _ ⦃S : DeviceSets⦄ where
  open S use {has, elements, contains-elements}

  module _ (db : Default) (p : Profile) (d : Device) (listed : has p.device_ids d.id ≡ true) where
    synced : Default
    synced = set_profiles db (p ∷ []) (d ∷ []) []

    lookup-owner : lookup d.id synced.device_id_to_profile_id ≡ some p.id
    unfolding synced set_profiles set_profile_loop set_profile set_devices set_device apply_changes
        lookup
    lookup-owner = ground (
      arith,
      lookup-attach_all p.id (elements p.device_ids) db.device_id_to_profile_id d.id,
      contains-elements p.device_ids d.id,
      set_profile_certs-SameMaps (store_profile db p) p,
    )

    lookup-stored : lookup p.id synced.profiles ≡ some p
    unfolding synced set_profiles set_profile_loop set_profile set_devices set_device apply_changes
        lookup
    lookup-stored = ground (
      arith,
      lookup-insert p.id p.id p db.profiles,
      ==_iff p.id p.id,
      set_profile_certs-SameMaps (store_profile db p) p,
    )

    lookup-recorded : lookup d.id synced.devices ≡ some d
    unfolding synced set_profiles set_profile_loop set_profile set_devices set_device
    lookup-recorded =
        ground (arith, lookup-insert d.id d.id d (set_profile db [] p).devices, ==_iff d.id d.id)

    -- A sync of one profile that is not a full one, with a device that the profile lists: then a
    -- lookup by the ID of the device finds the two.
    profile_by_device_id-set_profiles :
        profile_by_device_id (set_profiles db (p ∷ []) (d ∷ []) []) d.id ≡ (found p d, [])
    unfolding profile_by_device_id synced
    profile_by_device_id-set_profiles = ground (arith, lookup-owner, lookup-stored, lookup-recorded)

    -- A device that is moved from the profile `old` keeps its link from the human-readable ID in
    -- `old`: a lookup there finds the device with its new profile, which is not the one asked for.
    pub moved_device-found :
        (old : String)
        → old ≢ p.id
        → lookup old db.profiles ≢ none
        → lookup (record { lower = d.human_id_lower; profile = old }) db.human_id_to_device_id
          ≡ some d.id
        → (profile_by_human_id (set_profiles db (p ∷ []) (d ∷ []) []) old d.human_id_lower).0
          ≡ found p d
    unfolding profile_by_human_id synced set_profiles set_profile_loop set_profile set_devices
        set_device apply_changes lookup set_profile_certs
    moved_device-found old ne stored linked = ground (
      arith,
      profile_by_device_id-set_profiles,
      lookup-owner,
      lookup-insert p.id old p db.profiles,
      lookup-insert (record { lower = d.human_id_lower; profile = p.id })
          (record { lower = d.human_id_lower; profile = old }) d.id db.human_id_to_device_id,
      ==_iff d.human_id_lower d.human_id_lower,
      ==_iff p.id old,
    )
