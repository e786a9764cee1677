-- ===== src/ProfileDb/Partial.antt =====
-- internal/profiledb/default.go: the device IDs of a profile that is updated partially.
use ad_guard_dns.Base.{
  ◌≡◌, refl, true, not, ◌&&◌, ◌||◌, String, List, [], ◌∷◌, some, none, string_eq, arith,
  if◌then◌else◌, contains,
}
use ad_guard_dns.Base.Map.{lookup, delete, lookup-delete}
use ad_guard_dns.Agd.{DeviceSets, Profile}
use ad_guard_dns.ProfileDb.{Default, DeviceChange, apply_changes, delete_devices}

module _ ⦃S : DeviceSets⦄ where
  open S use {has, union, remove, has-union, has-remove}

  has-delete_devices :
      (ds : List String) (p : Profile) (db : Default) (x : String)
      → has (delete_devices ds p db).0.device_ids x ≡ has p.device_ids x && not (contains ds x)
  unfolding delete_devices
  has-delete_devices [] p db x = ground arith
  has-delete_devices (d ∷ ds) p db x = ground (
    arith,
    has-delete_devices ds (record p { device_ids = remove d p.device_ids })
        (record db { device_id_to_profile_id = delete d db.device_id_to_profile_id }) x,
    has-remove p.device_ids x d,
  )

  owners-delete_devices :
      (ds : List String) (p : Profile) (db : Default) (x : String)
      → lookup x (delete_devices ds p db).1.device_id_to_profile_id
        ≡ (if contains ds x then none else lookup x db.device_id_to_profile_id)
  unfolding delete_devices
  owners-delete_devices [] p db x = refl
  owners-delete_devices (d ∷ ds) p db x = ground (
    arith,
    owners-delete_devices ds (record p { device_ids = remove d p.device_ids })
        (record db { device_id_to_profile_id = delete d db.device_id_to_profile_id }) x,
    lookup-delete d x db.device_id_to_profile_id,
  )

  -- After a partial update of a stored profile, the profile has just the devices of the update and
  -- those it had before, less the deleted ones; and just the deleted ones have lost their owner.
  pub has-apply_changes :
      (db : Default) (p prev : Profile) (chg : DeviceChange) (x : String)
      → chg.is_partial ≡ true
      → lookup p.id db.profiles ≡ some prev
      → let (p', db') = apply_changes db p (some chg) in
        (has p'.device_ids x
          ≡ (has p.device_ids x || has prev.device_ids x)
            && not (contains chg.deleted_device_ids x))
        × (lookup x db'.device_id_to_profile_id ≡ (
            if contains chg.deleted_device_ids x
            then none
            else lookup x db.device_id_to_profile_id))
  unfolding apply_changes
  has-apply_changes db p prev chg x h e =
      let merged = record p { device_ids = union p.device_ids prev.device_ids } in
      ground (
        arith,
        has-delete_devices chg.deleted_device_ids merged db x,
        owners-delete_devices chg.deleted_device_ids merged db x,
        has-union p.device_ids prev.device_ids x,
      )
