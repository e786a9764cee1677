-- ===== src/ProfileDb/Examples.antt =====
-- internal/profiledb/default.go: runs of the database on a profile with one device, and the
-- theorems at them.
use ad_guard_dns.Base.{
  ◌≡◌, ◌≢◌, ◌↔◌, ◌+◌, ◌≤◌, refl, true, ◌&&◌, ◌||◌, not, String, [], ◌∷◌, some, none, contains,
  arith, if◌then◌else◌, string_eq, ==_iff,
}
use ad_guard_dns.Base.Map.{lookup, insert}
use ad_guard_dns.Net.{v4, invalid, addr_eq}
use ad_guard_dns.ProfileDb.{
  Default, delete_all_well_known_paths, set_device, set_profile_full_loop, set_profile_full,
  set_profile_certs, clear_maps, attach_all, other, key_eq, set_profiles, set_profiles_full,
  set_devices, apply_changes, DeviceChange,
}
use ad_guard_dns.ProfileDb.Lookup.{
  found, profile_by_device_id, profile_by_dedicated_ip, profile_by_human_id, profile_by_linked_ip,
  run_tasks,
}
use ad_guard_dns.ProfileDb.Refresh.{
  Outside, fetch_error, response, ProfilesResponse, needs_full_sync, refresh_full,
}
use ad_guard_dns.ProfileDb.FullSync.{by_response, profile_by_device_id-set_profiles_full}
use ad_guard_dns.ProfileDb.Sound.{
  Attached, profile_by_device_id-Attached, profile_by_dedicated_ip-Attached,
  profile_by_linked_ip-Attached, profile_by_human_id-Attached,
}
use ad_guard_dns.ProfileDb.Cleanup.{late_cleanup-unlinks}
use ad_guard_dns.ProfileDb.Moved.{moved_device-found}
use ad_guard_dns.ProfileDb.Partial.{has-apply_changes}
use ad_guard_dns.ProfileDb.Outcome.{needs_full_sync-answered}
use ad_guard_dns.Samples.{list_sets, phone, home, office, empty_db, synced_db}

-- a full synchronisation gives the sample
full_sync_run :
    set_profiles_full empty_db (home ∷ []) (phone ∷ [])
    ≡ record synced_db { cert_calls = delete_all_well_known_paths ∷ [] }
unfolding set_profiles_full insert set_devices set_device set_profile_full_loop lookup
    set_profile_full set_profile_certs clear_maps attach_all
full_sync_run = refl

profile_by_device_id-set_profiles_full_example :
    (profile_by_device_id (set_profiles_full synced_db (office ∷ []) (phone ∷ [])) "dev1234").0
    ≡ by_response "dev1234" (office ∷ []) (phone ∷ [])
profile_by_device_id-set_profiles_full_example =
    profile_by_device_id-set_profiles_full synced_db (office ∷ []) (phone ∷ []) "dev1234"

profile_by_device_id-Attached_example : Attached synced_db "dev1234" home phone
unfolding profile_by_device_id lookup
profile_by_device_id-Attached_example =
    profile_by_device_id-Attached synced_db home phone "dev1234" refl

profile_by_dedicated_ip-Attached_example :
    (id : String) × (lookup (v4 7) synced_db.dedicated_ip_to_device_id ≡ some id)
    × Attached synced_db id home phone
    × (contains phone.dedicated_ips (v4 7) ≡ true)
unfolding profile_by_dedicated_ip lookup profile_by_device_id
profile_by_dedicated_ip-Attached_example =
    profile_by_dedicated_ip-Attached synced_db home phone (v4 7) refl

profile_by_linked_ip-Attached_example :
    (id : String) × (lookup (v4 9) synced_db.linked_ip_to_device_id ≡ some id)
    × Attached synced_db id home phone
    × (phone.linked_ip ≡ v4 9)
    × (v4 9 ≢ invalid)
unfolding profile_by_linked_ip lookup profile_by_device_id
profile_by_linked_ip-Attached_example =
    profile_by_linked_ip-Attached synced_db home phone (v4 9) refl

profile_by_human_id-Attached_example :
    (id : String) × (lookup
        (record { lower = "my-phone"; profile = "prof1234" })
        synced_db.human_id_to_device_id
      ≡ some id)
    × Attached synced_db id home phone
    × (phone.human_id_lower ≡ "my-phone")
    × (lookup "prof1234" synced_db.profiles ≢ none)
unfolding profile_by_human_id lookup profile_by_device_id
profile_by_human_id-Attached_example =
    profile_by_human_id-Attached synced_db home phone "prof1234" "my-phone" refl

-- the phone without its dedicated address: the link is stale
abbrev stale_db : Default
stale_db = record synced_db { devices = ("dev1234", record phone { dedicated_ips = [] }) ∷ [] }

late_cleanup-unlinks_example :
    let synced = set_devices stale_db (phone ∷ []) in
    (lookup (v4 7) synced.dedicated_ip_to_device_id ≡ some phone.id)
    × (lookup
          (v4 7)
          (run_tasks (profile_by_dedicated_ip stale_db (v4 7)).1 synced).dedicated_ip_to_device_id
        ≡ none)
unfolding profile_by_dedicated_ip lookup profile_by_device_id
late_cleanup-unlinks_example = late_cleanup-unlinks stale_db (v4 7) phone "dev1234" refl refl refl

different : home.id ≢ office.id
different = ground (arith, ==_iff home.id office.id)

moved_device-found_example :
    (profile_by_human_id
      (set_profiles synced_db (office ∷ []) (phone ∷ []) [])
      "prof1234"
      "my-phone").0
    ≡ found office phone
unfolding lookup
moved_device-found_example =
    moved_device-found synced_db office phone refl "prof1234" different (λ p. ground arith) refl

abbrev change : DeviceChange
change = record { deleted_device_ids = "dev1234" ∷ []; is_partial = true }

has-apply_changes_example :
    let (p', db') =
      apply_changes synced_db (record home { device_ids = "dev9999" ∷ [] }) (some change) in
    (contains {K = String} p'.device_ids "dev1234" ≡ (
      (contains {K = String} ("dev9999" ∷ []) "dev1234"
        || contains {K = String} home.device_ids "dev1234")
      && not (contains change.deleted_device_ids "dev1234")))
    × (lookup "dev1234" db'.device_id_to_profile_id ≡ (
        if contains change.deleted_device_ids "dev1234"
        then none
        else lookup "dev1234" synced_db.device_id_to_profile_id))
unfolding lookup
has-apply_changes_example =
    has-apply_changes synced_db (record home { device_ids = "dev9999" ∷ [] }) home change "dev1234"
      refl refl

abbrev down : Outside
down = record { now = 5000; storage = λ t. fetch_error (other "unavailable"); store_error = none }

abbrev answer : ProfilesResponse
answer = record {
  sync_time = 4999;
  device_changes = [];
  profiles = office ∷ [];
  devices = phone ∷ [];
}

abbrev up : Outside
up = record { now = 5000; storage = λ t. response answer; store_error = none }

needs_full_sync-answered_example :
    ((needs_full_sync (refresh_full up synced_db).1 8600 ≡ true) ↔ (5000 + 3600 ≤ 8600))
    × ((refresh_full up synced_db).1.sync_time ≡ 4999)
needs_full_sync-answered_example = needs_full_sync-answered up synced_db answer 8600 refl
