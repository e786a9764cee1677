-- ===== src/ProfileDb/Cleanup.antt =====
-- internal/profiledb/default.go: the goroutines that drop stale links.
use ad_guard_dns.Base.{
  ◌≡◌, true, String, List, [], ◌∷◌, ◌++◌, some, none, string_eq, arith, contains, ==_iff,
  Option-cases, inl, inr,
}
use ad_guard_dns.Base.Map.{lookup, lookup-delete}
use ad_guard_dns.Net.{Addr, addr_eq}
use ad_guard_dns.Agd.{DeviceSets, Profile, Device}
use ad_guard_dns.ProfileDb.{Default, device_not_found, key_eq, set_device, set_devices}
use ad_guard_dns.ProfileDb.Lookup.{
  Task, found, failed, run_task, run_tasks, profile_by_device_id, profile_by_dedicated_ip,
  remove_dedicated_ip,
}
use ad_guard_dns.ProfileDb.Keeps.{lookup-link_dedicated}

module _ ⦃S : DeviceSets⦄ where
  -- goroutines of other kinds leave the links from dedicated addresses alone, or drop some
  lookup-run_tasks-append :
      (ip : Addr) (ts : List Task) (db : Default)
      → lookup ip (run_tasks (ts ++ remove_dedicated_ip ip ∷ []) db).dedicated_ip_to_device_id
        ≡ none
  unfolding run_tasks run_task
  lookup-run_tasks-append ip [] db =
      ground (arith, ==_iff ip ip, lookup-delete ip ip db.dedicated_ip_to_device_id)
  lookup-run_tasks-append ip (t ∷ ts) db = lookup-run_tasks-append ip ts (run_task t db)

  module _ (db : Default) where
    -- Once the goroutines of a lookup by a dedicated address that found no device have run, there
    -- is no link from the address.
    lookup-run_tasks_dedicated :
        (ip : Addr)
        → (profile_by_dedicated_ip db ip).0 ≡ failed device_not_found
        → lookup ip (run_tasks (profile_by_dedicated_ip db ip).1 db).dedicated_ip_to_device_id
          ≡ none
    unfolding profile_by_dedicated_ip run_tasks run_task
    lookup-run_tasks_dedicated ip h = elim (Option-cases (lookup ip db.dedicated_ip_to_device_id)) [
      | inl e ↦ ground arith
      | inr (id, e) ↦ ground (arith, lookup-run_tasks-append ip (profile_by_device_id db id).1 db)
    ]

    -- The goroutines of a lookup by one device ID change no lookup by a device ID that succeeds.
    pub run_tasks-keeps_found :
        (id j : String) (p : Profile) (d : Device)
        → (profile_by_device_id db j).0 ≡ found p d
        → (profile_by_device_id (run_tasks (profile_by_device_id db id).1 db) j).0 ≡ found p d
    unfolding profile_by_device_id run_tasks run_task
    run_tasks-keeps_found id j p d h =
        ground (arith, ==_iff id j, lookup-delete id j db.device_id_to_profile_id)

  -- A sync between a lookup that found a stale link and the goroutine that drops it loses the link
  -- that the sync has just set, although the device has the address.
  pub late_cleanup-unlinks :
      (db : Default) (ip : Addr) (d : Device) (id : String)
      → lookup ip db.dedicated_ip_to_device_id ≡ some id
      → (profile_by_dedicated_ip db ip).0 ≡ failed device_not_found
      → contains d.dedicated_ips ip ≡ true
      → let synced = set_devices db (d ∷ []) in
        (lookup ip synced.dedicated_ip_to_device_id ≡ some d.id)
        × (lookup ip (run_tasks (profile_by_dedicated_ip db ip).1 synced).dedicated_ip_to_device_id
            ≡ none)
  unfolding profile_by_dedicated_ip set_devices set_device
  late_cleanup-unlinks db ip d id e h c = (
    ground (arith, lookup-link_dedicated d.id d.dedicated_ips db.dedicated_ip_to_device_id ip),
    ground (
      arith,
      lookup-run_tasks-append ip (profile_by_device_id db id).1 (set_devices db (d ∷ [])),
    ),
  )
