-- ===== src/ProfileDb/Lookup.antt =====
-- internal/profiledb/default.go: the lookups of the database, the goroutines that they start to
-- drop stale links, and the creation of automatic devices.
use ad_guard_dns.Base.{
  Bool, not, ◌&&◌, String, List, [], ◌∷◌, ◌++◌, Option, none, some, ◌==◌, string_eq, if◌then◌else◌,
  contains,
}
use ad_guard_dns.Base.Map.{lookup, delete}
use ad_guard_dns.Net.{Addr, invalid, addr_eq}
use ad_guard_dns.Agd.{DeviceSets, Profile, Device}
use ad_guard_dns.ProfileDb.{
  Default, DbError, device_not_found, profile_not_found, HumanIdKey, key_eq, set_devices,
}

-- A goroutine started by a lookup. It runs later, under the write lock.
pub data Task : Type 0 where
  remove_device : String → Task
  remove_dedicated_ip : Addr → Task
  remove_human_id : HumanIdKey → Task
  remove_linked_ip : Addr → Task

module _ ⦃S : DeviceSets⦄ where
  open S use {has}

  pub data Found : Type 0 where
    found : Profile → Device → Found
    failed : DbError → Found

  -- The result of a lookup, and the goroutines that it has started.
  abbrev pub Lookup : Type 0
  Lookup = Found × List Task

  unfoldable pub run_task : Task → Default → Default
  run_task (remove_device id) db = record db {
    device_id_to_profile_id = delete id db.device_id_to_profile_id;
  }
  run_task (remove_dedicated_ip ip) db = record db {
    dedicated_ip_to_device_id = delete ip db.dedicated_ip_to_device_id;
  }
  run_task (remove_human_id k) db = record db {
    human_id_to_device_id = delete k db.human_id_to_device_id;
  }
  run_task (remove_linked_ip ip) db = record db {
    linked_ip_to_device_id = delete ip db.linked_ip_to_device_id;
  }

  unfoldable pub run_tasks : List Task → Default → Default
  run_tasks [] db = db
  run_tasks (t ∷ ts) db = run_tasks ts (run_task t db)

  -- the recheck of the devices in the profile record
  recheck : String → Profile → Option Device → Lookup
  recheck id p (some d) = (found p d, [])
  recheck id p none =
      (failed device_not_found, if p.auto_devices_enabled then [] else remove_device id ∷ [])

  in_profile : Default → String → Option Profile → Lookup
  unfolding recheck
  in_profile db id none = (failed profile_not_found, remove_device id ∷ [])
  in_profile db id (some p) =
      recheck id p (if has p.device_ids id then lookup id db.devices else none)

  unfoldable pub by_profile_id : Default → String → Option String → Lookup
  unfolding in_profile
  by_profile_id db id none = (failed device_not_found, [])
  by_profile_id db id (some prof_id) = in_profile db id (lookup prof_id db.profiles)

  unfoldable pub profile_by_device_id : Default → String → Lookup
  unfolding by_profile_id
  profile_by_device_id db id = by_profile_id db id (lookup id db.device_id_to_profile_id)

  -- The shared shape of the other lookups: `is_current` rechecks the device that the link leads
  -- to, and `drop` is the goroutine for a link that is stale.
  check_link : (Device → Bool) → (Device → List Task) → List Task → Lookup → Lookup
  check_link is_current stale drop (found p d, ts) =
      if is_current d then (found p d, ts) else (failed device_not_found, ts ++ stale d)
  check_link is_current stale drop (failed device_not_found, ts) =
      (failed device_not_found, ts ++ drop)
  check_link is_current stale drop (failed e, ts) = (failed e, ts)

  by_dedicated : Default → Addr → Option String → Lookup
  unfolding check_link
  by_dedicated db ip none = (failed device_not_found, [])
  by_dedicated db ip (some id) =
      let drop : List Task = remove_dedicated_ip ip ∷ [] in
      check_link (λ d. contains d.dedicated_ips ip) (λ _. drop) drop (profile_by_device_id db id)

  unfoldable pub profile_by_dedicated_ip : Default → Addr → Lookup
  unfolding by_dedicated
  profile_by_dedicated_ip db ip = by_dedicated db ip (lookup ip db.dedicated_ip_to_device_id)

  by_human_key : Default → HumanIdKey → Option String → Lookup
  unfolding check_link
  by_human_key db k none = (failed device_not_found, [])
  by_human_key db k (some id) =
      let drop : List Task = remove_human_id k ∷ [] in
      check_link (λ d. k.lower == d.human_id_lower) (λ _. drop) drop (profile_by_device_id db id)

  in_known_profile : Default → HumanIdKey → Option Profile → Lookup
  unfolding by_human_key
  in_known_profile db k none = (failed profile_not_found, [])
  in_known_profile db k (some _) = by_human_key db k (lookup k db.human_id_to_device_id)

  unfoldable pub profile_by_human_id : Default → String → String → Lookup
  unfolding in_known_profile
  profile_by_human_id db id human_id =
      in_known_profile db (record { lower = human_id; profile = id }) (lookup id db.profiles)

  -- A device without a linked address leaves the link in place.
  by_linked : Default → Addr → Option String → Lookup
  unfolding check_link
  by_linked db ip none = (failed device_not_found, [])
  by_linked db ip (some id) =
      let drop : List Task = remove_linked_ip ip ∷ [] in
      check_link (λ d. not (d.linked_ip == invalid) && d.linked_ip == ip)
        (λ d. if d.linked_ip == invalid then [] else drop) drop (profile_by_device_id db id)

  unfoldable pub profile_by_linked_ip : Default → Addr → Lookup
  unfolding by_linked
  profile_by_linked_ip db ip = by_linked db ip (lookup ip db.linked_ip_to_device_id)

  pub data Created : Type 0 where
    created : Device → Created
    refused : DbError → Created

  create_in : Default → Option Profile → Created → Found × Default
  create_in db none resp = (failed profile_not_found, db)
  create_in db (some p) (created d) =
      if p.auto_devices_enabled
      then (found p d, set_devices db (d ∷ []))
      else (failed profile_not_found, db)
  create_in db (some p) (refused e) =
      (failed (if p.auto_devices_enabled then e else profile_not_found), db)

  -- `resp` is what the storage answers, if it is asked.
  unfoldable pub create_auto_device : Default → String → Created → Found × Default
  unfolding create_in
  create_auto_device db id resp = create_in db (lookup id db.profiles) resp
