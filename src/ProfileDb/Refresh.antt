-- ===== src/ProfileDb/Refresh.antt =====
-- internal/profiledb/default.go: the refreshes from the storage and the file cache.
use ad_guard_dns.Base.{
  ℕ, ◌+◌, Bool, true, false, String, List, [], ◌∷◌, ◌++◌, Option, none, some, leb, eqb,
  if◌then◌else◌, length, ◌||◌,
}
use ad_guard_dns.Base.Map.{Map}
use ad_guard_dns.Agd.{DeviceSets, Profile, Device}
use ad_guard_dns.ProfileDb.{
  Default, DbError, DeviceChange, failed_refresh, failed_full_refresh, set_profiles,
  set_profiles_full,
}

-- `syncTimeFull`
abbrev pub sync_time_full : ℕ
sync_time_full = 0

module _ ⦃S : DeviceSets⦄ where
  pub record ProfilesResponse : Type 0 where
    pub sync_time : ℕ
    pub device_changes : Map String DeviceChange
    pub profiles : List Profile
    pub devices : List Device

  pub data Fetched : Type 0 where
    response : ProfilesResponse → Fetched
    fetch_error : DbError → Fetched

  -- What the calls of a refresh return: the storage, asked with a synchronisation time, and the
  -- file cache. `now` is the clock, read as one time for the whole refresh.
  pub record Outside : Type 0 where
    pub now : ℕ
    pub storage : ℕ → Fetched
    pub store_error : Option DbError

  -- `now.Sub(t) >= ivl`, with nothing cut off at zero
  abbrev elapsed : ℕ → ℕ → ℕ → Bool
  elapsed now t ivl = leb (t + ivl) now

  unfoldable pub needs_full_sync : Default → ℕ → Bool
  needs_full_sync db now =
      if eqb db.last_full_sync_error 0
      then elapsed now db.last_full_sync db.full_sync_ivl
      else elapsed now db.last_full_sync_error db.full_sync_retry_ivl

  unfoldable pub request_sync_time : Default → Bool → ℕ
  request_sync_time db true = sync_time_full
  request_sync_time db false = db.sync_time

  stored : ℕ → Default → Option DbError → Option DbError × Default
  stored now db none = (none, record db { last_cache_sync = now })
  stored now db (some e) = (some e, db)

  -- `storeCache`: the error, and the state
  store_cache : Outside → Default → Option DbError × Default
  unfolding stored
  store_cache o db = stored o.now db o.store_error

  -- the deferred `errcoll.Collect` of a refresh that is not full
  report : Option DbError × Default → Option DbError × Default
  report (none, db) = (none, db)
  report (some e, db) = (some e, record db { collected = db.collected ++ failed_refresh e ∷ [] })

  report_full : Option DbError × Default → Option DbError × Default
  report_full (none, db) = (none, db)
  report_full (some e, db) =
      (some e, record db { collected = db.collected ++ failed_full_refresh e ∷ [] })

  full_sync : Outside → Default → Fetched → Option DbError × Default
  unfolding store_cache
  full_sync o db (fetch_error e) = (some e, record db { last_full_sync_error = o.now })
  full_sync o db (response r) =
      let db' = set_profiles_full (record db { sync_time = r.sync_time }) r.profiles r.devices in
      store_cache o (record db' { last_full_sync = o.now; last_full_sync_error = 0 })

  unfoldable pub refresh_full : Outside → Default → Option DbError × Default
  unfolding full_sync report_full request_sync_time
  refresh_full o db = report_full (full_sync o db (o.storage (request_sync_time db true)))

  partial_sync : Outside → Default → Fetched → Option DbError × Default
  unfolding store_cache
  partial_sync o db (fetch_error e) = (some e, db)
  partial_sync o db (response r) =
      let db' =
        set_profiles (record db { sync_time = r.sync_time }) r.profiles r.devices
          r.device_changes in
      if elapsed o.now db'.last_cache_sync db'.cache_ivl then store_cache o db' else (none, db')

  unfoldable pub refresh : Outside → Default → Option DbError × Default
  unfolding refresh_full partial_sync report request_sync_time
  refresh o db =
      if needs_full_sync db o.now
      then refresh_full o db
      else report (partial_sync o db (o.storage (request_sync_time db false)))

  pub record FileCache : Type 0 where
    pub sync_time : ℕ
    pub profiles : List Profile
    pub devices : List Device

  -- `cache.Load`: a cache of another version, another error, no cache, or the data
  pub data Loaded : Type 0 where
    version_error : Loaded
    load_error : DbError → Loaded
    no_cache : Loaded
    cached : FileCache → Loaded

  unfoldable pub load_file_cache : Loaded → Default → Option DbError × Default
  load_file_cache version_error db = (none, db)
  load_file_cache (load_error e) db = (some e, db)
  load_file_cache no_cache db = (none, db)
  load_file_cache (cached c) db =
      if eqb (length c.profiles) 0 || eqb (length c.devices) 0 then (none, db) else (
        none,
        record (set_profiles_full db c.profiles c.devices) {
          sync_time = c.sync_time;
          last_full_sync = c.sync_time;
          last_cache_sync = c.sync_time;
        },
      )
