-- ===== src/ProfileDb/Outcome.antt =====
-- internal/profiledb/default.go: what a refresh leaves behind when it fails, and when the next full
-- synchronisation is due.
use ad_guard_dns.Base.{ℕ, ◌+◌, ◌≤◌, ◌<◌, ◌≡◌, ◌↔◌, true, ◌∷◌, [], ◌++◌, some, arith, if◌then◌else◌}
use ad_guard_dns.Agd.{DeviceSets}
use ad_guard_dns.ProfileDb.{Default, DbError, failed_refresh, failed_full_refresh}
use ad_guard_dns.ProfileDb.Refresh.{
  Outside, fetch_error, response, ProfilesResponse, needs_full_sync, refresh, refresh_full,
  sync_time_full,
}
use ad_guard_dns.ProfileDb.Times.{set_profiles_full-SameTimes}

module _ ⦃S : DeviceSets⦄ where
  -- The maps and the synchronisation point.
  pub record SameData (a b : Default) : Type 0 where
    pub profiles : a.profiles ≡ b.profiles
    pub devices : a.devices ≡ b.devices
    pub dedicated : a.dedicated_ip_to_device_id ≡ b.dedicated_ip_to_device_id
    pub owners : a.device_id_to_profile_id ≡ b.device_id_to_profile_id
    pub humans : a.human_id_to_device_id ≡ b.human_id_to_device_id
    pub linked : a.linked_ip_to_device_id ≡ b.linked_ip_to_device_id
    pub sync_time : a.sync_time ≡ b.sync_time
    pub last_full_sync : a.last_full_sync ≡ b.last_full_sync
    pub last_cache_sync : a.last_cache_sync ≡ b.last_cache_sync
    pub cert_calls : a.cert_calls ≡ b.cert_calls

  module _ (o : Outside) (db : Default) where
    -- A refresh whose request to the storage fails returns the error, changes none of the data, and
    -- reports the error to the collector once.
    refresh-fetch_error :
        (e : DbError)
        → ((t : ℕ) → o.storage t ≡ fetch_error e)
        → ((refresh o db).0 ≡ some e)
          × SameData (refresh o db).1 db
          × ((refresh o db).1.collected
              ≡ db.collected
                ++ (if needs_full_sync db o.now then failed_full_refresh e else failed_refresh e)
                  ∷ [])
    unfolding refresh
    refresh-fetch_error e h = ground (arith, h sync_time_full, h db.sync_time)

    -- After a full synchronisation that the storage fails, at a time that is not zero, the next
    -- refresh is a full one just when the retry interval has passed.
    needs_full_sync-retry :
        (e : DbError) (t : ℕ)
        → o.storage sync_time_full ≡ fetch_error e
        → 0 < o.now
        → (needs_full_sync (refresh_full o db).1 t ≡ true) ↔ (o.now + db.full_sync_retry_ivl ≤ t)
    unfolding refresh_full needs_full_sync
    needs_full_sync-retry e t h now = ground arith

    -- After a full synchronisation that the storage answers, also where the file cache then fails,
    -- the next refresh is a full one just when the full interval has passed, and the next partial
    -- one asks from the time of the answer.
    pub needs_full_sync-answered :
        (r : ProfilesResponse) (t : ℕ)
        → o.storage sync_time_full ≡ response r
        → ((needs_full_sync (refresh_full o db).1 t ≡ true) ↔ (o.now + db.full_sync_ivl ≤ t))
          × ((refresh_full o db).1.sync_time ≡ r.sync_time)
    unfolding refresh_full needs_full_sync
    needs_full_sync-answered r t h =
        let asked = record db { sync_time = r.sync_time } in
        ground (arith, set_profiles_full-SameTimes asked r.profiles r.devices)
