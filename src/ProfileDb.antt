-- ===== src/ProfileDb.antt =====
-- internal/profiledb/default.go: the state of the default profile database, and how the data of a
-- synchronisation is set. The children hold the lookups, the refreshes and the proofs.
pub mod Lookup
pub mod Refresh
mod Keeps
pub mod FullSync
mod Sound
mod Cleanup
mod Moved
mod Partial
mod Times
mod Outcome
mod Examples
use ad_guard_dns.Base.{
  ℕ, ◌+◌, Bool, true, false, String, List, [], ◌∷◌, ◌++◌, Option, none, some, Comparable, ◌==◌,
  string_eq, if◌then◌else◌, ◌&&◌, ◌↔◌, ◌≡◌, arith, ==_iff,
}
use ad_guard_dns.Base.Map.{Map, lookup, insert, delete}
use ad_guard_dns.Net.{Addr, invalid, v4, v6, addr_eq}
use ad_guard_dns.Agd.{
  DeviceSets, Profile, Device, CustomDomainConfig, CurrentState, PendingState, current, pending,
  missing,
}

pub record HumanIdKey : Type 0 where
  pub lower : String
  pub profile : String

abbrev pub key_beq : HumanIdKey → HumanIdKey → Bool
key_beq a b = a.lower == b.lower && a.profile == b.profile

pub key_beq_iff : (a b : HumanIdKey) → (key_beq a b ≡ true) ↔ (a ≡ b)
key_beq_iff a b = ground (arith, ==_iff a.lower b.lower, ==_iff a.profile b.profile)

instance abbrev pub key_eq : Comparable HumanIdKey
key_eq = record { is_equal = key_beq; is_equal_iff = key_beq_iff }

-- The sentinels of error.go behind any wrapping, and the errors that come from elsewhere.
pub data DbError : Type 0 where
  device_not_found profile_not_found : DbError
  other : String → DbError

-- What is handed to the error collector.
pub data Collected : Type 0 where
  bad_custom_domains : String → List ℕ → Collected
  failed_refresh failed_full_refresh : DbError → Collected

-- The calls of the custom-domain database, in order.
pub data CertCall : Type 0 where
  add_certificate : String → List String → CurrentState → CertCall
  set_well_known_path : PendingState → CertCall
  delete_all_well_known_paths : CertCall

pub record DeviceChange : Type 0 where
  pub deleted_device_ids : List String
  pub is_partial : Bool

-- the loop of `setProfileCerts`: the calls, and the indexes of the bad states
pub cert_loop : String → ℕ → List CustomDomainConfig → List CertCall × List ℕ
cert_loop id i [] = ([], [])
cert_loop id i (c ∷ cs) =
    let (calls, errs) = cert_loop id (i + 1) cs in
    elim c.state [
      | current s ↦ (add_certificate id c.domains s ∷ calls, errs)
      | pending s ↦ (set_well_known_path s ∷ calls, errs)
      | missing ↦ (calls, i ∷ errs)
    ]

abbrev collect_bad : String → List ℕ → List Collected
collect_bad id [] = []
collect_bad id (i ∷ is) = bad_custom_domains id (i ∷ is) ∷ []

-- the loop over `p.DeviceIDs.Range`
pub attach_all : String → List String → Map String String → Map String String
attach_all id [] m = m
attach_all id (d ∷ ds) m = attach_all id ds (insert d id m)

pub link_dedicated : String → List Addr → Map Addr String → Map Addr String
link_dedicated id [] m = m
link_dedicated id (ip ∷ ips) m = link_dedicated id ips (insert ip id m)

abbrev pub link_ip : Device → Map Addr String → Map Addr String
link_ip d m = if d.linked_ip == invalid then m else insert d.linked_ip d.id m

-- The device goes under its human ID only where its profile is known.
pub link_human : Device → Option String → Map HumanIdKey String → Map HumanIdKey String
link_human d none m = m
link_human d (some id) m =
    if d.human_id_lower == ""
    then m
    else insert (record { lower = d.human_id_lower; profile = id }) d.id m

module _ ⦃S : DeviceSets⦄ where
  open S use {has, union, remove, elements}

  -- A time is a number, and `time.Time{}` is 0.
  pub record Default : Type 0 where
    pub profiles : Map String Profile
    pub devices : Map String Device
    pub dedicated_ip_to_device_id : Map Addr String
    pub device_id_to_profile_id : Map String String
    pub human_id_to_device_id : Map HumanIdKey String
    pub linked_ip_to_device_id : Map Addr String
    pub sync_time : ℕ
    pub last_cache_sync : ℕ
    pub last_full_sync : ℕ
    pub last_full_sync_error : ℕ
    pub cache_ivl : ℕ
    pub full_sync_ivl : ℕ
    pub full_sync_retry_ivl : ℕ
    pub cert_calls : List CertCall
    pub collected : List Collected

  -- the loop over `devChg.DeletedDeviceIDs`
  pub delete_devices : List String → Profile → Default → Profile × Default
  delete_devices [] p db = (p, db)
  delete_devices (d ∷ ds) p db =
      delete_devices ds (record p { device_ids = remove d p.device_ids })
        (record db { device_id_to_profile_id = delete d db.device_id_to_profile_id })

  pub merge_previous : Option Profile → DeviceChange → Profile → Default → Profile × Default
  unfolding delete_devices
  merge_previous none chg p db = (p, db)
  merge_previous (some prev) chg p db =
      delete_devices chg.deleted_device_ids
        (record p { device_ids = union p.device_ids prev.device_ids }) db

  pub apply_changes : Default → Profile → Option DeviceChange → Profile × Default
  unfolding merge_previous
  apply_changes db p none = (p, db)
  apply_changes db p (some chg) =
      if chg.is_partial then merge_previous (lookup p.id db.profiles) chg p db else (p, db)

  pub set_profile_certs : Default → Profile → Default
  unfolding cert_loop
  set_profile_certs db p =
      if p.custom_domains.enabled
      then (let (calls, errs) = cert_loop p.id 0 p.custom_domains.domains in
          record db {
            cert_calls = db.cert_calls ++ calls;
            collected = db.collected ++ collect_bad p.id errs;
          })
      else db

  abbrev pub attach_devices : Default → Profile → Default
  attach_devices db p = record db {
    device_id_to_profile_id = attach_all p.id (elements p.device_ids) db.device_id_to_profile_id;
  }

  abbrev pub store_profile : Default → Profile → Default
  store_profile db p = record db { profiles = insert p.id p db.profiles }

  -- one round of the loop of `setDevices`
  pub set_device : Default → Device → Default
  unfolding link_dedicated link_human
  set_device db d = record db {
    devices = insert d.id d db.devices;
    dedicated_ip_to_device_id = link_dedicated d.id d.dedicated_ips db.dedicated_ip_to_device_id;
    linked_ip_to_device_id = link_ip d db.linked_ip_to_device_id;
    human_id_to_device_id =
        link_human d (lookup d.id db.device_id_to_profile_id) db.human_id_to_device_id;
  }

  pub set_devices : Default → List Device → Default
  set_devices db [] = db
  set_devices db (d ∷ ds) = set_devices (set_device db d) ds

  -- one round of the loop of `setProfiles`
  pub set_profile : Default → Map String DeviceChange → Profile → Default
  set_profile db chgs p =
      let (p', db') = apply_changes db p (lookup p.id chgs) in
      attach_devices (set_profile_certs (store_profile db' p') p') p'

  pub set_profile_loop : Default → Map String DeviceChange → List Profile → Default
  set_profile_loop db chgs [] = db
  set_profile_loop db chgs (p ∷ ps) = set_profile_loop (set_profile db chgs p) chgs ps

  pub set_profiles : Default → List Profile → List Device → Map String DeviceChange → Default
  set_profiles db ps ds chgs = set_devices (set_profile_loop db chgs ps) ds

  -- one round of the loop of `setProfilesFull`
  pub set_profile_full : Default → Profile → Default
  set_profile_full db p = set_profile_certs (attach_devices (store_profile db p) p) p

  pub set_profile_full_loop : Default → List Profile → Default
  set_profile_full_loop db [] = db
  set_profile_full_loop db (p ∷ ps) = set_profile_full_loop (set_profile_full db p) ps

  pub clear_maps : Default → Default
  clear_maps db = record db {
    profiles = [];
    devices = [];
    dedicated_ip_to_device_id = [];
    device_id_to_profile_id = [];
    human_id_to_device_id = [];
    linked_ip_to_device_id = [];
    cert_calls = db.cert_calls ++ delete_all_well_known_paths ∷ [];
  }

  pub set_profiles_full : Default → List Profile → List Device → Default
  set_profiles_full db ps ds = set_devices (set_profile_full_loop (clear_maps db) ps) ds
