-- ===== src/DeviceFinder/Guarded.antt =====
-- internal/dnssvc/internal/devicefinder: what holds of the profile and the device that the finder
-- answers with.
use ad_guard_dns.Base.{
  ℕ, ◌≡◌, ◌≢◌, ◌↔◌, ◌&&◌, not, if◌then◌else◌, true, false, String, List, Option, some, none,
  string_eq, contains, arith,
}
use ad_guard_dns.Net.{Addr}
use ad_guard_dns.Settings.{authenticates}
use ad_guard_dns.Agd.{DeviceSets, Profile, Device}
use ad_guard_dns.ProfileDb.{device_not_found}
use ad_guard_dns.ProfileDb.Lookup.{Found, found, failed}
use ad_guard_dns.DeviceFinder.{
  dns, doh, dnscrypt, AddrPort, Server, ExtHumanId, PlainData, device_id, ext_human_id,
  custom_domain, Userinfo, ok, RequestInfo, Finder, result_ok,
}
use ad_guard_dns.DeviceFinder.Data.{device_data_from_encrypted, device_id_from_edns, device_data}
use ad_guard_dns.DeviceFinder.Search.{
  find, find_device, pair, device_result_by_custom_domain, is_profile_db_not_found, device_by_addrs,
  device_by_local_addr, new_device_result, supports_device_id, authenticated_result, device_from_db,
  authenticate, device_by_ext_id,
}

-- What the settings of a device ask of a request: DNS-over-HTTPS with a user name, where only that
-- is allowed, and the right password wherever there is a user name.
pub record MayUse (srv : Server) (u : Option Userinfo) (d : Device) : Type 0 where
  pub doh_only : d.auth.doh_auth_only ≡ true → (srv.protocol ≡ doh) × (u ≢ none)
  pub password :
      (i : Userinfo)
      → srv.protocol ≡ doh
      → u ≡ some i
      → (w : String) × (i.password ≡ some w) × (authenticates d.auth.password_hash w ≡ true)

-- The authentication passes a device with enabled settings only if the request meets them.
pub authenticate-MayUse :
    (srv : Server) (u : Option Userinfo) (d : Device)
    → d.auth.enabled ≡ true
    → authenticate srv u d ≡ none
    → MayUse srv u d
unfolding authenticate
authenticate-MayUse srv u d e h = record {
  doh_only = λ only. ground arith;
  password = λ i p q. ground arith;
}

module _ ⦃S : DeviceSets⦄ where
  -- The lookup that recognises a request over plain DNS: by the ID of its EDNS option; without one,
  -- by the dedicated address that it came to, where the server binds to interfaces and the address
  -- is none of its own; otherwise by the linked address of the client, where that is enabled.
  abbrev pub dns_lookup : Finder → Option String → Addr → AddrPort → Found
  dns_lookup f (some id) remote_ip laddr = f.profile_db.profile_by_device_id id
  dns_lookup f none remote_ip laddr =
      if f.srv.binds_to_interfaces && not (f.srv.has_addr laddr)
      then f.profile_db.profile_by_dedicated_ip laddr.addr
      else if f.srv.linked_ip_enabled
      then f.profile_db.profile_by_linked_ip remote_ip
      else failed device_not_found

  module _ (f : Finder) where
    -- A device that the finder answers with belongs to a profile that is not deleted, comes over a
    -- protocol that carries device data, and passes the authentication of the request.
    pub find-authenticated :
        (info : RequestInfo) (raddr laddr : AddrPort) (p : Profile) (d : Device)
        → find f info raddr laddr ≡ some (result_ok p d)
        → (p.deleted ≡ false)
          × (f.srv.protocol ≢ dnscrypt)
          × (authenticate f.srv info.userinfo d ≡ none)
    unfolding find find_device
    find-authenticated info raddr laddr p d h = ground arith

    -- Over plain DNS, where the EDNS options of a request do not fail, the finder answers with a
    -- device and a profile exactly where the lookup for the request finds them, the profile is not
    -- deleted, and the device does not allow DNS-over-HTTPS alone with its authentication enabled.
    pub find-dns_lookup :
        (info : RequestInfo) (raddr laddr : AddrPort) (id : Option String) (p : Profile)
        (d : Device)
        → f.srv.protocol ≡ dns
        → device_id_from_edns f.texts info.edns_options ≡ ok id
        → (find f info raddr laddr ≡ some (result_ok p d)) ↔ (
            (dns_lookup f id raddr.addr laddr ≡ found p d)
            × (p.deleted ≡ false)
            × ((d.auth.enabled && d.auth.doh_auth_only) ≡ false))
    unfolding find find_device device_data device_from_db device_by_addrs device_by_local_addr
        new_device_result authenticate supports_device_id authenticated_result
    find-dns_lookup info raddr laddr (some id) p d proto e = (λ h. ground arith, λ h. ground arith)
    find-dns_lookup info raddr laddr none p d proto e = (λ h. ground arith, λ h. ground arith)

    -- Over plain DNS, without linked addresses, a request with no device data that comes to a shared
    -- address is not recognised.
    pub device_by_addrs-unlinked :
        (laddr : AddrPort) (remote_ip : Addr)
        → f.srv.linked_ip_enabled ≡ false
        → f.srv.has_addr laddr ≡ true
        → device_from_db f laddr remote_ip none ≡ none
    unfolding device_from_db
    device_by_addrs-unlinked laddr remote_ip off has = ground arith

    -- A device that is found by its ID under a custom domain belongs to one of the domain's profiles.
    custom_domain-contains :
        (laddr : AddrPort) (remote_ip : Addr) (id domain : String) (ids : List String) (p : Profile)
        (d : Device)
        → find_device f laddr remote_ip (some (custom_domain (device_id id) domain ids))
          ≡ some (result_ok p d)
        → contains ids p.id ≡ true
    unfolding find_device device_from_db
    custom_domain-contains laddr remote_ip id domain ids p d h = ground arith

    -- A request under a custom domain that names a profile by an extended human-readable ID passes
    -- only if that is one of the domain's profiles.
    pub encrypted-contains :
        (info : RequestInfo) (x : ExtHumanId) (domain : String) (ids : List String)
        → device_data_from_encrypted f info ≡ ok (some (custom_domain (ext_human_id x) domain ids))
        → contains ids x.profile_id ≡ true
    unfolding device_data_from_encrypted
    encrypted-contains info x domain ids h = ground arith

    -- Whether an automatic device is created changes the answer only where the profile is known and
    -- has no device under the human-readable ID.
    pub device_by_ext_id-no_create :
        (x : ExtHumanId) (create : String → String → ℕ → Found)
        → f.profile_db.profile_by_human_id x.profile_id (f.texts.to_lower x.human_id)
          ≢ failed device_not_found
        → device_by_ext_id f x
          ≡ device_by_ext_id
              (record f { profile_db = record f.profile_db { create_auto_device = create } })
              x
    unfolding device_by_ext_id
    device_by_ext_id-no_create x create h = ground arith

    -- What names a device and a profile under a custom domain that is of the profiles `ids`.
    abbrev pub NamedBy : List String → Profile → Device → PlainData → Type 0
    NamedBy ids p d (device_id id) =
        (f.profile_db.profile_by_device_id id ≡ found p d) × (contains ids p.id ≡ true)
    NamedBy ids p d (ext_human_id x) =
        (device_by_ext_id f x ≡ pair p d) × (contains ids x.profile_id ≡ true)

    device_data-contains :
        (info : RequestInfo) (x : ExtHumanId) (domain : String) (ids : List String)
        → device_data f info ≡ ok (some (custom_domain (ext_human_id x) domain ids))
        → contains ids x.profile_id ≡ true
    unfolding device_data
    device_data-contains info x domain ids h = ground (arith, encrypted-contains info x domain ids)

    -- A profile and a device that the finder answers with, where the device data of the request came
    -- under a custom domain, are those that the data names: by a device ID, and then the profile is
    -- one of the domain's; or by an extended human-readable ID, and then the profile whose ID it
    -- holds is one of the domain's.
    pub find-NamedBy :
        (info : RequestInfo) (raddr laddr : AddrPort) (x : PlainData) (domain : String)
        (ids : List String) (p : Profile) (d : Device)
        → device_data f info ≡ ok (some (custom_domain x domain ids))
        → find f info raddr laddr ≡ some (result_ok p d)
        → NamedBy ids p d x
    unfolding find find_device device_from_db device_result_by_custom_domain new_device_result
        authenticated_result is_profile_db_not_found
    find-NamedBy info raddr laddr (device_id id) domain ids p d e h = (ground arith, ground arith)
    find-NamedBy info raddr laddr (ext_human_id x) domain ids p d e h =
        (ground arith, device_data-contains info x domain ids e)
