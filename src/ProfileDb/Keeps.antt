-- ===== src/ProfileDb/Keeps.antt =====
-- What the loops that set profiles and devices do to each map, as equations on lookups.
use ad_guard_dns.Base.{
  Bool, true, false, ◌≡◌, refl, ◌∙◌, String, List, [], ◌∷◌, Option, none, some, ◌==◌, string_eq,
  if◌then◌else◌, arith, contains, last_match, or_else, or_else_assoc,
}
use ad_guard_dns.Base.Map.{Map, lookup, insert, lookup-insert}
use ad_guard_dns.Net.{Addr, addr_eq}
use ad_guard_dns.Agd.{DeviceSets, Profile, Device}
use ad_guard_dns.ProfileDb.{
  Default, attach_all, link_dedicated, attach_devices, set_profile_certs, store_profile, set_device,
  set_devices, set_profile_full, set_profile_full_loop,
}

pub lookup-attach_all :
    (id : String) (ds : List String) (m : Map String String) (k : String)
    → lookup k (attach_all id ds m) ≡ (if contains ds k then some id else lookup k m)
unfolding attach_all
lookup-attach_all id [] m k = refl
lookup-attach_all id (d ∷ ds) m k =
    ground (arith, lookup-attach_all id ds (insert d id m) k, lookup-insert d k id m)

pub lookup-link_dedicated :
    (id : String) (ips : List Addr) (m : Map Addr String) (k : Addr)
    → lookup k (link_dedicated id ips m) ≡ (if contains ips k then some id else lookup k m)
unfolding link_dedicated
lookup-link_dedicated id [] m k = refl
lookup-link_dedicated id (ip ∷ ips) m k =
    ground (arith, lookup-link_dedicated id ips (insert ip id m) k, lookup-insert ip k id m)

module _ ⦃S : DeviceSets⦄ where
  open S use {has, elements, contains-elements}

  pub record SameMaps (a b : Default) : Type 0 where
    pub same_profiles : a.profiles ≡ b.profiles
    pub same_devices : a.devices ≡ b.devices
    pub same_owners : a.device_id_to_profile_id ≡ b.device_id_to_profile_id

  pub set_profile_certs-SameMaps :
      (db : Default) (p : Profile) → SameMaps (set_profile_certs db p) db
  unfolding set_profile_certs
  set_profile_certs-SameMaps db p = ground arith

  pub profiles-set_devices :
      (db : Default) (ds : List Device) → (set_devices db ds).profiles ≡ db.profiles
  unfolding set_devices set_device
  profiles-set_devices db [] = refl
  profiles-set_devices db (d ∷ ds) = profiles-set_devices (set_device db d) ds

  pub owners-set_devices :
      (db : Default) (ds : List Device)
      → (set_devices db ds).device_id_to_profile_id ≡ db.device_id_to_profile_id
  unfolding set_devices set_device
  owners-set_devices db [] = refl
  owners-set_devices db (d ∷ ds) = owners-set_devices (set_device db d) ds

  pub lookup-devices-set_devices :
      (db : Default) (ds : List Device) (k : String)
      → lookup k (set_devices db ds).devices
        ≡ or_else (last_match (λ d. d.id == k) ds) (lookup k db.devices)
  unfolding set_devices
  lookup-devices-set_devices db [] k = refl
  lookup-devices-set_devices db (d ∷ ds) k =
      lookup-devices-set_devices (set_device db d) ds k
      ∙ unfold set_device in
        ground (
          arith,
          lookup-insert d.id k d db.devices,
          or_else_assoc (last_match (λ (x : Device). x.id == k) ds)
              (if d.id == k then some d else none) (lookup k db.devices),
        )

  pub profiles-set_profile_full :
      (db : Default) (p : Profile) → (set_profile_full db p).profiles ≡ insert p.id p db.profiles
  unfolding set_profile_full
  profiles-set_profile_full db p =
      ground (arith, set_profile_certs-SameMaps (attach_devices (store_profile db p) p) p)

  pub devices-set_profile_full :
      (db : Default) (p : Profile) → (set_profile_full db p).devices ≡ db.devices
  unfolding set_profile_full
  devices-set_profile_full db p =
      ground (arith, set_profile_certs-SameMaps (attach_devices (store_profile db p) p) p)

  pub owners-set_profile_full :
      (db : Default) (p : Profile)
      → (set_profile_full db p).device_id_to_profile_id
        ≡ attach_all p.id (elements p.device_ids) db.device_id_to_profile_id
  unfolding set_profile_full
  owners-set_profile_full db p =
      ground (arith, set_profile_certs-SameMaps (attach_devices (store_profile db p) p) p)

  pub lookup-profiles-set_profile_full_loop :
      (db : Default) (ps : List Profile) (k : String)
      → lookup k (set_profile_full_loop db ps).profiles
        ≡ or_else (last_match (λ p. p.id == k) ps) (lookup k db.profiles)
  unfolding set_profile_full_loop
  lookup-profiles-set_profile_full_loop db [] k = refl
  lookup-profiles-set_profile_full_loop db (p ∷ ps) k =
      lookup-profiles-set_profile_full_loop (set_profile_full db p) ps k
      ∙ rw (profiles-set_profile_full db p) (
          ground (
            arith,
            lookup-insert p.id k p db.profiles,
            or_else_assoc (last_match (λ (x : Profile). x.id == k) ps)
                (if p.id == k then some p else none) (lookup k db.profiles),
          ))

  pub devices-set_profile_full_loop :
      (db : Default) (ps : List Profile) → (set_profile_full_loop db ps).devices ≡ db.devices
  unfolding set_profile_full_loop
  devices-set_profile_full_loop db [] = refl
  devices-set_profile_full_loop db (p ∷ ps) =
      devices-set_profile_full_loop (set_profile_full db p) ps ∙ devices-set_profile_full db p

  abbrev pub id_of : Option Profile → Option String
  id_of none = none
  id_of (some p) = some p.id

  id_of-or_else :
      (x : Option Profile) (p : Profile) (b : Bool) (y : Option String)
      → or_else (id_of x) (if b then some p.id else y)
        ≡ or_else (id_of (or_else x (if b then some p else none))) y
  id_of-or_else none p true y = refl
  id_of-or_else none p false y = refl
  id_of-or_else (some q) p b y = refl

  pub lookup-owners-set_profile_full_loop :
      (db : Default) (ps : List Profile) (k : String)
      → lookup k (set_profile_full_loop db ps).device_id_to_profile_id
        ≡ or_else
            (id_of (last_match (λ p. has p.device_ids k) ps))
            (lookup k db.device_id_to_profile_id)
  unfolding set_profile_full_loop
  lookup-owners-set_profile_full_loop db [] k = refl
  lookup-owners-set_profile_full_loop db (p ∷ ps) k =
      lookup-owners-set_profile_full_loop (set_profile_full db p) ps k
      ∙ rw
          (
            owners-set_profile_full db p,
            lookup-attach_all p.id (elements p.device_ids) db.device_id_to_profile_id k,
            contains-elements p.device_ids k,
          )
          (id_of-or_else (last_match (λ (x : Profile). has x.device_ids k) ps) p
            (has p.device_ids k) (lookup k db.device_id_to_profile_id))
