-- ===== src/ProfileDb/Sound.antt =====
-- internal/profiledb/default.go: what a lookup that succeeds guarantees.
use ad_guard_dns.Base.{
  ◌≡◌, ◌≢◌, true, String, some, none, string_eq, arith, contains, ==_iff, Option-cases, inl, inr,
}
use ad_guard_dns.Base.Map.{lookup}
use ad_guard_dns.Net.{Addr, invalid, addr_eq, addr_beq_iff}
use ad_guard_dns.Agd.{DeviceSets, Profile, Device}
use ad_guard_dns.ProfileDb.{Default, key_eq}
use ad_guard_dns.ProfileDb.Lookup.{
  found, profile_by_device_id, profile_by_dedicated_ip, profile_by_human_id, profile_by_linked_ip,
}

module _ ⦃S : DeviceSets⦄ where
  open S use {has}

  -- `id` is attached to `p`, which is stored under `owner`, and its record is `d`.
  pub record Attached (db : Default) (id : String) (p : Profile) (d : Device) : Type 0 where
    pub owner : String
    pub owned : lookup id db.device_id_to_profile_id ≡ some owner
    pub stored : lookup owner db.profiles ≡ some p
    pub listed : has p.device_ids id ≡ true
    pub recorded : lookup id db.devices ≡ some d

  module _ (db : Default) (p : Profile) (d : Device) where
    -- A device that is found by its ID is attached to the profile that it is found with: the
    -- profile owns it, lists it, and its record is the stored one.
    pub profile_by_device_id-Attached :
        (id : String) → (profile_by_device_id db id).0 ≡ found p d → Attached db id p d
    unfolding profile_by_device_id
    profile_by_device_id-Attached id h =
        elim (Option-cases (lookup id db.device_id_to_profile_id)) [
          | inl e ↦ ground arith
          | inr (o, e) ↦ record {
            owner = o;
            owned = e;
            stored = ground arith;
            listed = ground arith;
            recorded = ground arith;
          }
        ]

    -- A device that is found by a dedicated address is attached to its profile under some ID, and
    -- still has the address.
    pub profile_by_dedicated_ip-Attached :
        (ip : Addr)
        → (profile_by_dedicated_ip db ip).0 ≡ found p d
        → (id : String) × (lookup ip db.dedicated_ip_to_device_id ≡ some id)
          × Attached db id p d
          × (contains d.dedicated_ips ip ≡ true)
    unfolding profile_by_dedicated_ip
    profile_by_dedicated_ip-Attached ip h =
        elim (Option-cases (lookup ip db.dedicated_ip_to_device_id)) [
          | inl e ↦ ground arith
          | inr (id, e) ↦ (id, e, profile_by_device_id-Attached id (ground arith), ground arith)
        ]

    -- A device that is found by a linked address is attached to its profile under some ID, and is
    -- still linked to the address, which is valid.
    pub profile_by_linked_ip-Attached :
        (ip : Addr)
        → (profile_by_linked_ip db ip).0 ≡ found p d
        → (id : String) × (lookup ip db.linked_ip_to_device_id ≡ some id)
          × Attached db id p d
          × (d.linked_ip ≡ ip)
          × (ip ≢ invalid)
    unfolding profile_by_linked_ip
    profile_by_linked_ip-Attached ip h = elim (Option-cases (lookup ip db.linked_ip_to_device_id)) [
      | inl e ↦ ground arith
      | inr (id, e) ↦ (
        id,
        e,
        profile_by_device_id-Attached id (ground arith),
        ground (arith, addr_beq_iff d.linked_ip ip),
        ground (arith, addr_beq_iff d.linked_ip ip, addr_beq_iff d.linked_ip invalid),
      )
    ]

    -- A device that is found by a human-readable ID is attached to a profile under some ID, and
    -- still has the human-readable ID; the profile that was asked for exists.
    pub profile_by_human_id-Attached :
        (prof_id human_id : String)
        → (profile_by_human_id db prof_id human_id).0 ≡ found p d
        → (id : String) × (lookup
              (record { lower = human_id; profile = prof_id })
              db.human_id_to_device_id
            ≡ some id)
          × Attached db id p d
          × (d.human_id_lower ≡ human_id)
          × (lookup prof_id db.profiles ≢ none)
    unfolding profile_by_human_id
    profile_by_human_id-Attached prof_id human_id h =
        elim (Option-cases
          (lookup (record { lower = human_id; profile = prof_id }) db.human_id_to_device_id)) [
            | inl e ↦ ground arith
            | inr (id, e) ↦ (
              id,
              e,
              profile_by_device_id-Attached id (ground arith),
              ground (arith, ==_iff human_id d.human_id_lower),
              ground arith,
            )
          ]
