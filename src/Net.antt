-- ===== src/Net.antt =====
-- The addresses and prefixes of Go's net/netip, as far as the program uses them. Zones are left
-- out.
pub mod Bytes
use ad_guard_dns.Base.{
  ℕ, ◌-◌, ◌*◌, ◌/◌, ◌^◌, ◌≡◌, Option, some, none, if◌then◌else◌, ◌↔◌, Bool, true, false, ◌&&◌,
  arith, eqb, eqb_iff, leb, Comparable,
}

-- `netip.Addr{}` is `invalid`; an address is the number that its bytes stand for.
pub data Addr : Type 0 where
  invalid : Addr
  v4 v6 : ℕ → Addr

abbrev pub addr_beq : Addr → Addr → Bool
addr_beq invalid invalid = true
addr_beq (v4 a) (v4 b) = eqb a b
addr_beq (v6 a) (v6 b) = eqb a b
addr_beq _ _ = false

pub addr_beq_iff : (a b : Addr) → (addr_beq a b ≡ true) ↔ (a ≡ b)
addr_beq_iff invalid invalid = ground arith
addr_beq_iff (v4 a) (v4 b) = ground (arith, eqb_iff a b)
addr_beq_iff (v6 a) (v6 b) = ground (arith, eqb_iff a b)
addr_beq_iff _ _ = ground arith

instance abbrev pub addr_eq : Comparable Addr
addr_eq = record { is_equal = addr_beq; is_equal_iff = addr_beq_iff }

abbrev pub is_valid : Addr → Bool
is_valid invalid = false
is_valid (v4 a) = true
is_valid (v6 a) = true

abbrev pub is_6 : Addr → Bool
is_6 (v6 a) = true
is_6 _ = false

pub record Prefix : Type 0 where
  pub addr : Addr
  pub bits : ℕ

-- `Prefix.Contains`: the first `bits` bits are the same
unfoldable pub prefix_contains : Prefix → Addr → Bool
prefix_contains p ip = same p.addr ip
  where
    same : Addr → Addr → Bool
    same (v4 a) (v4 b) = leb p.bits 32 && eqb (a / 2 ^ (32 - p.bits)) (b / 2 ^ (32 - p.bits))
    same (v6 a) (v6 b) = leb p.bits 128 && eqb (a / 2 ^ (128 - p.bits)) (b / 2 ^ (128 - p.bits))
    same _ _ = false

abbrev pub prefix_beq : Prefix → Prefix → Bool
prefix_beq p q = addr_beq p.addr q.addr && eqb p.bits q.bits

pub prefix_beq_iff : (p q : Prefix) → (prefix_beq p q ≡ true) ↔ (p ≡ q)
prefix_beq_iff p q = ground (arith, addr_beq_iff p.addr q.addr, eqb_iff p.bits q.bits)

instance abbrev pub prefix_eq : Comparable Prefix
prefix_eq = record { is_equal = prefix_beq; is_equal_iff = prefix_beq_iff }

-- `Addr.Prefix`: the address with all but its first `n` bits cleared, or an error
unfoldable pub prefix_of : ℕ → Addr → Option Prefix
prefix_of n invalid = none
prefix_of n (v4 a) =
    if leb n 32
    then some (record { addr = v4 (a / 2 ^ (32 - n) * 2 ^ (32 - n)); bits = n })
    else none
prefix_of n (v6 a) =
    if leb n 128
    then some (record { addr = v6 (a / 2 ^ (128 - n) * 2 ^ (128 - n)); bits = n })
    else none
