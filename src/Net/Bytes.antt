-- ===== src/Net/Bytes.antt =====
-- net/netip: the binary form of an address, with the first byte first.
use ad_guard_dns.Base.{
  ℕ, zero, suc, ◌+◌, ◌*◌, ◌/◌, ◌%◌, ◌<◌, ◌≡◌, refl, List, [], ◌∷◌, ◌++◌, Option, some, none, length,
  length-append, ltb, eqb, take, if◌then◌else◌, arith,
}
use ad_guard_dns.Net.{Addr, invalid, v4, v6, Prefix}

-- 256 ^ n
abbrev pub pow256 : ℕ → ℕ
pow256 zero = 1
pow256 (suc n) = 256 * pow256 n

unfoldable pub to_bytes : ℕ → ℕ → List ℕ
to_bytes zero a = []
to_bytes (suc n) a = to_bytes n (a / 256) ++ (a % 256 ∷ [])

unfoldable pub from_bytes : ℕ → List ℕ → ℕ
from_bytes acc [] = acc
from_bytes acc (b ∷ bs) = from_bytes (acc * 256 + b) bs

from_bytes-snoc :
    (acc b : ℕ) (bs : List ℕ) → from_bytes acc (bs ++ (b ∷ [])) ≡ from_bytes acc bs * 256 + b
unfolding from_bytes
from_bytes-snoc acc b [] = refl
from_bytes-snoc acc b (c ∷ bs) = from_bytes-snoc (acc * 256 + c) b bs

pub from_bytes-to_bytes : (n a : ℕ) → a < pow256 n → from_bytes 0 (to_bytes n a) ≡ a
unfolding to_bytes from_bytes
from_bytes-to_bytes zero a h = omega arith
from_bytes-to_bytes (suc n) a h = omega (
  arith,
  from_bytes-snoc 0 (a % 256) (to_bytes n (a / 256)),
  from_bytes-to_bytes n (a / 256) (omega arith),
)

pub length-to_bytes : (n a : ℕ) → length (to_bytes n a) ≡ n
unfolding to_bytes
length-to_bytes zero a = refl
length-to_bytes (suc n) a =
    omega (arith, length-append (to_bytes n (a / 256)) (a % 256 ∷ []), length-to_bytes n (a / 256))

-- `Addr.MarshalBinary` and `Addr.AsSlice`
unfoldable pub marshal_binary : Addr → List ℕ
marshal_binary invalid = []
marshal_binary (v4 a) = to_bytes 4 a
marshal_binary (v6 a) = to_bytes 16 a

-- `Addr.UnmarshalBinary`, less the zone that may follow the sixteen bytes; none is the error
unfoldable pub unmarshal_binary : List ℕ → Option Addr
unmarshal_binary b =
    if eqb (length b) 0
    then some invalid
    else if eqb (length b) 4
    then some (v4 (from_bytes 0 b))
    else if eqb (length b) 16
    then some (v6 (from_bytes 0 b))
    else if ltb 16 (length b)
    then some (v6 (from_bytes 0 (take 16 b)))
    else none

-- `AddrFromSlice`
unfoldable pub addr_from_slice : List ℕ → Option Addr
addr_from_slice b =
    if eqb (length b) 4
    then some (v4 (from_bytes 0 b))
    else if eqb (length b) 16
    then some (v6 (from_bytes 0 b))
    else none

-- the address has as many bits as its kind
abbrev pub IsAddr : Addr → Type 0
IsAddr invalid = Unit
IsAddr (v4 a) = a < pow256 4
IsAddr (v6 a) = a < pow256 16

pub unmarshal-marshal : (a : Addr) → IsAddr a → unmarshal_binary (marshal_binary a) ≡ some a
unfolding unmarshal_binary marshal_binary
unmarshal-marshal invalid h = refl
unmarshal-marshal (v4 a) h = rw (length-to_bytes 4 a, from_bytes-to_bytes 4 a h)
unmarshal-marshal (v6 a) h = rw (length-to_bytes 16 a, from_bytes-to_bytes 16 a h)

-- a prefix of a valid address, with at most as many bits as the address has
abbrev pub IsPrefixOf : Addr → ℕ → Type 0
IsPrefixOf invalid n = ⊥
IsPrefixOf (v4 a) n = (a < pow256 4) × (n < 33)
IsPrefixOf (v6 a) n = (a < pow256 16) × (n < 129)

abbrev pub IsPrefix : Prefix → Type 0
IsPrefix p = IsPrefixOf p.addr p.bits

from_slice_lem : (a : Addr) (n : ℕ) → IsPrefixOf a n → addr_from_slice (marshal_binary a) ≡ some a
unfolding addr_from_slice marshal_binary
from_slice_lem invalid n h = absurd h
from_slice_lem (v4 a) n h = rw (length-to_bytes 4 a, from_bytes-to_bytes 4 a h.0)
from_slice_lem (v6 a) n h = rw (length-to_bytes 16 a, from_bytes-to_bytes 16 a h.0)

pub addr_from_slice-marshal :
    (p : Prefix) → IsPrefix p → addr_from_slice (marshal_binary p.addr) ≡ some p.addr
addr_from_slice-marshal p h = from_slice_lem p.addr p.bits h
