-- ===== src/Network/Ipam.antt =====
-- The leases of one segmented network (internal/network/ipam.go): which guest holds which
-- address. `used` is an association list, `taken` the set of its keys; a uint32 is a number below
-- 2 ^ 32, its arithmetic modulo 2 ^ 32. The mutex is not modelled: each operation is one step.
pub mod Valid
pub mod Lease
pub mod Reach
pub mod Shared
mod Tests
use micro_hosted.Prelude.{
  ℕ, zero, suc, ◌+◌, ◌-◌, ◌*◌, ◌^◌, ◌%◌, ◌≤◌, ◌<◌, ◌≡◌, Bool, true, false, ◌||◌, ◌&&◌, Option, none,
  some, List, [], ◌∷◌, String, ltb, leb, ◌==◌, if◌then◌else◌, Result, ok, err, Dict, lookup, insert,
  erase, NatSet, with_elem, without_elem,
}
use micro_hosted.Network.Address.{Bytes, ip_text, parse_ip}

pub record Subnet : Type 0 where
  pub base : ℕ
  pub gateway : ℕ
  pub bcast : ℕ
  pub prefix : ℕ
  pub used : Dict ℕ
  pub taken : NatSet

pub data Error : Type 0 where
  too_small invalid_ip outside_subnet address_in_use not_a_guest no_free_address : Error

abbrev pub u32 : ℕ → ℕ
u32 n = n % 2 ^ 32

-- `uint32(1) << uint(32-prefix)`: 0 at prefix 0.
abbrev pub block_size : ℕ → ℕ
block_size prefix = u32 (2 ^ (32 - prefix))

abbrev last_address : ℕ → ℕ → ℕ
last_address base size = u32 (base + size + (2 ^ 32 - 1))

unfoldable pub new_subnet : ℕ → ℕ → Subnet
new_subnet base prefix =
    let bcast = last_address base (block_size prefix) in
    let gateway = u32 (base + 1) in
    record {
      base = base;
      gateway = gateway;
      bcast = bcast;
      prefix = prefix;
      used = [];
      taken = with_elem bcast (with_elem gateway (with_elem base (λ _. false)));
    }

-- `ParseSubnet`, after `net.ParseCIDR` has read the address and the length of its IPv4 prefix:
-- the network's base is the address with its host bits cleared.
unfoldable pub parse_subnet : ℕ → ℕ → Result Error Subnet
unfolding new_subnet
parse_subnet address prefix =
    if ltb 30 prefix
    then err too_small
    else ok (new_subnet (address - address % 2 ^ (32 - prefix)) prefix)

-- The scan of `AllocateAvoiding`, over the `n` addresses from `ip` on.
unfoldable pub first_free : NatSet → (Bytes → Bool) → ℕ → ℕ → Option ℕ
first_free taken avoid zero ip = none
first_free taken avoid (suc n) ip =
    let rest = first_free taken avoid n (ip + 1) in
    if taken ip || avoid (ip_text ip) then rest else some ip

-- A lease: `taken[ip] = true; used[vmID] = ip`.
unfoldable pub lease : String → ℕ → Subnet → Subnet
lease vm ip s = record s { used = insert vm ip s.used; taken = with_elem ip s.taken }

abbrev pub granted : String → Subnet → Option ℕ → Result Error Bytes × Subnet
granted vm s none = (err no_free_address, s)
granted vm s (some ip) = (ok (ip_text ip), lease vm ip s)

-- The number of addresses from gateway+1 to bcast-1.
abbrev pub guest_count : Subnet → ℕ
guest_count s = s.bcast - (s.gateway + 1)

unfoldable pub allocate_avoiding : String → (Bytes → Bool) → Subnet → Result Error Bytes × Subnet
allocate_avoiding vm avoid s =
    granted vm s (first_free s.taken avoid (guest_count s) (s.gateway + 1))

unfoldable pub allocate : String → Subnet → Result Error Bytes × Subnet
allocate vm s = allocate_avoiding vm (λ _. false) s

-- `Reserve` and `ReserveExclusive` first read the address and hold it against the range.
unfoldable pub in_range : Subnet → Bytes → Result Error ℕ
in_range s text = elim (parse_ip text) [
  | none ↦ err invalid_ip
  | some v ↦ if leb v s.base || leb s.bcast v then err outside_subnet else ok v
]

abbrev pub reserved : String → Subnet → Result Error ℕ → Result Error (Unit {0}) × Subnet
reserved vm s (err e) = (err e, s)
reserved vm s (ok v) = (ok tt, lease vm v s)

unfoldable pub reserve : String → Bytes → Subnet → Result Error (Unit {0}) × Subnet
reserve vm text s = reserved vm s (in_range s text)

abbrev pub claimed : String → Subnet → Result Error ℕ → Result Error (Unit {0}) × Subnet
claimed vm s (err e) = (err e, s)
claimed vm s (ok v) = if s.taken v then (err address_in_use, s) else (ok tt, lease vm v s)

unfoldable pub reserve_exclusive : String → Bytes → Subnet → Result Error (Unit {0}) × Subnet
reserve_exclusive vm text s = claimed vm s (in_range s text)

unfoldable pub ip_of : String → Subnet → Option Bytes
ip_of vm s = elim (lookup vm s.used) [ none ↦ none | some v ↦ some (ip_text v) ]

-- The loop of `Holder`; Go's order over a map is not fixed, this one is the list's.
unfoldable pub holder_of : ℕ → Dict ℕ → Option String
holder_of v [] = none
holder_of v ((vm, held) ∷ m) = if held == v then some vm else holder_of v m

unfoldable pub holder : Bytes → Subnet → Option String
holder text s = elim (parse_ip text) [ none ↦ none | some v ↦ holder_of v s.used ]

abbrev pub released : String → Subnet → Option ℕ → Subnet
released vm s none = s
released vm s (some ip) = record s { taken = without_elem ip s.taken; used = erase vm s.used }

unfoldable pub release : String → Subnet → Subnet
release vm s = released vm s (lookup vm s.used)

unfoldable pub check_guest_ip : Bytes → Subnet → Result Error (Unit {0})
check_guest_ip text s = elim (parse_ip text) [
  | none ↦ err invalid_ip
  | some v ↦ if leb v s.gateway || leb s.bcast v then err not_a_guest else ok tt
]

unfoldable pub overlaps : Subnet → Subnet → Bool
overlaps s o = leb s.base o.bcast && leb o.base s.bcast
