-- ===== src/Network/Ipam/Tests.antt =====
-- Runs of the subnet's operations, and the theorems at a /29.
use micro_hosted.Prelude.{
  ℕ, NatSet, ◌+◌, ◌*◌, ◌^◌, ◌<◌, ◌≡◌, ◌≢◌, refl, Bool, true, false, none, some, String, codes, ◌⊎◌,
  ◌||◌, arith, ok, err, lookup, insert, ◌==◌,
}
use micro_hosted.Network.Address.{Bytes, ip_text, parse_ip}
use micro_hosted.Network.Address.RoundTrip.{parse_ip-ip_text}
use micro_hosted.Network.Ipam.{
  Subnet, in_range, first_free, new_subnet, no_free_address, outside_subnet, address_in_use,
  parse_subnet, allocate_avoiding, allocate, lease, reserve, reserve_exclusive, release, holder,
  ip_of,
}
use micro_hosted.Network.Ipam.Valid.{IsValid, Holds, parse_subnet-IsValid}
use micro_hosted.Network.Ipam.Lease.{
  allocate_avoiding_lem, Granted, holder_held, release_lem, reserve_exclusive_lem, Claim,
}
use micro_hosted.Network.Ipam.Shared.{
  Calls, no_call, allocates, reserves, booked, no_shared_address,
}
use micro_hosted.Network.Ipam.Reach.{Reach, here, next, allocated, gateway_leased, Reach-IsValid}

abbrev ten_net : ℕ
ten_net = 10 * 2 ^ 24

abbrev small : Subnet
small = new_subnet ten_net 29

abbrev nothing_pinned : Bytes → Bool
nothing_pinned _ = false

small_parsed : parse_subnet ten_net 29 ≡ ok small
unfolding parse_subnet
small_parsed = refl

small-IsValid : IsValid small
small-IsValid = (parse_subnet-IsValid ten_net 29 (omega arith) small_parsed).0

first_guest : (allocate "a" small).0 ≡ ok (codes "10.0.0.2")
unfolding allocate allocate_avoiding new_subnet first_free ip_text
first_guest = refl

abbrev one_guest : Subnet
one_guest = (allocate_avoiding "a" nothing_pinned small).1

-- .2 is taken, .3 is pinned
abbrev pinned : Bytes → Bool
pinned text = elim (parse_ip text) [ none ↦ false | some v ↦ v == ten_net + 3 ]

second_guest : (allocate_avoiding "b" pinned one_guest).0 ≡ ok (codes "10.0.0.4")
unfolding allocate_avoiding new_subnet parse_ip first_free lease ip_text
second_guest = refl

allocate_avoiding_lem_example :
    ((v : ℕ) × Granted "a" nothing_pinned small v)
    ⊎ ((allocate_avoiding "a" nothing_pinned small ≡ (err no_free_address, small))
        × ((w : ℕ)
            → small.gateway < w
            → w < small.bcast
            → (small.taken w || nothing_pinned (ip_text w)) ≡ true))
allocate_avoiding_lem_example = allocate_avoiding_lem "a" nothing_pinned small small-IsValid

one_guest-Reach : Reach small one_guest
one_guest-Reach = next here (allocated "a" nothing_pinned (unfold lookup new_subnet in refl))

a_held : Holds one_guest "a" (ten_net + 2)
unfolding allocate_avoiding new_subnet lookup first_free lease insert
a_held = refl

one_guest-IsValid : IsValid one_guest
one_guest-IsValid = Reach-IsValid one_guest-Reach small-IsValid

holder_held_run :
    (holder (ip_text (ten_net + 2)) one_guest ≡ some "a")
    × (ip_of "a" one_guest ≡ some (ip_text (ten_net + 2)))
holder_held_run = holder_held one_guest "a" (ten_net + 2) one_guest-IsValid a_held

release_run :
    (holder (ip_text (ten_net + 2)) (release "a" one_guest) ≡ none)
    × ((release "a" one_guest).taken (ten_net + 2) ≡ false)
    × ((other : String) → other ≢ "a" → ip_of other (release "a" one_guest) ≡ ip_of other one_guest)
release_run = release_lem one_guest "a" (ten_net + 2) one_guest-IsValid a_held

reserve_exclusive_lem_example :
    Claim one_guest "b"
      (codes "10.0.0.3")
      (reserve_exclusive "b" (codes "10.0.0.3") one_guest).1
      (reserve_exclusive "b" (codes "10.0.0.3") one_guest).0
reserve_exclusive_lem_example = reserve_exclusive_lem one_guest "b" (codes "10.0.0.3")

claims_run :
    ((reserve_exclusive "b" (codes "10.0.0.3") one_guest).0 ≡ ok tt)
    × ((reserve_exclusive "b" (codes "10.0.0.2") one_guest).0 ≡ err address_in_use)
    × ((reserve_exclusive "b" (codes "10.0.0.8") one_guest).0 ≡ err outside_subnet)
unfolding allocate_avoiding new_subnet lookup first_free lease insert reserve_exclusive in_range
    parse_ip ip_text
claims_run = (refl, refl, refl)

-- "b" is allocated an address, and `Reserve` then books it for "c" too.
abbrev shared : Subnet
shared = (reserve "c" (codes "10.0.0.3") (allocate_avoiding "b" nothing_pinned one_guest).1).1

abbrev shared_twice : NatSet
shared_twice =
    booked (λ _. false) (allocate_avoiding "b" nothing_pinned one_guest).1
      (in_range (allocate_avoiding "b" nothing_pinned one_guest).1 (codes "10.0.0.3"))

shared-Calls : Calls small shared_twice shared
shared-Calls =
    reserves "c" (codes "10.0.0.3")
      (allocates "b" nothing_pinned (allocates "a" nothing_pinned no_call))

shared_run :
    (ip_of "b" shared ≡ some (ip_text (ten_net + 3)))
    × (ip_of "c" shared ≡ some (ip_text (ten_net + 3)))
unfolding allocate_avoiding new_subnet lookup first_free lease insert reserve in_range ip_of ip_text
    parse_ip
shared_run = (refl, refl)

no_shared_address_example : (◌≡◌ {A = String} "b" "c") ⊎ (shared_twice (ten_net + 3) ≡ true)
no_shared_address_example =
    no_shared_address ten_net 29 small shared shared_twice "b" "c" (ten_net + 3) (omega arith)
      small_parsed shared-Calls (omega arith) shared_run.0 shared_run.1

gateway_leased_example :
    reserve_exclusive "b"
      (ip_text small.gateway)
      (release "a" (reserve "a" (ip_text small.gateway) small).1)
    ≡ (ok tt, lease "b" small.gateway (release "a" (reserve "a" (ip_text small.gateway) small).1))
gateway_leased_example =
    gateway_leased small "a" "b" small-IsValid (unfold lookup new_subnet in refl)

parse_ip-ip_text_example : parse_ip (ip_text ten_net) ≡ some ten_net
parse_ip-ip_text_example = parse_ip-ip_text ten_net (omega arith)
