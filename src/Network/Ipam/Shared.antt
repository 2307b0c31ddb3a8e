-- ===== src/Network/Ipam/Shared.antt =====
-- Which machines can hold the same address: any calls of the subnet's operations, in any order
-- (internal/network/ipam.go). `Reserve` is the one that does not look whether an address is taken.
use micro_hosted.Prelude.{
  ℕ, ◌+◌, ◌^◌, ◌<◌, ◌≡◌, sym, ◌∙◌, ap, subst, Bool, true, false, some, String, arith, Result, ok,
  err, lookup, ◌⊎◌, inl, inr, lookup-insert, lookup-erase, eq_iff, NatSet, with_elem, if◌then◌else◌,
  Option-cases, Bool-cases, holds_if, Result-cases, some_inj, none≢some,
}
use micro_hosted.Network.Address.{Bytes, ip_text}
use micro_hosted.Network.Ipam.{
  Subnet, in_range, lease, allocate_avoiding, reserve, reserve_exclusive, release, ip_of,
  parse_subnet, first_free, guest_count, granted, reserved, claimed, released, Error,
}
use micro_hosted.Network.Ipam.Reach.{ip_text-injective}
use micro_hosted.Network.Ipam.Valid.{parse_subnet-IsValid}
use micro_hosted.Network.Ipam.Lease.{first_free-some}

-- The addresses that a `Reserve` books although they are taken.
abbrev pub booked : NatSet → Subnet → Result Error ℕ → NatSet
booked twice s (err e) = twice
booked twice s (ok v) = if s.taken v then with_elem v twice else twice

-- Any calls, and the addresses booked twice by them.
pub data Calls (s : Subnet) : NatSet → Subnet → Type 0 where
  no_call : Calls s (λ _. false) s
  allocates :
      {twice : NatSet} {t : Subnet} (vm : String) (avoid : Bytes → Bool)
      → Calls s twice t
      → Calls s twice (allocate_avoiding vm avoid t).1
  claims :
      {twice : NatSet} {t : Subnet} (vm : String) (text : Bytes)
      → Calls s twice t
      → Calls s twice (reserve_exclusive vm text t).1
  reserves :
      {twice : NatSet} {t : Subnet} (vm : String) (text : Bytes)
      → Calls s twice t
      → Calls s (booked twice t (in_range t text)) (reserve vm text t).1
  releases :
      {twice : NatSet} {t : Subnet} (vm : String) → Calls s twice t → Calls s twice (release vm t)

-- An address that is not booked twice has one holder at most, and is taken while it has one.
record IsSole (twice : NatSet) (s : Subnet) : Type 0 where
  word : s.bcast < 2 ^ 32
  range : (vm : String) (v : ℕ) → lookup vm s.used ≡ some v → v < s.bcast
  held_taken :
      (vm : String) (v : ℕ) → twice v ≡ false → lookup vm s.used ≡ some v → s.taken v ≡ true
  distinct :
      (vm other : String) (v : ℕ)
      → twice v ≡ false
      → lookup vm s.used ≡ some v
      → lookup other s.used ≡ some v
      → vm ≡ other

lease-IsSole :
    (twice more : NatSet) (s : Subnet) (vm : String) (v : ℕ)
    → IsSole twice s
    → v < s.bcast
    → ((w : ℕ) → more w ≡ false → twice w ≡ false)
    → (more v ≡ false → s.taken v ≡ false)
    → IsSole more (lease vm v s)
unfolding lease
lease-IsSole twice more s vm v h below grows free = record {
  word = h.word;
  range = λ k w e. ground (arith, lookup-insert vm k v s.used, h.range k w);
  held_taken =
      λ k w single e. ground (arith, grows w single, lookup-insert vm k v s.used, h.held_taken k w);
  distinct = λ k j w single e f. ground (
    arith,
    single,
    grows w single,
    free,
    lookup-insert vm k v s.used,
    lookup-insert vm j v s.used,
    eq_iff vm k,
    eq_iff vm j,
    h.distinct k j w,
    h.held_taken k w,
    h.held_taken j w,
    ap more {x = v} {y = w},
    ap s.taken {x = v} {y = w},
  );
}

release-IsSole :
    (twice : NatSet) (s : Subnet) (vm : String) → IsSole twice s → IsSole twice (release vm s)
unfolding release
release-IsSole twice s vm h = elim (Option-cases (lookup vm s.used)) [
  | inl absent ↦ subst (λ o. IsSole twice (released vm s o)) (sym absent) h
  | inr (v, held) ↦
      subst (λ o. IsSole twice (released vm s o)) (sym held)
        (record {
          word = h.word;
          range = λ k w e. ground (arith, lookup-erase vm k s.used, h.range k w);
          held_taken = λ k w single e. ground (
            arith,
            held,
            lookup-erase vm k s.used,
            eq_iff vm k,
            h.held_taken k w single,
            h.distinct vm k w single,
            ap (λ x. lookup vm s.used ≡ some x) {x = v} {y = w},
          );
          distinct = λ k j w single e f.
              ground (
                arith,
                lookup-erase vm k s.used,
                lookup-erase vm j s.used,
                h.distinct k j w single,
              );
        })
]

in_range-below : (s : Subnet) (text : Bytes) (v : ℕ) → in_range s text ≡ ok v → v < s.bcast
unfolding in_range
in_range-below s text v h = ground arith

allocate-IsSole :
    (twice : NatSet) (s : Subnet) (vm : String) (avoid : Bytes → Bool)
    → IsSole twice s
    → IsSole twice (allocate_avoiding vm avoid s).1
unfolding allocate_avoiding
allocate-IsSole twice s vm avoid h =
    elim (Option-cases (first_free s.taken avoid (guest_count s) (s.gateway + 1))) [
      | inl full ↦ subst (λ o. IsSole twice (granted vm s o).1) (sym full) h
      | inr (v, found) ↦
          let (low, high, is_open) =
            first_free-some s.taken avoid (guest_count s) (s.gateway + 1) found in
          subst (λ o. IsSole twice (granted vm s o).1) (sym found)
            (lease-IsSole twice twice s vm v h (omega (arith, low, high)) (λ w single. single)
              (λ single. is_open.0))
    ]

claim-IsSole :
    (twice : NatSet) (s : Subnet) (vm : String) (text : Bytes)
    → IsSole twice s
    → IsSole twice (reserve_exclusive vm text s).1
unfolding reserve_exclusive
claim-IsSole twice s vm text h = elim (Result-cases (in_range s text)) [
  | inl (e, refused) ↦ subst (λ r. IsSole twice (claimed vm s r).1) (sym refused) h
  | inr (v, inside) ↦
      subst (λ r. IsSole twice (claimed vm s r).1) (sym inside)
        (holds_if (λ (r : Result Error (Unit {0}) × Subnet). IsSole twice r.1) (s.taken v) _ _
          (λ busy. h)
          (λ free.
            lease-IsSole twice twice s vm v h (in_range-below s text v inside) (λ w single. single)
              (λ single. free)))
]

reserve-IsSole :
    (twice : NatSet) (s : Subnet) (vm : String) (text : Bytes)
    → IsSole twice s
    → IsSole (booked twice s (in_range s text)) (reserve vm text s).1
unfolding reserve
reserve-IsSole twice s vm text h = elim (Result-cases (in_range s text)) [
  | inl (e, refused) ↦ subst (λ r. IsSole (booked twice s r) (reserved vm s r).1) (sym refused) h
  | inr (v, inside) ↦
      subst (λ r. IsSole (booked twice s r) (reserved vm s r).1) (sym inside)
        (lease-IsSole twice (booked twice s (ok v)) s vm v h (in_range-below s text v inside)
          (λ w single. ground (arith, single)) (λ single. ground (arith, single)))
]

Calls-IsSole :
    {s : Subnet} {twice : NatSet} {t : Subnet}
    → Calls s twice t
    → IsSole (λ _. false) s
    → IsSole twice t
Calls-IsSole no_call h = h
Calls-IsSole (allocates {twice} {t} vm avoid c) h =
    allocate-IsSole twice t vm avoid (Calls-IsSole c h)
Calls-IsSole (claims {twice} {t} vm text c) h = claim-IsSole twice t vm text (Calls-IsSole c h)
Calls-IsSole (reserves {twice} {t} vm text c) h = reserve-IsSole twice t vm text (Calls-IsSole c h)
Calls-IsSole (releases {twice} {t} vm c) h = release-IsSole twice t vm (Calls-IsSole c h)

parsed-IsSole :
    (address prefix : ℕ) (s : Subnet)
    → address < 2 ^ 32
    → parse_subnet address prefix ≡ ok s
    → IsSole (λ _. false) s
unfolding lookup
parsed-IsSole address prefix s word parsed =
    let (valid, empty) = parse_subnet-IsValid address prefix word parsed in
    let nobody = λ (vm : String). ap (lookup vm) empty in
    record {
      word = valid.word;
      range = λ vm v e. absurd (cc (nobody vm, e));
      held_taken = λ vm v single e. absurd (cc (nobody vm, e));
      distinct = λ vm other v single e f. absurd (cc (nobody vm, e));
    }

ip_of-lookup :
    (vm : String) (s : Subnet) (text : Bytes)
    → ip_of vm s ≡ some text
    → (v : ℕ) × ((lookup vm s.used ≡ some v) × (text ≡ ip_text v))
unfolding ip_of
ip_of-lookup vm s text e = elim (Option-cases (lookup vm s.used)) [
  | inl absent ↦ absurd (none≢some (rw (absent, ip_of) at e))
  | inr (v, held) ↦ (v, (held, sym (some_inj (rw (held, ip_of) at e))))
]

-- After any calls, on a subnet that `ParseSubnet` accepts, of Allocate, ReserveExclusive, Reserve
-- and Release, two machines that are told the same address are one machine, or a `Reserve` has
-- booked that address while it was taken.
pub no_shared_address :
    (address prefix : ℕ) (s t : Subnet) (twice : NatSet) (vm other : String) (v : ℕ)
    → address < 2 ^ 32
    → parse_subnet address prefix ≡ ok s
    → Calls s twice t
    → v < 2 ^ 32
    → ip_of vm t ≡ some (ip_text v)
    → ip_of other t ≡ some (ip_text v)
    → (vm ≡ other) ⊎ (twice v ≡ true)
no_shared_address address prefix s t twice vm other v word parsed calls in_word e f =
    let h = Calls-IsSole calls (parsed-IsSole address prefix s word parsed) in
    let (a, (held, ea)) = ip_of-lookup vm t (ip_text v) e in
    let (b, (other_held, eb)) = ip_of-lookup other t (ip_text v) f in
    let is_a : v ≡ a =
      ip_text-injective v a in_word (omega (arith, h.word, h.range vm a held)) ea in
    let is_b : v ≡ b =
      ip_text-injective v b in_word (omega (arith, h.word, h.range other b other_held)) eb in
    elim (Bool-cases (twice v)) [
      | inl doubled ↦ inr doubled
      | inr single ↦ inl (
          h.distinct vm other v single (held ∙ ap some (sym is_a))
            (other_held ∙ ap some (sym is_b)))
    ]
