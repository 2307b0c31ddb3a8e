-- ===== src/Network/Ipam/Lease.antt =====
-- What `AllocateAvoiding`, `ReserveExclusive`, `Release`, `Holder` and `IPOf` promise.
use micro_hosted.Prelude.{
  ℕ, zero, suc, ◌+◌, ◌≤◌, ◌<◌, ◌≡◌, ◌≢◌, refl, none≢some, some_inj, sym, subst, Bool, true, false,
  none, some, [], ◌∷◌, String, ◌⊎◌, inl, inr, ◌||◌, arith, ok, err, lookup, erase, lookup-erase,
  eq_iff, Dict, Unique, erase-Unique, Bool-cases, Option-cases, NatSet, ◌==◌, leb, lookup-insert,
  str_eq, Result,
}
use micro_hosted.Network.Address.{Bytes, ip_text, parse_ip}
use micro_hosted.Network.Address.RoundTrip.{parse_ip-ip_text}
use micro_hosted.Network.Ipam.{
  Subnet, Error, invalid_ip, no_free_address, outside_subnet, address_in_use, first_free, lease,
  guest_count, allocate_avoiding, reserve_exclusive, release, in_range, ip_of, holder, holder_of,
}
use micro_hosted.Network.Ipam.Valid.{IsValid, Holds}

-- An address that a scan may hand out.
abbrev pub IsOpen : NatSet → (Bytes → Bool) → ℕ → Type 0
IsOpen taken avoid v = (taken v ≡ false) × (avoid (ip_text v) ≡ false)

or_false : (a b : Bool) → (a || b) ≡ false → (a ≡ false) × (b ≡ false)
or_false a b h = ground arith

-- The scan finds the lowest open address of its range.
pub first_free-some :
    (taken : NatSet) (avoid : Bytes → Bool) (n ip : ℕ) {v : ℕ}
    → first_free taken avoid n ip ≡ some v
    → (ip ≤ v) × (v < ip + n) × IsOpen taken avoid v
unfolding first_free
first_free-some taken avoid zero ip h = ground arith
first_free-some taken avoid (suc n) ip {v} h = elim (Bool-cases (taken ip || avoid (ip_text ip))) [
  | inl busy ↦
      let (low, high, is_open) =
        first_free-some taken avoid n (ip + 1) (rw (busy, first_free) at h) in
      (omega arith, omega arith, is_open)
  | inr clear ↦
      let e : ip ≡ v = some_inj (rw (clear, first_free) at h) in
      (omega arith, omega arith, subst (IsOpen taken avoid) e (or_false _ _ clear))
]

pub first_free-lowest :
    (taken : NatSet) (avoid : Bytes → Bool) (n ip : ℕ) {v : ℕ}
    → first_free taken avoid n ip ≡ some v
    → (w : ℕ) → ip ≤ w
    → w < v
    → (taken w || avoid (ip_text w)) ≡ true
unfolding first_free
first_free-lowest taken avoid zero ip h w low high = ground arith
first_free-lowest taken avoid (suc n) ip {v} h w low high =
    elim (Bool-cases (taken ip || avoid (ip_text ip))) [
      | inl busy ↦ elim (Bool-cases (ip == w)) [
        | inl same ↦ subst (λ v. (taken v || avoid (ip_text v)) ≡ true) (ground arith) busy
        | inr later ↦
            first_free-lowest taken avoid n (ip + 1) (rw (busy, first_free) at h) w (ground arith)
              high
      ]
      | inr clear ↦ let e : ip ≡ v = some_inj (rw (clear, first_free) at h) in absurd (omega arith)
    ]

-- It fails only on a range with no open address.
pub first_free-none :
    (taken : NatSet) (avoid : Bytes → Bool) (n ip : ℕ)
    → first_free taken avoid n ip ≡ none
    → (w : ℕ) → ip ≤ w
    → w < ip + n
    → (taken w || avoid (ip_text w)) ≡ true
unfolding first_free
first_free-none taken avoid zero ip h w low high = absurd (omega arith)
first_free-none taken avoid (suc n) ip h w low high =
    elim (Bool-cases (taken ip || avoid (ip_text ip))) [
      | inl busy ↦ elim (Bool-cases (ip == w)) [
        | inl same ↦ subst (λ v. (taken v || avoid (ip_text v)) ≡ true) (ground arith) busy
        | inr later ↦
            first_free-none taken avoid n (ip + 1) (rw (busy, first_free) at h) w (ground arith)
              (omega arith)
      ]
      | inr clear ↦ absurd (none≢some (sym (rw (clear, first_free) at h)))
    ]

-- What an allocation that succeeds gives.
pub record Granted (vm : String) (avoid : Bytes → Bool) (s : Subnet) (v : ℕ) : Type 0 where
  pub above : s.gateway < v
  pub below : v < s.bcast
  pub free : s.taken v ≡ false
  pub not_pinned : avoid (ip_text v) ≡ false
  pub lowest : (w : ℕ) → s.gateway < w → w < v → (s.taken w || avoid (ip_text w)) ≡ true
  pub text : (allocate_avoiding vm avoid s).0 ≡ ok (ip_text v)
  pub state : (allocate_avoiding vm avoid s).1 ≡ lease vm v s

-- An allocation either leases the lowest open address of the guests' range, or fails and changes
-- nothing, and then the range has no open address.
pub allocate_avoiding_lem :
    (vm : String) (avoid : Bytes → Bool) (s : Subnet)
    → IsValid s
    → ((v : ℕ) × Granted vm avoid s v)
      ⊎ ((allocate_avoiding vm avoid s ≡ (err no_free_address, s))
          × ((w : ℕ) → s.gateway < w → w < s.bcast → (s.taken w || avoid (ip_text w)) ≡ true))
unfolding allocate_avoiding
allocate_avoiding_lem vm avoid s h =
    elim (Option-cases (first_free s.taken avoid (guest_count s) (s.gateway + 1))) [
      | inl full ↦ inr (
        rw full,
        λ w low high.
            first_free-none s.taken avoid (guest_count s) (s.gateway + 1) full w (omega arith)
              (omega (arith, h.room)),
      )
      | inr (v, found) ↦
          let (low, high, is_open) =
            first_free-some s.taken avoid (guest_count s) (s.gateway + 1) found in
          inl (
            v,
            record {
              above = omega arith;
              below = omega (arith, h.room);
              free = is_open.0;
              not_pinned = is_open.1;
              lowest = λ w lo hi.
                  first_free-lowest s.taken avoid (guest_count s) (s.gateway + 1) found w
                    (omega arith) hi;
              text = rw found;
              state = rw found;
            },
          )
    ]

-- `Holder`'s loop finds the machine that holds an address, if it alone does.
holder_of-held :
    (v : ℕ) (m : Dict ℕ) (vm : String)
    → Unique m
    → ((other : String) → lookup other m ≡ some v → vm ≡ other)
    → lookup vm m ≡ some v
    → holder_of v m ≡ some vm
unfolding holder_of lookup
holder_of-held v [] vm u only e = cc
holder_of-held v ((k, w) ∷ m) vm u only e =
    let later : (other : String) → lookup other m ≡ some v → vm ≡ other =
      λ other f. only other (ground (arith, u.0, f, eq_iff k other)) in
    ground (arith, only k, eq_iff k k, eq_iff k vm, holder_of-held v m vm u.1 later)

holder_of-none :
    (v : ℕ) (m : Dict ℕ) → ((vm : String) → lookup vm m ≢ some v) → Unique m → holder_of v m ≡ none
unfolding holder_of lookup
holder_of-none v [] absent u = refl
holder_of-none v ((k, w) ∷ m) absent u =
    let later : (vm : String) → lookup vm m ≢ some v =
      λ vm f. absent vm (ground (arith, u.0, f, eq_iff k vm)) in
    ground (arith, absent k, eq_iff k k, holder_of-none v m later u.1)

-- In a valid subnet, `Holder` of a leased address names the machine that holds it.
pub holder_held :
    (s : Subnet) (vm : String) (v : ℕ)
    → IsValid s
    → Holds s vm v
    → (holder (ip_text v) s ≡ some vm) × (ip_of vm s ≡ some (ip_text v))
unfolding holder ip_of
holder_held s vm v h held = (
  rw (parse_ip-ip_text v (omega (arith, h.word, h.range vm v held)), holder)
      (holder_of-held v s.used vm h.unique (λ other. h.distinct vm other v held) held),
  rw (held, ip_of),
)

-- After a release nobody holds the address, it is open again, and every other machine keeps its
-- own.
pub release_lem :
    (s : Subnet) (vm : String) (v : ℕ)
    → IsValid s
    → Holds s vm v
    → (holder (ip_text v) (release vm s) ≡ none)
      × ((release vm s).taken v ≡ false)
      × ((other : String) → other ≢ vm → ip_of other (release vm s) ≡ ip_of other s)
unfolding holder ip_of release
release_lem s vm v h held =
    let gone : (other : String) → lookup other (erase vm s.used) ≢ some v = λ other f.
      ground (arith, f, lookup-erase vm other s.used, eq_iff vm other, h.distinct vm other v) in
    rw held (
      rw (parse_ip-ip_text v (omega (arith, h.word, h.range vm v held)), holder)
          (holder_of-none v (erase vm s.used) gone (erase-Unique vm s.used h.unique)),
      ground arith,
      λ other ne. ground (arith, lookup-erase vm other s.used, eq_iff vm other),
    )

told : (s : Subnet) (vm : String) (v : ℕ) → ip_of vm (lease vm v s) ≡ some (ip_text v)
unfolding ip_of lease
told s vm v = ground (arith, lookup-insert vm vm v s.used, eq_iff vm vm)

others_told :
    (s : Subnet) (vm : String) (v : ℕ) (other : String)
    → str_eq vm other ≡ false
    → ip_of other (lease vm v s) ≡ ip_of other s
unfolding ip_of lease
others_told s vm v other apart = ground (arith, lookup-insert vm other v s.used, apart)

taken_after : (s : Subnet) (vm : String) (v w : ℕ) → (lease vm v s).taken w ≡ (v == w || s.taken w)
unfolding lease
taken_after s vm v w = ground arith

-- What a claim answers, and the subnet after it.
pub data Claim (s : Subnet) (vm : String) (text : Bytes) (t : Subnet)
    : Result Error (Unit {0}) → Type 0 where
  unread : t ≡ s → parse_ip text ≡ none → Claim s vm text t (err invalid_ip)
  outside :
      (v : ℕ)
      → t ≡ s
      → parse_ip text ≡ some v
      → (v ≤ s.base) ⊎ (s.bcast ≤ v)
      → Claim s vm text t (err outside_subnet)
  busy :
      (v : ℕ)
      → t ≡ s
      → parse_ip text ≡ some v
      → s.taken v ≡ true
      → Claim s vm text t (err address_in_use)
  leased :
      (v : ℕ)
      → parse_ip text ≡ some v
      → s.base < v
      → v < s.bcast
      → s.taken v ≡ false
      → ip_of vm t ≡ some (ip_text v)
      → ((other : String) → str_eq vm other ≡ false → ip_of other t ≡ ip_of other s)
      → ((w : ℕ) → t.taken w ≡ (v == w || s.taken w))
      → Claim s vm text t (ok tt)

-- `ReserveExclusive` refuses, and changes nothing, exactly for the reason that it tells: the text
-- is no address, the address is outside the subnet's range, or it is taken. Otherwise the address
-- is free and in the range, the machine is told it from then on, every other machine is told what
-- it was told, and no other address is taken or freed.
pub reserve_exclusive_lem :
    (s : Subnet) (vm : String) (text : Bytes)
    → Claim s vm text (reserve_exclusive vm text s).1 (reserve_exclusive vm text s).0
unfolding reserve_exclusive in_range
reserve_exclusive_lem s vm text = elim (Option-cases (parse_ip text)) [
  | inl none_read ↦ rw (none_read, reserve_exclusive, in_range) (unread refl none_read)
  | inr (v, is_v) ↦ elim (Bool-cases (leb v s.base || leb s.bcast v)) [
    | inl out ↦
        rw (is_v, reserve_exclusive, in_range, out) (outside v refl is_v (ground (arith, out)))
    | inr within ↦ elim (Bool-cases (s.taken v)) [
      | inl held ↦ rw (is_v, reserve_exclusive, in_range, within, held) (busy v refl is_v held)
      | inr free ↦
          rw (is_v, reserve_exclusive, in_range, within, free)
            (leased v is_v (ground (arith, within)) (ground (arith, within)) free (told s vm v)
              (others_told s vm v) (taken_after s vm v))
    ]
  ]
]
