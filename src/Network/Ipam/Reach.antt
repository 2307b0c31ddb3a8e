-- ===== src/Network/Ipam/Reach.antt =====
-- A subnet's life in good order: each machine asks only while it holds nothing.
use micro_hosted.Prelude.{
  ℕ, ◌^◌, ◌<◌, ◌≡◌, sym, ◌∙◌, Bool, false, none, String, ap, arith, ok, err, lookup, Bool-cases,
  some_inj, inl, inr, leb, ◌||◌, lookup-insert, eq_iff, ◌==◌, Result-cases, if◌then◌else◌,
}
use micro_hosted.Network.Address.{Bytes, ip_text, parse_ip}
use micro_hosted.Network.Address.RoundTrip.{parse_ip-ip_text}
use micro_hosted.Network.Ipam.{
  Subnet, in_range, outside_subnet, lease, allocate_avoiding, reserve, reserve_exclusive, release,
}
use micro_hosted.Network.Ipam.Valid.{IsValid, lease-IsValid, release-IsValid}
use micro_hosted.Network.Ipam.Lease.{allocate_avoiding_lem}

-- One call of a machine that holds nothing, or a release. Here a `Reserve` names an address that is
-- free, as a daemon's does that adopts its own machines; Shared has every call.
pub data Step (s : Subnet) : Subnet → Type 0 where
  allocated :
      (vm : String) (avoid : Bytes → Bool)
      → lookup vm s.used ≡ none
      → Step s (allocate_avoiding vm avoid s).1
  claimed :
      (vm : String) (text : Bytes)
      → lookup vm s.used ≡ none
      → Step s (reserve_exclusive vm text s).1
  adopted :
      (vm : String) (v : ℕ)
      → lookup vm s.used ≡ none
      → s.taken v ≡ false
      → v < 2 ^ 32
      → Step s (reserve vm (ip_text v) s).1
  freed : (vm : String) → Step s (release vm s)

pub data Reach (s : Subnet) : Subnet → Type 0 where
  here : Reach s s
  next : {t u : Subnet} → Reach s t → Step t u → Reach s u

-- A text that the range check lets pass.
in_range-ok :
    (s : Subnet) (text : Bytes) {v : ℕ} → in_range s text ≡ ok v → (s.base < v) × (v < s.bcast)
unfolding in_range
in_range-ok s text h = ground arith

-- A free address between the base and the broadcast is a guest's.
free_above : (s : Subnet) (v : ℕ) → IsValid s → s.base < v → s.taken v ≡ false → s.gateway < v
free_above s v h above free = elim (Bool-cases (v == s.gateway)) [
  | inl same ↦ let e : v ≡ s.gateway = ground arith in cc (h.ends_taken.1, ap s.taken e)
  | inr other ↦ ground (arith, h.gateway_next)
]

allocate-IsValid :
    (vm : String) (avoid : Bytes → Bool) (s : Subnet)
    → IsValid s
    → lookup vm s.used ≡ none
    → IsValid (allocate_avoiding vm avoid s).1
allocate-IsValid vm avoid s h fresh = elim (allocate_avoiding_lem vm avoid s h) [
  | inl (v, g) ↦ rw g.state (lease-IsValid s vm v h fresh g.above g.below g.free)
  | inr (full, _) ↦ rw full h
]

claim-IsValid :
    (vm : String) (text : Bytes) (s : Subnet)
    → IsValid s
    → lookup vm s.used ≡ none
    → IsValid (reserve_exclusive vm text s).1
unfolding reserve_exclusive
claim-IsValid vm text s h fresh = elim (Result-cases (in_range s text)) [
  | inl (e, refused) ↦ rw (refused, reserve_exclusive) h
  | inr (v, inside) ↦ elim (Bool-cases (s.taken v)) [
    | inl busy ↦ rw (inside, reserve_exclusive, busy) h
    | inr free ↦
        let (above, below) = in_range-ok s text inside in
        rw (inside, reserve_exclusive, free)
          (lease-IsValid s vm v h fresh (free_above s v h above free) below free)
  ]
]

in_range-text :
    (s : Subnet) (v : ℕ)
    → v < 2 ^ 32
    → in_range s (ip_text v) ≡ (if leb v s.base || leb s.bcast v then err outside_subnet else ok v)
unfolding in_range
in_range-text s v word = rw (parse_ip-ip_text v word, in_range)

adopt-IsValid :
    (vm : String) (v : ℕ) (s : Subnet)
    → IsValid s
    → lookup vm s.used ≡ none
    → s.taken v ≡ false
    → v < 2 ^ 32
    → IsValid (reserve vm (ip_text v) s).1
unfolding reserve
adopt-IsValid vm v s h fresh free word = elim (Bool-cases (leb v s.base || leb s.bcast v)) [
  | inl out ↦ rw (in_range-text s v word, reserve, out) h
  | inr within ↦
      rw (in_range-text s v word, reserve, within)
        (lease-IsValid s vm v h fresh (free_above s v h (ground arith) free) (ground arith) free)
]

Step-IsValid : {s t : Subnet} → Step s t → IsValid s → IsValid t
Step-IsValid {s} (allocated vm avoid fresh) h = allocate-IsValid vm avoid s h fresh
Step-IsValid {s} (claimed vm text fresh) h = claim-IsValid vm text s h fresh
Step-IsValid {s} (adopted vm v fresh free word) h = adopt-IsValid vm v s h fresh free word
Step-IsValid {s} (freed vm) h = release-IsValid vm s h

-- A subnet that starts valid stays valid through such calls.
pub Reach-IsValid : {s t : Subnet} → Reach s t → IsValid s → IsValid t
Reach-IsValid here h = h
Reach-IsValid (next r st) h = Step-IsValid st (Reach-IsValid r h)

pub ip_text-injective : (v w : ℕ) → v < 2 ^ 32 → w < 2 ^ 32 → ip_text v ≡ ip_text w → v ≡ w
ip_text-injective v w hv hw e =
    some_inj (sym (parse_ip-ip_text v hv) ∙ ap parse_ip e ∙ parse_ip-ip_text w hw)

-- The gateway can be lost: `Reserve` accepts the subnet's gateway for a machine, and once that
-- machine is released the gateway is free, so that `ReserveExclusive` leases it to another guest.
pub gateway_leased :
    (s : Subnet) (vm other : String)
    → IsValid s
    → lookup vm s.used ≡ none
    → reserve_exclusive other (ip_text s.gateway) (release vm (reserve vm (ip_text s.gateway) s).1)
      ≡ (ok tt, lease other s.gateway (release vm (reserve vm (ip_text s.gateway) s).1))
unfolding reserve reserve_exclusive in_range release lease
gateway_leased s vm other h fresh = ground (
  arith,
  parse_ip-ip_text s.gateway (omega (arith, h.word, h.room)),
  lookup-insert vm vm s.gateway s.used,
  eq_iff vm vm,
  h.gateway_next,
  h.room,
)
