-- ===== src/Network/SubnetPool/Exclusive.antt =====
-- The subnets in use, over the calls on a pool, and the addresses of its subnets.
use micro_hosted.Prelude.{
  ℕ, zero, suc, ◌+◌, ◌*◌, ◌/◌, ◌%◌, ◌^◌, ◌≤◌, ◌<◌, ◌≡◌, ◌≢◌, ◌⊎◌, inl, inr, ◌↔◌, refl, sym, ◌∙◌, ap,
  true, false, List, [], ◌∷◌, ◌++◌, ◌==◌, codes, if◌then◌else◌, Result, ok, err, arith, Bool-cases,
  ok-injective, subst,
}
use mathlib.Core.List.{append_assoc}
use micro_hosted.Network.Address.{Bytes, ip_text}
use micro_hosted.Network.Ipam.{new_subnet, overlaps}
use micro_hosted.Network.SubnetPool.{
  bytes_eq, Pool, Exhausted, no_free_subnets, pool_cidr, pool_size, allocate_from, allocate,
  reserve, release,
}

pub bytes_eq_iff : (s t : Bytes) → (bytes_eq s t ≡ true) ↔ (s ≡ t)
unfolding bytes_eq
bytes_eq_iff [] [] = (λ _. refl, λ _. refl)
bytes_eq_iff (a ∷ s) (b ∷ t) = ground (arith, bytes_eq_iff s t)
bytes_eq_iff [] (b ∷ t) = (λ h. cc, λ h. cc)
bytes_eq_iff (a ∷ s) [] = (λ h. cc, λ h. cc)

-- What an allocation that succeeds gives, of the rounds from `i` to `top`.
pub record Allocated (p : Pool) (i top : ℕ) (r : Result Exhausted Bytes × Pool) : Type 0 where
  pub index : ℕ
  pub low : i ≤ index
  pub high : index < top
  pub free : p.used (pool_cidr index) ≡ false
  pub lower : (j : ℕ) → i ≤ j → j < index → p.used (pool_cidr j) ≡ true
  pub result : r.0 ≡ ok (pool_cidr index)
  pub marked : (c : Bytes) → r.1.used c ≡ (if bytes_eq (pool_cidr index) c then true else p.used c)

abbrev Full : Pool → ℕ → ℕ → Type 0
Full p i top = (j : ℕ) → i ≤ j → j < top → p.used (pool_cidr j) ≡ true

-- The rounds from `i + 1` on, after a round that found its subnet in use.
skip_round :
    (p : Pool) (i : ℕ)
    → p.used (pool_cidr i) ≡ true
    → (j : ℕ) → i ≤ j
    → (i + 1 ≤ j → p.used (pool_cidr j) ≡ true)
    → p.used (pool_cidr j) ≡ true
skip_round p i busy j low later = elim (Bool-cases (i == j)) [
  | inl same ↦ subst (λ k. p.used (pool_cidr k) ≡ true) (ground arith) busy
  | inr other ↦ later (ground arith)
]

abbrev Outcome : Pool → ℕ → ℕ → Result Exhausted Bytes × Pool → Type 0
Outcome p i top r = Allocated p i top r ⊎ ((r ≡ (err no_free_subnets, p)) × Full p i top)

later-Outcome :
    (p : Pool) (i top : ℕ) (r : Result Exhausted Bytes × Pool)
    → p.used (pool_cidr i) ≡ true
    → Outcome p (i + 1) top r
    → Outcome p i top r
later-Outcome p i top r busy (inl a) = inl (record {
  index = a.index;
  low = omega (arith, a.low);
  high = a.high;
  free = a.free;
  lower = λ j low high. skip_round p i busy j low (λ l. a.lower j l high);
  result = a.result;
  marked = a.marked;
})
later-Outcome p i top r busy (inr (failed, full)) =
    inr (failed, λ j low high. skip_round p i busy j low (λ l. full j l high))

allocate_from_lem : (n i top : ℕ) (p : Pool) → i + n ≡ top → Outcome p i top (allocate_from n i p)
unfolding allocate_from
allocate_from_lem zero i top p e = inr (refl, λ j low high. absurd (omega arith))
allocate_from_lem (suc n) i top p e = elim (Bool-cases (p.used (pool_cidr i))) [
  | inl busy ↦
      rw (busy, allocate_from)
        (later-Outcome p i top (allocate_from n (i + 1) p) busy
          (allocate_from_lem n (i + 1) top p (omega arith)))
  | inr vacant ↦
      rw (vacant, allocate_from)
        (inl (record {
          index = i;
          low = omega arith;
          high = omega arith;
          free = vacant;
          lower = λ j low high. absurd (omega arith);
          result = refl;
          marked = λ c. refl;
        }))
]

-- `allocate` hands out the first of the 4096 subnets that is not in use and marks that one alone,
-- or fails and changes nothing, and then all of them are in use.
pub allocate_lem :
    (p : Pool)
    → Allocated p 0 pool_size (allocate p)
      ⊎ ((allocate p ≡ (err no_free_subnets, p))
          × ((j : ℕ) → j < pool_size → p.used (pool_cidr j) ≡ true))
unfolding allocate
allocate_lem p = elim (allocate_from_lem pool_size 0 pool_size p (omega arith)) [
  | inl a ↦ inl a
  | inr (failed, full) ↦ inr (failed, λ j high. full j (omega arith) high)
]

-- The calls on a pool.
pub data Op : Type 0 where
  allocated : Op
  reserved : Bytes → Op
  released : Bytes → Op

abbrev pub apply : Op → Pool → Pool
apply allocated p = (allocate p).1
apply (reserved c) p = reserve c p
apply (released c) p = release c p

abbrev pub run : List Op → Pool → Pool
run [] p = p
run (o ∷ os) p = run os (apply o p)

-- None of the calls releases the subnet.
abbrev pub Keeps : Bytes → List Op → Type 0
Keeps c [] = Unit {0}
Keeps c (released d ∷ os) = (bytes_eq d c ≡ false) × Keeps c os
Keeps c (_ ∷ os) = Keeps c os

allocate_keeps : (p : Pool) (c : Bytes) → p.used c ≡ true → (allocate p).1.used c ≡ true
allocate_keeps p c used = elim (allocate_lem p) [
  | inl a ↦ ground (arith, a.marked c)
  | inr (failed, _) ↦ rw failed used
]

run-Keeps :
    (os : List Op) (p : Pool) (c : Bytes) → Keeps c os → p.used c ≡ true → (run os p).used c ≡ true
unfolding reserve release
run-Keeps [] p c k used = used
run-Keeps (allocated ∷ os) p c k used = run-Keeps os (allocate p).1 c k (allocate_keeps p c used)
run-Keeps (reserved d ∷ os) p c k used = run-Keeps os (reserve d p) c k (ground arith)
run-Keeps (released d ∷ os) p c k used = run-Keeps os (release d p) c k.1 (ground (arith, k.0))

-- A subnet in use (handed out, or reserved for an operator's network) is handed out by no later
-- allocation, whatever calls stand between, while none of them releases it.
pub used_not_allocated :
    (os : List Op) (p : Pool) (c : Bytes)
    → Keeps c os
    → p.used c ≡ true
    → (allocate (run os p)).0 ≢ ok c
used_not_allocated os p c k used given = elim (allocate_lem (run os p)) [
  | inl a ↦
      let same : pool_cidr a.index ≡ c = ok-injective (sym a.result ∙ given) in
      cc (a.free, run-Keeps os p c k used, ap (run os p).used same)
  | inr (failed, _) ↦ cc (failed, given)
]

-- The network address of the pool's subnet `i`.
abbrev pub pool_block : ℕ → ℕ
pool_block i = 172 * 2 ^ 24 + (16 + i / 256) * 2 ^ 16 + i % 256 * 2 ^ 8

pub pool_cidr-ip_text :
    (i : ℕ) → i < pool_size → pool_cidr i ≡ ip_text (pool_block i) ++ codes "/24"
unfolding pool_cidr ip_text
pool_cidr-ip_text i h =
    let a : pool_block i / 2 ^ 24 % 256 ≡ 172 = omega arith in
    let b : pool_block i / 2 ^ 16 % 256 ≡ 16 + i / 256 = omega arith in
    let c : pool_block i / 2 ^ 8 % 256 ≡ i % 256 = omega arith in
    let d : pool_block i % 256 ≡ 0 = omega arith in rw (a, b, c, d) (simp append_assoc)

-- Two different subnets of the pool share no address, as `Subnet.Overlaps` decides it; and the
-- text of each is the CIDR of its block.
pub pool_disjoint :
    (i j : ℕ)
    → i < pool_size
    → j < pool_size
    → pool_cidr i ≢ pool_cidr j
    → (overlaps (new_subnet (pool_block i) 24) (new_subnet (pool_block j) 24) ≡ false)
      × (pool_cidr i ≡ ip_text (pool_block i) ++ codes "/24")
unfolding overlaps new_subnet
pool_disjoint i j hi hj ne =
    let other : i ≢ j = λ e. ne (ap pool_cidr e) in (ground arith, pool_cidr-ip_text i hi)
