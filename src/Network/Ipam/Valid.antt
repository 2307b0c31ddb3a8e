-- ===== src/Network/Ipam/Valid.antt =====
-- What holds of a subnet between two operations, and that the operations keep it.
use native.Mathlib.Nat.{div-add-mod, mul-le-mul_left}
use micro_hosted.Prelude.{
  ℕ, ◌+◌, ◌-◌, ◌*◌, ◌^◌, ◌%◌, ◌≤◌, ◌<◌, ◌≡◌, refl, true, false, none, some, [], String, ◌⊎◌, inl,
  inr, arith, ok, lookup, erase, if◌then◌else◌, ltb, ok-injective, subst, ◌/◌, holds_below,
  holds_below_at, leb, ◌&&◌, ◌==◌, ◌≢◌, Bool-cases, Option-cases, none≢some, without_elem,
  lookup-insert, lookup-erase, eq_iff, Unique, insert-Unique, erase-Unique,
}
use micro_hosted.Network.Ipam.{Subnet, new_subnet, last_address, u32, parse_subnet, lease, release}

abbrev pub Holds : Subnet → String → ℕ → Type 0
Holds s vm v = lookup vm s.used ≡ some v

-- Guests lie between the gateway and the broadcast address; no two guests share an address; and
-- an address is taken exactly when it is one of the three reserved ones or a guest holds it.
pub record IsValid (s : Subnet) : Type 0 where
  pub gateway_next : s.gateway ≡ s.base + 1
  pub room : s.gateway + 1 < s.bcast
  pub word : s.bcast < 2 ^ 32
  pub unique : Unique s.used
  pub range : (vm : String) (v : ℕ) → Holds s vm v → (s.gateway < v) × (v < s.bcast)
  pub distinct : (vm other : String) (v : ℕ) → Holds s vm v → Holds s other v → vm ≡ other
  pub held_taken : (vm : String) (v : ℕ) → Holds s vm v → s.taken v ≡ true
  pub ends_taken : (s.taken s.base ≡ true) × (s.taken s.gateway ≡ true) × (s.taken s.bcast ≡ true)
  pub taken_held :
      (v : ℕ)
      → s.taken v ≡ true
      → (v ≡ s.base) ⊎ (v ≡ s.gateway) ⊎ (v ≡ s.bcast) ⊎ ((vm : String) × Holds s vm v)

abbrev Owned : Subnet → ℕ → Type 0
Owned s v = (v ≡ s.base) ⊎ (v ≡ s.gateway) ⊎ (v ≡ s.bcast) ⊎ ((vm : String) × Holds s vm v)

-- A lease to a machine that holds none, of a free address between the gateway and the broadcast.
module _ (s : Subnet) (vm : String) (v : ℕ) (h : IsValid s) (fresh : lookup vm s.used ≡ none)
    (above : s.gateway < v) (below : v < s.bcast) (free : s.taken v ≡ false) where
  lease-Owned : (w : ℕ) → Owned s w → Owned (lease vm v s) w
  unfolding lease
  lease-Owned w (inl e) = inl e
  lease-Owned w (inr (inl e)) = inr (inl e)
  lease-Owned w (inr (inr (inl e))) = inr (inr (inl e))
  lease-Owned w (inr (inr (inr (k, e)))) =
      inr (inr (inr (k, ground (arith, lookup-insert vm k v s.used, eq_iff vm k))))

  lease_taken : (w : ℕ) → (lease vm v s).taken w ≡ true → Owned (lease vm v s) w
  unfolding lease
  lease_taken w e = elim (Bool-cases (v == w)) [
    | inl same ↦ inr (inr (inr (vm, ground (arith, lookup-insert vm vm v s.used, eq_iff vm vm))))
    | inr other ↦ lease-Owned w (h.taken_held w (ground arith))
  ]

  pub lease-IsValid : IsValid (lease vm v s)
  unfolding lease
  lease-IsValid = record {
    gateway_next = h.gateway_next;
    room = h.room;
    word = h.word;
    unique = insert-Unique vm v s.used h.unique;
    range = λ k w e. ground (arith, lookup-insert vm k v s.used, eq_iff vm k, h.range k w);
    distinct = λ k j w e f. ground (
      arith,
      lookup-insert vm k v s.used,
      lookup-insert vm j v s.used,
      eq_iff vm k,
      eq_iff vm j,
      h.distinct k j w,
      h.held_taken k v,
      h.held_taken j v,
    );
    held_taken =
        λ k w e. ground (arith, lookup-insert vm k v s.used, eq_iff vm k, h.held_taken k w);
    ends_taken = ground (arith, h.ends_taken);
    taken_held = λ w e. lease_taken w e;
  }

-- The release of a held address.
module _ (s : Subnet) (vm : String) (v : ℕ) (h : IsValid s) (held : Holds s vm v) where
  abbrev freed : Subnet
  freed = record s { taken = without_elem v s.taken; used = erase vm s.used }

  freed-Owned : (w : ℕ) → v ≢ w → Owned s w → Owned freed w
  freed-Owned w other (inl e) = inl e
  freed-Owned w other (inr (inl e)) = inr (inl e)
  freed-Owned w other (inr (inr (inl e))) = inr (inr (inl e))
  freed-Owned w other (inr (inr (inr (k, e)))) =
      inr (inr (inr (k, ground (arith, lookup-erase vm k s.used, eq_iff vm k))))

  freed-IsValid : IsValid freed
  freed-IsValid = record {
    gateway_next = h.gateway_next;
    room = h.room;
    word = h.word;
    unique = erase-Unique vm s.used h.unique;
    range = λ k w e. ground (arith, lookup-erase vm k s.used, h.range k w);
    distinct = λ k j w e f.
        ground (arith, lookup-erase vm k s.used, lookup-erase vm j s.used, h.distinct k j w);
    held_taken = λ k w e.
        ground (arith, lookup-erase vm k s.used, eq_iff vm k, h.distinct vm k v, h.held_taken k w);
    ends_taken = ground (arith, h.ends_taken, h.range vm v held, h.gateway_next, h.room);
    taken_held = λ w e. freed-Owned w (ground arith) (h.taken_held w (ground arith));
  }

-- A release keeps the subnet valid, whoever asks for it.
pub release-IsValid : (vm : String) (s : Subnet) → IsValid s → IsValid (release vm s)
unfolding release
release-IsValid vm s h = elim (Option-cases (lookup vm s.used)) [
  | inl absent ↦ rw absent h
  | inr (v, held) ↦ rw held (freed-IsValid s vm v h held)
]

-- The sizes of blocks: they divide the address space, and hold at least four addresses.
block_facts : (p : ℕ) → p ≤ 30 → (2 ^ (32 - p) * 2 ^ p ≡ 2 ^ 32) × (4 ≤ 2 ^ (32 - p))
block_facts p h =
    let e =
      holds_below_at (λ p. (2 ^ (32 - p) * 2 ^ p == 2 ^ 32) && leb 4 (2 ^ (32 - p))) 31
        (unfold holds_below in refl) p (omega arith) in
    ground arith

-- An address with its host bits cleared starts a block that fits the address space.
block_fits : (a z n : ℕ) → z * n ≡ 2 ^ 32 → 4 ≤ z → a < 2 ^ 32 → a - a % z + z ≤ 2 ^ 32
block_fits a z n e big word =
    let below : a / z < n = grind (arith, div-add-mod a z, mul-le-mul_left) in
    grind (arith, div-add-mod a z, mul-le-mul_left)

last_address_lem : (b z : ℕ) → 4 ≤ z → b + z ≤ 2 ^ 32 → last_address b (u32 z) ≡ b + z - 1
last_address_lem b z big fits = omega arith

-- of a new subnet only the three reserved addresses are taken
only_ends :
    (b g l w : ℕ) {P : Type 0}
    → (if l == w then true else if g == w then true else if b == w then true else false) ≡ true
    → (w ≡ b) ⊎ (w ≡ g) ⊎ (w ≡ l) ⊎ P
only_ends b g l w h = elim (Bool-cases (l == w)) [
  | inl last ↦ inr (inr (inl (ground arith)))
  | inr not_last ↦ elim (Bool-cases (g == w)) [
    | inl second ↦ inr (inl (ground arith))
    | inr not_second ↦ inl (ground arith)
  ]
]

new_subnet-IsValid :
    (base prefix : ℕ)
    → 4 ≤ 2 ^ (32 - prefix)
    → base + 2 ^ (32 - prefix) ≤ 2 ^ 32
    → IsValid (new_subnet base prefix)
unfolding new_subnet lookup
new_subnet-IsValid base prefix big fits =
    let last = last_address_lem base (2 ^ (32 - prefix)) big fits in
    record {
      gateway_next = omega arith;
      room = omega (arith, last);
      word = omega (arith, last);
      unique = tt;
      range = λ k w e. absurd (none≢some e);
      distinct = λ k j w e f. absurd (none≢some e);
      held_taken = λ k w e. absurd (none≢some e);
      ends_taken = ground arith;
      taken_held = λ w e. only_ends base (u32 (base + 1)) _ w e;
    }

-- A subnet that `ParseSubnet` accepts is valid, and no guest holds an address of it.
pub parse_subnet-IsValid :
    (address prefix : ℕ) {s : Subnet}
    → address < 2 ^ 32
    → parse_subnet address prefix ≡ ok s
    → IsValid s × (s.used ≡ [])
unfolding parse_subnet lookup
parse_subnet-IsValid address prefix word e = elim (Bool-cases (ltb 30 prefix)) [
  | inl small ↦ cc
  | inr large ↦
      let (divides, big) = block_facts prefix (ground arith) in
      subst (λ s. IsValid s × (s.used ≡ [])) (ok-injective (rw large at e))
        (
          new_subnet-IsValid (address - address % 2 ^ (32 - prefix)) prefix big
              (block_fits address (2 ^ (32 - prefix)) (2 ^ prefix) divides big word),
          refl,
        )
]
