-- ===== src/Vm/IdPool/Exclusive.antt =====
-- The owner of an identity, over the calls on a pool.
use micro_hosted.Prelude.{
  ℕ, ◌+◌, ◌%◌, ◌≤◌, ◌<◌, ◌≡◌, ◌≢◌, ◌⊎◌, inl, inr, sym, ◌∙◌, ap, ok-injective, Bool, false, Option,
  none, some, String, List, [], ◌∷◌, eq_iff, ◌==◌, ok, arith, Bool-cases,
}
use native.Mathlib.Nat.{mod-lt}
use micro_hosted.Vm.IdPool.{IdPool, owned_by, take, alloc, release, offset}
use micro_hosted.Vm.IdPool.Rotation.{Assigned, alloc_lem}

-- The next candidate and every owned identity lie in the range.
pub record IsValid (p : IdPool) : Type 0 where
  pub next_in : p.next < p.count
  pub owned_in :
      (uid : ℕ) (o : String) → p.owner uid ≡ some o → (p.base ≤ uid) × (uid < p.base + p.count)

-- The calls on a pool, with what the process table said at each allocation.
pub data Op : Type 0 where
  taken : ℕ → String → Op
  allocated : Option (ℕ → Bool) → String → Op
  released : ℕ → String → Op

unfoldable pub apply : Op → IdPool → IdPool
apply (taken uid o) p = (take uid o p).1
apply (allocated live o) p = (alloc live o p).1
apply (released uid o) p = release uid o p

unfoldable pub run : List Op → IdPool → IdPool
run [] p = p
run (op ∷ ops) p = run ops (apply op p)

take-IsValid : (uid : ℕ) (o : String) (p : IdPool) → IsValid p → IsValid (take uid o p).1
unfolding take
take-IsValid uid o p h = record {
  next_in = ground arith;
  owned_in = λ u o' e. ground (arith, h.owned_in u o');
}

Assigned-IsValid :
    (live : ℕ → Bool) (o : String) (p : IdPool)
    → IsValid p
    → Assigned live o p (alloc (some live) o p)
    → IsValid (alloc (some live) o p).1
Assigned-IsValid live o p h a =
    let room : (offset p a.round + 1) % p.count < p.count = mod-lt _ (omega (arith, h.next_in)) in
    record {
      next_in = rw (a.next, a.same_range.1) room;
      owned_in = λ u o' e.
          let e' : owned_by (p.base + offset p a.round) (some o) p.owner u ≡ some o' =
            sym (ap (λ (f : ℕ → Option String). f u) a.owners) ∙ e in
          rw (a.same_range.0, a.same_range.1) (ground (arith, h.owned_in u o', a.in_range));
    }

alloc-IsValid :
    (live : Option (ℕ → Bool)) (o : String) (p : IdPool) → IsValid p → IsValid (alloc live o p).1
alloc-IsValid none o p h = rw (alloc_lem (λ _. false) o p h.next_in).0 h
alloc-IsValid (some live) o p h = elim (alloc_lem live o p h.next_in).1 [
  | inl a ↦ Assigned-IsValid live o p h a
  | inr (failed, _) ↦ rw failed h
]

release-IsValid : (uid : ℕ) (o : String) (p : IdPool) → IsValid p → IsValid (release uid o p)
unfolding release
release-IsValid uid o p h = record {
  next_in = ground arith;
  owned_in = λ u o' e. ground (arith, h.owned_in u o');
}

apply-IsValid : (op : Op) (p : IdPool) → IsValid p → IsValid (apply op p)
unfolding apply
apply-IsValid (taken uid o) p h = take-IsValid uid o p h
apply-IsValid (allocated live o) p h = alloc-IsValid live o p h
apply-IsValid (released uid o) p h = release-IsValid uid o p h

-- The owner does not give the identity back.
abbrev pub KeptBy : ℕ → String → Op → Type 0
KeptBy uid o (released u c) = (u ≢ uid) ⊎ (c ≢ o)
KeptBy uid o _ = Unit {0}

abbrev pub AllKept : ℕ → String → List Op → Type 0
AllKept uid o [] = Unit {0}
AllKept uid o (op ∷ ops) = KeptBy uid o op × AllKept uid o ops

module _ (uid : ℕ) (o : String) where
  alloc_keeps :
      (live : Option (ℕ → Bool)) (c : String) (p : IdPool)
      → IsValid p
      → p.owner uid ≡ some o
      → (alloc live c p).1.owner uid ≡ some o
  alloc_keeps none c p h held = rw (alloc_lem (λ _. false) c p h.next_in).0 held
  alloc_keeps (some live) c p h held = elim (alloc_lem live c p h.next_in).1 [
    | inl a ↦ rw a.owners (ground (arith, a.unowned, ap p.owner))
    | inr (failed, _) ↦ rw failed held
  ]

  apply_keeps :
      (op : Op) (p : IdPool)
      → IsValid p
      → KeptBy uid o op
      → p.owner uid ≡ some o
      → (apply op p).owner uid ≡ some o
  unfolding apply take release
  apply_keeps (taken u c) p h k held = elim (Bool-cases (u == uid)) [
    | inl same ↦
        let there : p.owner u ≡ some o = ap p.owner (ground arith) ∙ held in
        ground (arith, there, eq_iff o c)
    | inr other ↦ ground arith
  ]
  apply_keeps (allocated live c) p h k held = alloc_keeps live c p h held
  apply_keeps (released u c) p h k held = elim (Bool-cases (u == uid)) [
    | inl same ↦
        let there : p.owner u ≡ some o = ap p.owner (ground arith) ∙ held in
        ground (arith, there, eq_iff o c)
    | inr other ↦ ground arith
  ]

  run-Keeps :
      (ops : List Op) (p : IdPool)
      → IsValid p
      → AllKept uid o ops
      → p.owner uid ≡ some o
      → ((run ops p).owner uid ≡ some o) × IsValid (run ops p)
  unfolding run
  run-Keeps [] p h k held = (held, h)
  run-Keeps (op ∷ ops) p h k held =
      run-Keeps ops (apply op p) (apply-IsValid op p h) k.1 (apply_keeps op p h k.0 held)

  alloc_ne :
      (live : Option (ℕ → Bool)) (c : String) (p : IdPool)
      → IsValid p
      → p.owner uid ≡ some o
      → (alloc live c p).0 ≢ ok uid
  alloc_ne none c p h held given = cc ((alloc_lem (λ _. false) c p h.next_in).0, given)
  alloc_ne (some live) c p h held given = elim (alloc_lem live c p h.next_in).1 [
    | inl a ↦
        let same : p.base + offset p a.round ≡ uid = ok-injective (sym a.result ∙ given) in
        cc (a.unowned, ap p.owner same, held)
    | inr (failed, _) ↦ cc (failed, given)
  ]

  -- An identity stays its owner's through any calls in which the owner does not release it: no
  -- allocation hands it out, and no other owner can take it.
  pub owner_kept :
      (ops : List Op) (p : IdPool)
      → IsValid p
      → AllKept uid o ops
      → p.owner uid ≡ some o
      → ((run ops p).owner uid ≡ some o)
        × ((live : Option (ℕ → Bool)) (c : String) → (alloc live c (run ops p)).0 ≢ ok uid)
        × ((c : String) → c ≢ o → take uid c (run ops p) ≡ (false, run ops p))
  unfolding take
  owner_kept ops p h k held =
      let (still, valid) = run-Keeps ops p h k held in
      (
        still,
        λ live c. alloc_ne live c (run ops p) valid still,
        λ c ne. ground (arith, still, eq_iff o c),
      )
