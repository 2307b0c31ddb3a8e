-- ===== src/Vm/IdPool/Rotation.antt =====
-- Which identity `alloc` picks.
use micro_hosted.Prelude.{
  ℕ, zero, suc, ◌+◌, ◌-◌, ◌%◌, ◌≤◌, ◌<◌, ◌≡◌, ◌⊎◌, inl, inr, refl, sym, subst, Bool, true, false,
  none, some, String, leb, ◌==◌, Result, ok, err, arith, Bool-cases, Option-cases, some_inj,
  none≢some,
}
use native.Mathlib.Nat.{mod-lt, mod-eq_of_lt, mod-eq-sub-mod}
use micro_hosted.Vm.IdPool.{
  IdPool, Error, all_in_use, table_unreadable, owned_by, offset, is_busy, free_round, alloc,
}

around :
    (next count i off : ℕ)
    → off < count
    → (next + i ≡ off) ⊎ (next + i ≡ off + count)
    → (next + i) % count ≡ off
around next count i off ho (inl e) = rw e (mod-eq_of_lt ho)
around next count i off ho (inr e) = rw e (grind (arith, mod-eq-sub-mod, mod-eq_of_lt))

-- Every offset of the range comes in some round.
round_of :
    (next count off : ℕ)
    → next < count
    → off < count
    → (i : ℕ) × (i < count) × ((next + i) % count ≡ off)
round_of next count off hn ho = elim (Bool-cases (leb next off)) [
  | inl ahead ↦
      (off - next, ground arith, around next count (off - next) off ho (inl (ground arith)))
  | inr behind ↦ (
    off + count - next,
    ground arith,
    around next count (off + count - next) off ho (inr (ground arith)),
  )
]

module _ (p : IdPool) (live : ℕ → Bool) where
  abbrev busy_round : ℕ → Bool
  busy_round i = is_busy p live (p.base + offset p i)

  free_round-some :
      (n i : ℕ) {k : ℕ}
      → free_round p live n i ≡ some k
      → (i ≤ k)
        × (k < i + n)
        × (busy_round k ≡ false)
        × ((j : ℕ) → i ≤ j → j < k → busy_round j ≡ true)
  unfolding free_round
  free_round-some zero i h = absurd (none≢some h)
  free_round-some (suc n) i {k} h = elim (Bool-cases (busy_round i)) [
    | inl busy ↦
        let (low, high, free, before) = free_round-some n (i + 1) (rw (busy, free_round) at h) in
        (
          omega arith,
          omega arith,
          free,
          λ j lo hi. elim (Bool-cases (i == j)) [
            | inl same ↦ subst (λ j. busy_round j ≡ true) (ground arith) busy
            | inr other ↦ before j (ground arith) hi
          ],
        )
    | inr free ↦
        let e : i ≡ k = some_inj (rw (free, free_round) at h) in
        (
          omega arith,
          omega arith,
          subst (λ j. busy_round j ≡ false) e free,
          λ j lo hi. absurd (omega arith),
        )
  ]

  free_round-none :
      (n i : ℕ) → free_round p live n i ≡ none → (j : ℕ) → i ≤ j → j < i + n → busy_round j ≡ true
  unfolding free_round
  free_round-none zero i h j lo hi = absurd (omega arith)
  free_round-none (suc n) i h j lo hi = elim (Bool-cases (busy_round i)) [
    | inl busy ↦ elim (Bool-cases (i == j)) [
      | inl same ↦ subst (λ j. busy_round j ≡ true) (ground arith) busy
      | inr other ↦
          free_round-none n (i + 1) (rw (busy, free_round) at h) j (ground arith) (omega arith)
    ]
    | inr free ↦ absurd (none≢some (sym (rw (free, free_round) at h)))
  ]

-- What an allocation that succeeds gives.
pub record Assigned (live : ℕ → Bool) (o : String) (p : IdPool) (r : Result Error ℕ × IdPool)
    : Type 0 where
  pub round : ℕ
  pub result : r.0 ≡ ok (p.base + offset p round)
  pub in_range : offset p round < p.count
  pub unowned : p.owner (p.base + offset p round) ≡ none
  pub not_live : live (p.base + offset p round) ≡ false
  pub first : (j : ℕ) → j < round → is_busy p live (p.base + offset p j) ≡ true
  pub owners : r.1.owner ≡ owned_by (p.base + offset p round) (some o) p.owner
  pub next : r.1.next ≡ (offset p round + 1) % p.count
  pub same_range : (r.1.base ≡ p.base) × (r.1.count ≡ p.count)

free_parts :
    (p : IdPool) (live : ℕ → Bool) (uid : ℕ)
    → is_busy p live uid ≡ false
    → (p.owner uid ≡ none) × (live uid ≡ false)
free_parts p live uid h = elim (Option-cases (p.owner uid)) [
  | inl free ↦ (free, ground arith)
  | inr (o, held) ↦ ground arith
]

-- With a readable process table `alloc` assigns the first identity, going round the range from
-- the last one assigned, that has no owner and that no live process runs as; or it fails and
-- changes nothing, and then every identity of the range is owned or live. Without the table it
-- fails and changes nothing.
pub alloc_lem :
    (live : ℕ → Bool) (o : String) (p : IdPool)
    → p.next < p.count
    → (alloc none o p ≡ (err table_unreadable, p))
      × (Assigned live o p (alloc (some live) o p)
          ⊎ ((alloc (some live) o p ≡ (err all_in_use, p))
              × ((uid : ℕ) → p.base ≤ uid → uid < p.base + p.count → is_busy p live uid ≡ true)))
unfolding alloc
alloc_lem live o p h = (
  refl,
  elim (Option-cases (free_round p live p.count 0)) [
    | inl full ↦ inr (
      rw full,
      λ uid low high.
          let (i, lt, e) = round_of p.next p.count (uid - p.base) h (omega arith) in
          let at : p.base + offset p i ≡ uid = omega (arith, e) in
          subst (λ u. is_busy p live u ≡ true) at
            (free_round-none p live p.count 0 full i (omega arith) (omega arith)),
    )
    | inr (i, found) ↦
        let (low, high, free, before) = free_round-some p live p.count 0 found in
        let (unowned, not_live) = free_parts p live (p.base + offset p i) free in
        inl (record {
          round = i;
          result = rw found;
          in_range = mod-lt _ (omega arith);
          unowned = unowned;
          not_live = not_live;
          first = λ j lt. before j (omega arith) lt;
          owners = rw found;
          next = rw found;
          same_range = rw found (refl, refl);
        })
  ],
)
