-- ===== src/Network/Manager/Installed.antt =====
-- The networks in memory, in the store and in the ruleset that is in force
-- (internal/network/manager.go).
use micro_hosted.Prelude.{
  ◌≡◌, refl, sym, ap, ◌∙◌, subst, Bool, true, false, Option, none, some, [], ◌∷◌, String, str_eq,
  eq_iff, Dict, lookup, insert, erase, lookup-insert, lookup-erase, arith, Bool-cases, inl, inr,
}
use micro_hosted.Network.Firewall.{Net}
use micro_hosted.Network.Manager.{NetRecord, ManagedNet, snapshot}

-- One network, by its name: what memory, the ruleset in force and the store have of it. A network
-- that is in force is listed with its own bridge, and with the rules that memory declares once the
-- last install went well.
pub data Fits (ok : Bool) : Option ManagedNet → Option Net → Option NetRecord → Type 0 where
  absent : (listed : Option Net) → Fits ok none listed none
  waiting :
      (mn : ManagedNet) (listed : Option Net)
      → mn.pending ≡ true
      → mn.vms ≡ []
      → Fits ok (some mn) listed none
  in_force :
      (mn : ManagedNet) (r : Net)
      → mn.pending ≡ false
      → r.bridge ≡ mn.net.rules.bridge
      → (ok ≡ true → r ≡ mn.net.rules)
      → Fits ok (some mn) (some r) (some mn.net)

abbrev pub AllFit : Bool → Dict ManagedNet → Dict Net → Dict NetRecord → Type 0
AllFit ok nets installed stored =
    (name : String) → Fits ok (lookup name nets) (lookup name installed) (lookup name stored)

abbrev pub rules_of : Option ManagedNet → Option Net
rules_of none = none
rules_of (some mn) = some mn.net.rules

pub lookup-snapshot :
    (name : String) (nets : Dict ManagedNet)
    → lookup name (snapshot nets) ≡ rules_of (lookup name nets)
unfolding snapshot lookup
lookup-snapshot name [] = refl
lookup-snapshot name ((n, mn) ∷ nets) = ground (arith, lookup-snapshot name nets)

applied :
    (ok : Bool) (mn : Option ManagedNet) (listed : Option Net) (kept : Option NetRecord)
    → Fits ok mn listed kept
    → Fits true mn (rules_of mn) kept
applied ok _ _ _ (absent listed) = absent none
applied ok _ _ _ (waiting mn listed pending alone) = waiting mn (some mn.net.rules) pending alone
applied ok _ _ _ (in_force mn r settled same right) =
    in_force mn mn.net.rules settled refl (λ e. refl)

weaker :
    (ok : Bool) (mn : Option ManagedNet) (listed : Option Net) (kept : Option NetRecord)
    → Fits ok mn listed kept
    → Fits false mn listed kept
weaker ok _ _ _ (absent listed) = absent listed
weaker ok _ _ _ (waiting mn listed pending alone) = waiting mn listed pending alone
weaker ok _ _ _ (in_force mn r settled same right) = in_force mn r settled same (λ e. absurd (cc e))

-- An install that works, and one that does not.
pub applied-AllFit :
    (ok : Bool) (nets : Dict ManagedNet) (installed : Dict Net) (stored : Dict NetRecord)
    → AllFit ok nets installed stored
    → AllFit true nets (snapshot nets) stored
applied-AllFit ok nets installed stored fit name =
    subst (λ i. Fits true (lookup name nets) i (lookup name stored))
      (sym (lookup-snapshot name nets))
      (applied ok (lookup name nets) (lookup name installed) (lookup name stored) (fit name))

pub weaker-AllFit :
    (ok : Bool) (nets : Dict ManagedNet) (installed : Dict Net) (stored : Dict NetRecord)
    → AllFit ok nets installed stored
    → AllFit false nets installed stored
weaker-AllFit ok nets installed stored fit name =
    weaker ok (lookup name nets) (lookup name installed) (lookup name stored) (fit name)

-- A change of one network in memory and in the store.
abbrev pub Elsewhere {ℓ} : {V : Type ℓ} → String → Dict V → Dict V → Type ℓ
Elsewhere name d d' = (n : String) → str_eq name n ≡ false → lookup n d' ≡ lookup n d

module _ {ℓ} {V : Type ℓ} where
  pub insert-Elsewhere : (name : String) (v : V) (d : Dict V) → Elsewhere name d (insert name v d)
  insert-Elsewhere name v d n other = ground (arith, other, lookup-insert name n v d)

  pub erase-Elsewhere : (name : String) (d : Dict V) → Elsewhere name d (erase name d)
  erase-Elsewhere name d n other = ground (arith, other, lookup-erase name n d)

  pub lookup-insert_same :
      (name : String) (v : V) (d : Dict V) → lookup name (insert name v d) ≡ some v
  lookup-insert_same name v d = ground (arith, lookup-insert name name v d, eq_iff name name)

  pub lookup-erase_same : (name : String) (d : Dict V) → lookup name (erase name d) ≡ none
  lookup-erase_same name d = ground (arith, lookup-erase name name d, eq_iff name name)

pub changed-AllFit :
    (ok : Bool) (name : String) (nets nets' : Dict ManagedNet) (installed : Dict Net)
    (stored stored' : Dict NetRecord)
    → AllFit ok nets installed stored
    → Elsewhere name nets nets'
    → Elsewhere name stored stored'
    → Fits ok (lookup name nets') (lookup name installed) (lookup name stored')
    → AllFit ok nets' installed stored'
changed-AllFit ok name nets nets' installed stored stored' fit nets_same stored_same here n =
    elim (Bool-cases (str_eq name n)) [
      | inl its ↦
          subst (λ k. Fits ok (lookup k nets') (lookup k installed) (lookup k stored'))
            ((eq_iff name n).0 its) here
      | inr other ↦
          subst (λ o. Fits ok o (lookup n installed) (lookup n stored')) (sym (nets_same n other))
            (subst (λ s. Fits ok (lookup n nets) (lookup n installed) s) (sym (stored_same n other))
              (fit n))
    ]

-- What a network that is found has in the store and in the ruleset.
pub kept_of :
    (ok : Bool) (mn : ManagedNet) (found : Option ManagedNet) (listed : Option Net)
    (kept : Option NetRecord)
    → Fits ok found listed kept
    → found ≡ some mn
    → mn.pending ≡ false
    → (kept ≡ some mn.net)
      × ((r : Net) × ((listed ≡ some r)
            × (r.bridge ≡ mn.net.rules.bridge)
            × (ok ≡ true → r ≡ mn.net.rules)))
kept_of ok mn _ _ _ (absent listed) found settled = absurd (cc found)
kept_of ok mn _ _ _ (waiting mn' listed pending alone) found settled =
    let e : mn' ≡ mn = cc found in absurd (ground (arith, ap (λ x. x.pending) e, pending, settled))
kept_of ok mn _ _ _ (in_force mn' r settled' same right) found settled =
    let e : mn' ≡ mn = cc found in
    (
      ap (λ x. some x.net) e,
      (r, (refl, same ∙ ap (λ x. x.net.rules.bridge) e, λ w. right w ∙ ap (λ x. x.net.rules) e)),
    )

pub pending_of :
    (ok : Bool) (mn : ManagedNet) (found : Option ManagedNet) (listed : Option Net)
    (kept : Option NetRecord)
    → Fits ok found listed kept
    → found ≡ some mn
    → mn.pending ≡ true
    → (kept ≡ none) × (mn.vms ≡ [])
pending_of ok mn _ _ _ (absent listed) found waits = absurd (cc found)
pending_of ok mn _ _ _ (waiting mn' listed pending alone) found waits =
    let e : mn' ≡ mn = cc found in (refl, sym (ap (λ x. x.vms) e) ∙ alone)
pending_of ok mn _ _ _ (in_force mn' r settled' same right) found waits =
    let e : mn' ≡ mn = cc found in absurd (ground (arith, ap (λ x. x.pending) e, waits, settled'))

pub absent_of :
    (ok : Bool) (found : Option ManagedNet) (listed : Option Net) (kept : Option NetRecord)
    → Fits ok found listed kept
    → found ≡ none
    → kept ≡ none
absent_of ok _ _ _ (absent listed) found = refl
absent_of ok _ _ _ (waiting mn listed pending alone) found = absurd (cc found)
absent_of ok _ _ _ (in_force mn r settled same right) found = absurd (cc found)
