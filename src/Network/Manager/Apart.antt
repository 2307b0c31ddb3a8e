-- ===== src/Network/Manager/Apart.antt =====
-- Networks whose ingress rules share no packet (checkIngress of internal/network/manager.go).
use micro_hosted.Prelude.{
  ◌≡◌, refl, sym, ap, ◌∙◌, subst, true, false, some, List, [], ◌∷◌, String, str_eq, eq_iff, Dict,
  lookup, insert, erase, lookup-erase, arith, Bool-cases, inl, inr,
}
use micro_hosted.Network.Ipam.{Subnet}
use micro_hosted.Network.Clash.{admits, lets_in, admits-ingress_clash}
use micro_hosted.Network.Firewall.{IngressRule, Packet}
use micro_hosted.Network.Manager.Installed.{Elsewhere, insert-Elsewhere, lookup-insert_same}
use micro_hosted.Network.Manager.{ManagedNet, clashes, clashes_in, check_ingress}

-- No packet is let in by the rules and by another network than `name`.
abbrev pub Away : String → List IngressRule → Dict ManagedNet → Type 0
Away name rules nets =
    (other : String) (o : ManagedNet) (p : Packet)
    → str_eq name other ≡ false
    → lookup other nets ≡ some o
    → lets_in rules p ≡ true
    → lets_in o.net.rules.allowed_ingress p ≡ false

abbrev pub Apart : Dict ManagedNet → Type 0
Apart nets =
    (name : String) (mn : ManagedNet)
    → lookup name nets ≡ some mn
    → Away name mn.net.rules.allowed_ingress nets

clashes-lets_in :
    (r : IngressRule) (others : List IngressRule) (p : Packet)
    → clashes r others ≡ false
    → admits r p ≡ true
    → lets_in others p ≡ false
unfolding clashes lets_in
clashes-lets_in r [] p none_of hit = refl
clashes-lets_in r (o ∷ others) p none_of hit =
    ground (arith, clashes-lets_in r others p, admits-ingress_clash r o p)

clashes_in-lookup :
    (self : String) (r : IngressRule) (nets : Dict ManagedNet) (other : String) (o : ManagedNet)
    → clashes_in self r nets ≡ false
    → str_eq self other ≡ false
    → lookup other nets ≡ some o
    → clashes r o.net.rules.allowed_ingress ≡ false
unfolding clashes_in lookup
clashes_in-lookup self r [] other o none_of apart found = absurd (cc found)
clashes_in-lookup self r ((name, mn) ∷ nets) other o none_of apart found = ground (
  arith,
  clashes_in-lookup self r nets other o,
  eq_iff name other,
  eq_iff name self,
  eq_iff self other,
)

-- What `checkIngress` accepts.
pub check_ingress-Away :
    (self : String) (s : Subnet) (rules : List IngressRule) (nets : Dict ManagedNet)
    → check_ingress self s rules nets ≡ true
    → Away self rules nets
unfolding check_ingress lets_in
check_ingress-Away self s [] nets checked other o p apart found hit = absurd (cc hit)
check_ingress-Away self s (r ∷ rules) nets checked other o p apart found hit =
    let rest : check_ingress self s rules nets ≡ true = ground (arith, checked) in
    let unclashed : clashes_in self r nets ≡ false = ground (arith, checked) in
    let tail = check_ingress-Away self s rules nets rest other o p apart found in
    let none_of = clashes_in-lookup self r nets other o unclashed apart found in
    let head = clashes-lets_in r o.net.rules.allowed_ingress p none_of in
    elim (Bool-cases (admits r p)) [
      | inl first ↦ head first
      | inr missed ↦ tail (ground (arith, missed, hit))
    ]

pub Away-Elsewhere :
    (name : String) (rules : List IngressRule) (nets nets' : Dict ManagedNet)
    → Elsewhere name nets nets'
    → Away name rules nets
    → Away name rules nets'
Away-Elsewhere name rules nets nets' same away other o p apart found hit =
    away other o p apart (sym (same other apart) ∙ found) hit

inserted :
    (name n : String) (v x : ManagedNet) (nets : Dict ManagedNet)
    → str_eq name n ≡ true
    → lookup n (insert name v nets) ≡ some x
    → v ≡ x
inserted name n v x nets its found =
    let here : lookup n (insert name v nets) ≡ some v =
      subst (λ k. lookup k (insert name v nets) ≡ some v) ((eq_iff name n).0 its)
        (lookup-insert_same name v nets) in
    cc (sym here ∙ found)

beside :
    (name n : String) (x : ManagedNet) (nets nets' : Dict ManagedNet)
    → Elsewhere name nets nets'
    → str_eq name n ≡ false
    → lookup n nets' ≡ some x
    → lookup n nets ≡ some x
beside name n x nets nets' same other found = sym (same n other) ∙ found

-- A network with rules that share no packet with the others.
pub insert-Apart :
    (name : String) (mn : ManagedNet) (nets : Dict ManagedNet)
    → Away name mn.net.rules.allowed_ingress nets
    → Apart nets
    → Apart (insert name mn nets)
insert-Apart name mn nets away apart a x found_a b y p other found_b hit =
    let in_nets = λ (n : String) (z : ManagedNet).
      beside name n z nets (insert name mn nets) (insert-Elsewhere name mn nets) in
    elim (Bool-cases (str_eq name a)) [
      | inl is_a ↦
          let not_b : str_eq name b ≡ false = ground (arith, is_a, other, eq_iff name a) in
          let same = inserted name a mn x nets is_a found_a in
          away b y p not_b (in_nets b y not_b found_b)
            (ap (λ z. lets_in z.net.rules.allowed_ingress p) same ∙ hit)
      | inr not_a ↦ elim (Bool-cases (str_eq name b)) [
        | inl is_b ↦
            let same = inserted name b mn y nets is_b found_b in
            elim (Bool-cases (lets_in mn.net.rules.allowed_ingress p)) [
              | inl mine ↦ absurd (cc (sym hit ∙ away a x p not_a (in_nets a x not_a found_a) mine))
              | inr missed ↦ sym (ap (λ z. lets_in z.net.rules.allowed_ingress p) same) ∙ missed
            ]
        | inr not_b ↦
            apart a x (in_nets a x not_a found_a) b y p other (in_nets b y not_b found_b) hit
      ]
    ]

erased :
    (name n : String) (x : ManagedNet) (nets : Dict ManagedNet)
    → lookup n (erase name nets) ≡ some x
    → lookup n nets ≡ some x
erased name n x nets found = ground (arith, found, lookup-erase name n nets)

pub erase-Apart : (name : String) (nets : Dict ManagedNet) → Apart nets → Apart (erase name nets)
erase-Apart name nets apart a x found_a b y p other found_b hit =
    apart a x (erased name a x nets found_a) b y p other (erased name b y nets found_b) hit

-- A network with the rules that it has.
pub same-Apart :
    (name : String) (mn mn' : ManagedNet) (nets : Dict ManagedNet)
    → lookup name nets ≡ some mn
    → mn.net.rules.allowed_ingress ≡ mn'.net.rules.allowed_ingress
    → Apart nets
    → Apart (insert name mn' nets)
same-Apart name mn mn' nets found same apart =
    insert-Apart name mn' nets (subst (λ rules. Away name rules nets) same (apart name mn found))
      apart
