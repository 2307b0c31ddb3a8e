-- ===== src/Network/Firewall/Translation.antt =====
-- The chain `prerouting` and the packets that `forward` sees after it.
use micro_hosted.Prelude.{
  ℕ, Bool, true, false, map, if◌then◌else◌, Bool-cases, ◌∙◌, ◌≡◌, ◌⊎◌, inl, inr, some, List, [],
  ◌∷◌, ◌++◌, arith, eq_iff,
}
use micro_hosted.Network.Firewall.{
  Packet, Match, Net, IngressRule, ManagedIface, Sets, all_hold, holds, Range, listed, run_chain,
  accept, drop,
}
use micro_hosted.Network.Firewall.Rules.{
  sets, forward_chain, is_managed, dnats_of, prerouting_chain, translated,
}
use micro_hosted.Network.Firewall.Chain.{any_of}
use micro_hosted.Network.Firewall.Isolation.{is_isolated}
use micro_hosted.Network.Firewall.Managed.{device_reach}
use micro_hosted.Network.Firewall.Spec.{ingress_request}

-- The packet after its translation, on its way to the bridge of a network.
abbrev pub routed : Packet → Net → ℕ → Packet
routed p n target = record {
  iif = p.iif;
  oif = n.bridge;
  src = p.src;
  dst = target;
  proto = p.proto;
  sport = p.sport;
  dport = p.dport;
  established = p.established;
  reply = p.reply;
  dnat = true;
  dst_local = false;
}

module _ (s : Sets) (p : Packet) (managed : List ManagedIface) where
  translated-append :
      (ds es : List (List Match × ℕ)) (target : ℕ)
      → translated s p (ds ++ es) ≡ some target
      → (translated s p ds ≡ some target) ⊎ (translated s p es ≡ some target)
  unfolding translated
  translated-append [] es target h = inr h
  translated-append ((ms, t) ∷ ds) es target h = ground (arith, translated-append ds es target)

  translated_rules :
      (n : Net) (rs : List IngressRule) (target : ℕ)
      → p.reply ≡ false
      → translated s p (dnats_of managed rs) ≡ some target
      → (any_of (ingress_request n (routed p n target)) rs ≡ true)
        × (is_managed managed p.iif ≡ true)
  unfolding translated dnats_of any_of all_hold holds
  translated_rules n [] target first h = cc h
  translated_rules n (r ∷ rs) target first h =
      ground
        (arith, eq_iff r.iface p.iif, eq_iff n.bridge n.bridge, translated_rules n rs target first)

  translated_request :
      (networks : List Net) (target : ℕ)
      → p.reply ≡ false
      → translated s p (prerouting_chain managed networks) ≡ some target
      → (any_of (λ n. any_of (ingress_request n (routed p n target)) n.allowed_ingress) networks
          ≡ true)
        × (is_managed managed p.iif ≡ true)
  unfolding prerouting_chain any_of translated
  translated_request [] target first h = cc h
  translated_request (n ∷ ns) target first h =
      elim (translated-append (dnats_of managed n.allowed_ingress) (prerouting_chain managed ns)
        target h) [
          | inl here ↦ ground (arith, translated_rules n n.allowed_ingress target first here)
          | inr later ↦ ground (arith, translated_request ns target first later)
        ]

-- A network that passes a test.
any_of_found :
    (f : Net → Bool) (networks : List Net)
    → any_of f networks ≡ true
    → (n : Net) × ((f n ≡ true) × ((g : Net → Bool) → g n ≡ true → any_of g networks ≡ true))
unfolding any_of
any_of_found f [] h = absurd (cc h)
any_of_found f (n ∷ ns) h = elim (Bool-cases (f n)) [
  | inl here ↦ (n, (here, λ g its. ground (arith, its)))
  | inr other ↦
      let (k, (found, all)) = any_of_found f ns (ground (arith, h, other)) in
      (k, (found, λ g its. ground (arith, all g its)))
]

-- What `prerouting` rewrites, `forward` accepts: a packet of a new flow, from no bridge of a
-- network, whose destination is rewritten, comes in on a managed interface, and an ingress rule of
-- some network lets it in to the rewritten address. On that network's bridge the chain `forward`
-- then accepts it, unless it is isolated.
pub translated_admitted :
    (on : Bool) (private : List Range) (managed : List ManagedIface) (networks : List Net)
    (p : Packet) (target : ℕ)
    → p.reply ≡ false
    → listed p.iif (map (λ n. n.bridge) networks) ≡ false
    → translated (sets private networks) p (prerouting_chain managed networks) ≡ some target
    → (is_managed managed p.iif ≡ true)
      × ((n : Net) × ((any_of (ingress_request n (routed p n target)) n.allowed_ingress ≡ true)
            × (run_chain
                  (sets private networks)
                  (routed p n target)
                  (forward_chain on managed networks)
                ≡ (if is_isolated (sets private networks) (routed p n target)
                    then drop
                    else accept))))
translated_admitted on private managed networks p target first no_bridge rewritten =
    let (requested, from_managed) =
      translated_request (sets private networks) p managed networks target first rewritten in
    let (n, (lets_in, all)) =
      any_of_found (λ k. any_of (ingress_request k (routed p k target)) k.allowed_ingress) networks
        requested in
    let admitted =
      all (λ k. any_of (ingress_request k (routed p n target)) k.allowed_ingress) lets_in in
    (
      from_managed,
      (
        n,
        (
          lets_in,
          device_reach on private managed networks (routed p n target) from_managed no_bridge first
              ∙ ground (arith, admitted),
        ),
      ),
    )
