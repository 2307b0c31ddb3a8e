-- ===== src/Network/Firewall/Recording.antt =====
-- The rules that record drops (writeFlowLog) and the verdicts.
use micro_hosted.Prelude.{true, false, ◌≡◌, refl, List, [], ◌∷◌, arith, ◌∙◌, sym}
use micro_hosted.Network.Firewall.{Packet, Net, ManagedIface, Sets, decide, run_chain}
use micro_hosted.Network.Firewall.Rules.{forward_chain, input_chain, each, wan_rules}
use micro_hosted.Network.Firewall.Chain.{decide-append}
use micro_hosted.Network.Firewall.Forward.{decide-forward}
use micro_hosted.Network.Firewall.Managed.{host_reach}
use micro_hosted.Network.Firewall.Egress.{decide-wan_rules}

decide-wan_section :
    (s : Sets) (p : Packet) (networks : List Net)
    → decide s p (each (wan_rules true) networks) ≡ decide s p (each (wan_rules false) networks)
unfolding each decide
decide-wan_section s p [] = refl
decide-wan_section s p (n ∷ ns) = ground (
  arith,
  decide-append s p (wan_rules true n) (each (wan_rules true) ns),
  decide-append s p (wan_rules false n) (each (wan_rules false) ns),
  decide-wan_rules s p true n,
  decide-wan_rules s p false n,
  decide-wan_section s p ns,
)

-- Every packet has the same verdict in `forward` and in `input` with the rules that record drops as
-- without them, so a kernel that cannot record them enforces the same policy.
pub records_neutral :
    (s : Sets) (managed : List ManagedIface) (networks : List Net) (p : Packet)
    → (run_chain s p (forward_chain true managed networks)
        ≡ run_chain s p (forward_chain false managed networks))
      × (run_chain s p (input_chain true managed) ≡ run_chain s p (input_chain false managed))
unfolding run_chain
records_neutral s managed networks p = (
  ground (
    arith,
    decide-forward s p true managed networks,
    decide-forward s p false managed networks,
    decide-wan_section s p networks,
  ),
  host_reach true s managed p ∙ sym (host_reach false s managed p),
)
