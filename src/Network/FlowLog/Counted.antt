-- ===== src/Network/FlowLog/Counted.antt =====
-- The counts of the flow log, and the sources that a packet touches.
use micro_hosted.Prelude.{ℕ, ◌+◌, Option, none, some, List, [], ◌∷◌, String, Dict}
use micro_hosted.Network.FlowLog.Oldest.{Holds, NoneBefore}
use micro_hosted.Network.FlowLog.{FlowLimits, Flow, FlowSource}

-- The packets that a source accounts for.
unfoldable pub counted : List Flow → ℕ
counted [] = 0
counted (f ∷ fs) = f.count + counted fs

abbrev pub accounted : FlowSource → ℕ
accounted s = counted s.flows + s.omitted

abbrev pub accounted_at : Option FlowSource → ℕ
accounted_at none = 0
accounted_at (some s) = accounted s

module _ (l : FlowLimits) (sk : String) (now : ℕ) (sources : Dict FlowSource) where
  -- A source that was heard from no later than any other.
  abbrev IsOldest : String → Type 0
  IsOldest k = (o : FlowSource) × (Holds k o sources × NoneBefore o.last sources)
