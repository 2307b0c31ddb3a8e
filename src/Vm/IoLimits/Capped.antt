-- ===== src/Vm/IoLimits/Capped.antt =====
-- What a machine gets, against the ceiling and against what it asked for.
use micro_hosted.Prelude.{◌≡◌, ◌↔◌, refl, none, some, ok, arith}
use micro_hosted.Prelude.Int.{ℤ, pos, negsuc, ◌≤ℤ◌, ◌<ℤ◌}
use micro_hosted.Vm.IoLimits.{
  IoLimits, lower_limit, effective_io, validate_io_limits, lower_asked, lower_io_limits, clamp,
  clamp_io_limits,
}

-- No field is negative.
pub record IsSane (l : IoLimits) : Type 0 where
  pub disk_mibs : pos 0 ≤ℤ l.disk_mibs
  pub disk_iops : pos 0 ≤ℤ l.disk_iops
  pub net_mbit : pos 0 ≤ℤ l.net_mbit

-- `v` is a limit at most `bound`, if `bound` is one: 0 is no limit.
abbrev pub Within : ℤ → ℤ → Type 0
Within v bound = pos 0 <ℤ bound → (pos 0 <ℤ v) × (v ≤ℤ bound)

pub record AllWithin (l bound : IoLimits) : Type 0 where
  pub disk_mibs : Within l.disk_mibs bound.disk_mibs
  pub disk_iops : Within l.disk_iops bound.disk_iops
  pub net_mbit : Within l.net_mbit bound.net_mbit

lower_limit-Within :
    (req ceil : ℤ)
    → pos 0 ≤ℤ req
    → pos 0 ≤ℤ ceil
    → Within (lower_limit req ceil) ceil × Within (lower_limit req ceil) req
unfolding lower_limit
lower_limit-Within (pos r) (pos c) hr hc = ground arith
lower_limit-Within (negsuc r) c hr hc = absurd (omega arith)
lower_limit-Within (pos r) (negsuc c) hr hc = absurd (omega arith)

-- What a machine gets lies within the ceiling and within its request, field by field; no request
-- gets the ceiling itself.
pub effective_io_within :
    (req ceil : IoLimits)
    → IsSane req
    → IsSane ceil
    → AllWithin (effective_io (some req) ceil) ceil
      × AllWithin (effective_io (some req) ceil) req
      × (effective_io none ceil ≡ ceil)
unfolding effective_io
effective_io_within req ceil hr hc =
    let a = lower_limit-Within req.disk_mibs ceil.disk_mibs hr.disk_mibs hc.disk_mibs in
    let b = lower_limit-Within req.disk_iops ceil.disk_iops hr.disk_iops hc.disk_iops in
    let c = lower_limit-Within req.net_mbit ceil.net_mbit hr.net_mbit hc.net_mbit in
    (
      record { disk_mibs = a.0; disk_iops = b.0; net_mbit = c.0 },
      record { disk_mibs = a.1; disk_iops = b.1; net_mbit = c.1 },
      refl,
    )

-- A field that `ValidateIOLimits` lets pass.
abbrev Passes : ℤ → ℤ → Type 0
Passes req ceil = (pos 0 ≤ℤ req) × (pos 0 <ℤ ceil → req ≤ℤ ceil)

abbrev pub AllPass : IoLimits → IoLimits → Type 0
AllPass req ceil =
    Passes req.disk_mibs ceil.disk_mibs
    × Passes req.disk_iops ceil.disk_iops
    × Passes req.net_mbit ceil.net_mbit

-- `ValidateIOLimits` accepts a request exactly when no field is negative or above a ceiling.
pub validate_io_limits_iff :
    (req ceil : IoLimits) → (validate_io_limits (some req) ceil ≡ ok tt) ↔ AllPass req ceil
unfolding validate_io_limits
validate_io_limits_iff req ceil = (λ h. ground arith, λ h. ground arith)

clamp-Passes : (v ceil : ℤ) → pos 0 ≤ℤ v → Passes (clamp v ceil) ceil
unfolding clamp
clamp-Passes v ceil h = ground arith

effective-clamp :
    (v ceil : ℤ) → pos 0 ≤ℤ v → pos 0 ≤ℤ ceil → lower_limit (clamp v ceil) ceil ≡ lower_limit v ceil
unfolding lower_limit clamp
effective-clamp v ceil h hc = ground arith

-- A clamped request passes the validation, and gets the machine what the request itself would.
pub clamp_io_limits_lem :
    (req ceil : IoLimits)
    → IsSane req
    → IsSane ceil
    → (validate_io_limits (clamp_io_limits (some req) ceil) ceil ≡ ok tt)
      × (effective_io (clamp_io_limits (some req) ceil) ceil ≡ effective_io (some req) ceil)
unfolding clamp_io_limits effective_io
clamp_io_limits_lem req ceil hr hc = (
  (validate_io_limits_iff _ ceil).1 (
    clamp-Passes req.disk_mibs ceil.disk_mibs hr.disk_mibs,
    clamp-Passes req.disk_iops ceil.disk_iops hr.disk_iops,
    clamp-Passes req.net_mbit ceil.net_mbit hr.net_mbit,
  ),
  ground (
    arith,
    effective-clamp req.disk_mibs ceil.disk_mibs hr.disk_mibs hc.disk_mibs,
    effective-clamp req.disk_iops ceil.disk_iops hr.disk_iops hc.disk_iops,
    effective-clamp req.net_mbit ceil.net_mbit hr.net_mbit hc.net_mbit,
  ),
)

lower_asked_lem :
    (a b ceil : ℤ)
    → Passes a ceil
    → Passes b ceil
    → Passes (lower_asked a b) ceil × Within (lower_asked a b) a × Within (lower_asked a b) b
unfolding lower_asked
lower_asked_lem a b ceil ha hb = ground arith

-- A fork of a snapshot asks for the lower of both requests: of two requests that pass the
-- validation that one passes too, and it is within each of them.
pub lower_io_limits_lem :
    (a b ceil : IoLimits)
    → AllPass a ceil
    → AllPass b ceil
    → (l : IoLimits) × (lower_io_limits (some a) (some b) ≡ some l)
      × (validate_io_limits (some l) ceil ≡ ok tt)
      × AllWithin l a
      × AllWithin l b
unfolding lower_io_limits
lower_io_limits_lem a b ceil ha hb =
    let x = lower_asked_lem a.disk_mibs b.disk_mibs ceil.disk_mibs ha.0 hb.0 in
    let y = lower_asked_lem a.disk_iops b.disk_iops ceil.disk_iops ha.1 hb.1 in
    let z = lower_asked_lem a.net_mbit b.net_mbit ceil.net_mbit ha.2 hb.2 in
    (
      _,
      refl,
      (validate_io_limits_iff _ ceil).1 (x.0, y.0, z.0),
      record { disk_mibs = x.1; disk_iops = y.1; net_mbit = z.1 },
      record { disk_mibs = x.2; disk_iops = y.2; net_mbit = z.2 },
    )
