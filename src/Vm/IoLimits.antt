-- ===== src/Vm/IoLimits.antt =====
-- Throughput limits (internal/vm/iolimits.go; IOLimits of pkg/types/vm.go). A field is an int64;
-- no operation here adds, so that its width does not matter. A nil request is `none`.
pub mod Capped
mod Tests
use micro_hosted.Prelude.{
  ℕ, Bool, true, false, ◌||◌, ◌&&◌, not, Option, none, some, if◌then◌else◌, Result, ok, err,
}
use micro_hosted.Prelude.Int.{ℤ, pos, negsuc, lt_ℤ, eq_ℤ}

pub record IoLimits : Type 0 where
  pub disk_mibs : ℤ
  pub disk_iops : ℤ
  pub net_mbit : ℤ

abbrev pub default_io : IoLimits
default_io = record { disk_mibs = pos 100; disk_iops = pos 4000; net_mbit = pos 100 }

unfoldable pub lower_limit : ℤ → ℤ → ℤ
lower_limit req ceil =
    if eq_ℤ req (pos 0) then ceil else if eq_ℤ ceil (pos 0) || lt_ℤ req ceil then req else ceil

-- `EffectiveIO`.
unfoldable pub effective_io : Option IoLimits → IoLimits → IoLimits
effective_io none ceil = ceil
effective_io (some req) ceil = record {
  disk_mibs = lower_limit req.disk_mibs ceil.disk_mibs;
  disk_iops = lower_limit req.disk_iops ceil.disk_iops;
  net_mbit = lower_limit req.net_mbit ceil.net_mbit;
}

pub data Field : Type 0 where
  disk_mibs_field disk_iops_field net_mbit_field : Field

pub data Refusal : Type 0 where
  negative : Field → Refusal
  exceeds_ceiling : Field → Refusal

-- One round of the loop of `ValidateIOLimits`; `rest` is the rounds after it.
abbrev check_field : Field → ℤ → ℤ → Result Refusal (Unit {0}) → Result Refusal (Unit {0})
check_field name req ceil rest =
    if lt_ℤ req (pos 0)
    then err (negative name)
    else if lt_ℤ (pos 0) ceil && lt_ℤ ceil req
    then err (exceeds_ceiling name)
    else rest

unfoldable pub validate_io_limits : Option IoLimits → IoLimits → Result Refusal (Unit {0})
validate_io_limits none ceil = ok tt
validate_io_limits (some req) ceil = check_field disk_mibs_field req.disk_mibs ceil.disk_mibs (
    check_field disk_iops_field req.disk_iops ceil.disk_iops
      (check_field net_mbit_field req.net_mbit ceil.net_mbit (ok tt)))

unfoldable pub lower_asked : ℤ → ℤ → ℤ
lower_asked a b = if eq_ℤ a (pos 0) || (not (eq_ℤ b (pos 0)) && lt_ℤ b a) then b else a

-- `lowerIOLimits`.
unfoldable pub lower_io_limits : Option IoLimits → Option IoLimits → Option IoLimits
lower_io_limits none b = b
lower_io_limits (some a) none = some a
lower_io_limits (some a) (some b) = some (record {
  disk_mibs = lower_asked a.disk_mibs b.disk_mibs;
  disk_iops = lower_asked a.disk_iops b.disk_iops;
  net_mbit = lower_asked a.net_mbit b.net_mbit;
})

unfoldable pub clamp : ℤ → ℤ → ℤ
clamp v ceil = if lt_ℤ (pos 0) ceil && lt_ℤ ceil v then ceil else v

-- `clampIOLimits`.
unfoldable pub clamp_io_limits : Option IoLimits → IoLimits → Option IoLimits
clamp_io_limits none ceil = none
clamp_io_limits (some req) ceil = some (record {
  disk_mibs = clamp req.disk_mibs ceil.disk_mibs;
  disk_iops = clamp req.disk_iops ceil.disk_iops;
  net_mbit = clamp req.net_mbit ceil.net_mbit;
})
