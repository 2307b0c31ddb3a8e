-- ===== src/Vm/IoLimits/Tests.antt =====
-- The limits at concrete requests.
use micro_hosted.Prelude.{◌≡◌, ◌↔◌, refl, none, some, ok, err, arith}
use micro_hosted.Prelude.Int.{pos}
use micro_hosted.Vm.IoLimits.{
  IoLimits, default_io, effective_io, validate_io_limits, lower_io_limits, clamp_io_limits,
  exceeds_ceiling, disk_iops_field, lower_limit,
}
use micro_hosted.Vm.IoLimits.Capped.{
  AllWithin, AllPass, effective_io_within, clamp_io_limits_lem, lower_io_limits_lem,
  validate_io_limits_iff,
}

abbrev greedy : IoLimits
greedy = record { disk_mibs = pos 10; disk_iops = pos 9000; net_mbit = pos 0 }

abbrev modest : IoLimits
modest = record { disk_mibs = pos 20; disk_iops = pos 500; net_mbit = pos 1 }

greedy_refused : validate_io_limits (some greedy) default_io ≡ err (exceeds_ceiling disk_iops_field)
unfolding validate_io_limits
greedy_refused = refl

greedy_gets :
    effective_io (some greedy) default_io
    ≡ record { disk_mibs = pos 10; disk_iops = pos 4000; net_mbit = pos 100 }
unfolding effective_io lower_limit
greedy_gets = refl

effective_io_within_example :
    AllWithin (effective_io (some greedy) default_io) default_io
    × AllWithin (effective_io (some greedy) default_io) greedy
    × (effective_io none default_io ≡ default_io)
effective_io_within_example = effective_io_within greedy default_io (omega arith) (omega arith)

clamp_io_limits_run :
    (validate_io_limits (clamp_io_limits (some greedy) default_io) default_io ≡ ok tt)
    × (effective_io (clamp_io_limits (some greedy) default_io) default_io
        ≡ effective_io (some greedy) default_io)
clamp_io_limits_run = clamp_io_limits_lem greedy default_io (omega arith) (omega arith)

lower_io_limits_run :
    (l : IoLimits) × (lower_io_limits (some modest) (some modest) ≡ some l)
    × (validate_io_limits (some l) default_io ≡ ok tt)
    × AllWithin l modest
    × AllWithin l modest
lower_io_limits_run = lower_io_limits_lem modest modest default_io (omega arith) (omega arith)

modest_accepted : (validate_io_limits (some modest) default_io ≡ ok tt) ↔ AllPass modest default_io
modest_accepted = validate_io_limits_iff modest default_io
