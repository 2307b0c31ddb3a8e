-- ===== src/Orch/Rollout/Stepwise.antt =====
-- How far a roll-out comes (rollout and update of orchestrator/orch/rollout.go).
use micro_hosted.Prelude.{
  ◌≡◌, refl, ap, ◌∙◌, false, not, ◌&&◌, Option, none, some, String, str_eq, eq_iff, holds_if,
  lookup, insert, lookup-insert, arith,
}
use micro_hosted.Orch.{Function, is_persistent}
use micro_hosted.Orch.Supervise.{PersistentState}
use micro_hosted.Orch.Rollout.{
  Verified, works, interrupted, skipped, fails, Host, Running, set_fn, stop_cycles, unhold, mode_eq,
  lifecycle_eq, begin, Next, goes_on, halts, reset_in, started_cycles, after_update, tried,
  with_cycles, update, adopt, step,
}

abbrev pub version : String → Running → Option Function
version name r = lookup name r.effective

-- What a step on `name` comes to: the new version runs, or the one before and the function is held,
-- or the orchestrator is ending; no other function changes its version.
pub record Step (name : String) (new : Function) (before : Running) (done : Running × Next)
    : Type 0 where
  pub others : (n : String) → str_eq name n ≡ false → version n done.0 ≡ version n before
  pub on : done.1 ≡ goes_on → version name done.0 ≡ some new
  pub back :
      done.1 ≡ halts
      → (version name done.0 ≡ version name before)
        × ((reason : String) × (lookup name done.0.held ≡ some reason))

-- A change that leaves the versions and what is held.
abbrev Same : Running → Running → Type 0
Same r s = (s.effective ≡ r.effective) × (s.held ≡ r.held)

started_cycles-Same :
    (name : String) (f : Option Function) (r : Running) → Same r (started_cycles name f r)
started_cycles-Same name none r = (refl, refl)
started_cycles-Same name (some f) r =
    holds_if (Same r) (is_persistent f.lifecycle.mode) _ _ (λ lasting. (refl, refl))
      (λ cycles. (refl, refl))

begin-Same : (name : String) (f : Function) (r : Running) → Same r (begin name f r)
begin-Same name f r =
    holds_if (Same r) (is_persistent f.lifecycle.mode) _ _ (λ lasting. (refl, refl))
      (λ cycles. started_cycles-Same name (lookup name r.effective) r)

reset_in-Same :
    (name : String) (st : Option PersistentState) (r : Running) → Same r (reset_in name st r)
reset_in-Same name none r = (refl, refl)
reset_in-Same name (some st) r = (refl, refl)

version-set_fn :
    (name : String) (new : Function) (r : Running)
    → lookup name (insert name new r.effective) ≡ some new
version-set_fn name new r =
    ground (arith, lookup-insert name name new r.effective, eq_iff name name)

-- A step that sets the new version and no more.
set-Step :
    (name : String) (new : Function) (before after : Running)
    → after.effective ≡ insert name new before.effective
    → Step name new before (after, goes_on)
set-Step name new before after same = record {
  others = λ n other.
      ap (lookup n) same ∙ ground (arith, other, lookup-insert name n new before.effective);
  on = λ e. ap (lookup name) same ∙ version-set_fn name new before;
  back = λ e. absurd (cc e);
}

module _ (name : String) (new cur : Function) (before : Running) where
  abbrev Steps : Running × Next → Type 0
  Steps = Step name new before

  after_update-Step :
      (r : Running) (v : Verified)
      → version name before ≡ some cur
      → r.effective ≡ insert name new before.effective
      → Steps (after_update name cur r v)
  after_update-Step r works runs same = set-Step name new before (unhold name r) same
  after_update-Step r skipped runs same = set-Step name new before r same
  after_update-Step r interrupted runs same =
      let set = set-Step name new before r same in
      record { others = set.others; on = λ e. absurd (cc e); back = λ e. absurd (cc e) }
  after_update-Step r (fails reason) runs same =
      let set = set-Step name new before r same in
      record {
        others = λ n other.
            ground (arith, other, lookup-insert name n cur r.effective) ∙ set.others n other;
        on = λ e. absurd (cc e);
        back = λ e. (
          ground (arith, lookup-insert name name cur r.effective, eq_iff name name, runs),
          (reason, ground (arith, lookup-insert name name reason r.held, eq_iff name name)),
        );
      }

  with_cycles-Step : (done : Running × Next) → Steps done → Steps (with_cycles name done)
  with_cycles-Step (r, next) s =
      let same = started_cycles-Same name (lookup name r.effective) r in
      record {
        others = λ n other. ap (lookup n) same.0 ∙ s.others n other;
        on = λ e. ap (lookup name) same.0 ∙ s.on e;
        back = λ e.
            let (old, (reason, held)) = s.back e in
            (ap (lookup name) same.0 ∙ old, (reason, ap (lookup name) same.1 ∙ held));
      }

  update-Step :
      (host : Host) → version name before ≡ some cur → Steps (update host name cur new before)
  unfolding update
  update-Step host runs =
      holds_if Steps (not (mode_eq cur.lifecycle.mode new.lifecycle.mode)) _ _
        (λ other_kind. set-Step name new before _ (begin-Same name new _).0)
        (λ same_kind.
          holds_if Steps (is_persistent new.lifecycle.mode) _ _
            (λ lasting.
              after_update-Step _ (tried (host.start name new)) runs
                (reset_in-Same name (lookup name before.supervised) (set_fn name new before)).0)
            (λ cycles. with_cycles-Step _ (after_update-Step _ (host.cycle name new) runs refl)))

  adopt-Step : Steps (adopt name cur new before, goes_on)
  adopt-Step =
      let adopted = unhold name (set_fn name new before) in
      holds_if (λ (r : Running). Steps (r, goes_on))
        (not (lifecycle_eq cur.lifecycle new.lifecycle) && not (is_persistent new.lifecycle.mode)) _
        _
        (λ rescheduled.
          set-Step name new before _
            (started_cycles-Same name (lookup name adopted.effective) (stop_cycles name adopted)).0)
        (λ kept. set-Step name new before adopted refl)

pub step-Step :
    (spec_hash : Function → String) (host : Host) (name : String) (new : Function)
    (cur : Option Function) (before : Running)
    → version name before ≡ cur
    → Step name new before (step spec_hash host name new cur before)
step-Step spec_hash host name new none before absent =
    set-Step name new before _ (begin-Same name new (set_fn name new before)).0
step-Step spec_hash host name new (some cur) before runs =
    holds_if (Step name new before) (str_eq (spec_hash cur) (spec_hash new)) _ _
      (λ same_machine. adopt-Step name new cur before)
      (λ changed. update-Step name new cur before host runs)
