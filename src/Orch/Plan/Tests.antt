-- ===== src/Orch/Plan/Tests.antt =====
-- A function with a machine of an older version and two of the current one.
use micro_hosted.Prelude.{◌≡◌, refl, true, false, none, some, List, [], ◌∷◌, String, lookup, insert}
use micro_hosted.Orch.{
  Vm, Function, Lifecycle, persistent, running, stopped, function_labels, is_after,
}
use micro_hosted.Orch.Plan.{
  destroy, bury, create, duplicate, spec_changed, died, is_current, persistent_actions, newest,
  retire_others, label_patch, missing_labels, extra_labels,
}
use micro_hosted.Orch.Plan.Performed.{perform_all}
use micro_hosted.Orch.Plan.Converge.{IsNewestOf, persistent_actions-Converges}

abbrev always : Lifecycle
always = record {
  mode = persistent;
  every = 0;
  timeout = 0;
  duration = 0;
  recycle = 0;
  replace_on_exit = false;
}

abbrev api : Function
api = record {
  image = "v2";
  command = "serve";
  lifecycle = always;
  health = none;
  mem_mb = 128;
  labels = [];
}

abbrev image_of : Function → String
image_of f = f.image

abbrev vm : String → String → String → Vm
vm id version born = record {
  id = id;
  name = id;
  state = running;
  labels = function_labels "lab" "api" [] version "1";
  created_at = born;
  last_exit = none;
  quarantine = false;
}

abbrev three : List Vm
three = vm "a" "v1" "2026-01-01" ∷ vm "b" "v2" "2026-01-02" ∷ vm "c" "v2" "2026-01-03" ∷ []

three_actions :
    persistent_actions image_of "lab" "api" api three
    ≡ destroy (vm "a" "v1" "2026-01-01") spec_changed
      ∷ destroy (vm "b" "v2" "2026-01-02") duplicate
      ∷ []
unfolding persistent_actions newest retire_others label_patch missing_labels extra_labels
    function_labels lookup insert is_after
three_actions = refl

dead_action :
    persistent_actions image_of "lab" "api" api (
      record {
        id = "d";
        name = "d";
        state = stopped "error";
        labels = [];
        created_at = "";
        last_exit = some "panic";
        quarantine = false;
      }
      ∷ [])
    ≡ bury
        (record {
          id = "d";
          name = "d";
          state = stopped "error";
          labels = [];
          created_at = "";
          last_exit = some "panic";
          quarantine = false;
        })
        (died "panic")
      ∷ create "api"
      ∷ []
unfolding persistent_actions newest retire_others lookup
dead_action = refl

persistent_actions-Converges_example :
    (v : Vm) × (perform_all
        (vm "n" "v2" "2026-01-04")
        (persistent_actions image_of "lab" "api" api three)
        three
      ≡ v ∷ [])
    × (is_current "v2" v ≡ true)
    × (persistent_actions image_of "lab" "api" api (v ∷ []) ≡ [])
    × IsNewestOf image_of "lab" "api" api three v
persistent_actions-Converges_example =
    persistent_actions-Converges image_of "lab" "api" api (vm "n" "v2" "2026-01-04") "1" three
      (refl, (refl, (refl, tt))) tt refl refl
