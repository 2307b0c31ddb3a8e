-- ===== src/Orch/Project/Tests.antt =====
-- A project with one function beside machines of an operator and of another project.
use micro_hosted.Prelude.{
  ◌≡◌, refl, true, false, none, List, [], ◌∷◌, String, Bool, ok, All, lookup,
}
use micro_hosted.Orch.{
  Vm, Function, Lifecycle, persistent, running, mine, label_function, label_managed_by,
  label_project, owner,
}
use micro_hosted.Orch.Plan.{
  destroy, create, removed, spec_changed, persistent_actions, newest, retire_others,
}
use micro_hosted.Orch.Project.{
  Spec, Step, vm_action, plan_for, plan_networks, my_vms, serving, add_name, gone_names, prune,
  plan_functions, delete_networks,
}
use micro_hosted.Orch.Project.Owned.{MayTouch, plan_for-MayTouch}

abbrev always : Lifecycle
always = record {
  mode = persistent;
  every = 0;
  timeout = 0;
  duration = 0;
  recycle = 0;
  replace_on_exit = false;
}

abbrev api : Function
api = record {
  image = "v2";
  command = "serve";
  lifecycle = always;
  health = none;
  mem_mb = 128;
  labels = [];
}

abbrev lab : Spec
lab = record { functions = ("api", api) ∷ []; networks = [] }

abbrev image_of : Function → String
image_of f = f.image

abbrev apart : String → String → Bool
apart a b = false

abbrev vm : String → List (String × String) → Bool → Vm
vm id labels quarantine = record {
  id = id;
  name = id;
  state = running;
  labels = labels;
  created_at = "";
  last_exit = none;
  quarantine = quarantine;
}

abbrev its : String → String → List (String × String)
its project function =
    (label_managed_by, owner) ∷ (label_project, project) ∷ (label_function, function) ∷ []

abbrev machines : List Vm
machines =
    vm "operator" [] false
    ∷ vm "other" (its "shop" "api") false
    ∷ vm "evidence" (its "lab" "api") true
    ∷ vm "old" (its "lab" "api") false
    ∷ vm "gone" (its "lab" "web") false
    ∷ []

abbrev steps : List Step
steps =
    vm_action (destroy (vm "gone" (its "lab" "web") false) removed)
    ∷ vm_action (destroy (vm "old" (its "lab" "api") false) spec_changed)
    ∷ vm_action (create "api")
    ∷ []

planned_steps : plan_for image_of apart "lab" [] lab [] machines ≡ ok steps
unfolding plan_for plan_networks my_vms serving add_name gone_names prune plan_functions
    delete_networks mine lookup persistent_actions newest retire_others
planned_steps = refl

plan_for-MayTouch_example : All (MayTouch "lab" lab []) steps
plan_for-MayTouch_example =
    plan_for-MayTouch "lab" lab [] image_of apart [] machines steps planned_steps
