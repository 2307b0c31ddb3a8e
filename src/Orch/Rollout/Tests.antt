-- ===== src/Orch/Rollout/Tests.antt =====
-- A roll-out whose second function fails, and which leaves the third as it was.
use micro_hosted.Prelude.{
  ◌≡◌, refl, false, none, [], ◌∷◌, String, str_eq, if◌then◌else◌, Dict, lookup, insert, erase,
}
use micro_hosted.Orch.{Function, persistent}
use micro_hosted.Orch.Rollout.{
  Host, works, fails, Running, halts, roll, rollout, update, drop_removed,
}
use micro_hosted.Orch.Rollout.Reached.{Reached}

abbrev version : String → Function
version image = record {
  image = image;
  command = "serve";
  health = none;
  mem_mb = 128;
  labels = [];
  lifecycle = record {
    mode = persistent;
    every = 0;
    timeout = 0;
    duration = 0;
    recycle = 0;
    replace_on_exit = false;
  };
}

abbrev image_of : Function → String
image_of f = f.image

abbrev host : Host
host = record {
  ending = λ name. false;
  start = λ name f. if str_eq name "b" then fails "health" else works;
  cycle = λ name f. works;
}

abbrev all_at : String → Dict Function
all_at image = ("a", version image) ∷ ("b", version image) ∷ ("c", version image) ∷ []

abbrev before : Running
before = record { effective = all_at "v1"; supervised = []; cycling = λ name. false; held = [] }

half_way :
    (rollout image_of host (all_at "v1") (all_at "v2") before).0.effective
    ≡ ("a", version "v2") ∷ ("b", version "v1") ∷ ("c", version "v1") ∷ []
unfolding rollout roll update drop_removed lookup insert erase
half_way = refl

half_held :
    ((rollout image_of host (all_at "v1") (all_at "v2") before).0.held ≡ ("b", "health") ∷ [])
    × ((rollout image_of host (all_at "v1") (all_at "v2") before).1 ≡ halts)
unfolding rollout roll update drop_removed lookup insert erase
half_held = (refl, refl)
