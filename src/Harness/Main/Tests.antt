-- ===== src/Harness/Main/Tests.antt =====
-- main of cmd/harness/main.go on two scenarios that are asked for by name.
use ti_assignment_promise_th.Base.{ℕ, ◌≡◌, ◌↔◌, refl, String, Option, some, List, [], ◌∷◌, All}
use ti_assignment_promise_th.Base.Text.{split, trim_space, trim_left, trim_right, is_space}
use ti_assignment_promise_th.Policy.Config.{Config}
use ti_assignment_promise_th.Policy.Samples.{written}
use ti_assignment_promise_th.Harness.Scenarios.{Env}
use ti_assignment_promise_th.Harness.Report.{ScenarioResult}
use ti_assignment_promise_th.Harness.Verdicts.{Passes}
use ti_assignment_promise_th.Harness.Main.{
  Flags, main, names_of, new_env, AllRan, main-zero, split_non_empty, non_empty,
}

abbrev flags : Flags
flags = record {
  url = "http://localhost:8080";
  config = "customers.yaml";
  scenarios = "node-failure, ,window-boundary";
  kill_cmd = "";
  revive_cmd = "";
  kill_at = 15000000000;
  compose_file = "";
  services = "node1,node2,node3";
}

abbrev load : String → Option Config
load path = some written

abbrev run : Env → ℕ → String → Option ScenarioResult
run env i name = some (record { name = name; customers = []; notes = [] })

names_of-flags : names_of flags ≡ "node-failure" ∷ "window-boundary" ∷ []
unfolding names_of split_non_empty non_empty split trim_space trim_left trim_right is_space
names_of-flags = refl

main-zero_example : (main load run flags ≡ 0) ↔ (
    (cfg : Config) × (results : List ScenarioResult) × (load "customers.yaml" ≡ some cfg)
    × AllRan (run (new_env flags cfg)) 0 (names_of flags) results
    × All (λ s. All Passes s.customers) results)
main-zero_example = main-zero load run flags
