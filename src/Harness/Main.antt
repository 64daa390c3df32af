-- ===== src/Harness/Main.antt =====
-- main of cmd/harness/main.go: the flags, the environment of the scenarios, which of them run, and
-- the exit code. How a scenario runs, which may be more than once, is a parameter, and so is the loading of the policy file.
mod Tests
use ti_assignment_promise_th.Base.{
  ℕ, ◌+◌, ◌≡◌, ◌∙◌, sym, refl, subst, ◌↔◌, Bool, true, false, String, Option, none, some, List, [],
  ◌∷◌, ◌==◌, if◌then◌else◌, string_eq, arith, All, Bool-cases, Option-cases, inl, inr,
}
use ti_assignment_promise_th.Base.Dict.{Dict, lookup}
use ti_assignment_promise_th.Base.Text.{split, trim_space, is_blank}
use ti_assignment_promise_th.Ratelimit.Gcra.{Duration}
use ti_assignment_promise_th.Policy.Config.{Config}
use ti_assignment_promise_th.Harness.Scenarios.{Env}
use ti_assignment_promise_th.Harness.Report.{ScenarioResult, any_fail}
use ti_assignment_promise_th.Harness.Verdicts.{Passes, any_fail-All}
use ti_assignment_promise_th.Harness.Contracts.{
  contracted_limits, unknown_scenario, run_all, exit_code,
}

-- What flag.Parse leaves; `--json` only changes how the report is printed.
pub record Flags : Type 0 where
  pub url : String
  pub config : String
  pub scenarios : String
  pub kill_cmd : String
  pub revive_cmd : String
  pub kill_at : Duration
  pub compose_file : String
  pub services : String

-- The loop of splitNonEmpty.
unfoldable pub non_empty : List String → List String
non_empty [] = []
non_empty (p ∷ ps) =
    let rest = non_empty ps in if trim_space p == "" then rest else trim_space p ∷ rest

unfoldable pub split_non_empty : String → List String
unfolding non_empty
split_non_empty s = non_empty (split b',' s)

abbrev pub scenario_order : List String
scenario_order =
    "two-tenants-fair" ∷ "over-limit-cutoff" ∷ "window-boundary" ∷ "northwind-batch"
    ∷ "node-failure" ∷ []

-- The keys of the map of the scenarios.
abbrev pub registry : Dict String Bool
registry =
    ("two-tenants-fair", true)
    ∷ ("over-limit-cutoff", true)
    ∷ ("window-boundary", true)
    ∷ ("northwind-batch", true)
    ∷ ("node-failure", true)
    ∷ []

unfoldable pub new_env : Flags → Config → Env
unfolding split_non_empty
new_env flags cfg = record {
  base_url = flags.url;
  contracted_limit = contracted_limits cfg;
  kill_cmd = flags.kill_cmd;
  revive_cmd = flags.revive_cmd;
  kill_at = flags.kill_at;
  compose_file = flags.compose_file;
  services = split_non_empty flags.services;
}

unfoldable pub names_of : Flags → List String
unfolding split_non_empty
names_of flags =
    if flags.scenarios == "all" then scenario_order else split_non_empty flags.scenarios

-- main: the exit code. `none` of a run is a context that is cancelled before it.
unfoldable pub main :
    (String → Option Config) → (Env → ℕ → String → Option ScenarioResult) → Flags → ℕ
unfolding new_env names_of
main load run flags = elim (load flags.config) [
  | none ↦ exit_code none registry (λ i n. none) []
  | some cfg ↦ exit_code (some cfg) registry (run (new_env flags cfg)) (names_of flags)
]

-- The names are those of scenarios, and each run gave its result.
abbrev pub AllRan :
    (ℕ → String → Option ScenarioResult) → ℕ → List String → List ScenarioResult → Type 0
AllRan run i [] [] = Unit
AllRan run i (n ∷ names) (s ∷ results) =
    ((known : Bool) × (lookup n registry ≡ some known))
    × (run i n ≡ some s)
    × AllRan run (i + 1) names results
AllRan run i _ _ = ⊥

ran_lem :
    (run : ℕ → String → Option ScenarioResult) (i : ℕ) (names : List String)
    (results : List ScenarioResult)
    → unknown_scenario registry names ≡ none
    → run_all run i names ≡ some results
    → AllRan run i names results
unfolding unknown_scenario run_all
ran_lem run i [] [] u e = tt
ran_lem run i [] (s ∷ results) u e = cc
ran_lem run i (n ∷ names) results u e = elim (Option-cases (lookup n registry)) [
  | inl strange ↦ absurd (ground (arith, u, strange))
  | inr (known, found) ↦ elim (Option-cases (run i n)) [
    | inl stopped ↦ absurd (ground (arith, e, stopped))
    | inr (s, ran) ↦ elim (Option-cases (run_all run (i + 1) names)) [
      | inl stopped ↦ absurd (ground (arith, e, ran, stopped))
      | inr (rest, rest_ran) ↦
          let all : s ∷ rest ≡ results = ground (arith, e, ran, rest_ran) in
          subst (AllRan run i (n ∷ names)) all (
            (known, found),
            ran,
            ran_lem run (i + 1) names rest (ground (arith, u, found)) rest_ran,
          )
    ]
  ]
]

ran_back :
    (run : ℕ → String → Option ScenarioResult) (i : ℕ) (names : List String)
    (results : List ScenarioResult)
    → AllRan run i names results
    → (unknown_scenario registry names ≡ none) × (run_all run i names ≡ some results)
unfolding unknown_scenario run_all
ran_back run i [] [] h = (refl, refl)
ran_back run i [] (s ∷ results) h = absurd h
ran_back run i (n ∷ names) [] h = absurd h
ran_back run i (n ∷ names) (s ∷ results) ((known, found), ran, rest) =
    let (u, e) = ran_back run (i + 1) names results rest in
    (rw (found, unknown_scenario) u, rw (run_all, ran, e) refl)

exits_lem :
    (cfg : Config) (run : ℕ → String → Option ScenarioResult) (names : List String)
    → (exit_code (some cfg) registry run names ≡ 0) ↔ (
        (results : List ScenarioResult) × AllRan run 0 names results
        × All (λ s. All Passes s.customers) results)
unfolding exit_code
exits_lem cfg run names = (
  λ e. elim (Option-cases (unknown_scenario registry names)) [
    | inr (n, strange) ↦ absurd (ground (arith, e, strange))
    | inl known ↦ elim (Option-cases (run_all run 0 names)) [
      | inl stopped ↦ absurd (ground (arith, e, known, stopped))
      | inr (results, ran) ↦
          let fine : any_fail results ≡ false = ground (arith, e, known, ran) in
          (results, ran_lem run 0 names results known ran, ((any_fail-All results).1).0 fine)
    ]
  ],
  λ (results, all_ran, passes).
      let (known, ran) = ran_back run 0 names results all_ran in
      rw (exit_code, known, ran, ((any_fail-All results).1).1 passes) refl,
)

-- The harness exits with 0 exactly if the policy file loads, every name that was asked for is that of
-- a scenario, the context lasts until each of them has run, and every row of each result passes.
pub main-zero :
    (load : String → Option Config) (run : Env → ℕ → String → Option ScenarioResult) (flags : Flags)
    → (main load run flags ≡ 0) ↔ (
        (cfg : Config) × (results : List ScenarioResult) × (load flags.config ≡ some cfg)
        × AllRan (run (new_env flags cfg)) 0 (names_of flags) results
        × All (λ s. All Passes s.customers) results)
unfolding main
main-zero load run flags = elim (Option-cases (load flags.config)) [
  | inl missing ↦ (
    λ e. absurd (unfold exit_code in ground (arith, e, missing)),
    λ (cfg, results, loaded, _, _). absurd (ground (arith, loaded, missing)),
  )
  | inr (cfg, loaded) ↦ (
    λ e.
        let (results, ran, passes) =
          (exits_lem cfg (run (new_env flags cfg)) (names_of flags)).0
            (ground (arith, e, loaded)) in
        (cfg, results, loaded, ran, passes),
    λ (cfg', results, loaded', ran, passes).
        let same : cfg' ≡ cfg = ground (arith, loaded, loaded') in
        rw (main, loaded)
          ((exits_lem cfg (run (new_env flags cfg)) (names_of flags)).1 (
            results,
            subst (λ c. AllRan (run (new_env flags c)) 0 (names_of flags) results) same ran,
            passes,
          )),
  )
]
