-- ===== src/Relayapi.antt =====
-- cmd/relayapi: the start-up of a node from its environment, and the choice of its coordinator
-- (main.go, mode_fixedwindow.go). The environment, the file system and the parsing of durations,
-- numbers and instants are parameters; log output, signals and the HTTP server are left out.

pub mod Peers
pub mod StartUp
mod Tests
use ti_assignment_promise_th.Base.{
  ℕ, Bool, ◌⊎◌, inl, inr, String, Option, none, some, ◌>>=◌, List, [], ◌∷◌, ◌==◌, string_eq,
  if◌then◌else◌,
}
use ti_assignment_promise_th.Base.Dict.{Dict, lookup, insert}
use ti_assignment_promise_th.Base.Text.{split, split_in_two, trim_space}
use ti_assignment_promise_th.Ratelimit.Gcra.{Time, Duration, second}
use ti_assignment_promise_th.Coordinator.Static.{Static, new_static}
use ti_assignment_promise_th.Coordinator.Peer.{Peer, PeerConfig, PeerError, new_peer}
use ti_assignment_promise_th.Coordinator.FixedWindow.{FixedWindowStatic, new_fixed_window_static}
use ti_assignment_promise_th.Policy.Result.{ConfigError, ok, err}
use ti_assignment_promise_th.Policy.Config.{Config, TimeLib}
use ti_assignment_promise_th.Policy.Resolver.{Resolver, new_resolver}
use ti_assignment_promise_th.Policy.Reload.{Clock, read, new_clock_from_env}

-- The turn of splitCSV's loop for one part.
unfoldable pub add_pair : String → Dict String String → Dict String String
add_pair part out =
    let pair = trim_space part in
    if pair == ""
    then out
    else elim (split_in_two b'=' pair) [ none ↦ out | some parts ↦ insert parts.0 parts.1 out ]

unfoldable pub add_pairs : List String → Dict String String → Dict String String
unfolding add_pair
add_pairs [] out = out
add_pairs (part ∷ rest) out = add_pairs rest (add_pair part out)

-- splitCSV
unfoldable pub split_csv : String → Dict String String
unfolding add_pairs
split_csv s = add_pairs (split b',' s) []

-- What package os, strconv and time give: LookupEnv, Atoi on numbers that are not negative,
-- ParseDuration, Parse for RFC 3339, and the clock of the machine.
pub record Process : Type 0 where
  pub env : String → Option String
  pub atoi : String → Option ℕ
  pub parse_duration : String → Option Duration
  pub parse_rfc3339 : String → Option Time
  pub started : Time

-- The strategies behind the interface Coordinator.
pub data Strategy : Type 0 where
  static : Static → Strategy
  peer : Peer → Strategy
  fixed_window : FixedWindowStatic → Strategy

pub data StartError : Type 0 where
  bad_node_count : StartError
  policy_error : ConfigError → StartError
  coordinator_error : PeerError → StartError

-- A factory of modeRegistry.
abbrev pub ModeFactory : Type 0
ModeFactory = String → ℕ → PeerError ⊎ Strategy

-- modeRegistry in a build with the tag fixedwindow; it is empty in any other.
abbrev pub fixed_window_registry : Dict String ModeFactory
fixed_window_registry =
    (
      "fixedwindow",
      λ node_id node_count. inr (fixed_window (new_fixed_window_static node_id node_count)),
    )
    ∷ []

-- The node that main runs.
pub record Node : Type 0 where
  pub node_id : String
  pub listen_addr : String
  pub clock : Clock
  pub resolver : Resolver
  pub coord : Strategy

-- What main makes of newCoordinator's answer.
unfoldable pub make_node :
    String → String → Clock → Resolver → Option (PeerError ⊎ Strategy) → Option (StartError ⊎ Node)
make_node node_id listen_addr clock resolver none = none
make_node node_id listen_addr clock resolver (some (inl e)) = some (inl (coordinator_error e))
make_node node_id listen_addr clock resolver (some (inr coord)) = some (
    inr (record {
      node_id = node_id;
      listen_addr = listen_addr;
      clock = clock;
      resolver = resolver;
      coord = coord;
    }))

module _ (process : Process) where
  -- os.Getenv
  abbrev pub get_env : String → String
  get_env key = elim (process.env key) [ none ↦ "" | some v ↦ v ]

  -- envOr
  unfoldable pub env_or : String → String → String
  env_or key default = elim (process.env key) [
    | none ↦ default
    | some v ↦ if v == "" then default else v
  ]

  -- envDuration
  unfoldable pub env_duration : String → Duration → Duration
  env_duration key default = elim (process.env key) [
    | none ↦ default
    | some v ↦
        if v == "" then default else elim (process.parse_duration v) [ none ↦ default | some d ↦ d ]
  ]

  -- envInt, `none` for an error.
  unfoldable pub env_int : String → ℕ → Option ℕ
  env_int key default = elim (process.env key) [
    | none ↦ some default
    | some v ↦ if v == "" then some default else process.atoi v
  ]

  -- The PeerConfig of newCoordinator; NewPeer sets the period.
  unfoldable pub peer_config : String → ℕ → PeerConfig
  unfolding split_csv env_or env_duration
  peer_config node_id node_count = record {
    node_id = node_id;
    node_count = node_count;
    peers = split_csv (get_env "RELAYAPI_PEERS");
    proposer = env_or "RELAYAPI_PROPOSER" "node-1";
    period = 0;
    poll_interval = env_duration "RELAYAPI_POLL_INTERVAL" second;
    ack_timeout = env_duration "RELAYAPI_ACK_TIMEOUT" 400000000;
  }

  -- newCoordinator; `none` is a panic, on a mode that is not known or a node count below one.
  unfoldable pub new_coordinator :
      Dict String ModeFactory → String → String → ℕ → Option (PeerError ⊎ Strategy)
  unfolding peer_config
  new_coordinator registry mode node_id node_count =
      if mode == "static"
      then (new_static node_id node_count >>= λ s. some (inr (static s)))
      else if mode == "peer"
      then some (elim (new_peer (peer_config node_id node_count)) [
        | inl e ↦ inl e
        | inr p ↦ inr (peer p)
      ])
      else (lookup mode registry >>= λ factory. some (factory node_id node_count))

  module _ (time : TimeLib) (load_config : String → Option Config) where
    -- main from NewResolver on, for the node count and the clock.
    unfoldable pub start_with : Dict String ModeFactory → ℕ → Clock → Option (StartError ⊎ Node)
    unfolding env_or new_coordinator make_node
    start_with registry node_count clock =
        let node_id = env_or "RELAYAPI_NODE_ID" "node-1" in
        let config_path = env_or "RELAYAPI_CONFIG" "/etc/relayapi/customers.yaml" in
        let listen_addr = env_or "RELAYAPI_LISTEN_ADDR" ":8080" in
        let mode = env_or "RELAYAPI_COORDINATOR_MODE" "static" in
        elim (new_resolver time load_config config_path (read clock process.started)) [
          | err e ↦ some (inl (policy_error e))
          | ok resolver ↦
              make_node node_id listen_addr clock resolver
                (new_coordinator registry mode node_id node_count)
        ]

    -- main, up to the HTTP server: an error is the exit with status 1, `none` a panic.
    unfoldable pub start_up : Dict String ModeFactory → Option (StartError ⊎ Node)
    unfolding env_int start_with
    start_up registry = elim (env_int "RELAYAPI_NODE_COUNT" 3) [
      | none ↦ some (inl bad_node_count)
      | some node_count ↦
          elim (new_clock_from_env process.parse_rfc3339 process.env process.started) [
            | none ↦ none
            | some clock ↦ start_with registry node_count clock
          ]
    ]
