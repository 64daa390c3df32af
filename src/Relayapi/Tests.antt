-- ===== src/Relayapi/Tests.antt =====
-- The start-up theorems (cmd/relayapi) at the environment of one node of deploy's cluster.
use ti_assignment_promise_th.Base.{
  ◌+◌, ◌*◌, ◌^◌, ◌<◌, ◌≤◌, ◌↔◌, ◌≡◌, refl, inr, true, String, Option, none, some, List, [], ◌∷◌,
  ◌==◌, string_eq, if◌then◌else◌, All, arith,
}
use ti_assignment_promise_th.Base.Dict.{lookup, lookup_or, insert}
use ti_assignment_promise_th.Base.Text.{is_space, each, each-Each, split, trim_space, split_in_two}
use ti_assignment_promise_th.Ratelimit.Gcra.{Time, second}
use ti_assignment_promise_th.Coordinator.Peer.{Peer}
use ti_assignment_promise_th.Coordinator.Static.{new_static}
use ti_assignment_promise_th.Policy.Config.{
  Config, day, validate, check_customers, check_overrides, windows_by_customer, check_windows,
  contracted_limit, check_customer, check_override, window_of, has_overlap, clashes_any,
  tier_or_zero, offset_of,
}
use ti_assignment_promise_th.Policy.Resolver.{load_valid, new_resolver}
use ti_assignment_promise_th.Policy.Validate.{IsValid}
use ti_assignment_promise_th.Policy.Reload.{
  Clock, Signal, read, until, new_clock_from_env, new_clock_from_env-read, watch_sighup,
}
use ti_assignment_promise_th.Policy.Samples.{small_time, written, served}
use ti_assignment_promise_th.Relayapi.{
  Process, Strategy, Node, env_or, env_int, new_coordinator, peer_config, split_csv, start_up,
  start_with, make_node,
}
use ti_assignment_promise_th.Relayapi.Peers.{
  spell, insert_all, IsPlain, is_id_char, is_url_char, split_csv-spell,
}
use ti_assignment_promise_th.Relayapi.StartUp.{new_coordinator-peers, start_up-IsValid}

abbrev peers : List (String × String)
peers = ("node-1", "http://node1:8080") ∷ ("node-2", "http://node2:8080") ∷ []

spelled : spell peers ≡ "node-1=http://node1:8080,node-2=http://node2:8080"
spelled = refl

tested-IsPlain :
    (id url : String) → each is_id_char id ≡ true → each is_url_char url ≡ true → IsPlain (id, url)
tested-IsPlain id url ids urls = (each-Each is_id_char id ids, each-Each is_url_char url urls)

peers-IsPlain : All IsPlain peers
unfolding is_space
peers-IsPlain = (
  tested-IsPlain "node-1" "http://node1:8080" refl refl,
  (tested-IsPlain "node-2" "http://node2:8080" refl refl, tt),
)

split_csv-spell_example :
    split_csv "node-1=http://node1:8080,node-2=http://node2:8080"
    ≡ ("node-1", "http://node1:8080") ∷ ("node-2", "http://node2:8080") ∷ []
unfolding insert
split_csv-spell_example = split_csv-spell peers peers-IsPlain

abbrev env : String → Option String
env key =
    if key == "RELAYAPI_PEERS"
    then some (spell peers)
    else if key == "RELAYAPI_DEV_CLOCK_AS_OF"
    then some "0001-01-02T00:00:00Z"
    else none

abbrev process : Process
process = record {
  env = env;
  atoi = λ s. none;
  parse_duration = λ s. none;
  parse_rfc3339 = λ s. some day;
  started = 5 * day;
}

new_coordinator-peers_example :
    (p : Peer) × (new_coordinator process [] "peer" "node-2" 2 ≡ some (inr (Strategy.peer p)))
    × (p.cfg.peers ≡ insert_all peers [])
unfolding peer_config split_csv env_or lookup insert split trim_space split_in_two
new_coordinator-peers_example =
    new_coordinator-peers process [] "node-2" 2 peers refl peers-IsPlain
      (λ same. ground (arith, string_eq.beq_iff "node-2" "", same)) (omega arith) refl refl

new_clock_from_env-read_example :
    (c : Clock) × (new_clock_from_env process.parse_rfc3339 env (5 * day) ≡ some c)
    × ((read c (5 * day + second) ≡ day + second)
        ↔ ((day < 5 * day + 2 ^ 63) × (5 * day ≤ day + 2 ^ 63)))
new_clock_from_env-read_example =
    new_clock_from_env-read process.parse_rfc3339 env (5 * day) day second "0001-01-02T00:00:00Z"
      refl (λ same. ground (arith, string_eq.beq_iff "0001-01-02T00:00:00Z" "", same)) refl

abbrev disk : String → Option Config
disk path = some written

-- The file is gone when the signal comes.
abbrev signals : List Signal
signals = record { at = 6 * day; load_config = λ path. none } ∷ []

abbrev node : Node
node = record {
  node_id = "node-1";
  listen_addr = ":8080";
  clock = Clock.offset_clock (until day (5 * day));
  resolver = record { cfg = served };
  coord = Strategy.static (record { node_id = "node-1"; node_count = 3; limiters = [] });
}

starts : start_up process small_time disk [] ≡ some (inr node)
unfolding start_up start_with env_or env_int new_clock_from_env until new_coordinator new_static
    make_node read new_resolver load_valid validate check_customers check_overrides
    windows_by_customer check_windows contracted_limit check_customer check_override window_of
    has_overlap clashes_any tier_or_zero offset_of lookup lookup_or insert
starts = refl

start_up-IsValid_example :
    IsValid small_time day served
    × ((t : Time) × IsValid small_time t
          (watch_sighup small_time "customers.yaml" node.resolver signals).cfg)
unfolding read until
start_up-IsValid_example =
    start_up-IsValid process small_time disk [] node "customers.yaml" signals starts
