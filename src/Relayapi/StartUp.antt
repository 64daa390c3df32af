-- ===== src/Relayapi/StartUp.antt =====
-- The start-up of a node in cmd/relayapi/main.go, with the SIGHUP handler that keeps running after
-- it.
use ti_assignment_promise_th.Base.{
  ℕ, ◌≤◌, ◌≡◌, ◌≢◌, ap, ◌∙◌, refl, sym, subst, ◌⊎◌, inl, inr, true, false, String, Option, none,
  some, List, [], ◌==◌, string_eq, arith, All, Bool-cases, Option-cases, ltb,
}
use mathlib.Core.Option.{some-injective}
use mathlib.Core.Sum.{inr-injective}
use ti_assignment_promise_th.Base.Dict.{Dict}
use ti_assignment_promise_th.Ratelimit.Gcra.{Time, minute, second}
use ti_assignment_promise_th.Coordinator.Peer.{
  Peer, PeerConfig, PeerError, new_peer, is_listed, or_default,
}
use ti_assignment_promise_th.Policy.Result.{
  ok, Result-cases, >>=-eq-ok, or_fail-eq-ok, ok-injective,
}
use ti_assignment_promise_th.Policy.Config.{Config, TimeLib, validate}
use ti_assignment_promise_th.Policy.Resolver.{Resolver, new_resolver, load_valid}
use ti_assignment_promise_th.Policy.Validate.{IsValid, validate-IsValid}
use ti_assignment_promise_th.Policy.Reload.{
  Clock, read, new_clock_from_env, Signal, watch_sighup, watch_sighup-IsValid,
}
use ti_assignment_promise_th.Relayapi.{
  Process, Strategy, ModeFactory, Node, env_or, env_int, new_coordinator, peer_config, get_env,
  make_node, start_with, start_up, split_csv,
}
use ti_assignment_promise_th.Relayapi.Peers.{spell, insert_all, IsPlain, split_csv-spell}

-- NewPeer takes a config that names the node and the proposer among the peers.
new_peer_lem :
    (cfg : PeerConfig)
    → cfg.node_id ≢ ""
    → 1 ≤ cfg.node_count
    → is_listed cfg cfg.node_id ≡ true
    → cfg.proposer ≢ ""
    → is_listed cfg cfg.proposer ≡ true
    → (p : Peer) × (new_peer cfg ≡ inr p) × (p.cfg.peers ≡ cfg.peers)
unfolding new_peer
new_peer_lem cfg named counted self leads proposer =
    let a : (cfg.node_id == "") ≡ false = ground (arith, string_eq.beq_iff cfg.node_id "", named) in
    let b : (cfg.proposer == "") ≡ false =
      ground (arith, string_eq.beq_iff cfg.proposer "", leads) in
    let c : ltb cfg.node_count 1 ≡ false = ground (arith, counted) in
    (
      record {
        cfg = record cfg {
          period = or_default minute cfg.period;
          poll_interval = or_default second cfg.poll_interval;
          ack_timeout = or_default 400000000 cfg.ack_timeout;
        };
        customers = [];
        peer_health = [];
      },
      rw (a, c, self, b, proposer) refl,
      refl,
    )

make_node_lem :
    (node_id listen_addr : String) (clock : Clock) (r : Resolver)
    (made : Option (PeerError ⊎ Strategy)) (node : Node)
    → make_node node_id listen_addr clock r made ≡ some (inr node)
    → (node.clock ≡ clock) × (node.resolver ≡ r)
unfolding make_node
make_node_lem node_id listen_addr clock r none node e = cc
make_node_lem node_id listen_addr clock r (some (inl x)) node e = cc
make_node_lem node_id listen_addr clock r (some (inr coord)) node e =
    let same = inr-injective _ _ (some-injective _ _ e) in
    (ap (λ (n : Node). n.clock) (sym same), ap (λ (n : Node). n.resolver) (sym same))

module _ (process : Process) where
  env_or-named : (key default : String) → default ≢ "" → env_or process key default ≢ ""
  unfolding env_or
  env_or-named key default named = elim (Option-cases (process.env key)) [
    | inl unset ↦ rw (unset, env_or) named
    | inr (v, is) ↦ elim (Bool-cases (v == "")) [
      | inl blank ↦ rw (is, env_or, blank) named
      | inr full ↦
          rw (is, env_or, full) (λ same. ground (arith, string_eq.beq_iff v "", full, same))
    ]
  ]

  -- A node of the peer strategy that is given the list of its peers, itself and the proposer among
  -- them, knows exactly these peers.
  pub new_coordinator-peers :
      (registry : Dict String ModeFactory) (node_id : String) (node_count : ℕ)
      (peers : List (String × String))
      → process.env "RELAYAPI_PEERS" ≡ some (spell peers)
      → All IsPlain peers
      → node_id ≢ ""
      → 1 ≤ node_count
      → is_listed (peer_config process node_id node_count) node_id ≡ true
      → is_listed
          (peer_config process node_id node_count)
          (env_or process "RELAYAPI_PROPOSER" "node-1")
        ≡ true
      → (p : Peer) × (new_coordinator process registry "peer" node_id node_count
          ≡ some (inr (Strategy.peer p)))
        × (p.cfg.peers ≡ insert_all peers [])
  unfolding new_coordinator
  new_coordinator-peers registry node_id node_count peers given plain named counted self proposer =
      let given_peers : (peer_config process node_id node_count).peers ≡ insert_all peers [] =
        let text : get_env process "RELAYAPI_PEERS" ≡ spell peers = rw (given, get_env) refl in
        unfold peer_config in (ap split_csv text ∙ split_csv-spell peers plain) in
      let leads =
        env_or-named "RELAYAPI_PROPOSER" "node-1"
          (λ same. ground (arith, string_eq.beq_iff "node-1" "", same)) in
      let (p, made, kept) =
        new_peer_lem (peer_config process node_id node_count) named counted self leads proposer in
      (p, rw made refl, kept ∙ given_peers)

  module _ (time : TimeLib) (load_config : String → Option Config) where
    new_resolver-IsValid :
        (path : String) (now : Time) (r : Resolver)
        → new_resolver time load_config path now ≡ ok r
        → IsValid time now r.cfg
    unfolding new_resolver load_valid
    new_resolver-IsValid path now r e =
        let (c, loaded, made) = >>=-eq-ok (load_valid time load_config path now) _ e in
        let (raw, _, valid) =
          or_fail-eq-ok (load_config path) _ (λ c. validate time c now) loaded in
        subst (λ (r : Resolver). IsValid time now r.cfg) (ok-injective _ _ made)
          (validate-IsValid time raw now valid).0

    start_with_lem :
        (registry : Dict String ModeFactory) (n : ℕ) (clock : Clock) (node : Node)
        → start_with process time load_config registry n clock ≡ some (inr node)
        → (path : String) × (new_resolver time load_config path (read node.clock process.started)
            ≡ ok node.resolver)
    unfolding start_with
    start_with_lem registry n clock node e =
        let path = env_or process "RELAYAPI_CONFIG" "/etc/relayapi/customers.yaml" in
        elim (Result-cases (new_resolver time load_config path (read clock process.started))) [
          | inl (r, loaded) ↦
              let (ticks, serves) =
                make_node_lem _ _ clock r _ node (rw (loaded, start_with) at e) in
              (
                path,
                subst
                    (λ c.
                      new_resolver time load_config path (read c process.started)
                      ≡ ok node.resolver)
                    (sym ticks) (loaded ∙ ap ok (sym serves)),
              )
          | inr (x, refused) ↦ ground (arith, rw (refused, start_with) at e)
        ]

    start_up_lem :
        (registry : Dict String ModeFactory) (node : Node)
        → start_up process time load_config registry ≡ some (inr node)
        → (n : ℕ) × (clock : Clock) × (start_with process time load_config registry n clock
            ≡ some (inr node))
    unfolding start_up
    start_up_lem registry node e = elim (Option-cases (env_int process "RELAYAPI_NODE_COUNT" 3)) [
      | inl bad ↦ ground (arith, rw (bad, start_up) at e)
      | inr (n, counted) ↦
          elim (Option-cases
            (new_clock_from_env process.parse_rfc3339 process.env process.started)) [
              | inl panics ↦ ground (arith, rw (counted, start_up, panics) at e)
              | inr (clock, ticks) ↦ (n, clock, rw (counted, start_up, ticks) at e)
            ]
    ]

    -- A node that starts serves a valid config, and goes on to serve one after any SIGHUPs,
    -- whatever the file holds when they come.
    pub start_up-IsValid :
        (registry : Dict String ModeFactory) (node : Node) (path : String) (signals : List Signal)
        → start_up process time load_config registry ≡ some (inr node)
        → IsValid time (read node.clock process.started) node.resolver.cfg
          × ((t : Time) × IsValid time t (watch_sighup time path node.resolver signals).cfg)
    unfolding start_up
    start_up-IsValid registry node path signals e =
        let (n, clock, started) = start_up_lem registry node e in
        let (from, made) = start_with_lem registry n clock node started in
        let valid =
          new_resolver-IsValid from (read node.clock process.started) node.resolver made in
        (
          valid,
          watch_sighup-IsValid time path node.resolver (read node.clock process.started) signals
              valid,
        )
