-- ===== src/Coordinator/Peer/Round/Own.antt =====
-- What an instruction (handleApplyShare of internal/coordinator/peer.go) does to the share of a
-- customer on the node that gets it.
use ti_assignment_promise_th.Base.{ℕ, ◌≤◌, ◌≡◌, ◌∙◌, true, String, none, some, arith, string_eq}
use ti_assignment_promise_th.Base.Dict.{lookup}
use ti_assignment_promise_th.Ratelimit.Gcra.{Time}
use ti_assignment_promise_th.Coordinator.ShareGcra.{set_quota, new_share_state}
use ti_assignment_promise_th.Coordinator.Static.Share.{share_of, share_of_pos}
use ti_assignment_promise_th.Coordinator.Peer.{
  Peer, CustomerState, ApplyShareRequest, ApplyShareResponse, apply_local,
}
use ti_assignment_promise_th.Coordinator.Peer.Fence.{standing, after, answer, apply_local_lem}
use ti_assignment_promise_th.Coordinator.Peer.Round.{is_applied}

-- The customer's share on a node: the quota in force, or the one that a first request would get.
unfoldable pub share_on : ℕ → String → Peer → ℕ
share_on limit customer_id p = elim (lookup customer_id p.customers) [
  | none ↦ share_of limit p.cfg.node_count
  | some cs ↦ cs.share.quota
]

standing-share :
    (limit : ℕ) (id : String) (p : Peer)
    → 1 ≤ limit
    → 1 ≤ p.cfg.node_count
    → (standing p id).share.quota ≤ share_on limit id p
unfolding share_on standing new_share_state
standing-share limit id p hl hn = ground (arith, share_of_pos limit p.cfg.node_count hl hn)

after-bound :
    (cs : CustomerState) (now : Time) (req : ApplyShareRequest) (b : ℕ)
    → cs.share.quota ≤ b
    → req.quota ≤ b
    → (after cs now req).share.quota ≤ b
unfolding after set_quota
after-bound cs now req b old new = ground arith

after-applied :
    (cs : CustomerState) (now : Time) (req : ApplyShareRequest)
    → is_applied (some (answer cs req)) ≡ true
    → (after cs now req).share.quota ≡ req.quota
unfolding after set_quota answer is_applied
after-applied cs now req done = ground arith

-- An instruction moves the share no further than to its quota, and there if it is applied.
pub apply_local-share :
    (limit : ℕ) (p : Peer) (now : Time) (req : ApplyShareRequest)
    → 1 ≤ limit
    → 1 ≤ p.cfg.node_count
    → (a : ApplyShareResponse) × (p' : Peer) × (apply_local p now req ≡ some (a, p'))
      × (p'.cfg ≡ p.cfg)
      × ((b : ℕ)
          → share_on limit req.customer_id p ≤ b
          → req.quota ≤ b
          → share_on limit req.customer_id p' ≤ b)
      × (is_applied (some a) ≡ true → share_on limit req.customer_id p' ≡ req.quota)
apply_local-share limit p now req hl hn =
    let id = req.customer_id in
    let cs = standing p id in
    let (p', e, cfg, look) = apply_local_lem p now req in
    let found : share_on limit id p' ≡ (after cs now req).share.quota =
      unfold share_on in ground (arith, look id, string_eq.beq_iff id id) in
    (
      answer cs req,
      p',
      e,
      cfg,
      λ b old new.
          rw found (after-bound cs now req b (omega (arith, standing-share limit id p hl hn)) new),
      λ done. found ∙ after-applied cs now req done,
    )
