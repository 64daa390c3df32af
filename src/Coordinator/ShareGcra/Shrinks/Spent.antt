-- ===== src/Coordinator/ShareGcra/Shrinks/Spent.antt =====
-- How far the TAT of a share (shareState of internal/coordinator/share_gcra.go) has been pushed by
-- what it admitted from an instant on, while its quota changes.
use native.Mathlib.Nat.{div-mul-le_self, le-div_iff_mul-le, mul-le-mul_left, mul-le-mul_right}
use ti_assignment_promise_th.Base.{
  ℕ, ◌+◌, ◌-◌, ◌*◌, ◌/◌, ◌≤◌, ◌<◌, ◌≡◌, true, ltb, nat_beq, nat_beq_iff, if◌then◌else◌, arith,
  Bool-cases, inl, inr,
}
use ti_assignment_promise_th.Ratelimit.Gcra.{Time, Duration}
use ti_assignment_promise_th.Ratelimit.Gcra.Laws.{verdict}
use ti_assignment_promise_th.Coordinator.{node_burst}
use ti_assignment_promise_th.Coordinator.ShareGcra.{ShareState, effective_quota, set_quota}
use ti_assignment_promise_th.Coordinator.ShareGcra.Agreement.{
  share_params, HasInterval, share_params-interval,
}

-- The interval between two admissions that the share's quota makes.
abbrev pub spacing : ShareState → Duration → Duration
spacing s period = period / effective_quota s

-- How far `n` admissions from `lo` on have pushed the TAT, of a share with a quota of at most `cap`
-- that has shrunk `d` times: each shrink may let one more through, and while no more are due the
-- TAT lies a whole interval behind the window.
pub record IsSpent (cap : ℕ) (period : Duration) (lo : Time) (n d : ℕ) (s : ShareState)
    : Type 0 where
  pub single : s.burst ≡ node_burst
  pub capped : effective_quota s ≤ cap
  pub fits : n ≤ cap + node_burst + d
  pub pushed : d < n → lo + (n - d) * (period / cap) ≤ s.tat
  pub full : n ≡ cap + node_burst + d → lo + cap * (period / cap) + spacing s period ≤ s.tat

pub effective_quota_pos : (s : ShareState) → 1 ≤ effective_quota s
unfolding effective_quota
effective_quota_pos s = ground arith

-- A smaller quota makes longer intervals.
pub div-le_quotas : (a p q : ℕ) → 1 ≤ q → q ≤ p → a / p ≤ a / q
div-le_quotas a p q pos h =
    (le-div_iff_mul-le {k = q} {x = a / p} {y = a} pos).1
      (omega (arith, mul-le-mul_left {m = q} {n = p} (a / p) h, div-mul-le_self a p))

-- What one request does to a share with a burst of one.
pub allow_step :
    (s : ShareState) (now : Time) (period : Duration)
    → s.burst ≡ node_burst
    → HasInterval s period
    → let v = verdict (share_params s period) s.tat now in
      (s.tat ≤ v.1)
      × (v.0.allowed ≡ true
          → (s.tat ≤ now + spacing s period)
            × (s.tat + spacing s period ≤ v.1)
            × (now + spacing s period ≤ v.1))
      × (s.tat ≤ now + spacing s period → v.0.allowed ≡ true)
unfolding verdict
allow_step s now period one h =
    let e = share_params-interval s period in
    (
      ground (arith, e),
      λ ok. (ground (arith, e), ground (arith, e), ground (arith, e)),
      λ early. ground (arith, e),
    )

sub-mul-suc : (n d e : ℕ) → d ≤ n → (n + 1 - d) * e ≡ (n - d) * e + e
sub-mul-suc n d e h = let k : n + 1 - d ≡ n - d + 1 = omega arith in rw k (omega arith)

sub-mul-zero : (n d e : ℕ) → n ≤ d → (n - d) * e ≡ 0
sub-mul-zero n d e h = let k : n - d ≡ 0 = omega arith in rw k (omega arith)

sub-mul_grows : (n d e : ℕ) → (n - (d + 1)) * e ≤ (n - d) * e
sub-mul_grows n d e = mul-le-mul_right e (omega arith)

module _ (cap : ℕ) (period : Duration) (lo : Time) (fits : cap ≤ period) where
  capped-HasInterval :
      {n d : ℕ} (s : ShareState) → IsSpent cap period lo n d s → HasInterval s period
  capped-HasInterval s h = omega (arith, h.capped)

  pub IsSpent-missed :
      {n d : ℕ} {s : ShareState} (now : Time)
      → IsSpent cap period lo n d s
      → let v = verdict (share_params s period) s.tat now in
        IsSpent cap period lo n d (record s { tat = v.1 })
  unfolding effective_quota
  IsSpent-missed {n} {d} {s} now h =
      let (grows, _, _) = allow_step s now period h.single (capped-HasInterval s h) in
      record {
        single = h.single;
        capped = h.capped;
        fits = h.fits;
        pushed = λ m. omega (arith, h.pushed m, grows);
        full = λ m. omega (arith, h.full m, grows);
      }

  -- One more admission within the window.
  pub IsSpent-hit :
      {n d : ℕ} {s : ShareState} (now : Time)
      → IsSpent cap period lo n d s
      → let v = verdict (share_params s period) s.tat now in
        v.0.allowed ≡ true
        → lo ≤ now
        → now < lo + cap * (period / cap)
        → IsSpent cap period lo (n + 1) d (record s { tat = v.1 })
  unfolding effective_quota
  IsSpent-hit {n} {d} {s} now h ok after before =
      let v = verdict (share_params s period) s.tat now in
      let (_, admits, _) = allow_step s now period h.single (capped-HasInterval s h) in
      let (early, on_tat, on_now) = admits ok in
      let apart = div-le_quotas period cap (effective_quota s) (effective_quota_pos s) h.capped in
      let room_left : n < cap + node_burst + d =
        elim (Bool-cases (nat_beq n (cap + node_burst + d))) [
          | inl last ↦
              absurd (omega (arith, h.full ((nat_beq_iff n (cap + node_burst + d)).0 last), early))
          | inr more ↦ ground (arith, h.fits, more)
        ] in
      record {
        single = h.single;
        capped = h.capped;
        fits = omega arith;
        pushed = λ m. elim (Bool-cases (ltb d n)) [
          | inl more ↦
              omega (
                arith,
                h.pushed (ground (arith, more)),
                sub-mul-suc n d (period / cap) (omega arith),
              )
          | inr first ↦ omega (
            arith,
            sub-mul-suc n d (period / cap) (omega arith),
            sub-mul-zero n d (period / cap) (ground (arith, first)),
          )
        ];
        full = λ last.
            let spent : n - d ≡ cap = omega arith in
            let at_cap : lo + cap * (period / cap) ≤ s.tat =
              rw spent at (h.pushed (omega (arith, effective_quota_pos s))) in
            omega arith;
      }

  pub IsSpent-requota :
      {n d : ℕ} {s : ShareState} (quota : ℕ)
      → effective_quota (set_quota s quota) ≤ cap
      → IsSpent cap period lo n d s
      → IsSpent cap period lo n (if ltb quota s.quota then d + 1 else d) (set_quota s quota)
  unfolding set_quota
  IsSpent-requota {n} {d} {s} quota small h =
      let t = set_quota s quota in
      elim (Bool-cases (ltb quota s.quota)) [
        | inl shrunk ↦ rw shrunk (record {
          single = h.single;
          capped = small;
          fits = omega (arith, h.fits);
          pushed = λ m. omega (arith, h.pushed (omega arith), sub-mul_grows n d (period / cap));
          full = λ m. absurd (omega (arith, h.fits));
        })
        | inr grown ↦ rw grown (record {
          single = h.single;
          capped = small;
          fits = h.fits;
          pushed = h.pushed;
          full = λ m.
              let shorter =
                div-le_quotas period (effective_quota t) (effective_quota s) (effective_quota_pos s)
                  (unfold effective_quota in ground (arith, grown)) in
              omega (arith, h.full m, shorter);
        })
      ]
