-- ===== src/Coordinator/FixedWindow/Minute.antt =====
-- The counter of internal/coordinator/fixedwindow.go on requests that come in order: what a
-- calendar minute admits at most.
use ti_assignment_promise_th.Base.{
  ℕ, ◌+◌, ◌≤◌, ◌<◌, ◌≡◌, refl, ap, ◌∙◌, true, false, inl, inr, String, List, [], ◌∷◌, count_if,
  arith, All, Bool-cases, nat_beq, ltb,
}
use ti_assignment_promise_th.Base.Dict.{lookup}
use ti_assignment_promise_th.Base.Go.{IsAscending}
use ti_assignment_promise_th.Ratelimit.Gcra.{Time}
use ti_assignment_promise_th.Coordinator.FixedWindow.{
  FixedWindowLimiter, window_of, new_fixed_window_limiter, allow_window, serve_window, state_in,
}
use ti_assignment_promise_th.Coordinator.FixedWindow.Boundary.{
  used, is_admitted_in, allow_window_lem,
}

window_of-le : (a b : Time) → a ≤ b → window_of a ≤ window_of b
window_of-le a b h = omega arith

-- Requests after the window are not admitted in it.
later_windows :
    (f : FixedWindowLimiter) (c : String) (wid : ℕ) (nows : List Time)
    → All (λ t. wid < window_of t) nows
    → count_if (is_admitted_in wid) (serve_window f c nows).0 ≡ 0
unfolding serve_window
later_windows f c wid [] h = refl
later_windows f c wid (now ∷ nows) (after, h) =
    ground (arith, later_windows (allow_window f c now).1 c wid nows h)

All-later_windows :
    (wid : ℕ) (now : Time) (nows : List Time)
    → wid < window_of now
    → All (λ t. now ≤ t) nows
    → All (λ t. wid < window_of t) nows
All-later_windows wid now [] after h = tt
All-later_windows wid now (t ∷ ts) after (le, h) =
    (omega (arith, window_of-le now t le), All-later_windows wid now ts after h)

All-from_window :
    (wid : ℕ) (now : Time) (nows : List Time)
    → wid ≤ window_of now
    → All (λ t. now ≤ t) nows
    → All (λ t. wid ≤ window_of t) nows
All-from_window wid now [] from h = tt
All-from_window wid now (t ∷ ts) from (le, h) =
    (omega (arith, window_of-le now t le), All-from_window wid now ts from h)

same_number : (a b : ℕ) → nat_beq a b ≡ true → a ≡ b
same_number a b e = ground arith

nothing_used :
    (f : FixedWindowLimiter) (c : String) (wid : ℕ) (now : Time) (nows : List Time)
    → (0 < used f c wid → All (λ t. wid ≤ window_of t) (now ∷ nows))
    → nat_beq (window_of now) wid ≡ false
    → ltb wid (window_of now) ≡ false
    → used f c wid ≡ 0
nothing_used f c wid now nows from differ before = elim (Bool-cases (ltb 0 (used f c wid))) [
  | inl some_used ↦
      let reached = (from (ground arith)).0 in absurd (ground (arith, reached, differ, before))
  | inr unused ↦ ground arith
]

window_room :
    (f : FixedWindowLimiter) (c : String) (wid : ℕ) (nows : List Time)
    → IsAscending nows
    → used f c wid ≤ f.quota
    → (0 < used f c wid → All (λ t. wid ≤ window_of t) nows)
    → used f c wid + count_if (is_admitted_in wid) (serve_window f c nows).0 ≤ f.quota
unfolding serve_window
window_room f c wid [] up fits from = omega arith
window_room f c wid (now ∷ nows) (first, up) fits from =
    let g = (allow_window f c now).1 in
    let (quota, allowed, counts) = allow_window_lem f c now in
    elim (Bool-cases (nat_beq (window_of now) wid)) [
      | inl same ↦
          let rest =
            window_room g c wid nows up (ground (arith, counts wid, quota, same))
              (λ some_used. All-from_window wid now nows (ground (arith, same)) first) in
          let here : (allow_window f c now).0.allowed ≡ ltb (used f c wid) f.quota =
            allowed ∙ ap (λ v. ltb (used f c v) f.quota) (same_number (window_of now) wid same) in
          ground (arith, rest, counts wid, here, same, quota)
      | inr differ ↦ elim (Bool-cases (ltb wid (window_of now))) [
        | inl after ↦
            let none_left =
              later_windows g c wid nows
                (All-later_windows wid now nows (ground (arith, after)) first) in
            ground (arith, none_left, differ)
        | inr before ↦
            let rest =
              window_room g c wid nows up (ground (arith, counts wid, differ))
                (λ some_used. absurd (ground (arith, counts wid, differ, some_used))) in
            let empty = nothing_used f c wid now nows from differ before in
            ground (arith, rest, empty, differ, quota)
      ]
    ]

-- A counter that starts empty and gets a customer's requests in order of time admits in each
-- calendar minute at most its quota.
pub serve_window-minute_bound :
    (quota wid : ℕ) (c : String) (nows : List Time)
    → IsAscending nows
    → count_if (is_admitted_in wid) (serve_window (new_fixed_window_limiter quota) c nows).0 ≤ quota
unfolding new_fixed_window_limiter
serve_window-minute_bound quota wid c nows up =
    let fresh : used (new_fixed_window_limiter quota) c wid ≡ 0 =
      unfold used state_in lookup in refl in
    let room =
      window_room (new_fixed_window_limiter quota) c wid nows up (omega (arith, fresh))
        (λ some_used. absurd (omega (arith, fresh, some_used))) in
    omega (arith, room, fresh)
