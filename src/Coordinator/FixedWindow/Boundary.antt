-- ===== src/Coordinator/FixedWindow/Boundary.antt =====
-- The counter of internal/coordinator/fixedwindow.go over a history: what a calendar minute admits,
-- and what two bursts on the two sides of a boundary do.
use ti_assignment_promise_th.Base.{
  ℕ, zero, suc, ◌+◌, ◌-◌, ◌*◌, ◌≤◌, ◌<◌, ◌≡◌, ◌≢◌, refl, inl, inr, Bool, ◌&&◌, String, List, [],
  ◌∷◌, ◌++◌, arith, replicate, nat_beq, ltb, Bool-cases, string_eq, if◌then◌else◌, ap, subst, ◌∙◌,
}
use ti_assignment_promise_th.Base.Dict.{lookup-insert}
use ti_assignment_promise_th.Ratelimit.Gcra.{Time, minute}
use ti_assignment_promise_th.Ratelimit.Gcra.Pacing.{Entry, admitted_within}
use ti_assignment_promise_th.Coordinator.FixedWindow.{
  FwState, FixedWindowLimiter, window_of, state_in, put_state, allow_window, serve_window,
}

-- How many requests the window has admitted so far.
unfoldable pub used : FixedWindowLimiter → String → ℕ → ℕ
unfolding state_in
used f customer_id wid = (state_in f customer_id wid).count

-- An entry admitted in the window.
abbrev pub is_admitted_in : ℕ → Entry → Bool
is_admitted_in wid e = e.1.allowed && nat_beq (window_of e.0) wid

state_in-window : (f : FixedWindowLimiter) (c : String) (w : ℕ) → (state_in f c w).window_id ≡ w
unfolding state_in
state_in-window f c w = ground arith

used-put_state :
    (f : FixedWindowLimiter) (c : String) (st : FwState) (w : ℕ)
    → used (put_state f c st) c w ≡ (if nat_beq st.window_id w then st.count else 0)
unfolding used state_in
used-put_state f c st w = ground (arith, lookup-insert c c st f.windows, string_eq.beq_iff c c)

same_window :
    (id w v n g : ℕ)
    → id ≡ w
    → (w ≡ v → n ≡ g)
    → (if nat_beq id v then n else 0) ≡ (if nat_beq w v then g else 0)
same_window id w v n g e h = ground arith

-- The counter of a window after a request to it.
abbrev counted : FixedWindowLimiter → String → ℕ → ℕ
counted f c v = if ltb (used f c v) f.quota then used f c v + 1 else used f c v

-- What one request does: it is admitted if the window has room, and then counts; other windows of
-- the customer are forgotten.
pub allow_window_lem :
    (f : FixedWindowLimiter) (c : String) (now : Time)
    → ((allow_window f c now).1.quota ≡ f.quota)
      × ((allow_window f c now).0.allowed ≡ ltb (used f c (window_of now)) f.quota)
      × ((v : ℕ)
          → used (allow_window f c now).1 c v ≡ (
              if nat_beq (window_of now) v
              then (if ltb (used f c v) f.quota then used f c v + 1 else used f c v)
              else 0))
unfolding allow_window used
allow_window_lem f c now =
    let w = window_of now in
    let st = state_in f c w in
    elim (Bool-cases (ltb st.count f.quota)) [
      | inl room ↦
          let e : (allow_window f c now).1 ≡ put_state f c (record st { count = st.count + 1 }) =
            rw room refl in
          (
            rw room refl,
            rw room refl,
            λ v.
                ap (λ g. used g c v) e
                ∙ used-put_state f c (record st { count = st.count + 1 }) v
                ∙ same_window st.window_id w v (st.count + 1) (counted f c v)
                    (state_in-window f c w)
                    (λ same. subst (λ x. st.count + 1 ≡ counted f c x) same (rw room refl)),
          )
      | inr full ↦
          let e : (allow_window f c now).1 ≡ put_state f c st = rw full refl in
          (
            rw full refl,
            rw full refl,
            λ v.
                ap (λ g. used g c v) e
                ∙ used-put_state f c st v
                ∙ same_window st.window_id w v st.count (counted f c v) (state_in-window f c w)
                    (λ same. subst (λ x. st.count ≡ counted f c x) same (rw full refl)),
          )
    ]

-- A burst that fits into its window is admitted whole, and uses up its part of it.
serve_window-burst :
    (f : FixedWindowLimiter) (c : String) (now : Time) (n : ℕ)
    → used f c (window_of now) + n ≤ f.quota
    → ((serve_window f c (replicate n now)).1.quota ≡ f.quota)
      × ((v : ℕ)
          → window_of now ≢ v
          → used f c v ≡ 0
          → used (serve_window f c (replicate n now)).1 c v ≡ 0)
      × ((lo hi : Time)
          → lo ≤ now
          → now < hi
          → admitted_within lo hi (serve_window f c (replicate n now)).0 ≡ n)
unfolding serve_window
serve_window-burst f c now zero fits = (refl, λ v other fresh. fresh, λ lo hi l h. refl)
serve_window-burst f c now (suc n) fits =
    let (quota, allowed, uses) = allow_window_lem f c now in
    let f' = (allow_window f c now).1 in
    let (q, forgets, counts) =
      serve_window-burst f' c now n (ground (arith, quota, uses (window_of now))) in
    (
      q ∙ quota,
      λ v other fresh. forgets v other (ground (arith, uses v)),
      λ lo hi l h. ground (arith, counts lo hi l h, allowed),
    )

serve_window-append :
    (f : FixedWindowLimiter) (c : String) (xs ys : List Time) (lo hi : Time)
    → admitted_within lo hi (serve_window f c (xs ++ ys)).0
      ≡ admitted_within lo hi (serve_window f c xs).0
        + admitted_within lo hi (serve_window (serve_window f c xs).1 c ys).0
unfolding serve_window
serve_window-append f c [] ys lo hi = omega arith
serve_window-append f c (x ∷ xs) ys lo hi =
    ground (arith, serve_window-append (allow_window f c x).1 c xs ys lo hi)

-- The instant at which the calendar minute `k` ends.
abbrev pub end_of : ℕ → Time
end_of k = (k + 1) * minute

-- A customer with no admission yet in either of two neighbouring minutes who bursts at the end of
-- the first and at the start of the second, a quota each time, is admitted twice the quota within
-- two nanoseconds.
pub boundary_burst :
    (f : FixedWindowLimiter) (c : String) (k : ℕ)
    → used f c k ≡ 0
    → used f c (k + 1) ≡ 0
    → admitted_within
        (end_of k - 1)
        (end_of k + 1)
        (serve_window f c (replicate f.quota (end_of k - 1) ++ replicate f.quota (end_of k))).0
      ≡ 2 * f.quota
boundary_burst f c k before after =
    let boundary = end_of k in
    let last : window_of (boundary - 1) ≡ k = omega arith in
    let first : window_of boundary ≡ k + 1 = omega arith in
    let (q, forgets, counts) =
      serve_window-burst f c (boundary - 1) f.quota (rw last (omega arith)) in
    let g = (serve_window f c (replicate f.quota (boundary - 1))).1 in
    let (q', _, counts') =
      serve_window-burst g c boundary f.quota
        (rw first (omega (arith, forgets (k + 1) (omega arith) after))) in
    omega (
      arith,
      serve_window-append f c (replicate f.quota (boundary - 1)) (replicate f.quota boundary)
          (boundary - 1) (boundary + 1),
      counts (boundary - 1) (boundary + 1) (omega arith) (omega arith),
      counts' (boundary - 1) (boundary + 1) (omega arith) (omega arith),
    )
