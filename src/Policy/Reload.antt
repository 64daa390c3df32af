-- ===== src/Policy/Reload.antt =====
-- internal/policy/reload.go and internal/policy/devclock.go: the configs that the SIGHUP handler
-- swaps in while the node runs, and the clock that may be shifted for a demonstration.
use ti_assignment_promise_th.Base.{
  ◌+◌, ◌-◌, ◌^◌, ◌<◌, ◌≤◌, ◌↔◌, ltb, leb, Bool-cases, ◌≡◌, ◌≢◌, refl, inl, inr, subst, sym, String,
  Option, none, some, ◌>>=◌, List, [], ◌∷◌, ◌==◌, string_eq, if◌then◌else◌, arith, false,
}
use ti_assignment_promise_th.Base.Int.{ℤ, pos, negsuc, minus}
use ti_assignment_promise_th.Ratelimit.Gcra.{Time}
use ti_assignment_promise_th.Policy.Config.{Config, TimeLib}
use ti_assignment_promise_th.Policy.Resolver.{Resolver, reload}
use ti_assignment_promise_th.Policy.Validate.{IsValid}
use ti_assignment_promise_th.Policy.Limits.{reload_safe}

-- ratelimit.RealClock, or offsetClock with its offset.
pub data Clock : Type 0 where
  real_clock : Clock
  offset_clock : ℤ → Clock

-- Now, at an instant of real time. Time zero is the least that an instant can be.
unfoldable pub read : Clock → Time → Time
read real_clock t = t
read (offset_clock (pos d)) t = t + d
read (offset_clock (negsuc d)) t = t - (d + 1)

-- time.Until, which package time documents to stop at the greatest and at the least int64.
unfoldable pub until : Time → Time → ℤ
until target now =
    if leb (now + 2 ^ 63) target
    then pos (2 ^ 63 - 1)
    else if ltb (target + 2 ^ 63) now
    then negsuc (2 ^ 63 - 1)
    else minus target now

-- NewClockFromEnv, for the reader of an RFC 3339 text; `none` is its panic.
unfoldable pub new_clock_from_env :
    (String → Option Time) → (String → Option String) → Time → Option Clock
unfolding until
new_clock_from_env parse env now = elim (env "RELAYAPI_DEV_CLOCK_AS_OF") [
  | none ↦ some real_clock
  | some val ↦
      if val == ""
      then some real_clock
      else (parse val >>= λ target. some (offset_clock (until target now)))
]

read-until :
    (now target d : Time)
    → (read (offset_clock (until target now)) (now + d) ≡ target + d)
      ↔ ((target < now + 2 ^ 63) × (now ≤ target + 2 ^ 63))
unfolding read until
read-until now target d = elim (Bool-cases (leb (now + 2 ^ 63) target)) [
  | inl far ↦ (λ e. absurd (ground (arith, e, far)), λ near. absurd (ground (arith, near, far)))
  | inr near ↦ elim (Bool-cases (ltb (target + 2 ^ 63) now)) [
    | inl past ↦ (
      λ e. absurd (ground (arith, e, near, past)),
      λ in_reach. absurd (ground (arith, in_reach, past)),
    )
    | inr in_reach ↦ (λ e. ground (arith, near, in_reach), λ h. ground (arith, near, in_reach))
  ]
]

-- A clock that is set to an instant starts, and it reads that instant at the start and runs as fast
-- as real time from there exactly if the instant is less than 2^63 nanoseconds (292 years) after
-- the start and at most 2^63 before it.
pub new_clock_from_env-read :
    (parse : String → Option Time) (env : String → Option String) (now target d : Time)
    (val : String)
    → env "RELAYAPI_DEV_CLOCK_AS_OF" ≡ some val
    → val ≢ ""
    → parse val ≡ some target
    → (c : Clock) × (new_clock_from_env parse env now ≡ some c)
      × ((read c (now + d) ≡ target + d) ↔ ((target < now + 2 ^ 63) × (now ≤ target + 2 ^ 63)))
unfolding new_clock_from_env
new_clock_from_env-read parse env now target d val given full parsed =
    let differs : (val == "") ≡ false = ground (arith, string_eq.beq_iff val "", full) in
    (
      offset_clock (until target now),
      rw (given, new_clock_from_env, differs, parsed) refl,
      read-until now target d,
    )

-- A SIGHUP: when it comes, and what the file system holds then.
pub record Signal : Type 0 where
  pub at : Time
  pub load_config : String → Option Config

module _ (time : TimeLib) where
  -- The loop of WatchSIGHUP; an error is only logged.
  unfoldable pub watch_sighup : String → Resolver → List Signal → Resolver
  watch_sighup path r [] = r
  watch_sighup path r (s ∷ signals) =
      watch_sighup path (reload time s.load_config r path s.at).0 signals

  -- A reload leaves a valid config in place, the new one or the old.
  pub reload-IsValid :
      (path : String) (r : Resolver) (loaded : Time) (s : Signal)
      → IsValid time loaded r.cfg
      → (t : Time) × IsValid time t (reload time s.load_config r path s.at).0.cfg
  reload-IsValid path r loaded s v = elim (reload_safe time s.load_config r path s.at) [
    | inl (swapped, fresh) ↦ (s.at, fresh)
    | inr (x, failed, kept) ↦ (loaded, subst (λ r'. IsValid time loaded r'.cfg) (sym kept) v)
  ]

  pub watch_sighup-IsValid :
      (path : String) (r : Resolver) (loaded : Time) (signals : List Signal)
      → IsValid time loaded r.cfg
      → (t : Time) × IsValid time t (watch_sighup path r signals).cfg
  unfolding watch_sighup
  watch_sighup-IsValid path r loaded [] v = (loaded, v)
  watch_sighup-IsValid path r loaded (s ∷ signals) v =
      let (t, valid) = reload-IsValid path r loaded s v in
      watch_sighup-IsValid path (reload time s.load_config r path s.at).0 t signals valid
