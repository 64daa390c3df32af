-- ===== src/Policy/Windows.antt =====
-- The overlap check of Validate (internal/policy/config.go): of the overrides whose windows end within
-- an int64 of nanoseconds a customer never has two in force at one instant, so among these the order
-- of the file does not decide a limit.
use mathlib.Core.List.{append_assoc, append-nil}
use ti_assignment_promise_th.Base.{
  ℕ, ◌+◌, ◌≤◌, ◌<◌, ◌^◌, and-true, not, ltb, ◌≡◌, refl, subst, sym, ap, ◌∙◌, Bool, true, false,
  ◌&&◌, String, List, [], ◌∷◌, ◌++◌, ◌==◌, if◌then◌else◌, string_eq, arith, Bool-cases, inl, inr,
  count_if,
}
use ti_assignment_promise_th.Base.Dict.{Dict, lookup, lookup_or, insert, lookup_or-insert}
use ti_assignment_promise_th.Ratelimit.Gcra.{Time, minute}
use ti_assignment_promise_th.Policy.Result.{ok, fail_if-eq-ok}
use ti_assignment_promise_th.Policy.Config.{
  OverrideConfig, TimeLib, Window, window_of, unwrapped_end, grace_of, offset_of, clash,
  clashes_any, has_overlap, check_windows, windows_by_customer,
}
use ti_assignment_promise_th.Base.Int.{
  ℤ, pos, negsuc, ◌+ℤ◌, pos_part, neg_part, ltb_ℤ, scale, int64_fits, int64-le,
}
use ti_assignment_promise_th.Policy.Resolver.{active_at, instants_for}

-- A map that passes has no overlap under any key.
check_windows-has_overlap :
    (d : Dict String (List Window)) (k : String)
    → check_windows d ≡ ok tt
    → has_overlap (lookup_or [] k d) ≡ false
unfolding check_windows lookup_or lookup has_overlap
check_windows-has_overlap [] k h = refl
check_windows-has_overlap ((customer, ws) ∷ rest) k h =
    let (clear, h') = fail_if-eq-ok (has_overlap ws) _ _ h in
    ground (arith, check_windows-has_overlap rest k h')

before_end :
    (day now e : ℕ) (g : ℤ)
    → ltb_ℤ (pos now) (pos (day + e) +ℤ g) ≡ true
    → now + neg_part (pos e +ℤ g) < day + pos_part (pos e +ℤ g)
before_end day now e (pos g) h = ground arith
before_end day now e (negsuc g) h = ground arith

starts :
    (day now s t : ℕ) (x y : ℤ)
    → day + s ≤ now
    → day + t ≤ now
    → now + neg_part x < day + pos_part x
    → now + neg_part y < day + pos_part y
    → (ltb_ℤ (pos s) y && ltb_ℤ (pos t) x) ≡ true
starts day now s t x y hs ht hx hy = ground arith

module _ (time : TimeLib) where
  -- The windows of one customer, in the order of the file.
  windows_for : String → List OverrideConfig → List Window
  windows_for k [] = []
  windows_for k (o ∷ rest) =
      let ws = windows_for k rest in if o.customer == k then window_of time o ∷ ws else ws

  windows_by_customer-windows_for :
      (acc : Dict String (List Window)) (os : List OverrideConfig) (k : String)
      → lookup_or [] k (windows_by_customer time acc os) ≡ lookup_or [] k acc ++ windows_for k os
  unfolding windows_by_customer windows_for
  windows_by_customer-windows_for acc [] k = sym (append-nil _)
  windows_by_customer-windows_for acc (o ∷ rest) k =
      let ws = lookup_or [] o.customer acc ++ window_of time o ∷ [] in
      let ih = windows_by_customer-windows_for (insert o.customer ws acc) rest k in
      let here = lookup_or-insert [] o.customer k ws acc in
      elim (Bool-cases (o.customer == k)) [
        | inl same ↦
            ih
            ∙ rw (here, same)
                (append_assoc (lookup_or [] o.customer acc) (window_of time o ∷ [])
                    (windows_for k rest)
                  ∙ ap (λ j. lookup_or [] j acc ++ window_of time o ∷ windows_for k rest)
                      ((string_eq.beq_iff o.customer k).0 same))
        | inr differ ↦ ih ∙ rw (differ, here) (rw differ refl)
      ]

  -- The end of the override's window, with the grace as an int64, does not wrap around.
  abbrev pub fits : OverrideConfig → Bool
  fits o = ltb_ℤ (unwrapped_end time o) (pos (2 ^ 63))

  window_of-end :
      (o : OverrideConfig) → fits o ≡ true → (window_of time o).end ≡ unwrapped_end time o
  unfolding window_of
  window_of-end o h =
      int64_fits (unwrapped_end time o) (ground arith)
        (ground (arith, int64-le (scale o.window.grace_minutes minute)))

  -- On its day an override is in force from its start on and before its end.
  active-within :
      (o : OverrideConfig) (now : Time)
      → active_at time o now ≡ true
      → (time.start_of_day now + offset_of time o.window.start_utc ≤ now)
        × (now + neg_part (unwrapped_end time o)
            < time.start_of_day now + pos_part (unwrapped_end time o))
  unfolding active_at instants_for
  active-within o now h = elim (Bool-cases (ltb now o.expires_at)) [
    | inr gone ↦ absurd (ground (arith, h, gone))
    | inl before ↦
        let (late, early) =
          and-true (not (ltb now (instants_for time o now).0))
            (ltb_ℤ (pos now) (instants_for time o now).1) (rw before at h) in
        (
          ground (arith, late),
          before_end (time.start_of_day now) now (offset_of time o.window.end_utc) (grace_of time o)
              early,
        )
  ]

  active-clash :
      (a b : OverrideConfig) (now : Time)
      → fits a ≡ true
      → fits b ≡ true
      → active_at time a now ≡ true
      → active_at time b now ≡ true
      → clash (window_of time a) (window_of time b) ≡ true
  unfolding clash
  active-clash a b now fa fb ha hb =
      let (sa, ea) = active-within a now ha in
      let (sb, eb) = active-within b now hb in
      rw (window_of-end a fa, window_of-end b fb)
        (unfold window_of in
          starts (time.start_of_day now) now _ _ (unwrapped_end time a) (unwrapped_end time b) sa sb
            ea eb)

  -- The override is the customer's and in force.
  abbrev pub in_force : String → Time → OverrideConfig → Bool
  in_force k now o = o.customer == k && active_at time o now

  -- It is that, and the end of its window does not wrap around.
  abbrev pub in_force_fitting : String → Time → OverrideConfig → Bool
  in_force_fitting k now o = fits o && in_force k now o

  both_lem : (a b c : Bool) → (a && (b && c)) ≡ true → (a ≡ true) × (b ≡ true) × (c ≡ true)
  both_lem a b c h = (ground arith, ground arith, ground arith)

  later_clear :
      (w : Window) (k : String) (o : OverrideConfig) (rest : List OverrideConfig)
      → clashes_any w (windows_for k (o ∷ rest)) ≡ false
      → clashes_any w (windows_for k rest) ≡ false
  unfolding windows_for clashes_any
  later_clear w k o rest clear = ground (arith, clear)

  alone :
      (a : OverrideConfig) (k : String) (now : Time) (os : List OverrideConfig)
      → fits a ≡ true
      → active_at time a now ≡ true
      → clashes_any (window_of time a) (windows_for k os) ≡ false
      → count_if (in_force_fitting k now) os ≡ 0
  unfolding windows_for clashes_any
  alone a k now [] f h clear = refl
  alone a k now (o ∷ rest) f h clear = elim (Bool-cases (in_force_fitting k now o)) [
    | inl both ↦
        let (fo, own, live) = both_lem (fits o) (o.customer == k) (active_at time o now) both in
        absurd (ground (arith, clear, own, active-clash a o now f fo h live))
    | inr miss ↦ rw miss (alone a k now rest f h (later_clear (window_of time a) k o rest clear))
  ]

  one_in_force :
      (k : String) (now : Time) (os : List OverrideConfig)
      → has_overlap (windows_for k os) ≡ false
      → count_if (in_force_fitting k now) os ≤ 1
  unfolding windows_for has_overlap
  one_in_force k now [] clear = omega arith
  one_in_force k now (o ∷ rest) clear = elim (Bool-cases (in_force_fitting k now o)) [
    | inl both ↦
        let (fo, own, live) = both_lem (fits o) (o.customer == k) (active_at time o now) both in
        rw both (omega (arith, alone o k now rest fo live (ground (arith, clear, own))))
    | inr miss ↦ rw miss (one_in_force k now rest (ground (arith, clear)))
  ]

  -- A file that passes the check has at most one override in force for a customer at an instant whose
  -- window ends within an int64.
  pub check_windows-one_in_force :
      (os : List OverrideConfig) (k : String) (now : Time)
      → check_windows (windows_by_customer time [] os) ≡ ok tt
      → count_if (in_force_fitting k now) os ≤ 1
  unfolding lookup_or windows_for
  check_windows-one_in_force os k now h = one_in_force k now os (
      subst (λ ws. has_overlap ws ≡ false) (windows_by_customer-windows_for [] os k)
        (check_windows-has_overlap (windows_by_customer time [] os) k h))
