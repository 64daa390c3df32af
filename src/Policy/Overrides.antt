-- ===== src/Policy/Overrides.antt =====
-- What Validate (internal/policy/config.go) establishes of each override: it is dated, documented
-- and raises the limit of a configured customer.
use ti_assignment_promise_th.Base.{
  ℕ, ◌+◌, ◌<◌, ◌≡◌, ◌≢◌, refl, subst, false, not, String, Option, some, List, [], ◌∷◌, ◌==◌, ltb,
  leb, string_eq, arith, All,
}
use ti_assignment_promise_th.Base.Dict.{Dict, lookup}
use ti_assignment_promise_th.Base.Int.{pos, ltb_ℤ, leb_ℤ, ◌<ℤ◌, ◌≤ℤ◌}
use ti_assignment_promise_th.Ratelimit.Gcra.{Time, Duration}
use ti_assignment_promise_th.Policy.Result.{
  ok, >>=-eq-ok, ok-injective, fail_if-eq-ok, or_fail-eq-ok,
}
use ti_assignment_promise_th.Policy.Config.{
  CustomerConfig, TierConfig, OverrideConfig, TimeLib, contracted_limit, tier_or_zero,
  check_override, check_overrides, offset_of, parse_time_of_day,
}

module _ (time : TimeLib) where
  -- The override names a customer that `find` finds, is documented, expires after `now`, raises the
  -- customer's contracted limit, and has a window of positive length on one day.
  pub record IsOverride (find : String → Option CustomerConfig) (tiers : Dict String TierConfig)
      (now : Time) (o : OverrideConfig) : Type 0 where
    pub holder : CustomerConfig
    pub is_configured : find o.customer ≡ some holder
    pub has_ticket : o.ticket ≢ ""
    pub has_reason : o.reason ≢ ""
    pub dated : time.parse_date o.expires ≡ some o.expires_at
    pub unexpired : now < o.expires_at
    pub raises : contracted_limit holder (tier_or_zero tiers holder.tier) <ℤ o.limit_rpm
    pub positive : pos 1 ≤ℤ o.limit_rpm
    pub ordered : offset_of time o.window.start_utc < offset_of time o.window.end_utc
    pub graced : pos 0 ≤ℤ o.window.grace_minutes

  offset_of-eq :
      (s : String) (d : Duration) → parse_time_of_day time s ≡ some d → offset_of time s ≡ d
  unfolding offset_of
  offset_of-eq s d e = rw (e, offset_of) refl

  -- Every check of the body, passed.
  record Passed (tiers : Dict String TierConfig) (by_id : Dict String CustomerConfig) (now : Time)
      (o o' : OverrideConfig) : Type 0 where
    cust : CustomerConfig
    found : lookup o.customer by_id ≡ some cust
    ticket_set : (o.ticket == "") ≡ false
    reason_set : (o.reason == "") ≡ false
    expires_at : Time
    parsed : time.parse_date o.expires ≡ some expires_at
    future : not (ltb now expires_at) ≡ false
    above_zero : leb_ℤ o.limit_rpm (pos 0) ≡ false
    above : leb_ℤ o.limit_rpm (contracted_limit cust (tier_or_zero tiers cust.tier)) ≡ false
    start : Duration
    started : parse_time_of_day time o.window.start_utc ≡ some start
    end : Duration
    ended : parse_time_of_day time o.window.end_utc ≡ some end
    after : leb end start ≡ false
    grace : ltb_ℤ o.window.grace_minutes (pos 0) ≡ false
    result : o' ≡ record o { expires_at = expires_at }

  module _ (tiers : Dict String TierConfig) (by_id : Dict String CustomerConfig) (now : Time) where
    check_override-Passed :
        (i : ℕ) (o : OverrideConfig) {o' : OverrideConfig}
        → check_override time tiers by_id now i o ≡ ok o'
        → Passed tiers by_id now o o'
    unfolding check_override
    check_override-Passed i o h0 =
        let (named, h1) = fail_if-eq-ok (o.customer == "") _ _ h0 in
        let (cust, found, h2) = or_fail-eq-ok (lookup o.customer by_id) _ _ h1 in
        let (ticket_set, h3) = fail_if-eq-ok (o.ticket == "") _ _ h2 in
        let (reason_set, h4) = fail_if-eq-ok (o.reason == "") _ _ h3 in
        let (dated, h5) = fail_if-eq-ok (o.expires == "") _ _ h4 in
        let (expires_at, parsed, h6) = or_fail-eq-ok (time.parse_date o.expires) _ _ h5 in
        let (future, h7) = fail_if-eq-ok (not (ltb now expires_at)) _ _ h6 in
        let (above_zero, h8) = fail_if-eq-ok (leb_ℤ o.limit_rpm (pos 0)) _ _ h7 in
        let (above, h9) =
          fail_if-eq-ok (leb_ℤ o.limit_rpm (contracted_limit cust (tier_or_zero tiers cust.tier))) _
            _ h8 in
        let (start, started, h10) =
          or_fail-eq-ok (parse_time_of_day time o.window.start_utc) _ _ h9 in
        let (end, ended, h11) = or_fail-eq-ok (parse_time_of_day time o.window.end_utc) _ _ h10 in
        let (after, h12) = fail_if-eq-ok (leb end start) _ _ h11 in
        let (grace, h13) = fail_if-eq-ok (ltb_ℤ o.window.grace_minutes (pos 0)) _ _ h12 in
        record {
          cust = cust;
          found = found;
          ticket_set = ticket_set;
          reason_set = reason_set;
          expires_at = expires_at;
          parsed = parsed;
          future = future;
          above_zero = above_zero;
          above = above;
          start = start;
          started = started;
          end = end;
          ended = ended;
          after = after;
          grace = grace;
          result = ground arith;
        }

    check_override-IsOverride :
        (i : ℕ) (o : OverrideConfig) {o' : OverrideConfig}
        → check_override time tiers by_id now i o ≡ ok o'
        → IsOverride (λ k. lookup k by_id) tiers now o'
    check_override-IsOverride i o h =
        let p = check_override-Passed i o h in
        rw p.result (record {
          holder = p.cust;
          is_configured = p.found;
          has_ticket = λ e. ground (arith, p.ticket_set, string_eq.beq_iff o.ticket "");
          has_reason = λ e. ground (arith, p.reason_set, string_eq.beq_iff o.reason "");
          dated = p.parsed;
          unexpired = ground (arith, p.future);
          raises = ground (arith, p.above);
          positive = ground (arith, p.above_zero);
          ordered =
              rw (offset_of-eq _ _ p.started, offset_of-eq _ _ p.ended) (ground (arith, p.after));
          graced = ground (arith, p.grace);
        })

    pub check_overrides-IsOverride :
        (i : ℕ) (os : List OverrideConfig) {os' : List OverrideConfig}
        → check_overrides time tiers by_id now i os ≡ ok os'
        → All (IsOverride (λ k. lookup k by_id) tiers now) os'
    unfolding check_overrides
    check_overrides-IsOverride i [] h =
        subst (All (IsOverride (λ k. lookup k by_id) tiers now)) (ok-injective _ _ h) tt
    check_overrides-IsOverride i (o ∷ rest) h =
        let (o', e, h') = >>=-eq-ok (check_override time tiers by_id now i o) _ h in
        let (rest', f, g) = >>=-eq-ok (check_overrides time tiers by_id now (i + 1) rest) _ h' in
        subst (All (IsOverride (λ k. lookup k by_id) tiers now)) (ok-injective _ _ g)
          (check_override-IsOverride i o e, check_overrides-IsOverride (i + 1) rest f)
