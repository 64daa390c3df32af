-- ===== src/Coordinator/Static/Window.antt =====
-- What the static strategy (internal/coordinator/static.go) admits: every pair of a customer and a
-- limit is served as by a limiter of its own, and no window of a minute exceeds the share and
-- burst.
use ti_assignment_promise_th.Base.{
  string_eq, ℕ, ◌+◌, ◌≤◌, ◌≡◌, refl, ap, sym, ◌∙◌, String, Option, none, some, ◌>>=◌, List, [], ◌∷◌,
  ◌==◌, if◌then◌else◌, arith, All, Bool-cases, Option-cases, inl, inr, subst,
}
use mathlib.Core.Path.{subst₂}
use ti_assignment_promise_th.Base.Dict.{lookup, insert, lookup-insert, lookup-insert_cases}
use ti_assignment_promise_th.Ratelimit.Gcra.{Params, Time, minute, zero_time}
use ti_assignment_promise_th.Ratelimit.Gcra.Laws.{IsPaced, verdict}
use ti_assignment_promise_th.Ratelimit.Gcra.Pacing.{Entry, admitted_within}
use ti_assignment_promise_th.Ratelimit.Gcra.Demux.{
  entries, Refines, Refines-nil, Refines-cons, Refines-window_bound,
}
use ti_assignment_promise_th.Ratelimit.Store
use ti_assignment_promise_th.Ratelimit.Store.{
  tat_of, put_tat, tat_of-put_tat, put_tat-IsValid, tat_of-new_store, new_store-IsValid,
}
use ti_assignment_promise_th.Ratelimit.Limiter.{Limiter, new_limiter, allow_at, allow_at_lem}
use ti_assignment_promise_th.Coordinator.{node_burst}
use ti_assignment_promise_th.Coordinator.Static.{
  ShareKey, key_eq, Static, share_params, limiter_for, allow,
}
use ti_assignment_promise_th.Coordinator.Static.Share.{share_of, share_of_pos, node_share-eq}

-- A limiter made for the key on one of `n` nodes.
pub record Fits (n : ℕ) (key : ShareKey) (l : Limiter) : Type 0 where
  pub valid : Store.IsValid l.store
  pub shared : l.params ≡ share_params (share_of key.global_limit n)

pub record IsValid (s : Static) : Type 0 where
  pub counted : 1 ≤ s.node_count
  pub fits :
      (key : ShareKey) (l : Limiter) → lookup key s.limiters ≡ some l → Fits s.node_count key l

new_limiter-Fits :
    (n : ℕ) (key : ShareKey) → Fits n key (new_limiter (share_params (share_of key.global_limit n)))
unfolding new_limiter
new_limiter-Fits n key = record { valid = new_store-IsValid; shared = refl }

module _ (fnv32a : String → ℕ) where
  held : String → Option Limiter → Time
  held customer none = zero_time
  held customer (some l) = tat_of fnv32a l.store customer

  -- The TAT that the node holds for a key's customer under the key's limit.
  pub tat_at : Static → ShareKey → Time
  unfolding held
  tat_at s key = held key.customer_id (lookup key s.limiters)

  put_limiter : Static → ShareKey → Limiter → Static
  put_limiter s key l = record s { limiters = insert key l s.limiters }

  put_limiter-IsValid :
      (s : Static) (key : ShareKey) (l : Limiter)
      → IsValid s
      → Fits s.node_count key l
      → IsValid (put_limiter s key l)
  unfolding put_limiter
  put_limiter-IsValid s key l v f = record {
    counted = v.counted;
    fits = λ k l' e. elim (lookup-insert_cases key k l l' s.limiters e) [
      | inl (here, same) ↦ subst₂ (Fits s.node_count) here same f
      | inr before ↦ v.fits k l' before
    ];
  }

  tat_at-put_limiter :
      (s : Static) (key k : ShareKey) (l : Limiter)
      → tat_at (put_limiter s key l) k
        ≡ (if key == k then tat_of fnv32a l.store k.customer_id else tat_at s k)
  unfolding tat_at put_limiter
  tat_at-put_limiter s key k l = rw (lookup-insert key k l s.limiters) (ground arith)

  tat_at-missing :
      (s : Static) (key : ShareKey) → lookup key s.limiters ≡ none → tat_at s key ≡ zero_time
  unfolding tat_at
  tat_at-missing s key e = rw e refl

  put_limiter-new :
      (s : Static) (key k : ShareKey)
      → lookup key s.limiters ≡ none
      → tat_at
          (put_limiter s key (new_limiter (share_params (share_of key.global_limit s.node_count))))
          k
        ≡ tat_at s k
  unfolding new_limiter
  put_limiter-new s key k missing = elim (Bool-cases (key == k)) [
    | inl same ↦
        let e = ap (tat_at s) ((key_eq.beq_iff key k).0 same) in
        tat_at-put_limiter s key k _
        ∙ rw same (tat_of-new_store fnv32a k.customer_id ∙ sym (tat_at-missing s key missing) ∙ e)
    | inr differ ↦ tat_at-put_limiter s key k _ ∙ rw differ refl
  ]

  -- What limiterFor gives back: the key's limiter, in the map of a node that holds the same TATs.
  record Found (s : Static) (key : ShareKey) (l : Limiter) (s' : Static) : Type 0 where
    found : limiter_for s key ≡ some (l, s')
    fit : Fits s.node_count key l
    current : tat_of fnv32a l.store key.customer_id ≡ tat_at s key
    kept : IsValid s'
    counted_same : s'.node_count ≡ s.node_count
    unmoved : (k : ShareKey) → tat_at s' k ≡ tat_at s k

  limiter_for-Found :
      (s : Static) (key : ShareKey) → IsValid s → (l : Limiter) × (s' : Static) × Found s key l s'
  unfolding tat_at limiter_for put_limiter
  limiter_for-Found s key v = elim (Option-cases (lookup key s.limiters)) [
    | inl missing ↦
        let l = new_limiter (share_params (share_of key.global_limit s.node_count)) in
        let fresh = new_limiter-Fits s.node_count key in
        (
          l,
          put_limiter s key l,
          record {
            found =
                rw (missing, limiter_for, node_share-eq key.global_limit s.node_count v.counted)
                  refl;
            fit = fresh;
            current =
                unfold new_limiter in
                (tat_of-new_store fnv32a key.customer_id ∙ sym (tat_at-missing s key missing));
            kept = put_limiter-IsValid s key l v fresh;
            counted_same = refl;
            unmoved = λ k. put_limiter-new s key k missing;
          },
        )
    | inr (l, here) ↦ (
      l,
      s,
      record {
        found = rw (here, limiter_for) refl;
        fit = v.fits key l here;
        current = rw (here, held) refl;
        kept = v;
        counted_same = refl;
        unmoved = λ k. refl;
      },
    )
  ]

  moved :
      {t : Time} (l : Limiter) (s : Static) (key k : ShareKey) (tat : Time)
      → Store.IsValid l.store
      → tat_at s k ≡ t
      → (if key == k
          then tat_of fnv32a (put_tat fnv32a l.store key.customer_id tat) k.customer_id
          else tat_at s k)
        ≡ (if key == k then tat else t)
  moved l s key k tat valid e = elim (Bool-cases (key == k)) [
    | inl same ↦
        let own =
          (string_eq.beq_iff _ _).1
            (ap (λ (x : ShareKey). x.customer_id) ((key_eq.beq_iff key k).0 same)) in
        rw same
          (tat_of-put_tat fnv32a l.store key.customer_id k.customer_id tat valid ∙ rw own refl)
    | inr differ ↦ rw differ e
  ]

  -- One call of Allow, for a limit that gives the node a share: the verdict of the share's GCRA on
  -- the key's TAT, and no other key's TAT moves.
  pub allow_lem :
      (s : Static) (key : ShareKey) (now : Time)
      → IsValid s
      → 1 ≤ key.global_limit
      → let v =
          verdict (share_params (share_of key.global_limit s.node_count)) (tat_at s key) now in
        (s' : Static) × (allow fnv32a s key.customer_id key.global_limit now ≡ some (v.0, s'))
        × IsValid s'
        × (s'.node_count ≡ s.node_count)
        × ((k : ShareKey) → tat_at s' k ≡ (if key == k then v.1 else tat_at s k))
  unfolding allow put_limiter
  allow_lem s key now v h =
      let (l, s1, f) = limiter_for-Found s key v in
      let share = share_params (share_of key.global_limit s.node_count) in
      let paced : IsPaced share =
        (share_of_pos key.global_limit s.node_count h v.counted, omega arith) in
      let w = verdict share (tat_at s key) now in
      let l' : Limiter = record {
        store = put_tat fnv32a l.store key.customer_id w.1;
        params = share;
      } in
      let served : allow_at fnv32a l key.customer_id now ≡ some (w.0, l') =
        rw (f.fit.shared, f.current) at
          (allow_at_lem fnv32a l key.customer_id now (rw f.fit.shared paced)) in
      (
        put_limiter s1 key l',
        rw (f.found, served) refl,
        put_limiter-IsValid s1 key l' f.kept (record {
          valid = put_tat-IsValid fnv32a l.store key.customer_id w.1 f.fit.valid;
          shared = rw f.counted_same refl;
        }),
        f.counted_same,
        λ k. tat_at-put_limiter s1 key k l' ∙ moved l s1 key k w.1 f.fit.valid (f.unmoved k),
      )

-- A call of Allow: the key that its customer and limit make, and the arrival time.
abbrev pub Call : Type 0
Call = ShareKey × Time

-- The parameters of each key's GCRA on one of `n` nodes.
abbrev pub node_params : ℕ → ShareKey → Params
node_params n key = share_params (share_of key.global_limit n)

module _ (fnv32a : String → ℕ) where
  -- A history of calls on one node, in the order in which they take the locks.
  unfoldable pub run : Static → List Call → Option (List (ShareKey × Entry) × Static)
  run s [] = some ([], s)
  run s ((key, now) ∷ cs) = do
    r ← allow fnv32a s key.customer_id key.global_limit now
    rest ← run r.1 cs
    some ((key, (now, r.0)) ∷ rest.0, rest.1)

  -- A node serves every customer under every limit as a limiter of its own would, with the node's
  -- share for its quota; no call panics.
  pub run-Refines :
      (s : Static) (cs : List Call)
      → IsValid s
      → All (λ c. 1 ≤ c.0.global_limit) cs
      → (log : List (ShareKey × Entry)) × (s' : Static) × (run s cs ≡ some (log, s'))
        × IsValid s'
        × (s'.node_count ≡ s.node_count)
        × Refines (node_params s.node_count) (tat_at fnv32a s) cs log (tat_at fnv32a s')
  unfolding run
  run-Refines s [] v h = ([], s, refl, v, refl, Refines-nil _ (tat_at fnv32a s))
  run-Refines s ((key, now) ∷ cs) v h =
      let (s1, called, v1, same, moved_on) = allow_lem fnv32a s key now v h.0 in
      let (log, s', ran, v', same', ih) = run-Refines s1 cs v1 h.1 in
      let n = s.node_count in
      let paced : IsPaced (node_params n key) =
        (share_of_pos key.global_limit n h.0 v.counted, omega arith) in
      (
        (key, (now, (verdict (node_params n key) (tat_at fnv32a s key) now).0)) ∷ log,
        s',
        rw (called, ran) refl,
        v',
        same' ∙ same,
        Refines-cons (node_params n) (tat_at fnv32a s) (tat_at fnv32a s1) (tat_at fnv32a s') key now
            cs log paced moved_on
            (subst (λ m. Refines (node_params m) (tat_at fnv32a s1) cs log (tat_at fnv32a s')) same
              ih),
      )

  -- No window of a minute admits more of a customer's requests under one limit than the node's
  -- share and its burst.
  pub run-window_bound :
      (s : Static) (cs : List Call) {log : List (ShareKey × Entry)} {s' : Static} (key : ShareKey)
      (lo : Time)
      → IsValid s
      → All (λ c. 1 ≤ c.0.global_limit) cs
      → 1 ≤ key.global_limit
      → run s cs ≡ some (log, s')
      → admitted_within lo (lo + minute) (entries key log)
        ≤ share_of key.global_limit s.node_count + node_burst
  run-window_bound s cs key lo v h hk e =
      let (log', s'', ran, _, _, own) = run-Refines s cs v h in
      let bound =
        Refines-window_bound (node_params s.node_count) (tat_at fnv32a s) (tat_at fnv32a s'') cs
          log' key lo (share_of_pos key.global_limit s.node_count hk v.counted, omega arith) own in
      ground (arith, bound)
