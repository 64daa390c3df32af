-- ===== src/Coordinator/Peer/Tick/Seen.antt =====
-- The set of customers that runRebalanceTick in internal/coordinator/peer.go collects from the answers:
-- each stands in it once.
use ti_assignment_promise_th.Base.{
  ◌≡◌, refl, subst, Bool, true, false, String, none, some, inl, inr, [], ◌∷◌, ◌==◌, arith,
  Bool-cases, string_eq,
}
use ti_assignment_promise_th.Base.Dict.{Dict, lookup, insert, lookup-insert}
use ti_assignment_promise_th.Coordinator.Peer.{StatusResponse, CustomerStatus}
use ti_assignment_promise_th.Coordinator.Peer.Tick.{add_seen, all_seen}

-- No key stands in the map twice.
unfoldable pub IsOnce : Dict String Bool → Type 0
unfolding lookup
IsOnce [] = Unit
IsOnce ((c, b) ∷ m) = (lookup c m ≡ none) × IsOnce m

insert-IsOnce : (c : String) (b : Bool) (m : Dict String Bool) → IsOnce m → IsOnce (insert c b m)
unfolding insert lookup IsOnce
insert-IsOnce c b [] h = (refl, tt)
insert-IsOnce c b ((i, old) ∷ m) h = elim (Bool-cases (i == c)) [
  | inl same ↦ rw same (subst (λ k. lookup k m ≡ none) ((string_eq.beq_iff i c).0 same) h.0, h.1)
  | inr other ↦ rw other (
    ground (arith, lookup-insert c i b m, string_eq.beq_iff i c, string_eq.beq_iff c i, other, h.0),
    insert-IsOnce c b m h.1,
  )
]

add_seen-IsOnce :
    (m : Dict String CustomerStatus) (seen : Dict String Bool)
    → IsOnce seen
    → IsOnce (add_seen m seen)
unfolding add_seen
add_seen-IsOnce [] seen h = h
add_seen-IsOnce ((id, cs) ∷ m) seen h =
    add_seen-IsOnce m (insert id true seen) (insert-IsOnce id true seen h)

pub all_seen-IsOnce : (statuses : Dict String StatusResponse) → IsOnce (all_seen statuses)
unfolding all_seen IsOnce
all_seen-IsOnce [] = tt
all_seen-IsOnce ((id, st) ∷ m) = add_seen-IsOnce st.customers (all_seen m) (all_seen-IsOnce m)

pub apart_keys :
    (c id : String) (b : Bool) (m : Dict String Bool)
    → lookup c m ≡ none
    → lookup id m ≡ some b
    → (c == id) ≡ false
apart_keys c id b m gone found = elim (Bool-cases (c == id)) [
  | inl same ↦
      let here : lookup id m ≡ none =
        subst (λ k. lookup k m ≡ none) ((string_eq.beq_iff c id).0 same) gone in
      absurd (ground (arith, here, found))
  | inr other ↦ other
]
