-- ===== src/Relayapi/Peers.antt =====
-- splitCSV of cmd/relayapi/main.go reads back the list of peers that RELAYAPI_PEERS spells.
use ti_assignment_promise_th.Base.{
  ℕ, ◌≡◌, ◌∙◌, refl, inl, inr, Bool, true, false, ◌&&◌, String, some, List, [], ◌∷◌, ◌==◌,
  string_eq, arith, All, Bool-cases, ap,
}
use ti_assignment_promise_th.Base.Dict.{Dict, insert}
use ti_assignment_promise_th.Base.Text.{
  concat, is_blank, Each, Each-weaken, Each-concat, is_other, is_solid, is_space, split,
  split-single, split-concat, split_in_two, split_in_two-concat, trim_space, trim_space-solid,
}
use ti_assignment_promise_th.Relayapi.{add_pair, add_pairs, split_csv}

-- id=url
abbrev pub spell_pair : String × String → String
spell_pair e = concat e.0 (concat "=" e.1)

-- The text of RELAYAPI_PEERS, with a comma between two pairs.
abbrev pub spell : List (String × String) → String
spell [] = ""
spell (e ∷ []) = spell_pair e
spell (e ∷ f ∷ es) = concat (spell_pair e) (concat "," (spell (f ∷ es)))

abbrev pub insert_all : List (String × String) → Dict String String → Dict String String
insert_all [] m = m
insert_all (e ∷ es) m = insert_all es (insert e.0 e.1 m)

abbrev pub is_id_char : ℕ → Bool
is_id_char c = is_other b',' c && is_other b'=' c && is_solid c

abbrev pub is_url_char : ℕ → Bool
is_url_char c = is_other b',' c && is_solid c

-- The id holds no comma, no equals sign and no space, the URL no comma and no space.
abbrev pub IsPlain : String × String → Type 0
IsPlain e = Each is_id_char e.0 × Each is_url_char e.1

spell_pair-Each :
    (p : ℕ → Bool) (e : String × String)
    → ((c : ℕ) → is_id_char c ≡ true → p c ≡ true)
    → ((c : ℕ) → is_url_char c ≡ true → p c ≡ true)
    → p b'=' ≡ true
    → IsPlain e
    → Each p (spell_pair e)
spell_pair-Each p e id url sign (ids, urls) =
    Each-concat p e.0 (concat "=" e.1) (Each-weaken is_id_char p e.0 id ids)
      (sign, Each-weaken is_url_char p e.1 url urls)

no_comma : (e : String × String) → IsPlain e → Each (is_other b',') (spell_pair e)
no_comma e h = spell_pair-Each (is_other b',') e (λ c p. ground arith) (λ c p. ground arith) refl h

no_space : (e : String × String) → IsPlain e → Each is_solid (spell_pair e)
no_space e h =
    spell_pair-Each is_solid e (λ c p. ground arith) (λ c p. ground arith) (unfold is_space in refl)
      h

is_blank-concat : (s t : String) → is_blank t ≡ false → is_blank (concat s t) ≡ false
is_blank-concat String.[] t h = h
is_blank-concat (String.◌∷◌ c s) t h = refl

not_empty : (s : String) → is_blank s ≡ false → (s == "") ≡ false
not_empty s h = elim (Bool-cases (s == "")) [
  | inl same ↦
      let blank : is_blank s ≡ true = ap is_blank ((string_eq.beq_iff s "").0 same) in
      ground (arith, blank)
  | inr differ ↦ differ
]

add_pair-spell_pair :
    (e : String × String) (m : Dict String String)
    → IsPlain e
    → add_pair (spell_pair e) m ≡ insert e.0 e.1 m
unfolding add_pair
add_pair-spell_pair e m h =
    let full = not_empty (spell_pair e) (is_blank-concat e.0 (concat "=" e.1) refl) in
    let parts : split_in_two b'=' (spell_pair e) ≡ some (e.0, e.1) =
      split_in_two-concat b'=' e.0 _ e.1 refl
        (Each-weaken is_id_char (is_other b'=') e.0 (λ c p. ground arith) h.0) in
    rw (trim_space-solid (spell_pair e) (no_space e h), full, parts) refl

split-spell :
    (e f : String × String) (es : List (String × String))
    → IsPlain e
    → split b',' (spell (e ∷ f ∷ es)) ≡ spell_pair e ∷ split b',' (spell (f ∷ es))
split-spell e f es h = split-concat b',' (spell_pair e) _ (spell (f ∷ es)) refl (no_comma e h)

add_pairs-spell :
    (e : String × String) (es : List (String × String)) (m : Dict String String)
    → All IsPlain (e ∷ es)
    → add_pairs (split b',' (spell (e ∷ es))) m ≡ insert_all (e ∷ es) m
unfolding add_pairs
add_pairs-spell e [] m (h, hs) =
    rw (split-single b',' (spell_pair e) (no_comma e h)) (add_pair-spell_pair e m h)
add_pairs-spell e (f ∷ es) m (h, hs) = rw (split-spell e f es h) (
    ap (λ out. add_pairs (split b',' (spell (f ∷ es))) out) (add_pair-spell_pair e m h)
    ∙ add_pairs-spell f es (insert e.0 e.1 m) hs)

-- splitCSV of the text that spells the pairs is the map with the pairs put in, in their order.
pub split_csv-spell :
    (es : List (String × String)) → All IsPlain es → split_csv (spell es) ≡ insert_all es []
unfolding split_csv
split_csv-spell [] h = unfold split add_pairs add_pair trim_space in refl
split_csv-spell (e ∷ es) h = add_pairs-spell e es [] h
