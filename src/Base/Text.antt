-- ===== src/Base/Text.antt =====
-- The functions of Go's package strings that the nodes use on native text: Split, SplitN in two,
-- and TrimSpace. A character is its number.
use Prim.Native.Char.{Char, code}
use ti_assignment_promise_th.Base.{
  ℕ, ◌≡◌, refl, Bool, true, false, not, ◌&&◌, ◌||◌, String, Option, none, some, ◌>>=◌, List, [],
  ◌∷◌, arith, if◌then◌else◌, leb, nat_beq, and-true,
}

-- s + t
abbrev pub concat : String → String → String
concat String.[] t = t
concat (String.◌∷◌ c s) t = String.◌∷◌ c (concat s t)

abbrev pub is_blank : String → Bool
is_blank String.[] = true
is_blank (String.◌∷◌ c s) = false

abbrev pub push : Char → List String → List String
push c [] = String.◌∷◌ c String.[] ∷ []
push c (p ∷ ps) = String.◌∷◌ c p ∷ ps

-- strings.Split(s, sep) for a separator of one character.
unfoldable pub split : ℕ → String → List String
split sep String.[] = String.[] ∷ []
split sep (String.◌∷◌ c s) =
    let rest = split sep s in if nat_beq (code c) sep then String.[] ∷ rest else push c rest

-- strings.SplitN(s, sep, 2), `none` where it gives one part.
unfoldable pub split_in_two : ℕ → String → Option (String × String)
split_in_two sep String.[] = none
split_in_two sep (String.◌∷◌ c s) =
    let rest = split_in_two sep s in
    if nat_beq (code c) sep
    then some (String.[], s)
    else (rest >>= λ r. some (String.◌∷◌ c r.0, r.1))

-- unicode.IsSpace
unfoldable pub is_space : ℕ → Bool
is_space c =
    (leb 9 c && leb c 13)
    || nat_beq c 32
    || nat_beq c 133
    || nat_beq c 160
    || nat_beq c 5760
    || (leb 8192 c && leb c 8202)
    || nat_beq c 8232
    || nat_beq c 8233
    || nat_beq c 8239
    || nat_beq c 8287
    || nat_beq c 12288

unfoldable pub trim_left : String → String
unfolding is_space
trim_left String.[] = String.[]
trim_left (String.◌∷◌ c s) =
    let rest = trim_left s in if is_space (code c) then rest else String.◌∷◌ c s

unfoldable pub trim_right : String → String
unfolding is_space
trim_right String.[] = String.[]
trim_right (String.◌∷◌ c s) =
    let rest = trim_right s in
    if is_space (code c) && is_blank rest then String.[] else String.◌∷◌ c rest

-- strings.TrimSpace
unfoldable pub trim_space : String → String
unfolding trim_left trim_right
trim_space s = trim_right (trim_left s)

-- Every character passes the test.
abbrev pub Each : (ℕ → Bool) → String → Type 0
Each test String.[] = Unit
Each test (String.◌∷◌ c s) = (test (code c) ≡ true) × Each test s

-- The same as a test.
abbrev pub each : (ℕ → Bool) → String → Bool
each test String.[] = true
each test (String.◌∷◌ c s) = test (code c) && each test s

pub each-Each : (test : ℕ → Bool) (s : String) → each test s ≡ true → Each test s
each-Each test String.[] h = tt
each-Each test (String.◌∷◌ c s) h =
    let (first, rest) = and-true (test (code c)) (each test s) h in (first, each-Each test s rest)

abbrev pub is_other : ℕ → ℕ → Bool
is_other sep c = not (nat_beq c sep)

abbrev pub is_solid : ℕ → Bool
is_solid c = not (is_space c)

pub Each-weaken :
    (p q : ℕ → Bool) (s : String) → ((c : ℕ) → p c ≡ true → q c ≡ true) → Each p s → Each q s
Each-weaken p q String.[] h e = tt
Each-weaken p q (String.◌∷◌ c s) h (e, es) = (h (code c) e, Each-weaken p q s h es)

pub Each-concat : (p : ℕ → Bool) (s t : String) → Each p s → Each p t → Each p (concat s t)
Each-concat p String.[] t e f = f
Each-concat p (String.◌∷◌ c s) t (e, es) f = (e, Each-concat p s t es f)

pub split-single : (sep : ℕ) (p : String) → Each (is_other sep) p → split sep p ≡ p ∷ []
unfolding split
split-single sep String.[] e = refl
split-single sep (String.◌∷◌ c p) (e, es) = ground (arith, e, split-single sep p es)

pub split-concat :
    (sep : ℕ) (p : String) (c : Char) (s : String)
    → code c ≡ sep
    → Each (is_other sep) p
    → split sep (concat p (String.◌∷◌ c s)) ≡ p ∷ split sep s
unfolding split
split-concat sep String.[] c s same e = ground arith
split-concat sep (String.◌∷◌ d p) c s same (e, es) = ground (arith, split-concat sep p c s same es)

pub split_in_two-concat :
    (sep : ℕ) (p : String) (c : Char) (s : String)
    → code c ≡ sep
    → Each (is_other sep) p
    → split_in_two sep (concat p (String.◌∷◌ c s)) ≡ some (p, s)
unfolding split_in_two
split_in_two-concat sep String.[] c s same e = ground arith
split_in_two-concat sep (String.◌∷◌ d p) c s same (e, es) =
    ground (arith, split_in_two-concat sep p c s same es)

trim_left-solid : (s : String) → Each is_solid s → trim_left s ≡ s
unfolding trim_left
trim_left-solid String.[] e = refl
trim_left-solid (String.◌∷◌ c s) (e, es) = ground (arith, e)

trim_right-solid : (s : String) → Each is_solid s → trim_right s ≡ s
unfolding trim_right
trim_right-solid String.[] e = refl
trim_right-solid (String.◌∷◌ c s) (e, es) = ground (arith, e, trim_right-solid s es)

pub trim_space-solid : (s : String) → Each is_solid s → trim_space s ≡ s
unfolding trim_space
trim_space-solid s e = rw (trim_left-solid s e) (trim_right-solid s e)
