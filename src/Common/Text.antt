-- ===== src/Common/Text.antt =====
-- Texts as lists of code points, and what the code uses of Go's packages strings and unicode.
use Prim.Native.Char.{code}
use aura_proxy.Common.{
  ℕ, ◌+◌, String, Bool, true, false, ◌&&◌, ◌||◌, List, [], ◌∷◌, ◌==◌, leb, if◌then◌else◌,
}

abbrev pub text_eq : List ℕ → List ℕ → Bool
text_eq [] [] = true
text_eq (a ∷ as') (b ∷ bs) = a == b && text_eq as' bs
text_eq _ _ = false

abbrev pub is_empty {ℓ} : {A : Type ℓ} → List A → Bool
is_empty [] = true
is_empty (a ∷ as') = false

-- strings.HasPrefix
abbrev pub has_prefix : List ℕ → List ℕ → Bool
has_prefix [] s = true
has_prefix (p ∷ ps) [] = false
has_prefix (p ∷ ps) (c ∷ s) = p == c && has_prefix ps s

-- strings.Contains
unfoldable pub contains : List ℕ → List ℕ → Bool
contains [] p = is_empty p
contains (c ∷ s) p = has_prefix p (c ∷ s) || contains s p

-- unicode.IsSpace
abbrev pub is_space : ℕ → Bool
is_space c =
    leb 9 c && leb c 13
    || c == 32
    || c == 133
    || c == 160
    || c == 5760
    || leb 8192 c && leb c 8202
    || c == 8232
    || c == 8233
    || c == 8239
    || c == 8287
    || c == 12288

-- strings.TrimSpace is `trim_left (trim_right s)`.
abbrev pub trim_left : List ℕ → List ℕ
trim_left [] = []
trim_left (c ∷ cs) = let rest = trim_left cs in if is_space c then rest else c ∷ cs

abbrev pub trim_right : List ℕ → List ℕ
trim_right [] = []
trim_right (c ∷ cs) = elim (trim_right cs) [
  | [] ↦ if is_space c then [] else c ∷ []
  | d ∷ ds ↦ c ∷ d ∷ ds
]

-- strings.TrimPrefix and strings.TrimSuffix of one code point.
abbrev pub trim_prefix : ℕ → List ℕ → List ℕ
trim_prefix b [] = []
trim_prefix b (c ∷ cs) = if c == b then cs else c ∷ cs

abbrev pub trim_suffix : ℕ → List ℕ → List ℕ
trim_suffix b [] = []
trim_suffix b (c ∷ []) = if c == b then [] else c ∷ []
trim_suffix b (c ∷ d ∷ cs) = c ∷ trim_suffix b (d ∷ cs)

-- strings.TrimRight by a cutset of one code point.
abbrev pub trim_all_right : ℕ → List ℕ → List ℕ
trim_all_right b [] = []
trim_all_right b (c ∷ cs) = elim (trim_all_right b cs) [
  | [] ↦ if c == b then [] else c ∷ []
  | d ∷ ds ↦ c ∷ d ∷ ds
]

-- The same on a string.
abbrev pub string_trim_right : ℕ → String → String
string_trim_right b String.[] = String.[]
string_trim_right b (String.◌∷◌ c s) = elim (string_trim_right b s) [
  | String.[] ↦ if code c == b then String.[] else String.◌∷◌ c String.[]
  | String.◌∷◌ d t ↦ String.◌∷◌ c (String.◌∷◌ d t)
]

abbrev pub string_append : String → String → String
string_append String.[] t = t
string_append (String.◌∷◌ c s) t = String.◌∷◌ c (string_append s t)

abbrev pub ends_with : ℕ → List ℕ → Bool
ends_with b [] = false
ends_with b (c ∷ []) = c == b
ends_with b (c ∷ d ∷ cs) = ends_with b (d ∷ cs)

abbrev pub starts_with : ℕ → List ℕ → Bool
starts_with b [] = false
starts_with b (c ∷ cs) = c == b

-- unicode.ToLower, as far as its result is an ASCII letter: besides the capitals these are U+0130,
-- which goes to i, and the Kelvin sign.
abbrev pub lower : ℕ → ℕ
lower c =
    if leb b'A' c && leb c b'Z'
    then c + 32
    else if c == 304
    then b'i'
    else if c == 8490
    then b'k'
    else c
