-- ===== src/Chains/Slots.antt =====
-- solana.go: GetFirstAvailableSlot. A message is its list of code points.
use aura_proxy.Common.{
  ℕ, ◌+◌, ◌*◌, ◌-◌, ◌^◌, ◌&&◌, List, [], ◌∷◌, Option, none, some, ◌==◌, ltb, leb, if◌then◌else◌,
}

-- What follows the last ": " of a text, the whole text if there is none: the last element of
-- strings.Split.
abbrev after_last_from : List ℕ → List ℕ → List ℕ
after_last_from whole [] = whole
after_last_from whole (c ∷ []) = whole
after_last_from whole (c ∷ d ∷ s) =
    after_last_from (if c == b':' && d == b' ' then s else whole) (d ∷ s)

unfoldable pub after_last_colon : List ℕ → List ℕ
after_last_colon s = after_last_from s s

-- strconv.ParseUint(s, 10, 64): decimal digits only, at least one, and below 2^64.
abbrev digits_from : ℕ → List ℕ → Option ℕ
digits_from acc [] = some acc
digits_from acc (c ∷ s) =
    let rest = digits_from (acc * 10 + (c - b'0')) s in
    if leb b'0' c && leb c b'9' then rest else none

unfoldable pub parse_uint : List ℕ → Option ℕ
parse_uint [] = none
parse_uint (c ∷ s) = elim (digits_from 0 (c ∷ s)) [
  | none ↦ none
  | some n ↦ if ltb n (2 ^ 64) then some n else none
]

unfoldable pub get_first_available_slot : List ℕ → Option ℕ
unfolding after_last_colon parse_uint
get_first_available_slot message = parse_uint (after_last_colon message)
