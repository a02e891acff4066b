-- ===== src/Balancer/Weighted/Sorting.antt =====
-- Sorted slices of indices without repetition, and what sort.Ints does to them.
use aura_proxy.Common.{ℕ, suc, ◌≤◌, ◌<◌, ◌≡◌, refl, Bool, false, ◌||◌, List, [], ◌∷◌, arith, ◌==◌}
use aura_proxy.Balancer.Weighted.{insert_int, sort_ints, is_nil}

abbrev pub mem_int : ℕ → List ℕ → Bool
mem_int j [] = false
mem_int j (x ∷ xs) = x == j || mem_int j xs

-- No index occurs twice.
abbrev pub Distinct : List ℕ → Type 0
Distinct [] = Unit
Distinct (x ∷ xs) = (mem_int x xs ≡ false) × Distinct xs

-- Strictly rising, from lo on.
abbrev pub Rising : ℕ → List ℕ → Type 0
Rising lo [] = Unit
Rising lo (x ∷ xs) = (lo ≤ x) × Rising (suc x) xs

mem_int-insert_int :
    (j x : ℕ) (ys : List ℕ) → mem_int j (insert_int x ys) ≡ (x == j || mem_int j ys)
mem_int-insert_int j x [] = refl
mem_int-insert_int j x (y ∷ ys) = ground (arith, mem_int-insert_int j x ys)

insert_int-Rising :
    (lo x : ℕ) (ys : List ℕ)
    → lo ≤ x
    → mem_int x ys ≡ false
    → Rising lo ys
    → Rising lo (insert_int x ys)
insert_int-Rising lo x [] h m r = (h, tt)
insert_int-Rising lo x (y ∷ ys) h m r = ground (arith, insert_int-Rising (suc y) x ys)

-- Sorting keeps the members.
pub mem_int-sort_ints : (j : ℕ) (xs : List ℕ) → mem_int j (sort_ints xs) ≡ mem_int j xs
unfolding sort_ints
mem_int-sort_ints j [] = refl
mem_int-sort_ints j (x ∷ xs) =
    ground (arith, mem_int-insert_int j x (sort_ints xs), mem_int-sort_ints j xs)

pub sort_ints-Rising : (xs : List ℕ) → Distinct xs → Rising 0 (sort_ints xs)
unfolding sort_ints
sort_ints-Rising [] d = tt
sort_ints-Rising (x ∷ xs) d =
    insert_int-Rising 0 x (sort_ints xs) (omega arith) (ground (arith, mem_int-sort_ints x xs))
      (sort_ints-Rising xs d.1)

pub Rising-weaken : (lo hi : ℕ) (xs : List ℕ) → lo ≤ hi → Rising hi xs → Rising lo xs
Rising-weaken lo hi [] h r = tt
Rising-weaken lo hi (x ∷ xs) h r = (omega arith, r.1)

pub mem_int-below : (j lo : ℕ) (xs : List ℕ) → j < lo → Rising lo xs → mem_int j xs ≡ false
mem_int-below j lo [] h r = refl
mem_int-below j lo (x ∷ xs) h r = ground (arith, mem_int-below j (suc x) xs)

pub Rising-Distinct : (lo : ℕ) (xs : List ℕ) → Rising lo xs → Distinct xs
Rising-Distinct lo [] r = tt
Rising-Distinct lo (x ∷ xs) r =
    (mem_int-below x (suc x) xs (omega arith) r.1, Rising-Distinct (suc x) xs r.1)

pub is_nil-sort_ints : (xs : List ℕ) → is_nil (sort_ints xs) ≡ is_nil xs
unfolding sort_ints
is_nil-sort_ints [] = refl
is_nil-sort_ints (x ∷ xs) = insert_not_nil x (sort_ints xs)
  where
    insert_not_nil : (x : ℕ) (ys : List ℕ) → is_nil (insert_int x ys) ≡ false
    insert_not_nil x [] = refl
    insert_not_nil x (y ∷ ys) = ground arith
