-- ===== src/Near/Graph/Counts.antt =====
-- Occurrences of a receipt in a list, and a receipt taken out of a list.
use x402_facilitator.Near.Graph.{mem, true, false, inl, inr}
use x402_facilitator.Prelude.{
  ℕ, ◌+◌, ◌≤◌, ◌≡◌, ap, true, false, List, [], ◌∷◌, ◌++◌, ◌==◌, if◌then◌else◌, arith, length,
  Bool-cases, ==→eq, ◌∙◌,
}

unfoldable pub count : ℕ → List ℕ → ℕ
count a [] = 0
count a (x ∷ xs) = (if a == x then 1 else 0) + count a xs

pub count-append : (a : ℕ) (xs ys : List ℕ) → count a (xs ++ ys) ≡ count a xs + count a ys
unfolding count
count-append a [] ys = ground arith
count-append a (x ∷ xs) ys = ground (arith, count-append a xs ys)

pub mem→count : (a : ℕ) (xs : List ℕ) → mem a xs ≡ true → 1 ≤ count a xs
unfolding count
mem→count a [] h = absurd (ground arith)
mem→count a (x ∷ xs) h = ground (arith, mem→count a xs)

pub not_mem→count : (a : ℕ) (xs : List ℕ) → mem a xs ≡ false → count a xs ≡ 0
unfolding count
not_mem→count a [] h = ground arith
not_mem→count a (x ∷ xs) h = ground (arith, not_mem→count a xs)

pub count→mem : (a : ℕ) (xs : List ℕ) → 1 ≤ count a xs → mem a xs ≡ true
count→mem a xs h = ground (arith, Bool-cases (mem a xs), not_mem→count a xs)

unfoldable pub remove : ℕ → List ℕ → List ℕ
remove a [] = []
remove a (x ∷ xs) = if a == x then xs else x ∷ remove a xs

pub count-remove :
    (v a : ℕ) (xs : List ℕ)
    → 1 ≤ count a xs
    → count v (remove a xs) + (if v == a then 1 else 0) ≡ count v xs
unfolding count remove
count-remove v a [] h = absurd (omega arith)
count-remove v a (x ∷ xs) h = ground (arith, count-remove v a xs)

pub length-remove : (a : ℕ) (xs : List ℕ) → 1 ≤ count a xs → length (remove a xs) + 1 ≡ length xs
unfolding count remove
length-remove a [] h = absurd (omega arith)
length-remove a (x ∷ xs) h = ground (arith, length-remove a xs)

-- The edges from the receipts of a list into one receipt.
unfoldable pub edges : (ℕ → List ℕ) → List ℕ → ℕ → ℕ
edges children [] v = 0
edges children (u ∷ us) v = count v (children u) + edges children us v

pub edges-remove :
    (children : ℕ → List ℕ) (v a : ℕ) (us : List ℕ)
    → 1 ≤ count a us
    → edges children (remove a us) v + count v (children a) ≡ edges children us v
unfolding edges remove count
edges-remove children v a [] h = absurd (omega arith)
edges-remove children v a (u ∷ us) h =
    ground (arith, edges-remove children v a us, ==→eq a u, ap (λ x. count v (children x)))

pub edges-count :
    (children : ℕ → List ℕ) (u v : ℕ) (us : List ℕ)
    → 1 ≤ count u us
    → count v (children u) ≤ edges children us v
unfolding edges count
edges-count children u v [] h = absurd (omega arith)
edges-count children u v (x ∷ us) h = ground (arith, edges-count children u v us, ==→eq u x)

pub count_once : (v a : ℕ) (xs : List ℕ) → mem a xs ≡ false → count v xs ≤ 1 → count v (a ∷ xs) ≤ 1
unfolding count
count_once v a xs m h = elim (Bool-cases (v == a)) [
  | inl same ↦
      let e : count v xs ≡ 0 = ap (λ x. count x xs) (==→eq v a same) ∙ not_mem→count a xs m in
      ground arith
  | inr other ↦ ground arith
]

pub count-nil : (v : ℕ) → count v [] ≤ 1
unfolding count
count-nil v = omega arith
