-- ===== src/Uart/Parity.antt =====
-- uart/parity.cpp and uart/parity.hpp: the parity of an octet by a table, and of a run of octets.
use native.Mathlib.Decide.{ℕ_discrete}
use mathlib.Core.Path.{subst}
use sc_platform.Prelude.{
  ℕ, zero, suc, ◌+◌, ◌/◌, ◌%◌, ◌^◌, ◌≤◌, ◌<◌, ◌≡◌, refl, sym, ap, ◌∙◌, Bool, true, false, not, ◌&&◌,
  some, List, [], ◌∷◌, arith, ◌==◌, if◌then◌else◌, length, get_elem?, take, All, Outcome, done,
  aborted, undefined, ◌>>=◌, defined,
}

-- `odd4`.
abbrev odd4 : List Bool
odd4 =
    false ∷ true ∷ true ∷ false ∷ true ∷ false ∷ false ∷ true ∷ true ∷ false ∷ false ∷ true ∷ false
    ∷ true ∷ true ∷ false ∷ []

abbrev xor : Bool → Bool → Bool
xor a b = if a then not b else b

-- `Parity::odd`: the parities of the two halves of an octet.
by_halves : ℕ → Outcome Bool
by_halves v = do
  high ← defined (get_elem? odd4 (v / 2 ^ 4))
  low ← defined (get_elem? odd4 (v % 2 ^ 4))
  done (xor high low)

-- The constructor's loop, from `v` on: the entries of `odd_table`.
fill_table : ℕ → ℕ → Outcome (List Bool)
unfolding by_halves
fill_table zero v = done []
fill_table (suc n) v = do b ← by_halves v; rest ← fill_table n (v + 1); done (b ∷ rest)

odd_table : Outcome (List Bool)
unfolding fill_table
odd_table = fill_table 256 0

pub odd : ℕ → Outcome Bool
unfolding odd_table
odd octet = do table ← odd_table; defined (get_elem? table octet)

pub even : ℕ → Outcome Bool
unfolding odd
even octet = do b ← odd octet; done (not b)

-- The loop over a run of octets, from its last to its first.
odd_loop : List ℕ → ℕ → Bool → Outcome Bool
unfolding odd
odd_loop octets zero parity = done parity
odd_loop octets (suc i) parity = do
  octet ← defined (get_elem? octets i)
  b ← odd octet
  odd_loop octets i (xor parity b)

pub odd_data : List ℕ → ℕ → Outcome Bool
unfolding odd_loop
odd_data octets depth = odd_loop octets depth false

pub even_data : List ℕ → ℕ → Outcome Bool
unfolding odd_data
even_data octets depth = do b ← odd_data octets depth; done (not b)

-- The number of bits that are set in the low `k` bits of `v`.
ones : ℕ → ℕ → ℕ
ones zero v = 0
ones (suc k) v = v % 2 + ones k (v / 2)

-- In the octets of a list.
pub total_ones : List ℕ → ℕ
unfolding ones
total_ones [] = 0
total_ones (x ∷ xs) = ones 8 x + total_ones xs

abbrev pub is_odd : ℕ → Bool
is_odd n = n % 2 == 1

-- An entry that is right.
abbrev right : Outcome Bool → Bool → Bool
right (done a) b = if a then b else not b
right _ _ = false

right_below : ℕ → Bool
unfolding odd ones
right_below zero = true
right_below (suc n) = right (odd n) (is_odd (ones 8 n)) && right_below n

table_checked : right_below 256 ≡ true
unfolding right_below
table_checked = refl

both : (a b : Bool) → (a && b) ≡ true → (a ≡ true) × (b ≡ true)
both a b h = (ground arith, ground arith)

right-done : (m : Outcome Bool) (b : Bool) → right m b ≡ true → m ≡ done b
right-done (done true) b h = ground arith
right-done (done false) b h = ground arith
right-done aborted b h = cc
right-done undefined b h = cc

right_below-odd : (n v : ℕ) → right_below n ≡ true → v < n → odd v ≡ done (is_odd (ones 8 v))
unfolding right_below
right_below-odd zero v h below = elim below [ ]
right_below-odd (suc n) v h below =
    let (here, rest) = both (right (odd n) (is_odd (ones 8 n))) (right_below n) h in
    elim (ℕ_discrete v n) [
      | yes e ↦ subst (λ u. odd u ≡ done (is_odd (ones 8 u))) (sym e) (right-done (odd n) _ here)
      | no ne ↦ right_below-odd n v rest (omega arith)
    ]

-- An octet is odd where the number of its bits that are set is, and even where it is not.
odd-ones :
    (v : ℕ)
    → v < 256
    → (odd v ≡ done (is_odd (ones 8 v))) × (even v ≡ done (not (is_odd (ones 8 v))))
unfolding even
odd-ones v below =
    let told = right_below-odd 256 v table_checked below in
    (told, ap (λ m. m >>= λ b. done (not b)) told)

total_ones-take :
    (octets : List ℕ) (i x : ℕ)
    → get_elem? octets i ≡ some x
    → total_ones (take (suc i) octets) ≡ ones 8 x + total_ones (take i octets)
unfolding total_ones
total_ones-take [] i x h = cc
total_ones-take (y ∷ ys) zero x h = ap (λ n. ones 8 n + 0) cc
total_ones-take (y ∷ ys) (suc i) x h = omega (arith, total_ones-take ys i x h)

xor-is_odd : (a b : ℕ) (p : Bool) → xor (xor p (is_odd a)) (is_odd b) ≡ xor p (is_odd (a + b))
xor-is_odd a b p = ground arith

All-get_elem? :
    (octets : List ℕ) (i : ℕ)
    → All (λ x. x < 256) octets
    → i < length octets
    → (x : ℕ) × (get_elem? octets i ≡ some x) × (x < 256)
All-get_elem? [] i h below = elim below [ ]
All-get_elem? (x ∷ xs) zero h below = (x, refl, h.0)
All-get_elem? (x ∷ xs) (suc i) h below = All-get_elem? xs i h.1 (omega arith)

odd_loop-total :
    (octets : List ℕ) (i : ℕ) (p : Bool)
    → All (λ x. x < 256) octets
    → i ≤ length octets
    → odd_loop octets i p ≡ done (xor p (is_odd (total_ones (take i octets))))
unfolding odd_loop total_ones
odd_loop-total octets zero p h room = ground arith
odd_loop-total octets (suc i) p h room =
    let (x, here, small) = All-get_elem? octets i h (omega arith) in
    rw
      (
        here,
        (odd-ones x small).0,
        odd_loop-total octets i (xor p (is_odd (ones 8 x))) h (omega arith),
      )
      (ap done (
        xor-is_odd (ones 8 x) (total_ones (take i octets)) p
        ∙ ap (λ n. xor p (is_odd n)) (sym (total_ones-take octets i x here))))

-- The parity of the first `depth` octets of a run that has as many, each below 256, is whether the number of
-- bits that are set in them is odd, and `even` is its opposite.
pub odd_data-total_ones :
    (octets : List ℕ) (depth : ℕ)
    → All (λ x. x < 256) octets
    → depth ≤ length octets
    → (odd_data octets depth ≡ done (is_odd (total_ones (take depth octets))))
      × (even_data octets depth ≡ done (not (is_odd (total_ones (take depth octets)))))
unfolding odd_data even_data
odd_data-total_ones octets depth h room =
    let told = odd_loop-total octets depth false h room in
    (told, ap (λ m. m >>= λ b. done (not b)) told)
