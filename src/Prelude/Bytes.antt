-- ===== src/Prelude/Bytes.antt =====
-- memcpy on vectors: a range of a list read, and a range replaced.
use Prim.Native.Nat.{ℕ, zero, suc, ◌+◌, ◌-◌, ◌≤◌, ◌<◌}
use mathlib.Core.Path.{◌≡◌, refl, ap}
use mathlib.Core.List.{List, [], ◌∷◌, ◌++◌}
use native.Mathlib.Omega.{arith}
use sc_platform.Prelude.Lists.{
  length, get_elem?, take, drop, replicate, length-append, length-take, length-drop,
  length-replicate,
}

module _ {ℓ} {A : Type ℓ} where
  -- The `n` items from `i` on.
  abbrev pub slice : ℕ → ℕ → List A → List A
  slice i n xs = take n (drop i xs)

  -- `ys` in the place of the items from `i` on.
  unfoldable pub overwrite : ℕ → List A → List A → List A
  overwrite i [] xs = xs
  overwrite zero (y ∷ ys) [] = []
  overwrite zero (y ∷ ys) (x ∷ xs) = y ∷ overwrite zero ys xs
  overwrite (suc i) (y ∷ ys) [] = []
  overwrite (suc i) (y ∷ ys) (x ∷ xs) = x ∷ overwrite i (y ∷ ys) xs

  -- `vector::resize( n, v )`.
  unfoldable pub resize : ℕ → A → List A → List A
  resize n v xs = take n xs ++ replicate (n - length xs) v

module _ {ℓ} {A : Type ℓ} where
  pub length-overwrite : (i : ℕ) (ys xs : List A) → length (overwrite i ys xs) ≡ length xs
  unfolding overwrite
  length-overwrite i [] xs = refl
  length-overwrite zero (y ∷ ys) [] = refl
  length-overwrite zero (y ∷ ys) (x ∷ xs) = ap suc (length-overwrite zero ys xs)
  length-overwrite (suc i) (y ∷ ys) [] = refl
  length-overwrite (suc i) (y ∷ ys) (x ∷ xs) = ap suc (length-overwrite i (y ∷ ys) xs)

  pub length-resize : (n : ℕ) (v : A) (xs : List A) → length (resize n v xs) ≡ n
  unfolding resize
  length-resize n v xs = omega (
    arith,
    length-append (take n xs) (replicate (n - length xs) v),
    length-take n xs,
    length-replicate (n - length xs) v,
  )

  pub length-slice : (i n : ℕ) (xs : List A) → i + n ≤ length xs → length (slice i n xs) ≡ n
  length-slice i n xs h = omega (arith, length-take n (drop i xs), length-drop i xs)

  -- A range reads back as it was written.
  pub slice-overwrite :
      (i : ℕ) (ys xs : List A)
      → i + length ys ≤ length xs
      → slice i (length ys) (overwrite i ys xs) ≡ ys
  unfolding overwrite
  slice-overwrite i [] xs h = refl
  slice-overwrite zero (y ∷ ys) [] h = absurd (omega arith)
  slice-overwrite zero (y ∷ ys) (x ∷ xs) h = ap (◌∷◌ y) (slice-overwrite zero ys xs (omega arith))
  slice-overwrite (suc i) (y ∷ ys) [] h = absurd (omega arith)
  slice-overwrite (suc i) (y ∷ ys) (x ∷ xs) h = slice-overwrite i (y ∷ ys) xs (omega arith)

  -- Outside the range nothing changes.
  pub get_elem?-overwrite_below :
      (i : ℕ) (ys xs : List A) (j : ℕ) → j < i → get_elem? (overwrite i ys xs) j ≡ get_elem? xs j
  unfolding overwrite
  get_elem?-overwrite_below i [] xs j h = refl
  get_elem?-overwrite_below zero (y ∷ ys) xs j h = absurd (omega arith)
  get_elem?-overwrite_below (suc i) (y ∷ ys) [] j h = refl
  get_elem?-overwrite_below (suc i) (y ∷ ys) (x ∷ xs) zero h = refl
  get_elem?-overwrite_below (suc i) (y ∷ ys) (x ∷ xs) (suc j) h =
      get_elem?-overwrite_below i (y ∷ ys) xs j (omega arith)

  pub get_elem?-overwrite_above :
      (i : ℕ) (ys xs : List A) (j : ℕ)
      → i + length ys ≤ j
      → get_elem? (overwrite i ys xs) j ≡ get_elem? xs j
  unfolding overwrite
  get_elem?-overwrite_above i [] xs j h = refl
  get_elem?-overwrite_above zero (y ∷ ys) [] j h = refl
  get_elem?-overwrite_above zero (y ∷ ys) (x ∷ xs) zero h = absurd (omega arith)
  get_elem?-overwrite_above zero (y ∷ ys) (x ∷ xs) (suc j) h =
      get_elem?-overwrite_above zero ys xs j (omega arith)
  get_elem?-overwrite_above (suc i) (y ∷ ys) [] j h = refl
  get_elem?-overwrite_above (suc i) (y ∷ ys) (x ∷ xs) zero h = absurd (omega arith)
  get_elem?-overwrite_above (suc i) (y ∷ ys) (x ∷ xs) (suc j) h =
      get_elem?-overwrite_above i (y ∷ ys) xs j (omega arith)

  -- What was there is still there after a resize that keeps it.
  pub get_elem?-resize :
      (n : ℕ) (v : A) (xs : List A) (j : ℕ)
      → j < length xs
      → j < n
      → get_elem? (resize n v xs) j ≡ get_elem? xs j
  unfolding resize
  get_elem?-resize n v [] j h k = elim h [ ]
  get_elem?-resize zero v (x ∷ xs) j h k = elim k [ ]
  get_elem?-resize (suc n) v (x ∷ xs) zero h k = refl
  get_elem?-resize (suc n) v (x ∷ xs) (suc j) h k =
      let e : suc n - suc (length xs) ≡ n - length xs = omega arith in
      rw e (get_elem?-resize n v xs j (omega arith) (omega arith))
