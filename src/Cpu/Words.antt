-- ===== src/Cpu/Words.antt =====
-- The words that cpu/cpu.hpp reads and writes and their bytes.
use sc_platform.Prelude.{
  ℕ, zero, suc, ◌/◌, ◌^◌, ◌<◌, ◌≡◌, refl, sym, ap, ◌∙◌, List, [], ◌∷◌, arith, length, slice,
  overwrite,
}
use native.Mathlib.Omega.{pow_step}
use sc_platform.Cpu.Loosely.{to_bytes, of_bytes}

pub length-to_bytes : (n value : ℕ) → length (to_bytes n value) ≡ n
unfolding to_bytes
length-to_bytes zero value = refl
length-to_bytes (suc n) value = ap suc (length-to_bytes n (value / 256))

pub of_bytes-to_bytes : (n value : ℕ) → value < 256 ^ n → of_bytes (to_bytes n value) ≡ value
unfolding to_bytes of_bytes
of_bytes-to_bytes zero value h = omega (arith, h)
of_bytes-to_bytes (suc n) value h =
    let small : value / 256 < 256 ^ n = omega (arith, pow_step 256 n) in
    omega (arith, of_bytes-to_bytes n (value / 256) small)

slice_all : (xs : List ℕ) → slice 0 (length xs) xs ≡ xs
slice_all [] = refl
slice_all (x ∷ xs) = ap (λ t. x ∷ t) (slice_all xs)

overwrite_all : (ys xs : List ℕ) → length ys ≡ length xs → overwrite 0 ys xs ≡ ys
unfolding overwrite
overwrite_all [] [] h = refl
overwrite_all [] (x ∷ xs) h = absurd (omega arith)
overwrite_all (y ∷ ys) [] h = absurd (omega arith)
overwrite_all (y ∷ ys) (x ∷ xs) h = ap (λ t. y ∷ t) (overwrite_all ys xs (omega arith))

pub all_back :
    (n value old : ℕ)
    → overwrite 0 (slice 0 n (to_bytes n value)) (to_bytes n old) ≡ to_bytes n value
all_back n value old =
    let whole : slice 0 n (to_bytes n value) ≡ to_bytes n value =
      ap (λ k. slice 0 k (to_bytes n value)) (sym (length-to_bytes n value))
      ∙ slice_all (to_bytes n value) in
    ap (λ t. overwrite 0 t (to_bytes n old)) whole
    ∙ overwrite_all (to_bytes n value) (to_bytes n old)
        (length-to_bytes n value ∙ sym (length-to_bytes n old))
