-- ===== src/Memory/Image.antt =====
-- The memory of memory/memory.cpp seen as a function from addresses to bytes, with the byte 0xEA where
-- nothing is allocated, and the memory that grows as an implementation of it.
use sc_platform.Prelude.{
  ℕ, zero, suc, ◌+◌, ◌-◌, ◌≤◌, ◌<◌, min, ◌≡◌, refl, ap, inl, inr, Option, none, some, List, [], ◌∷◌,
  arith, ltb, leb, if◌then◌else◌, Bool-cases, length, get_elem?, drop, replicate, slice, overwrite,
  resize, get_elem?-overwrite_below,
}
use sc_platform.Memory.{Memory}
use sc_platform.Memory.Safety.{grown}

-- The byte of an address, and all of them.
abbrev pub byte_or : ℕ → Option ℕ → ℕ
byte_or v none = v
byte_or v (some b) = b

abbrev pub image_of : List ℕ → ℕ → ℕ
image_of bytes i = byte_or 0xEA (get_elem? bytes i)

abbrev pub image : Memory → ℕ → ℕ
image m = image_of m.mem_vec

-- What a write puts, and what a read gets.
unfoldable pub put : ℕ → List ℕ → (ℕ → ℕ) → ℕ → ℕ
put adr ys f i = if leb adr i then byte_or (f i) (get_elem? ys (i - adr)) else f i

unfoldable pub fetch : ℕ → ℕ → (ℕ → ℕ) → List ℕ
fetch adr zero f = []
fetch adr (suc n) f = f adr ∷ fetch (suc adr) n f

byte_or-replicate : (v n j : ℕ) → byte_or v (get_elem? (replicate n v) j) ≡ v
byte_or-replicate v zero j = refl
byte_or-replicate v (suc n) zero = refl
byte_or-replicate v (suc n) (suc j) = byte_or-replicate v n j

byte_or-resize :
    (n v : ℕ) (xs : List ℕ) (j : ℕ)
    → length xs ≤ n
    → byte_or v (get_elem? (resize n v xs) j) ≡ byte_or v (get_elem? xs j)
unfolding resize
byte_or-resize zero v [] j h = byte_or-replicate v (0 - 0) j
byte_or-resize (suc n) v [] j h = byte_or-replicate v (suc n - 0) j
byte_or-resize zero v (x ∷ xs) j h = absurd (omega arith)
byte_or-resize (suc n) v (x ∷ xs) zero h = refl
byte_or-resize (suc n) v (x ∷ xs) (suc j) h =
    let e : suc n - suc (length xs) ≡ n - length xs = omega arith in
    rw e (byte_or-resize n v xs j (omega arith))

-- Growing the vector does not change the image.
pub image-grown :
    (m : Memory) (end i : ℕ) → length m.mem_vec ≤ m.target_size → image (grown m end) i ≡ image m i
image-grown m end i fits = elim (Bool-cases (ltb (length m.mem_vec) end)) [
  | inr large ↦ rw large refl
  | inl little ↦
      rw little (byte_or-resize (min (end + 1024) m.target_size) 0xEA m.mem_vec i (ground arith))
]

image_of-overwrite :
    (adr : ℕ) (ys xs : List ℕ) (j : ℕ)
    → adr ≤ j
    → adr + length ys ≤ length xs
    → image_of (overwrite adr ys xs) j ≡ byte_or (image_of xs j) (get_elem? ys (j - adr))
unfolding overwrite
image_of-overwrite adr [] xs j l h = refl
image_of-overwrite zero (y ∷ ys) [] j l h = absurd (omega arith)
image_of-overwrite zero (y ∷ ys) (x ∷ xs) zero l h = refl
image_of-overwrite zero (y ∷ ys) (x ∷ xs) (suc j) l h =
    let e : suc j - 0 ≡ suc (j - 0) = omega arith in
    rw e (image_of-overwrite zero ys xs j (omega arith) (omega arith))
image_of-overwrite (suc adr) (y ∷ ys) [] j l h = absurd (omega arith)
image_of-overwrite (suc adr) (y ∷ ys) (x ∷ xs) zero l h = absurd (omega arith)
image_of-overwrite (suc adr) (y ∷ ys) (x ∷ xs) (suc j) l h =
    let e : suc j - suc adr ≡ j - adr = omega arith in
    rw e (image_of-overwrite adr (y ∷ ys) xs j (omega arith) (omega arith))

pub byte_or-overwrite :
    (adr : ℕ) (ys xs : List ℕ) (j : ℕ)
    → adr + length ys ≤ length xs
    → image_of (overwrite adr ys xs) j ≡ put adr ys (image_of xs) j
unfolding put
byte_or-overwrite adr ys xs j h = elim (Bool-cases (leb adr j)) [
  | inr below ↦ rw below (ap (byte_or 0xEA) (get_elem?-overwrite_below adr ys xs j (ground arith)))
  | inl from ↦ rw from (image_of-overwrite adr ys xs j (ground arith) h)
]

-- A range of the vector is what the image has there.
drop-cons :
    (adr : ℕ) (xs : List ℕ)
    → adr < length xs
    → (x : ℕ) × (get_elem? xs adr ≡ some x) × (drop adr xs ≡ x ∷ drop (suc adr) xs)
drop-cons adr [] h = absurd (omega arith)
drop-cons zero (x ∷ xs) h = (x, refl, refl)
drop-cons (suc adr) (y ∷ xs) h = drop-cons adr xs (omega arith)

pub slice-fetch :
    (adr n : ℕ) (xs : List ℕ) → adr + n ≤ length xs → slice adr n xs ≡ fetch adr n (image_of xs)
unfolding fetch
slice-fetch adr zero xs h = refl
slice-fetch adr (suc n) xs h =
    let (x, e, d) = drop-cons adr xs (omega arith) in
    rw (d, e) (ap (◌∷◌ x) (slice-fetch (suc adr) n xs (omega arith)))
