-- ===== src/Config/Compare.antt =====
-- The copies of config/configuration.cpp and its `operator==`, against what a configuration gives by key.
pub mod Copies
use Prim.Native.String.{String}
use text.Mathlib.Text.{◌==◌ as str_eq}
use text.Mathlib.TextEquality.{eq_iff}
use mathlib.Core.Path.{subst}
use sc_platform.Prelude.{
  suc, ◌≡◌, refl, sym, ap, ◌∙◌, ◌↔◌, inl, inr, Bool, true, false, ◌&&◌, Option, none, some, [], ◌∷◌,
  arith, ◌==◌, Bool-cases, length,
}
use sc_platform.Config.{
  Value, string, word, size, style, feature, access, time, Fields, Configuration, same_type, lookup,
  assign, assign_all, remove,
}
use sc_platform.Config.Equality.{equal_value, equal_value_refl, equal_value_sound}
use sc_platform.Config.Laws.{Fresh, Distinct, lookup-Fresh, lookup-remove}

-- The copy constructor and the assignment from another object: the stored functors copy each value.
unfoldable pub copy : Configuration → Configuration
unfolding assign_all
copy rhs = record {
  data_map = assign_all rhs.data_map [];
  dflt_map = assign_all rhs.dflt_map [];
  reqd_key_set = rhs.reqd_key_set;
}

unfoldable pub same_value : Value → Option Value → Bool
unfolding same_type equal_value
same_value v none = false
same_value v (some p) = same_type v p && equal_value v p

unfoldable pub includes : Fields → Fields → Bool
unfolding same_value lookup
includes [] rhs = true
includes ((k, v) ∷ vs) rhs = same_value v (lookup k rhs) && includes vs rhs

unfoldable pub equals : Configuration → Configuration → Bool
unfolding includes
equals c rhs = length c.data_map == length rhs.data_map && includes c.data_map rhs.data_map

same_value_sound : (v : Value) (o : Option Value) → same_value v o ≡ true → o ≡ some v
unfolding same_value
same_value_sound v none h = absurd (ground arith)
same_value_sound v (some p) h = ap some (sym (equal_value_sound v p (ground arith)))

same_type_refl : (v : Value) → same_type v v ≡ true
unfolding same_type
same_type_refl (string a) = refl
same_type_refl (word a) = refl
same_type_refl (size a) = refl
same_type_refl (style a) = refl
same_type_refl (feature a) = refl
same_type_refl (access a) = refl
same_type_refl (time a) = refl

same_value_refl : (v : Value) → same_value v (some v) ≡ true
unfolding same_value
same_value_refl v = rw (same_type_refl v, equal_value_refl v) refl

-- A key that is not looked for may be removed.
includes-remove :
    (k : String) (vs m : Fields)
    → Fresh k vs
    → Distinct m
    → includes vs (remove k m) ≡ includes vs m
unfolding includes
includes-remove k [] m f d = refl
includes-remove k ((j, v) ∷ vs) m f d =
    let same : lookup j (remove k m) ≡ lookup j m = lookup-remove k j m d ∙ rw (f.0) refl in
    rw (same, includes-remove k vs m f.1 d) refl

remove-Fresh : (k j : String) (m : Fields) → Fresh j m → Fresh j (remove k m)
unfolding remove
remove-Fresh k j [] f = tt
remove-Fresh k j ((i, w) ∷ m) f = elim (Bool-cases (str_eq i k)) [
  | inl same ↦ rw same (f.1)
  | inr other ↦ rw other (f.0, remove-Fresh k j m f.1)
]

remove-Distinct : (k : String) (m : Fields) → Distinct m → Distinct (remove k m)
unfolding remove
remove-Distinct k [] d = tt
remove-Distinct k ((i, w) ∷ m) d = elim (Bool-cases (str_eq i k)) [
  | inl same ↦ rw same (d.1)
  | inr other ↦ rw other (remove-Fresh k i m d.0, remove-Distinct k m d.1)
]

length-remove :
    (k : String) (v : Value) (m : Fields)
    → lookup k m ≡ some v
    → length m ≡ suc (length (remove k m))
unfolding lookup remove
length-remove k v [] h = absurd (ground arith)
length-remove k v ((i, w) ∷ m) h = elim (Bool-cases (str_eq i k)) [
  | inl same ↦ rw same refl
  | inr other ↦
      let below : lookup k m ≡ some v = ground arith in
      rw other (ap suc (length-remove k v m below))
]

includes_sound :
    (vs m : Fields)
    → Distinct m
    → Distinct vs
    → length vs ≡ length m
    → includes vs m ≡ true
    → (j : String) → lookup j vs ≡ lookup j m
unfolding includes lookup
includes_sound [] [] d g n h j = refl
includes_sound [] (e ∷ m) d g n h j = absurd (omega (arith, n))
includes_sound ((k, v) ∷ vs) m d g n h j =
    let found : lookup k m ≡ some v = same_value_sound v (lookup k m) (ground (arith, h)) in
    let rest : includes vs (remove k m) ≡ true = includes-remove k vs m g.0 d ∙ ground (arith, h) in
    let fewer : length vs ≡ length (remove k m) = omega (arith, n, length-remove k v m found) in
    let later = includes_sound vs (remove k m) (remove-Distinct k m d) g.1 fewer rest j in
    elim (Bool-cases (str_eq k j)) [
      | inl same ↦ rw same (subst (λ x. some v ≡ lookup x m) ((eq_iff k j).0 same) (sym found))
      | inr other ↦ rw other (later ∙ lookup-remove k j m d ∙ rw other refl)
    ]

lookup-none : (m : Fields) → ((j : String) → lookup j m ≡ none) → m ≡ []
unfolding lookup
lookup-none [] h = refl
lookup-none ((k, v) ∷ m) h = let same = (eq_iff k k).1 refl in absurd (ground (arith, same, h k))

includes_complete :
    (vs m : Fields)
    → Distinct vs
    → Distinct m
    → ((j : String) → lookup j vs ≡ lookup j m)
    → (length vs ≡ length m) × (includes vs m ≡ true)
unfolding includes lookup
includes_complete [] m g d h = (ap length (sym (lookup-none m (λ j. sym (h j)))), refl)
includes_complete ((k, v) ∷ vs) m g d h =
    let same = (eq_iff k k).1 refl in
    let found : lookup k m ≡ some v = sym (h k) ∙ rw same refl in
    let rest : (j : String) → lookup j vs ≡ lookup j (remove k m) = λ j.
      elim (Bool-cases (str_eq k j)) [
        | inl here ↦
            subst (λ x. lookup x vs ≡ none) ((eq_iff k j).0 here) (lookup-Fresh k vs g.0)
            ∙ sym (lookup-remove k j m d ∙ rw here refl)
        | inr other ↦
            let there : lookup j vs ≡ lookup j m = sym (rw other refl) ∙ h j in
            there ∙ sym (lookup-remove k j m d ∙ rw other refl)
      ] in
    let (fewer, included) = includes_complete vs (remove k m) g.1 (remove-Distinct k m d) rest in
    (
      omega (arith, fewer, length-remove k v m found),
      rw (found, same_value_refl v) (sym (includes-remove k vs m g.0 d) ∙ included),
    )

-- Two configurations without a key twice are equal exactly where they give the same value, or none, to
-- each key, in whatever order they hold them.
pub equals-lookup :
    (c rhs : Configuration)
    → Distinct c.data_map
    → Distinct rhs.data_map
    → (equals c rhs ≡ true) ↔ ((j : String) → lookup j c.data_map ≡ lookup j rhs.data_map)
unfolding equals
equals-lookup c rhs g d = (
  λ h. includes_sound c.data_map rhs.data_map d g (ground (arith, h)) (ground (arith, h)),
  λ h. let (n, i) = includes_complete c.data_map rhs.data_map g d h in ground (arith, n, i),
)
