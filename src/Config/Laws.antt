-- ===== src/Config/Laws.antt =====
-- What a configuration answers after it was set or updated.
use Prim.Native.String.{String}
use text.Mathlib.Text.{◌==◌ as str_eq}
use text.Mathlib.TextEquality.{eq_iff}
use sc_platform.Prelude.{
  ◌≡◌, refl, ap, ◌∙◌, inl, inr, true, false, Option, none, some, [], ◌∷◌, arith, if◌then◌else◌,
  Bool-cases, All,
}
use mathlib.Core.Path.{subst}
use sc_platform.Config.{
  Value, Fields, Configuration, lookup, assign, assign_all, erase, remove, is_key, fits, set_field,
  get_field, update, first_of_three, and_then,
}

pub lookup-assign :
    (k j : String) (v : Value) (m : Fields)
    → lookup j (assign k v m) ≡ (if str_eq k j then some v else lookup j m)
unfolding lookup assign
lookup-assign k j v [] = refl
lookup-assign k j v ((i, w) ∷ m) =
    ground (arith, eq_iff k j, eq_iff i k, eq_iff i j, lookup-assign k j v m)

-- The value that a list of assignments gives to a key: the last one of it.
unfoldable pub last_of : String → Fields → Option Value → Option Value
last_of j [] old = old
last_of j ((k, v) ∷ vs) old = last_of j vs (if str_eq k j then some v else old)

pub lookup-assign_all :
    (j : String) (vs m : Fields) → lookup j (assign_all vs m) ≡ last_of j vs (lookup j m)
unfolding assign_all last_of
lookup-assign_all j [] m = refl
lookup-assign_all j ((k, v) ∷ vs) m =
    lookup-assign_all j vs (assign k v m) ∙ ap (last_of j vs) (lookup-assign k j v m)

-- No key twice.
abbrev pub Fresh : String → Fields → Type 0
Fresh k = All (λ e. str_eq k e.0 ≡ false)

abbrev pub Distinct : Fields → Type 0
Distinct [] = Unit {0}
Distinct ((k, v) ∷ m) = Fresh k m × Distinct m

last_of-Fresh :
    (k : String) (vs : Fields) (old : Option Value) → Fresh k vs → last_of k vs old ≡ old
unfolding last_of
last_of-Fresh k [] old h = refl
last_of-Fresh k ((j, v) ∷ vs) old h =
    ground (arith, eq_iff k j, eq_iff j k, last_of-Fresh k vs old h.1)

abbrev pub or_else {ℓ} : {A : Type ℓ} → Option A → Option A → Option A
or_else (some a) _ = some a
or_else none b = b

pub last_of-Distinct :
    (j : String) (vs : Fields) (old : Option Value)
    → Distinct vs
    → last_of j vs old ≡ or_else (lookup j vs) old
unfolding last_of lookup
last_of-Distinct j [] old h = refl
last_of-Distinct j ((k, v) ∷ vs) old h = elim (Bool-cases (str_eq k j)) [
  | inl same ↦
      let fresh = last_of-Fresh k vs (some v) h.0 in
      rw same (subst (λ x. last_of x vs (some v) ≡ some v) ((eq_iff k j).0 same) fresh)
  | inr other ↦ rw other (last_of-Distinct j vs old h.1)
]

pub lookup-Fresh : (k : String) (m : Fields) → Fresh k m → lookup k m ≡ none
unfolding lookup
lookup-Fresh k [] h = refl
lookup-Fresh k ((j, v) ∷ m) h = ground (arith, eq_iff k j, eq_iff j k, lookup-Fresh k m h.1)

pub lookup-remove :
    (k j : String) (m : Fields)
    → Distinct m
    → lookup j (remove k m) ≡ (if str_eq k j then none else lookup j m)
unfolding lookup remove
lookup-remove k j [] h = ground arith
lookup-remove k j ((i, w) ∷ m) h =
    ground
      (arith, eq_iff i k, eq_iff k j, eq_iff i j, lookup-Fresh i m h.0, lookup-remove k j m h.1)

-- In configurations without a key twice: after an update each key has the value of the
-- configuration that was given, if that has one, and else the value it had; after an erasure the
-- key has none and the others keep theirs.
pub lookup-update-erase :
    (c rhs : Configuration) (k j : String)
    → Distinct c.data_map
    → Distinct rhs.data_map
    → (lookup j (update c rhs).data_map ≡ or_else (lookup j rhs.data_map) (lookup j c.data_map))
      × (lookup j (erase c k).data_map ≡ (if str_eq k j then none else lookup j c.data_map))
unfolding update erase
lookup-update-erase c rhs k j h g = (
  lookup-assign_all j rhs.data_map c.data_map ∙ last_of-Distinct j rhs.data_map _ g,
  lookup-remove k j c.data_map h,
)

-- Setting a key that has a default to a value of the type of its present value, if it has one.
pub lookup-set_field :
    (c : Configuration) (k j : String) (v : Value)
    → is_key c k ≡ true
    → fits (lookup k c.data_map) v ≡ true
    → lookup j (set_field c k v).data_map ≡ (if str_eq k j then some v else lookup j c.data_map)
unfolding set_field
lookup-set_field c k j v key fit = rw (key, fit) (lookup-assign k j v c.data_map)

-- Setting a value leaves the keys with a default as they are.
pub is_key-set_field :
    (c : Configuration) (k j : String) (v : Value) → is_key (set_field c k v) j ≡ is_key c j
unfolding set_field is_key
is_key-set_field c k j v = ground arith

-- A value for a key that has a default, of the type of the key's present value if it has one, is
-- what the key then gives, or its default if read as another type, and no other key gives
-- anything else than before.
pub get_field-set_field {ℓ} :
    {A : Type ℓ} (as_type : Value → Option A) (c : Configuration) (k j : String) (v : Value)
    (old : A)
    → is_key c k ≡ true
    → fits (lookup k c.data_map) v ≡ true
    → get_field as_type (set_field c k v) j old ≡ (
        if str_eq k j
        then first_of_three (as_type v) (and_then (lookup j c.dflt_map) as_type) old
        else get_field as_type c j old)
unfolding get_field set_field
get_field-set_field as_type c k j v old key fit =
    rw (key, fit, lookup-assign k j v c.data_map) (ground arith)
