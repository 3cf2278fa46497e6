-- ===== src/Config/Compare/Copies.antt =====
-- What a copy of config/configuration.cpp gives.
use sc_platform.Prelude.{
  ◌≡◌, refl, ◌∙◌, inl, inr, true, false, Option, none, some, [], ◌∷◌, Bool-cases,
}
use Prim.Native.String.{String}
use text.Mathlib.Text.{◌==◌ as str_eq}
use text.Mathlib.TextEquality.{eq_iff}
use mathlib.Core.Path.{subst}
use sc_platform.Config.{Value, Fields, Configuration, lookup, assign, assign_all}
use sc_platform.Config.Laws.{Fresh, Distinct, or_else, lookup-assign_all, last_of-Distinct}
use sc_platform.Config.Compare.{copy, equals, equals-lookup}

assign-Fresh :
    (j k : String) (v : Value) (m : Fields)
    → str_eq j k ≡ false
    → Fresh j m
    → Fresh j (assign k v m)
unfolding assign
assign-Fresh j k v [] h f = (h, tt)
assign-Fresh j k v ((i, w) ∷ m) h f = elim (Bool-cases (str_eq i k)) [
  | inl same ↦ rw same (h, f.1)
  | inr other ↦ rw other (f.0, assign-Fresh j k v m h f.1)
]

assign-Distinct : (k : String) (v : Value) (m : Fields) → Distinct m → Distinct (assign k v m)
unfolding assign
assign-Distinct k v [] d = (tt, tt)
assign-Distinct k v ((i, w) ∷ m) d = elim (Bool-cases (str_eq i k)) [
  | inl same ↦ rw same (subst (λ x. Fresh x m) ((eq_iff i k).0 same) d.0, d.1)
  | inr other ↦ rw other (assign-Fresh i k v m other d.0, assign-Distinct k v m d.1)
]

assign_all-Distinct : (vs m : Fields) → Distinct m → Distinct (assign_all vs m)
unfolding assign_all
assign_all-Distinct [] m d = d
assign_all-Distinct ((k, v) ∷ vs) m d =
    assign_all-Distinct vs (assign k v m) (assign-Distinct k v m d)

or_else-none : (o : Option Value) → or_else o none ≡ o
or_else-none none = refl
or_else-none (some v) = refl

-- A copy of a configuration without a key twice has none either, gives the same value, or none, to
-- each key, and is equal to it.
pub copy-equals :
    (c : Configuration)
    → Distinct c.data_map
    → Distinct (copy c).data_map
      × ((j : String) → lookup j (copy c).data_map ≡ lookup j c.data_map)
      × (equals (copy c) c ≡ true)
unfolding copy lookup
copy-equals c d =
    let distinct = assign_all-Distinct c.data_map [] tt in
    let same : (j : String) → lookup j (assign_all c.data_map []) ≡ lookup j c.data_map = λ j.
      lookup-assign_all j c.data_map []
      ∙ last_of-Distinct j c.data_map none d
      ∙ or_else-none (lookup j c.data_map) in
    (distinct, same, (equals-lookup (copy c) c distinct d).1 same)
