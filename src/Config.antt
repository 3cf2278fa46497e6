-- ===== src/Config.antt =====
-- config/configuration.hpp and config/configuration.cpp: the configuration that modules exchange.
-- The two unordered maps are association lists with one entry to a key; a `boost::any` is a `Value`,
-- with a constructor for each type that the platform stores (`size_t`, `uintptr_t` and the
-- 64-bit `Addr_t` are one type on LP64 Linux).
pub mod Laws
pub mod Equality
pub mod Compare
use Prim.Native.String.{String}
use text.Mathlib.Text.{◌==◌ as str_eq}
use sc_platform.Prelude.{
  ℕ, ◌-◌, ◌^◌, Bool, true, false, ◌&&◌, ◌||◌, ◌==◌, length, Option, none, some, List, [], ◌∷◌,
  if◌then◌else◌,
}
use sc_platform.Common.{Style, unknown, Access, inaccessible, Feature, disabled}

pub data Value : Type 0 where
  string : String → Value
  word : ℕ → Value  -- uint32_t, Depth_t
  size : ℕ → Value  -- size_t, uintptr_t, Addr_t
  style : Style → Value
  feature : Feature → Value
  access : Access → Value
  time : ℕ → Value

-- `a.type().hash_code() == b.type().hash_code()`.
unfoldable pub same_type : Value → Value → Bool
same_type (string _) (string _) = true
same_type (word _) (word _) = true
same_type (size _) (size _) = true
same_type (style _) (style _) = true
same_type (feature _) (feature _) = true
same_type (access _) (access _) = true
same_type (time _) (time _) = true
same_type _ _ = false

-- `boost::any_cast`, to the types that the modules read.
abbrev pub as_word : Value → Option ℕ
as_word (word n) = some n
as_word _ = none

abbrev pub as_size : Value → Option ℕ
as_size (size n) = some n
as_size _ = none

abbrev pub as_feature : Value → Option Feature
as_feature (feature f) = some f
as_feature _ = none

abbrev pub as_access : Value → Option Access
as_access (access a) = some a
as_access _ = none

abbrev pub Fields : Type 0
Fields = List (String × Value)

unfoldable pub lookup : String → Fields → Option Value
lookup field [] = none
lookup field ((k, v) ∷ m) = if str_eq k field then some v else lookup field m

unfoldable pub assign : String → Value → Fields → Fields
assign field value [] = (field, value) ∷ []
assign field value ((k, v) ∷ m) =
    if str_eq k field then (field, value) ∷ m else (k, v) ∷ assign field value m

unfoldable pub remove : String → Fields → Fields
remove field [] = []
remove field ((k, v) ∷ m) = if str_eq k field then m else (k, v) ∷ remove field m

pub record Configuration : Type 0 where
  pub data_map : Fields
  pub dflt_map : Fields
  pub reqd_key_set : List String

abbrev pub is_some {ℓ} : {A : Type ℓ} → Option A → Bool
is_some none = false
is_some (some _) = true

unfoldable pub is_key : Configuration → String → Bool
is_key c field = is_some (lookup field c.dflt_map)

unfoldable pub has_key : Configuration → String → Bool
unfolding lookup
has_key c field = is_some (lookup field c.data_map)

abbrev is_nil : Fields → Bool
is_nil [] = true
is_nil _ = false

unfoldable pub is_empty : Configuration → Bool
is_empty c = is_nil c.data_map

unfoldable pub fits : Option Value → Value → Bool
unfolding same_type
fits none value = true
fits (some old) value = same_type old value

pub set_field : Configuration → String → Value → Configuration
unfolding fits is_key
set_field c field value =
    if is_key c field && fits (lookup field c.data_map) value
    then record c { data_map = assign field value c.data_map }
    else c

abbrev and_then {ℓ κ} : {A : Type ℓ} {B : Type κ} → Option A → (A → Option B) → Option B
and_then none f = none
and_then (some a) f = f a

abbrev first_of_three {ℓ} : {A : Type ℓ} → Option A → Option A → A → A
first_of_three (some a) _ _ = a
first_of_three none (some b) _ = b
first_of_three none none v = v

-- `get< T >( field, value )`: the value that `value` has afterwards.
unfoldable pub get_field {ℓ} : {A : Type ℓ} → (Value → Option A) → Configuration → String → A → A
get_field as_type c field value =
    first_of_three (and_then (lookup field c.data_map) as_type)
      (and_then (lookup field c.dflt_map) as_type) value

unfoldable pub assign_all : Fields → Fields → Fields
unfolding assign
assign_all [] m = m
assign_all ((k, v) ∷ vs) m = assign_all vs (assign k v m)

unfoldable pub update : Configuration → Configuration → Configuration
unfolding assign_all
update c rhs = record c { data_map = assign_all rhs.data_map c.data_map }

pub erase : Configuration → String → Configuration
unfolding remove
erase c field = record c { data_map = remove field c.data_map }

pub clear_data : Configuration → Configuration
clear_data c = record c { data_map = [] }

pub clear_keys : Configuration → Configuration
clear_keys c = record c { dflt_map = []; reqd_key_set = [] }

pub addkey : Configuration → String → Value → Bool → Configuration
unfolding is_key
addkey c field value reqd = if is_key c field then c else record c {
  dflt_map = assign field value c.dflt_map;
  reqd_key_set = if reqd then field ∷ c.reqd_key_set else c.reqd_key_set;
}

-- The keys that every configuration starts with.
pub set_defaults : Configuration → Configuration
unfolding clear_keys addkey
set_defaults c0 =
    let c = clear_keys c0 in
    let c = addkey c "kind" (string "") true in
    let c = addkey c "name" (string "") true in
    let c = addkey c "object_ptr" (size 0) true in
    let c = addkey c "coding_style" (style unknown) false in
    let c = addkey c "target_size" (word 0) true in
    let c = addkey c "target_base" (size (2 ^ 64 - 1)) true in
    let c = addkey c "dmi_allowed" (feature disabled) false in
    let c = addkey c "access" (access inaccessible) false in
    let c = addkey c "byte_enables" (feature disabled) false in
    let c = addkey c "alignment" (size 1) false in
    let c = addkey c "max_burst" (size 0) false in
    let c = addkey c "read_clocks" (word 0) false in
    let c = addkey c "write_clocks" (word 0) false in
    let c = addkey c "addr_clocks" (word 0) false in addkey c "clock_period" (time 0) false

-- Without `field`, in a set.
without : String → List String → List String
without field [] = []
without field (k ∷ ks) = if str_eq k field then without field ks else k ∷ without field ks

pub delkey : Configuration → String → Configuration
unfolding remove without
delkey c field = record c {
  dflt_map = remove field c.dflt_map;
  reqd_key_set = without field c.reqd_key_set;
}

has_all : List String → Fields → Bool
has_all [] m = true
has_all (k ∷ ks) m = is_some (lookup k m) && has_all ks m

-- Every required key has a value.
pub has_reqd : Configuration → Bool
unfolding has_all
has_reqd c = has_all c.reqd_key_set c.data_map

has_member : String → List String → Bool
has_member field [] = false
has_member field (k ∷ ks) = str_eq k field || has_member field ks

pub is_reqd : Configuration → String → Bool
unfolding has_member
is_reqd c field = has_member field c.reqd_key_set

pub count : Configuration → ℕ
count c = length c.data_map

pub avail : Configuration → ℕ
avail c = length c.dflt_map

pub full : Configuration → Bool
full c = length c.data_map == length c.dflt_map
