-- ===== src/Config/Equality.antt =====
-- `operator==` of the values that config/configuration.cpp stores: the functor `equal` of their type.
use text.Mathlib.Text.{◌==◌ as str_eq}
use text.Mathlib.TextEquality.{eq_iff}
use sc_platform.Prelude.{
  ℕ, zero, suc, ◌≡◌, refl, sym, ap, ◌∙◌, Bool, true, false, List, [], ◌∷◌, arith, ◌==◌,
}
use sc_platform.Common.{
  Style, unknown, default, lt, at, td, Feature, disabled, enabled, Access, inaccessible, rw, ro, wo,
  rc, rs, w1c, w0c, w1s, w0s, w1t, w0t, raz,
}
use sc_platform.Config.{Value, string, word, size, style, feature, access, time}

abbrev style_number : Style → ℕ
style_number unknown = 0
style_number default = 1
style_number lt = 2
style_number at = 3
style_number td = 4

abbrev access_number : Access → ℕ
access_number inaccessible = 0
access_number rw = 1
access_number ro = 2
access_number wo = 3
access_number rc = 4
access_number rs = 5
access_number w1c = 6
access_number w0c = 7
access_number w1s = 8
access_number w0s = 9
access_number w1t = 10
access_number w0t = 11
access_number raz = 12

abbrev feature_number : Feature → ℕ
feature_number disabled = 0
feature_number enabled = 1

unfoldable pub equal_value : Value → Value → Bool
equal_value (string a) (string b) = str_eq a b
equal_value (word a) (word b) = a == b
equal_value (size a) (size b) = a == b
equal_value (style a) (style b) = style_number a == style_number b
equal_value (feature a) (feature b) = feature_number a == feature_number b
equal_value (access a) (access b) = access_number a == access_number b
equal_value (time a) (time b) = a == b
equal_value _ _ = false

abbrev nth : {A : Type 0} → A → ℕ → List A → A
nth a n [] = a
nth a zero (x ∷ xs) = x
nth a (suc n) (x ∷ xs) = nth a n xs

abbrev nth_style : ℕ → Style
nth_style n = nth unknown n (unknown ∷ default ∷ lt ∷ at ∷ td ∷ [])

nth_style-style_number : (x : Style) → nth_style (style_number x) ≡ x
nth_style-style_number unknown = refl
nth_style-style_number default = refl
nth_style-style_number lt = refl
nth_style-style_number at = refl
nth_style-style_number td = refl

style_number_injective : (x y : Style) → style_number x ≡ style_number y → x ≡ y
style_number_injective x y h =
    sym (nth_style-style_number x) ∙ ap nth_style h ∙ nth_style-style_number y

abbrev nth_access : ℕ → Access
nth_access n =
    nth inaccessible n
      (inaccessible ∷ rw ∷ ro ∷ wo ∷ rc ∷ rs ∷ w1c ∷ w0c ∷ w1s ∷ w0s ∷ w1t ∷ w0t ∷ raz ∷ [])

nth_access-access_number : (x : Access) → nth_access (access_number x) ≡ x
nth_access-access_number inaccessible = refl
nth_access-access_number rw = refl
nth_access-access_number ro = refl
nth_access-access_number wo = refl
nth_access-access_number rc = refl
nth_access-access_number rs = refl
nth_access-access_number w1c = refl
nth_access-access_number w0c = refl
nth_access-access_number w1s = refl
nth_access-access_number w0s = refl
nth_access-access_number w1t = refl
nth_access-access_number w0t = refl
nth_access-access_number raz = refl

access_number_injective : (x y : Access) → access_number x ≡ access_number y → x ≡ y
access_number_injective x y h =
    sym (nth_access-access_number x) ∙ ap nth_access h ∙ nth_access-access_number y

abbrev nth_feature : ℕ → Feature
nth_feature n = nth disabled n (disabled ∷ enabled ∷ [])

nth_feature-feature_number : (x : Feature) → nth_feature (feature_number x) ≡ x
nth_feature-feature_number disabled = refl
nth_feature-feature_number enabled = refl

feature_number_injective : (x y : Feature) → feature_number x ≡ feature_number y → x ≡ y
feature_number_injective x y h =
    sym (nth_feature-feature_number x) ∙ ap nth_feature h ∙ nth_feature-feature_number y

pub equal_value_refl : (v : Value) → equal_value v v ≡ true
unfolding equal_value
equal_value_refl (string a) = (eq_iff a a).1 refl
equal_value_refl (word a) = ground arith
equal_value_refl (size a) = ground arith
equal_value_refl (style a) = ground arith
equal_value_refl (feature a) = ground arith
equal_value_refl (access a) = ground arith
equal_value_refl (time a) = ground arith

pub equal_value_sound : (v w : Value) → equal_value v w ≡ true → v ≡ w
unfolding equal_value
equal_value_sound (string a) (string b) h = ap string ((eq_iff a b).0 h)
equal_value_sound (string a) (word b) h = ground arith
equal_value_sound (string a) (size b) h = ground arith
equal_value_sound (string a) (style b) h = ground arith
equal_value_sound (string a) (feature b) h = ground arith
equal_value_sound (string a) (access b) h = ground arith
equal_value_sound (string a) (time b) h = ground arith
equal_value_sound (word a) w h = ground arith
equal_value_sound (size a) w h = ground arith
equal_value_sound (style a) w h = ground (arith, style_number_injective a)
equal_value_sound (feature a) w h = ground (arith, feature_number_injective a)
equal_value_sound (access a) w h = ground (arith, access_number_injective a)
equal_value_sound (time a) w h = ground arith
