-- ===== src/Prelude/Texts.antt =====
-- Python strings, and dictionaries with text keys.
use Prim.Native.String.{String}
use mathlib.Core.Path.{◌≡◌, refl}
use mathlib.Core.Bool.{Bool, true, false}
use mathlib.Core.Option.{Option, none, some}
use mathlib.Core.List.{List, [], ◌∷◌}
use text.Mathlib.TextPositions.{compare_refl}
use text.Mathlib.TextEquality.{eq_iff}
use text.Mathlib.Text.{◌==◌ as text_test}
use retrievershop_suite.Prelude.Tests.{if◌then◌else◌}

-- `a == b` on two texts.
abbrev pub str_eq : String → String → Bool
str_eq = text_test

pub str_eq_refl : (s : String) → str_eq s s ≡ true
str_eq_refl s = rw (compare_refl s) refl

pub equal_texts : (s t : String) → str_eq s t ≡ true → s ≡ t
equal_texts s t h = (eq_iff s t).0 h

-- `status in [...]`.
abbrev pub mem_text : String → List String → Bool
mem_text s [] = false
mem_text s (t ∷ ts) = if str_eq s t then true else mem_text s ts

-- `d.get(k)`.
abbrev pub lookup {ℓ} : {V : Type ℓ} → String → List (String × V) → Option V
lookup k [] = none
lookup k ((j, v) ∷ d) = if str_eq j k then some v else lookup k d

-- `d.get(k, default)`.
abbrev pub lookup_or {ℓ} : {V : Type ℓ} → String → V → List (String × V) → V
lookup_or k v [] = v
lookup_or k v ((j, w) ∷ d) = if str_eq j k then w else lookup_or k v d

-- The truth value of an optional text: `None` and `""` are false.
abbrev pub is_truthy : Option String → Bool
is_truthy none = false
is_truthy (some s) = if str_eq s "" then false else true
