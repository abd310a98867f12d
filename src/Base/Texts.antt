-- ===== src/Base/Texts.antt =====
-- Comparison of texts.
use Prim.Native.String.{String}
use text.Mathlib.Text.{◌==◌}
use text.Mathlib.TextEquality.{eq_iff}
use text.Mathlib.TextPositions.{eq_refl}
use mathlib.Core.List.{List}
use clustr_be.Base.Lists.{any}
use mathlib.Core.Path.{◌≡◌}
use mathlib.Core.Bool.{Bool, true, false}
use mathlib.Core.Option.{Option, none, some}

abbrev pub same_text : String → String → Bool
same_text a b = a == b

pub same_text_refl : (a : String) → same_text a a ≡ true
same_text_refl a = eq_refl a

pub same_text_eq : (a b : String) → same_text a b ≡ true → a ≡ b
same_text_eq a b h = (eq_iff a b).0 h

-- Whether an optional column holds the text.
abbrev pub holds_text : String → Option String → Bool
holds_text a none = false
holds_text a (some b) = same_text b a

-- Membership in a list of texts.
abbrev pub has_text : String → List String → Bool
has_text a = any (same_text a)
