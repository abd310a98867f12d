-- ===== src/Base/Keywords.antt =====
-- Python's `text.lower()`, for the ASCII letters, and `word in text`.
use Prim.Native.Char.{code}
use Prim.Native.String.{String}
use Prim.Native.Nat.{ℕ, ◌+◌}
use mathlib.Core.List.{List, [], ◌∷◌}
use mathlib.Core.Bool.{Bool, true, false, ◌&&◌, ◌||◌}
use clustr_be.Base.Tests.{leb, ◌==◌, if◌then◌else◌}
use clustr_be.Base.Lists.{any}

abbrev pub to_lower : ℕ → ℕ
to_lower c = if leb b'A' c && leb c b'Z' then c + 32 else c

abbrev pub codes : String → List ℕ
codes String.[] = []
codes (String.◌∷◌ c s) = code c ∷ codes s

-- The code points of `text.lower()`.
abbrev pub lower : String → List ℕ
lower String.[] = []
lower (String.◌∷◌ c s) = to_lower (code c) ∷ lower s

abbrev pub is_prefix : List ℕ → List ℕ → Bool
is_prefix [] t = true
is_prefix (c ∷ w) [] = false
is_prefix (c ∷ w) (d ∷ t) = c == d && is_prefix w t

abbrev pub is_within : List ℕ → List ℕ → Bool
is_within w [] = is_prefix w []
is_within w (d ∷ t) = is_prefix w (d ∷ t) || is_within w t

-- `any(keyword in text for keyword in keywords)`
unfoldable pub has_any : List String → List ℕ → Bool
has_any words text = any (λ w. is_within (codes w) text) words
