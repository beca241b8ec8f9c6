-- ===== src/Base/Text.antt =====
-- Python's str.strip on a text.
use Prim.Native.Nat.{ℕ}
use Prim.Native.Char.{code}
use Prim.Native.String.{String}
use mathlib.Core.Bool.{Bool, true, false, ◌&&◌, ◌||◌}
use mathlib.Core.Path.{◌≡◌, refl}
use ecommerce_platform.Base.Tests.{leb, ◌==◌, if◌then◌else◌}

-- str.isspace of one character, by its code point.
unfoldable pub is_space : ℕ → Bool
is_space c =
    leb 9 c && leb c 13
    || leb 28 c && leb c 32
    || c == 133
    || c == 160
    || c == 5760
    || leb 8192 c && leb c 8202
    || c == 8232
    || c == 8233
    || c == 8239
    || c == 8287
    || c == 12288

-- The text is the empty text: `not s`.
abbrev pub is_empty : String → Bool
is_empty String.[] = true
is_empty (String.◌∷◌ c s) = false

abbrev pub lstrip : String → String
lstrip String.[] = ""
lstrip (String.◌∷◌ c s) = let rest = lstrip s in if is_space (code c) then rest else String.◌∷◌ c s

abbrev pub rstrip : String → String
rstrip String.[] = ""
rstrip (String.◌∷◌ c s) =
    let rest = rstrip s in if is_empty rest && is_space (code c) then "" else String.◌∷◌ c rest

unfoldable pub strip : String → String
unfolding is_space
strip s = rstrip (lstrip s)

strips_both_ends : strip "  no answer " ≡ "no answer"
unfolding strip
strips_both_ends = refl

abbrev pub same_string : String → String → Bool
same_string String.[] String.[] = true
same_string (String.◌∷◌ c s) (String.◌∷◌ d t) = code c == code d && same_string s t
same_string _ _ = false

-- `"@" in s`
abbrev pub has_at : String → Bool
has_at String.[] = false
has_at (String.◌∷◌ c s) = code c == 64 || has_at s

-- `not s or not s.strip()`
unfoldable pub is_blank : String → Bool
unfolding strip
is_blank s = is_empty s || is_empty (strip s)
