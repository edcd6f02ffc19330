-- ===== src/Base/Text.antt =====
-- Text that is walked character by character: the list of its UTF-16 code units.
use Prim.Native.Char.{code}
use Prim.Native.String.{String}
use dukaano.Base.{
  Bool, List, [], arith, false, if◌then◌else◌, is_empty, leb, true, ℕ, ◌&&◌, ◌+◌, ◌==◌, ◌||◌, ◌↔◌,
  ◌∷◌, ◌≡◌,
}

abbrev pub Text : Type 0
Text = List ℕ

-- The code units of a literal in ASCII.
abbrev pub codes : String → Text
codes String.[] = []
codes (String.◌∷◌ c s) = code c ∷ codes s

-- `s === t`
unfoldable pub eq_text : Text → Text → Bool
eq_text [] [] = true
eq_text (x ∷ s) (y ∷ t) = x == y && eq_text s t
eq_text _ _ = false

pub eq_text_iff : (s t : Text) → (eq_text s t ≡ true) ↔ (s ≡ t)
unfolding eq_text
eq_text_iff (x ∷ s) (y ∷ t) = ground (arith, eq_text_iff s t)
eq_text_iff _ _ = ground arith

-- The lower case of an ASCII letter; another code unit is left as it is.
unfoldable pub lower : ℕ → ℕ
lower c = if leb b'A' c && leb c b'Z' then c + 32 else c

-- The byte-order mark, U+FEFF
abbrev pub bom : ℕ
bom = 65_279

-- The white space and the line ends of the language, which `trim` removes.
unfoldable pub is_space : ℕ → Bool
is_space c =
    (leb 9 c && leb c 13)
    || c == 32
    || c == 160
    || c == 5760
    || (leb 8192 c && leb c 8202)
    || c == 8232
    || c == 8233
    || c == 8239
    || c == 8287
    || c == 12_288
    || c == bom

-- `s.trim()`
unfoldable pub trim_start : Text → Text
unfolding is_space
trim_start [] = []
trim_start (c ∷ s) = if is_space c then trim_start s else c ∷ s

unfoldable pub trim_end : Text → Text
unfolding is_space
trim_end [] = []
trim_end (c ∷ s) = let rest = trim_end s in if is_space c && is_empty rest then [] else c ∷ rest

unfoldable pub trim : Text → Text
unfolding trim_start trim_end
trim s = trim_end (trim_start s)
