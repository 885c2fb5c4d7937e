-- ===== src/Python/Texts.antt =====
-- Python's str methods on the code points of a text.
use Prim.Native.Char.{Char, code}
use wasteless.Common.{
  ℕ, suc, String, Bool, true, false, ◌&&◌, ◌||◌, List, [], ◌∷◌, ◌==◌, leb, if◌then◌else◌,
}

-- the code points of a text
abbrev pub codes : String → List ℕ
codes String.[] = []
codes (String.◌∷◌ c s) = code c ∷ codes s

-- `c.isspace()`
abbrev pub is_space : ℕ → Bool
is_space c =
    (leb 9 c && leb c 13)
    || (leb 28 c && leb c 32)
    || c == 133
    || c == 160
    || c == 5760
    || (leb 8192 c && leb c 8202)
    || c == 8232
    || c == 8233
    || c == 8239
    || c == 8287
    || c == 12288

unfoldable pub strip_left : String → String
strip_left String.[] = String.[]
strip_left (String.◌∷◌ c s) = if is_space (code c) then strip_left s else String.◌∷◌ c s

abbrev pub stripped : Char → String → String
stripped c String.[] = if is_space (code c) then String.[] else String.◌∷◌ c String.[]
stripped c (String.◌∷◌ d s) = String.◌∷◌ c (String.◌∷◌ d s)

unfoldable pub strip_right : String → String
strip_right String.[] = String.[]
strip_right (String.◌∷◌ c s) = stripped c (strip_right s)

-- `s.strip()`
abbrev pub strip : String → String
strip s = strip_right (strip_left s)

-- `s + t`
abbrev pub joined : String → String → String
joined String.[] t = t
joined (String.◌∷◌ c s) t = String.◌∷◌ c (joined s t)

-- `s.count(c)` for a single character
unfoldable pub count_code : ℕ → List ℕ → ℕ
count_code c [] = 0
count_code c (d ∷ s) = if d == c then suc (count_code c s) else count_code c s

-- `s.startswith(cs)`
abbrev pub begins : List ℕ → List ℕ → Bool
begins [] s = true
begins (c ∷ cs) [] = false
begins (c ∷ cs) (d ∷ s) = d == c && begins cs s

-- `cs in s`
unfoldable pub contains : List ℕ → List ℕ → Bool
contains cs [] = begins cs []
contains cs (d ∷ s) = begins cs (d ∷ s) || contains cs s

-- `word in text`
abbrev pub occurs : String → String → Bool
occurs word text = contains (codes word) (codes text)
