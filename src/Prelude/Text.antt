-- ===== src/Prelude/Text.antt =====
-- `str` as the code points of its text: `contains`, `trim`, `starts_with` and the ASCII classes.
use Prim.Native.Nat.{ℕ}
use Prim.Native.Char.{Char, code}
use Prim.Native.String.{String}
use mathlib.Core.Bool.{Bool, false, ◌&&◌, ◌||◌}
use mathlib.Core.List.{List, [], ◌∷◌, reverse}
use buildomat.Prelude.Tests.{leb, ◌==◌, if◌then◌else◌}
use buildomat.Prelude.Lists.{any}

abbrev pub codes : String → List ℕ
codes String.[] = []
codes (String.◌∷◌ c s) = code c ∷ codes s

-- The Unicode property White_Space.
unfoldable pub is_whitespace : ℕ → Bool
is_whitespace c =
    (leb 0x9 c && leb c 0xd)
    || c == 0x20
    || c == 0x85
    || c == 0xa0
    || c == 0x1680
    || (leb 0x2000 c && leb c 0x200a)
    || c == 0x2028
    || c == 0x2029
    || c == 0x202f
    || c == 0x205f
    || c == 0x3000

unfoldable pub trim_start : List ℕ → List ℕ
unfolding is_whitespace
trim_start [] = []
trim_start (c ∷ cs) = if is_whitespace c then trim_start cs else c ∷ cs

unfoldable pub trim : List ℕ → List ℕ
unfolding trim_start
trim cs = reverse (trim_start (reverse (trim_start cs)))

-- `trim` and `starts_with('/')` on the text itself.
text_trim_start : String → String
unfolding is_whitespace
text_trim_start String.[] = String.[]
text_trim_start (String.◌∷◌ c s) =
    let rest = text_trim_start s in if is_whitespace (code c) then rest else String.◌∷◌ c s

abbrev trim_last : Bool → Char → String → String
trim_last blank c String.[] = if blank then String.[] else String.◌∷◌ c String.[]
trim_last blank c (String.◌∷◌ d s) = String.◌∷◌ c (String.◌∷◌ d s)

text_trim_end : String → String
unfolding is_whitespace
text_trim_end String.[] = String.[]
text_trim_end (String.◌∷◌ c s) = trim_last (is_whitespace (code c)) c (text_trim_end s)

unfoldable pub text_trim : String → String
unfolding text_trim_start text_trim_end
text_trim s = text_trim_end (text_trim_start s)

abbrev pub starts_with_slash : String → Bool
starts_with_slash String.[] = false
starts_with_slash (String.◌∷◌ c s) = code c == b'/'

abbrev pub contains : ℕ → List ℕ → Bool
contains c cs = any (λ x. x == c) cs

unfoldable pub is_ascii_digit : ℕ → Bool
is_ascii_digit c = leb b'0' c && leb c b'9'

unfoldable pub is_ascii_lowercase : ℕ → Bool
is_ascii_lowercase c = leb b'a' c && leb c b'z'

unfoldable pub is_ascii_alphanumeric : ℕ → Bool
unfolding is_ascii_digit is_ascii_lowercase
is_ascii_alphanumeric c = is_ascii_digit c || is_ascii_lowercase c || (leb b'A' c && leb c b'Z')

-- The bytes of a code point in UTF-8.
unfoldable pub utf8_width : ℕ → ℕ
utf8_width c = if leb c 0x7f then 1 else if leb c 0x7ff then 2 else if leb c 0xffff then 3 else 4
