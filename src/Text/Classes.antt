-- ===== src/Text/Classes.antt =====
-- Character classes of the scripts' regular expressions, over UTF-16 code units.
use Prim.Native.Char.{code}
use Prim.Native.String.{String}
use agentsecrets_server.Prelude.{ℕ, List, [], ◌∷◌, Bool, ◌&&◌, ◌||◌, leb, ◌==◌}

-- The code units of a literal of the basic multilingual plane.
abbrev pub codes : String → List ℕ
codes String.[] = []
codes (String.◌∷◌ c s) = code c ∷ codes s

abbrev pub dash : ℕ
dash = b'-'

abbrev pub is_upper : ℕ → Bool
is_upper c = leb b'A' c && leb c b'Z'

abbrev pub is_lower : ℕ → Bool
is_lower c = leb b'a' c && leb c b'z'

abbrev pub is_digit : ℕ → Bool
is_digit c = leb b'0' c && leb c b'9'

-- The class `\w`.
abbrev pub is_word : ℕ → Bool
is_word c = is_upper c || is_lower c || is_digit c || c == b'_'

-- The class `\s`.
abbrev pub is_space : ℕ → Bool
is_space c =
    (leb 9 c && leb c 13)
    || c == 0x20
    || c == 0xa0
    || c == 0x1680
    || (leb 0x2000 c && leb c 0x200a)
    || c == 0x2028
    || c == 0x2029
    || c == 0x202f
    || c == 0x205f
    || c == 0x3000
    || c == 0xfeff
