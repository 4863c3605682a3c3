-- ===== src/Urlify/Maps/Scripts.antt =====
-- The transliteration tables of staticfiles/admin/js/urlify.js, lines 4-107: other scripts.
use Prim.Native.Char.{code}
use Prim.Native.String.{String}
use agentsecrets_server.Prelude.{ℕ, List, [], ◌∷◌}

abbrev pub greek_map : List (ℕ × String)
greek_map =
    (code "α", "a")
    ∷ (code "β", "b")
    ∷ (code "γ", "g")
    ∷ (code "δ", "d")
    ∷ (code "ε", "e")
    ∷ (code "ζ", "z")
    ∷ (code "η", "h")
    ∷ (code "θ", "8")
    ∷ (code "ι", "i")
    ∷ (code "κ", "k")
    ∷ (code "λ", "l")
    ∷ (code "μ", "m")
    ∷ (code "ν", "n")
    ∷ (code "ξ", "3")
    ∷ (code "ο", "o")
    ∷ (code "π", "p")
    ∷ (code "ρ", "r")
    ∷ (code "σ", "s")
    ∷ (code "τ", "t")
    ∷ (code "υ", "y")
    ∷ (code "φ", "f")
    ∷ (code "χ", "x")
    ∷ (code "ψ", "ps")
    ∷ (code "ω", "w")
    ∷ (code "ά", "a")
    ∷ (code "έ", "e")
    ∷ (code "ί", "i")
    ∷ (code "ό", "o")
    ∷ (code "ύ", "y")
    ∷ (code "ή", "h")
    ∷ (code "ώ", "w")
    ∷ (code "ς", "s")
    ∷ (code "ϊ", "i")
    ∷ (code "ΰ", "y")
    ∷ (code "ϋ", "y")
    ∷ (code "ΐ", "i")
    ∷ (code "Α", "A")
    ∷ (code "Β", "B")
    ∷ (code "Γ", "G")
    ∷ (code "Δ", "D")
    ∷ (code "Ε", "E")
    ∷ (code "Ζ", "Z")
    ∷ (code "Η", "H")
    ∷ (code "Θ", "8")
    ∷ (code "Ι", "I")
    ∷ (code "Κ", "K")
    ∷ (code "Λ", "L")
    ∷ (code "Μ", "M")
    ∷ (code "Ν", "N")
    ∷ (code "Ξ", "3")
    ∷ (code "Ο", "O")
    ∷ (code "Π", "P")
    ∷ (code "Ρ", "R")
    ∷ (code "Σ", "S")
    ∷ (code "Τ", "T")
    ∷ (code "Υ", "Y")
    ∷ (code "Φ", "F")
    ∷ (code "Χ", "X")
    ∷ (code "Ψ", "PS")
    ∷ (code "Ω", "W")
    ∷ (code "Ά", "A")
    ∷ (code "Έ", "E")
    ∷ (code "Ί", "I")
    ∷ (code "Ό", "O")
    ∷ (code "Ύ", "Y")
    ∷ (code "Ή", "H")
    ∷ (code "Ώ", "W")
    ∷ (code "Ϊ", "I")
    ∷ (code "Ϋ", "Y")
    ∷ []

abbrev pub russian_map : List (ℕ × String)
russian_map =
    (code "а", "a")
    ∷ (code "б", "b")
    ∷ (code "в", "v")
    ∷ (code "г", "g")
    ∷ (code "д", "d")
    ∷ (code "е", "e")
    ∷ (code "ё", "yo")
    ∷ (code "ж", "zh")
    ∷ (code "з", "z")
    ∷ (code "и", "i")
    ∷ (code "й", "j")
    ∷ (code "к", "k")
    ∷ (code "л", "l")
    ∷ (code "м", "m")
    ∷ (code "н", "n")
    ∷ (code "о", "o")
    ∷ (code "п", "p")
    ∷ (code "р", "r")
    ∷ (code "с", "s")
    ∷ (code "т", "t")
    ∷ (code "у", "u")
    ∷ (code "ф", "f")
    ∷ (code "х", "h")
    ∷ (code "ц", "c")
    ∷ (code "ч", "ch")
    ∷ (code "ш", "sh")
    ∷ (code "щ", "sh")
    ∷ (code "ъ", "")
    ∷ (code "ы", "y")
    ∷ (code "ь", "")
    ∷ (code "э", "e")
    ∷ (code "ю", "yu")
    ∷ (code "я", "ya")
    ∷ (code "А", "A")
    ∷ (code "Б", "B")
    ∷ (code "В", "V")
    ∷ (code "Г", "G")
    ∷ (code "Д", "D")
    ∷ (code "Е", "E")
    ∷ (code "Ё", "Yo")
    ∷ (code "Ж", "Zh")
    ∷ (code "З", "Z")
    ∷ (code "И", "I")
    ∷ (code "Й", "J")
    ∷ (code "К", "K")
    ∷ (code "Л", "L")
    ∷ (code "М", "M")
    ∷ (code "Н", "N")
    ∷ (code "О", "O")
    ∷ (code "П", "P")
    ∷ (code "Р", "R")
    ∷ (code "С", "S")
    ∷ (code "Т", "T")
    ∷ (code "У", "U")
    ∷ (code "Ф", "F")
    ∷ (code "Х", "H")
    ∷ (code "Ц", "C")
    ∷ (code "Ч", "Ch")
    ∷ (code "Ш", "Sh")
    ∷ (code "Щ", "Sh")
    ∷ (code "Ъ", "")
    ∷ (code "Ы", "Y")
    ∷ (code "Ь", "")
    ∷ (code "Э", "E")
    ∷ (code "Ю", "Yu")
    ∷ (code "Я", "Ya")
    ∷ []

abbrev pub ukrainian_map : List (ℕ × String)
ukrainian_map =
    (code "Є", "Ye")
    ∷ (code "І", "I")
    ∷ (code "Ї", "Yi")
    ∷ (code "Ґ", "G")
    ∷ (code "є", "ye")
    ∷ (code "і", "i")
    ∷ (code "ї", "yi")
    ∷ (code "ґ", "g")
    ∷ []

abbrev pub arabic_map : List (ℕ × String)
arabic_map =
    (0x623, "a")
    ∷ (0x628, "b")
    ∷ (0x62a, "t")
    ∷ (0x62b, "th")
    ∷ (0x62c, "g")
    ∷ (0x62d, "h")
    ∷ (0x62e, "kh")
    ∷ (0x62f, "d")
    ∷ (0x630, "th")
    ∷ (0x631, "r")
    ∷ (0x632, "z")
    ∷ (0x633, "s")
    ∷ (0x634, "sh")
    ∷ (0x635, "s")
    ∷ (0x636, "d")
    ∷ (0x637, "t")
    ∷ (0x638, "th")
    ∷ (0x639, "aa")
    ∷ (0x63a, "gh")
    ∷ (0x641, "f")
    ∷ (0x642, "k")
    ∷ (0x643, "k")
    ∷ (0x644, "l")
    ∷ (0x645, "m")
    ∷ (0x646, "n")
    ∷ (0x647, "h")
    ∷ (0x648, "o")
    ∷ (0x64a, "y")
    ∷ []

abbrev pub serbian_map : List (ℕ × String)
serbian_map =
    (code "ђ", "dj")
    ∷ (code "ј", "j")
    ∷ (code "љ", "lj")
    ∷ (code "њ", "nj")
    ∷ (code "ћ", "c")
    ∷ (code "џ", "dz")
    ∷ (code "đ", "dj")
    ∷ (code "Ђ", "Dj")
    ∷ (code "Ј", "j")
    ∷ (code "Љ", "Lj")
    ∷ (code "Њ", "Nj")
    ∷ (code "Ћ", "C")
    ∷ (code "Џ", "Dz")
    ∷ (code "Đ", "Dj")
    ∷ []

abbrev pub georgian_map : List (ℕ × String)
georgian_map =
    (code "ა", "a")
    ∷ (code "ბ", "b")
    ∷ (code "გ", "g")
    ∷ (code "დ", "d")
    ∷ (code "ე", "e")
    ∷ (code "ვ", "v")
    ∷ (code "ზ", "z")
    ∷ (code "თ", "t")
    ∷ (code "ი", "i")
    ∷ (code "კ", "k")
    ∷ (code "ლ", "l")
    ∷ (code "მ", "m")
    ∷ (code "ნ", "n")
    ∷ (code "ო", "o")
    ∷ (code "პ", "p")
    ∷ (code "ჟ", "j")
    ∷ (code "რ", "r")
    ∷ (code "ს", "s")
    ∷ (code "ტ", "t")
    ∷ (code "უ", "u")
    ∷ (code "ფ", "f")
    ∷ (code "ქ", "q")
    ∷ (code "ღ", "g")
    ∷ (code "ყ", "y")
    ∷ (code "შ", "sh")
    ∷ (code "ჩ", "ch")
    ∷ (code "ც", "c")
    ∷ (code "ძ", "dz")
    ∷ (code "წ", "w")
    ∷ (code "ჭ", "ch")
    ∷ (code "ხ", "x")
    ∷ (code "ჯ", "j")
    ∷ (code "ჰ", "h")
    ∷ []
