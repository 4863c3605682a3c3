-- ===== src/Urlify/Maps/European.antt =====
-- The transliteration tables of staticfiles/admin/js/urlify.js, lines 4-107: Latin letters with
-- marks.
use Prim.Native.Char.{code}
use Prim.Native.String.{String}
use agentsecrets_server.Prelude.{ℕ, List, [], ◌∷◌}

abbrev pub latin_map : List (ℕ × String)
latin_map =
    (code "À", "A")
    ∷ (code "Á", "A")
    ∷ (code "Â", "A")
    ∷ (code "Ã", "A")
    ∷ (code "Ä", "A")
    ∷ (code "Å", "A")
    ∷ (code "Æ", "AE")
    ∷ (code "Ç", "C")
    ∷ (code "È", "E")
    ∷ (code "É", "E")
    ∷ (code "Ê", "E")
    ∷ (code "Ë", "E")
    ∷ (code "Ì", "I")
    ∷ (code "Í", "I")
    ∷ (code "Î", "I")
    ∷ (code "Ï", "I")
    ∷ (code "Ð", "D")
    ∷ (code "Ñ", "N")
    ∷ (code "Ò", "O")
    ∷ (code "Ó", "O")
    ∷ (code "Ô", "O")
    ∷ (code "Õ", "O")
    ∷ (code "Ö", "O")
    ∷ (code "Ő", "O")
    ∷ (code "Ø", "O")
    ∷ (code "Ù", "U")
    ∷ (code "Ú", "U")
    ∷ (code "Û", "U")
    ∷ (code "Ü", "U")
    ∷ (code "Ű", "U")
    ∷ (code "Ý", "Y")
    ∷ (code "Þ", "TH")
    ∷ (code "Ÿ", "Y")
    ∷ (code "ß", "ss")
    ∷ (code "à", "a")
    ∷ (code "á", "a")
    ∷ (code "â", "a")
    ∷ (code "ã", "a")
    ∷ (code "ä", "a")
    ∷ (code "å", "a")
    ∷ (code "æ", "ae")
    ∷ (code "ç", "c")
    ∷ (code "è", "e")
    ∷ (code "é", "e")
    ∷ (code "ê", "e")
    ∷ (code "ë", "e")
    ∷ (code "ì", "i")
    ∷ (code "í", "i")
    ∷ (code "î", "i")
    ∷ (code "ï", "i")
    ∷ (code "ð", "d")
    ∷ (code "ñ", "n")
    ∷ (code "ò", "o")
    ∷ (code "ó", "o")
    ∷ (code "ô", "o")
    ∷ (code "õ", "o")
    ∷ (code "ö", "o")
    ∷ (code "ő", "o")
    ∷ (code "ø", "o")
    ∷ (code "ù", "u")
    ∷ (code "ú", "u")
    ∷ (code "û", "u")
    ∷ (code "ü", "u")
    ∷ (code "ű", "u")
    ∷ (code "ý", "y")
    ∷ (code "þ", "th")
    ∷ (code "ÿ", "y")
    ∷ []

abbrev pub latin_symbols_map : List (ℕ × String)
latin_symbols_map = (code "©", "(c)") ∷ []

abbrev pub turkish_map : List (ℕ × String)
turkish_map =
    (code "ş", "s")
    ∷ (code "Ş", "S")
    ∷ (code "ı", "i")
    ∷ (code "İ", "I")
    ∷ (code "ç", "c")
    ∷ (code "Ç", "C")
    ∷ (code "ü", "u")
    ∷ (code "Ü", "U")
    ∷ (code "ö", "o")
    ∷ (code "Ö", "O")
    ∷ (code "ğ", "g")
    ∷ (code "Ğ", "G")
    ∷ []

abbrev pub romanian_map : List (ℕ × String)
romanian_map =
    (code "ă", "a")
    ∷ (code "î", "i")
    ∷ (code "ș", "s")
    ∷ (code "ț", "t")
    ∷ (code "â", "a")
    ∷ (code "Ă", "A")
    ∷ (code "Î", "I")
    ∷ (code "Ș", "S")
    ∷ (code "Ț", "T")
    ∷ (code "Â", "A")
    ∷ []

abbrev pub czech_map : List (ℕ × String)
czech_map =
    (code "č", "c")
    ∷ (code "ď", "d")
    ∷ (code "ě", "e")
    ∷ (code "ň", "n")
    ∷ (code "ř", "r")
    ∷ (code "š", "s")
    ∷ (code "ť", "t")
    ∷ (code "ů", "u")
    ∷ (code "ž", "z")
    ∷ (code "Č", "C")
    ∷ (code "Ď", "D")
    ∷ (code "Ě", "E")
    ∷ (code "Ň", "N")
    ∷ (code "Ř", "R")
    ∷ (code "Š", "S")
    ∷ (code "Ť", "T")
    ∷ (code "Ů", "U")
    ∷ (code "Ž", "Z")
    ∷ []

abbrev pub slovak_map : List (ℕ × String)
slovak_map =
    (code "á", "a")
    ∷ (code "ä", "a")
    ∷ (code "č", "c")
    ∷ (code "ď", "d")
    ∷ (code "é", "e")
    ∷ (code "í", "i")
    ∷ (code "ľ", "l")
    ∷ (code "ĺ", "l")
    ∷ (code "ň", "n")
    ∷ (code "ó", "o")
    ∷ (code "ô", "o")
    ∷ (code "ŕ", "r")
    ∷ (code "š", "s")
    ∷ (code "ť", "t")
    ∷ (code "ú", "u")
    ∷ (code "ý", "y")
    ∷ (code "ž", "z")
    ∷ (code "Á", "a")
    ∷ (code "Ä", "A")
    ∷ (code "Č", "C")
    ∷ (code "Ď", "D")
    ∷ (code "É", "E")
    ∷ (code "Í", "I")
    ∷ (code "Ľ", "L")
    ∷ (code "Ĺ", "L")
    ∷ (code "Ň", "N")
    ∷ (code "Ó", "O")
    ∷ (code "Ô", "O")
    ∷ (code "Ŕ", "R")
    ∷ (code "Š", "S")
    ∷ (code "Ť", "T")
    ∷ (code "Ú", "U")
    ∷ (code "Ý", "Y")
    ∷ (code "Ž", "Z")
    ∷ []

abbrev pub polish_map : List (ℕ × String)
polish_map =
    (code "ą", "a")
    ∷ (code "ć", "c")
    ∷ (code "ę", "e")
    ∷ (code "ł", "l")
    ∷ (code "ń", "n")
    ∷ (code "ó", "o")
    ∷ (code "ś", "s")
    ∷ (code "ź", "z")
    ∷ (code "ż", "z")
    ∷ (code "Ą", "A")
    ∷ (code "Ć", "C")
    ∷ (code "Ę", "E")
    ∷ (code "Ł", "L")
    ∷ (code "Ń", "N")
    ∷ (code "Ó", "O")
    ∷ (code "Ś", "S")
    ∷ (code "Ź", "Z")
    ∷ (code "Ż", "Z")
    ∷ []

abbrev pub latvian_map : List (ℕ × String)
latvian_map =
    (code "ā", "a")
    ∷ (code "č", "c")
    ∷ (code "ē", "e")
    ∷ (code "ģ", "g")
    ∷ (code "ī", "i")
    ∷ (code "ķ", "k")
    ∷ (code "ļ", "l")
    ∷ (code "ņ", "n")
    ∷ (code "š", "s")
    ∷ (code "ū", "u")
    ∷ (code "ž", "z")
    ∷ (code "Ā", "A")
    ∷ (code "Č", "C")
    ∷ (code "Ē", "E")
    ∷ (code "Ģ", "G")
    ∷ (code "Ī", "I")
    ∷ (code "Ķ", "K")
    ∷ (code "Ļ", "L")
    ∷ (code "Ņ", "N")
    ∷ (code "Š", "S")
    ∷ (code "Ū", "U")
    ∷ (code "Ž", "Z")
    ∷ []

abbrev pub lithuanian_map : List (ℕ × String)
lithuanian_map =
    (code "ą", "a")
    ∷ (code "č", "c")
    ∷ (code "ę", "e")
    ∷ (code "ė", "e")
    ∷ (code "į", "i")
    ∷ (code "š", "s")
    ∷ (code "ų", "u")
    ∷ (code "ū", "u")
    ∷ (code "ž", "z")
    ∷ (code "Ą", "A")
    ∷ (code "Č", "C")
    ∷ (code "Ę", "E")
    ∷ (code "Ė", "E")
    ∷ (code "Į", "I")
    ∷ (code "Š", "S")
    ∷ (code "Ų", "U")
    ∷ (code "Ū", "U")
    ∷ (code "Ž", "Z")
    ∷ []

abbrev pub azerbaijani_map : List (ℕ × String)
azerbaijani_map =
    (code "ç", "c")
    ∷ (code "ə", "e")
    ∷ (code "ğ", "g")
    ∷ (code "ı", "i")
    ∷ (code "ö", "o")
    ∷ (code "ş", "s")
    ∷ (code "ü", "u")
    ∷ (code "Ç", "C")
    ∷ (code "Ə", "E")
    ∷ (code "Ğ", "G")
    ∷ (code "İ", "I")
    ∷ (code "Ö", "O")
    ∷ (code "Ş", "S")
    ∷ (code "Ü", "U")
    ∷ []
