-- ===== src/Text/Xml.antt =====
-- `escapeXml` of src/plugin/pty/xml.ts, over the code points of the text.
use opencode_pty.Prelude.{ℕ, Bool, ◌&&◌, ◌||◌, List, [], ◌∷◌, ◌++◌, leb, ◌==◌, if◌then◌else◌}

abbrev pub between : ℕ → ℕ → ℕ → Bool
between low high n = leb low n && leb n high

-- The characters that an XML document can hold.
unfoldable pub is_xml_character : ℕ → Bool
is_xml_character n =
    (n == 0x9)
    || ((n == 0xa)
        || ((n == 0xd)
            || (between 0x20 0xd7ff n || (between 0xe000 0xfffd n || between 0x10000 0x10ffff n))))

abbrev pub sanitized_character : ℕ → ℕ
sanitized_character n = if is_xml_character n then n else 0xfffd

unfoldable pub sanitized : List ℕ → List ℕ
sanitized [] = []
sanitized (n ∷ ns) = sanitized_character n ∷ sanitized ns

-- `text.replace(/x/g, by)` for one character x
unfoldable pub replace_all : ℕ → List ℕ → List ℕ → List ℕ
replace_all x by [] = []
replace_all x by (n ∷ ns) =
    let rest = replace_all x by ns in if n == x then by ++ rest else n ∷ rest

abbrev pub amp : List ℕ
amp = 38 ∷ 97 ∷ 109 ∷ 112 ∷ 59 ∷ []

abbrev pub lt : List ℕ
lt = 38 ∷ 108 ∷ 116 ∷ 59 ∷ []

abbrev pub gt : List ℕ
gt = 38 ∷ 103 ∷ 116 ∷ 59 ∷ []

abbrev pub quot : List ℕ
quot = 38 ∷ 113 ∷ 117 ∷ 111 ∷ 116 ∷ 59 ∷ []

abbrev pub apos : List ℕ
apos = 38 ∷ 97 ∷ 112 ∷ 111 ∷ 115 ∷ 59 ∷ []

-- The five replacements, in their order.
unfoldable pub escape_markup : List ℕ → List ℕ
escape_markup text =
    replace_all 39 apos
      (replace_all 34 quot (replace_all 62 gt (replace_all 60 lt (replace_all 38 amp text))))

unfoldable pub escape_xml : List ℕ → List ℕ
escape_xml value = escape_markup (sanitized value)
