-- ===== src/Text/Examples.antt =====
-- The theorem on `escapeXml` of src/plugin/pty/xml.ts at a short value: `<`, a NUL, `&`, `a`.
use opencode_pty.Prelude.{ℕ, List, [], ◌∷◌, ◌≡◌, refl}
use opencode_pty.Text.Xml.{sanitized, is_xml_character, replace_all, escape_markup, escape_xml}
use opencode_pty.Text.Reading.{Reads, escape_xml-Reads}

abbrev value : List ℕ
value = 60 ∷ 0 ∷ 38 ∷ 97 ∷ []

escape_xml_test :
    escape_xml value ≡ 38 ∷ 108 ∷ 116 ∷ 59 ∷ 0xfffd ∷ 38 ∷ 97 ∷ 109 ∷ 112 ∷ 59 ∷ 97 ∷ []
unfolding escape_xml escape_markup replace_all sanitized is_xml_character
escape_xml_test = refl

escape_xml-Reads_example :
    Reads (escape_xml value) (sanitized value)
    × ((text : List ℕ) → Reads (escape_xml value) text → text ≡ sanitized value)
escape_xml-Reads_example = escape_xml-Reads value
