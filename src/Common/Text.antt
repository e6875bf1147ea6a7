-- ===== src/Common/Text.antt =====
-- Byte strings: the functions of Go's `strings` that the code calls, on ASCII bytes.
use lib_sager_net_core.Common.{
  ℕ, Bool, ◌||◌, ◌&&◌, List, [], ◌∷◌, ◌++◌, map, ◌==◌, leb, ◌+◌, ◌-◌, if◌then◌else◌, bytes_eq,
}
use Prim.Native.Char.{code}
use Prim.Native.String.{String as Text}

-- The bytes of an ASCII text.
abbrev pub codes : Text → List ℕ
codes Text.[] = []
codes (Text.◌∷◌ c s) = code c ∷ codes s

-- White space of `strings.Fields`: tab, newline, vertical tab, form feed, carriage return, space.
abbrev pub is_space : ℕ → Bool
is_space c = (leb 9 c && leb c 13) || c == 32

-- The fields of a text, of which `word` are the first bytes of the first field.
unfoldable pub fields_from : List ℕ → List ℕ → List (List ℕ)
fields_from [] [] = []
fields_from (w ∷ word) [] = (w ∷ word) ∷ []
fields_from [] (c ∷ s) = if is_space c then fields_from [] s else fields_from (c ∷ []) s
fields_from (w ∷ word) (c ∷ s) =
    let next = fields_from [] s in
    let more = fields_from ((w ∷ word) ++ c ∷ []) s in
    if is_space c then (w ∷ word) ∷ next else more

-- `strings.Fields`
unfoldable pub fields : List ℕ → List (List ℕ)
unfolding fields_from
fields = fields_from []

abbrev pub lower : ℕ → ℕ
lower c = if leb b'A' c && leb c b'Z' then c + 32 else c

-- `strings.EqualFold`
abbrev pub equal_fold : List ℕ → List ℕ → Bool
equal_fold a b = bytes_eq (map lower a) (map lower b)

-- `hex.EncodeToString`
abbrev pub hex_digit : ℕ → ℕ
hex_digit n = if leb n 9 then b'0' + n else b'a' + n - 10
