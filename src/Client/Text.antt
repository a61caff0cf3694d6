-- ===== src/Client/Text.antt =====
-- The functions of Go's strings and strconv packages that the client uses, over the characters of a
-- text. (In UTF-8 the separators that are searched for are single bytes.)
use Prim.Native.Char.{Char, code}
use Prim.Native.String.{◌++◌ as text_append}
use advanced_group_chat_syst.Base.{
  ℕ, ◌+◌, ◌-◌, ◌*◌, ◌^◌, leb, ltb, nat_beq, String, Bool, true, false, ◌&&◌, ◌||◌, List, [], ◌∷◌,
  if◌then◌else◌,
}

-- A character in front of a text, and the empty text.
abbrev pub cons : Char → String → String
cons c s = String.◌∷◌ c s

abbrev pub empty : String
empty = String.[]

unfoldable pub trim_left : (Char → Bool) → String → String
trim_left test String.[] = empty
trim_left test (String.◌∷◌ c s) = let rest = trim_left test s in if test c then rest else cons c s

abbrev pub is_empty : String → Bool
is_empty String.[] = true
is_empty (String.◌∷◌ c s) = false

unfoldable pub trim_right : (Char → Bool) → String → String
trim_right test String.[] = empty
trim_right test (String.◌∷◌ c s) =
    let rest = trim_right test s in if test c && is_empty rest then empty else cons c rest

unfoldable pub is_line_end : Char → Bool
is_line_end c = nat_beq (code c) 13 || nat_beq (code c) 10

-- unicode.IsSpace
unfoldable pub is_space : Char → Bool
is_space c =
    (leb 9 (code c) && leb (code c) 13)
    || nat_beq (code c) 32
    || nat_beq (code c) 0x85
    || nat_beq (code c) 0xa0
    || nat_beq (code c) 0x1680
    || (leb 0x2000 (code c) && leb (code c) 0x200a)
    || nat_beq (code c) 0x2028
    || nat_beq (code c) 0x2029
    || nat_beq (code c) 0x202f
    || nat_beq (code c) 0x205f
    || nat_beq (code c) 0x3000

-- strings.Trim(msg, "\r\n")
unfoldable pub trim_line : String → String
unfolding trim_left trim_right is_line_end
trim_line s = trim_right is_line_end (trim_left is_line_end s)

-- strings.TrimSpace
unfoldable pub trim_space : String → String
unfolding trim_left trim_right is_space
trim_space s = trim_right is_space (trim_left is_space s)

abbrev push_front : Char → List String → List String
push_front c [] = cons c empty ∷ []
push_front c (w ∷ ws) = cons c w ∷ ws

-- strings.Split by a separator of one character, which is given by its code: always at least one part.
unfoldable pub split_on : ℕ → String → List String
split_on sep String.[] = empty ∷ []
split_on sep (String.◌∷◌ c s) =
    let rest = split_on sep s in if nat_beq (code c) sep then empty ∷ rest else push_front c rest

-- strings.Split(s, " ")
unfoldable pub split : String → List String
unfolding split_on
split s = split_on 32 s

-- strings.Contains of one character, which is given by its code.
unfoldable pub contains : ℕ → String → Bool
contains sep String.[] = false
contains sep (String.◌∷◌ c s) = nat_beq (code c) sep || contains sep s

-- strings.Join(parts, " ")
unfoldable pub join : List String → String
join [] = empty
join (w ∷ []) = w
join (w ∷ v ∷ ws) = text_append w (text_append " " (join (v ∷ ws)))

-- The value that strconv.ParseUint(s, 10, 32) returns beside its error: 0 for what is no number, the
-- largest uint32 for a number that is too large.
unfoldable pub parse_from : ℕ → String → ℕ
parse_from n String.[] = n
parse_from n (String.◌∷◌ c s) =
    let value = n * 10 + (code c - 48) in
    let rest = parse_from value s in
    if leb 48 (code c) && leb (code c) 57
    then (if ltb value (2 ^ 32) then rest else 2 ^ 32 - 1)
    else 0

unfoldable pub parse_uint : String → ℕ
unfolding parse_from
parse_uint s = parse_from 0 s
