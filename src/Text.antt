-- ===== src/Text.antt =====
-- Python's `str`: the operations that the program uses, by recursion on the characters.
pub mod Normal
use Prim.Native.Char.{Char, code}
use umcp.Prelude.{
  ℕ, suc, String, Bool, true, false, ◌&&◌, ◌||◌, not, List, [], ◌∷◌, leb, nat_eq, ◌==◌, Option,
  none, some, if◌then◌else◌,
}

-- `str.isspace` of one character
unfoldable pub is_space : Char → Bool
is_space ch =
    let c = code ch in
    (leb 9 c && leb c 13)
    || (leb 28 c && leb c 32)
    || c == 0x85
    || c == 0xa0
    || c == 0x1680
    || (leb 0x2000 c && leb c 0x200a)
    || c == 0x2028
    || c == 0x2029
    || c == 0x202f
    || c == 0x205f
    || c == 0x3000

-- `len(s)`
unfoldable pub len : String → ℕ
len String.[] = 0
len (String.◌∷◌ c s) = suc (len s)

abbrev pub is_empty : String → Bool
is_empty String.[] = true
is_empty (String.◌∷◌ c s) = false

unfoldable pub lstrip : String → String
lstrip String.[] = String.[]
lstrip (String.◌∷◌ c s) = let rest = lstrip s in if is_space c then rest else String.◌∷◌ c s

unfoldable pub rstrip : String → String
rstrip String.[] = String.[]
rstrip (String.◌∷◌ c s) =
    let rest = rstrip s in if is_space c && is_empty rest then String.[] else String.◌∷◌ c rest

-- `s.strip()`
unfoldable pub strip : String → String
unfolding is_space lstrip rstrip
strip s = rstrip (lstrip s)

-- `not s.strip()`
unfoldable pub is_blank : String → Bool
unfolding strip
is_blank s = is_empty (strip s)

-- the text goes on with a word
abbrev pub starts_word : String → Bool
starts_word String.[] = false
starts_word (String.◌∷◌ c s) = not (is_space c)

abbrev pub extend_word : Char → List String → List String
extend_word c [] = String.◌∷◌ c String.[] ∷ []
extend_word c (w ∷ ws) = String.◌∷◌ c w ∷ ws

-- `s.split()`
unfoldable pub split : String → List String
split String.[] = []
split (String.◌∷◌ c s) =
    let rest = split s in
    if is_space c
    then rest
    else if starts_word s
    then extend_word c rest
    else String.◌∷◌ c String.[] ∷ rest

abbrev pub append : String → String → String
append String.[] t = t
append (String.◌∷◌ c s) t = String.◌∷◌ c (append s t)

-- `" ".join(ws)`
abbrev pub join : List String → String
join [] = String.[]
join (w ∷ []) = w
join (w ∷ (v ∷ ws)) = append w (append " " (join (v ∷ ws)))

-- `" ".join(s.split())`
unfoldable pub normalize : String → String
unfolding split is_space
normalize s = join (split s)

-- the truth value of an optional text
abbrev pub truthy : Option String → Bool
truthy none = false
truthy (some s) = not (is_empty s)

-- every character passes the test
unfoldable pub all_chars : (Char → Bool) → String → Bool
all_chars p String.[] = true
all_chars p (String.◌∷◌ c s) = p c && all_chars p s
