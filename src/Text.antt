-- ===== src/Text.antt =====
-- Texts that the program takes apart, as lists of code units, with the methods of String that it
-- uses. Letters are those of ASCII: toLowerCase leaves all other characters as they are.
pub mod Laws
pub mod Search
use Prim.Native.Char.{code}
use mern_auth.Prelude.{
  ℕ, suc, ◌+◌, String, Bool, true, false, not, ◌&&◌, ◌||◌, Option, none, some, List, [], ◌∷◌, map,
  leb, ◌==◌, if◌then◌else◌, select, drop, length, ◌++◌,
}

abbrev pub Text : Type 0
Text = List ℕ

abbrev pub codes : String → Text
codes String.[] = []
codes (String.◌∷◌ c s) = code c ∷ codes s

-- a === b
unfoldable pub text_eq : Text → Text → Bool
text_eq [] [] = true
text_eq (a ∷ x) (b ∷ y) = a == b && text_eq x y
text_eq _ _ = false

-- The white space that trim removes.
unfoldable pub is_blank : ℕ → Bool
is_blank c =
    (leb 9 c && leb c 13)
    || (c == 32 || (c == 160 || (c == 5760 || (leb 8192 c && leb c 8202))))
    || (c == 8232 || (c == 8233 || (c == 8239 || (c == 8287 || (c == 12288 || c == 65279)))))

unfoldable pub trim_start : Text → Text
trim_start [] = []
trim_start (c ∷ s) = let rest = trim_start s in elim (is_blank c) [ true ↦ rest | false ↦ c ∷ s ]

-- A character stays if it is not blank or something stays behind it.
abbrev pub keep_end : Bool → ℕ → Text → Text
keep_end true c [] = []
keep_end _ c s = c ∷ s

unfoldable pub trim_end : Text → Text
trim_end [] = []
trim_end (c ∷ s) = keep_end (is_blank c) c (trim_end s)

unfoldable pub trim : Text → Text
unfolding trim_start trim_end is_blank
trim s = trim_end (trim_start s)

unfoldable pub to_lower : ℕ → ℕ
to_lower c = if leb b'A' c && leb c b'Z' then c + 32 else c

unfoldable pub to_lower_case : Text → Text
unfolding to_lower
to_lower_case s = map to_lower s

-- s.lastIndexOf(c), `none` for -1
unfoldable pub last_index_of : ℕ → Text → Option ℕ
last_index_of c [] = none
last_index_of c (x ∷ s) = elim (last_index_of c s) [
  | some i ↦ some (suc i)
  | none ↦ if x == c then some 0 else none
]

-- s.replace(/c/g, "")
unfoldable pub remove_all : ℕ → Text → Text
remove_all c s = select (λ x. not (x == c)) s

abbrev onto : ℕ → List Text → List Text
onto x [] = (x ∷ []) ∷ []
onto x (part ∷ parts) = (x ∷ part) ∷ parts

-- s.split(c), for a separator of one character
unfoldable pub split : ℕ → Text → List Text
split c [] = [] ∷ []
split c (x ∷ s) = let rest = split c s in if x == c then [] ∷ rest else onto x rest

-- s.startsWith(t)
unfoldable pub is_prefix : Text → Text → Bool
is_prefix [] s = true
is_prefix (d ∷ t) [] = false
is_prefix (d ∷ t) (c ∷ s) = d == c && is_prefix t s

-- What the character after a $ stands for in a replacement, if it is special: $ itself, the match, or
-- the text before or after the match.
abbrev special : Text → Text → Text → ℕ → Option Text
special before found after c =
    if c == b'$'
    then some (b'$' ∷ [])
    else if c == b'&'
    then some found
    else if c == b'`'
    then some before
    else if c == b'\''
    then some after
    else none

-- The replacement with its patterns filled in; a $ before another character stays.
unfoldable pub expand : Text → Text → Text → Text → Text
expand before found after [] = []
expand before found after (c ∷ []) = c ∷ []
expand before found after (c ∷ d ∷ s) =
    let rest = expand before found after s in
    let later = expand before found after (d ∷ s) in
    if c == b'$'
    then elim (special before found after d) [ some t ↦ t ++ rest | none ↦ c ∷ later ]
    else c ∷ later

-- s.replace(old, new), of the first occurrence, after what was passed over.
unfoldable pub replace_after : Text → Text → Text → Text → Text
unfolding is_prefix expand
replace_after passed old new [] = if is_prefix old [] then expand passed old [] new else []
replace_after passed old new (c ∷ s) =
    let rest = replace_after (passed ++ c ∷ []) old new s in
    if is_prefix old (c ∷ s)
    then expand passed old (drop (length old) (c ∷ s)) new ++ drop (length old) (c ∷ s)
    else c ∷ rest

unfoldable pub replace : Text → Text → Text → Text
unfolding replace_after
replace old new s = replace_after [] old new s

-- s.includes(part)
unfoldable pub includes : Text → Text → Bool
unfolding is_prefix
includes part [] = is_prefix part []
includes part (c ∷ s) = let rest = includes part s in is_prefix part (c ∷ s) || rest
