-- ===== src/Core/Config/Text.antt =====
-- src/core/config.cpp, `expand_env`, `is_valid_id`, `is_supported_language`, and `parse_or` with the
-- standard library's `stoull`. A text is a list of characters; `getenv` is the environment.
use Prim.Native.String.{String}
use Prim.Native.Char.{Char, code}
use text.Mathlib.TextBridge.{of_list}
use ironpulse.Prelude.Characters.{characters}
use ironpulse.Prelude.{
  ℕ, zero, suc, ◌+◌, ◌-◌, ◌*◌, ◌^◌, ◌%◌, Bool, true, false, ltb, leb, ◌==◌, ◌&&◌, ◌||◌,
  if◌then◌else◌, List, [], ◌∷◌, ◌++◌, Option, none, some, length, map, drop,
}
use ironpulse.Prelude.Dict.{same_key}

abbrev pub word_end : ℕ
word_end = 2 ^ 64

abbrev pub is_empty : String → Bool
is_empty text = same_key text ""

abbrev pub one_of : String → List String → Bool
one_of text [] = false
one_of text (option ∷ options) = same_key text option || one_of text options

abbrev pub all_of : (ℕ → Bool) → List ℕ → Bool
all_of p [] = true
all_of p (c ∷ cs) = p c && all_of p cs

abbrev pub between : ℕ → ℕ → ℕ → Bool
between low high c = leb low c && leb c high

-- a-z, A-Z, 0-9, underscore, dash and dot
abbrev pub is_id_char : ℕ → Bool
is_id_char c =
    between 97 122 c || between 65 90 c || between 48 57 c || c == 95 || c == 45 || c == 46

abbrev pub starts_with_dot : List ℕ → Bool
starts_with_dot [] = false
starts_with_dot (c ∷ cs) = c == 46

-- An id with a character of several bytes is refused in any case, so characters are counted.
unfoldable pub is_valid_id : String → Bool
is_valid_id id =
    let cs = map code (characters id) in
    if length cs == 0 || ltb 64 (length cs) || starts_with_dot cs
    then false
    else all_of is_id_char cs

unfoldable pub is_supported_language : String → Bool
is_supported_language language =
    one_of language ("ru" ∷ "en" ∷ "zh" ∷ "hi" ∷ "es" ∷ "fr" ∷ "de" ∷ "it" ∷ [])

-- `find('}', start)`: what stands before the brace and after it.
unfoldable pub split_brace : List Char → Option (List Char × List Char)
split_brace [] = none
split_brace (c ∷ cs) =
    let rest = split_brace cs in
    if code c == 125
    then some ([], cs)
    else elim rest [ none ↦ none | some found ↦ some (c ∷ found.0, found.1) ]

abbrev pub opens : List Char → Bool
opens [] = false
opens (c ∷ cs) = code c == 123

abbrev pub variable_value : (String → Option String) → List Char → List Char
variable_value getenv name = elim (getenv (of_list name)) [
  | none ↦ []
  | some value ↦ characters value
]

-- The loop, from left to right, with the length of the text as fuel.
unfoldable pub expand : (String → Option String) → ℕ → List Char → List Char
unfolding split_brace
expand getenv zero text = text
expand getenv (suc fuel) [] = []
expand getenv (suc fuel) (c ∷ cs) = elim (code c == 36 && opens cs) [
  | false ↦ c ∷ expand getenv fuel cs
  | true ↦ elim (split_brace (drop 1 cs)) [
    | none ↦ c ∷ cs
    | some found ↦ variable_value getenv found.0 ++ expand getenv fuel found.1
  ]
]

unfoldable pub expand_env : (String → Option String) → String → String
unfolding expand
expand_env getenv text = of_list (expand getenv (length (characters text)) (characters text))

-- `env`: a variable that is set and not empty.
unfoldable pub env : (String → Option String) → String → Option String
env getenv name = elim (getenv name) [
  | none ↦ none
  | some value ↦ if is_empty value then none else some value
]

abbrev pub is_space : ℕ → Bool
is_space c = between 9 13 c || c == 32

unfoldable pub skip_spaces : List ℕ → List ℕ
skip_spaces [] = []
skip_spaces (c ∷ cs) = let rest = skip_spaces cs in if is_space c then rest else c ∷ cs

-- The value of the digits at the front, after the value `n` of those before.
unfoldable pub digits : ℕ → List ℕ → ℕ
digits n [] = n
digits n (c ∷ cs) = let more = digits (n * 10 + (c - 48)) cs in if between 48 57 c then more else n

abbrev pub digits_value : List ℕ → Option ℕ
digits_value [] = none
digits_value (c ∷ cs) =
    if between 48 57 c && ltb (digits 0 (c ∷ cs)) word_end then some (digits 0 (c ∷ cs)) else none

-- `std::stoull`: a minus sign negates modulo 2 ^ 64; none for either exception.
unfoldable pub stoull : List ℕ → Option ℕ
unfolding skip_spaces digits
stoull text = elim (skip_spaces text) [
  | [] ↦ none
  | c ∷ cs ↦
      if c == 43
      then digits_value cs
      else if c == 45
      then elim (digits_value cs) [ none ↦ none | some n ↦ some ((word_end - n) % word_end) ]
      else digits_value (c ∷ cs)
]

-- `parse_or<T>` of an integer type with the largest value `max_value`.
unfoldable pub parse_number_or : ℕ → String → ℕ → ℕ
unfolding stoull
parse_number_or max_value raw fallback = elim (stoull (map code (characters raw))) [
  | none ↦ fallback
  | some parsed ↦ if ltb max_value parsed then fallback else parsed
]

abbrev pub parse_bool : String → Bool
parse_bool raw = one_of raw ("1" ∷ "true" ∷ "TRUE" ∷ "yes" ∷ [])
