-- ===== src/Email/Placeholders.antt =====
-- `render` and `assertPlaceholdersProvided` of src/shared/application/services/email-sender.service.ts.
-- PLACEHOLDER_REGEX, `\{\{(\w+)\}\}` with the flag g, reads a text from left to right: where it matches
-- it takes the match, elsewhere one character.
pub mod Replaced
use api_padrao.Prelude.{
  ℕ, zero, suc, ◌+◌, Text, Bool, true, false, ◌&&◌, ◌||◌, Option, none, some, List, [], ◌∷◌, ◌++◌,
  length, ◌==◌, text_eq, nat_eq, if◌then◌else◌,
}
use mathlib.Core.Option
use api_padrao.Email.Address.{between}

-- `\w`
abbrev pub is_word_char : ℕ → Bool
is_word_char c = between b'a' b'z' c || between b'A' b'Z' c || between b'0' b'9' c || c == b'_'

-- the longest run of `\w`, and what follows it
unfoldable pub word_run : Text → Text × Text
word_run [] = ([], [])
word_run (c ∷ s) =
    let (word, rest) = word_run s in if is_word_char c then (c ∷ word, rest) else ([], c ∷ s)

abbrev pub is_pair_of : ℕ → Text → Bool
is_pair_of c (a ∷ b ∷ s) = a == c && b == c
is_pair_of c s = false

-- `(\w+)\}\}`, after the opening braces: the key
abbrev pub closed : Text × Text → Option Text
closed ([], rest) = none
closed (k ∷ key, rest) = if is_pair_of b'}' rest then some (k ∷ key) else none

unfoldable pub match_at : Text → Option Text
unfolding word_run
match_at (a ∷ b ∷ s) = if a == b'{' && b == b'{' then closed (word_run s) else none
match_at s = none

pub data Token : Type 0 where
  char : ℕ → Token
  hole : Text → Token

-- the characters of a match after its first: `{`, the key, `}}`
abbrev pub rest_of_match : Text → ℕ
rest_of_match key = suc (suc (suc (length key)))

-- the text from here, once the characters of a match are skipped
unfoldable pub scan_from : ℕ → Text → List Token
unfolding match_at
scan_from skip [] = []
scan_from (suc skip) (c ∷ s) = scan_from skip s
scan_from zero (c ∷ s) = elim (match_at (c ∷ s)) [
  | none ↦ char c ∷ scan_from zero s
  | some key ↦ hole key ∷ scan_from (rest_of_match key) s
]

unfoldable pub scan : Text → List Token
unfolding scan_from
scan s = scan_from zero s

-- `vars`, a later entry in place of an earlier one with its key
abbrev pub Variables : Type 0
Variables = List (Text × Text)

unfoldable pub value_of : Text → Variables → Option Text
value_of key [] = none
value_of key ((k, v) ∷ vars) =
    let later = value_of key vars in
    elim later [ some w ↦ some w | none ↦ if k == key then some v else none ]

-- The first placeholder that has no variable.
unfoldable pub first_missing : Variables → List Token → Option Text
unfolding value_of
first_missing vars [] = none
first_missing vars (char c ∷ ts) = first_missing vars ts
first_missing vars (hole key ∷ ts) = elim (value_of key vars) [
  | none ↦ some key
  | some v ↦ first_missing vars ts
]

-- the text, where a missing variable is the empty text
unfoldable pub fill : Variables → List Token → Text
unfolding value_of
fill vars [] = []
fill vars (char c ∷ ts) = c ∷ fill vars ts
fill vars (hole key ∷ ts) = Option.get_or (value_of key vars) [] ++ fill vars ts

-- what a call throws, or gives: `Error` with the placeholder that is missing
pub data Rendered (A : Type 0) : Type 0 where
  text : A → Rendered A
  missing : Text → Rendered A

unfoldable pub render : Text → Variables → Rendered Text
unfolding scan first_missing fill
render s vars = elim (first_missing vars (scan s)) [
  | none ↦ text (fill vars (scan s))
  | some key ↦ missing key
]
