-- ===== src/Entities/Trim.antt =====
-- `String.prototype.trim`, and the pattern of a code: src/permissoes/domain/entities/permissao.entity.ts.
use api_padrao.Prelude.{
  ℕ, Text, Bool, true, false, not, ◌&&◌, ◌||◌, Option, none, some, [], ◌∷◌, ◌≡◌, refl, ap, ◌∙◌, inl,
  inr, Bool-cases, any, length, ◌==◌, nat_eq, if◌then◌else◌,
}
use api_padrao.Email.Address.{between, is_space}

unfoldable pub trim_start : Text → Text
unfolding is_space
trim_start [] = []
trim_start (c ∷ s) = let rest = trim_start s in if is_space c then rest else c ∷ s

abbrev pub cons_end : ℕ → Text → Text
unfolding is_space
cons_end c [] = if is_space c then [] else c ∷ []
cons_end c (d ∷ s) = c ∷ d ∷ s

unfoldable pub trim_end : Text → Text
unfolding cons_end
trim_end [] = []
trim_end (c ∷ s) = cons_end c (trim_end s)

unfoldable pub trim : Text → Text
unfolding trim_start trim_end
trim s = trim_end (trim_start s)

abbrev pub is_empty : Text → Bool
is_empty [] = true
is_empty (c ∷ s) = false

-- `!s || !s.trim()`, and `!s.trim()`, which says the same
unfoldable pub is_blank : Text → Bool
unfolding trim
is_blank s = is_empty (trim s)

-- `(s ?? '').trim()`
unfoldable pub trim_or_empty : Option Text → Text
unfolding trim
trim_or_empty none = []
trim_or_empty (some s) = trim s

-- `[A-Z0-9_]`
abbrev pub is_code_char : ℕ → Bool
is_code_char c = between b'A' b'Z' c || between b'0' b'9' c || c == b'_'

-- `/^[A-Z0-9_]{2,64}$/`
unfoldable pub is_codigo : Text → Bool
unfolding any
is_codigo s = between 2 64 (length s) && not (any (λ c. not (is_code_char c)) s)

cons_end_idem : (c : ℕ) (s : Text) → trim_end s ≡ s → trim_end (cons_end c s) ≡ cons_end c s
unfolding trim_end cons_end
cons_end_idem c [] h = elim (Bool-cases (is_space c)) [
  | inl space ↦ rw space refl
  | inr other ↦ rw (other, trim_end, cons_end, other) refl
]
cons_end_idem c (d ∷ s) h = rw h refl

trim_end_idem : (s : Text) → trim_end (trim_end s) ≡ trim_end s
unfolding trim_end
trim_end_idem [] = refl
trim_end_idem (c ∷ s) = cons_end_idem c (trim_end s) (trim_end_idem s)

-- a text that begins with no space keeps its first character at its end
cons_end-start : (c : ℕ) (s : Text) → is_space c ≡ false → trim_start (cons_end c s) ≡ cons_end c s
unfolding trim_start cons_end
cons_end-start c [] h = rw (h, trim_start, h) refl
cons_end-start c (d ∷ s) h = rw h refl

start-end-start : (s : Text) → trim_start (trim_end (trim_start s)) ≡ trim_end (trim_start s)
unfolding trim_start trim_end
start-end-start [] = refl
start-end-start (c ∷ s) = elim (Bool-cases (is_space c)) [
  | inl space ↦ rw space (start-end-start s)
  | inr other ↦ rw other (cons_end-start c (trim_end s) other)
]

-- Trimming twice is trimming once.
pub trim_idem : (s : Text) → trim (trim s) ≡ trim s
unfolding trim
trim_idem s = ap trim_end (start-end-start s) ∙ trim_end_idem (trim_start s)

pub named-trim : (nome : Text) → is_blank nome ≡ false → is_blank (trim nome) ≡ false
unfolding is_blank
named-trim nome h = rw (trim_idem nome) h
