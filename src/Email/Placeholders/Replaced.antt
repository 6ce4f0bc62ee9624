-- ===== src/Email/Placeholders/Replaced.antt =====
-- What `render` of src/shared/application/services/email-sender.service.ts makes of a placeholder.
use api_padrao.Prelude.{
  ℕ, zero, suc, Text, true, false, Option, none, some, List, [], ◌∷◌, ◌++◌, ◌≡◌, refl, sym, ap, ◌∙◌,
  length, All, map, ◌==◌, nat_eq, inl, inr, Option-cases,
}
use api_padrao.Usuarios.Listing.{drop}
use api_padrao.Email.Placeholders.{
  is_word_char, word_run, match_at, Token, char, hole, scan_from, scan, Variables, value_of,
  first_missing, fill, Rendered, text, missing, render,
}

-- a text without an opening brace, and one of the characters of a key
abbrev pub IsLiteral : Text → Type 0
IsLiteral s = All (λ c. (c == b'{') ≡ false) s

abbrev pub IsWord : Text → Type 0
IsWord s = All (λ c. is_word_char c ≡ true) s

-- the text goes before what was rendered, if nothing was missing
abbrev pub after_text : Text → Rendered Text → Rendered Text
after_text before (text rest) = text (before ++ rest)
after_text before (missing key) = missing key

abbrev pub replaced : Text → Text → Option Text → Rendered Text → Rendered Text
replaced before key none rest = missing key
replaced before key (some value) rest = after_text (before ++ value) rest

word_run-append :
    (key rest : Text) → IsWord key → word_run (key ++ (b'}' ∷ rest)) ≡ (key, b'}' ∷ rest)
unfolding word_run
word_run-append [] rest h = refl
word_run-append (c ∷ key) rest (h, all) = rw (word_run-append key rest all, h) refl

match-placeholder :
    (k : ℕ) (key rest : Text)
    → IsWord (k ∷ key)
    → match_at (b'{' ∷ b'{' ∷ (k ∷ key) ++ (b'}' ∷ b'}' ∷ rest)) ≡ some (k ∷ key)
unfolding match_at
match-placeholder k key rest h = rw (word_run-append (k ∷ key) (b'}' ∷ rest) h) refl

match-literal : (c : ℕ) (s : Text) → (c == b'{') ≡ false → match_at (c ∷ s) ≡ none
unfolding match_at
match-literal c [] h = refl
match-literal c (d ∷ s) h = rw h refl

scan_from-drop : (skip : ℕ) (s : Text) → scan_from skip s ≡ scan_from zero (drop skip s)
unfolding scan_from drop
scan_from-drop zero s = refl
scan_from-drop (suc skip) [] = refl
scan_from-drop (suc skip) (c ∷ s) = scan_from-drop skip s

drop-key : (key rest : Text) → drop (length key) (key ++ rest) ≡ rest
unfolding drop
drop-key [] rest = refl
drop-key (k ∷ key) rest = drop-key key rest

drop-closing :
    (key rest : Text) → drop (suc (suc (length key))) (key ++ (b'}' ∷ b'}' ∷ rest)) ≡ rest
unfolding drop
drop-closing [] rest = refl
drop-closing (k ∷ key) rest = drop-closing key rest

scan-placeholder :
    (k : ℕ) (key rest : Text)
    → IsWord (k ∷ key)
    → scan (b'{' ∷ b'{' ∷ (k ∷ key) ++ (b'}' ∷ b'}' ∷ rest)) ≡ hole (k ∷ key) ∷ scan rest
unfolding scan scan_from drop
scan-placeholder k key rest h =
    rw (match-placeholder k key rest h, scan_from)
      (ap (λ (ts : List Token). hole (k ∷ key) ∷ ts)
        (scan_from-drop (suc (suc (length (k ∷ key)))) ((k ∷ key) ++ (b'}' ∷ b'}' ∷ rest))
          ∙ ap (scan_from zero) (drop-closing (k ∷ key) rest)))

scan-literal :
    (before rest : Text) → IsLiteral before → scan (before ++ rest) ≡ map char before ++ scan rest
unfolding scan scan_from
scan-literal [] rest h = refl
scan-literal (c ∷ before) rest (h, all) =
    rw (match-literal c (before ++ rest) h, scan_from)
      (ap (λ (ts : List Token). char c ∷ ts) (scan-literal before rest all))

append_assoc : (a b c : Text) → (a ++ b) ++ c ≡ a ++ (b ++ c)
append_assoc [] b c = refl
append_assoc (x ∷ a) b c = ap (λ (s : Text). x ∷ s) (append_assoc a b c)

append_nil : (s : Text) → s ++ [] ≡ s
append_nil [] = refl
append_nil (c ∷ s) = ap (λ (t : Text). c ∷ t) (append_nil s)

-- `render`, once the text was read
abbrev rendered_by : Option Text → Text → Rendered Text
rendered_by none s = text s
rendered_by (some key) s = missing key

abbrev rendered : Variables → List Token → Rendered Text
unfolding first_missing fill
rendered vars ts = rendered_by (first_missing vars ts) (fill vars ts)

module _ (vars : Variables) where
  first_missing-literal :
      (before : Text) (ts : List Token)
      → first_missing vars (map char before ++ ts) ≡ first_missing vars ts
  unfolding first_missing
  first_missing-literal [] ts = refl
  first_missing-literal (c ∷ before) ts = first_missing-literal before ts

  fill-literal :
      (before : Text) (ts : List Token) → fill vars (map char before ++ ts) ≡ before ++ fill vars ts
  unfolding fill
  fill-literal [] ts = refl
  fill-literal (c ∷ before) ts = ap (λ (s : Text). c ∷ s) (fill-literal before ts)

  rendered-literal : (s : Text) → rendered vars (map char s ++ []) ≡ text s
  unfolding rendered
  rendered-literal s =
      ap (λ o. rendered_by o (fill vars (map char s ++ []))) (first_missing-literal s [])
      ∙ ap text (fill-literal s [] ∙ append_nil s)

  render-rendered : (s : Text) → render s vars ≡ rendered vars (scan s)
  unfolding render rendered
  render-rendered s = elim (Option-cases (first_missing vars (scan s))) [
    | inl complete ↦ rw (complete, render) refl
    | inr (key, lacking) ↦ rw (lacking, render) refl
  ]

  render-scan : (s : Text) (ts : List Token) → scan s ≡ ts → render s vars ≡ rendered vars ts
  unfolding render rendered
  render-scan s ts e = render-rendered s ∙ ap (λ (us : List Token). rendered vars us) e

  rendered-hole :
      (before key : Text) (ts : List Token)
      → rendered vars (map char before ++ (hole key ∷ ts))
        ≡ replaced before key (value_of key vars) (rendered vars ts)
  unfolding rendered first_missing fill
  rendered-hole before key ts =
      ap (λ o. rendered_by o (fill vars (map char before ++ (hole key ∷ ts))))
        (first_missing-literal before (hole key ∷ ts))
      ∙ ap (rendered_by (first_missing vars (hole key ∷ ts))) (fill-literal before (hole key ∷ ts))
      ∙ elim (Option-cases (value_of key vars)) [
        | inl unknown ↦ rw (unknown, first_missing) refl
        | inr (value, known) ↦ elim (Option-cases (first_missing vars ts)) [
          | inl complete ↦
              rw (known, first_missing, complete)
                (ap text (sym (append_assoc before value (fill vars ts))))
          | inr (other, lacking) ↦ rw (known, first_missing, lacking) refl
        ]
      ]

  -- A template that is a text without `{`, then `{{key}}` with a key of one or more letters, digits and
  -- underscores, then any text, is rendered as the first text, the value of the key, and what the rest is
  -- rendered as; where the key has no value it is the placeholder that is missing, and otherwise the
  -- one that the rest is missing, if it is.
  pub render-placeholder :
      (before : Text) (k : ℕ) (key after : Text)
      → IsLiteral before
      → IsWord (k ∷ key)
      → render (before ++ (b'{' ∷ b'{' ∷ (k ∷ key) ++ (b'}' ∷ b'}' ∷ after))) vars
        ≡ replaced before (k ∷ key) (value_of (k ∷ key) vars) (render after vars)
  render-placeholder before k key after literal word =
      render-scan (before ++ (b'{' ∷ b'{' ∷ (k ∷ key) ++ (b'}' ∷ b'}' ∷ after)))
        (map char before ++ (hole (k ∷ key) ∷ scan after))
        (scan-literal before (b'{' ∷ b'{' ∷ (k ∷ key) ++ (b'}' ∷ b'}' ∷ after)) literal
          ∙ ap (λ (ts : List Token). map char before ++ ts) (scan-placeholder k key after word))
      ∙ rendered-hole before (k ∷ key) (scan after)
      ∙ ap (replaced before (k ∷ key) (value_of (k ∷ key) vars))
          (sym (render-scan after (scan after) refl))

  -- A template without `{` is rendered as it is.
  pub render-literal : (s : Text) → IsLiteral s → render s vars ≡ text s
  unfolding scan
  render-literal s literal =
      render-scan s (map char s ++ []) (ap scan (sym (append_nil s)) ∙ scan-literal s [] literal)
      ∙ rendered-literal s
