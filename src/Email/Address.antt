-- ===== src/Email/Address.antt =====
-- The regular expressions TEMPLATE_ID_REGEX and EMAIL_REGEX of
-- src/shared/application/services/email-sender.service.ts, as tests on lists of code points.
use api_padrao.Prelude.{
  ℕ, Text, Bool, true, false, not, ◌&&◌, ◌||◌, List, [], ◌∷◌, leb, any, ◌==◌, nat_eq, if◌then◌else◌,
  includes,
}

abbrev pub between : ℕ → ℕ → ℕ → Bool
between low high c = leb low c && leb c high

-- `[a-z0-9_]`
abbrev pub is_id_char : ℕ → Bool
is_id_char c = between b'a' b'z' c || between b'0' b'9' c || c == b'_'

-- `[a-z0-9_]+(\.[a-z0-9_]+)*` from a place where a segment has begun, or has not
unfoldable pub is_id_from : Bool → Text → Bool
is_id_from begun [] = begun
is_id_from begun (c ∷ s) =
    let inside = is_id_from true s in
    let next = is_id_from false s in if is_id_char c then inside else (c == b'.') && begun && next

unfoldable pub is_template_id : Text → Bool
unfolding is_id_from
is_template_id s = is_id_from false s

-- `\s`
abbrev pub other_spaces : List ℕ
other_spaces = 160 ∷ 5760 ∷ 8232 ∷ 8233 ∷ 8239 ∷ 8287 ∷ 12288 ∷ 65279 ∷ []

unfoldable pub is_space : ℕ → Bool
unfolding includes
is_space c = between 9 13 c || c == b' ' || between 8192 8202 c || includes c other_spaces

-- `[^\s@]`
unfoldable pub is_plain : ℕ → Bool
unfolding is_space
is_plain c = not (is_space c) && not (c == b'@')

-- `[^\s@]+\.[^\s@]+` to the end, from a place after its first character or before it
unfoldable pub is_domain_from : Bool → Text → Bool
unfolding is_plain
is_domain_from begun [] = false
is_domain_from begun (c ∷ []) = false
is_domain_from begun (c ∷ d ∷ s) =
    let rest = is_domain_from true (d ∷ s) in
    let all_plain = not (any (λ e. not (is_plain e)) (d ∷ s)) in
    is_plain c && ((begun && (c == b'.') && all_plain) || rest)

-- `[^\s@]+@` and then the domain
unfoldable pub is_address_from : Bool → Text → Bool
unfolding is_plain is_domain_from
is_address_from begun [] = false
is_address_from begun (c ∷ s) =
    let rest = is_address_from true s in
    if c == b'@' then begun && is_domain_from false s else is_plain c && rest

unfoldable pub is_email : Text → Bool
unfolding is_address_from
is_email s = is_address_from false s
