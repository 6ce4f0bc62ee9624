-- ===== src/Empresas/Table.antt =====
-- The table UsuarioEmpresa as a map from pairs of a user and a company to profiles, under the
-- `upsert` of src/empresas/infrastructure/repositories/prisma-empresa.repository.ts.
use api_padrao.Prelude.{
  ℕ, ◌≤◌, String, Bool, true, false, ◌&&◌, Option, some, List, [], ◌∷◌, ◌++◌, ◌≡◌, refl, sym, arith,
  any, find, update_where, count_where, ◌==◌, nat_eq, string_eq, eq_iff, inl, inr, Bool-cases,
  if◌then◌else◌, count_where-append_one, count_where-any, count_where-update_where_same,
}
use mathlib.Core.Option
use api_padrao.Cadastro.{UsuarioEmpresaRow}
use api_padrao.Empresas.Memberships.{is_membership, set_perfis, upsert}

unfoldable pub perfis_of : ℕ → String → List UsuarioEmpresaRow → Option (List ℕ)
unfolding find
perfis_of u f rows =
    Option.map (λ (v : UsuarioEmpresaRow). v.perfis) (find (is_membership u f) rows)

abbrev pub is_pair : ℕ → String → ℕ → String → Bool
is_pair u f usuario_id empresa_id = usuario_id == u && empresa_id == f

abbrev entry : ℕ → String → List ℕ → UsuarioEmpresaRow
entry u f ids = record { usuario_id = u; empresa_id = f; perfis = ids }

is_pair_ext : (u v : ℕ) (f g : String) → is_pair u f v g ≡ true → (v ≡ u) × (g ≡ f)
is_pair_ext u v f g h = ground (arith, eq_iff g f)

module _ (u : ℕ) (f : String) (ids : List ℕ) where
  own-update :
      (rows : List UsuarioEmpresaRow)
      → any (is_membership u f) rows ≡ true
      → perfis_of u f (update_where (is_membership u f) (set_perfis ids) rows) ≡ some ids
  unfolding perfis_of any update_where
  own-update [] h = cc
  own-update (r ∷ rs) h = ground (arith, own-update rs)

  own-append :
      (rows : List UsuarioEmpresaRow)
      → any (is_membership u f) rows ≡ false
      → perfis_of u f (rows ++ entry u f ids ∷ []) ≡ some ids
  unfolding perfis_of any
  own-append [] h = ground (arith, eq_iff f f)
  own-append (r ∷ rs) h = ground (arith, own-append rs)

  own-upsert : (rows : List UsuarioEmpresaRow) → perfis_of u f (upsert u f ids rows) ≡ some ids
  unfolding upsert
  own-upsert rows = elim (Bool-cases (any (is_membership u f) rows)) [
    | inl there ↦ rw there (own-update rows there)
    | inr new ↦ rw new (own-append rows new)
  ]

  module _ (v : ℕ) (g : String) (other : is_pair v g u f ≡ false) where
    other-update :
        (rows : List UsuarioEmpresaRow)
        → perfis_of v g (update_where (is_membership u f) (set_perfis ids) rows)
          ≡ perfis_of v g rows
    unfolding perfis_of update_where
    other-update [] = refl
    other-update (r ∷ rs) =
        ground (arith, other-update rs, eq_iff r.empresa_id f, eq_iff r.empresa_id g, eq_iff f g)

    other-append :
        (rows : List UsuarioEmpresaRow)
        → perfis_of v g (rows ++ entry u f ids ∷ []) ≡ perfis_of v g rows
    unfolding perfis_of
    other-append [] = ground (arith, other)
    other-append (r ∷ rs) = ground (arith, other-append rs)

    other-upsert :
        (rows : List UsuarioEmpresaRow) → perfis_of v g (upsert u f ids rows) ≡ perfis_of v g rows
    unfolding upsert
    other-upsert rows = elim (Bool-cases (any (is_membership u f) rows)) [
      | inl there ↦ rw there (other-update rows)
      | inr new ↦ rw new (other-append rows)
    ]

-- an `upsert` is an insertion in the map
pub perfis_of-upsert :
    (u v : ℕ) (f g : String) (ids : List ℕ) (rows : List UsuarioEmpresaRow)
    → perfis_of v g (upsert u f ids rows)
      ≡ (if is_pair v g u f then some ids else perfis_of v g rows)
perfis_of-upsert u v f g ids rows = elim (Bool-cases (is_pair v g u f)) [
  | inr other ↦ rw other (other-upsert u f ids v g other rows)
  | inl own ↦
      let (same_user, same_company) = is_pair_ext v u g f own in
      rw own (rw (sym same_user, sym same_company) (own-upsert u f ids rows))
]

append-count :
    (u v : ℕ) (f g : String) (ids : List ℕ) (rows : List UsuarioEmpresaRow)
    → any (is_membership u f) rows ≡ false
    → count_where (is_membership v g) rows ≤ 1
    → count_where (is_membership v g) (rows ++ entry u f ids ∷ []) ≤ 1
append-count u v f g ids rows new h = elim (Bool-cases (is_pair v g u f)) [
  | inr other ↦ ground (arith, count_where-append_one (is_membership v g) rows (entry u f ids))
  | inl own ↦
      let (same_user, same_company) = is_pair_ext v u g f own in
      let none_yet : count_where (is_membership v g) rows ≡ 0 =
        rw (same_user, same_company) at (count_where-any (is_membership u f) rows new) in
      ground (arith, count_where-append_one (is_membership v g) rows (entry u f ids))
]

-- no pair gets a second row
pub upsert-count :
    (u v : ℕ) (f g : String) (ids : List ℕ) (rows : List UsuarioEmpresaRow)
    → count_where (is_membership v g) rows ≤ 1
    → count_where (is_membership v g) (upsert u f ids rows) ≤ 1
unfolding upsert
upsert-count u v f g ids rows h = elim (Bool-cases (any (is_membership u f) rows)) [
  | inr new ↦ rw new (append-count u v f g ids rows new h)
  | inl there ↦ rw there (
      rw
        (count_where-update_where_same (is_membership v g) (is_membership u f) (set_perfis ids) rows
          (λ r. refl))
        h)
]
