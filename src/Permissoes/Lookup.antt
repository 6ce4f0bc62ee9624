-- ===== src/Permissoes/Lookup.antt =====
-- When `findManyByIds` of src/permissoes/application/services/permissoes.service.ts returns.
use api_padrao.Prelude.{
  ℕ, ◌+◌, ◌≤◌, ◌≡◌, refl, ap, Bool, true, false, not, ◌&&◌, List, [], ◌∷◌, arith, any, count_where,
  select_where, includes, length, ltb, length-map, length-select_where, nat_beq_iff, nat_eq,
  if◌then◌else◌,
}
use api_padrao.Http.{Result, ok, err}
use api_padrao.Usuarios.Repository.{is_none}
use api_padrao.Cadastro.{PermissaoRow, Cadastro}
use api_padrao.Permissoes.Repository.{has_id, asked_and_visible}
use api_padrao.Permissoes.Repository
use api_padrao.Permissoes.Service.{find_many_by_ids}
use api_padrao.Permissoes.Consistent.{IsConsistent}

abbrev pub returns : {A : Type 0} → Result A × Cadastro → Bool
returns (ok a, c) = true
returns (err e, c) = false

-- every id is that of a permission that is not deleted
unfoldable pub all_exist : List ℕ → List PermissaoRow → Bool
unfolding any
all_exist [] rows = true
all_exist (i ∷ ids) rows = any (λ r. is_none r.deleted_at && has_id i r) rows && all_exist ids rows

unfoldable pub are_distinct : List ℕ → Bool
unfolding includes
are_distinct [] = true
are_distinct (i ∷ ids) = not (includes i ids) && are_distinct ids

abbrev live_with : ℕ → PermissaoRow → Bool
live_with i r = is_none r.deleted_at && has_id i r

unfoldable total_found : List ℕ → List PermissaoRow → ℕ
unfolding count_where
total_found [] rows = 0
total_found (i ∷ ids) rows = count_where (live_with i) rows + total_found ids rows

-- an id that is not among the others adds the rows that it selects
count-asked :
    (i : ℕ) (ids : List ℕ) (rows : List PermissaoRow)
    → includes i ids ≡ false
    → count_where (asked_and_visible (i ∷ ids)) rows
      ≡ count_where (live_with i) rows + count_where (asked_and_visible ids) rows
unfolding count_where includes any
count-asked i ids [] h = refl
count-asked i ids (r ∷ rs) h = ground (
  arith,
  count-asked i ids rs h,
  nat_beq_iff r.id i,
  nat_beq_iff i r.id,
  λ (e : r.id ≡ i). ap (λ k. includes k ids) e,
)

count-asked_none : (rows : List PermissaoRow) → count_where (asked_and_visible []) rows ≡ 0
unfolding count_where includes any
count-asked_none [] = refl
count-asked_none (r ∷ rs) = ground (arith, count-asked_none rs)

count-total :
    (ids : List ℕ) (rows : List PermissaoRow)
    → are_distinct ids ≡ true
    → count_where (asked_and_visible ids) rows ≡ total_found ids rows
unfolding total_found are_distinct
count-total [] rows h = count-asked_none rows
count-total (i ∷ ids) rows h = ground (arith, count-asked i ids rows, count-total ids rows)

live-count :
    (i : ℕ) (rows : List PermissaoRow)
    → count_where (live_with i) rows ≤ count_where (has_id i) rows
unfolding count_where
live-count i [] = omega arith
live-count i (r ∷ rs) = ground (arith, live-count i rs)

count_any :
    (i : ℕ) (rows : List PermissaoRow)
    → count_where (has_id i) rows ≤ 1
    → (if any (live_with i) rows then 1 else 0) ≡ count_where (live_with i) rows
unfolding any count_where
count_any i [] h = refl
count_any i (r ∷ rs) h =
    ground (arith, (λ (few : count_where (has_id i) rs ≤ 1). count_any i rs few), live-count i rs)

total-exist :
    (ids : List ℕ) (rows : List PermissaoRow)
    → ((i : ℕ) → count_where (has_id i) rows ≤ 1)
    → (total_found ids rows ≤ length ids)
      × (all_exist ids rows ≡ not (ltb (total_found ids rows) (length ids)))
unfolding total_found all_exist
total-exist [] rows h = (omega arith, refl)
total-exist (i ∷ ids) rows h = ground (arith, count_any i rows (h i), total-exist ids rows h)

-- Where every permission has an id of its own that the sequence has given, and is `ativo` exactly when
-- it has no `deletedAt`, a call of `findManyByIds` with distinct ids returns exactly when each of them
-- is the id of a permission that is not deleted, whatever the static cache holds; it raises otherwise.
pub find_many-exact :
    (now : ℕ) (ids : List ℕ) (c : Cadastro)
    → IsConsistent c
    → are_distinct ids ≡ true
    → returns (find_many_by_ids now ids c) ≡ all_exist ids c.permissoes
unfolding find_many_by_ids all_exist Repository.find_many_by_ids
find_many-exact now [] c h d = refl
find_many-exact now (i ∷ ids) c h d = ground (
  arith,
  length-map Repository.without_ativo (select_where (asked_and_visible (i ∷ ids)) c.permissoes),
  length-select_where (asked_and_visible (i ∷ ids)) c.permissoes,
  count-total (i ∷ ids) c.permissoes d,
  total-exist (i ∷ ids) c.permissoes h.ids,
)
