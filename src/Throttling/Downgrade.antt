-- ===== src/Throttling/Downgrade.antt =====
-- For how long a company that was deactivated keeps the limits of its plan.
use api_padrao.Prelude.{
  ℕ, ◌+◌, ◌≤◌, String, ◌≡◌, ap, ◌∙◌, Bool, true, false, not, ◌||◌, Option, none, some, List, [],
  ◌∷◌, All, arith, find, ◌==◌, string_eq, eq_iff, Bool-cases, inl, inr,
}
use api_padrao.Cache.{Stored}
use api_padrao.Usuarios.Repository.{is_none}
use api_padrao.Throttling.Limits.{default_plano, plano_ttl_ms}
use api_padrao.Throttling.Planos.{EmpresaRow, Tenants, Moment, is_row, get_plano_by_empresa_id}

abbrev pub Lookup : Type 0
Lookup = Moment × String

abbrev pub EndsBy : ℕ → Option (Stored String) → Type 0
EndsBy limit none = Unit
EndsBy limit (some s) = s.expires ≤ limit

abbrev pub IsBefore : ℕ → Lookup → Type 0
IsBefore last (at, _) = at.now ≤ last

abbrev pub is_inactive : Option EmpresaRow → Bool
is_inactive none = true
is_inactive (some e) = not e.ativo || not (is_none e.deleted_at)

-- no active company has this id
abbrev pub IsGone : String → List EmpresaRow → Type 0
IsGone id empresas = is_inactive (find (is_row false id) empresas) ≡ true

unfoldable pub look_up_all : List Lookup → Tenants → Tenants
unfolding get_plano_by_empresa_id
look_up_all [] t = t
look_up_all ((at, id) ∷ more) t = look_up_all more (get_plano_by_empresa_id false at id t).1

look_up-empresas :
    (at : Moment) (id : String) (t : Tenants)
    → (get_plano_by_empresa_id false at id t).1.empresas ≡ t.empresas
unfolding get_plano_by_empresa_id
look_up-empresas at id t = ground arith

look_up-early :
    (id : String) (last : ℕ) (at : Moment) (other : String) (t : Tenants)
    → at.now ≤ last
    → EndsBy (last + plano_ttl_ms) (t.planos id)
    → EndsBy (last + plano_ttl_ms) ((get_plano_by_empresa_id false at other t).1.planos id)
unfolding get_plano_by_empresa_id
look_up-early id last at other t early h = ground arith

look_up-gone :
    (id : String) (limit : ℕ) (at : Moment) (other : String) (t : Tenants)
    → IsGone id t.empresas
    → EndsBy limit (t.planos id)
    → EndsBy limit ((get_plano_by_empresa_id false at other t).1.planos id)
unfolding get_plano_by_empresa_id
look_up-gone id limit at other t gone h = elim (Bool-cases (other == id)) [
  | inl same ↦
      let row = ap (λ (k : String). find (is_row false k) t.empresas) ((eq_iff other id).0 same) in
      ground arith
  | inr different ↦ ground arith
]

defaulted :
    (id : String) (limit : ℕ) (at : Moment) (t : Tenants)
    → IsGone id t.empresas
    → EndsBy limit (t.planos id)
    → limit ≤ at.now
    → at.outage.prisma ≡ false
    → (get_plano_by_empresa_id false at id t).0 ≡ some default_plano
unfolding get_plano_by_empresa_id
defaulted id limit at t gone h late up = ground arith

early_look_ups :
    (id : String) (last : ℕ) (calls : List Lookup) (t : Tenants)
    → All (IsBefore last) calls
    → EndsBy (last + plano_ttl_ms) (t.planos id)
    → EndsBy (last + plano_ttl_ms) ((look_up_all calls t).planos id)
unfolding look_up_all
early_look_ups id last [] t early h = h
early_look_ups id last ((at, other) ∷ more) t (now, early) h =
    early_look_ups id last more (get_plano_by_empresa_id false at other t).1 early
      (look_up-early id last at other t now h)

later_look_ups :
    (id : String) (limit : ℕ) (calls : List Lookup) (t : Tenants)
    → IsGone id t.empresas
    → EndsBy limit (t.planos id)
    → EndsBy limit ((look_up_all calls t).planos id) × IsGone id (look_up_all calls t).empresas
unfolding look_up_all
later_look_ups id limit [] t gone h = (h, gone)
later_look_ups id limit ((at, other) ∷ more) t gone h =
    later_look_ups id limit more (get_plano_by_empresa_id false at other t).1
      (ap (λ (es : List EmpresaRow). is_inactive (find (is_row false id) es))
          (look_up-empresas at other t)
        ∙ gone)
      (look_up-gone id limit at other t gone h)

-- From 60 seconds after a company was deactivated or deleted on its plan is FREE, whatever plans were
-- looked up up to the time `last` of that change and after it. (Nothing is cached for it before the
-- first of them, and the database answers the last one.)
pub downgraded_within_a_minute :
    (id : String) (last : ℕ) (before after : List Lookup) (at : Moment) (t : Tenants)
    (changed : List EmpresaRow)
    → t.planos id ≡ none
    → All (IsBefore last) before
    → IsGone id changed
    → last + plano_ttl_ms ≤ at.now
    → at.outage.prisma ≡ false
    → (get_plano_by_empresa_id false at id
        (look_up_all after (record (look_up_all before t) { empresas = changed }))).0
      ≡ some default_plano
downgraded_within_a_minute id last before after at t changed empty early gone late up =
    let ends = early_look_ups id last before t early (ground arith) in
    let (still, removed) =
      later_look_ups id (last + plano_ttl_ms) after
        (record (look_up_all before t) { empresas = changed }) gone ends in
    defaulted id (last + plano_ttl_ms) at
      (look_up_all after (record (look_up_all before t) { empresas = changed })) removed still late
      up
