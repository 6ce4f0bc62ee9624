-- ===== src/Tests/Entidades.antt =====
-- The domain entities.
use api_padrao.Prelude.{
  ℕ, String, Text, Bool, true, false, Option, none, some, List, [], ◌∷◌, ◌≡◌, refl, codes, map, leb,
  ◌-◌, ◌&&◌, if◌then◌else◌,
}
use api_padrao.Entities.Trim.{trim, is_codigo}
use api_padrao.Entities.Base.{done, thrown, codigo_invalido, plano_invalido}
use api_padrao.Entities.Empresa.{
  Empresa, IsValid, Props, Call, desativa, restaura, troca, transfere, enterprise, nova, criar,
  trocar_plano, call_all,
}
use api_padrao.Entities.Empresa.Valid.{call_all-criar}
use api_padrao.Entities.Permissao.{criar as criar_permissao}

-- on the letters of ASCII
abbrev upper_char : ℕ → ℕ
upper_char c = if leb b'a' c && leb c b'z' then c - 32 else c

abbrev upper : Text → Text
upper s = map upper_char s

trim_both : trim (codes "  a b ") ≡ codes "a b"
unfolding trim
trim_both = refl

codigo_too_short : is_codigo (codes "A") ≡ false
unfolding is_codigo
codigo_too_short = refl

permissao_bad_codigo :
    criar_permissao upper (record { nome = codes "Ler"; codigo = codes "le-r"; descricao = none })
    ≡ thrown codigo_invalido
unfolding criar_permissao
permissao_bad_codigo = refl

abbrev acme_props : Props
acme_props = record {
  nome = codes " Acme ";
  responsavel_id = some 1;
  plano = some (codes "free");
  descricao = none;
  id = none;
}

abbrev acme : Empresa
unfolding nova
acme = nova 5 "e1" (codes "FREE") 1 acme_props

acme_made : criar upper 5 "e1" acme_props ≡ done acme
unfolding criar acme api_padrao.Prelude.text_beq
acme_made = refl

-- a name that every object inherits is taken as a plan
inherited_plan :
    trocar_plano 6 (codes "toString") acme
    ≡ done (record acme { plano = codes "toString"; updated_at = 6 })
unfolding trocar_plano api_padrao.Prelude.text_beq
inherited_plan = refl

unknown_plan : trocar_plano 6 (codes "GOLD") acme ≡ thrown plano_invalido
unfolding trocar_plano api_padrao.Prelude.text_beq
unknown_plan = refl

abbrev calls : List Call
calls = restaura 6 ∷ desativa 7 ∷ transfere 8 (some 1) ∷ troca 9 enterprise ∷ []

empresa_calls : (call_all calls acme).plano ≡ codes "ENTERPRISE"
unfolding call_all api_padrao.Prelude.text_beq
empresa_calls = refl

call_all-criar_example : IsValid "e1" (call_all calls acme)
unfolding acme
call_all-criar_example = call_all-criar upper 5 "e1" acme_props calls acme acme_made
