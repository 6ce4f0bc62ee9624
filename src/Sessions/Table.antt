-- ===== src/Sessions/Table.antt =====
-- How the table of refresh tokens may change.
use api_padrao.Prelude.{
  ℕ, String, ◌≡◌, refl, Bool, false, List, ◌∷◌, arith, any, find, update_where, find-update_where,
  find-holds, any-find, string_eq, eq_iff, if◌then◌else◌,
}
use api_padrao.Database.{RefreshToken}
use api_padrao.Auth.{clashes, by_hash, revoke_at}
use api_padrao.Auth.Refresh.{SpentIn}

-- rows are added that clash with none, and rows are revoked; none is dropped and none comes back
pub data Evolves (a : List RefreshToken) : List RefreshToken → Type 0 where
  unchanged : {b : List RefreshToken} → b ≡ a → Evolves a b
  issued :
      {b c : List RefreshToken} (row : RefreshToken)
      → Evolves a b
      → any (clashes row) b ≡ false
      → c ≡ row ∷ b
      → Evolves a c
  revoked :
      {b c : List RefreshToken} (p : RefreshToken → Bool) (now : ℕ)
      → Evolves a b
      → c ≡ update_where p (revoke_at now) b
      → Evolves a c

pub spent-issued :
    (h : String) (row : RefreshToken) (rows : List RefreshToken)
    → SpentIn h rows
    → any (clashes row) rows ≡ false
    → SpentIn h (row ∷ rows)
unfolding find
spent-issued h row rows s fresh =
    let apart = any-find (clashes row) (by_hash h) rows fresh s.found in
    let hash = find-holds (by_hash h) rows s.found in
    record {
      row = s.row;
      found = ground (
        arith,
        s.found,
        eq_iff row.token_hash h,
        eq_iff s.row.token_hash h,
        eq_iff s.row.token_hash row.token_hash,
      );
      revoked = s.revoked;
    }

spent-revoked :
    (h : String) (p : RefreshToken → Bool) (now : ℕ) (rows : List RefreshToken)
    → SpentIn h rows
    → SpentIn h (update_where p (revoke_at now) rows)
spent-revoked h p now rows s = record {
  row = if p s.row then revoke_at now s.row else s.row;
  found = ground (arith, s.found, find-update_where (by_hash h) p (revoke_at now) rows (λ t. refl));
  revoked = ground (arith, s.revoked);
}

-- A spent token stays spent.
pub evolves-SpentIn :
    {h : String} {a b : List RefreshToken} → SpentIn h a → Evolves a b → SpentIn h b
evolves-SpentIn s (unchanged e) = rw e s
evolves-SpentIn s (issued row before fresh e) =
    rw e (spent-issued _ row _ (evolves-SpentIn s before) fresh)
evolves-SpentIn s (revoked p now before e) =
    rw e (spent-revoked _ p now _ (evolves-SpentIn s before))
