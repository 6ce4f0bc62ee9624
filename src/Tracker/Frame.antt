-- ===== src/Tracker/Frame.antt =====
-- What the tracker and the profiles cache leave alone.
use api_padrao.Prelude.{◌≡◌, arith, Text}
use api_padrao.Database.{Database}
use api_padrao.World.{World, Request}
use api_padrao.Tracker.{after_failure, after_success}

-- a database but for the log of login attempts
pub record SameTables (a b : Database) : Type 0 where
  pub usuarios : a.usuarios ≡ b.usuarios
  pub vinculos : a.vinculos ≡ b.vinculos
  pub refresh_tokens : a.refresh_tokens ≡ b.refresh_tokens
  pub reset_tokens : a.reset_tokens ≡ b.reset_tokens

pub after_failure-SameTables :
    (req : Request) (email : Text) (w : World) → SameTables (after_failure req email w).db w.db
unfolding after_failure
after_failure-SameTables req email w = ground arith

pub after_success-SameTables :
    (req : Request) (email : Text) (w : World) → SameTables (after_success req email w).db w.db
unfolding after_success
after_success-SameTables req email w = ground arith

pub after_failure-profiles :
    (req : Request) (email : Text) (w : World) → (after_failure req email w).profiles ≡ w.profiles
unfolding after_failure
after_failure-profiles req email w = ground arith

pub after_success-profiles :
    (req : Request) (email : Text) (w : World) → (after_success req email w).profiles ≡ w.profiles
unfolding after_success
after_success-profiles req email w = ground arith
