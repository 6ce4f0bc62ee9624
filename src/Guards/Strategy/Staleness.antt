-- ===== src/Guards/Strategy/Staleness.antt =====
-- For how long a token of a removed user is still accepted.
use api_padrao.Prelude.{
  ℕ, ◌+◌, ◌≤◌, ◌≡◌, ap, ◌∙◌, Bool, true, false, Option, none, some, List, [], ◌∷◌, arith, All,
}
use api_padrao.Payload.{JwtPayload}
use api_padrao.Http.{unauthorized, usuario_inativo, err}
use api_padrao.Database.{Database}
use api_padrao.Cache.{Stored}
use api_padrao.World.{World, Request}
use api_padrao.Guards.Strategy.{user_validity_ttl_ms, is_valid_in, validate}

abbrev pub Call : Type 0
Call = Request × JwtPayload

unfoldable pub validate_all : List Call → World → World
unfolding validate
validate_all [] w = w
validate_all ((req, payload) ∷ more) w = validate_all more (validate req payload w).1

-- An entry that says `valid` does not outlive `limit`.
abbrev pub EndsBy : ℕ → Option (Stored Bool) → Type 0
EndsBy limit none = Unit
EndsBy limit (some s) = s.value ≡ true → s.expires ≤ limit

-- a validation at or before `last`
abbrev pub IsBefore : ℕ → Call → Type 0
IsBefore last (req, payload) = req.now ≤ last

validate-db :
    (req : Request) (payload : JwtPayload) (w : World) → (validate req payload w).1.db ≡ w.db
unfolding validate
validate-db req payload w = ground arith

-- An early validation leaves an entry that ends in time.
validate-early :
    (id last : ℕ) (req : Request) (payload : JwtPayload) (w : World)
    → req.now ≤ last
    → EndsBy (last + user_validity_ttl_ms) (w.validity id)
    → EndsBy (last + user_validity_ttl_ms) ((validate req payload w).1.validity id)
unfolding validate
validate-early id last req payload w early h = ground arith

-- So does one of a user that is not valid, at any time.
validate-removed :
    (id limit : ℕ) (req : Request) (payload : JwtPayload) (w : World)
    → is_valid_in id w.db ≡ false
    → EndsBy limit (w.validity id)
    → EndsBy limit ((validate req payload w).1.validity id)
unfolding validate
validate-removed id limit req payload w removed h = ground arith

refused :
    (id limit : ℕ) (req : Request) (payload : JwtPayload) (w : World)
    → is_valid_in id w.db ≡ false
    → EndsBy limit (w.validity id)
    → payload.sub ≡ some id
    → limit ≤ req.now
    → (validate req payload w).0 ≡ err (unauthorized usuario_inativo)
unfolding validate
refused id limit req payload w removed h sub late = ground arith

early_calls :
    (id last : ℕ) (calls : List Call) (w : World)
    → All (IsBefore last) calls
    → EndsBy (last + user_validity_ttl_ms) (w.validity id)
    → EndsBy (last + user_validity_ttl_ms) ((validate_all calls w).validity id)
unfolding validate_all
early_calls id last [] w early h = h
early_calls id last ((req, payload) ∷ more) w (now, early) h =
    early_calls id last more (validate req payload w).1 early
      (validate-early id last req payload w now h)

later_calls :
    (id limit : ℕ) (calls : List Call) (w : World)
    → is_valid_in id w.db ≡ false
    → EndsBy limit (w.validity id)
    → EndsBy limit ((validate_all calls w).validity id)
      × (is_valid_in id (validate_all calls w).db ≡ false)
unfolding validate_all
later_calls id limit [] w removed h = (h, removed)
later_calls id limit ((req, payload) ∷ more) w removed h =
    later_calls id limit more (validate req payload w).1
      (ap (is_valid_in id) (validate-db req payload w) ∙ removed)
      (validate-removed id limit req payload w removed h)

-- A token stays accepted for at most 60 seconds after its user was deactivated or deleted: whatever
-- tokens were validated up to the time `last` at which the user was changed, and whatever tokens are
-- validated after it, from 60 seconds after `last` on a token of the user is refused. (Nothing is
-- cached for the user before the first validation.)
pub removed_within_a_minute :
    (id last : ℕ) (before after : List Call) (req : Request) (payload : JwtPayload) (w : World)
    (changed : Database)
    → w.validity id ≡ none
    → All (IsBefore last) before
    → is_valid_in id changed ≡ false
    → payload.sub ≡ some id
    → last + user_validity_ttl_ms ≤ req.now
    → (validate req payload
        (validate_all after (record (validate_all before w) { db = changed }))).0
      ≡ err (unauthorized usuario_inativo)
removed_within_a_minute id last before after req payload w changed empty early removed sub late =
    let limit = last + user_validity_ttl_ms in
    let ends = early_calls id last before w early (ground arith) in
    let (still, gone) =
      later_calls id limit after (record (validate_all before w) { db = changed }) removed ends in
    refused id limit req payload _ gone still sub late
