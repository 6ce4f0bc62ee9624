-- ===== src/Prelude/Tables.antt =====
-- Tables as lists of rows: what an insert at the end and a write to some rows keep.
use Prim.Native.Nat.{suc, ◌+◌, ◌≤◌}
use mathlib.Core.Path.{◌≡◌, refl, sym, ap}
use mathlib.Core.Logic.{inl, inr}
use mathlib.Core.Bool.{Bool, true, false, ◌||◌, ◌&&◌}
use mathlib.Core.List.{List, [], ◌∷◌, ◌++◌, map}
use mathlib.Core.Option.{none, some}
use native.Mathlib.Omega.{arith}
use api_padrao.Prelude.Tests.{if◌then◌else◌, StrictEq, ◌==◌, Bool-cases}
use api_padrao.Prelude.Lists.{length, any, find, count_where, select_where, update_where, All}

-- `Array.prototype.includes`, and `in` of a query
unfoldable pub includes : {K : Type 0} ⦃same : StrictEq K⦄ → K → List K → Bool
unfolding any
includes k keys = any (λ j. j == k) keys

pub All-update_where :
    {A : Type 0} (P : A → Type 0) (q : A → Bool) (f : A → A) (xs : List A)
    → ((x : A) → P x → P (f x))
    → All P xs
    → All P (update_where q f xs)
unfolding update_where
All-update_where P q f [] keeps h = tt
All-update_where P q f (x ∷ xs) keeps h =
    (ground (arith, keeps x h.0), All-update_where P q f xs keeps h.1)

pub update_where-none :
    {A : Type 0} (p : A → Bool) (f : A → A) (xs : List A)
    → count_where p xs ≡ 0
    → update_where p f xs ≡ xs
unfolding count_where update_where
update_where-none p f [] n = refl
update_where-none p f (x ∷ xs) n = ground (arith, update_where-none p f xs)

-- a write to the one row that a query finds
pub All-update_found :
    {A : Type 0} (P : A → Type 0) (p : A → Bool) (f : A → A) (xs : List A) {e : A}
    → find p xs ≡ some e
    → count_where p xs ≤ 1
    → P (f e)
    → All P xs
    → All P (update_where p f xs)
unfolding find count_where update_where
All-update_found P p f [] e n w h = tt
All-update_found P p f (x ∷ xs) {e} found n w h = elim (Bool-cases (p x)) [
  | inl here ↦
      let same : x ≡ e = ground arith in
      let others : update_where p f xs ≡ xs = update_where-none p f xs (ground arith) in
      rw (here, others, same) (w, h.1)
  | inr other ↦
      rw other ((h.0, All-update_found P p f xs {e = e} (rw other at found) (rw other at n) w h.1))
]

-- such a write adds at most the row that it writes to those that another query counts
pub count_where-update_found :
    {A : Type 0} (p q : A → Bool) (f : A → A) (xs : List A) {e : A}
    → find q xs ≡ some e
    → count_where q xs ≤ 1
    → count_where p (update_where q f xs) ≤ count_where p xs + (if p (f e) then 1 else 0)
unfolding find count_where update_where
count_where-update_found p q f [] found n = cc
count_where-update_found p q f (x ∷ xs) {e} found n = elim (Bool-cases (q x)) [
  | inl here ↦
      let same : x ≡ e = cc (rw here at found) in
      let others : update_where q f xs ≡ xs = update_where-none q f xs (ground arith) in
      rw (here, others, sym same) (ground arith)
  | inr other ↦
      let rest = count_where-update_found p q f xs {e = e} (rw other at found) (rw other at n) in
      rw other (ground (arith, rest))
]

pub All-append_one :
    {A : Type 0} (P : A → Type 0) (xs : List A) (x : A) → All P xs → P x → All P (xs ++ x ∷ [])
All-append_one P [] x h p = (p, tt)
All-append_one P (y ∷ ys) x h p = (h.0, All-append_one P ys x h.1 p)

module _ {A : Type 0} (p : A → Bool) where
  pub count_where-append_one :
      (xs : List A) (x : A)
      → count_where p (xs ++ x ∷ []) ≡ (if p x then 1 else 0) + count_where p xs
  unfolding count_where
  count_where-append_one [] x = ground arith
  count_where-append_one (y ∷ ys) x = ground (arith, count_where-append_one ys x)

  pub count_where-update_where_same :
      (q : A → Bool) (f : A → A) (xs : List A)
      → ((x : A) → p (f x) ≡ p x)
      → count_where p (update_where q f xs) ≡ count_where p xs
  unfolding count_where update_where
  count_where-update_where_same q f [] h = refl
  count_where-update_where_same q f (x ∷ xs) h =
      ground (arith, h x, count_where-update_where_same q f xs h)

  pub count_where-none : (xs : List A) → All (λ x. p x ≡ false) xs → count_where p xs ≡ 0
  unfolding count_where
  count_where-none [] h = refl
  count_where-none (x ∷ xs) h = ground (arith, h, count_where-none xs h.1)

  pub count_where-any : (xs : List A) → any p xs ≡ false → count_where p xs ≡ 0
  unfolding any count_where
  count_where-any [] h = refl
  count_where-any (x ∷ xs) h = ground (arith, count_where-any xs)

  pub length-select_where : (xs : List A) → length (select_where p xs) ≡ count_where p xs
  unfolding count_where select_where
  length-select_where [] = refl
  length-select_where (x ∷ xs) = ground (arith, length-select_where xs)

  -- a query that finds a row counts one
  pub find-some : (xs : List A) → any p xs ≡ true → (x : A) × (find p xs ≡ some x)
  unfolding any find
  find-some [] h = cc
  find-some (x ∷ xs) h = elim (Bool-cases (p x)) [
    | inl here ↦ (x, ground arith)
    | inr other ↦ let (y, e) = find-some xs (ground arith) in (y, ground arith)
  ]

-- A write to rows that a query does not select, neither before nor after, leaves its answer alone.
pub select-update_where :
    {A : Type 0} (p q : A → Bool) (f : A → A) (xs : List A)
    → ((x : A) → q x ≡ true → p x ≡ false)
    → ((x : A) → q x ≡ true → p (f x) ≡ false)
    → select_where p (update_where q f xs) ≡ select_where p xs
unfolding select_where update_where
select-update_where p q f [] before now = refl
select-update_where p q f (x ∷ xs) before now =
    ground (arith, before x, now x, select-update_where p q f xs before now)

-- a key among those of the rows that a query selects
pub includes-map_select :
    {A K : Type 0} ⦃same : StrictEq K⦄ (k : K) (key : A → K) (p : A → Bool) (xs : List A)
    → includes k (map key (select_where p xs)) ≡ any (λ x. p x && (key x == k)) xs
unfolding includes any select_where
includes-map_select k key p [] = refl
includes-map_select k key p (x ∷ xs) = elim (Bool-cases (p x)) [
  | inl here ↦ rw here (ap (λ b. (key x == k) || b) (includes-map_select k key p xs))
  | inr other ↦ rw other (includes-map_select k key p xs)
]

pub includes-append_one :
    {K : Type 0} ⦃same : StrictEq K⦄ (k j : K) (keys : List K)
    → includes k (keys ++ j ∷ []) ≡ (includes k keys || (j == k))
unfolding includes any
includes-append_one k j [] = ground arith
includes-append_one k j (i ∷ keys) = elim (Bool-cases (i == k)) [
  | inl here ↦ rw here refl
  | inr other ↦ rw other (includes-append_one k j keys)
]

pub find-none : {A : Type 0} (p : A → Bool) (xs : List A) → any p xs ≡ false → find p xs ≡ none
unfolding any find
find-none p [] h = refl
find-none p (x ∷ xs) h = ground (arith, find-none p xs)

-- what implies another test on each row
pub any-imp :
    {A : Type 0} (p q : A → Bool) (xs : List A)
    → ((x : A) → p x ≡ true → q x ≡ true)
    → any p xs ≡ true
    → any q xs ≡ true
unfolding any
any-imp p q [] h e = e
any-imp p q (x ∷ xs) h e = ground (arith, h x, any-imp p q xs h)

-- tests that agree on the keys of a list
pub any-same :
    {K : Type 0} ⦃same : StrictEq K⦄ (p q : K → Bool) (keys : List K)
    → ((k : K) → includes k keys ≡ true → p k ≡ q k)
    → any p keys ≡ any q keys
unfolding any includes
any-same p q [] h = refl
any-same ⦃same⦄ p q (j ∷ keys) h =
    let own : (j == j) ≡ true = (same.decides j j).1 refl in
    let rest : any p keys ≡ any q keys = any-same p q keys (λ k m.
      h k (elim (Bool-cases (j == k)) [ inl here ↦ rw here refl | inr other ↦ rw other m ])) in
    rw (h j (rw own refl), rest) refl

pub length-map : {A B : Type 0} (f : A → B) (xs : List A) → length (map f xs) ≡ length xs
length-map f [] = refl
length-map f (x ∷ xs) = ap suc (length-map f xs)
