-- ===== src/Base/Tables.antt =====
-- A table of the database is the list of its rows, oldest first. The queries of the Prisma
-- client that the services make, with the `where` clause as a test on a row.
use Prim.Native.Nat.{ℕ, suc, ◌+◌, ◌≤◌}
use mathlib.Core.Path.{◌≡◌, refl}
use mathlib.Core.Bool.{Bool, true, false}
use mathlib.Core.Option.{Option, none, some}
use mathlib.Core.List.{List, [], ◌∷◌, ◌++◌}
use native.Mathlib.Omega.{arith}
use servicehub_backend.Base.Tests.{if◌then◌else◌}
use servicehub_backend.Base.Lists.{length, All}

module _ {ℓ} {A : Type ℓ} where
  -- `findFirst` and `findUnique`
  abbrev pub find : (A → Bool) → List A → Option A
  find p [] = none
  find p (x ∷ xs) = if p x then some x else find p xs

  -- `findMany`
  abbrev pub select : (A → Bool) → List A → List A
  select p [] = []
  select p (x ∷ xs) = let rest = select p xs in if p x then x ∷ rest else rest

  -- `count`
  abbrev pub count : (A → Bool) → List A → ℕ
  count p [] = 0
  count p (x ∷ xs) = let rest = count p xs in if p x then suc rest else rest

  -- `updateMany`, and `update` by a unique key
  abbrev pub update : (A → Bool) → (A → A) → List A → List A
  update p f [] = []
  update p f (x ∷ xs) = (if p x then f x else x) ∷ update p f xs

  -- `deleteMany`, and `delete` by a unique key
  abbrev pub delete : (A → Bool) → List A → List A
  delete p [] = []
  delete p (x ∷ xs) = let rest = delete p xs in if p x then rest else x ∷ rest

  -- `create`
  abbrev pub insert : A → List A → List A
  insert a xs = xs ++ a ∷ []

  pub count-update_same :
      (q p : A → Bool) (f : A → A) (xs : List A)
      → ((a : A) → q (f a) ≡ q a)
      → count q (update p f xs) ≡ count q xs
  count-update_same q p f [] h = refl
  count-update_same q p f (x ∷ xs) h = ground (arith, h x, count-update_same q p f xs h)

  pub count-update-le :
      (q p : A → Bool) (f : A → A) (xs : List A)
      → ((a : A) → q (f a) ≡ true → q a ≡ true)
      → count q (update p f xs) ≤ count q xs
  count-update-le q p f [] h = omega arith
  count-update-le q p f (x ∷ xs) h = ground (arith, h x, count-update-le q p f xs h)

  pub length-select : (p : A → Bool) (xs : List A) → length (select p xs) ≡ count p xs
  length-select p [] = refl
  length-select p (x ∷ xs) = ground (arith, length-select p xs)

  pub count-All : (p : A → Bool) (xs : List A) → count p xs ≡ 0 → All (λ x. p x ≡ false) xs
  count-All p [] h = tt
  count-All p (x ∷ xs) h = (ground arith, count-All p xs (ground arith))

  pub count-insert :
      (q : A → Bool) (a : A) (xs : List A)
      → count q (insert a xs) ≡ count q xs + (if q a then 1 else 0)
  count-insert q a [] = ground arith
  count-insert q a (x ∷ xs) = ground (arith, count-insert q a xs)

  pub count-delete-le : (q p : A → Bool) (xs : List A) → count q (delete p xs) ≤ count q xs
  count-delete-le q p [] = omega arith
  count-delete-le q p (x ∷ xs) = ground (arith, count-delete-le q p xs)

  pub find-holds : (p : A → Bool) (xs : List A) (a : A) → find p xs ≡ some a → p a ≡ true
  find-holds p [] a h = cc
  find-holds p (x ∷ xs) a h = ground (arith, find-holds p xs a)

  pub find-none-count : (p : A → Bool) (xs : List A) → find p xs ≡ none → count p xs ≡ 0
  find-none-count p [] h = refl
  find-none-count p (x ∷ xs) h = ground (arith, find-none-count p xs)

  pub count-zero-find : (p : A → Bool) (xs : List A) → count p xs ≡ 0 → find p xs ≡ none
  count-zero-find p [] h = refl
  count-zero-find p (x ∷ xs) h = ground (arith, count-zero-find p xs)

  -- A row that the update maps onto itself under the query is found as it was.
  pub find-update_other :
      (q p : A → Bool) (f : A → A) (xs : List A)
      → ((a : A) → q (f a) ≡ q a)
      → ((a : A) → p a ≡ true → q a ≡ false)
      → find q (update p f xs) ≡ find q xs
  find-update_other q p f [] h k = refl
  find-update_other q p f (x ∷ xs) h k = ground (arith, h x, k x, find-update_other q p f xs h k)

  -- The row that the query finds is the updated one.
  pub find-update_hit :
      (q p : A → Bool) (f : A → A) (xs : List A) (a : A)
      → ((x : A) → q (f x) ≡ q x)
      → find q xs ≡ some a
      → p a ≡ true
      → find q (update p f xs) ≡ some (f a)
  find-update_hit q p f [] a h e k = cc
  find-update_hit q p f (x ∷ xs) a h e k = ground (arith, h x, find-update_hit q p f xs a h)

  -- A row that a query finds counts for every test that holds of it.
  pub find-count :
      (q p : A → Bool) (xs : List A) (a : A) → find q xs ≡ some a → p a ≡ true → 1 ≤ count p xs
  find-count q p [] a e k = cc
  find-count q p (x ∷ xs) a e k = ground (arith, find-count q p xs a)

  -- Two queries, one of which the updated rows never meet.
  pub count-update_none :
      (q p : A → Bool) (f : A → A) (xs : List A)
      → ((a : A) → p a ≡ true → q (f a) ≡ false)
      → ((a : A) → q a ≡ true → p a ≡ true)
      → count q (update p f xs) ≡ 0
  count-update_none q p f [] h k = refl
  count-update_none q p f (x ∷ xs) h k = ground (arith, h x, k x, count-update_none q p f xs h k)

  -- An update that may add rows to a query changes nothing where it does not apply.
  pub count-update_apart :
      (q p : A → Bool) (f : A → A) (xs : List A)
      → ((a : A) → p a ≡ true → q a ≡ false)
      → ((a : A) → p a ≡ true → q (f a) ≡ false)
      → count q (update p f xs) ≡ count q xs
  count-update_apart q p f [] h k = refl
  count-update_apart q p f (x ∷ xs) h k = ground (arith, h x, k x, count-update_apart q p f xs h k)

  pub update-none : (p : A → Bool) (f : A → A) (xs : List A) → count p xs ≡ 0 → update p f xs ≡ xs
  update-none p f [] h = refl
  update-none p f (x ∷ xs) h = ground (arith, update-none p f xs)

  -- An update of the one row that a query finds.
  pub count-update_one :
      (q p : A → Bool) (f : A → A) (xs : List A) (a : A)
      → count p xs ≤ 1
      → find p xs ≡ some a
      → count q (update p f xs) + (if q a then 1 else 0) ≡ count q xs + (if q (f a) then 1 else 0)
  count-update_one q p f [] a h e = cc
  count-update_one q p f (x ∷ xs) a h e =
      ground (arith, update-none p f xs, count-update_one q p f xs a)

  -- A narrower query of which the first row of a wider one is a hit finds the same row.
  pub find-narrow :
      (q p : A → Bool) (xs : List A) (a : A)
      → ((x : A) → q x ≡ true → p x ≡ true)
      → find p xs ≡ some a
      → q a ≡ true
      → find q xs ≡ some a
  find-narrow q p [] a h e k = cc
  find-narrow q p (x ∷ xs) a h e k = ground (arith, h x, find-narrow q p xs a h)

  pub count-narrow :
      (q p : A → Bool) (xs : List A) → ((x : A) → q x ≡ true → p x ≡ true) → count q xs ≤ count p xs
  count-narrow q p [] h = omega arith
  count-narrow q p (x ∷ xs) h = ground (arith, h x, count-narrow q p xs h)

  pub find-update-none :
      (q p : A → Bool) (f : A → A) (xs : List A)
      → ((a : A) → q (f a) ≡ q a)
      → find q xs ≡ none
      → find q (update p f xs) ≡ none
  find-update-none q p f [] h e = refl
  find-update-none q p f (x ∷ xs) h e = ground (arith, h x, find-update-none q p f xs h)

  pub find-insert_new :
      (q : A → Bool) (a : A) (xs : List A)
      → find q xs ≡ none
      → q a ≡ true
      → find q (insert a xs) ≡ some a
  find-insert_new q a [] h e = ground (arith, e)
  find-insert_new q a (x ∷ xs) h e = ground (arith, find-insert_new q a xs)
