-- ===== src/Common/Tailq.antt =====
-- A tail queue (sys-queue.h) as the list of its elements from the head on: lookups by a test,
-- TAILQ_REMOVE of the element that a lookup gave, TAILQ_LAST, and the move of an element to the
-- head, with their laws.
use Prim.Native.Nat.{ℕ, suc, ◌≤◌, ◌<◌}
use mathlib.Core.Path.{◌≡◌, refl, ap, sym, subst, ◌∙◌}
use mathlib.Core.Logic.{◌≢◌, inl, inr}
use mathlib.Core.Bool.{Bool, true, false}
use mathlib.Core.Option.{Option, none, some}
use mathlib.Core.List.{List, [], ◌∷◌, ◌++◌}
use native.Mathlib.Omega.{arith}
use network_monitoring_emula.Common.Lists.{length}
use network_monitoring_emula.Common.Tests.{
  if◌then◌else◌, ltb, ◌==◌, ==→eq, ==-self, Bool-cases, Option-cases, if_true, if_false,
}

module _ {ℓ} {A : Type ℓ} where
  -- The first element that passes the test.
  abbrev pub find_first : (A → Bool) → List A → Option A
  find_first test [] = none
  find_first test (x ∷ xs) = if test x then some x else find_first test xs

  -- The queue without the first element that passes the test.
  abbrev pub remove_first : (A → Bool) → List A → List A
  remove_first test [] = []
  remove_first test (x ∷ xs) = if test x then xs else x ∷ remove_first test xs

  -- A write through the pointer to the first element that passes the test.
  abbrev pub update_first : (A → Bool) → (A → A) → List A → List A
  update_first test f [] = []
  update_first test f (x ∷ xs) = if test x then f x ∷ xs else x ∷ update_first test f xs

  abbrev pub last : List A → Option A
  last [] = none
  last (x ∷ []) = some x
  last (x ∷ y ∷ ys) = last (y ∷ ys)

  abbrev pub drop_last : List A → List A
  drop_last [] = []
  drop_last (x ∷ []) = []
  drop_last (x ∷ y ∷ ys) = x ∷ drop_last (y ∷ ys)

  -- What is left of a full queue when its last element makes room.
  abbrev pub room : ℕ → List A → List A
  room limit xs = if ltb (length xs) limit then xs else drop_last xs

  -- TAILQ_REMOVE, then TAILQ_INSERT_HEAD, of the element that the lookup gives.
  abbrev pub to_head : (A → Bool) → List A → List A
  to_head test xs = elim (find_first test xs) [ none ↦ xs | some x ↦ x ∷ remove_first test xs ]

  pub last-cons : (x : A) (xs : List A) → (y : A) × (last (x ∷ xs) ≡ some y)
  last-cons x [] = (x, refl)
  last-cons x (y ∷ ys) = last-cons y ys

  pub length-drop_last : (x : A) (xs : List A) → length (drop_last (x ∷ xs)) ≡ length xs
  length-drop_last x [] = refl
  length-drop_last x (y ∷ ys) = ap suc (length-drop_last y ys)

  pub length-remove_first :
      (test : A → Bool) (xs : List A) (x : A)
      → find_first test xs ≡ some x
      → suc (length (remove_first test xs)) ≡ length xs
  length-remove_first test [] x h = cc
  length-remove_first test (y ∷ ys) x h = ground (arith, length-remove_first test ys x)

  pub length-update_first :
      (test : A → Bool) (f : A → A) (xs : List A) → length (update_first test f xs) ≡ length xs
  length-update_first test f [] = refl
  length-update_first test f (y ∷ ys) = ground (arith, length-update_first test f ys)

  pub length-to_head : (test : A → Bool) (xs : List A) → length (to_head test xs) ≡ length xs
  length-to_head test xs = elim (Option-cases (find_first test xs)) [
    | inl missing ↦ rw (missing, to_head) refl
    | inr (x, found) ↦ rw (found, to_head) (length-remove_first test xs x found)
  ]

  pub find_first-test :
      (test : A → Bool) (xs : List A) (x : A) → find_first test xs ≡ some x → test x ≡ true
  find_first-test test [] x h = cc
  find_first-test test (y ∷ ys) x h = ground (arith, find_first-test test ys x)

-- Lookups with one test after a change at the element that another test finds.
module _ {ℓ} {A : Type ℓ} (here there : A → Bool) where
  pub find_first-remove_first :
      (xs : List A) (x : A)
      → find_first here xs ≡ some x
      → there x ≡ false
      → find_first there (remove_first here xs) ≡ find_first there xs
  find_first-remove_first [] x h other = refl
  find_first-remove_first (y ∷ ys) x h other = ground (arith, find_first-remove_first ys x)

  pub find_first-to_head :
      (xs : List A)
      → ((x : A) → find_first here xs ≡ some x → there x ≡ true → find_first there xs ≡ some x)
      → find_first there (to_head here xs) ≡ find_first there xs
  find_first-to_head xs same = elim (Option-cases (find_first here xs)) [
    | inl missing ↦ rw (missing, to_head) refl
    | inr (x, found) ↦ ground (arith, found, same x found, find_first-remove_first xs x found)
  ]

  -- The change of an element that the second test does not see.
  pub find_first-update_other :
      (f : A → A) (xs : List A)
      → ((x : A) → here x ≡ true → there x ≡ false)
      → ((x : A) → there (f x) ≡ there x)
      → find_first there (update_first here f xs) ≡ find_first there xs
  find_first-update_other f [] apart kept = refl
  find_first-update_other f (y ∷ ys) apart kept =
      ground (arith, apart y, kept y, find_first-update_other f ys apart kept)

  -- A test that finds nothing finds nothing in what is left, and nothing after a change it ignores.
  pub find_first-remove_none :
      (xs : List A) → find_first there xs ≡ none → find_first there (remove_first here xs) ≡ none
  find_first-remove_none [] h = refl
  find_first-remove_none (y ∷ ys) h = ground (arith, find_first-remove_none ys)

  pub find_first-update_none :
      (f : A → A) (xs : List A)
      → ((x : A) → there (f x) ≡ there x)
      → find_first there xs ≡ none
      → find_first there (update_first here f xs) ≡ none
  find_first-update_none f [] kept h = refl
  find_first-update_none f (y ∷ ys) kept h =
      ground (arith, kept y, find_first-update_none f ys kept)

module _ {ℓ} {A : Type ℓ} (test : A → Bool) where
  pub find_first-update_self :
      (f : A → A) (xs : List A) (x : A)
      → ((y : A) → test (f y) ≡ test y)
      → find_first test xs ≡ some x
      → find_first test (update_first test f xs) ≡ some (f x)
  find_first-update_self f [] x kept h = cc
  find_first-update_self f (y ∷ ys) x kept h =
      ground (arith, kept y, find_first-update_self f ys x kept)

  pub find_none-drop_last :
      (xs : List A) → find_first test xs ≡ none → find_first test (drop_last xs) ≡ none
  find_none-drop_last [] h = refl
  find_none-drop_last (x ∷ []) h = refl
  find_none-drop_last (x ∷ y ∷ ys) h = ground (arith, find_none-drop_last (y ∷ ys))

  -- What is found and is not the last element is found with the last element gone.
  pub find_first-drop_last :
      (xs : List A) (x : A)
      → last xs ≡ some x
      → test x ≡ false
      → find_first test (drop_last xs) ≡ find_first test xs
  find_first-drop_last [] x e other = refl
  find_first-drop_last (y ∷ []) x e other = ground arith
  find_first-drop_last (y ∷ z ∷ zs) x e other = ground (arith, find_first-drop_last (z ∷ zs) x)

-- The keys of the elements are distinct.
module _ {ℓ} {A : Type ℓ} (key : A → ℕ) where
  -- The test of the lookup by a key.
  abbrev pub has_key : ℕ → A → Bool
  has_key k x = key x == k

  abbrev pub AreDistinct : List A → Type ℓ
  AreDistinct [] = Unit
  AreDistinct (x ∷ xs) = (find_first (has_key (key x)) xs ≡ none) × AreDistinct xs

  pub AreDistinct-remove_first :
      (test : A → Bool) (xs : List A) → AreDistinct xs → AreDistinct (remove_first test xs)
  AreDistinct-remove_first test [] d = tt
  AreDistinct-remove_first test (x ∷ xs) d =
      ground
        (arith, AreDistinct-remove_first test xs, find_first-remove_none test (has_key (key x)) xs)

  -- With distinct keys a key is gone with its element.
  pub find_first-remove_self :
      (k : ℕ) (xs : List A)
      → AreDistinct xs
      → find_first (has_key k) (remove_first (has_key k) xs) ≡ none
  find_first-remove_self k [] d = refl
  find_first-remove_self k (x ∷ xs) d = elim (Bool-cases (key x == k)) [
    | inl here ↦ rw (here, remove_first) (rw (← ==→eq (key x) k here) d.0)
    | inr there ↦ ground (arith, find_first-remove_self k xs)
  ]

  pub AreDistinct-to_head :
      (k : ℕ) (xs : List A) → AreDistinct xs → AreDistinct (to_head (has_key k) xs)
  AreDistinct-to_head k xs d = elim (Option-cases (find_first (has_key k) xs)) [
    | inl missing ↦ rw (missing, to_head) d
    | inr (x, found) ↦
        let e : key x ≡ k = ==→eq (key x) k (find_first-test (has_key k) xs x found) in
        rw (found, to_head)
          (rw e (find_first-remove_self k xs d), AreDistinct-remove_first (has_key k) xs d)
  ]

  pub AreDistinct-update_first :
      (test : A → Bool) (f : A → A) (xs : List A)
      → ((x : A) → key (f x) ≡ key x)
      → AreDistinct xs
      → AreDistinct (update_first test f xs)
  AreDistinct-update_first test f [] kept d = tt
  AreDistinct-update_first test f (x ∷ xs) kept d = elim (Bool-cases (test x)) [
    | inl here ↦ rw here (rw (kept x) d.0, d.1)
    | inr there ↦ rw there (
      find_first-update_none test (has_key (key x)) f xs (λ y. ap (λ t. t == key x) (kept y)) d.0,
      AreDistinct-update_first test f xs kept d.1,
    )
  ]

  pub AreDistinct-drop_last : (xs : List A) → AreDistinct xs → AreDistinct (drop_last xs)
  AreDistinct-drop_last [] d = tt
  AreDistinct-drop_last (x ∷ []) d = tt
  AreDistinct-drop_last (x ∷ y ∷ ys) d =
      (find_none-drop_last (has_key (key x)) (y ∷ ys) d.0, AreDistinct-drop_last (y ∷ ys) d.1)

  -- A lookup by a key after a move to the head.
  pub find_key-to_head :
      (j k : ℕ) (xs : List A)
      → find_first (has_key j) (to_head (has_key k) xs) ≡ find_first (has_key j) xs
  find_key-to_head j k xs = find_first-to_head (has_key k) (has_key j) xs (λ x found e.
      let same : k ≡ j =
        sym (==→eq (key x) k (find_first-test (has_key k) xs x found)) ∙ ==→eq (key x) j e in
      subst (λ i. find_first (has_key i) xs ≡ some x) same found)

  -- A lookup by a key after a write that keeps the keys.
  abbrev pub map_found : (A → A) → Option A → Option A
  map_found f none = none
  map_found f (some x) = some (f x)

  pub find_key-update_first :
      (j k : ℕ) (f : A → A) (xs : List A)
      → ((x : A) → key (f x) ≡ key x)
      → find_first (has_key j) (update_first (has_key k) f xs)
        ≡ (if k == j then map_found f (find_first (has_key j) xs) else find_first (has_key j) xs)
  find_key-update_first j k f [] kept = ground arith
  find_key-update_first j k f (x ∷ xs) kept =
      ground (arith, kept x, find_key-update_first j k f xs kept)

-- Every element satisfies a predicate.
module _ {ℓ κ} {A : Type ℓ} (P : A → Type κ) where
  abbrev pub AllOf : List A → Type κ
  AllOf [] = Unit
  AllOf (x ∷ xs) = P x × AllOf xs

  pub AllOf-find_first :
      (test : A → Bool) (xs : List A) (x : A) → AllOf xs → find_first test xs ≡ some x → P x
  AllOf-find_first test [] x a e = cc
  AllOf-find_first test (y ∷ ys) x a e = elim (Bool-cases (test y)) [
    | inl here ↦
        let same : some y ≡ some x = sym (if_true (test y) _ _ here) ∙ e in subst P (cc) a.0
    | inr there ↦ AllOf-find_first test ys x a.1 (sym (if_false (test y) _ _ there) ∙ e)
  ]

  pub AllOf-remove_first : (test : A → Bool) (xs : List A) → AllOf xs → AllOf (remove_first test xs)
  AllOf-remove_first test [] a = tt
  AllOf-remove_first test (y ∷ ys) a = elim (Bool-cases (test y)) [
    | inl here ↦ rw here a.1
    | inr there ↦ rw there (a.0, AllOf-remove_first test ys a.1)
  ]

  pub AllOf-to_head : (test : A → Bool) (xs : List A) → AllOf xs → AllOf (to_head test xs)
  AllOf-to_head test xs a = elim (Option-cases (find_first test xs)) [
    | inl missing ↦ rw (missing, to_head) a
    | inr (x, found) ↦
        rw (found, to_head) (AllOf-find_first test xs x a found, AllOf-remove_first test xs a)
  ]

  pub AllOf-update_first :
      (test : A → Bool) (f : A → A) (xs : List A)
      → ((x : A) → P x → P (f x))
      → AllOf xs
      → AllOf (update_first test f xs)
  AllOf-update_first test f [] kept a = tt
  AllOf-update_first test f (y ∷ ys) kept a = elim (Bool-cases (test y)) [
    | inl here ↦ rw here (kept y a.0, a.1)
    | inr there ↦ rw there (a.0, AllOf-update_first test f ys kept a.1)
  ]

  pub AllOf-drop_last : (xs : List A) → AllOf xs → AllOf (drop_last xs)
  AllOf-drop_last [] a = tt
  AllOf-drop_last (x ∷ []) a = tt
  AllOf-drop_last (x ∷ y ∷ ys) a = (a.0, AllOf-drop_last (y ∷ ys) a.1)

-- What holds of a queue and of it without its last element holds of `room`.
module _ {ℓ κ} {A : Type ℓ} (P : List A → Type κ) where
  pub room_inv : (limit : ℕ) (xs : List A) → P xs → P (drop_last xs) → P (room limit xs)
  room_inv limit xs all shorter = elim (Bool-cases (ltb (length xs) limit)) [
    | inl free ↦ subst P (sym (if_true (ltb (length xs) limit) xs (drop_last xs) free)) all
    | inr full ↦ subst P (sym (if_false (ltb (length xs) limit) xs (drop_last xs) full)) shorter
  ]

module _ {ℓ} {A : Type ℓ} where
  pub length-room :
      (limit : ℕ) (xs : List A)
      → 0 < limit
      → length xs ≤ limit
      → suc (length (room limit xs)) ≤ limit
  length-room limit [] h fits = ground arith
  length-room limit (x ∷ xs) h fits = ground (arith, length-drop_last x xs)

  -- A lookup that the last element does not answer.
  pub find_first-room :
      (test : A → Bool) (limit : ℕ) (xs : List A)
      → ((x : A) → last xs ≡ some x → test x ≡ false)
      → find_first test (room limit xs) ≡ find_first test xs
  find_first-room test limit [] other = ground arith
  find_first-room test limit (x ∷ xs) other =
      let (y, e) = last-cons x xs in
      room_inv (λ ys. find_first test ys ≡ find_first test (x ∷ xs)) limit (x ∷ xs) refl
        (find_first-drop_last test (x ∷ xs) y e (other y e))

-- Two tests that agree on every element are one.
module _ {ℓ κ} {A : Type ℓ} (P : A → Type κ) (test other : A → Bool)
    (agree : (x : A) → P x → test x ≡ other x) where
  pub find_first-agree : (xs : List A) → AllOf P xs → find_first test xs ≡ find_first other xs
  find_first-agree [] all = refl
  find_first-agree (x ∷ xs) all = ground (arith, agree x all.0, find_first-agree xs all.1)

  pub remove_first-agree : (xs : List A) → AllOf P xs → remove_first test xs ≡ remove_first other xs
  remove_first-agree [] all = refl
  remove_first-agree (x ∷ xs) all = ground (arith, agree x all.0, remove_first-agree xs all.1)

  pub to_head-agree : (xs : List A) → AllOf P xs → to_head test xs ≡ to_head other xs
  to_head-agree xs all = ground (arith, find_first-agree xs all, remove_first-agree xs all)

  pub update_first-agree :
      (f : A → A) (xs : List A) → AllOf P xs → update_first test f xs ≡ update_first other f xs
  update_first-agree f [] all = refl
  update_first-agree f (x ∷ xs) all = ground (arith, agree x all.0, update_first-agree f xs all.1)

module _ {ℓ} {A : Type ℓ} (key : A → ℕ) where
  -- With distinct keys the key of the last element is gone with it.
  pub find_key-drop_last :
      (xs : List A) (x : A)
      → last xs ≡ some x
      → AreDistinct key xs
      → find_first (has_key key (key x)) (drop_last xs) ≡ none
  find_key-drop_last [] x e d = refl
  find_key-drop_last (y ∷ []) x e d = refl
  find_key-drop_last (y ∷ z ∷ zs) x e d =
      let later : find_first (has_key key (key x)) (z ∷ zs) ≢ none =
        find_first-last (has_key key (key x)) (z ∷ zs) x e (==-self (key x)) in
      elim (Bool-cases (key y == key x)) [
        | inl same ↦ absurd (
            later (
              subst (λ k. find_first (has_key key k) (z ∷ zs) ≡ none) (==→eq (key y) (key x) same)
                d.0))
        | inr apart ↦ rw (apart, find_first) (find_key-drop_last (z ∷ zs) x e d.1)
      ]
    where
      find_first-last :
          (test : A → Bool) (ys : List A) (w : A)
          → last ys ≡ some w
          → test w ≡ true
          → find_first test ys ≢ none
      find_first-last test [] w e passes = cc
      find_first-last test (v ∷ []) w e passes = ground (arith)
      find_first-last test (v ∷ u ∷ us) w e passes =
          let rest = find_first-last test (u ∷ us) w e passes in ground (arith, rest)

  -- With distinct keys the key of an element finds that element.
  pub find_key-middle :
      (xs : List A) (x : A) (ys : List A)
      → AreDistinct key (xs ++ x ∷ ys)
      → (find_first (has_key key (key x)) (xs ++ x ∷ ys) ≡ some x)
        × (remove_first (has_key key (key x)) (xs ++ x ∷ ys) ≡ xs ++ ys)
  find_key-middle [] x ys d = ground (arith, ==-self (key x))
  find_key-middle (w ∷ ws) x ys d =
      let (found, removed) = find_key-middle ws x ys d.1 in
      elim (Bool-cases (key w == key x)) [
        | inl same ↦
            let missing : find_first (has_key key (key x)) (ws ++ x ∷ ys) ≡ none =
              subst (λ k. find_first (has_key key k) (ws ++ x ∷ ys) ≡ none)
                (==→eq (key w) (key x) same) d.0 in
            cc
        | inr apart ↦ rw apart (found, ap (◌∷◌ w) removed)
      ]
