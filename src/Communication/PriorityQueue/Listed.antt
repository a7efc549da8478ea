-- ===== src/Communication/PriorityQueue/Listed.antt =====
-- A queue that meets the interface, so that its laws are not empty: a list, from which a pop
-- selects an element that no other exceeds. `less` is a strict weak order.
use helpers.Prelude.{
  ◌≡◌, refl, Bool, true, false, Option, none, some, List, [], ◌∷◌, count_if, arith, if◌then◌else◌,
}
use helpers.Communication.PriorityQueue.{PriorityQueue}

module _ {ℓ} {A : Type ℓ} (less : A → A → Bool) where
  unfoldable pub select : A → List A → A × List A
  select x [] = (x, [])
  select x (y ∷ ys) =
      let (best, rest) = select y ys in if less x best then (best, x ∷ rest) else (x, best ∷ rest)

  abbrev pub pop_list : List A → Option (A × List A)
  pop_list [] = none
  pop_list (x ∷ xs) = some (select x xs)

  module _ (asym : (a b : A) → less a b ≡ true → less b a ≡ false)
      (via : (a b c : A) → less a b ≡ false → less b c ≡ false → less a c ≡ false) where
    exceeds :
        (p : A) (b : A) (xs : List A)
        → less p b ≡ false
        → count_if (less b) xs ≡ 0
        → count_if (less p) xs ≡ 0
    exceeds p b [] h z = refl
    exceeds p b (x ∷ xs) h z = ground (arith, via p b x, exceeds p b xs h)

    select_first : (x : A) (xs : List A) → count_if (less (select x xs).0) (select x xs).1 ≡ 0
    unfolding select
    select_first x [] = refl
    select_first x (y ∷ ys) =
        let b = (select y ys).0 in
        ground (arith, asym x b, exceeds x b (select y ys).1, select_first y ys)

  select_counted :
      (p : A → Bool) (x : A) (xs : List A)
      → count_if p (x ∷ xs) ≡ count_if p ((select x xs).0 ∷ (select x xs).1)
  unfolding select
  select_counted p x [] = refl
  select_counted p x (y ∷ ys) = ground (arith, select_counted p y ys)

  pub pop_list-eq-none : (q : List A) → pop_list q ≡ none → q ≡ []
  pop_list-eq-none [] e = refl
  pop_list-eq-none (x ∷ xs) e = cc

  pub pop_list-eq-some :
      (p : A → Bool) (q : List A) (a : A) (r : List A)
      → pop_list q ≡ some (a, r)
      → count_if p q ≡ count_if p (a ∷ r)
  pop_list-eq-some p [] a r e = cc
  pop_list-eq-some p (x ∷ xs) a r e = ground (arith, select_counted p x xs)

  module _ (asym : (a b : A) → less a b ≡ true → less b a ≡ false)
      (via : (a b c : A) → less a b ≡ false → less b c ≡ false → less a c ≡ false) where
    pub pop_list_first :
        (q : List A) (a : A) (r : List A) → pop_list q ≡ some (a, r) → count_if (less a) r ≡ 0
    pop_list_first [] a r e = cc
    pop_list_first (x ∷ xs) a r e = ground (arith, select_first asym via x xs)

    unfoldable pub listed : PriorityQueue A less
    unfolding select
    listed = record {
      Queue = List A;
      items = λ q. q;
      empty = [];
      emplace = λ a q. a ∷ q;
      try_pop = pop_list;
      items-empty = refl;
      items-emplace = λ p a q. refl;
      try_pop-eq-none = pop_list-eq-none;
      try_pop-eq-some = pop_list-eq-some;
      try_pop_first = pop_list_first;
    }
