-- ===== src/Communication/PriorityQueue.antt =====
-- tbb::concurrent_priority_queue, which the repository uses and does not contain: an interface of
-- its operations, with what its documentation promises as laws. `Compare` is the strict order
-- `less` of the template; a pop takes an element that no other one exceeds.
pub mod Listed
use helpers.Prelude.{ℕ, ◌+◌, ◌≡◌, Bool, Option, none, some, List, [], ◌∷◌, count_if}

-- `items` is what the queue holds, in an order that is not specified: the laws count elements.
pub record PriorityQueue {ℓ} (A : Type ℓ) (less : A → A → Bool) : Type (ℓ + 1) where
  pub Queue : Type ℓ
  pub items : Queue → List A
  pub empty : Queue
  pub emplace : A → Queue → Queue
  pub try_pop : Queue → Option (A × Queue)
  pub items-empty : items empty ≡ []
  pub items-emplace :
      (p : A → Bool) (a : A) (q : Queue)
      → count_if p (items (emplace a q)) ≡ count_if p (a ∷ items q)
  pub try_pop-eq-none : (q : Queue) → try_pop q ≡ none → items q ≡ []
  pub try_pop-eq-some :
      (p : A → Bool) (q : Queue) (a : A) (r : Queue)
      → try_pop q ≡ some (a, r)
      → count_if p (items q) ≡ count_if p (a ∷ items r)
  pub try_pop_first :
      (q : Queue) (a : A) (r : Queue) → try_pop q ≡ some (a, r) → count_if (less a) (items r) ≡ 0
