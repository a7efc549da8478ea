-- ===== src/Communication/StreamManager/Places.antt =====
-- src/communication/streaming/streamManager.h: places of lists.
use helpers.Prelude.{
  ℕ, zero, suc, ◌+◌, ◌≤◌, ◌<◌, ltb, ◌==◌, if◌then◌else◌, Bool, true, none, some, List, [], ◌∷◌,
  ◌++◌, length, count_if, ◌≡◌, refl, ap, arith,
}
use helpers.Communication.StreamManager.{nth, set_nth}

module _ {ℓ} {A : Type ℓ} where
  pub nth-append :
      (xs : List A) (y : A) (i : ℕ)
      → nth (xs ++ y ∷ []) i
        ≡ (if ltb i (length xs) then nth xs i else if i == length xs then some y else none)
  nth-append [] y zero = refl
  nth-append [] y (suc i) = ground arith
  nth-append (x ∷ xs) y zero = ground arith
  nth-append (x ∷ xs) y (suc i) = ground (arith, nth-append xs y i)

  pub nth-some : (xs : List A) (i : ℕ) (x : A) → nth xs i ≡ some x → i < length xs
  nth-some [] i x e = absurd (ground arith)
  nth-some (y ∷ xs) zero x e = omega arith
  nth-some (y ∷ xs) (suc i) x e = omega (arith, nth-some xs i x e)

  pub nth-set_nth :
      (xs : List A) (i j : ℕ) (y : A)
      → nth (set_nth xs i y) j
        ≡ (if i == j then (if ltb j (length xs) then some y else none) else nth xs j)
  nth-set_nth [] i j y = ground arith
  nth-set_nth (x ∷ xs) zero zero y = ground arith
  nth-set_nth (x ∷ xs) zero (suc j) y = ground arith
  nth-set_nth (x ∷ xs) (suc i) zero y = ground arith
  nth-set_nth (x ∷ xs) (suc i) (suc j) y = ground (arith, nth-set_nth xs i j y)

  pub length-set_nth : (xs : List A) (i : ℕ) (y : A) → length (set_nth xs i y) ≡ length xs
  length-set_nth [] i y = refl
  length-set_nth (x ∷ xs) zero y = refl
  length-set_nth (x ∷ xs) (suc i) y = ap suc (length-set_nth xs i y)

  -- What an element adds to a count, when it takes the place of another.
  pub count_if-set_nth :
      (p : A → Bool) (xs : List A) (i : ℕ) (x y : A)
      → nth xs i ≡ some x
      → count_if p (set_nth xs i y) + (if p x then 1 else 0)
        ≡ count_if p xs + (if p y then 1 else 0)
  count_if-set_nth p [] i x y e = absurd (ground arith)
  count_if-set_nth p (z ∷ xs) zero x y e = ground arith
  count_if-set_nth p (z ∷ xs) (suc i) x y e = omega (arith, count_if-set_nth p xs i x y e)

  pub count_if-nth :
      (p : A → Bool) (xs : List A) (i : ℕ) (x : A)
      → nth xs i ≡ some x
      → p x ≡ true
      → 1 ≤ count_if p xs
  count_if-nth p [] i x e h = absurd (ground arith)
  count_if-nth p (z ∷ xs) zero x e h = ground arith
  count_if-nth p (z ∷ xs) (suc i) x e h = omega (arith, count_if-nth p xs i x e h)

  pub count_if_new :
      (p : A → Bool) (xs : List A) (y : A)
      → count_if p (xs ++ y ∷ []) ≡ count_if p xs + (if p y then 1 else 0)
  count_if_new p [] y = omega arith
  count_if_new p (x ∷ xs) y = omega (arith, count_if_new p xs y)
