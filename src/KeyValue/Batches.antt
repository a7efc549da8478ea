-- ===== src/KeyValue/Batches.antt =====
-- src/s3Helper.cc: the deletion of objects in batches; `deleteObjects` of src/swiftHelper.cc and
-- src/cephRadosHelper.cc has the same loop. The call of the client library that deletes one batch is
-- a parameter.
use helpers.Prelude.{
  ℕ, zero, suc, ◌+◌, ◌-◌, ◌≤◌, ◌≡◌, ◌≢◌, refl, ◌∙◌, sym, ap, true, false, min, ltb, if◌then◌else◌,
  Option, inl, inr, List, [], ◌∷◌, length, take, Bool-cases, arith,
}
use helpers.KeyValue.Helper.{Result, ok, err, Outcome, Each, max_delete_objects}

module _ {Store Key : Type 0} (delete_batch : Store → List Key → Outcome Store) where
  -- The rounds after one, if that did not throw.
  abbrev next_batch : Result (Unit {0}) → Store → Outcome Store → Outcome Store
  next_batch (ok a) s rest = rest
  next_batch (err e) s rest = record { store = s; result = err e }

  -- A round takes its batch from the beginning of the keys, whatever `offset` is. The fuel counts
  -- rounds.
  unfoldable pub delete_loop : ℕ → ℕ → List Key → Store → Outcome Store
  delete_loop zero offset keys s = record { store = s; result = ok tt }
  delete_loop (suc fuel) offset keys s =
      let batch_size = min (length keys - offset) max_delete_objects in
      let o = delete_batch s (take batch_size keys) in
      let rest = delete_loop fuel (offset + max_delete_objects) keys o.store in
      if ltb offset (length keys)
      then next_batch o.result o.store rest
      else record { store = s; result = ok tt }

  -- There are as many rounds as keys, at most.
  unfoldable pub delete_objects : List Key → Store → Outcome Store
  delete_objects keys s = delete_loop (suc (length keys)) 0 keys s

  take_few : (n : ℕ) (ks : List Key) → length ks ≤ n → take n ks ≡ ks
  take_few zero [] l = refl
  take_few zero (k ∷ ks) l = absurd (omega arith)
  take_few (suc n) [] l = refl
  take_few (suc n) (k ∷ ks) l = ap (◌∷◌ k) (take_few n ks (omega arith))

  -- Keys for one batch are deleted in one call.
  pub one_batch :
      (k : Key) (ks : List Key) (s : Store)
      → length (k ∷ ks) ≤ max_delete_objects
      → delete_objects (k ∷ ks) s ≡ delete_batch s (k ∷ ks)
  unfolding delete_objects delete_loop
  one_batch k ks s few =
      let keys = k ∷ ks in
      let all : take (min (length keys - 0) max_delete_objects) keys ≡ keys =
        take_few _ keys (omega (arith, few)) in
      let over : ltb (0 + max_delete_objects) (length keys) ≡ false = ground (arith, few) in
      let more : ltb 0 (length keys) ≡ true = ground arith in
      rw (all, more, over) (same (delete_batch s keys))
    where
      same :
          (o : Outcome Store)
          → next_batch o.result o.store (record { store = o.store; result = ok tt }) ≡ o
      same o = go o.result refl
        where
          go :
              (r : Result (Unit {0}))
              → o.result ≡ r
              → next_batch r o.store (record { store = o.store; result = ok tt }) ≡ o
          go (ok tt) e = ap (λ r. record { store = o.store; result = r }) (sym e)
          go (err e) is = ap (λ r. record { store = o.store; result = r }) (sym is)

  Each-take :
      (P : Key → Type 0) (m n : ℕ) (ks : List Key) → m ≤ n → Each P (take n ks) → Each P (take m ks)
  Each-take P zero n ks l e = tt
  Each-take P (suc m) zero ks l e = absurd (omega arith)
  Each-take P (suc m) (suc n) [] l e = tt
  Each-take P (suc m) (suc n) (k ∷ ks) l (p, e) = (p, Each-take P m n ks (omega arith) e)

  module _ (content : Store → Key → Option (List ℕ))
      (keeps : (s : Store) (ks : List Key) (k : Key)
        → Each (λ j. j ≢ k) ks
        → content (delete_batch s ks).store k ≡ content s k) where
    loop_keeps :
        (fuel offset : ℕ) (keys : List Key) (k : Key) (s : Store)
        → Each (λ j. j ≢ k) (take max_delete_objects keys)
        → content (delete_loop fuel offset keys s).store k ≡ content s k
    unfolding delete_loop
    loop_keeps zero offset keys k s e = refl
    loop_keeps (suc fuel) offset keys k s e =
        let batch = take (min (length keys - offset) max_delete_objects) keys in
        let o = delete_batch s batch in
        let kept = keeps s batch k (
          Each-take (λ j. j ≢ k) (min (length keys - offset) max_delete_objects) max_delete_objects
            keys (omega arith) e) in
        let rest = loop_keeps fuel (offset + max_delete_objects) keys k o.store e in
        elim (Bool-cases (ltb offset (length keys))) [
          | inl more ↦ rw more (
              after (delete_loop fuel (offset + max_delete_objects) keys o.store) o.result o.store
                kept rest)
          | inr over ↦ rw over refl
        ]
      where
        after :
            (rest : Outcome Store) (r : Result (Unit {0})) (t : Store)
            → content t k ≡ content s k
            → content rest.store k ≡ content t k
            → content (next_batch r t rest).store k ≡ content s k
        after rest (ok a) t kept later = later ∙ kept
        after rest (err e) t kept later = kept

    -- A key that is not among the first `MAX_DELETE_OBJECTS` ones keeps its object, also when its
    -- deletion is asked for: only the first batch is deleted, again and again.
    pub later_batches_kept :
        (keys : List Key) (k : Key) (s : Store)
        → Each (λ j. j ≢ k) (take max_delete_objects keys)
        → content (delete_objects keys s).store k ≡ content s k
    unfolding delete_objects
    later_batches_kept keys k s e = loop_keeps (suc (length keys)) 0 keys k s e
