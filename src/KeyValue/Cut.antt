-- ===== src/KeyValue/Cut.antt =====
-- src/keyValueAdapter.cc: the two steps of a truncation, the last object cut to its size and the
-- deletion of others.
use native.Mathlib.Decide.{ℕ_discrete}
use helpers.Prelude.{
  length, length-map, ◌-◌, ℕ, zero, suc, ◌+◌, ◌<◌, ◌≤◌, ◌≡◌, ◌≢◌, refl, ◌∙◌, ap, Bool, true, false,
  ◌&&◌, ltb, leb, ◌==◌, inl, inr, if◌then◌else◌, Bool-cases, List, [], ◌∷◌, map, count_up, take,
  drop, arith,
}
use helpers.KeyValue.{select, ids_to, delete_cut, store_filled, and_then, read_block}
use helpers.KeyValue.Buffer.{Bytes, byte, byte-fill_to_size, byte-take}
use helpers.KeyValue.Helper.{
  KeyValueHelper, Reliable, Outcome, ok, max_object_id, max_delete_objects, Each, Some,
}
use helpers.KeyValue.Blocks.{object, or_nothing, read_block_lem}

module _ {K : Type 0} (key : ℕ → K) (p : ℕ → Bool) where
  pub Some-selected :
      (from n q : ℕ)
      → from ≤ q
      → q < from + n
      → p q ≡ true
      → Some (λ j. j ≡ key q) (map key (select p (count_up from n)))
  Some-selected from zero q a b e = absurd (omega arith)
  Some-selected from (suc n) q a b e = elim (ℕ_discrete from q) [
    | yes here ↦ rw (ap p here ∙ e) (inl (ap key here))
    | no later ↦ elim (Bool-cases (p from)) [
      | inl taken ↦ rw taken (inr (Some-selected (suc from) n q (omega arith) (omega arith) e))
      | inr left ↦ rw left (Some-selected (suc from) n q (omega arith) (omega arith) e)
    ]
  ]

  pub Each-selected :
      (from n : ℕ) (k : K)
      → ((i : ℕ) → from ≤ i → i < from + n → p i ≡ true → key i ≢ k)
      → Each (λ j. j ≢ k) (map key (select p (count_up from n)))
  Each-selected from zero k apart = tt
  Each-selected from (suc n) k apart =
      let rest = Each-selected (suc from) n k (λ i a b e. apart i (omega arith) (omega arith) e) in
      elim (Bool-cases (p from)) [
        | inl taken ↦ rw taken (apart from (omega arith) (omega arith) taken, rest)
        | inr left ↦ rw left rest
      ]

length-select : (p : ℕ → Bool) (from n : ℕ) → length (select p (count_up from n)) ≤ n
length-select p from zero = omega arith
length-select p from (suc n) = ground (arith, length-select p (suc from) n)

-- Selected numbers from `low` on are at most as many as there are.
pub length-select_from :
    (p : ℕ → Bool) (low from n : ℕ)
    → ((i : ℕ) → p i ≡ true → low ≤ i)
    → length (select p (count_up from n)) ≤ from + n - low
length-select_from p low from zero above = omega arith
length-select_from p low from (suc n) above =
    ground
      (arith, above from, length-select p (suc from) n, length-select_from p low (suc from) n above)

module _ (h : KeyValueHelper) (r : Reliable h) (file_id : Bytes) where
  open h use {Store, Key, get_key, has_random_access, put_object}

  delete_cut_removes :
      (is : List ℕ) (s : Store) (k : Key)
      → length is ≤ max_delete_objects
      → Some (λ j. j ≡ k) (map (get_key file_id) is)
      → object h r (delete_cut h file_id is s).store k ≡ []
  unfolding delete_cut
  delete_cut_removes [] s k few m = elim m [ ]
  delete_cut_removes (i ∷ is) s k few m =
      ap or_nothing
        (r.delete_removes s _ k (omega (arith, few, length-map (get_key file_id) (i ∷ is))) m)

  delete_cut_keeps :
      (is : List ℕ) (s : Store) (k : Key)
      → Each (λ j. j ≢ k) (map (get_key file_id) is)
      → object h r (delete_cut h file_id is s).store k ≡ object h r s k
  unfolding delete_cut
  delete_cut_keeps [] s k a = refl
  delete_cut_keeps (i ∷ is) s k a = ap or_nothing (r.delete_keeps s _ k a)

  -- What the deletion of the selected blocks, up to `last`, makes of a block.
  pub object-delete_cut :
      (p : ℕ → Bool) (last q : ℕ) (s : Store)
      → last ≤ max_object_id
      → q ≤ max_object_id
      → length (select p (ids_to last)) ≤ max_delete_objects
      → object h r (delete_cut h file_id (select p (ids_to last)) s).store (get_key file_id q)
        ≡ (if leb q last && p q then [] else object h r s (get_key file_id q))
  object-delete_cut p last q s bound in_range few = elim (Bool-cases (leb q last && p q)) [
    | inl cut ↦ rw cut (
        delete_cut_removes _ s _ few (
          Some-selected (get_key file_id) p 0 (suc last) q (omega arith) (ground arith)
            (ground arith)))
    | inr uncut ↦ rw uncut (
        delete_cut_keeps _ s _ (
          Each-selected (get_key file_id) p 0 (suc last) _ λ i a b e same.
            let i_q = r.get_key_injective file_id i q (omega arith) in_range same in
            let e' = rw i_q at e in ground (arith)))
  ]

  -- The store after the object of block `t` is cut to `n` bytes.
  abbrev pub cut_store : Store → ℕ → ℕ → Store
  cut_store s t n =
      (store_filled h s (get_key file_id t) n
        (ok (take n (drop 0 (object h r s (get_key file_id t)))))).store

  pub store_filled_ok :
      (s : Store) (t n : ℕ)
      → let out = store_filled h s (get_key file_id t) n (read_block h s (get_key file_id t) 0 n) in
        (out.store ≡ cut_store s t n) × (out.result ≡ ok tt)
  unfolding store_filled
  store_filled_ok s t n =
      rw (read_block_lem h r s (get_key file_id t) 0 n) (refl, r.put_ok s (get_key file_id t) _ 0)

  pub and_then_ok :
      (out : Outcome Store) (next : Store → Outcome Store) (s : Store)
      → out.store ≡ s
      → out.result ≡ ok tt
      → and_then h out next ≡ next s
  and_then_ok out next s e o = rw (o, e)

  module _ (whole_objects : has_random_access ≡ false) where
    -- The object that is cut to its first `n` bytes, and the others.
    cut_own :
        (s : Store) (t n i : ℕ)
        → byte (object h r (cut_store s t n) (get_key file_id t)) i
          ≡ (if ltb i n then byte (object h r s (get_key file_id t)) i else 0)
    unfolding store_filled
    cut_own s t n i = rw (r.put_whole s (get_key file_id t) _ whole_objects) (
        byte-fill_to_size (take n (object h r s (get_key file_id t))) n i
        ∙ byte-take n (object h r s (get_key file_id t)) i)

    cut_other :
        (s : Store) (t n q : ℕ)
        → t ≤ max_object_id
        → q ≤ max_object_id
        → t ≢ q
        → object h r (cut_store s t n) (get_key file_id q) ≡ object h r s (get_key file_id q)
    unfolding store_filled
    cut_other s t n q a b ne = ap or_nothing (
        r.put_other s (get_key file_id t) (get_key file_id q) _ 0
          λ e. ne (r.get_key_injective file_id t q a b e))

    -- Both at once, at byte `i` of block `q`.
    pub cut_object :
        (s : Store) (t n q i : ℕ)
        → t ≤ max_object_id
        → q ≤ max_object_id
        → byte (object h r (cut_store s t n) (get_key file_id q)) i
          ≡ (if t == q && leb n i then 0 else byte (object h r s (get_key file_id q)) i)
    cut_object s t n q i a b = elim (ℕ_discrete t q) [
      | yes own ↦ rw (← own) (cut_own s t n i ∙ ground arith)
      | no other ↦ ap (λ c. byte c i) (cut_other s t n q a b other) ∙ ground arith
    ]

pub byte_if :
    (c : Bool) (buf : Bytes) (i : ℕ)
    → byte (if c then [] else buf) i ≡ (if c then 0 else byte buf i)
byte_if true buf i = refl
byte_if false buf i = refl
