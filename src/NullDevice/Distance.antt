-- ===== src/NullDevice/Distance.antt =====
-- The numbers that tell the entries of the simulated tree apart.
use helpers.Prelude.{
  ℕ, suc, ◌*◌, ◌<◌, ◌≡◌, ◌≢◌, refl, sym, ap, ◌∙◌, u64_mod, List, [], ◌∷◌, ◌++◌, length,
  length-append, count_up, arith, mod_mul, ◌%◌, ◌^◌,
}
use helpers.NullDevice.Tree.{
  NullDeviceHelper, parameter, entries_of, path_dir_product, to_size, parents, leaf, distance,
  add_levels, simulated_filesystem_file_dist,
}

swap_product : (x y m : ℕ) → 1 * x % m * y % m ≡ 1 * y % m * x % m
swap_product x y m = mod_mul (1 * x) y m ∙ ap (λ n. n % m) (grind arith) ∙ sym (mod_mul (1 * y) x m)

-- Two directories on the way to an entry can change places without a change of its number, so the
-- number is not unique.
pub file_dist_swap :
    (h : NullDeviceHelper) (x y z : ℕ) (path : List ℕ)
    → (simulated_filesystem_file_dist h (x ∷ y ∷ z ∷ path)).count
      ≡ (simulated_filesystem_file_dist h (y ∷ x ∷ z ∷ path)).count
unfolding simulated_filesystem_file_dist
file_dist_swap h x y z path =
    ap
      (λ p.
        distance (add_levels h (count_up 0 (suc (suc (length path)))) 0).count
          (entries_of (parameter h.parameters (suc (suc (length path)))))
          (to_size (path_dir_product (parents z path) p)) (leaf z path))
      (swap_product x y (2 ^ 32))

parents-append :
    (x : ℕ) (path : List ℕ) (a b : ℕ) → parents x (path ++ a ∷ []) ≡ parents x (path ++ b ∷ [])
parents-append x [] a b = refl
parents-append x (y ∷ path) a b = ap (◌∷◌ x) (parents-append y path a b)

leaf-append : (x : ℕ) (path : List ℕ) (a : ℕ) → leaf x (path ++ a ∷ []) ≡ a
leaf-append x [] a = refl
leaf-append x (y ∷ path) a = leaf-append y path a

distance_injective :
    (levels entries product a b : ℕ)
    → a < u64_mod
    → b < u64_mod
    → distance levels entries product a ≡ distance levels entries product b
    → a ≡ b
distance_injective levels entries product a b l k e = omega arith

same_number :
    (h : NullDeviceHelper) (path : List ℕ) (a b : ℕ)
    → a < u64_mod
    → b < u64_mod
    → (simulated_filesystem_file_dist h (path ++ a ∷ [])).count
      ≡ (simulated_filesystem_file_dist h (path ++ b ∷ [])).count
    → a ≡ b
unfolding simulated_filesystem_file_dist
same_number h [] a b l k e = distance_injective _ _ 1 a b l k e
same_number h (x ∷ path) a b l k e =
    distance_injective above entries (product (path ++ a ∷ [])) a b l k (
      sym (at a)
      ∙ e
      ∙ at b
      ∙ ap (λ ps. distance above entries (to_size (path_dir_product ps 1)) b)
          (parents-append x path b a))
  where
    above : ℕ
    above = (add_levels h (count_up 0 (suc (length path))) 0).count

    entries : ℕ
    entries = entries_of (parameter h.parameters (suc (length path)))

    product : List ℕ → ℕ
    product p = to_size (path_dir_product (parents x p) 1)

    length_one : (i : ℕ) → length (path ++ i ∷ []) ≡ suc (length path)
    length_one i = omega (arith, length-append path (i ∷ []))

    at :
        (i : ℕ)
        → (simulated_filesystem_file_dist h (x ∷ path ++ i ∷ [])).count
          ≡ distance above entries (product (path ++ i ∷ [])) i
    at i = rw (length_one i, leaf-append x path i) refl

-- Two entries of one directory have different numbers.
pub file_dist_siblings :
    (h : NullDeviceHelper) (path : List ℕ) (a b : ℕ)
    → a < u64_mod
    → b < u64_mod
    → a ≢ b
    → (simulated_filesystem_file_dist h (path ++ a ∷ [])).count
      ≢ (simulated_filesystem_file_dist h (path ++ b ∷ [])).count
file_dist_siblings h path a b l k differ e = differ (same_number h path a b l k e)
