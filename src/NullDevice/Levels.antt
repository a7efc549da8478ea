-- ===== src/NullDevice/Levels.antt =====
-- How many entries a level and the whole simulated tree have, modulo 2 ^ 64.
use helpers.Prelude.{
  ℕ, zero, suc, ◌+◌, ◌*◌, ◌<◌, ◌≤◌, ◌≡◌, refl, sym, ap, ◌∙◌, leb, false, u64, u64_mod, List, [],
  ◌∷◌, ◌++◌, length, get_or, count_up, append-nil, append_assoc, arith, mod_mul,
}
use native.Mathlib.Nat.{mod-add-mod, add-mod-mod}
use helpers.NullDevice.Tree.{
  Parameters, NullDeviceHelper, directory_product, pushed_counts,
  simulated_filesystem_level_entry_count, add_levels, simulated_filesystem_entry_count,
}

-- The entries of a level: each directory of the first has those of the levels below.
abbrev pub level_total : Parameters → ℕ → ℕ
level_total [] l = 0
level_total ((directories, files) ∷ ps) zero = directories + files
level_total ((directories, files) ∷ ps) (suc l) = directories * level_total ps l

-- The entries of a tree.
abbrev pub tree_total : Parameters → ℕ
tree_total [] = 0
tree_total ((directories, files) ∷ ps) = directories + files + directories * tree_total ps

abbrev directories_of : Parameters → ℕ
directories_of [] = 1
directories_of ((directories, files) ∷ ps) = directories * directories_of ps

directories_of-append :
    (ps : Parameters) (d f : ℕ) → directories_of (ps ++ (d, f) ∷ []) ≡ directories_of ps * d
directories_of-append [] d f = grind arith
directories_of-append ((e, g) ∷ ps) d f = rw (directories_of-append ps d f) (grind arith)

directory_product_lem :
    (ps : Parameters) (p a : ℕ)
    → u64 (directory_product ps p * a) ≡ u64 (p * (directories_of ps * a))
directory_product_lem [] p a = ap u64 (grind arith)
directory_product_lem ((d, f) ∷ ps) p a =
    directory_product_lem ps (u64 (p * d)) a
    ∙ mod_mul (p * d) (directories_of ps * a) u64_mod
    ∙ ap u64 {x = p * d * (directories_of ps * a)} {y = p * (d * directories_of ps * a)}
        (grind arith)

pushed_lem :
    (above ps : Parameters) (l : ℕ)
    → l < length ps
    → get_or (pushed_counts above ps) l 0 ≡ u64 (directories_of above * level_total ps l)
pushed_lem above [] l h = absurd (omega arith)
pushed_lem above ((d, f) ∷ ps) zero h = directory_product_lem above 1 (d + f) ∙ ap u64 (grind arith)
pushed_lem above ((d, f) ∷ ps) (suc l) h =
    pushed_lem (above ++ (d, f) ∷ []) ps l (omega arith)
    ∙ ap u64 (rw (directories_of-append above d f) (grind arith))

length-pushed_counts : (above ps : Parameters) → length (pushed_counts above ps) ≡ length ps
length-pushed_counts above [] = refl
length-pushed_counts above ((d, f) ∷ ps) = ap suc (length-pushed_counts (above ++ (d, f) ∷ []) ps)

abbrev copies : ℕ → List ℕ → List ℕ
copies zero c = []
copies (suc k) c = c ++ copies k c

copies-append : (k : ℕ) (c : List ℕ) → copies k c ++ c ≡ copies (suc k) c
copies-append zero c = sym (append-nil c)
copies-append (suc k) c = append_assoc c (copies k c) c ∙ ap (◌++◌ c) (copies-append k c)

get_or-append : (c d : List ℕ) (i : ℕ) → i < length c → get_or (c ++ d) i 0 ≡ get_or c i 0
get_or-append [] d i h = absurd (omega arith)
get_or-append (x ∷ c) d zero h = refl
get_or-append (x ∷ c) d (suc i) h = get_or-append c d i (omega arith)

-- The vector of counts holds nothing but counts of the levels, as often as they were pushed.
abbrev pub Grown : NullDeviceHelper → Type 0
Grown h = (k : ℕ) × (h.level_entry_count ≡ copies k (pushed_counts [] h.parameters))

-- The level is counted rightly, and the counts are then there once more.
pub level_entry_count_lem :
    (h : NullDeviceHelper) (l : ℕ)
    → Grown h
    → l < length h.parameters
    → ((simulated_filesystem_level_entry_count h l).count ≡ u64 (level_total h.parameters l))
      × Grown (simulated_filesystem_level_entry_count h l).helper
unfolding simulated_filesystem_level_entry_count
level_entry_count_lem h l (k, e) in_range = (
  rw within (
      ap (λ c. get_or c l 0) grown
      ∙ get_or-append (pushed_counts [] h.parameters) (copies k (pushed_counts [] h.parameters)) l
          (omega (arith, length-pushed_counts [] h.parameters))
      ∙ pushed_lem [] h.parameters l in_range
      ∙ ap u64 (grind arith)),
  (suc k, grown),
)
  where
    within : leb (length h.parameters) l ≡ false
    within = ground arith

    grown :
        h.level_entry_count ++ pushed_counts [] h.parameters
        ≡ copies (suc k) (pushed_counts [] h.parameters)
    grown = rw e (copies-append k (pushed_counts [] h.parameters))

-- The entries of `n` levels.
abbrev pub levels_total : Parameters → ℕ → ℕ → ℕ
levels_total ps from zero = 0
levels_total ps from (suc n) = level_total ps from + levels_total ps (suc from) n

pub add_levels_lem :
    (h : NullDeviceHelper) (from n sum : ℕ)
    → Grown h
    → from + n ≤ length h.parameters
    → (u64 (add_levels h (count_up from n) sum).count
        ≡ u64 (sum + levels_total h.parameters from n))
      × Grown (add_levels h (count_up from n) sum).helper
unfolding add_levels simulated_filesystem_level_entry_count
add_levels_lem h from zero sum g b = (ap u64 (omega arith), g)
add_levels_lem h from (suc n) sum g b =
    let (e, g') = level_entry_count_lem h from g (omega arith) in
    let c = simulated_filesystem_level_entry_count h from in
    let (sums, g'') = add_levels_lem c.helper (suc from) n (u64 (sum + c.count)) g' (omega arith) in
    (
      sums
          ∙ mod-add-mod (sum + c.count) u64_mod (levels_total h.parameters (suc from) n)
          ∙ ap u64 {y = levels_total h.parameters (suc from) n + sum + c.count} (omega arith)
          ∙ ap (λ x. u64 (levels_total h.parameters (suc from) n + sum + x)) e
          ∙ add-mod-mod (levels_total h.parameters (suc from) n + sum) _ u64_mod
          ∙ ap u64 (omega arith),
      g'',
    )

levels_total-suc :
    (d f : ℕ) (ps : Parameters) (from n : ℕ)
    → levels_total ((d, f) ∷ ps) (suc from) n ≡ d * levels_total ps from n
levels_total-suc d f ps from zero = omega arith
levels_total-suc d f ps from (suc n) = rw (levels_total-suc d f ps (suc from) n) (grind arith)

levels_total-length : (ps : Parameters) → levels_total ps 0 (length ps) ≡ tree_total ps
levels_total-length [] = refl
levels_total-length ((d, f) ∷ ps) =
    ap (λ x. d + f + x)
      (levels_total-suc d f ps 0 (length ps) ∙ ap (λ x. d * x) (levels_total-length ps))

-- However often the levels were counted before, the number of entries that is counted is that of
-- the tree, modulo 2 ^ 64.
pub entry_count_lem :
    (h : NullDeviceHelper)
    → Grown h
    → u64 (simulated_filesystem_entry_count h).count ≡ u64 (tree_total h.parameters)
unfolding simulated_filesystem_entry_count
entry_count_lem h g =
    (add_levels_lem h 0 (length h.parameters) 0 g (omega arith)).0
    ∙ ap u64 (ap (λ x. 0 + x) (levels_total-length h.parameters) ∙ omega arith)
