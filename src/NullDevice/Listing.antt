-- ===== src/NullDevice/Listing.antt =====
-- src/nullDeviceHelper.cc: the pages of the listing of a directory.
use helpers.Prelude.{
  ℕ, zero, suc, ◌+◌, ◌-◌, ◌<◌, ◌≤◌, ◌≡◌, refl, sym, ap, ap₂, ◌∙◌, Bool, true, false, ltb, inl, inr,
  Bool-cases, u64, u64_mod, List, [], ◌∷◌, ◌++◌, length, count_up, count_up-append, map, map-append,
  append-nil, count_up_zero, Option, none, some, min, arith,
}
use helpers.NullDevice.{page, Listed, level_names, list_loop, list_simulated}
use helpers.NullDevice.Tree.{
  NullDeviceHelper, parameter, is_simulated_filesystem, simulated_filesystem_file_dist, add_levels,
  simulated_filesystem_level_entry_count,
}

list_loop-append :
    (grow : Option (ℕ → Bool)) (path is js : List ℕ) (h : NullDeviceHelper)
    → let first = list_loop grow path is h in
      let second = list_loop grow path js first.helper in
      list_loop grow path (is ++ js) h
      ≡ record { helper = second.helper; names = first.names ++ second.names }
unfolding list_loop
list_loop-append grow path [] js h = refl
list_loop-append none path (i ∷ is) js h = rw (list_loop-append none path is js h)
list_loop-append (some appeared) path (i ∷ is) js h =
    let dist = simulated_filesystem_file_dist h (path ++ i ∷ []) in
    elim (Bool-cases (appeared dist.count)) [
      | inl there ↦ rw (there, list_loop-append (some appeared) path is js dist.helper)
      | inr absent ↦ rw (absent, list_loop-append (some appeared) path is js dist.helper)
    ]

add_levels-parameters :
    (h : NullDeviceHelper) (is : List ℕ) (sum : ℕ)
    → (add_levels h is sum).helper.parameters ≡ h.parameters
unfolding add_levels simulated_filesystem_level_entry_count
add_levels-parameters h [] sum = refl
add_levels-parameters h (i ∷ is) sum =
    let c = simulated_filesystem_level_entry_count h i in
    add_levels-parameters c.helper is (u64 (sum + c.count))

file_dist-parameters :
    (h : NullDeviceHelper) (path : List ℕ)
    → (simulated_filesystem_file_dist h path).helper.parameters ≡ h.parameters
unfolding simulated_filesystem_file_dist
file_dist-parameters h [] = refl
file_dist-parameters h (x ∷ path) = add_levels-parameters h (count_up 0 (length path)) 0

list_loop-parameters :
    (grow : Option (ℕ → Bool)) (path is : List ℕ) (h : NullDeviceHelper)
    → (list_loop grow path is h).helper.parameters ≡ h.parameters
unfolding list_loop
list_loop-parameters grow path [] h = refl
list_loop-parameters none path (i ∷ is) h = list_loop-parameters none path is h
list_loop-parameters (some appeared) path (i ∷ is) h =
    let dist = simulated_filesystem_file_dist h (path ++ i ∷ []) in
    let kept =
      list_loop-parameters (some appeared) path is dist.helper
      ∙ file_dist-parameters h (path ++ i ∷ []) in
    elim (Bool-cases (appeared dist.count)) [
      | inl there ↦ rw there kept
      | inr absent ↦ rw absent kept
    ]

-- The numbers of two pages that follow each other, below a total.
pages_join :
    (total offset m n : ℕ)
    → offset + (m + n) < u64_mod
    → count_up offset (min (u64 (offset + (m + n))) total - offset)
      ≡ count_up offset (min (u64 (offset + m)) total - offset)
        ++ count_up (offset + m) (min (u64 (offset + m + n)) total - (offset + m))
pages_join total offset m n b = elim (Bool-cases (ltb total (offset + m))) [
  | inl over ↦
      ap (count_up offset) {y = min (u64 (offset + m)) total - offset} (ground arith)
      ∙ sym (append-nil _)
      ∙ ap (λ k. count_up offset (min (u64 (offset + m)) total - offset) ++ count_up (offset + m) k)
          {x = 0} (ground arith)
  | inr within ↦
      ap (count_up offset) {y = m + (min (u64 (offset + m + n)) total - (offset + m))}
        (ground arith)
      ∙ sym (count_up-append offset m _)
      ∙ ap
          (λ k.
            count_up offset k
            ++ count_up (offset + m) (min (u64 (offset + m + n)) total - (offset + m)))
          {y = min (u64 (offset + m)) total - offset} (ground arith)
]

map-shift :
    (offset from m n : ℕ)
    → map (λ i. u64 (i + offset)) (count_up (from + m) n)
      ≡ map (λ i. u64 (i + (offset + m))) (count_up from n)
map-shift offset from m zero = refl
map-shift offset from m (suc n) = ap₂ ◌∷◌ (ap u64 {x = from + m + offset} (omega arith)) (
    ap (λ x. map (λ i. u64 (i + offset)) (count_up x n)) {y = suc from + m} (omega arith)
    ∙ map-shift offset (suc from) m n)

level_names-append :
    (level : Option (ℕ × ℕ)) (offset m n : ℕ)
    → offset + (m + n) < u64_mod
    → level_names level offset (m + n)
      ≡ level_names level offset m ++ level_names level (offset + m) n
level_names-append none offset m n b = refl
level_names-append (some (d, f)) offset m n b = pages_join (d + f) offset m n b

-- A page is what its first part lists and then what its second part does.
abbrev pub Follows : Listed → Listed → Listed → Type 0
Follows whole first second =
    whole ≡ record { helper = second.helper; names = first.names ++ second.names }

list_simulated-append :
    (h : NullDeviceHelper) (grow : Option (ℕ → Bool)) (path : List ℕ) (offset m n : ℕ)
    → offset + (m + n) < u64_mod
    → let first = list_simulated h grow path offset m in
      Follows
        (list_simulated h grow path offset (m + n))
        first
        (list_simulated first.helper grow path (offset + m) n)
unfolding list_simulated
list_simulated-append h grow path offset m n b =
    let level = parameter h.parameters (length path) in
    rw (list_loop-parameters grow path (level_names level offset m) h) (
      ap (λ is. list_loop grow path is h) (level_names-append level offset m n b)
      ∙ list_loop-append grow path (level_names level offset m) (level_names level (offset + m) n)
          h)

list_simulated-parameters :
    (h : NullDeviceHelper) (grow : Option (ℕ → Bool)) (path : List ℕ) (offset count : ℕ)
    → (list_simulated h grow path offset count).helper.parameters ≡ h.parameters
unfolding list_simulated
list_simulated-parameters h grow path offset count =
    list_loop-parameters grow path (level_names (parameter h.parameters (length path)) offset count)
      h

module _ (h : NullDeviceHelper) (grow : Option (ℕ → Bool)) (path : List ℕ) where
  page_tree :
      (offset n : ℕ)
      → is_simulated_filesystem h.parameters ≡ true
      → page h grow path offset n ≡ list_simulated h grow path offset n
  unfolding page
  page_tree offset n tree = rw tree

  page_plain :
      (offset m n : ℕ)
      → is_simulated_filesystem h.parameters ≡ false
      → let first = page h grow path offset m in
        Follows (page h grow path offset (m + n)) first (page first.helper grow path (offset + m) n)
  unfolding page
  page_plain offset m n plain =
      rw (plain, plain)
        (ap (λ ns. record { helper = h; names = ns })
          (ap (map (λ i. u64 (i + offset))) (sym (count_up_zero m n))
            ∙ map-append (λ i. u64 (i + offset)) (count_up 0 m) (count_up m n)
            ∙ ap (λ ns. map (λ i. u64 (i + offset)) (count_up 0 m) ++ ns)
                (ap (λ x. map (λ i. u64 (i + offset)) (count_up x n)) (omega arith)
                  ∙ map-shift offset 0 m n)))

-- Two pages that follow each other list what one page of both sizes lists, in the same order,
-- in a simulated tree, grown or growing, and outside of one.
pub page-append :
    (h : NullDeviceHelper) (grow : Option (ℕ → Bool)) (path : List ℕ) (offset m n : ℕ)
    → offset + (m + n) < u64_mod
    → let first = page h grow path offset m in
      Follows (page h grow path offset (m + n)) first (page first.helper grow path (offset + m) n)
page-append h grow path offset m n b = elim (Bool-cases (is_simulated_filesystem h.parameters)) [
  | inr plain ↦ page_plain h grow path offset m n plain
  | inl tree ↦
      let first = list_simulated h grow path offset m in
      rw
        (
          page_tree h grow path offset (m + n) tree,
          page_tree h grow path offset m tree,
          page_tree first.helper grow path (offset + m) n
              (ap is_simulated_filesystem (list_simulated-parameters h grow path offset m) ∙ tree),
        )
        (list_simulated-append h grow path offset m n b)
]

list_loop_all : (path is : List ℕ) (h : NullDeviceHelper) → (list_loop none path is h).names ≡ is
unfolding list_loop
list_loop_all path [] h = refl
list_loop_all path (i ∷ is) h = ap (◌∷◌ i) (list_loop_all path is h)

-- In a tree that does not grow, a page that reaches the end of a directory on a level of `d`
-- directories and `f` files lists the numbers below `d + f`, each once.
pub page_complete :
    (h : NullDeviceHelper) (path : List ℕ) (count d f : ℕ)
    → parameter h.parameters (length path) ≡ some (d, f)
    → d + f ≤ count
    → count < u64_mod
    → (page h none path 0 count).names ≡ count_up 0 (d + f)
unfolding page list_simulated
page_complete h path count d f level all b =
    rw (simulated_of h.parameters (length path) d f level) (
      list_loop_all path (level_names (parameter h.parameters (length path)) 0 count) h
      ∙ rw level (ap (count_up 0) (omega arith)))
  where
    simulated_of :
        (ps : List (ℕ × ℕ)) (l d f : ℕ)
        → parameter ps l ≡ some (d, f)
        → is_simulated_filesystem ps ≡ true
    simulated_of [] l d f e = absurd (ground arith)
    simulated_of (p ∷ ps) l d f e = refl
