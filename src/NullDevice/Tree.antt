-- ===== src/NullDevice/Tree.antt =====
-- src/nullDeviceHelper.cc: the simulated tree of directories. Its parameters, a number of
-- directories and of files for each level, are such that no sum of the two wraps.
use helpers.Prelude.{
  ℕ, zero, suc, ◌+◌, ◌*◌, ◌-◌, ◌%◌, ◌^◌, Bool, true, false, ltb, leb, if◌then◌else◌, u64, u64_mod,
  List, [], ◌∷◌, ◌++◌, length, get_or, Option, none, some, count_up,
}
use helpers.NullDevice.Operations.{Operation}

abbrev pub Parameters : Type 0
Parameters = List (ℕ × ℕ)

pub record NullDeviceHelper : Type 0 where
  pub apply_to_all_operations : Bool
  pub filter : List Operation
  pub parameters : Parameters
  pub level_entry_count : List ℕ
  pub entry_count : ℕ

abbrev pub is_simulated_filesystem : Parameters → Bool
is_simulated_filesystem [] = false
is_simulated_filesystem (p ∷ ps) = true

abbrev pub parameter : Parameters → ℕ → Option (ℕ × ℕ)
parameter [] level = none
parameter (p ∷ ps) zero = some p
parameter (p ∷ ps) (suc level) = parameter ps level

-- The loop that multiplies the numbers of directories.
abbrev pub directory_product : Parameters → ℕ → ℕ
directory_product [] product = product
directory_product ((directories, files) ∷ ps) product =
    directory_product ps (u64 (product * directories))

-- What the loop over the levels pushes, level by level.
abbrev pub pushed_counts : Parameters → Parameters → List ℕ
pushed_counts above [] = []
pushed_counts above ((directories, files) ∷ ps) =
    u64 (directory_product above 1 * (directories + files))
    ∷ pushed_counts (above ++ (directories, files) ∷ []) ps

-- A number and the helper after it was counted.
pub record Counted : Type 0 where
  pub helper : NullDeviceHelper
  pub count : ℕ

-- `m_simulatedFilesystemLevelEntryCountReady` is never set, so the counts are pushed anew by each
-- call. A level beyond the last one is the last.
unfoldable pub simulated_filesystem_level_entry_count : NullDeviceHelper → ℕ → Counted
simulated_filesystem_level_entry_count h level =
    let counts = h.level_entry_count ++ pushed_counts [] h.parameters in
    let l = if leb (length h.parameters) level then length h.parameters - 1 else level in
    record { helper = record h { level_entry_count = counts }; count = get_or counts l 0 }

-- The loops that add up the counts of `n` levels.
unfoldable pub add_levels : NullDeviceHelper → List ℕ → ℕ → Counted
unfolding simulated_filesystem_level_entry_count
add_levels h [] sum = record { helper = h; count = sum }
add_levels h (i ∷ is) sum =
    let c = simulated_filesystem_level_entry_count h i in
    add_levels c.helper is (u64 (sum + c.count))

unfoldable pub simulated_filesystem_entry_count : NullDeviceHelper → Counted
unfolding add_levels
simulated_filesystem_entry_count h =
    let c = add_levels h (count_up 0 (length h.parameters)) 0 in
    record { helper = record c.helper { entry_count = c.count }; count = c.count }

-- `std::accumulate` from the `int` 1: the product is cut to 32 bits in each step.
abbrev pub path_dir_product : List ℕ → ℕ → ℕ
path_dir_product [] product = product
path_dir_product (x ∷ xs) product = path_dir_product xs (product * x % 2 ^ 32)

-- The `int` as a `size_t`: its sign is extended.
abbrev pub to_size : ℕ → ℕ
to_size n = if ltb n (2 ^ 31) then n else u64 (n + (u64_mod - 2 ^ 32))

abbrev pub parents : ℕ → List ℕ → List ℕ
parents x [] = []
parents x (y ∷ ys) = x ∷ parents y ys

abbrev pub leaf : ℕ → List ℕ → ℕ
leaf x [] = x
leaf x (y ∷ ys) = leaf y ys

abbrev pub entries_of : Option (ℕ × ℕ) → ℕ
entries_of none = 0
entries_of (some (directories, files)) = directories + files

-- The sums of `size_t`: `levels` for the levels above, and the entry's place in its own.
abbrev pub distance : ℕ → ℕ → ℕ → ℕ → ℕ
distance levels entries product x =
    u64 (levels + u64 (u64 (entries * u64 (product + (u64_mod - 1))) + x + 1) + (u64_mod - 1))

-- The callers see to it that the path's last level has parameters.
unfoldable pub simulated_filesystem_file_dist : NullDeviceHelper → List ℕ → Counted
unfolding add_levels
simulated_filesystem_file_dist h [] = record { helper = h; count = 0 }
simulated_filesystem_file_dist h (x ∷ path) =
    let above = add_levels h (count_up 0 (length path)) 0 in
    record {
      helper = above.helper;
      count =
          distance above.count (entries_of (parameter h.parameters (length path)))
            (to_size (path_dir_product (parents x path) 1)) (leaf x path);
    }

-- `parseSimulatedFilesystemParameters`, of what `folly::split` makes of the text: none stands for
-- `std::invalid_argument`.
unfoldable pub parse_simulated_filesystem_parameters : List (List ℕ) → Option Parameters
parse_simulated_filesystem_parameters [] = some []
parse_simulated_filesystem_parameters (level ∷ levels) =
    let rest = parse_simulated_filesystem_parameters levels in parse_level level rest
  where
    parse_level : List ℕ → Option Parameters → Option Parameters
    parse_level (d ∷ f ∷ []) (some ps) = some ((d, f) ∷ ps)
    parse_level ls rest = none
