-- ===== src/NullDevice/Tests.antt =====
-- Tests of the null device, and its theorems on a tree of two levels with two directories and two
-- files each, below which each directory holds one file.
use helpers.Prelude.{
  ◌+◌, ◌≡◌, ◌≢◌, refl, true, false, ltb, u64, none, some, List, [], ◌∷◌, count_up, arith,
}
use helpers.NullDevice.{NullDeviceFileHandle, list_simulated, list_loop, page}
use helpers.NullDevice.Operations.{Operation}
use helpers.NullDevice.Tree.{
  NullDeviceHelper, simulated_filesystem_level_entry_count, add_levels,
  simulated_filesystem_entry_count, simulated_filesystem_file_dist,
  parse_simulated_filesystem_parameters,
}
use helpers.NullDevice.Levels.{tree_total, entry_count_lem}
use helpers.NullDevice.Distance.{file_dist_swap, file_dist_siblings}
use helpers.NullDevice.Listing.{page_complete}
use helpers.NullDevice.Faults.{Call, read_call, write_call}

abbrev helper : NullDeviceHelper
helper = record {
  apply_to_all_operations = false;
  filter = Operation.write ∷ [];
  parameters = (2, 2) ∷ (2, 2) ∷ (0, 1) ∷ [];
  level_entry_count = [];
  entry_count = 0;
}

parse_test :
    parse_simulated_filesystem_parameters ((2 ∷ 2 ∷ []) ∷ (2 ∷ 2 ∷ []) ∷ (0 ∷ 1 ∷ []) ∷ [])
    ≡ some helper.parameters
unfolding parse_simulated_filesystem_parameters
parse_test = refl

-- The sum for the whole tree, and how the vector of counts has grown by three times three.
entry_count_test : (simulated_filesystem_entry_count helper).count ≡ 16
unfolding simulated_filesystem_entry_count add_levels simulated_filesystem_level_entry_count
entry_count_test = refl

entry_count_lem_example :
    u64 (simulated_filesystem_entry_count helper).count ≡ u64 (tree_total helper.parameters)
entry_count_lem_example = entry_count_lem helper (0, refl)

-- The entry 0 of directory 0 has the number of the entry 0 of the root.
collision :
    (simulated_filesystem_file_dist helper (0 ∷ 0 ∷ [])).count
    ≡ (simulated_filesystem_file_dist helper (0 ∷ [])).count
unfolding simulated_filesystem_file_dist add_levels simulated_filesystem_level_entry_count
collision = refl

file_dist_swap_example :
    (simulated_filesystem_file_dist helper (1 ∷ 2 ∷ 0 ∷ [])).count
    ≡ (simulated_filesystem_file_dist helper (2 ∷ 1 ∷ 0 ∷ [])).count
file_dist_swap_example = file_dist_swap helper 1 2 0 []

file_dist_siblings_example :
    (simulated_filesystem_file_dist helper (1 ∷ 3 ∷ [])).count
    ≢ (simulated_filesystem_file_dist helper (1 ∷ 2 ∷ [])).count
file_dist_siblings_example =
    file_dist_siblings helper (1 ∷ []) 3 2 (omega arith) (omega arith) (omega arith)

page_complete_example : (page helper none (1 ∷ []) 0 10).names ≡ count_up 0 (2 + 2)
page_complete_example = page_complete helper (1 ∷ []) 10 2 2 refl (omega arith) (omega arith)

growing_test : (page helper (some (λ d. ltb d 6)) (1 ∷ []) 0 10).names ≡ 0 ∷ 1 ∷ []
unfolding page list_simulated list_loop simulated_filesystem_file_dist add_levels
    simulated_filesystem_level_entry_count
growing_test = refl

abbrev handle : NullDeviceFileHandle
handle = record { helper = helper; read_bytes = 5; written_bytes = 0 }

abbrev calls : List Call
calls = read_call true 0 3 ∷ write_call true 0 (1 ∷ 2 ∷ []) ∷ write_call false 2 (7 ∷ []) ∷ []
