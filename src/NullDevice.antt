-- ===== src/NullDevice.antt =====
-- src/nullDeviceHelper.cc: a storage that keeps nothing, with simulated faults and a simulated tree
-- of directories. What the random generator draws and which entries have appeared at the time are
-- arguments. A path is the list of its parts, which are decimal numbers in the simulated tree, and
-- the filter is the list of the operations it names; times and latencies are left out.
pub mod Operations
pub mod Tree
pub mod Levels
pub mod Distance
pub mod Listing
pub mod Faults
pub mod Tests
use helpers.Prelude.{
  ℕ, zero, suc, ◌+◌, ◌*◌, ◌-◌, Bool, true, false, ◌&&◌, ◌||◌, ltb, leb, ◌==◌, if◌then◌else◌, u64,
  List, [], ◌∷◌, ◌++◌, length, replicate, min, Option, none, some, count_up, map,
}
use Operations.{Operation, index}
use Tree.{
  NullDeviceHelper, Counted, Parameters, parameter, is_simulated_filesystem, leaf,
  simulated_filesystem_file_dist,
}

-- EAGAIN, EINVAL and ECANCELED are the errors the code gives; `undefined` is an access beyond the
-- end of the vector of parameters.
pub data Answer {ℓ} (A : Type ℓ) : Type ℓ where
  answered : A → Answer A
  eagain : Answer A
  einval : Answer A
  ecanceled : Answer A
  undefined : Answer A

abbrev pub applies : NullDeviceHelper → Operation → Bool
applies h o = h.apply_to_all_operations || named h.filter
  where
    named : List Operation → Bool
    named [] = false
    named (f ∷ fs) = index f == index o || named fs

-- `drawn` is what `randomTimeout` gives.
abbrev pub simulate_timeout : NullDeviceHelper → Operation → Bool → Bool
simulate_timeout h o drawn = applies h o && drawn

abbrev pub simulated {ℓ} : {A : Type ℓ} → NullDeviceHelper → Operation → Bool → Answer A → Answer A
simulated h o drawn a = if simulate_timeout h o drawn then eagain else a

-- `NULL_DEVICE_HELPER_CHAR`
abbrev pub null_char : ℕ
null_char = 120

pub record NullDeviceFileHandle : Type 0 where
  pub helper : NullDeviceHelper
  pub read_bytes : ℕ
  pub written_bytes : ℕ

-- The handle after an operation and the answer.
pub record Handled (A : Type 0) : Type 0 where
  pub handle : NullDeviceFileHandle
  pub answer : Answer A

abbrev pub on_handle :
    {A : Type 0} → NullDeviceFileHandle → Operation → Bool → A → NullDeviceFileHandle → Handled A
on_handle f o drawn a after =
    if simulate_timeout f.helper o drawn
    then record { handle = f; answer = eagain }
    else record { handle = after; answer = answered a }

-- The buffer of zeros that short reads wrap has the same bytes as the one that long reads fill.
unfoldable pub read : NullDeviceFileHandle → Bool → ℕ → ℕ → Handled (List ℕ)
read f drawn offset size =
    on_handle f Operation.read drawn (replicate size null_char)
      (record f { read_bytes = u64 (f.read_bytes + size) })

unfoldable pub write : NullDeviceFileHandle → Bool → ℕ → List ℕ → Handled ℕ
write f drawn offset buf =
    on_handle f Operation.write drawn (length buf)
      (record f { written_bytes = u64 (f.written_bytes + length buf) })

unfoldable pub release : NullDeviceFileHandle → Bool → Handled (Unit {0})
release f drawn = on_handle f Operation.release drawn tt f

unfoldable pub flush : NullDeviceFileHandle → Bool → Handled (Unit {0})
flush f drawn = on_handle f Operation.flush drawn tt f

unfoldable pub fsync : NullDeviceFileHandle → Bool → Handled (Unit {0})
fsync f drawn = on_handle f Operation.fsync drawn tt f

-- access, mknod, mkdir, unlink, rmdir, symlink, rename, link, chmod, chown, truncate and
-- removexattr, which do nothing else.
unfoldable pub do_nothing : Operation → NullDeviceHelper → Bool → Answer (Unit {0})
do_nothing o h drawn = simulated h o drawn (answered tt)

unfoldable pub open_file : NullDeviceHelper → Bool → Answer NullDeviceFileHandle
open_file h drawn =
    simulated h Operation.open_file drawn
      (answered (record { helper = h; read_bytes = 0; written_bytes = 0 }))

unfoldable pub readlink : NullDeviceHelper → Bool → Answer (List ℕ)
readlink h drawn = simulated h Operation.readlink drawn (answered (replicate 10 null_char))

unfoldable pub getxattr : NullDeviceHelper → Bool → Answer (List ℕ)
getxattr h drawn = simulated h Operation.getxattr drawn (answered (replicate 10 null_char))

unfoldable pub setxattr : NullDeviceHelper → Bool → Bool → Bool → Answer (Unit {0})
setxattr h drawn create replace =
    simulated h Operation.setxattr drawn (if create && replace then einval else answered tt)

unfoldable pub listxattr : NullDeviceHelper → Bool → Answer (List (List ℕ))
listxattr h drawn =
    simulated h Operation.listxattr drawn
      (answered (map (λ i. replicate i null_char) (count_up 1 10)))

-- The fields of `struct stat` that are not times: S_IFDIR or S_IFREG, the size and the inode.
pub record Stat : Type 0 where
  pub is_directory : Bool
  pub size : ℕ
  pub ino : ℕ

-- The type and the size of an entry, by the parameters of its level.
abbrev pub stat_entry : ℕ → ℕ → ℕ → Stat
stat_entry directories number dist =
    if ltb number directories
    then record { is_directory = true; size = 0; ino = u64 (dist + 2) }
    else record { is_directory = false; size = number * 1024; ino = u64 (dist + 2) }

-- A path that leads below the last level reads beyond the parameters.
unfoldable pub stat_simulated : NullDeviceHelper → List ℕ → Answer Stat
stat_simulated h [] = answered (record {
  is_directory = true;
  size = 0;
  ino = u64 ((simulated_filesystem_file_dist h []).count + 2);
})
stat_simulated h (x ∷ path) = elim (parameter h.parameters (length path)) [
  | none ↦ undefined
  | some (directories, files) ↦
      answered
        (stat_entry directories (leaf x path) (simulated_filesystem_file_dist h (x ∷ path)).count)
]

unfoldable pub getattr : NullDeviceHelper → Bool → List ℕ → Answer Stat
unfolding stat_simulated
getattr h drawn path = simulated h Operation.getattr drawn (
    if is_simulated_filesystem h.parameters
    then stat_simulated h path
    else answered (record { is_directory = false; size = 0; ino = 1 }))

-- The names that a page lists, and the helper after it.
pub record Listed : Type 0 where
  pub helper : NullDeviceHelper
  pub names : List ℕ

-- The loop over the entries of a level. Without growth every entry is there; else `appeared` tells
-- of a distance whether its time has come.
unfoldable pub list_loop : Option (ℕ → Bool) → List ℕ → List ℕ → NullDeviceHelper → Listed
list_loop grow path [] h = record { helper = h; names = [] }
list_loop none path (i ∷ is) h =
    let rest = list_loop none path is h in record rest { names = i ∷ rest.names }
list_loop (some appeared) path (i ∷ is) h =
    let dist = simulated_filesystem_file_dist h (path ++ i ∷ []) in
    let rest = list_loop (some appeared) path is dist.helper in
    if appeared dist.count then record rest { names = i ∷ rest.names } else rest

-- The entries of a level that a page reaches; there are none on a level without parameters.
abbrev pub level_names : Option (ℕ × ℕ) → ℕ → ℕ → List ℕ
level_names none offset count = []
level_names (some (directories, files)) offset count =
    count_up offset (min (u64 (offset + count)) (directories + files) - offset)

unfoldable pub list_simulated : NullDeviceHelper → Option (ℕ → Bool) → List ℕ → ℕ → ℕ → Listed
unfolding list_loop
list_simulated h grow path offset count =
    list_loop grow path (level_names (parameter h.parameters (length path)) offset count) h

-- What `readdir` lists once no fault is simulated.
unfoldable pub page : NullDeviceHelper → Option (ℕ → Bool) → List ℕ → ℕ → ℕ → Listed
unfolding list_simulated
page h grow path offset count =
    if is_simulated_filesystem h.parameters
    then list_simulated h grow path offset count
    else record { helper = h; names = map (λ i. u64 (i + offset)) (count_up 0 count) }

unfoldable pub readdir :
    NullDeviceHelper → Bool → Option (ℕ → Bool) → List ℕ → ℕ → ℕ → Answer Listed
unfolding page
readdir h drawn grow path offset count =
    simulated h Operation.readdir drawn (answered (page h grow path offset count))
