-- ===== src/Storage.antt =====
-- src/storageHelper.cc: what all storage helpers share. A file handle is what a storage makes of
-- one write: the storage after it, and how many bytes it wrote or the error it failed with.
pub mod Multiwrite
pub mod Tests
use helpers.Prelude.{ℕ, ◌+◌, ltb, if◌then◌else◌, Option, none, some, List, [], ◌∷◌, find, length}
use helpers.KeyValue.Buffer.{Bytes}
use helpers.KeyValue.Helper.{Result, ok, err}

-- The value of a parameter; none stands for MissingParameterException.
abbrev pub get_param : {A : Type 0} → ℕ → List (ℕ × A) → Option A
get_param key params = find key params

abbrev pub get_param_or : {A : Type 0} → ℕ → A → List (ℕ × A) → A
get_param_or key def params = elim (find key params) [ none ↦ def | some a ↦ a ]

pub record FileHandle : Type 1 where
  pub Store : Type 0
  pub write : Store → ℕ → Bytes → Store × Result ℕ

module _ (h : FileHandle) where
  open h use {Store, write}

  -- The storage, and what the future holds.
  pub record Wrote : Type 0 where
    pub store : Store
    pub result : Result ℕ

  -- A write adds to what was written so far.
  abbrev pub add_written : ℕ → Store × Result ℕ → Wrote
  add_written wrote_so_far (s, ok wrote) = record { store = s; result = ok (wrote_so_far + wrote) }
  add_written wrote_so_far (s, err e) = record { store = s; result = err e }

  -- What is chained to the future: nothing is done after an error.
  abbrev pub chained : ℕ → ℕ → Bytes → Wrote → Wrote
  chained should_have_written_so_far offset buf w = elim w.result [
    | err e ↦ w
    | ok wrote_so_far ↦
        if ltb should_have_written_so_far wrote_so_far
        then w
        else add_written wrote_so_far (write w.store offset buf)
  ]

  unfoldable pub multiwrite_loop : ℕ → List (ℕ × Bytes) → Wrote → Wrote
  multiwrite_loop should_have_written_so_far [] w = w
  multiwrite_loop should_have_written_so_far ((offset, buf) ∷ buffs) w =
      multiwrite_loop (should_have_written_so_far + length buf) buffs
        (chained should_have_written_so_far offset buf w)

  unfoldable pub multiwrite : Store → List (ℕ × Bytes) → Wrote
  unfolding multiwrite_loop
  multiwrite s buffs = multiwrite_loop 0 buffs (record { store = s; result = ok 0 })
