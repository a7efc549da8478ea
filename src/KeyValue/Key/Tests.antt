-- ===== src/KeyValue/Key/Tests.antt =====
-- Tests of the keys, and their theorems at the prefix "/f".
use helpers.Prelude.{◌≡◌, refl, none, some, [], ◌∷◌, arith}
use helpers.KeyValue.Key.{Text, adjust_prefix, get_key, get_object_id}
use helpers.KeyValue.Key.RoundTrip.{get_object_id-get_key}

-- "f/999996" and "f/000999".
key_test : get_key (47 ∷ 102 ∷ []) 3 ≡ some (102 ∷ 47 ∷ 57 ∷ 57 ∷ 57 ∷ 57 ∷ 57 ∷ 54 ∷ [])
unfolding get_key adjust_prefix
key_test = refl

filled_test : get_key (102 ∷ []) 999000 ≡ some (102 ∷ 47 ∷ 48 ∷ 48 ∷ 48 ∷ 57 ∷ 57 ∷ 57 ∷ [])
unfolding get_key adjust_prefix
filled_test = refl

-- Below the delimiters there is no key.
root_test : get_key (47 ∷ 47 ∷ []) 0 ≡ none
unfolding get_key adjust_prefix
root_test = refl

get_object_id-get_key_example :
    (key : Text) × (get_key (47 ∷ 102 ∷ []) 3 ≡ some key) × (get_object_id key ≡ some 3)
get_object_id-get_key_example =
    get_object_id-get_key (47 ∷ 102 ∷ []) (102 ∷ []) 3 refl (omega arith)
