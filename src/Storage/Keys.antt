-- ===== src/Storage/Keys.antt =====
-- The keys of `EntityIndexStorage` in packages/core/src/storage/entityIndexStorage.ts. A character is its
-- code, and texts have the order of the database: character by character.
pub mod Order
pub mod Dates
use aleph_indexer_framework.Prelude.{
  ℕ, zero, suc, ◌+◌, ◌-◌, Bool, true, false, not, ◌&&◌, ◌||◌, List, [], ◌∷◌, ◌++◌, Option, none,
  some, map, length, take, drop, ltb, ◌==◌, if◌then◌else◌,
}
use aleph_indexer_framework.Time.Decimal.{decimal, same_text}

-- LevelStorage.minChar and LevelStorage.maxChar
abbrev pub min_char : ℕ
min_char = 33

abbrev pub max_char : ℕ
max_char = 126

pub record KeyChunkSchema : Type 0 where
  pub length : ℕ
  pub pad_end : Bool

-- String on a number
abbrev pub text : ℕ → List ℕ
text n = map (λ d. 48 + d) (decimal n)

unfoldable pub repeated : ℕ → ℕ → List ℕ
repeated zero c = []
repeated (suc n) c = c ∷ repeated n c

abbrev pub pad_start : ℕ → List ℕ → List ℕ
pad_start n key = repeated (n - length key) min_char ++ key

abbrev pub pad_after : ℕ → ℕ → List ℕ → List ℕ
pad_after n c key = key ++ repeated (n - length key) c

-- The three assignments of getKeyChunk.
abbrev pub fill_key : KeyChunkSchema → List ℕ → List ℕ
fill_key schema key =
    if same_text key (min_char ∷ [])
    then pad_after schema.length min_char key
    else if same_text key (max_char ∷ [])
    then pad_after schema.length max_char key
    else key

abbrev pub cut_key : KeyChunkSchema → List ℕ → List ℕ
cut_key schema key =
    if not (schema.length == 0) && ltb schema.length (length key)
    then (if schema.pad_end then take schema.length key else drop (length key - schema.length) key)
    else key

abbrev pub pad_key : KeyChunkSchema → List ℕ → List ℕ
pad_key schema key =
    if ltb (length key) schema.length
    then (if schema.pad_end
        then pad_after schema.length min_char key
        else pad_start schema.length key)
    else key

-- getKeyChunk on a key that is there, of a chunk with a schema.
unfoldable pub get_key_chunk : KeyChunkSchema → List ℕ → List ℕ
get_key_chunk schema key = pad_key schema (cut_key schema (fill_key schema key))

-- LevelStorage.keyChunkDelimiter
abbrev pub key_chunk_delimiter : ℕ
key_chunk_delimiter = 58

abbrev pub join_chunks : List ℕ → List (List ℕ) → List (List ℕ)
join_chunks chunk [] = []
join_chunks chunk (next ∷ nexts) = (chunk ++ key_chunk_delimiter ∷ next) ∷ join_chunks chunk nexts

-- The subkeys of one key, and those of several. `suffix` is the delimiter with the primary key in the
-- index of another store, and empty otherwise.
abbrev pub with_nexts : List ℕ → List ℕ → List (List ℕ) → List (List ℕ)
with_nexts suffix chunk [] = (chunk ++ suffix) ∷ []
with_nexts suffix chunk (next ∷ nexts) = join_chunks chunk (next ∷ nexts)

abbrev pub subkeys_of :
    List ℕ → KeyChunkSchema → List (Option (List ℕ)) → List (List ℕ) → List (List ℕ)
subkeys_of suffix schema [] nexts = []
subkeys_of suffix schema (none ∷ keys) nexts = subkeys_of suffix schema keys nexts
subkeys_of suffix schema (some key ∷ keys) nexts =
    with_nexts suffix (get_key_chunk schema key) nexts ++ subkeys_of suffix schema keys nexts

-- getAllSubkeysStartingFrom on the schemas from the chunk on, each with the keys that the entity has for
-- it, where they do not depend on the keys before.
unfoldable pub get_all_subkeys :
    List ℕ → List (KeyChunkSchema × List (Option (List ℕ))) → List (List ℕ)
get_all_subkeys suffix [] = []
get_all_subkeys suffix ((schema, keys) ∷ chunks) =
    subkeys_of suffix schema keys (get_all_subkeys suffix chunks)

-- The order of the database.
unfoldable pub text_before : List ℕ → List ℕ → Bool
text_before [] [] = false
text_before [] (d ∷ ds) = true
text_before (c ∷ cs) [] = false
text_before (c ∷ cs) (d ∷ ds) = let rest = text_before cs ds in ltb c d || (c == d && rest)
