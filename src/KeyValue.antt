-- ===== src/KeyValue.antt =====
-- src/persistence/key-value-store.ts: the key-value store, with its counter of keys.
pub mod Size
pub mod Entries
pub mod Word
pub mod Refines
pub mod Values
mod Tests
use Prim.Native.String.{String}
use foundationdb_effect.Prelude.Maps.{update_text}
use foundationdb_effect.Prelude.{
  ℕ, Bool, true, false, Option, none, some, List, [], ◌∷◌, ◌==◌, if◌then◌else◌,
}
use foundationdb_effect.Prelude.Result.{Result, ok, err, map_ok, ◌>>=◌}
use foundationdb_effect.Bytes.{Bytes}
use foundationdb_effect.Tuple.Encode.{Utf8}
use foundationdb_effect.Chunks.{
  ChunkRows, read_chunked_value, write_chunked_value, has_chunked_value, clear_chunked_value,
}
use foundationdb_effect.KeyValue.Size.{
  KeyValueStoreDataError, invalid_value_type, AtomicAdd, increment_size, decrement_size, empty_size,
  decode_size,
}

-- `string | Uint8Array`; a string is its UTF-16 units.
pub data Value : Type 0 where
  text : List ℕ → Value
  binary : Bytes → Value

-- What a transaction sees of the store: the row of the size, and the rows of each key.
pub record Store : Type 0 where
  pub size_row : Option Bytes
  pub entries : String → ChunkRows

-- `TextEncoder`, `TextDecoder` without `fatal`, and `Base64.encode`.
pub record Platform : Type 0 where
  pub encode_text : List ℕ → Bytes
  pub decode_text : Bytes → List ℕ
  pub base64 : Bytes → List ℕ

module _ (platform : Platform) where
  -- `encodeValue`
  abbrev pub encode_value : Value → Bytes
  encode_value (text units) = 0 ∷ platform.encode_text units
  encode_value (binary bytes) = 1 ∷ bytes

  -- `decodeString`
  abbrev pub decode_string : Bytes → Result KeyValueStoreDataError (List ℕ)
  decode_string [] = err invalid_value_type
  decode_string (tag ∷ payload) =
      if tag == 0
      then ok (platform.decode_text payload)
      else if tag == 1
      then ok (platform.base64 payload)
      else err invalid_value_type

-- `decodeBytes`
abbrev pub decode_bytes : Bytes → Result KeyValueStoreDataError Bytes
decode_bytes [] = err invalid_value_type
decode_bytes (tag ∷ payload) =
    if tag == 0 then ok payload else if tag == 1 then ok payload else err invalid_value_type

-- `read`
abbrev pub read : String → Store → Option Bytes
read key s = read_chunked_value (s.entries key)

-- A value that is not there is not decoded.
abbrev pub decode_read {ℓ} :
    {A : Type ℓ}
    → (Bytes → Result KeyValueStoreDataError A)
    → Option Bytes
    → Result KeyValueStoreDataError (Option A)
decode_read decode none = ok none
decode_read decode (some value) = map_ok (λ a. some a) (decode value)

-- `get` and `getUint8Array`
unfoldable pub get : Platform → String → Store → Result KeyValueStoreDataError (Option (List ℕ))
get platform key s = decode_read (decode_string platform) (read key s)

unfoldable pub get_bytes : String → Store → Result KeyValueStoreDataError (Option Bytes)
get_bytes key s = decode_read decode_bytes (read key s)

-- `has`
unfoldable pub has : String → Store → Bool
has key s = has_chunked_value (s.entries key)

-- `size` and `isEmpty`
unfoldable pub size : Store → Result KeyValueStoreDataError ℕ
size s = decode_size s.size_row

unfoldable pub is_empty : Store → Result KeyValueStoreDataError Bool
is_empty s = map_ok (λ count. count == 0) (size s)

-- The rows of a key after `writeChunkedValue`.
abbrev pub write_entry : String → Bytes → Store → Store
write_entry key value s = record s {
  entries = update_text s.entries key (write_chunked_value value (s.entries key));
}

module _ (atomic : AtomicAdd) (platform : Platform) where
  abbrev pub add_size : Bytes → Store → Store
  add_size delta s = record s { size_row = some (atomic.add s.size_row delta) }

  -- `set`
  unfoldable pub set : String → Value → Store → Store
  set key value s =
      write_entry key (encode_value platform value)
        (if has_chunked_value (s.entries key) then s else add_size increment_size s)

  -- `remove`
  unfoldable pub remove : String → Store → Store
  remove key s =
      if has_chunked_value (s.entries key)
      then add_size decrement_size
          (record s { entries = update_text s.entries key (clear_chunked_value (s.entries key)) })
      else s

-- `clear`
unfoldable pub clear : Store → Store
clear s = record {
  size_row = some empty_size;
  entries = λ key. clear_chunked_value (s.entries key);
}

module _ (platform : Platform) where
  -- `modify` of what was read: nothing where the key is not there.
  abbrev pub modify_read {ℓ} :
      {A : Type ℓ}
      → (Bytes → Result KeyValueStoreDataError A)
      → (A → Value)
      → (A → A)
      → String
      → Option Bytes
      → Store
      → Result KeyValueStoreDataError (Option A × Store)
  modify_read decode value_of f key none s = ok (none, s)
  modify_read decode value_of f key (some encoded) s =
      map_ok (λ a. (some (f a), write_entry key (encode_value platform (value_of (f a))) s))
        (decode encoded)

  -- `modify` and `modifyUint8Array`
  unfoldable pub modify :
      String → (List ℕ → List ℕ) → Store → Result KeyValueStoreDataError (Option (List ℕ) × Store)
  modify key f s = modify_read (decode_string platform) text f key (read key s) s

  unfoldable pub modify_bytes :
      String → (Bytes → Bytes) → Store → Result KeyValueStoreDataError (Option Bytes × Store)
  modify_bytes key f s = modify_read decode_bytes binary f key (read key s) s
