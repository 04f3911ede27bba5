-- ===== src/KeyValue/Values.antt =====
-- Binary values: what `modifyUint8Array` leaves behind.
use Prim.Native.String.{String}
use text.Mathlib.Text.{◌==◌ as str_eq}
use text.Mathlib.TextEquality.{eq_iff}
use foundationdb_effect.Prelude.{
  ◌≡◌, refl, ◌∙◌, sym, ap, Option-cases, some, ◌∷◌, if◌then◌else◌, inl, inr, none≢some,
  some-injective,
}
use foundationdb_effect.Prelude.Result.{ok, ok-injective, map_ok-eq-ok}
use foundationdb_effect.Bytes.{Bytes}
use foundationdb_effect.KeyValue.{
  Store, Platform, decode_bytes, decode_read, read, write_entry, get_bytes, size, modify_bytes,
}
use foundationdb_effect.KeyValue.Refines.{read-write_entry}

-- A key that `get_bytes` finds has a row whose payload is what it returns.
get_bytes_row :
    (key : String) (s : Store) {bytes : Bytes}
    → get_bytes key s ≡ ok (some bytes)
    → (row : Bytes) × (read key s ≡ some row) × (decode_bytes row ≡ ok bytes)
unfolding get_bytes
get_bytes_row key s {bytes} found = elim (Option-cases (read key s)) [
  | inl e ↦
      absurd
        (none≢some (ok-injective (sym (ap (λ found. decode_read decode_bytes found) e) ∙ found)))
  | inr (row, e) ↦
      let decoded = sym (ap (λ found. decode_read decode_bytes found) e) ∙ found in
      let (bytes', same, e') = map_ok-eq-ok (λ bytes. some bytes) (decode_bytes row) decoded in
      (row, e, same ∙ ap (λ bytes. ok bytes) (some-injective e'))
]

-- Where `get_bytes` finds a key, `modify_bytes` returns the changed value, `get_bytes` then finds that
-- value, the rows of the other keys are as before, and the counter of keys is unchanged.
pub modify_bytes_lem :
    (platform : Platform) (key : String) (f : Bytes → Bytes) (s : Store) (bytes : Bytes)
    → get_bytes key s ≡ ok (some bytes)
    → (s' : Store) × (modify_bytes platform key f s ≡ ok (some (f bytes), s'))
      × (get_bytes key s' ≡ ok (some (f bytes)))
      × ((j : String) → read j s' ≡ (if str_eq key j then some (1 ∷ f bytes) else read j s))
      × (size s' ≡ size s)
unfolding modify_bytes get_bytes size
modify_bytes_lem platform key f s bytes found =
    let (row, e, decoded) = get_bytes_row key s found in
    let written = read-write_entry key (1 ∷ f bytes) s in
    let same = (eq_iff key key).1 refl in
    (
      write_entry key (1 ∷ f bytes) s,
      rw (e, decoded) refl,
      rw (written key, same) refl,
      written,
      refl,
    )
