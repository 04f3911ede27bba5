-- ===== src/Directory/Answers.antt =====
-- `existsInternal` beside opening a directory.
use foundationdb_effect.Prelude.{
  ℕ, zero, suc, ◌<◌, ◌≡◌, inl, inr, refl, sym, ap, ◌∙◌, arith, Bool, true, false, ◌&&◌, not, none,
  some, ◌==◌, length, length-drop, ltb, Bool-cases, Option-cases, if_true, if_false,
}
use foundationdb_effect.Prelude.Result.{
  Result, ok, err, map_ok, err≢ok, err-injective, map_ok-eq-err,
}
use foundationdb_effect.Bytes.{Bytes, equal_bytes}
use foundationdb_effect.Directory.{find_node, check_version, version_allowed, version_part}
use foundationdb_effect.Directory.State.{
  DirectoryError, directory_does_not_exist, version_error, DirectoryPath, DirectoryLayer, Nodes,
  Database, rows_of, nodes_of, partition_layer, DirectoryOutput, partition_subpath, is_in_partition,
  nested_layer,
}
use foundationdb_effect.Directory.Create.{
  Surroundings, decided, get_contents, decide, create_or_open,
}
use foundationdb_effect.Directory.Ends.{Result-cases}
use foundationdb_effect.Directory.Steps.{create_or_open_decided, create_or_open_inside}
use foundationdb_effect.Directory.Exists.{
  known, exists_inside, decide_exists, exists, is_missing, existence,
}

version_allowed-err :
    (version : Bytes) (write : Bool) (e : DirectoryError)
    → version_allowed version write ≡ err e
    → is_missing e ≡ false
version_allowed-err version write e h = elim (Bool-cases (not (length version == 12))) [
  | inl wrong ↦ error_is (if_true _ _ wrong h)
  | inr sized ↦ elim (Bool-cases (ltb 1 (version_part 0 version))) [
    | inl major ↦ error_is (if_true _ _ major (if_false _ _ sized h))
    | inr same ↦ elim (Bool-cases (write && ltb 0 (version_part 4 version))) [
      | inl minor ↦ error_is (if_true _ _ minor (if_false _ _ same (if_false _ _ sized h)))
      | inr fine ↦ cc (if_false _ _ fine (if_false _ _ same (if_false _ _ sized h)))
    ]
  ]
]
  where
    error_is :
        {e : DirectoryError}
        → ◌≡◌ {A = Result {0} DirectoryError Unit} (err version_error) (err e)
        → is_missing e ≡ false
    error_is same = sym (ap (λ e. is_missing e) (err-injective same))

check_version-err :
    (layer : DirectoryLayer) (nodes : Nodes) (e : DirectoryError)
    → check_version layer false nodes ≡ err e
    → is_missing e ≡ false
unfolding check_version
check_version-err layer nodes e h = elim (Option-cases (rows_of layer.node_prefix nodes).version) [
  | inl absent ↦ absurd (err≢ok (sym (rw absent at h)))
  | inr (version, there) ↦
      version_allowed-err version false e
        (map_ok-eq-err (λ _. nodes) (version_allowed version false) (rw there at h))
]

module _ (around : Surroundings) (fuel : ℕ) (layer : DirectoryLayer) (path : DirectoryPath)
    (db : Database) where
  exists_known :
      (r : Result DirectoryError Bool)
      → decide_exists layer path (nodes_of layer db) ≡ known r
      → exists (suc fuel) layer path db ≡ some r
  unfolding exists
  exists_known r e = rw (e, exists) refl

  exists_nested :
      (inner : DirectoryLayer) (subpath : DirectoryPath)
      → decide_exists layer path (nodes_of layer db) ≡ exists_inside inner subpath
      → exists (suc fuel) layer path db ≡ exists fuel inner subpath db
  unfolding exists
  exists_nested inner subpath e = rw (e, exists) refl

  answer_known :
      (r : Result DirectoryError DirectoryOutput) (answer : Result DirectoryError Bool)
      → decide_exists layer path (nodes_of layer db) ≡ known answer
      → decide layer path none none false true (nodes_of layer db) ≡ decided r
      → existence (some (map_ok (λ output. (output, db)) r)) ≡ some answer
      → exists (suc fuel) layer path db
        ≡ existence (create_or_open around (suc fuel) layer path none none false true db)
  answer_known r answer e d same =
      exists_known answer e
      ∙ sym same
      ∙ ap existence
          (sym (create_or_open_decided around fuel layer path none none false true db r d))

-- `exists` of a path that is not empty answers as `open` without an expected layer would: true where
-- that succeeds, false where it says that the directory does not exist, and the same error otherwise.
pub exists-existence :
    (around : Surroundings) (fuel : ℕ) (layer : DirectoryLayer) (path : DirectoryPath)
    (db : Database)
    → (length path == 0) ≡ false
    → exists fuel layer path db
      ≡ existence (create_or_open around fuel layer path none none false true db)
unfolding exists create_or_open decide
exists-existence around zero layer path db full = refl
exists-existence around (suc fuel) layer path db full =
    let nodes = nodes_of layer db in
    elim (Result-cases (check_version layer false nodes)) [
      | inl (e, failed) ↦
          answer_known around fuel layer path db (err e) (err e) (rw failed refl)
            (rw (failed, decide) refl) (rw (check_version-err layer nodes e failed) refl)
      | inr (nodes', checked) ↦ elim (Option-cases (find_node layer path nodes')) [
        | inl absent ↦
            answer_known around fuel layer path db (err directory_does_not_exist) (ok false)
              (rw (checked, absent) refl) (rw (checked, full, absent, decide) refl) refl
        | inr (node, found) ↦ elim (Bool-cases (is_in_partition node false)) [
          | inr outside ↦
              answer_known around fuel layer path db (ok (get_contents layer node)) (ok true)
                (rw (checked, found, outside) refl)
                (rw (checked, full, found, outside, decide) refl) refl
          | inl inside ↦
              let part : equal_bytes node.layer partition_layer ≡ true = grind arith in
              let less : length node.current_path < length node.target_path = grind arith in
              let some_path : 0 < length (partition_subpath node) =
                omega (arith, length-drop (length node.current_path) node.target_path, less) in
              let deeper : (length (partition_subpath node) == 0) ≡ false = grind arith in
              let inner = nested_layer layer node.prefix node.current_path in
              exists_nested around fuel layer path db inner (partition_subpath node)
                (rw (checked, found, inside, part) refl)
              ∙ exists-existence around fuel inner (partition_subpath node) db deeper
              ∙ ap existence (
                  sym (
                    create_or_open_inside around fuel layer path none none false true db inner
                      (partition_subpath node)
                      (rw (checked, full, found, inside, part, decide) refl)))
        ]
      ]
    ]
