-- ===== src/Config/Files/Transfers.antt =====
-- What is written to a file, and read again.
use nero_consensus.Prelude.{
  ◌==◌, ℕ, zero, suc, ◌≤◌, ◌<◌, ◌+◌, ltb, ◌⊎◌, ◌≡◌, refl, ap, ◌∙◌, inl, inr, Bool-cases, false,
  none, some, [], ◌∷◌, ◌++◌, length, length-append, arith, list_eq, unwrap_or,
}
use mathlib.Core.List.{append-nil}
use nero_consensus.Prelude.Map.{get, insert, get-insert, get-insert_self}
use nero_consensus.Prelude.Sets.{contains}
use nero_consensus.Prelude.Bytes.{Bytes, drop}
use nero_consensus.Prelude.Result.{ok, and_then, map_err}
use nero_consensus.Config.{import_error}
use nero_consensus.Config.Files.{
  Disk, invalid_data, Json, IsJson, read_file, open_file, overwrite, import_file, export_file,
}

drop_all : (old : Bytes) (n : ℕ) → length old ≤ n → drop n old ≡ []
drop_all [] zero h = refl
drop_all (x ∷ old) zero h = absurd (omega (arith, h))
drop_all [] (suc n) h = refl
drop_all (x ∷ old) (suc n) h = drop_all old n (omega (arith, h))

read_file_there :
    {E : Type 0} (disk : Disk) (path text : Bytes)
    → contains path disk.denied ≡ false
    → get path disk.files ≡ some text
    → read_file {E = E} disk path ≡ ok text
unfolding read_file
read_file_there disk path text allowed found = rw (allowed, found, read_file) refl

module _ {A : Type 0} (j : Json A) where
  -- What a disk holds of a path.
  abbrev pub held : Disk → Bytes → Bytes
  held disk path = unwrap_or (get path disk.files) []

  export_file-files :
      (disk : Disk) (path : Bytes) (a : A) (text : Bytes)
      → contains path disk.denied ≡ false
      → j.to_string_pretty a ≡ some text
      → export_file j disk path a
        ≡ some (
          ok tt,
          record disk {
            files = insert path (overwrite (held disk path) (text ++ 10 ∷ [])) disk.files;
          },
        )
  unfolding export_file open_file
  export_file-files disk path a text allowed printed =
      rw (allowed, printed, export_file, open_file) refl

  import_file_there :
      (disk : Disk) (path : Bytes) (a : A) (text : Bytes)
      → IsJson j
      → contains path disk.denied ≡ false
      → j.to_string_pretty a ≡ some text
      → get path disk.files ≡ some (text ++ 10 ∷ [])
      → import_file j disk path ≡ ok a
  unfolding import_file
  import_file_there disk path a text law allowed printed found =
      ap
        (λ r.
          map_err (λ e. import_error path (j.message e))
            (and_then r (λ t. map_err invalid_data (j.from_slice t))))
        (read_file_there disk path (text ++ 10 ∷ []) allowed found)
      ∙ ap (λ r. map_err (λ e. import_error path (j.message e)) (map_err invalid_data r))
          (law.from_slice-line a text printed)

  -- A value that `serde_json` can print, exported to a file that may be opened, stands at the
  -- front of the file, with the end of what was there before if that was longer. If it was not
  -- longer, the value is imported again, since `serde_json` reads back what it printed.
  pub import_file-export_file :
      (disk : Disk) (path : Bytes) (a : A) (text : Bytes)
      → IsJson j
      → contains path disk.denied ≡ false
      → j.to_string_pretty a ≡ some text
      → (after : Disk) × (export_file j disk path a ≡ some (ok tt, after))
        × (get path after.files ≡ some (overwrite (held disk path) (text ++ 10 ∷ [])))
        × ((import_file j after path ≡ ok a) ⊎ (length text + 1 < length (held disk path)))
  import_file-export_file disk path a text law allowed printed =
      let line = text ++ 10 ∷ [] in
      let after : Disk = record disk {
        files = insert path (overwrite (held disk path) line) disk.files;
      } in
      let stored = get-insert_self path (overwrite (held disk path) line) disk.files in
      (
        after,
        export_file-files disk path a text allowed printed,
        stored,
        elim (Bool-cases (ltb (length text + 1) (length (held disk path)))) [
          | inl long ↦ inr (ground arith)
          | inr short ↦ inl (
              import_file_there after path a text law allowed printed (
                stored
                ∙ ap some (
                    ap (λ rest. line ++ rest)
                      (drop_all (held disk path) (length line)
                        (ground (arith, length-append text (10 ∷ []), short)))
                    ∙ append-nil line)))
        ],
      )

-- A read depends on what the disk holds of the path alone.
import_file_same :
    {A : Type 0} (j : Json A) (disk disk' : Disk) (path : Bytes)
    → disk'.denied ≡ disk.denied
    → get path disk'.files ≡ get path disk.files
    → import_file j disk' path ≡ import_file j disk path
unfolding import_file read_file
import_file_same j disk disk' path denied files = rw (denied, files) refl

-- An export to a new file: it is imported again, and every other file is imported as before.
pub export_file_new :
    {A : Type 0} (j : Json A) (disk : Disk) (path : Bytes) (a : A) (text : Bytes)
    → IsJson j
    → contains path disk.denied ≡ false
    → get path disk.files ≡ none
    → j.to_string_pretty a ≡ some text
    → (after : Disk) × (export_file j disk path a ≡ some (ok tt, after))
      × (import_file j after path ≡ ok a)
      × ((B : Type 0) (k : Json B) (other : Bytes)
          → (path == other) ≡ false
          → import_file k after other ≡ import_file k disk other)
export_file_new j disk path a text law allowed fresh printed =
    let line = text ++ 10 ∷ [] in
    let after : Disk = record disk {
      files = insert path (overwrite (held j disk path) line) disk.files;
    } in
    let empty : held j disk path ≡ [] = ap (λ o. unwrap_or o []) fresh in
    (
      after,
      export_file-files j disk path a text allowed printed,
      import_file_there j after path a text law allowed printed (
          get-insert_self path (overwrite (held j disk path) line) disk.files
          ∙ ap some (
              ap (overwrite_ line) empty
              ∙ ap (λ rest. line ++ rest) (drop_all [] (length line) (omega arith))
              ∙ append-nil line)),
      λ B k other apart.
          import_file_same k disk after other refl
            (rw (get-insert path other (overwrite (held j disk path) line) disk.files, apart) refl),
    )
  where
    overwrite_ : Bytes → Bytes → Bytes
    overwrite_ text old = overwrite old text
