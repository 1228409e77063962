-- ===== src/Tests/Files.antt =====
-- config/src/lib.rs, `Import` and `Export`, on a concrete disk, and a store against its abstraction.
use nero_consensus.Prelude.{ℕ, ◌+◌, ◌<◌, ◌≡◌, ◌⊎◌, refl, ap, some, [], ◌∷◌, ◌++◌, length, list_eq}
use nero_consensus.Prelude.Sets
use nero_consensus.Prelude.Map.{get}
use nero_consensus.Prelude.Result.{Result, ok, err}
use nero_consensus.Prelude.Bytes.{Bytes}
use nero_consensus.Config.Files.{Disk, Json, IsJson, export_file, import_file, overwrite}
use nero_consensus.Config.Files.Transfers.{held, import_file-export_file}
use nero_consensus.Store.{run_commands}
use nero_consensus.Store.Refinement.{Abstract, act_all, Refines, run_commands-Refines}
use nero_consensus.Tests.Parts.{memory, memory-IsFaithful, stored, between}
use nero_consensus.Store.Obligations.{waiting}

-- A number is written as one byte.
abbrev read_byte : Bytes → Result (Unit {0}) ℕ
read_byte [] = err tt
read_byte (b ∷ _) = ok b

abbrev byte : Json ℕ
byte = record {
  JsonError = Unit;
  to_string_pretty = λ n. some (n ∷ []);
  from_slice = read_byte;
  message = λ e. [];
}

some_byte : (n : ℕ) (text : Bytes) → some (n ∷ []) ≡ some text → text ≡ n ∷ []
some_byte n text h = cc

byte-IsJson : IsJson byte
byte-IsJson = record {
  from_slice-line = λ n text printed. ap (λ t. read_byte (t ++ 10 ∷ [])) (some_byte n text printed);
}

abbrev disk : Disk
disk = record { files = ((1 ∷ []), (9 ∷ [])) ∷ []; denied = [] }

import_file-export_file_example :
    (after : Disk) × (export_file byte disk (1 ∷ []) 7 ≡ some (ok tt, after))
    × (get (1 ∷ []) after.files ≡ some (overwrite (held byte disk (1 ∷ [])) (7 ∷ 10 ∷ [])))
    × ((import_file byte after (1 ∷ []) ≡ ok 7)
        ⊎ (length {A = ℕ} (7 ∷ []) + 1 < length (held byte disk (1 ∷ []))))
unfolding Sets.contains
import_file-export_file_example =
    import_file-export_file byte disk (1 ∷ []) 7 (7 ∷ []) byte-IsJson refl refl

-- What `stored` holds, and who waits.
abbrev view : Abstract
view = record {
  contents = λ key. get key stored.db;
  waiters = λ key. waiting memory key stored;
  sent = [];
}

run_commands-Refines_example :
    Refines memory (run_commands memory stored between) (act_all view between)
run_commands-Refines_example =
    run_commands-Refines memory memory-IsFaithful (λ key value db. refl) stored view between
      (record { holds = λ key. refl; waits = λ key. refl; told = refl })
