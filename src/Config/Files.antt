-- ===== src/Config/Files.antt =====
-- config/src/lib.rs, `Import`, `Export` and `KeyPair`: configuration read from files and written to
-- them. `std::fs` is a disk of files, some of which may not be opened; what is written through the
-- `BufWriter` is taken to arrive.
pub mod Transfers
use nero_consensus.Prelude.{
  ℕ, zero, suc, ◌≤◌, ◌<◌, ◌+◌, ltb, ◌⊎◌, ◌≡◌, refl, ap, ◌∙◌, inl, inr, Bool-cases, false, Option,
  none, some, List, [], ◌∷◌, ◌++◌, length, length-append, arith, ◌>>=◌, list_eq, unwrap_or,
  if◌then◌else◌,
}
use mathlib.Core.List.{append-nil}
use nero_consensus.Prelude.Map.{Map, get, insert, get-insert, get-insert_self}
use nero_consensus.Prelude.Sets.{contains}
use nero_consensus.Prelude.Bytes.{Bytes, drop}
use nero_consensus.Prelude.Result.{Result, ok, err, and_then, map_err}
use nero_consensus.Random.{Rng}
use nero_consensus.Crypto.{PublicKey, SecretKey}
use nero_consensus.Crypto.Signatures.{Dalek, generate_keypair}
use nero_consensus.Config.{ConfigError, import_error, export_error}

pub record Disk : Type 0 where
  pub files : Map Bytes Bytes
  pub denied : List Bytes

-- `std::io::Error`, as far as the code makes one.
pub data IoError (E : Type 0) : Type 0 where
  not_found : IoError E
  permission_denied : IoError E
  invalid_data : E → IoError E

-- The crate `serde_json` for a type, and the texts of errors.
pub record Json (A : Type 0) : Type 1 where
  pub JsonError : Type 0
  pub to_string_pretty : A → Option Bytes
  pub from_slice : Bytes → Result JsonError A
  pub message : IoError JsonError → Bytes

-- A document that was written is read back, with white space behind it or not.
pub record IsJson {A : Type 0} (j : Json A) : Type 0 where
  pub from_slice-line :
      (a : A) (text : Bytes)
      → j.to_string_pretty a ≡ some text
      → j.from_slice (text ++ 10 ∷ []) ≡ ok a

-- `fs::read`
unfoldable pub read_file : {E : Type 0} → Disk → Bytes → Result (IoError E) Bytes
unfolding contains get
read_file disk path =
    if contains path disk.denied
    then err permission_denied
    else elim (get path disk.files) [ none ↦ err not_found | some text ↦ ok text ]

-- `OpenOptions::new().create(true).write(true).open(path)`: what the file holds stays.
unfoldable pub open_file : {E : Type 0} → Disk → Bytes → Result (IoError E) Bytes
unfolding contains get
open_file disk path =
    if contains path disk.denied
    then err permission_denied
    else ok (unwrap_or (get path disk.files) [])

-- Bytes written over the front of others.
abbrev pub overwrite : Bytes → Bytes → Bytes
overwrite old text = text ++ drop (length text) old

module _ {A : Type 0} (j : Json A) where
  -- `import`
  unfoldable pub import_file : Disk → Bytes → Result ConfigError A
  unfolding read_file
  import_file disk path =
      map_err (λ e. import_error path (j.message e))
        (and_then (read_file disk path) (λ text. map_err invalid_data (j.from_slice text)))

  -- `export`: the end of the line is written after the document.
  unfoldable pub export_file : Disk → Bytes → A → Option (Result ConfigError (Unit {0}) × Disk)
  unfolding open_file insert
  export_file disk path a = elim (open_file {E = j.JsonError} disk path) [
    | err e ↦ some (err (export_error path (j.message e)), disk)
    | ok old ↦ (do
      text ← j.to_string_pretty a
      some
          (ok tt, record disk { files = insert path (overwrite old (text ++ 10 ∷ [])) disk.files }))
  ]

pub record KeyPair : Type 0 where
  pub name : PublicKey
  pub secret : SecretKey

-- `KeyPair::new`
unfoldable pub new_key_pair : Dalek → Rng → KeyPair × Rng
unfolding generate_keypair
new_key_pair d rng =
    let ((name, secret), rng1) = generate_keypair d rng in
    (record { name = name; secret = secret }, rng1)
