-- ===== src/Tests/Keys.antt =====
-- crypto/src/lib.rs with concrete codes in place of the crates.
use nero_consensus.Prelude.{
  sym, ℕ, zero, suc, subst, ◌^◌, ◌≡◌, refl, inl, inr, Bool, true, false, ◌&&◌, ltb, some, List, [],
  ◌∷◌, All, replicate, arith, map, Bool-cases, if◌then◌else◌, length, ◌==◌, nat_eq,
}
use nero_consensus.Prelude.Result.{Result, ok, err, and_then}
use nero_consensus.Prelude.Bytes
use nero_consensus.Prelude.Bytes.{Bytes, AreBytes}
use nero_consensus.Random.{Rng}
use nero_consensus.Crypto.{PublicKey}
use nero_consensus.Crypto.Keys.{
  Base64, IsBase64, Decoded, decode_public, decode_secret, encode_public, encode_secret,
  decode_cases, to_vec, try_from, decode-encode_keys,
}
use nero_consensus.Crypto.Serde.{
  Format, IsFormat, serialize_public, serialize_secret, deserialize_public, deserialize_secret,
  deserialize-serialize_keys,
}
use nero_consensus.Crypto.Signatures.{
  Dalek, IsDalek, Signature, generate_keypair, verify, verify_batch, flatten,
}
use nero_consensus.Crypto.Service.{Sender, run_service}
use nero_consensus.Crypto.Verified.{Answers, run_service-Answers, verify_batch-All}

abbrev all_bytes : Bytes → Bool
all_bytes [] = true
all_bytes (b ∷ bytes) = ltb b 256 && all_bytes bytes

all_bytes-AreBytes : (bytes : Bytes) → all_bytes bytes ≡ true → AreBytes bytes
all_bytes-AreBytes [] h = tt
all_bytes-AreBytes (b ∷ bytes) h = (ground arith, all_bytes-AreBytes bytes (ground arith))

AreBytes-all_bytes : (bytes : Bytes) → AreBytes bytes → all_bytes bytes ≡ true
AreBytes-all_bytes [] h = refl
AreBytes-all_bytes (b ∷ bytes) h = ground (arith, h.0, AreBytes-all_bytes bytes h.1)

-- A text that is the bytes themselves.
abbrev plain : Base64
plain = record {
  DecodeError = Unit;
  encode = λ bytes. bytes;
  decode = λ text. if all_bytes text then ok text else err tt;
}

same : (a b : Bytes) → Path (Result (Unit {0}) Bytes) (ok a) (ok b) → a ≡ b
same a b h = cc

differ : (b : Bytes) → ¬ Path (Result (Unit {0}) Bytes) (err tt) (ok b)
differ b h = cc

plain-IsBase64 : IsBase64 plain
plain-IsBase64 = record {
  decode-encode = λ bytes h. rw (AreBytes-all_bytes bytes h) refl;
  decode-AreBytes = λ text bytes read. elim (Bool-cases (all_bytes text)) [
    | inl good ↦ subst AreBytes (same text bytes (rw good at read)) (all_bytes-AreBytes text good)
    | inr bad ↦ absurd (differ bytes (rw bad at read))
  ];
}

decode_cases_example :
    Decoded plain 32 (7 ∷ 8 ∷ []) (decode_public plain (7 ∷ 8 ∷ []))
    × Decoded plain 64 (7 ∷ 8 ∷ []) (decode_secret plain (7 ∷ 8 ∷ []))
decode_cases_example = decode_cases plain plain-IsBase64 (7 ∷ 8 ∷ [])

decode-encode_keys_example :
    (try_from (to_vec 9) ≡ some 9)
    × (decode_public plain (encode_public plain 77) ≡ some (ok 77))
    × (decode_secret plain (encode_secret plain 1000) ≡ some (ok 1000))
decode-encode_keys_example =
    decode-encode_keys plain plain-IsBase64 77 1000 9 (omega arith) (omega arith) (omega arith)

-- Two pairs of keys: each accepts what it signed.
abbrev bit_bytes : ℕ → Bool → Bytes
bit_bytes width bit = replicate width (if bit then 1 else 0)

abbrev read_bit : Bytes → Result (Unit {0}) Bool
read_bit [] = err tt
read_bit (b ∷ bytes) = ok (b == 1)

abbrev check : Bool → Bytes → Bool → Result (Unit {0}) (Unit {0})
check public message sig =
    if public then (if sig then ok tt else err tt) else (if sig then err tt else ok tt)

abbrev check_all : List Bytes → List Bool → List Bool → Result (Unit {0}) (Unit {0})
check_all (m ∷ messages) (s ∷ sigs) (k ∷ keys) =
    and_then (check k m s) (λ _. check_all messages sigs keys)
check_all messages sigs keys = ok tt

abbrev pub toy : Dalek
toy = record {
  Keypair = Bool;
  Public = Bool;
  Sig = Bool;
  CryptoError = Unit;
  generate = λ rng. (ltb 0 (rng.draw rng.position), rng);
  public = λ k. k;
  keypair_to_bytes = bit_bytes 64;
  keypair_from_bytes = read_bit;
  public_to_bytes = bit_bytes 32;
  public_from_bytes = read_bit;
  sig_to_bytes = bit_bytes 64;
  sig_from_bytes = read_bit;
  sign = λ k message. k;
  verify_strict = check;
  verify_batch = check_all;
}

check_all-All :
    (entries : List (Bytes × Bool × Bool))
    → All (λ e. check e.2 e.0 e.1 ≡ ok tt) entries
    → check_all (map (λ e. e.0) entries) (map (λ e. e.1) entries) (map (λ e. e.2) entries) ≡ ok tt
check_all-All [] h = refl
check_all-All (e ∷ entries) h = rw (h.0) (check_all-All entries h.1)

bit_bytes-AreBytes : (width : ℕ) (bit : Bool) → AreBytes (bit_bytes width bit)
bit_bytes-AreBytes zero bit = tt
bit_bytes-AreBytes (suc width) true = (omega arith, bit_bytes-AreBytes width true)
bit_bytes-AreBytes (suc width) false = (omega arith, bit_bytes-AreBytes width false)

length-bit_bytes : (width : ℕ) (bit : Bool) → length (bit_bytes width bit) ≡ width
length-bit_bytes zero bit = refl
length-bit_bytes (suc width) bit = omega (arith, length-bit_bytes width bit)

read_bit-bit_bytes : (width : ℕ) (bit : Bool) → read_bit (bit_bytes (suc width) bit) ≡ ok bit
read_bit-bit_bytes width true = refl
read_bit-bit_bytes width false = refl

check_own : (k : Bool) (message : Bytes) → check k message k ≡ ok tt
check_own true message = refl
check_own false message = refl

toy-IsDalek : IsDalek toy
toy-IsDalek = record {
  keypair_bytes = λ k. (bit_bytes-AreBytes 64 k, length-bit_bytes 64 k, read_bit-bit_bytes 63 k);
  public_bytes = λ k. (bit_bytes-AreBytes 32 k, length-bit_bytes 32 k, read_bit-bit_bytes 31 k);
  sig_bytes = λ s. (bit_bytes-AreBytes 64 s, length-bit_bytes 64 s, read_bit-bit_bytes 63 s);
  verify_strict-sign = check_own;
  verify_batch-All = check_all-All;
}

abbrev ones : Rng
ones = record { draw = λ i. 1; position = 0 }

run_service-Answers_example :
    (replies : List (Sender × Signature)) × (run_service toy
        (generate_keypair toy ones).0.1
        ((5, 0) ∷ (6, 1) ∷ [])
      ≡ some replies)
    × Answers toy (generate_keypair toy ones).0.0 ((5, 0) ∷ (6, 1) ∷ []) replies
run_service-Answers_example = run_service-Answers toy toy-IsDalek ones ((5, 0) ∷ (6, 1) ∷ [])

-- The key and the signature of the set bit.
abbrev vote : PublicKey × Signature
vote = (256 ^ 31, record { part1 = 256 ^ 31; part2 = 1 })

verify_batch-All_example : verify_batch toy 5 (vote ∷ vote ∷ []) ≡ ok tt
unfolding verify Bytes.to_bytes flatten
verify_batch-All_example = verify_batch-All toy toy-IsDalek 5 (vote ∷ vote ∷ []) (refl, (refl, tt))

-- A format that writes a text as it is.
abbrev verbatim : Format plain
verbatim = record {
  Output = Bytes;
  SerializeError = Unit;
  DeserializeError = Unit;
  serialize_str = ok;
  deserialize_string = ok;
  custom = λ e. e;
}

ok_text :
    (a b : Bytes)
    → Path (Result (Unit {0}) Bytes) (ok a) (ok b)
    → Path (Result (Unit {0}) Bytes) (ok b) (ok a)
ok_text a b h = sym h

verbatim-IsFormat : IsFormat verbatim
verbatim-IsFormat = record { deserialize-serialize = ok_text }

deserialize-serialize_keys_example :
    (deserialize_public plain verbatim (encode_public plain 77) ≡ some (ok 77))
    × (deserialize_secret plain verbatim (encode_secret plain 1000) ≡ some (ok 1000))
unfolding serialize_public serialize_secret
deserialize-serialize_keys_example =
    deserialize-serialize_keys plain verbatim 77 1000 (encode_public plain 77)
      (encode_secret plain 1000) plain-IsBase64 verbatim-IsFormat (omega arith) (omega arith) refl
      refl
