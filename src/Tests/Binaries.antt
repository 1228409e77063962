-- ===== src/Tests/Binaries.antt =====
-- node/src on concrete files and transactions.
use nero_consensus.Primary.Core.State.{Core}
use nero_consensus.Network.Address.{SocketAddr}
use nero_consensus.Crypto.{PublicKey}
use nero_consensus.Prelude.{
  ◌≡◌, refl, ap, true, false, Option, none, some, List, [], ◌∷◌, ◌++◌, map, is_some, length,
  list_eq, nat_eq, arith,
}
use nero_consensus.Prelude.Map
use nero_consensus.Prelude.Sets
use nero_consensus.Prelude.Bytes.{Bytes}
use nero_consensus.Prelude.Result.{Result, ok, err}
use nero_consensus.Network.Receiver
use nero_consensus.Network.Receiver.Interleaved.{own, taken_of, taken_of-own}
use nero_consensus.Network.Receiver.{
  Arrival, accepted, failed_to_accept, arrived, message, connection_closed, spawn_runner,
}
use nero_consensus.Primary.Message.{Transaction, PrimaryMessage, transactions, default_transaction}
use nero_consensus.Primary.Dispatch.{TxReceiverHandler, dispatch}
use nero_consensus.Primary.Core.Handlers.{handle_transaction, handle_transactions}
use nero_consensus.Config.{Authority, Committee, Parameters, default_parameters}
use nero_consensus.Config.Files.{Disk, Json, IsJson, KeyPair, new_key_pair, read_file, import_file}
use nero_consensus.Node.Client.{Client, send}
use nero_consensus.Node.Client.Bursts.{send-handle_transactions}
use nero_consensus.Node.Boot.{Arguments, generate_keys, run_node, parse_bool}
use nero_consensus.Node.Boot.Started.{address_in, IsIdle, run_node-generate_keys}
use nero_consensus.Tests.Nodes.{env, ones, node, address}
use nero_consensus.Tests.Keys.{toy}

-- A code for lists of transactions.
abbrev encode : PrimaryMessage → Bytes
encode (transactions txs) = map (λ tx. tx.digest) txs
encode m = []

abbrev decode : Bytes → Option PrimaryMessage
decode bytes = some (transactions (map (λ n. record { digest = n }) bytes))

map_back :
    (txs : List Transaction) → map (λ n. record { digest = n }) (map (λ tx. tx.digest) txs) ≡ txs
map_back [] = refl
map_back (tx ∷ txs) = ap (λ l. tx ∷ l) (map_back txs)

decode-encode :
    (txs : List Transaction) → decode (encode (transactions txs)) ≡ some (transactions txs)
decode-encode txs = ap (λ l. some (transactions l)) (map_back txs)

abbrev client : Client
client = record { target = address 9; size = 9; rate = 3; nodes = [] }

abbrev idle : TxReceiverHandler
idle = record { tx_transactions = []; tx_votes = [] }

send-handle_transactions_example :
    (frames : List Bytes) × (txs : List Transaction) × (send encode true true client ≡ ok frames)
    × (spawn_runner (dispatch decode) (map message frames) idle
        ≡ (record idle { tx_transactions = txs ∷ [] }, connection_closed))
    × (length txs ≡ 3)
    × (handle_transactions node txs ≡ handle_transaction node default_transaction)
send-handle_transactions_example =
    send-handle_transactions encode decode client idle node decode-encode (omega arith)
      (omega arith)

-- Files of two numbers for a pair of keys, and of nothing much for the rest.
abbrev read_pair : Bytes → Result (Unit {0}) KeyPair
read_pair (n ∷ s ∷ _) = ok (record { name = n; secret = s })
read_pair _ = err tt

abbrev pair_json : Json KeyPair
pair_json = record {
  JsonError = Unit;
  to_string_pretty = λ pair. some (pair.name ∷ pair.secret ∷ []);
  from_slice = read_pair;
  message = λ e. [];
}

some_text : (a b : Bytes) → some a ≡ some b → b ≡ a
some_text a b h = cc

pair_json-IsJson : IsJson pair_json
pair_json-IsJson = record {
  from_slice-line = λ pair text printed.
      ap (λ t. read_pair (t ++ 10 ∷ [])) (some_text (pair.name ∷ pair.secret ∷ []) text printed);
}

abbrev generated : KeyPair
generated = (new_key_pair toy ones).0

abbrev listed : Authority
listed = record { stake = 1; primary = record { transactions = address 4 }; byzantine = false }

abbrev committee : Committee
committee = record { authorities = (generated.name, listed) ∷ [] }

abbrev committee_json : Json Committee
committee_json = record {
  JsonError = Unit;
  to_string_pretty = λ c. none;
  from_slice = λ text. ok committee;
  message = λ e. [];
}

abbrev parameters_json : Json Parameters
parameters_json = record {
  JsonError = Unit;
  to_string_pretty = λ p. none;
  from_slice = λ text. ok default_parameters;
  message = λ e. [];
}

abbrev disk : Disk
disk = record { files = ((2 ∷ []), (1 ∷ [])) ∷ []; denied = [] }

abbrev arguments : Arguments
arguments = record {
  keys = 1 ∷ [];
  committee = 2 ∷ [];
  parameters = none;
  store = [];
  byzantine = 102 ∷ 97 ∷ 108 ∷ 115 ∷ 101 ∷ [];
}

run_node-generate_keys_example :
    (after : Disk) × (started : SocketAddr × Core) × (generate_keys toy pair_json disk (1 ∷ []) ones
      ≡ some (ok tt, after))
    × (run_node env 127 pair_json committee_json parameters_json
          (λ path. true)
          after
          arguments
          ones
          ones
        ≡ some (ok started))
    × (started.0 ≡ record { ip = 127; port = (address 4).port })
    × (started.1.id ≡ generated.name)
    × (started.1.byzantine ≡ false)
    × ((to : PublicKey)
        → Map.get to started.1.primary_addresses ≡ address_in committee.authorities to)
    × IsIdle started.1
unfolding Map.get Sets.contains import_file read_file parse_bool
run_node-generate_keys_example =
    run_node-generate_keys env 127 pair_json committee_json parameters_json (λ path. true) toy disk
      arguments committee listed (generated.name ∷ generated.secret ∷ []) false ones ones ones
      pair_json-IsJson refl refl refl refl refl refl refl refl
      (Map.get-head generated.name listed [])

-- A code that an empty message does not belong to.
abbrev decode_some : Bytes → Option PrimaryMessage
decode_some [] = none
decode_some (b ∷ bytes) = some (transactions (record { digest = b } ∷ []))

abbrev receiver : Receiver.Receiver (dispatch decode_some)
receiver = record { shared = idle; running = [] }

-- Connection 1 sends a message that is refused between its own and those of connection 2.
abbrev mixed : List Arrival
mixed =
    accepted 1
    ∷ accepted 2
    ∷ arrived 1 (message (5 ∷ []))
    ∷ arrived 2 (message (6 ∷ []))
    ∷ arrived 1 (message [])
    ∷ failed_to_accept
    ∷ arrived 1 (message (7 ∷ []))
    ∷ arrived 2 (message (8 ∷ []))
    ∷ []

dispatch-fair :
    (bytes : Bytes) (h : TxReceiverHandler)
    → is_some (dispatch decode_some bytes h) ≡ is_some (decode_some bytes)
unfolding dispatch
dispatch-fair [] h = refl
dispatch-fair (b ∷ bytes) h = refl

-- The arrivals of connection 2 are three, and both of its messages are taken.
mixed_taken : taken_of (dispatch decode_some) 2 receiver (own 2 mixed) ≡ (6 ∷ []) ∷ (8 ∷ []) ∷ []
unfolding taken_of Receiver.on_arrival Receiver.on_frame dispatch Sets.contains Sets.include
    Sets.remove
mixed_taken = refl

taken_of-own_example :
    taken_of (dispatch decode_some) 2 receiver mixed
    ≡ taken_of (dispatch decode_some) 2 receiver (own 2 mixed)
taken_of-own_example =
    taken_of-own (dispatch decode_some) (λ bytes. is_some (decode_some bytes)) dispatch-fair 2
      receiver mixed
