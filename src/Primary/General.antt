-- ===== src/Primary/General.antt =====
-- primary/src/general.rs: the constants of the protocol.
use nero_consensus.Prelude.{ℕ, ◌+◌, ◌*◌}

abbrev pub number_of_byzantine_nodes : ℕ
number_of_byzantine_nodes = 1

abbrev pub number_of_total_nodes : ℕ
number_of_total_nodes = 3 * number_of_byzantine_nodes + 1

abbrev pub quorum : ℕ
quorum = 2 * number_of_byzantine_nodes + 1

abbrev pub semi_quorum : ℕ
semi_quorum = number_of_byzantine_nodes + 1
