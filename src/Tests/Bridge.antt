-- ===== src/Tests/Bridge.antt =====
-- A bridge of three nodes, a transfer over it, and the times of its periods.
use decentralised_interledge.Prelude.{true, false, [], ◌∷◌}
use decentralised_interledge.Interfaces.{NodeConfig, Transfer}

abbrev pub bridge : NodeConfig
bridge = record {
  node_count = 3;
  node_id = 2;
  secret = 115 ∷ [];
  timeout_initial = 10;
  timeout_backoff = 2;
  timeout_enabled = true;
  confirm_transfer = true;
  verification_enabled = true;
  route_to_first_node = false;
}

-- Its first period, of ten ticks from tick 100 on, is the turn of the second node.
abbrev pub delivery : Transfer
delivery = record {
  id = 7;
  payload = 1 ∷ 2 ∷ [];
  initiator_id = 5;
  initiation_timestamp = 100;
  initiator_tx_key = record { tx_id = 48 ∷ 120 ∷ []; block_id = 3 };
}
