-- ===== src/ChainTests/Tests.antt =====
-- The chain tests' library on one small chain: a People chain whose ring 0 has one key.
pub mod Rings
pub mod Runs
pub mod Sockets
use polkadot_pop_e2e.Common.{ℕ, zero, String, Bool, true, Option, none, some, List, [], ◌∷◌}
use polkadot_pop_e2e.ChainTests.Task.{World, Network}
use polkadot_pop_e2e.ChainTests.Bytes.{Bytes}
use polkadot_pop_e2e.ChainTests.Ring.{
  Position, MemberStatus, included_at, MembersState, Block, People, Codec, people,
}
use polkadot_pop_e2e.ChainTests.Ring.Inclusion.{Wait, MemberLocation}

abbrev pub network : Network
network = record { latency = λ n. 100; rejection = λ n. none }

abbrev pub place : Position
place = record { ring_index = 0; ring_page = 0; ring_position = 0 }

abbrev pub pages : ℕ → ℕ → Option (List String)
pages zero zero = some ("k" ∷ [])
pages ring page = none

abbrev pub state : MembersState
state = record {
  ring_keys = pages;
  included = λ ring. 1;
  member = λ key. some (included_at place);
  revision = λ ring. some 7;
  entry_types = some "Included" ∷ [];
}

abbrev pub chain : People
chain = record {
  network = network;
  finalized = λ n. record { number = n; hash = "h" };
  state_at = λ hash collection. state;
  head = λ n collection. state;
}

abbrev pub codec : Codec
codec = record { from_hex = λ hex. 171 ∷ []; compact_enc = λ n. n ∷ [] }

abbrev pub start : World
start = record { now = 1000000; calls = 0 }

abbrev pub opts : Wait
opts = record {
  people = chain;
  collection = people;
  own_key = "k";
  has_client = true;
  timeout_ms = 300000;
  poll_ms = 5000;
}

abbrev pub location : MemberLocation
location = record { place = place; at = "h" }
