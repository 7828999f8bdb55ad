-- ===== src/ChainTests/Probes.antt =====
-- packages/chain-tests/rpc-node-fingerprint.mjs and rpc-diagnostic.mjs: the follow of a chain's head
-- over a socket, one call over it, and the tallies of the probes.
pub mod Tallies
pub mod Race
use polkadot_pop_e2e.Common.{
  ℕ, suc, String, Bool, true, false, not, ◌&&◌, ◌||◌, Option, none, some, List, [], ◌∷◌,
  if◌then◌else◌, ◌==◌, eqb, includes, starts, is_blank, cat,
}

pub data FollowEvent : Type 0 where
  initialized : FollowEvent
  stop : FollowEvent
  other : FollowEvent

-- A message of the socket: no JSON, the answer to a request, an event of a subscription, or
-- anything else.
pub data Message : Type 0 where
  unparsable : Message
  refusal : (id : ℕ) (error : String) → Message
  answer : (id : ℕ) (result : String) → Message
  follow_event : (subscription : String) (event : FollowEvent) → Message
  unrelated : Message

pub data Outcome : Type 0 where
  resolved : (value : String) → Outcome
  rejected : (error : String) → Outcome

-- The variables of `followAndAwaitInitialized`; `settled` holds the promise's outcome, with the
-- texts of the fingerprint for a stop and for the end of the time.
pub record Follow : Type 0 where
  pub sub_id : Option String
  pub initialized_by_sub : List String
  pub settled : Option Outcome

abbrev pub start_follow : Follow
start_follow = record { sub_id = none; initialized_by_sub = []; settled = none }

-- `finish`: the first outcome stays.
abbrev pub finish : Outcome → Follow → Follow
finish outcome follow = elim follow.settled [
  | none ↦ record follow { settled = some outcome }
  | some first ↦ follow
]

abbrev pub try_resolve : Follow → Follow
try_resolve follow = elim follow.sub_id [
  | none ↦ follow
  | some sub ↦
      if includes follow.initialized_by_sub sub then finish (resolved sub) follow else follow
]

abbrev pub is_subscription : Follow → String → Bool
is_subscription follow subscription = elim follow.sub_id [
  | none ↦ false
  | some sub ↦ subscription == sub
]

abbrev pub on_event : Follow → String → FollowEvent → Follow
on_event follow subscription initialized =
    try_resolve (record follow { initialized_by_sub = subscription ∷ follow.initialized_by_sub })
on_event follow subscription stop =
    if is_subscription follow subscription then finish (rejected "stop") follow else follow
on_event follow subscription other = follow

-- `onMsg`, for the request `id`.
abbrev pub on_message : ℕ → Follow → Message → Follow
on_message id follow unparsable = follow
on_message id follow unrelated = follow
on_message id follow (refusal to error) =
    if eqb to id then finish (rejected error) follow else follow
on_message id follow (answer to result) =
    if eqb to id then try_resolve (record follow { sub_id = some result }) else follow
on_message id follow (follow_event subscription event) = on_event follow subscription event

-- What happens on the socket: a message, or the end of the time.
pub data Happening : Type 0 where
  message : (content : Message) → Happening
  init_timeout : Happening

-- The listener and the timer are removed when the promise settles.
abbrev pub happens : ℕ → Follow → Happening → Follow
happens id follow happening = elim follow.settled [
  | some first ↦ follow
  | none ↦ elim happening [
    | message content ↦ on_message id follow content
    | init_timeout ↦ finish (rejected "init-timeout") follow
  ]
]

unfoldable pub follow_and_await : ℕ → Follow → List Happening → Follow
follow_and_await id follow [] = follow
follow_and_await id follow (event ∷ events) = follow_and_await id (happens id follow event) events

-- `rpcCall`: the first answer to the request settles it. The fingerprint ignores what is no JSON,
-- the diagnostic rejects on it, with the parser's error.
abbrev pub on_answer : Bool → ℕ → Option Outcome → Message → Option Outcome
on_answer strict id (some outcome) content = some outcome
on_answer strict id none unparsable = if strict then some (rejected "bad-json") else none
on_answer strict id none (refusal to error) = if eqb to id then some (rejected error) else none
on_answer strict id none (answer to result) = if eqb to id then some (resolved result) else none
on_answer strict id none _ = none

unfoldable pub rpc_call : Bool → String → ℕ → Option Outcome → List Happening → Option Outcome
rpc_call strict method id settled [] = settled
rpc_call strict method id (some outcome) (event ∷ events) = some outcome
rpc_call strict method id none (message content ∷ events) =
    rpc_call strict method id (on_answer strict id none content) events
rpc_call strict method id none (init_timeout ∷ events) =
    some (rejected (cat (method ∷ " timeout" ∷ [])))

-- `probeOnce` of the fingerprint, once the socket is open: the peer before and after the follow.
pub record Probe : Type 0 where
  pub peer_before : Option String
  pub peer_after : Option String
  pub chain_head_ok : Bool

-- `<err: …>` for a call that fails.
abbrev pub peer_text : Outcome → String
peer_text (resolved peer) = peer
peer_text (rejected error) = cat ("<err: " ∷ error ∷ ">" ∷ [])

abbrev pub is_resolved : Outcome → Bool
is_resolved (resolved value) = true
is_resolved (rejected error) = false

abbrev pub probe_once : Option (Outcome × Outcome × Outcome) → Probe
probe_once none = record { peer_before = none; peer_after = none; chain_head_ok = false }
probe_once (some (before, follow, after)) = record {
  peer_before = some (peer_text before);
  peer_after = some (peer_text after);
  chain_head_ok = is_resolved follow;
}

-- A falsy peer is none.
abbrev pub is_sticky : Probe → Bool
is_sticky probe = elim probe.peer_before [
  | none ↦ false
  | some before ↦ elim probe.peer_after [
    | none ↦ false
    | some after ↦ not (is_blank before) && before == after
  ]
]

abbrev pub is_open_failure : Option String → Bool
is_open_failure none = true
is_open_failure (some peer) = is_blank peer || starts "<err" peer

-- `runEndpoint`: the counters, and those of each peer.
pub record PeerTally : Type 0 where
  pub peer_id : String
  pub hits : ℕ
  pub ch_ok : ℕ

pub record Tally : Type 0 where
  pub by_peer : List PeerTally
  pub total_ch : ℕ
  pub total_runs : ℕ
  pub non_sticky : ℕ
  pub open_fails : ℕ

abbrev pub no_runs : Tally
no_runs = record { by_peer = []; total_ch = 0; total_runs = 0; non_sticky = 0; open_fails = 0 }

abbrev pub count_if : Bool → ℕ → ℕ
count_if test n = if test then suc n else n

abbrev pub hit : String → Bool → List PeerTally → List PeerTally
hit peer follows [] = record { peer_id = peer; hits = 1; ch_ok = count_if follows 0 } ∷ []
hit peer follows (p ∷ peers) =
    if p.peer_id == peer
    then record p { hits = suc p.hits; ch_ok = count_if follows p.ch_ok } ∷ peers
    else p ∷ hit peer follows peers

abbrev pub hit_peer : Probe → List PeerTally → List PeerTally
hit_peer probe peers = elim probe.peer_before [
  | none ↦ peers
  | some peer ↦ hit peer probe.chain_head_ok peers
]

abbrev pub count_probe : Tally → Probe → Tally
count_probe tally probe =
    if is_open_failure probe.peer_before
    then record tally { open_fails = suc tally.open_fails }
    else let counted = record tally {
      total_runs = suc tally.total_runs;
      total_ch = count_if probe.chain_head_ok tally.total_ch;
    } in
      if is_sticky probe
      then record counted { by_peer = hit_peer probe tally.by_peer }
      else record counted { non_sticky = suc tally.non_sticky }

unfoldable pub run_endpoint : Tally → List Probe → Tally
run_endpoint tally [] = tally
run_endpoint tally (probe ∷ probes) = run_endpoint (count_probe tally probe) probes
