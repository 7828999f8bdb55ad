-- ===== src/ChainTests/Tests/Runs.antt =====
-- stack-config.ts, the contexts, the claims and the shared account on small inputs.
use polkadot_pop_e2e.Common.{
  ℕ, ◌≤◌, ◌≡◌, ◌≢◌, ◌⊎◌, refl, arith, true, none, some, List, [], ◌∷◌, ◌++◌, length, err,
}
use polkadot_pop_e2e.ChainTests.Bytes.{Bytes, zeroed, ascii}
use polkadot_pop_e2e.ChainTests.Task.{Failure, pure, out_of_fuel, date_now}
use polkadot_pop_e2e.ChainTests.Networks.{Stack, select_network}
use polkadot_pop_e2e.ChainTests.Networks.Selection.{Answers, select_network_lem}
use polkadot_pop_e2e.ChainTests.Contexts.Distinct.{
  long_term_storage_context_injective, product_preimage_injective,
}
use polkadot_pop_e2e.ChainTests.Identity.{Derivation, PersonCreds, identity_key, ring_entropy_at}
use polkadot_pop_e2e.ChainTests.Caches.{empty_ring_cache}
use polkadot_pop_e2e.ChainTests.Claims.{ClaimEnv}
use polkadot_pop_e2e.ChainTests.Claims.Alias.{AliasArgs, SetAliasResult, set_alias_account}
use polkadot_pop_e2e.ChainTests.Claims.Alias.Bound.{IsBound, set_alias_account-IsBound}
use polkadot_pop_e2e.ChainTests.Claims.LongTermStorage.{
  LtsArgs, LtsClaimResult, finalized, claim_long_term_storage,
}
use polkadot_pop_e2e.ChainTests.Claims.LongTermStorage.Proofs.{
  IsClaim, claim_long_term_storage-IsClaim,
}
use polkadot_pop_e2e.ChainTests.Attested.{
  Fixture, joins, fails_with, ensure_attested, wait_for_searchable,
}
use polkadot_pop_e2e.ChainTests.Attested.Sharing.{calls, begins, steps, ensure_attested-once}
use polkadot_pop_e2e.ChainTests.Attested.Searching.{
  IsListed, wait_for_searchable-IsListed, wait_for_searchable-Completes,
}
use polkadot_pop_e2e.ChainTests.RuntimeReads.{AssetHub, alias_fee}
use polkadot_pop_e2e.ChainTests.RuntimeReads.Fee.{alias_fee_lem}
use polkadot_pop_e2e.ChainTests.Host.{Host, exits}
use polkadot_pop_e2e.Common.{if◌then◌else◌, eqb, ok, false}
use polkadot_pop_e2e.ChainTests.Requests.{Tracker, sends, receives, settles, step}
use polkadot_pop_e2e.ChainTests.Requests.Settling as Settling
use polkadot_pop_e2e.ChainTests.Tests.{network, chain, codec, start}

abbrev previewnet_fork : Stack
previewnet_fork = record {
  url = "http://127.0.0.1:8090/.well-known/trinity-stack.json";
  descriptor = record {
    id = "previewnet-fork";
    name = "fork";
    tld = "dot";
    fork_of = none;
    services = [];
  };
}

select_network_lem_example :
    Answers
      (some "devnet")
      (some previewnet_fork)
      (select_network (some "devnet") (some previewnet_fork))
select_network_lem_example = select_network_lem (some "devnet") (some previewnet_fork)

abbrev period : ℕ
period = 700

abbrev counter : ℕ
counter = 3

long_term_storage_context_injective_example : (period ≡ period) × (counter ≡ counter)
long_term_storage_context_injective_example =
    long_term_storage_context_injective period period counter counter (omega arith) (omega arith)
      (omega arith) (omega arith) refl

product_preimage_injective_example : (counter ≡ counter) × (period ≡ period) × (counter ≡ counter)
product_preimage_injective_example =
    product_preimage_injective (ascii "dot") counter counter period period counter counter
      (omega arith) (omega arith) (omega arith) (omega arith) (omega arith) (omega arith) refl

abbrev derivation : Derivation
derivation = record {
  blake2b = λ message key. message;
  str_enc = ascii;
  index_bytes = λ n. n ∷ [];
  secret_from_entropy = λ entropy. entropy;
  secret_hard = λ secret chain_code. secret;
  secret_soft = λ secret index. secret;
  public_key_of = λ secret. secret;
  address_of = λ key. "5F";
}

abbrev concatenated : List Bytes → Bytes
concatenated [] = []
concatenated (x ∷ xs) = x ++ concatenated xs

abbrev env : ClaimEnv
env = record {
  people = chain;
  codec = codec;
  derivation = derivation;
  hashing = record { merge_uint8 = concatenated; blake2b256 = λ message. message };
  member_key_hex = λ entropy. "k";
  one_shot = λ exponent entropy members context message. record {
    proof = message;
    alias = entropy ++ context;
  };
  ring_size = λ n. some "R2e9";
}

abbrev creds : PersonCreds
creds = record { entropy = zeroed 32; network_suffix = "dot" }

abbrev alias_args : AliasArgs
alias_args = record {
  creds = creds;
  public_key = zeroed 32;
  context = zeroed 32;
  submit = λ tx n. record { is_ok = true; block = 12; dispatch_error = "" };
}

abbrev alias_registered : SetAliasResult
alias_registered = record {
  block = 12;
  alias = zeroed 64;
  ring_index = 0;
  ring_revision = 7;
  proof_valid_at = 959;
  attempts = 1;
}

set_alias_account-IsBound_example :
    (exponent : ℕ) × IsBound env 2 alias_args exponent alias_registered × (length (zeroed 32) ≡ 32)
unfolding set_alias_account date_now identity_key ring_entropy_at
set_alias_account-IsBound_example =
    set_alias_account-IsBound env 2 alias_args empty_ring_cache start
      (set_alias_account env 2 alias_args empty_ring_cache start).1 alias_registered refl

abbrev lts_args : LtsArgs
lts_args = record {
  creds = creds;
  address = "5F";
  counter = 0;
  period_duration = λ n. 10;
  network_suffix = λ n. none;
  recode = λ bytes. bytes;
  submit = λ tx n. record {
    blocks = none ∷ [];
    end = finalized true (some (record { number = 12; hash = "b" }));
  };
}

abbrev lts_claimed : LtsClaimResult
lts_claimed = record {
  is_ok = true;
  block = some (record { number = 12; hash = "b" });
  period = 101;
  attempts = 1;
}

claim_long_term_storage-IsClaim_example : IsClaim env 2 lts_args lts_claimed
unfolding claim_long_term_storage date_now
claim_long_term_storage-IsClaim_example =
    claim_long_term_storage-IsClaim env 2 lts_args empty_ring_cache start
      (claim_long_term_storage env 2 lts_args empty_ring_cache start).1 lts_claimed refl

ensure_attested-once_example :
    (1 ≤ 1)
    × (1 ≤ 1
        → ((ensure_attested (record { inflight = some 0; cached_failure = none; started = 1 })).0
            ≡ joins 0)
          ⊎ ((e : Failure) × (none ≡ some e)
              × ((ensure_attested
                    (record { inflight = some 0; cached_failure = none; started = 1 })).0
                  ≡ fails_with e)))
unfolding ensure_attested
ensure_attested-once_example =
    ensure_attested-once (record { inflight = some 0; cached_failure = none; started = 1 })
      (steps begins (calls refl))

abbrev fixture : Fixture
fixture = record {
  network = network;
  network_name = "previewnet";
  identity_backend = some "http://ib";
  tld = "dot";
  derivation = derivation;
  mnemonic_to_entropy = λ mnemonic. zeroed 32;
  fresh_mnemonic = "bottom drive";
  assert_pinned_version = pure tt;
  attest = λ mnemonic. pure (record { address = "5F"; lite_username = "etest" });
  search = λ n. some ("etest" ∷ []);
}

wait_for_searchable-IsListed_example : IsListed fixture "etest"
unfolding wait_for_searchable date_now
wait_for_searchable-IsListed_example =
    wait_for_searchable-IsListed fixture "etest" 1 start
      (wait_for_searchable fixture 1 "etest" start).1 tt refl

wait_for_searchable-Completes_example :
    (wait_for_searchable fixture 49 "etest" start).0 ≢ err out_of_fuel
wait_for_searchable-Completes_example =
    wait_for_searchable-Completes fixture "etest" 49 (omega arith) start

abbrev hub : AssetHub
hub = record {
  network = record {
    latency = λ n. 100;
    rejection = λ n. if eqb n 0 then some "no such constant" else none;
  };
  current_generation = λ n. 1;
  ring_roots = λ generation collection ring n. some (7 ∷ []);
  legacy_ring_roots = λ collection ring n. some (6 ∷ []);
  fee_constant = λ n. some 5;
  fee_storage = λ n. some 1000;
}

alias_fee_lem_example : (alias_fee hub start).0 ≡ ok (some 1000)
alias_fee_lem_example = alias_fee_lem hub start

abbrev lagging : Host
lagging = record {
  network = network;
  pinned = ok tt;
  has_preset = true;
  run = λ command timeout n. exits false "Asset Hub has not imported ring 0";
}

abbrev answered : Tracker
answered = record { waiting = []; on_settled = [] }

-- A statement request is sent, someone waits for its answer, and the answer comes.
Reaches-settled_example : answered.on_settled ≡ []
unfolding step
Reaches-settled_example =
    Settling.Reaches-settled answered
      (Settling.steps (receives (some 1) [])
        (Settling.steps (settles 9)
          (Settling.steps (sends (record { id = some 1; method = "statement_submit" }))
            Settling.begins refl)
          refl)
        refl)
      refl
