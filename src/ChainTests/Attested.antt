-- ===== src/ChainTests/Attested.antt =====
-- packages/chain-tests/src/lib/attested-fixture.ts: the account that the tests of a run share. The
-- commands of truapi-host, the random mnemonic and the search's answers are parameters; the files that
-- are read and written are the fields of the stored credentials.
pub mod Sharing
pub mod Searching
use Prim.Native.String
use polkadot_pop_e2e.Common.{
  ℕ, zero, suc, ◌+◌, ◌-◌, String, Bool, true, false, ◌&&◌, not, Option, none, some, List, [], ◌∷◌,
  any, includes, ltb, if◌then◌else◌, ◌==◌, Result, ok, err, mentions,
}
use polkadot_pop_e2e.ChainTests.Bytes.{Bytes}
use polkadot_pop_e2e.ChainTests.Task.{
  Failure, rejected, thrown, out_of_fuel, Network, Task, pure, throw, continue, ◌>>=◌, ◌>>◌, remote,
  sleep, date_now,
}
use polkadot_pop_e2e.ChainTests.Identity.{Derivation, PersonCreds, IdentityKey, person_key}
use polkadot_pop_e2e.ChainTests.Claims.{message_of, attempt_of}

pub record AttestedCredentials : Type 0 where
  pub mnemonic : String
  pub network_suffix : String
  pub address : String
  pub public_key : Bytes
  pub entropy : Bytes
  pub username : String

-- The stored file's fields.
pub record Stored : Type 0 where
  pub network : String
  pub network_suffix : String
  pub mnemonic : String
  pub username : String

pub record AttestedIdentity : Type 0 where
  pub address : String
  pub lite_username : String

-- The network's configuration, the packages, and the answers from outside by the number of the call:
-- `truapi-host attest`, and the search's usernames or a status that is not ok.
pub record Fixture : Type 0 where
  pub network : Network
  pub network_name : String
  pub identity_backend : Option String
  pub tld : String
  pub derivation : Derivation
  pub mnemonic_to_entropy : String → Bytes
  pub fresh_mnemonic : String
  pub assert_pinned_version : Task (Unit {0})
  pub attest : (mnemonic : String) → Task AttestedIdentity
  pub search : ℕ → Option (List String)

abbrev pub search_poll_interval_ms : ℕ
search_poll_interval_ms = 5000

abbrev pub search_timeout_ms : ℕ
search_timeout_ms = 240000

module _ (f : Fixture) where
  abbrev pub credentials_for : (mnemonic suffix username : String) → AttestedCredentials
  credentials_for mnemonic suffix username =
      let entropy = f.mnemonic_to_entropy mnemonic in
      let key = person_key f.derivation (record { entropy = entropy; network_suffix = suffix }) in
      record {
        mnemonic = mnemonic;
        network_suffix = suffix;
        address = key.address;
        public_key = key.public_key;
        entropy = entropy;
        username = username;
      }

  -- A missing or unreadable file is `none`.
  unfoldable pub parse_attested : Option Stored → Option AttestedCredentials
  parse_attested none = none
  parse_attested (some raw) =
      if not (raw.mnemonic == "") && (raw.network == f.network_name && raw.network_suffix == f.tld)
      then some (credentials_for raw.mnemonic raw.network_suffix raw.username)
      else none

  abbrev pub lists : String → Option (List String) → Bool
  lists username none = false
  lists username (some usernames) = includes usernames username

  -- `searchUsername` in its `try`: an error of the call is a poll without the name.
  unfoldable pub search_username : (username : String) → Task Bool
  unfolding remote
  search_username username = do answer ← remote f.network f.search; pure (lists username answer)

  abbrev pub found_in : Result Failure Bool → Bool
  found_in (ok found) = found
  found_in (err e) = false

  -- Found, or another poll after the pause.
  after_search : Result Failure Bool → Task (Unit {0}) → Task (Unit {0})
  unfolding sleep
  after_search outcome again =
      if found_in outcome then pure tt else (sleep f.network search_poll_interval_ms >> again)

  unfoldable pub search_from : (fuel : ℕ) → (username : String) → (start : ℕ) → Task (Unit {0})
  unfolding search_username after_search
  search_from zero username start = throw out_of_fuel
  search_from (suc fuel) username start = do
    now ← date_now
    let more = do
      outcome ← attempt_of (search_username username)
      after_search outcome (search_from fuel username start)
    if ltb (now - start) search_timeout_ms
        then more
        else throw (
            thrown (
              String.◌++◌ "[attested-fixture] "
                (String.◌++◌ username " never reached the backend's search")))

  unfoldable pub wait_for_searchable : (fuel : ℕ) → (username : String) → Task (Unit {0})
  unfolding search_from
  wait_for_searchable fuel username = do start ← date_now; search_from fuel username start

  -- The errors of `attest`, tagged by whose fault they are.
  unfoldable pub tag_attest_error : Failure → Failure
  tag_attest_error e =
      if mentions "[truapi-host-setup]" (message_of e)
      then e
      else if mentions "did not appear in any personhood ring" (message_of e)
      then thrown (String.◌++◌ "Ring inclusion timed out: " (message_of e))
      else thrown (String.◌++◌ "[attested-fixture] " (message_of e))

  abbrev attested : Result Failure AttestedIdentity → Task AttestedIdentity
  attested (ok identity) = pure identity
  attested (err e) = throw (tag_attest_error e)

  -- The credentials that are returned, and the file that is left.
  unfoldable pub attest_fresh : (fuel : ℕ) → Task (AttestedCredentials × Option Stored)
  unfolding tag_attest_error wait_for_searchable
  attest_fresh fuel = do
    pinned ← f.assert_pinned_version
    outcome ← attempt_of (f.attest f.fresh_mnemonic)
    identity ← attested outcome
    let persisted = credentials_for f.fresh_mnemonic f.tld identity.lite_username
    let owned = do
      searchable ← wait_for_searchable fuel identity.lite_username
      pure (
        persisted,
        some (record {
          network = f.network_name;
          network_suffix = persisted.network_suffix;
          mnemonic = f.fresh_mnemonic;
          username = persisted.username;
        }),
      )
    if persisted.address == identity.address
        then owned
        else throw
            (thrown "[truapi-identity] the derivation is out of step with the pinned truapi-host")

  unfoldable pub do_ensure_attested :
      (fuel : ℕ) → Option Stored → Task (AttestedCredentials × Option Stored)
  unfolding parse_attested attest_fresh
  do_ensure_attested fuel stored = reuse (parse_attested stored)
    where
      with_backend : Option String → Task (AttestedCredentials × Option Stored)
      with_backend none =
          throw (thrown "[attested-fixture] Network has no identityBackend configured.")
      with_backend (some url) =
          if url == ""
          then throw (thrown "[attested-fixture] Network has no identityBackend configured.")
          else attest_fresh fuel

      reuse : Option AttestedCredentials → Task (AttestedCredentials × Option Stored)
      reuse (some cached) = pure (cached, stored)
      reuse none = with_backend f.identity_backend

-- The variables of the module: the attempt in flight, by its number, and the failure that is kept. An
-- attempt that succeeded stays in flight, as its promise is returned again.
pub record Shared : Type 0 where
  pub inflight : Option ℕ
  pub cached_failure : Option Failure
  pub started : ℕ

abbrev pub fresh_run : Shared
fresh_run = record { inflight = none; cached_failure = none; started = 0 }

pub data Answer : Type 0 where
  fails_with : Failure → Answer
  joins : (attempt : ℕ) → Answer
  starts_anew : (attempt : ℕ) → Answer

unfoldable pub ensure_attested : Shared → Answer × Shared
ensure_attested s = by_failure s.cached_failure
  where
    by_flight : Option ℕ → Answer × Shared
    by_flight (some attempt) = (joins attempt, s)
    by_flight none =
        (starts_anew s.started, record s { inflight = some s.started; started = suc s.started })

    by_failure : Option Failure → Answer × Shared
    by_failure (some e) = (fails_with e, s)
    by_failure none = by_flight s.inflight

abbrev ib_cascade_prefix : String
ib_cascade_prefix =
    "[ib-cascade] Identity Backend attestation already failed earlier in this run — see Identity Backend Health probe for the real signal"

-- What is kept of the failure of an attempt.
unfoldable pub cascade_of : Failure → Failure
cascade_of e =
    if mentions "[attested-fixture]" (message_of e)
    then thrown
        (String.◌++◌ ib_cascade_prefix (String.◌++◌ "\n\nFirst failure was:\n" (message_of e)))
    else e

-- The `catch` of the attempt.
unfoldable pub on_failure : Failure → Shared → Shared
unfolding cascade_of
on_failure e s = record s { inflight = none; cached_failure = some (cascade_of e) }
