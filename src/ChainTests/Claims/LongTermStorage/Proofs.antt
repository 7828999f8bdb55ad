-- ===== src/ChainTests/Claims/LongTermStorage/Proofs.antt =====
-- lts-claim.ts, `claimLongTermStorage`: what the result that it returns reports.
use mathlib.Core.Option
use mathlib.Core.Path.{subst}
use polkadot_pop_e2e.Common.{
  ℕ, zero, suc, ◌+◌, ◌/◌, ◌≤◌, ◌≡◌, refl, sym, ap, ◌∙◌, arith, not, ◌||◌, ◌⊎◌, Option, none, true,
  [], ◌∷◌, String, some, Option-cases, eqb, Bool-cases, inl, inr, Result, ok, err,
}
use polkadot_pop_e2e.ChainTests.Bytes.{Bytes}
use polkadot_pop_e2e.ChainTests.Task.{World, rejected, Failure, Task, remote, date_now}
use polkadot_pop_e2e.ChainTests.Task.Rules.{
  Ensures, Ensures-bind, Ensures-pure, Ensures-throw, Ensures-any, Runs, Runs-bind, Runs-remote,
}
use polkadot_pop_e2e.ChainTests.Ring.{
  lite_people, RingSnapshot, get_finalized_block, read, fetch_ring_members, encode_members,
  take_ring_snapshot,
}
use polkadot_pop_e2e.ChainTests.Ring.Members.{read-Ensures, fetch_ring_members-Ensures}
use polkadot_pop_e2e.ChainTests.Identity.{person_ring_entropy}
use polkadot_pop_e2e.ChainTests.Contexts.{long_term_storage_context, long_term_storage_context_v012}
use polkadot_pop_e2e.ChainTests.Caches.{RingCache}
use polkadot_pop_e2e.ChainTests.Claims.{
  ClaimEnv, message_of, attempt_of, or_throw, ring_exponent, find_location, max_proof_attempts,
}
use polkadot_pop_e2e.ChainTests.Claims.Alias.Bound.{or_throw-Ensures, IsRingAt}
use polkadot_pop_e2e.ChainTests.Claims.LongTermStorage.{
  is_retryable_claim, FinalizedClaim, LtsClaimResult, LtsTx, LtsArgs, submit_until_finalized,
  submit_people_claim, lts_tx, task_of, settle_claim, claim_attempts, claim_context,
  product_context_suffix, claim_long_term_storage, decoded, is_missing_entry, after_suffix,
}

module _ (env : ClaimEnv) (fuel : ℕ) where
  open env use {people, codec}

  pub record IsRingSnapshot (ring_index : ℕ) (snap : RingSnapshot) : Type 0 where
    pub same_ring : snap.ring_index ≡ ring_index
    pub same_revision :
        snap.revision_index
        ≡ Option.get_or ((people.state_at snap.at lite_people).revision ring_index) 0
    pub ring_at : IsRingAt env fuel snap.at ring_index snap.encoded_members

  take_ring_snapshot-Ensures :
      (ring_index : ℕ)
      → Ensures (take_ring_snapshot people codec fuel ring_index) (IsRingSnapshot ring_index)
  unfolding take_ring_snapshot
  take_ring_snapshot-Ensures ring_index =
      Ensures-bind (get_finalized_block people) _ (Ensures-any _) λ fin _.
        Ensures-bind (read people lite_people (some fin.hash) (λ s. s.revision ring_index)) _
          (read-Ensures people lite_people fin.hash (λ s. s.revision ring_index))
          λ root same.
            Ensures-bind
              (fetch_ring_members people codec lite_people ring_index (some fin.hash) fuel) _
              (fetch_ring_members-Ensures people codec lite_people ring_index fin.hash fuel)
              λ members (n, ends, listed).
                Ensures-bind
                  (or_throw "RangeError: offset is out of bounds" (encode_members codec members)) _
                  (or_throw-Ensures _ (encode_members codec members))
                  λ encoded e. Ensures-pure _ _ (record {
                    same_ring = refl;
                    same_revision = rw same refl;
                    ring_at = record { pages = n; ends = ends; is_encoded = rw (← listed) e };
                  })

  -- The block of a snapshot is the client's answer to the first call that the snapshot makes.
  take_ring_snapshot-finalized :
      (ring_index : ℕ) (w : World)
      → Runs w
          (take_ring_snapshot people codec fuel ring_index)
          (λ snap w'. snap.at ≡ (people.finalized w.calls).hash)
  unfolding take_ring_snapshot get_finalized_block
  take_ring_snapshot-finalized ring_index w =
      Runs-bind w (get_finalized_block people) _ (Runs-remote people.network people.finalized w)
        λ fin w₁ (answered, same).
          Ensures-bind (read people lite_people (some fin.hash) (λ s. s.revision ring_index)) _
            (Ensures-any _)
            (λ root _.
              Ensures-bind
                (fetch_ring_members people codec lite_people ring_index (some fin.hash) fuel) _
                (Ensures-any _)
                (λ members _.
                  Ensures-bind
                    (or_throw "RangeError: offset is out of bounds" (encode_members codec members))
                    _ (Ensures-any _) (λ encoded _. Ensures-pure _ _ (ap (λ b. b.hash) same))))
            w₁

  module _ (args : LtsArgs) where
    -- The suffix that the chain answered with, decoded, or none where the chain has no such storage.
    abbrev pub IsSuffix : Option Bytes → Type 0
    IsSuffix suffix =
        ((call : ℕ) × (people.network.rejection call ≡ none)
          × (suffix ≡ decoded env fuel args (args.network_suffix call)))
        ⊎ ((call : ℕ) × (message : String) × (people.network.rejection call ≡ some message)
            × (is_missing_entry message ≡ true)
            × (suffix ≡ none))

    -- The context of a period: hashed under a suffix that is not empty, the raw one without.
    abbrev pub IsContext : Option Bytes → ℕ → Bytes → Type 0
    IsContext none period context = long_term_storage_context period args.counter ≡ some context
    IsContext (some []) period context =
        long_term_storage_context period args.counter ≡ some context
    IsContext (some (b ∷ bs)) period context =
        long_term_storage_context_v012 env.hashing.blake2b256 (b ∷ bs) period args.counter
        ≡ some context

    claim_context-IsContext :
        (suffix : Option Bytes) (period : ℕ) (context : Bytes)
        → claim_context env fuel args suffix period ≡ some context
        → IsContext suffix period context
    unfolding claim_context
    claim_context-IsContext none period context h = h
    claim_context-IsContext (some []) period context h = h
    claim_context-IsContext (some (b ∷ bs)) period context h = h

    -- The outcome of the read of the suffix.
    abbrev IsAnswer : Result Failure (Option Bytes) → Type 0
    IsAnswer (ok suffix) =
        (call : ℕ) × (people.network.rejection call ≡ none) × (suffix ≡ args.network_suffix call)
    IsAnswer (err e) =
        (call : ℕ) × (message : String) × (people.network.rejection call ≡ some message)
        × (e ≡ rejected message)

    attempt_of-IsAnswer : Ensures (attempt_of (remote people.network args.network_suffix)) IsAnswer
    unfolding remote
    attempt_of-IsAnswer w w' outcome e = elim (Option-cases (people.network.rejection w.calls)) [
      | inl n ↦
          let pair : ◌≡◌ {A = Result Failure (Result Failure (Option Bytes))}
              (ok (ok (args.network_suffix w.calls))) (ok outcome) =
            rw n at (ap (λ p. p.0) e) in
          let same : ok (args.network_suffix w.calls) ≡ outcome = cc in
          subst IsAnswer same (w.calls, n, refl)
      | inr (message, n) ↦
          let pair : ◌≡◌ {A = Result Failure (Result Failure (Option Bytes))}
              (ok (err (rejected message))) (ok outcome) =
            rw n at (ap (λ p. p.0) e) in
          let same : err (rejected message) ≡ outcome = cc in
          subst IsAnswer same (w.calls, message, n, refl)
    ]

    after_suffix-IsSuffix :
        (outcome : Result Failure (Option Bytes))
        → IsAnswer outcome
        → Ensures (after_suffix env fuel args outcome) IsSuffix
    unfolding after_suffix
    after_suffix-IsSuffix (ok suffix) (call, answered, same) =
        Ensures-pure IsSuffix _ (inl (call, answered, ap (decoded env fuel args) same))
    after_suffix-IsSuffix (err e) (call, message, refused, same) =
        elim (Bool-cases (is_missing_entry (message_of e))) [
          | inl missing ↦ rw missing (
              Ensures-pure IsSuffix none (
                inr (
                  call,
                  message,
                  refused,
                  ap (λ x. is_missing_entry (message_of x)) (sym same) ∙ missing,
                  refl,
                )))
          | inr other ↦ rw other (Ensures-throw IsSuffix e)
        ]

    product_context_suffix-IsSuffix : Ensures (product_context_suffix env fuel args) IsSuffix
    unfolding product_context_suffix
    product_context_suffix-IsSuffix =
        Ensures-bind (attempt_of (remote people.network args.network_suffix)) _ attempt_of-IsAnswer
          after_suffix-IsSuffix

    -- The submission that a result reports: a transaction with the context of the reported period,
    -- submitted as the next call after the snapshot whose revision and members it carries.
    pub record IsClaim (r : LtsClaimResult) : Type 0 where
      pub some_attempts : 1 ≤ r.attempts
      pub few_attempts : r.attempts ≤ 3
      pub suffix : Option Bytes
      pub context : Bytes
      pub is_suffix : IsSuffix suffix
      pub is_context : IsContext suffix r.period context
      pub exponent : ℕ
      pub ring_index : ℕ
      pub snap : RingSnapshot
      pub is_snapshot : IsRingSnapshot ring_index snap
      pub before : World
      pub after : World
      pub is_taken : take_ring_snapshot people codec fuel ring_index before ≡ (ok snap, after)
      pub is_finalized : snap.at ≡ (people.finalized before.calls).hash
      pub claim : FinalizedClaim
      pub is_submitted :
          submit_until_finalized
            (args.submit (lts_tx env fuel args context exponent r.period snap) after.calls)
          ≡ ok claim
      pub same_claim : (r.is_ok ≡ claim.is_ok) × (r.block ≡ claim.block)

    task_of-Ensures :
        {A : Type 0} (r : Result Failure A) → Ensures (task_of env fuel args r) (λ a. r ≡ ok a)
    task_of-Ensures (ok a) = Ensures-pure _ a refl
    task_of-Ensures (err e) = Ensures-throw _ e

    submit_people_claim-Runs :
        (tx : LtsTx) (w : World)
        → Runs w
            (submit_people_claim env fuel args tx)
            (λ claim w'. submit_until_finalized (args.submit tx w.calls) ≡ ok claim)
    unfolding submit_people_claim
    submit_people_claim-Runs tx w =
        Runs-bind w (remote people.network (args.submit tx)) _
          (Runs-remote people.network (args.submit tx) w)
          λ watched w₁ (answered, same) w' claim e.
            ap submit_until_finalized (sym same)
            ∙ task_of-Ensures (submit_until_finalized watched) w₁ w' claim e

    attempt_of-Runs :
        (tx : LtsTx) (w : World)
        → Runs w (attempt_of (submit_people_claim env fuel args tx)) (λ outcome w'.
          (claim : FinalizedClaim)
          → outcome ≡ ok claim
          → submit_until_finalized (args.submit tx w.calls) ≡ ok claim)
    attempt_of-Runs tx w w' outcome e claim same = submit_people_claim-Runs tx w w' claim (cc)

    settle_claim-Ensures :
        {P : LtsClaimResult → Type 0} (period attempt : ℕ) (again : Task LtsClaimResult)
        (outcome : Result Failure FinalizedClaim)
        → ((claim : FinalizedClaim)
            → outcome ≡ ok claim
            → P (record {
              is_ok = claim.is_ok;
              block = claim.block;
              period = period;
              attempts = attempt;
            }))
        → Ensures again P
        → Ensures (settle_claim env fuel args period attempt again outcome) P
    unfolding settle_claim
    settle_claim-Ensures period attempt again (ok claim) h k = Ensures-pure _ _ (h claim refl)
    settle_claim-Ensures period attempt again (err e) h k =
        elim (Bool-cases (not (is_retryable_claim e) || eqb attempt max_proof_attempts)) [
          | inl final ↦ rw final (Ensures-throw _ e)
          | inr retry ↦ rw retry k
        ]

    claim_attempts-IsClaim :
        (left : ℕ) (suffix : Option Bytes) (context : Bytes)
        (exponent ring_index period attempt : ℕ)
        → IsSuffix suffix
        → IsContext suffix period context
        → 1 ≤ attempt
        → attempt + left ≤ 4
        → Ensures
            (claim_attempts env fuel args left context exponent ring_index period attempt)
            IsClaim
    unfolding claim_attempts
    claim_attempts-IsClaim zero suffix context exponent ring_index period attempt g e h k =
        Ensures-throw _ _
    claim_attempts-IsClaim (suc left) suffix context exponent ring_index period attempt g e h k =
        λ w.
          let tx = lts_tx env fuel args context exponent period in
          Runs-bind w (take_ring_snapshot people codec fuel ring_index) _
            (λ after snap taken. taken)
            λ snap after taken.
              Runs-bind after (attempt_of (submit_people_claim env fuel args (tx snap))) _
                (attempt_of-Runs (tx snap) after)
                λ outcome w₂ submitted.
                  settle_claim-Ensures period attempt _ outcome
                    (λ claim same. record {
                      some_attempts = h;
                      few_attempts = omega arith;
                      suffix = suffix;
                      context = context;
                      is_suffix = g;
                      is_context = e;
                      exponent = exponent;
                      ring_index = ring_index;
                      snap = snap;
                      is_snapshot = take_ring_snapshot-Ensures ring_index w after snap taken;
                      before = w;
                      after = after;
                      is_taken = taken;
                      is_finalized = take_ring_snapshot-finalized ring_index w after snap taken;
                      claim = claim;
                      is_submitted = submitted claim same;
                      same_claim = (refl, refl);
                    })
                    (claim_attempts-IsClaim left suffix context exponent ring_index period
                      (attempt + 1) g e (omega arith) (omega arith))
                    w₂

    -- A result reports the finalization of the last of one to three submissions. Its transaction is
    -- bound to the context of the reported period and the counter: hashed under the network's suffix
    -- that the chain answered with, raw where that is empty or the chain has no such storage. It was
    -- submitted right after a snapshot, taken at the finalized block that the client answered with
    -- then, whose ring's revision and members it carries.
    pub claim_long_term_storage-IsClaim :
        (cache : RingCache) → Ensures (claim_long_term_storage env fuel args cache) IsClaim
    unfolding claim_long_term_storage
    claim_long_term_storage-IsClaim cache =
        Ensures-bind (find_location env fuel cache (person_ring_entropy env.derivation args.creds))
          _ (Ensures-any _)
          λ location _.
            Ensures-bind (remote people.network args.period_duration) _ (Ensures-any _)
              λ duration _. Ensures-bind date_now _ (Ensures-any date_now) λ now _.
                Ensures-bind (product_context_suffix env fuel args) _
                  product_context_suffix-IsSuffix
                  λ suffix is_suffix.
                    Ensures-bind
                      (or_throw "counter must fit in u8"
                        (claim_context env fuel args suffix (now / 1000 / duration)))
                      _ (or_throw-Ensures _ _)
                      λ context e. Ensures-bind (ring_exponent env) _ (Ensures-any _) λ exponent _.
                        claim_attempts-IsClaim 3 suffix context exponent location.place.ring_index _
                          1 is_suffix (claim_context-IsContext suffix _ context e) (omega arith)
                          (omega arith)
