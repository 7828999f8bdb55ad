-- ===== src/ChainTests/Claims/Alias/Bound.antt =====
-- alias-claim.ts, `setAliasAccount`: what the alias that it returns was computed from.
use mathlib.Core.Option
use mathlib.Core.Path.{subst}
use polkadot_pop_e2e.Common.{
  ℕ, zero, suc, ◌+◌, ◌-◌, ◌/◌, ◌≤◌, ◌≡◌, refl, sym, ap, ◌∙◌, true, arith, String, not, ◌||◌, Option,
  none, some, map, take, length, eqb, eqb→eq, Bool-cases, inl, inr, Result, ok, err,
}
use polkadot_pop_e2e.ChainTests.Bytes.{Bytes}
use polkadot_pop_e2e.ChainTests.Task.{World, Failure, Task, remote, date_now}
use polkadot_pop_e2e.ChainTests.Task.Rules.{
  Ensures, Ensures-bind, Ensures-pure, Ensures-throw, Ensures-any, Runs, Runs-bind, Runs-date_now,
  Runs-remote,
}
use polkadot_pop_e2e.ChainTests.Ring.{
  lite_people, get_finalized_block, read, fetch_ring_members, encode_members,
}
use polkadot_pop_e2e.ChainTests.Ring.Members.{
  EndsAfter, keys_from, read-Ensures, fetch_ring_members-Ensures,
}
use polkadot_pop_e2e.ChainTests.Identity.{person_key, person_ring_entropy}
use polkadot_pop_e2e.ChainTests.Contexts.{proof_message}
use polkadot_pop_e2e.ChainTests.Caches.{RingCache}
use polkadot_pop_e2e.ChainTests.Claims.{
  ClaimEnv, attempt_of, or_throw, ring_exponent, find_location, max_proof_attempts,
}
use polkadot_pop_e2e.ChainTests.Claims.Alias.{
  SetAliasResult, Snapshot, AliasArgs, take_snapshot, submit_alias, settle_attempt,
  is_retryable_alias, AliasTx, alias_attempt, alias_attempts, shot_of, alias_tx, alias_result,
  check_key, set_alias_account,
}

pub or_throw-Ensures :
    {A : Type 0} (message : String) (o : Option A) → Ensures (or_throw message o) (λ a. o ≡ some a)
or_throw-Ensures message none = Ensures-throw _ _
or_throw-Ensures message (some a) = Ensures-pure _ a refl

module _ (env : ClaimEnv) (fuel : ℕ) where
  open env use {people, codec}

  -- The members of the ring that its root includes, at a block.
  pub record IsRingAt (hash : String) (ring_index : ℕ) (encoded : Bytes) : Type 0 where
    pub pages : ℕ
    pub ends : EndsAfter (people.state_at hash lite_people) ring_index 0 pages
    pub is_encoded :
        encode_members codec (
          take
            ((people.state_at hash lite_people).included ring_index)
            (map codec.from_hex (keys_from (people.state_at hash lite_people) ring_index 0 pages)))
        ≡ some encoded

  -- The revision and the members of a snapshot are those of one block.
  pub record IsSnapshot (ring_index : ℕ) (snap : Snapshot) : Type 0 where
    pub same_revision :
        snap.ring_revision
        ≡ Option.get_or ((people.state_at snap.at lite_people).revision ring_index) 0
    pub ring_at : IsRingAt snap.at ring_index snap.encoded_members

  take_snapshot-IsSnapshot :
      (ring_index : ℕ) → Ensures (take_snapshot env fuel ring_index) (IsSnapshot ring_index)
  unfolding take_snapshot
  take_snapshot-IsSnapshot ring_index =
      Ensures-bind (get_finalized_block people) _ (Ensures-any _) λ fin _.
        Ensures-bind (read people lite_people (some fin.hash) (λ s. s.revision ring_index)) _
          (read-Ensures people lite_people fin.hash (λ s. s.revision ring_index))
          λ root same.
            Ensures-bind
              (fetch_ring_members people codec lite_people ring_index (some fin.hash) fuel) _
              (fetch_ring_members-Ensures people codec lite_people ring_index fin.hash fuel)
              λ members (n, ends, listed).
                Ensures-bind
                  (or_throw "RangeError: offset is out of bounds" (encode_members codec members)) _
                  (or_throw-Ensures _ (encode_members codec members))
                  λ encoded e. Ensures-pure _ _ (record {
                    same_revision = rw same refl;
                    ring_at = record { pages = n; ends = ends; is_encoded = rw (← listed) e };
                  })

  -- The block of a snapshot is the client's answer to the first call that the snapshot makes.
  take_snapshot-finalized :
      (ring_index : ℕ) (w : World)
      → Runs w
          (take_snapshot env fuel ring_index)
          (λ snap w'. snap.at ≡ (people.finalized w.calls).hash)
  unfolding take_snapshot get_finalized_block
  take_snapshot-finalized ring_index w =
      Runs-bind w (get_finalized_block people) _ (Runs-remote people.network people.finalized w)
        λ fin w₁ (answered, same).
          Ensures-bind (read people lite_people (some fin.hash) (λ s. s.revision ring_index)) _
            (Ensures-any _)
            (λ root _.
              Ensures-bind
                (fetch_ring_members people codec lite_people ring_index (some fin.hash) fuel) _
                (Ensures-any _)
                (λ members _.
                  Ensures-bind
                    (or_throw "RangeError: offset is out of bounds" (encode_members codec members))
                    _ (Ensures-any _) (λ encoded _. Ensures-pure _ _ (ap (λ b. b.hash) same))))
            w₁

  or_throw-Runs :
      {A : Type 0} (message : String) (o : Option A) (w : World)
      → Runs w (or_throw message o) (λ a w'. (o ≡ some a) × (w' ≡ w))
  or_throw-Runs message none w w' a e = cc
  or_throw-Runs message (some b) w w' a e = (cc, cc)

  module _ (args : AliasArgs) where
    -- A registration that a transaction's submission, as a call of this number, reports.
    abbrev pub IsRegistered : AliasTx → ℕ → ℕ → Type 0
    IsRegistered tx call block =
        ((args.submit tx call).is_ok ≡ true) × (block ≡ (args.submit tx call).block)

    -- The result of a claim: at most three attempts, of which the last took the snapshot `snap` and
    -- then, as its next call, submitted the transaction with the proof over the snapshot, which was
    -- registered in the reported block. The snapshot's block is the finalized one that the client
    -- answered with when the snapshot began, the revision of its ring is reported, and the alias was
    -- computed from its members, for the message of the reported time.
    pub record IsBound (exponent : ℕ) (r : SetAliasResult) : Type 0 where
      pub some_attempts : 1 ≤ r.attempts
      pub few_attempts : r.attempts ≤ 3
      pub snap : Snapshot
      pub is_snapshot : IsSnapshot r.ring_index snap
      pub before : World
      pub after : World
      pub is_taken : take_snapshot env fuel r.ring_index before ≡ (ok snap, after)
      pub is_finalized : snap.at ≡ (people.finalized before.calls).hash
      pub same_revision : r.ring_revision ≡ snap.ring_revision
      pub message : Bytes
      pub is_message : proof_message env.hashing args.public_key r.proof_valid_at ≡ some message
      pub same_alias :
          r.alias
          ≡ (env.one_shot exponent
              (person_ring_entropy env.derivation args.creds)
              snap.encoded_members
              args.context
              message).alias
      pub is_registered :
          IsRegistered
            (record {
              proof =
                  (env.one_shot exponent
                    (person_ring_entropy env.derivation args.creds)
                    snap.encoded_members
                    args.context
                    message).proof;
              ring_index = r.ring_index;
              ring_revision = snap.ring_revision;
              context = args.context;
              proof_valid_at = r.proof_valid_at;
            })
            after.calls
            r.block

    submit_alias-IsRegistered :
        (tx : AliasTx) (w : World)
        → Runs w (submit_alias env fuel args tx) (λ block w'. IsRegistered tx w.calls block)
    unfolding submit_alias
    submit_alias-IsRegistered tx w =
        Runs-bind w (remote people.network (args.submit tx)) _
          (Runs-remote people.network (args.submit tx) w)
          λ result w₁ (answered, same). elim (Bool-cases result.is_ok) [
            | inr failed ↦ rw failed (Ensures-throw _ _ w₁)
            | inl registered ↦ rw registered (
                Ensures-pure (λ block. IsRegistered tx w.calls block) result.block
                  (ap (λ r. r.is_ok) (sym same) ∙ registered, ap (λ r. r.block) same) w₁)
          ]

    settle_attempt-Ensures :
        {P : SetAliasResult → Type 0} (attempt : ℕ) (result : ℕ → SetAliasResult)
        (again : Task SetAliasResult) (outcome : Result Failure ℕ)
        → ((block : ℕ) → outcome ≡ ok block → P (result block))
        → Ensures again P
        → Ensures (settle_attempt env fuel args attempt result again outcome) P
    unfolding settle_attempt
    settle_attempt-Ensures attempt result again (ok block) h k = Ensures-pure _ _ (h block refl)
    settle_attempt-Ensures attempt result again (err e) h k =
        elim (Bool-cases (not (is_retryable_alias e) || eqb attempt max_proof_attempts)) [
          | inl final ↦ rw final (Ensures-throw _ e)
          | inr retry ↦ rw retry k
        ]

    attempt_of-IsRegistered :
        (tx : AliasTx) (w : World)
        → Runs w
            (attempt_of (submit_alias env fuel args tx))
            (λ outcome w'. (block : ℕ) → outcome ≡ ok block → IsRegistered tx w.calls block)
    attempt_of-IsRegistered tx w w' outcome e block same =
        submit_alias-IsRegistered tx w w' block (cc)

    alias_attempts-IsBound :
        (left exponent ring_index attempt : ℕ)
        → 1 ≤ attempt
        → attempt + left ≤ 4
        → Ensures
            (alias_attempts env fuel args left exponent ring_index attempt)
            (λ r. IsBound exponent r × (r.ring_index ≡ ring_index))
    unfolding alias_attempts alias_attempt
    alias_attempts-IsBound zero exponent ring_index attempt h k = Ensures-throw _ _
    alias_attempts-IsBound (suc left) exponent ring_index attempt h k = λ w.
        Runs-bind w (take_snapshot env fuel ring_index) _ (λ after snap taken. taken)
          λ snap after taken. Runs-bind after date_now _ (Runs-date_now after) λ now w₂ same₂.
            Runs-bind w₂
              (or_throw "Expected 32-byte account public key"
                (proof_message env.hashing args.public_key (now / 1000 - 60)))
              _ (or_throw-Runs _ _ w₂)
              λ message w₃ (is_message, same₃).
                let shot = shot_of env fuel args exponent snap message in
                let tx = alias_tx env fuel args ring_index (now / 1000 - 60) snap shot in
                Runs-bind w₃ (attempt_of (submit_alias env fuel args tx)) _
                  (attempt_of-IsRegistered tx w₃)
                  λ outcome w₄ registered.
                    settle_attempt-Ensures attempt
                      (alias_result env fuel args ring_index (now / 1000 - 60) attempt snap shot) _
                      outcome
                      (λ block same. (
                        record {
                          some_attempts = h;
                          few_attempts = omega arith;
                          snap = snap;
                          is_snapshot = take_snapshot-IsSnapshot ring_index w after snap taken;
                          before = w;
                          after = after;
                          is_taken = taken;
                          is_finalized = take_snapshot-finalized ring_index w after snap taken;
                          same_revision = refl;
                          message = message;
                          is_message = is_message;
                          same_alias = refl;
                          is_registered =
                              subst (λ v. IsRegistered tx v.calls block) (same₃ ∙ same₂)
                                (registered block same);
                        },
                        refl,
                      ))
                      (alias_attempts-IsBound left exponent ring_index (attempt + 1) (omega arith)
                        (omega arith))
                      w₄

    -- An alias that is returned was registered, in the block that is reported and after one to three
    -- attempts, for a context of 32 bytes: the submission's result was ok. Right before it the last
    -- attempt took its snapshot, at the finalized block that the client answered with then; the alias
    -- and the submitted proof are computed from the members that the root includes at that block,
    -- whose revision is submitted and reported, and for the proof message of the reported time.
    pub set_alias_account-IsBound :
        (cache : RingCache)
        → Ensures
            (set_alias_account env fuel args cache)
            (λ r. (exponent : ℕ) × IsBound exponent r × (length args.context ≡ 32))
    unfolding set_alias_account
    set_alias_account-IsBound cache = elim (Bool-cases (eqb (length args.context) 32)) [
      | inr wrong ↦ rw wrong (Ensures-throw _ _)
      | inl right ↦ rw right (
          Ensures-bind
            (find_location env fuel cache (person_ring_entropy env.derivation args.creds)) _
            (Ensures-any _)
            λ location _.
              Ensures-bind
                (check_key (person_key env.derivation args.creds).public_key args.public_key) _
                (Ensures-any _)
                λ same_key _.
                  Ensures-bind (ring_exponent env) _ (Ensures-any _) λ exponent _ w w' r e. (
                    exponent,
                    (alias_attempts-IsBound 3 exponent location.place.ring_index 1 (omega arith)
                        (omega arith) w w' r e).0,
                    eqb→eq _ _ right,
                  ))
    ]
