-- ===== src/ChainTests/Probes/Tallies.antt =====
-- rpc-node-fingerprint.mjs, `runEndpoint`: the counters against the number of probes.
use polkadot_pop_e2e.Common.{
  ℕ, suc, ◌+◌, ◌≤◌, ◌≡◌, refl, inl, inr, arith, String, Bool, true, false, Option, none, some, List,
  [], ◌∷◌, length, Bool-cases,
}
use polkadot_pop_e2e.ChainTests.Probes.{
  Probe, PeerTally, Tally, no_runs, count_if, hit, is_sticky, is_open_failure, count_probe,
  run_endpoint,
}

abbrev pub hits_of : List PeerTally → ℕ
hits_of [] = 0
hits_of (p ∷ peers) = p.hits + hits_of peers

abbrev pub follows_of : List PeerTally → ℕ
follows_of [] = 0
follows_of (p ∷ peers) = p.ch_ok + follows_of peers

-- What a tally says of the number of probes that it counts.
pub record Counts (n : ℕ) (tally : Tally) : Type 0 where
  pub all_probes : tally.open_fails + tally.total_runs ≡ n
  pub all_runs : tally.non_sticky + hits_of tally.by_peer ≡ tally.total_runs
  pub no_more_follows : tally.total_ch ≤ tally.total_runs
  pub peer_follows : follows_of tally.by_peer ≤ tally.total_ch

hit-hits :
    (peer : String) (follows : Bool) (peers : List PeerTally)
    → (hits_of (hit peer follows peers) ≡ suc (hits_of peers))
      × (follows_of (hit peer follows peers) ≡ count_if follows (follows_of peers))
hit-hits peer true [] = (refl, refl)
hit-hits peer false [] = (refl, refl)
hit-hits peer follows (p ∷ peers) = ground (arith, hit-hits peer follows peers)

count_probe-Counts :
    (n : ℕ) (tally : Tally) (before after : Option String) (follows : Bool)
    → Counts n tally
    → Counts (suc n) (
        count_probe tally
          (record { peer_before = before; peer_after = after; chain_head_ok = follows }))
count_probe-Counts n tally none after follows h = record {
  all_probes = ground (arith, h.all_probes);
  all_runs = h.all_runs;
  no_more_follows = h.no_more_follows;
  peer_follows = h.peer_follows;
}
count_probe-Counts n tally (some peer) after follows h =
    let probe : Probe = record {
      peer_before = some peer;
      peer_after = after;
      chain_head_ok = follows;
    } in
    let hits = hit-hits peer follows tally.by_peer in
    elim (Bool-cases (is_open_failure (some peer))) [
      | inl failed ↦ rw failed (record {
        all_probes = ground (arith, h.all_probes);
        all_runs = h.all_runs;
        no_more_follows = h.no_more_follows;
        peer_follows = h.peer_follows;
      })
      | inr opened ↦ elim (Bool-cases (is_sticky probe)) [
        | inl sticky ↦
            rw (opened, sticky)
              (record {
                all_probes = ground (arith, h.all_probes);
                all_runs = ground (arith, h.all_runs, hits);
                no_more_follows = ground (arith, h.no_more_follows);
                peer_follows = ground (arith, h.peer_follows, hits);
              })
        | inr moved ↦
            rw (opened, moved)
              (record {
                all_probes = ground (arith, h.all_probes);
                all_runs = ground (arith, h.all_runs);
                no_more_follows = ground (arith, h.no_more_follows);
                peer_follows = ground (arith, h.peer_follows);
              })
      ]
    ]

run_endpoint-counted :
    (n : ℕ) (tally : Tally) (probes : List Probe)
    → Counts n tally
    → Counts (n + length probes) (run_endpoint tally probes)
unfolding run_endpoint
run_endpoint-counted n tally [] h = let e : n + 0 ≡ n = omega arith in rw e h
run_endpoint-counted n tally (probe ∷ probes) h =
    let e : n + suc (length probes) ≡ suc n + length probes = omega arith in
    rw e (
      run_endpoint-counted (suc n) (count_probe tally probe) probes
        (count_probe-Counts n tally probe.peer_before probe.peer_after probe.chain_head_ok h))

-- The counters of `runEndpoint` add up: each probe is an open failure or a run; each run is one that
-- is not sticky or a hit of one peer; and there are no more follows than runs, and no more follows
-- of peers than follows.
pub run_endpoint-Counts :
    (probes : List Probe) → Counts (length probes) (run_endpoint no_runs probes)
run_endpoint-Counts probes =
    let e : 0 + length probes ≡ length probes = omega arith in
    let counted = run_endpoint-counted 0 no_runs probes (record {
      all_probes = refl;
      all_runs = refl;
      no_more_follows = omega arith;
      peer_follows = omega arith;
    }) in
    rw e at counted
