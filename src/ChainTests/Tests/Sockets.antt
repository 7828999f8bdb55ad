-- ===== src/ChainTests/Tests/Sockets.antt =====
-- The probes of an endpoint on short sequences of messages.
use polkadot_pop_e2e.Common.{
  ◌≡◌, refl, inl, inr, arith, true, false, none, some, List, [], ◌∷◌, length,
}
use polkadot_pop_e2e.ChainTests.Probes.{
  initialized, stop, answer, follow_event, unrelated, resolved, start_follow, Happening, message,
  follow_and_await, Probe, no_runs, run_endpoint,
}
use polkadot_pop_e2e.ChainTests.Probes.Race.{follow_and_await-resolves}
use polkadot_pop_e2e.ChainTests.Probes.Tallies.{Counts, run_endpoint-Counts}

-- The event stands before the answer that names its subscription.
abbrev early_event : List Happening
early_event =
    message unrelated
    ∷ message (follow_event "s1" initialized)
    ∷ message (follow_event "s2" stop)
    ∷ message (answer 4 "other")
    ∷ message (answer 7 "s1")
    ∷ []

follow_and_await-resolves_example :
    (follow_and_await 7 start_follow early_event).settled ≡ some (resolved "s1")
follow_and_await-resolves_example =
    follow_and_await-resolves 7 "s1" early_event (inr (inr (inr (inr (inl refl))))) (inr (inl refl))
      (tt, (tt, (refl, ((λ e. ground arith), ((λ e. refl), tt)))))

abbrev probes : List Probe
probes =
    record { peer_before = some "p1"; peer_after = some "p1"; chain_head_ok = true }
    ∷ record { peer_before = some "p1"; peer_after = some "p2"; chain_head_ok = true }
    ∷ record { peer_before = none; peer_after = none; chain_head_ok = false }
    ∷ []

run_endpoint-Counts_example : Counts (length probes) (run_endpoint no_runs probes)
run_endpoint-Counts_example = run_endpoint-Counts probes
