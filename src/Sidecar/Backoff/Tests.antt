-- ===== src/Sidecar/Backoff/Tests.antt =====
-- The lanes of crates/nrm-sidecar/src/main.rs after three failures.
use nvim_remote_mirror.Prelude.{◌≡◌, refl, none, some, List, [], ◌∷◌, codes, arith}
use nvim_remote_mirror.Sidecar.Backoff.{read, write, lane_backoff}
use nvim_remote_mirror.Sidecar.Backoff.Doubling.{
  Event, marked, cleared, run, last_failure, keeps_away, doubled, twice, lane_backoff-keeps_away,
}

abbrev events : List (Event (Unit {0}))
events =
    marked read 5000 (codes "timeout") none
    ∷ marked write 3000 (codes "closed") none
    ∷ cleared write
    ∷ marked read 1000 (codes "closed") none
    ∷ []

lane_backoff-keeps_away_example :
    lane_backoff read 6000 (run (Unit {0}) events) ≡ keeps_away 6000 (last_failure read events)
lane_backoff-keeps_away_example = lane_backoff-keeps_away read 6000 events (omega arith)

three_seconds_left : keeps_away 6000 (last_failure read events) ≡ some (3000, codes "timeout", none)
unfolding doubled twice
three_seconds_left = refl
