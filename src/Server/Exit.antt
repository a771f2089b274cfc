-- ===== src/Server/Exit.antt =====
-- The exit code of `main` of cmd/server/main.go against the events of `run`.
use overload_party_matchmaki.Prelude.{
  Text, false, ◌≡◌, refl, ap, ◌∙◌, [], some, Result-cases, inl, inr,
}
use overload_party_matchmaki.Server.{Libraries, run, main}
use overload_party_matchmaki.Server.Events.{open_after, open_after-run}
use overload_party_matchmaki.Server.Shutdown.{idle, watch, fails_late, outcome, watch-run}

module _ (out : Libraries) where
  -- If the process exits with the code 0, the matcher was waited for before a client of it was closed, and
  -- every client was closed.
  main-exits_well :
      (env : Text → Text)
      → (main out env).1 ≡ 0
      → (watch idle (main out env).0 ≡ idle) × (open_after [] (main out env).0 ≡ some [])
  unfolding main fails_late
  main-exits_well env = elim (Result-cases (run out env).1) [
    | inl (e, bad) ↦ λ h. let failed : (main out env).1 ≡ 1 = rw (bad, main) refl in absurd (cc)
    | inr (u, good) ↦ λ h.
        let well : fails_late (run out env).1 ≡ false = rw (good) refl in
        (watch-run out env ∙ ap outcome well, open_after-run out env)
  ]
