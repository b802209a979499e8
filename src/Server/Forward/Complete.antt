-- ===== src/Server/Forward/Complete.antt =====
-- crates/eggwork-server/src/lib.rs, `run_execution`: how its loop ends, and what it has forwarded.
use eggwork.Prelude.{
  ◌≡◌, ◌∙◌, refl, Bool, true, false, not, List, [], ◌∷◌, ◌++◌, map, Option, none, some, ok, err,
  if◌then◌else◌,
}
use eggwork.Prelude.Bytes.{bytes}
use eggwork.Store.Tables.{Json, Db}
use eggwork.Runner.Setup.{RunnerError}
use eggwork.Runner.Report.{RunnerResult}
use eggwork.Server.Records.{ExecutionRecord}
use eggwork.Server.Forward.{
  OutputChunk, Joined, returned, broken, Ready, output, no_output, joined, Loop, done, panicked,
  forward_chunk, with_joined, forward, begin,
}

-- The orders in which the runner and its channel can end: the channel has ended when the runner
-- does, which the loop has seen or not; or the runner ends first, and more output follows.
pub data Run : Type 0 where
  together channel_first : List OutputChunk → Joined → Run
  runner_first : List OutputChunk → Joined → List OutputChunk → Run

-- What `select!` finds ready.
abbrev pub seen : Run → List Ready
seen (together cs how) = map output cs ++ joined how true ∷ []
seen (channel_first cs how) = map output cs ++ no_output ∷ joined how true ∷ []
seen (runner_first cs how late) =
    map output cs ++ (joined how false ∷ (map output late ++ no_output ∷ []))

-- The output, in the order in which it was sent.
abbrev pub sent : Run → List OutputChunk
sent (together cs how) = cs
sent (channel_first cs how) = cs
sent (runner_first cs how late) = cs ++ late

abbrev pub ended : Run → Joined
ended (together cs how) = how
ended (channel_first cs how) = how
ended (runner_first cs how late) = how

-- The channel's end is seen by a round of its own.
abbrev pub sees_end : Run → Bool
sees_end (together cs how) = false
sees_end (channel_first cs how) = true
sees_end (runner_first cs how late) = true

abbrev pub has_result : Joined → Bool
has_result (returned (ok value)) = true
has_result (returned (err error)) = false
has_result broken = false

-- The runner failed before its channel had ended.
abbrev pub fails_early : Run → Bool
fails_early (together cs how) = false
fails_early (channel_first cs how) = false
fails_early (runner_first cs how late) = not (has_result how)

module _ (js : Json) where
  open js use {Encoded}

  abbrev pub forward_all :
      List OutputChunk → ExecutionRecord × Db Encoded → ExecutionRecord × Db Encoded
  forward_all [] shared = shared
  forward_all (c ∷ cs) shared = forward_all cs (forward_chunk js c shared)

  forward_all-append :
      (cs ds : List OutputChunk) (shared : ExecutionRecord × Db Encoded)
      → forward_all (cs ++ ds) shared ≡ forward_all ds (forward_all cs shared)
  forward_all-append [] ds shared = refl
  forward_all-append (c ∷ cs) ds shared = forward_all-append cs ds (forward_chunk js c shared)

  -- The loop's variables while the channel is open.
  abbrev opened : Option RunnerResult → Option RunnerError → ExecutionRecord × Db Encoded → Loop js
  opened result error shared = record {
    result = result;
    runner_error = error;
    output_closed = false;
    shared = shared;
  }

  forward-output :
      (cs : List OutputChunk) (xs : List Ready) (result : Option RunnerResult)
      (error : Option RunnerError) (shared : ExecutionRecord × Db Encoded)
      → forward js (map output cs ++ xs) (opened result error shared)
        ≡ forward js xs (opened result error (forward_all cs shared))
  unfolding forward
  forward-output [] xs result error shared = refl
  forward-output (c ∷ cs) xs result error shared =
      forward-output cs xs result error (forward_chunk js c shared)

  abbrev pub final : Run → ExecutionRecord × Db Encoded → Loop js
  final t shared =
      with_joined js (ended t)
        (record (begin js (forward_all (sent t) shared)) { output_closed = sees_end t })

-- In each of these orders, and for every output, the loop calls `publish` for all output, in the
-- order in which it was sent, and none twice, and holds the runner's result or error. It is left,
-- but where the runner failed before its channel had ended: there it panics, and the execution is
-- not settled.
pub forward-outcome :
    (js : Json) (t : Run) (shared : ExecutionRecord × Db js.Encoded)
    → forward js (seen t) (begin js shared)
      ≡ (if fails_early t then panicked (final js t shared) else done (final js t shared))
unfolding forward
forward-outcome js (together cs how) shared =
    forward-output js cs (joined how true ∷ []) none none shared
forward-outcome js (channel_first cs how) shared =
    forward-output js cs (no_output ∷ joined how true ∷ []) none none shared
forward-outcome js (runner_first cs (returned (ok value)) late) shared =
    rw (forward_all-append js cs late shared) (
      forward-output js cs
        (joined (returned (ok value)) false ∷ (map output late ++ no_output ∷ [])) none none shared
      ∙ forward-output js late (no_output ∷ []) (some value) none (forward_all js cs shared))
forward-outcome js (runner_first cs (returned (err error)) late) shared =
    rw (forward_all-append js cs late shared) (
      forward-output js cs
        (joined (returned (err error)) false ∷ (map output late ++ no_output ∷ [])) none none shared
      ∙ forward-output js late (no_output ∷ []) none (some error) (forward_all js cs shared))
forward-outcome js (runner_first cs broken late) shared =
    rw (forward_all-append js cs late shared) (
      forward-output js cs (joined broken false ∷ (map output late ++ no_output ∷ [])) none none
        shared
      ∙ forward-output js late (no_output ∷ []) none
          (some (RunnerError.wait (bytes "runner task failed"))) (forward_all js cs shared))
