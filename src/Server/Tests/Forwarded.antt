-- ===== src/Server/Tests/Forwarded.antt =====
-- The loop of `run_execution` at work: the reader of standard output fails, and the other reader
-- has a piece of output left.
use eggwork.Prelude.{◌≡◌, refl, [], ◌∷◌, err, true, false, if◌then◌else◌}
use eggwork.Prelude.Bytes.{bytes}
use eggwork.Runner.Setup.{RunnerError}
use eggwork.Server.Forward.{OutputChunk, returned, done, panicked, begin, forward}
use eggwork.Server.Forward.Complete.{Run, runner_first, seen, fails_early, final, forward-outcome}
use eggwork.Server.Tests.{kept, job, admitted}

abbrev first_line : OutputChunk
first_line = record { stderr = false; content = bytes "one"; now = 120 }

abbrev last_line : OutputChunk
last_line = record { stderr = true; content = bytes "two"; now = 130 }

abbrev broken_pipe : Run
broken_pipe =
    runner_first (first_line ∷ []) (returned (err (RunnerError.io (bytes "pipe")))) (last_line ∷ [])

panics : fails_early broken_pipe ≡ true
panics = refl

forward-outcome_example : forward kept (seen broken_pipe) (begin kept (job, admitted)) ≡ (
    if fails_early broken_pipe
    then panicked (final kept broken_pipe (job, admitted))
    else done (final kept broken_pipe (job, admitted)))
forward-outcome_example = forward-outcome kept broken_pipe (job, admitted)
