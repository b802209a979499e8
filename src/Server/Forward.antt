-- ===== src/Server/Forward.antt =====
-- crates/eggwork-server/src/lib.rs: the loop of `run_execution` that forwards the runner's output
-- until the runner has ended. What its `select!` finds ready, round after round, is a list; a
-- `select!` whose branches are all disabled panics, since it has no `else`.
pub mod Complete
use eggwork.Prelude.{
  ℕ, Bool, true, false, not, ◌&&◌, ◌||◌, List, [], ◌∷◌, ◌++◌, map, Option, none, some, is_some,
  Result, ok, err, if◌then◌else◌,
}
use eggwork.Prelude.Bytes.{Bytes, bytes}
use eggwork.Core.Execution.{running, EventKind}
use eggwork.Store.Tables.{Json, Db}
use eggwork.Runner.Setup.{RunnerError}
use eggwork.Runner.Report.{RunnerResult}
use eggwork.Server.Records.{ExecutionRecord, publish}

-- A piece of output, and the time at which it is published.
pub record OutputChunk : Type 0 where
  pub stderr : Bool
  pub content : Bytes
  pub now : ℕ

-- How the runner's task ended: with the runner's result, or itself broken.
pub data Joined : Type 0 where
  returned : Result RunnerError RunnerResult → Joined
  broken : Joined

-- What a branch gives: a piece of output, the channel's end, or the runner's end, with whether the
-- channel is closed and empty by then.
pub data Ready : Type 0 where
  output : OutputChunk → Ready
  no_output : Ready
  joined : Joined → Bool → Ready

abbrev pub kind_of : OutputChunk → EventKind
kind_of c = if c.stderr then EventKind.stderr c.content else EventKind.stdout c.content

module _ (js : Json) where
  open js use {Encoded}

  -- The variables of the loop, with the record and the tables.
  pub record Loop : Type 0 where
    pub result : Option RunnerResult
    pub runner_error : Option RunnerError
    pub output_closed : Bool
    pub shared : ExecutionRecord × Db Encoded

  pub data RoundEnd : Type 0 where
    again stop : Loop → RoundEnd

  pub data Left : Type 0 where
    -- the loop was left, it panicked, or it waits for a branch
    done panicked waiting : Loop → Left

  abbrev pub forward_chunk :
      OutputChunk → ExecutionRecord × Db Encoded → ExecutionRecord × Db Encoded
  forward_chunk c shared = publish js c.now running none (kind_of c) shared

  abbrev pub is_joined : Loop → Bool
  is_joined s = is_some s.result || is_some s.runner_error

  abbrev pub with_joined : Joined → Loop → Loop
  with_joined (returned (ok value)) s = record s { result = some value }
  with_joined (returned (err error)) s = record s { runner_error = some error }
  with_joined broken s = record s {
    runner_error = some (RunnerError.wait (bytes "runner task failed"));
  }

  -- One round; a branch that is disabled does not run.
  abbrev pub round : Ready → Loop → RoundEnd
  round (output c) s =
      let next = record s { shared = forward_chunk c s.shared } in
      if s.output_closed then again s else again next
  round no_output s =
      let next = record s { output_closed = true } in
      if s.output_closed then again s else if is_some s.result then stop next else again next
  round (joined how drained) s =
      let next = with_joined how s in
      if is_joined s then again s else if drained then stop next else again next

  abbrev pub resume_round : (Loop → Left) → RoundEnd → Left
  resume_round more (again s) = more s
  resume_round more (stop s) = done s

  -- The `loop`
  unfoldable pub forward : List Ready → Loop → Left
  forward [] s = if s.output_closed && is_joined s then panicked s else waiting s
  forward (x ∷ xs) s =
      let rest = resume_round (λ s. forward xs s) (round x s) in
      if s.output_closed && is_joined s then panicked s else rest

  -- The variables before the loop.
  abbrev pub begin : ExecutionRecord × Db Encoded → Loop
  begin shared = record {
    result = none;
    runner_error = none;
    output_closed = false;
    shared = shared;
  }
