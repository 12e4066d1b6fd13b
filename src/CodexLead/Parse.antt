-- ===== src/CodexLead/Parse.antt =====
-- `parse_reply`, `task_spec` and `team_result` of crates/agentmosaic-runtime/src/codex_lead.rs.
use Prim.Native.String
use Prim.Native.String.{len}
use research_agent_system.Common.{
  ℕ, String, ◌||◌, not, Option, none, some, List, [], ◌∷◌, ◌++◌, any, contains, length, is_empty,
  ◌==◌, nat_eq, string_eq, ltb, Result, ok, map_ok, map_err,
}
use research_agent_system.Common.Fallible.{◌>>=◌, ◌>>◌, refuse_if, collect}
use research_agent_system.Common.Decimal.{decimal}
use research_agent_system.Common.Trim.{trim, trim_matches, is_ascii_whitespace, is_empty_text}
use research_agent_system.Board.Data.{SelectedArtifactRef}
use research_agent_system.Scheduler.Schedule.{TaskSpec}
use research_agent_system.Lead.Data.{TeamResult, LeadDecision}
use research_agent_system.CodexLead.Config.{
  max_delegated_tasks, max_selected_ids, max_selected_artifacts,
}
use research_agent_system.CodexLead.Wire.{
  TaskWire, to_task_kind, ArtifactWire, DecisionWire, delegate, follow_up, complete, Reader,
  is_sha256_hex,
}

infixr 65 ◌^◌
abbrev ◌^◌ : String → String → String
s ^ t = String.◌++◌ s t

-- an id that stands before itself in the list; `earlier` is `selected_task_ids[..index]`
unfoldable pub check_repeats : List ℕ → List ℕ → Result String (Unit {0})
check_repeats earlier [] = ok tt
check_repeats earlier (id ∷ ids) = do
  refuse_if (contains id earlier) ("selected_task_ids repeats task " ^ decimal id)
  check_repeats (earlier ++ id ∷ []) ids

unfoldable pub check_target : List String → Option String → Result String (Option String)
check_target candidates none = ok none
check_target candidates (some target) = do
  refuse_if (not (any (λ candidate. candidate == target) candidates))
      ("target `" ^ target ^ "` is not one of the routable candidates")
  ok (some target)

unfoldable pub task_spec : List String → TaskWire → Result String TaskSpec
task_spec candidates task =
    let objective = trim task.objective in
    do
      refuse_if (is_empty_text objective) "every task objective must be non-empty"
      target ← check_target candidates task.target
      ok (record {
        objective = objective;
        kind = to_task_kind task.kind;
        target = target;
        parent = none;
        context = [];
      })

-- the body of the loop over the selected artifacts
unfoldable pub artifact_ref : List ℕ → ArtifactWire → Result String SelectedArtifactRef
artifact_ref selected_task_ids artifact =
    let path = trim artifact.path in
    do
      refuse_if (is_empty_text path) "every selected artifact needs a non-empty path"
      refuse_if (not (contains artifact.task_id selected_task_ids)) (
          "selected artifact `"
          ^ path
          ^ "` names task "
          ^ decimal artifact.task_id
          ^ ", which is not in selected_task_ids")
      refuse_if (not (is_sha256_hex artifact.sha256)) (
          "selected artifact `" ^ path
          ^ "` has a malformed sha256: expected 64 lowercase hex characters")
      ok (record {
        task_id = artifact.task_id;
        artifact = record { path = path; sha256 = artifact.sha256 };
      })

unfoldable pub team_result : ℕ → String → List ℕ → List ArtifactWire → Result String TeamResult
team_result max_answer_bytes text selected_task_ids selected_artifacts =
    let answer = trim text in
    do
      refuse_if (is_empty_text answer) "a complete answer must be non-empty"
      refuse_if (ltb max_answer_bytes (len answer)) (
          "the complete answer is "
          ^ decimal (len answer)
          ^ " bytes, over the "
          ^ decimal max_answer_bytes
          ^ "-byte bound")
      refuse_if (is_empty selected_task_ids)
          "complete requires at least one selected_task_ids entry"
      refuse_if (ltb max_selected_ids (length selected_task_ids)) (
          "complete selects "
          ^ decimal (length selected_task_ids)
          ^ " task ids, over the 256-id bound")
      check_repeats [] selected_task_ids
      refuse_if (ltb max_selected_artifacts (length selected_artifacts)) (
          "complete selects "
          ^ decimal (length selected_artifacts)
          ^ " artifacts, over the 256-artifact bound")
      artifact_refs ← collect (artifact_ref selected_task_ids) selected_artifacts
      ok (record { answer = answer; task_refs = selected_task_ids; artifact_refs = artifact_refs })

-- the `match` on what was read
unfoldable pub decide_wire : List String → ℕ → DecisionWire → Result String LeadDecision
decide_wire candidates max_answer_bytes (delegate tasks) = do
  refuse_if (is_empty tasks || ltb max_delegated_tasks (length tasks))
      ("action delegate needs 1 to 32 tasks, got " ^ decimal (length tasks))
  specs ← collect (task_spec candidates) tasks
  ok (LeadDecision.delegate specs)
decide_wire candidates max_answer_bytes (follow_up task) = do
  spec ← task_spec candidates task
  ok (LeadDecision.follow_up (spec ∷ []))
decide_wire candidates max_answer_bytes (complete answer ids artifacts) =
    map_ok LeadDecision.complete (team_result max_answer_bytes answer ids artifacts)

unfoldable pub parse_reply : Reader → List String → ℕ → String → Result String LeadDecision
parse_reply from_str candidates max_answer_bytes reply =
    let trimmed = trim_matches is_ascii_whitespace reply in
    do
      refuse_if (is_empty_text trimmed) "the reply was empty"
      wire ←
          map_err (λ e. "the reply is not exactly one JSON decision object: " ^ e)
            (from_str trimmed)
      decide_wire candidates max_answer_bytes wire
