-- ===== src/CodexLead/Wire.antt =====
-- What a reply may say, in crates/agentmosaic-runtime/src/codex_lead.rs. The reader of JSON is a
-- parameter: it returns one of these values, or the text of its error.
use Prim.Native.Char.{Char, code}
use Prim.Native.String.{len}
use research_agent_system.Common.{
  ℕ, String, Bool, true, ◌&&◌, ◌||◌, Option, List, ◌==◌, nat_eq, leb, Result,
}
use research_agent_system.Registry.TaskKind.{TaskKind}
use research_agent_system.CodexLead.Config.{sha256_hex_len}

pub data TaskKindWire : Type 0 where
  reasoning review bulk tool utility : TaskKindWire

-- `TaskKindWire::to_task_kind`
unfoldable pub to_task_kind : TaskKindWire → TaskKind
to_task_kind reasoning = TaskKind.reasoning
to_task_kind review = TaskKind.review
to_task_kind bulk = TaskKind.bulk
to_task_kind tool = TaskKind.tool
to_task_kind utility = TaskKind.utility

pub record TaskWire : Type 0 where
  pub kind : TaskKindWire
  pub target : Option String
  pub objective : String

pub record ArtifactWire : Type 0 where
  pub task_id : ℕ
  pub path : String
  pub sha256 : String

pub data DecisionWire : Type 0 where
  delegate : (tasks : List TaskWire) → DecisionWire
  follow_up : (task : TaskWire) → DecisionWire
  complete :
      (answer : String) (selected_task_ids : List ℕ) (selected_artifacts : List ArtifactWire)
      → DecisionWire

-- `serde_json::from_str::<DecisionWire>`
abbrev pub Reader : Type 0
Reader = String → Result String DecisionWire

-- `b.is_ascii_digit() || (b'a'..=b'f').contains(&b)`. A character of more than one byte has no
-- byte that passes, and its own number does not pass either.
unfoldable pub is_lower_hex : Char → Bool
is_lower_hex c = let n = code c in leb 48 n && leb n 57 || leb 97 n && leb n 102

unfoldable pub all_chars : (Char → Bool) → String → Bool
all_chars p String.[] = true
all_chars p (String.◌∷◌ c s) = p c && all_chars p s

unfoldable pub is_sha256_hex : String → Bool
is_sha256_hex value = len value == sha256_hex_len && all_chars is_lower_hex value
