-- ===== src/Samples/Texts.antt =====
-- The theorems on stored names and bounded texts, at a few texts.
use native.Mathlib.Omega.{arith}
use Prim.Native.String.{len}
use research_agent_system.Common.{◌≤◌, ◌≡◌, ◌↔◌, String, some}
use research_agent_system.Registry.TaskKind
use research_agent_system.Registry.TaskKind.{TaskKind, restore_kind_iff}
use research_agent_system.Board.TaskStatus
use research_agent_system.Board.TaskStatus.{TaskStatus, restore_status_iff}
use research_agent_system.Events.Text.{bounded, truncate, bounded-longest, len-truncate-le}
use text.Mathlib.TextBridge.{IsPrefix}

restore_kind_iff_example :
    (TaskKind.restore "bulk" ≡ some TaskKind.bulk) ↔ ("bulk" ≡ TaskKind.as_str TaskKind.bulk)
restore_kind_iff_example = restore_kind_iff "bulk" TaskKind.bulk

restore_status_iff_example :
    (TaskStatus.restore "running" ≡ some TaskStatus.running)
    ↔ ("running" ≡ TaskStatus.as_str TaskStatus.running)
restore_status_iff_example = restore_status_iff "running" TaskStatus.running

bounded-longest_example :
    IsPrefix (bounded 4 "naïve") "naïve"
    × (len (bounded 4 "naïve") ≤ 4)
    × ((part : String) → IsPrefix part "naïve" → len part ≤ 4 → len part ≤ len (bounded 4 "naïve"))
bounded-longest_example = bounded-longest 4 "naïve"

len-truncate-le_example : len (truncate "a rather long text" 16) ≤ 16
len-truncate-le_example = len-truncate-le "a rather long text" 16 (omega arith)
