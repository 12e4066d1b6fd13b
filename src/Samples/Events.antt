-- ===== src/Samples/Events.antt =====
-- The theorems on runtime events, at a plan of three steps that a rough measure of its JSON text
-- puts over the ceiling.
use research_agent_system.Common.{
  ℕ, ◌*◌, Bool, false, Option, none, some, [], ◌∷◌, ◌≡◌, refl, ◌⊎◌, ltb,
}
use research_agent_system.Events.RuntimeEvent.{
  RuntimeEvent, RuntimePlanItem, plan_updated, kind, policy, RuntimeEventRecord,
}
use research_agent_system.Events.Bounded.{
  shrink, pop, truncate_id, bound_item, bound_fields, drop_last, droppable, bounded, bound_record,
  bounded_record,
}
use research_agent_system.Events.Text.{truncate}
use research_agent_system.Events.Within.{IsWithin}
use research_agent_system.Events.Dropped.{IsShortOf}
use research_agent_system.Events.Ceiling.{
  bounded-IsWithin, bounded-kind, bounded-bounded, is_over, is_record_over, IsRecordWithin,
  IsRecordShortOf, bounded_record-IsRecordWithin,
}

abbrev is_small : ℕ → Bool
is_small cost = ltb cost 1000

abbrev rough_size : RuntimeEvent ℕ → Option ℕ
unfolding droppable
rough_size e = some (16384 * droppable e)

abbrev rough_record_size : RuntimeEventRecord ℕ → Option ℕ
rough_record_size r = rough_size r.event

abbrev step : RuntimePlanItem
step = record { text = "read the code"; status = some "pending" }

abbrev plan : RuntimeEvent ℕ
plan = plan_updated (step ∷ step ∷ step ∷ [])

abbrev plan_record : RuntimeEventRecord ℕ
plan_record = record {
  task_id = 2;
  attempt = 1;
  agent_id = "reviewer";
  runtime_name = some "acp";
  native_session_id = none;
  event = plan;
}

-- one step of the three is dropped
plan-bounded : droppable (bounded is_small rough_size plan) ≡ 2
unfolding bounded bound_fields shrink drop_last droppable pop bound_item truncate_id truncate
plan-bounded = refl

bounded-IsWithin_example :
    IsWithin is_small (bounded is_small rough_size plan)
    × ((is_over is_small rough_size (bounded is_small rough_size plan) ≡ false)
        ⊎ (droppable (bounded is_small rough_size plan) ≡ 0))
bounded-IsWithin_example = bounded-IsWithin is_small rough_size plan

bounded-kind_example :
    IsShortOf (bound_fields is_small plan) (bounded is_small rough_size plan)
    × (kind (bounded is_small rough_size plan) ≡ kind plan)
    × (policy (bounded is_small rough_size plan) ≡ policy plan)
bounded-kind_example = bounded-kind is_small rough_size plan

bounded-bounded_example :
    bounded is_small rough_size (bounded is_small rough_size plan)
    ≡ bounded is_small rough_size plan
bounded-bounded_example = bounded-bounded is_small rough_size plan

bounded_record-IsRecordWithin_example :
    IsRecordWithin is_small rough_size rough_record_size
      (bounded_record is_small rough_size rough_record_size plan_record)
    × IsRecordShortOf is_small rough_size rough_record_size
        (bound_record is_small rough_size plan_record)
        (bounded_record is_small rough_size rough_record_size plan_record)
    × ((is_record_over is_small rough_size rough_record_size
            (bounded_record is_small rough_size rough_record_size plan_record)
          ≡ false)
        ⊎ (droppable (bounded_record is_small rough_size rough_record_size plan_record).event ≡ 0))
bounded_record-IsRecordWithin_example =
    bounded_record-IsRecordWithin is_small rough_size rough_record_size plan_record
