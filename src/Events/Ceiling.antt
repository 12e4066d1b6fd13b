-- ===== src/Events/Ceiling.antt =====
-- The loops at the end of `RuntimeEvent::bounded` and `RuntimeEventRecord::bounded` of
-- crates/agentmosaic-team/src/runtime_event.rs, and what the two functions return.
use mathlib.Core.Option
use research_agent_system.Common.{
  ℕ, suc, Bool, false, Option, none, some, subst, ◌≡◌, refl, ◌∙◌, ◌⊎◌, inl, inr, arith,
}
use research_agent_system.Events.RuntimeEvent.{
  RuntimeEvent, session_started, kind, policy, RuntimeEventRecord,
}
use research_agent_system.Events.Bounded.{
  over_ceiling, drop_last, droppable, drop_last_of_record, bound_fields, bounded, bound_record,
  bounded_record, max_runtime_id_bytes,
}
use research_agent_system.Events.Within.{
  Fits, FitsIfAny, IsWithin, bound_fields-IsWithin, truncate_id-Fits, some_id-Fits,
}
use research_agent_system.Events.Unchanged.{bound_fields-eq}
use research_agent_system.Events.Shrink.{IsDone, shrink-eq, shrink-IsDone, shrink-keeps}
use research_agent_system.Events.Dropped.{
  IsShortOf, IsShortOf-refl, drop_last-IsShortOf, droppable-drop_last, drop_last-none,
  IsShortOf-kind, IsShortOf-IsWithin,
}

module _ {F : Type 0} (is_finite : F → Bool) (event_size : RuntimeEvent F → Option ℕ) where
  abbrev pub is_over : RuntimeEvent F → Bool
  is_over e = over_ceiling (event_size e)

  -- `bounded` returns the event with its fields cut, less items at the end of its list. So its
  -- kind and its policy stay.
  pub bounded-IsShortOf :
      (e : RuntimeEvent F) → IsShortOf (bound_fields is_finite e) (bounded is_finite event_size e)
  unfolding bounded
  bounded-IsShortOf e =
      shrink-keeps is_over drop_last (IsShortOf (bound_fields is_finite e))
        (drop_last-IsShortOf (bound_fields is_finite e)) _ (bound_fields is_finite e)
        (IsShortOf-refl (bound_fields is_finite e))

  bounded-IsDone : (e : RuntimeEvent F) → IsDone is_over drop_last (bounded is_finite event_size e)
  unfolding bounded
  bounded-IsDone e =
      shrink-IsDone is_over drop_last droppable droppable-drop_last _ (bound_fields is_finite e)
        (omega arith)

  -- Every field of a bounded event is within its bound, and its JSON text is within the ceiling
  -- unless it has no item left to drop.
  pub bounded-IsWithin :
      (e : RuntimeEvent F)
      → IsWithin is_finite (bounded is_finite event_size e)
        × ((is_over (bounded is_finite event_size e) ≡ false)
            ⊎ (droppable (bounded is_finite event_size e) ≡ 0))
  bounded-IsWithin e = (
    IsShortOf-IsWithin is_finite _ _ (bounded-IsShortOf e) (bound_fields-IsWithin is_finite e),
    elim (bounded-IsDone e) [
      | inl small ↦ inl small
      | inr last ↦ inr (drop_last-none (bounded is_finite event_size e) last)
    ],
  )

  -- An event whose fields are within their bounds, and that is within the ceiling or has nothing to drop, is its own bounded form.
  bounded-eq :
      (e : RuntimeEvent F)
      → IsWithin is_finite e
      → IsDone is_over drop_last e
      → bounded is_finite event_size e ≡ e
  unfolding bounded
  bounded-eq e within done =
      rw (bound_fields-eq is_finite e within) (shrink-eq is_over drop_last _ e done)

  -- Bounding twice is bounding once.
  pub bounded-bounded :
      (e : RuntimeEvent F)
      → bounded is_finite event_size (bounded is_finite event_size e)
        ≡ bounded is_finite event_size e
  bounded-bounded e = bounded-eq _ (bounded-IsWithin e).0 (bounded-IsDone e)

  bound_fields-kind :
      (e : RuntimeEvent F)
      → (kind (bound_fields is_finite e) ≡ kind e) × (policy (bound_fields is_finite e) ≡ policy e)
  unfolding bound_fields kind policy
  bound_fields-kind (session_started id) = (refl, refl)
  bound_fields-kind e = (refl, refl)

  -- A bounded event is the event with its fields cut, but for items dropped from the end of its
  -- list. It is of the same kind, and the same may see it.
  pub bounded-kind :
      (e : RuntimeEvent F)
      → IsShortOf (bound_fields is_finite e) (bounded is_finite event_size e)
        × (kind (bounded is_finite event_size e) ≡ kind e)
        × (policy (bounded is_finite event_size e) ≡ policy e)
  bounded-kind e =
      let (k, p) = IsShortOf-kind _ _ (bounded-IsShortOf e) in
      (bounded-IsShortOf e, k ∙ (bound_fields-kind e).0, p ∙ (bound_fields-kind e).1)

module _ {F : Type 0} (is_finite : F → Bool) (event_size : RuntimeEvent F → Option ℕ)
    (record_size : RuntimeEventRecord F → Option ℕ) where
  abbrev pub is_record_over : RuntimeEventRecord F → Bool
  is_record_over r = over_ceiling (record_size r)

  -- the identifiers of a record are within their bounds
  abbrev pub IsRecordWithin : RuntimeEventRecord F → Type 0
  IsRecordWithin r =
      Fits max_runtime_id_bytes r.agent_id
      × FitsIfAny max_runtime_id_bytes r.runtime_name
      × FitsIfAny max_runtime_id_bytes r.native_session_id
      × IsWithin is_finite r.event

  -- the record of the same task and attempt, with the event of the original less items at the end
  abbrev pub IsRecordShortOf : RuntimeEventRecord F → RuntimeEventRecord F → Type 0
  IsRecordShortOf whole r =
      (r.task_id ≡ whole.task_id) × (r.attempt ≡ whole.attempt) × IsShortOf whole.event r.event

  bound_record-IsRecordWithin :
      (r : RuntimeEventRecord F) → IsRecordWithin (bound_record is_finite event_size r)
  unfolding bound_record
  bound_record-IsRecordWithin r = (
    truncate_id-Fits r.agent_id,
    some_id-Fits r.runtime_name,
    some_id-Fits r.native_session_id,
    (bounded-IsWithin is_finite event_size r.event).0,
  )

  drop_last_of_record-keeps :
      (whole r s : RuntimeEventRecord F)
      → drop_last_of_record r ≡ some s
      → IsRecordWithin r × IsRecordShortOf whole r
      → IsRecordWithin s × IsRecordShortOf whole s
  unfolding drop_last_of_record
  drop_last_of_record-keeps whole r s h (within, short) =
      let (e, dropped, same) =
        (Option.map-eq-some_iff (λ e. record r { event = e }) (drop_last r.event)).0 h in
      subst (λ t. IsRecordWithin t × IsRecordShortOf whole t) same
        (
          (
            within.0,
            within.1,
            within.2,
            IsShortOf-IsWithin is_finite r.event e
                (drop_last-IsShortOf r.event r.event e dropped (IsShortOf-refl r.event)) within.3,
          ),
          (short.0, short.1, drop_last-IsShortOf whole.event r.event e dropped short.2),
        )

  droppable-drop_last_of_record :
      (r s : RuntimeEventRecord F)
      → drop_last_of_record r ≡ some s
      → droppable r.event ≡ suc (droppable s.event)
  unfolding drop_last_of_record
  droppable-drop_last_of_record r s h =
      let (e, dropped, same) =
        (Option.map-eq-some_iff (λ e. record r { event = e }) (drop_last r.event)).0 h in
      subst (λ t. droppable r.event ≡ suc (droppable t.event)) same
        (droppable-drop_last r.event e dropped)

  drop_last_of_record-none :
      (r : RuntimeEventRecord F) → drop_last_of_record r ≡ none → droppable r.event ≡ 0
  unfolding drop_last_of_record
  drop_last_of_record-none r h =
      drop_last-none r.event
        ((Option.map-eq-none_iff (λ e. record r { event = e }) (drop_last r.event)).0 h)

  -- A bounded record has its identifiers and the fields of its event within their bounds, it is
  -- of the same task and attempt, its event is the bounded event less items at the end of its
  -- list, and its JSON text is within the ceiling unless no item is left to drop.
  pub bounded_record-IsRecordWithin :
      (r : RuntimeEventRecord F)
      → IsRecordWithin (bounded_record is_finite event_size record_size r)
        × IsRecordShortOf
            (bound_record is_finite event_size r)
            (bounded_record is_finite event_size record_size r)
        × ((is_record_over (bounded_record is_finite event_size record_size r) ≡ false)
            ⊎ (droppable (bounded_record is_finite event_size record_size r).event ≡ 0))
  unfolding bounded_record
  bounded_record-IsRecordWithin r =
      let b : RuntimeEventRecord F = bound_record is_finite event_size r in
      let (within, short) =
        shrink-keeps is_record_over drop_last_of_record
          (λ s. IsRecordWithin s × IsRecordShortOf b s) (drop_last_of_record-keeps b) _ b
          (bound_record-IsRecordWithin r, (refl, refl, IsShortOf-refl b.event)) in
      (
        within,
        short,
        elim (shrink-IsDone is_record_over drop_last_of_record (λ s. droppable s.event)
            droppable-drop_last_of_record (droppable b.event) b (omega arith)) [
              | inl small ↦ inl small
              | inr last ↦ inr (drop_last_of_record-none _ last)
            ],
      )
