-- ===== src/Storage/Logged.antt =====
-- The runtime event log of crates/agentmosaic-storage/src/board.rs over its operations: an append
-- that fails leaves it alone, an append keeps its numbers consecutive, and what was appended is
-- read again.
use research_agent_system.Common.{
  ℕ, suc, String, Bool, true, false, not, List, [], ◌∷◌, ◌++◌, filter, if◌then◌else◌, nat_eq,
  string_eq, ◌≡◌, refl, sym, ap, ◌∙◌, subst, arith, Result, ok, err, Exec, ◌>>=◌, refuse_when,
  of_result, map_err, continue, ltb,
}
use Prim.Native.String.{len}
use research_agent_system.Events.RuntimeEvent.{RuntimeEventRecord, kind, policy}
use research_agent_system.Events.Bounded.{max_durable_runtime_payload_bytes}
use research_agent_system.Storage.Database.{EventRow, Tables, Engine, Database, transaction_as-err}
use research_agent_system.Storage.StoredEvent.{
  Codec, StoredRuntimeEvent, RuntimeEventStoreError, sqlite, json, live_only_event,
  payload_too_large,
}
use research_agent_system.Storage.Journal.{
  is_durable, is_event, highest, bound, append_bounded, append_runtime_event, write_event,
}
use research_agent_system.Storage.Numbered.{
  Consecutive, IsNumbered, Consecutive-snoc, highest-length,
}
use research_agent_system.Storage.Appended.{row_of, next_sequence, append_runtime_event-IsAppended}

pub filter-snoc {ℓ} :
    {A : Type ℓ} (p : A → Bool) (xs : List A) (x : A)
    → filter p (xs ++ x ∷ []) ≡ (if p x then filter p xs ++ x ∷ [] else filter p xs)
filter-snoc p [] x = refl
filter-snoc p (y ∷ xs) x =
    ap (λ l. if p y then y ∷ l else l) (filter-snoc p xs x) ∙ both (p y) (p x)
  where
    both :
        (b c : Bool)
        → (if b
            then y ∷ (if c then filter p xs ++ x ∷ [] else filter p xs)
            else if c
            then filter p xs ++ x ∷ []
            else filter p xs)
          ≡ (if c
              then (if b then y ∷ filter p xs else filter p xs) ++ x ∷ []
              else if b
              then y ∷ filter p xs
              else filter p xs)
    both true true = refl
    both true false = refl
    both false true = refl
    both false false = refl

is_event-key :
    (task attempt : ℕ) (row : EventRow)
    → is_event task attempt row ≡ true
    → (row.team_task_id ≡ task) × (row.attempt ≡ attempt)
is_event-key task attempt row h = ground arith

-- The next row of an attempt, under the next number, keeps the rows numbered.
pub IsNumbered-snoc :
    (rows : List EventRow) (row : EventRow)
    → IsNumbered rows
    → row.sequence ≡ suc (highest (filter (is_event row.team_task_id row.attempt) rows))
    → IsNumbered (rows ++ row ∷ [])
IsNumbered-snoc rows row numbered h task attempt =
    subst (Consecutive 1) (sym (filter-snoc (is_event task attempt) rows row))
      (by_key (is_event task attempt row) refl)
  where
    by_key :
        (b : Bool)
        → is_event task attempt row ≡ b
        → Consecutive 1 (
            if b
            then filter (is_event task attempt) rows ++ row ∷ []
            else filter (is_event task attempt) rows)
    by_key false q = numbered task attempt
    by_key true q =
        let (t, a) = is_event-key task attempt row q in
        Consecutive-snoc 1 _ row (numbered task attempt) (
          h
          ∙ ap suc (
              (λ i. highest (filter (is_event (t i) (a i)) rows))
              ∙ highest-length _ (numbered task attempt))
          ∙ omega arith)

-- A method that changes no table, and one that changes none if it fails.
abbrev IsQuiet : {A : Type 0} → Exec Database RuntimeEventStoreError A → Type 0
IsQuiet m = (db : Database) → (m db).1.tables ≡ db.tables

abbrev IsUndone : {A : Type 0} → Exec Database RuntimeEventStoreError A → Type 0
IsUndone m =
    (db : Database) (e : RuntimeEventStoreError) → (m db).0 ≡ err e → (m db).1.tables ≡ db.tables

bind-IsUndone :
    {A B : Type 0} (m : Exec Database RuntimeEventStoreError A)
    (f : A → Exec Database RuntimeEventStoreError B)
    → IsQuiet m
    → ((a : A) → IsUndone (f a))
    → IsUndone (m >>= f)
bind-IsUndone {A} {B} m f quiet undone db e h = go (m db).0 h
  where
    go :
        (r : Result RuntimeEventStoreError A)
        → (continue f r (m db).1).0 ≡ err e
        → (continue f r (m db).1).1.tables ≡ db.tables
    go (ok a) h = undone a (m db).1 e h ∙ quiet db
    go (err x) h = quiet db

refuse_when-IsQuiet : (b : Bool) (e : RuntimeEventStoreError) → IsQuiet (refuse_when b e)
refuse_when-IsQuiet true e db = refl
refuse_when-IsQuiet false e db = refl

module _ {F : Type 0} (codec : Codec F) (engine : Engine) where
  -- An append that fails leaves every table as it was.
  append_runtime_event-IsUndone :
      (created_at : String) (r : RuntimeEventRecord F)
      → IsUndone (append_runtime_event codec engine created_at r)
  unfolding append_runtime_event append_bounded
  append_runtime_event-IsUndone created_at r =
      let b : RuntimeEventRecord F = bound codec engine r in
      let live : Bool = not (is_durable (policy b.event)) in
      bind-IsUndone (refuse_when live (live_only_event (kind b.event))) _
        (refuse_when-IsQuiet live (live_only_event (kind b.event)))
        λ _.
          bind-IsUndone (of_result (map_err json (codec.record_json b))) _ (λ db. refl)
            λ payload.
              bind-IsUndone
                (refuse_when (ltb max_durable_runtime_payload_bytes (len payload))
                  (payload_too_large (len payload)))
                _
                (refuse_when-IsQuiet (ltb max_durable_runtime_payload_bytes (len payload))
                  (payload_too_large (len payload)))
                λ _ db e.
                  transaction_as-err sqlite engine (write_event codec engine b payload created_at)
                    db e

  -- Whether it succeeds or fails, an append keeps the events of every attempt numbered from one
  -- without a gap.
  pub append_runtime_event-IsNumbered :
      (created_at : String) (r : RuntimeEventRecord F) (db : Database)
      → IsNumbered db.tables.runtime_events
      → IsNumbered (append_runtime_event codec engine created_at r db).1.tables.runtime_events
  append_runtime_event-IsNumbered created_at r db numbered =
      by_result (append_runtime_event codec engine created_at r db) refl
    where
      by_result :
          (p : Result RuntimeEventStoreError (StoredRuntimeEvent F) × Database)
          → append_runtime_event codec engine created_at r db ≡ p
          → IsNumbered p.1.tables.runtime_events
      by_result (ok stored, db') q =
          let appended =
            append_runtime_event-IsAppended codec engine created_at r db stored db' q in
          subst (λ t. IsNumbered t.runtime_events) (sym appended.one_more)
            (IsNumbered-snoc db.tables.runtime_events
              (row_of codec engine (bound codec engine r) appended.payload created_at
                (next_sequence codec engine (bound codec engine r) db.tables))
              numbered refl)
      by_result (err e, db') q =
          subst (λ t. IsNumbered t.runtime_events)
            (sym (
              ap {A = Result RuntimeEventStoreError (StoredRuntimeEvent F) × Database} {B = Tables}
                (λ p. p.1.tables) (sym q)
              ∙ append_runtime_event-IsUndone created_at r db e (
                  ap {A = Result RuntimeEventStoreError (StoredRuntimeEvent F) × Database}
                    {B = Result RuntimeEventStoreError (StoredRuntimeEvent F)} (λ p. p.0) q)))
            numbered
