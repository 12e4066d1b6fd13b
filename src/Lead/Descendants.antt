-- ===== src/Lead/Descendants.antt =====
-- The Lead and the SQLite board each walk the tree of tasks: `descendants_of` of lead.rs and
-- `descendants_of` of crates/agentmosaic-storage/src/board.rs.
use research_agent_system.Common.{
  ℕ, zero, suc, ◌≡◌, refl, ap, ◌∙◌, Bool, true, false, Option, none, some, List, [], ◌∷◌,
  if◌then◌else◌, ◌==◌, nat_eq, Result, ok, err, Exec, continue, ◌>>=◌, pure, map_err,
}
use research_agent_system.Board.Data.{TaskRecord, BoardError}
use research_agent_system.Storage.Database.{Engine, Database}
use research_agent_system.Storage.Sqlite.{sqlite_board}
use research_agent_system.Storage.Reads
use research_agent_system.Storage.Runs
use research_agent_system.Lead.Data.{LeadError, LeadState, LeadStep, on_store}
use research_agent_system.Lead.Tree.{reaches, select, descendants_of, max_hops}

module _ {B S : Type 0} where
  abbrev at : B → LeadState B S → LeadState B S
  at b s = record s { observed = record (s.observed) { store = b } }

  -- A chain of calls of the board, each under the lock, is one call of the chain.
  on_store-bind :
      {A C : Type 0} (m : Exec B BoardError A) (f : A → Exec B BoardError C)
      (g : A → LeadStep B S C) (s : LeadState B S)
      → ((a : A) (u : LeadState B S) → g a u ≡ on_store (f a) u)
      → (on_store m >>= g) s ≡ on_store (m >>= f) s
  unfolding on_store
  on_store-bind {A} {C} m f g s h = go (m s.observed.store).0 (m s.observed.store).1
    where
      go :
          (r : Result BoardError A) (b : B)
          → continue g (map_err LeadError.board r) (at b s)
            ≡ (map_err LeadError.board (continue f r b).0, at (continue f r b).1 s)
      go (ok a) b = h a (at b s)
      go (err e) b = refl

  -- The Lead's step is the board's method under the lock.
  abbrev Agree : {A : Type 0} → LeadStep B S A → Exec B BoardError A → Type 0
  Agree m n = (s : LeadState B S) → m s ≡ on_store n s

  pure-Agree : {A : Type 0} (a : A) → Agree (pure a) (pure a)
  unfolding on_store
  pure-Agree a s = refl

  bind-Agree :
      {A C : Type 0} (m : LeadStep B S A) (n : Exec B BoardError A) (g : A → LeadStep B S C)
      (f : A → Exec B BoardError C)
      → Agree m n
      → ((a : A) → Agree (g a) (f a))
      → Agree (m >>= g) (n >>= f)
  bind-Agree m n g f h k s =
      ap (λ o. continue g o.0 o.1) (h s) ∙ on_store-bind n f g s (λ a u. k a u)

  if-Agree :
      {A : Type 0} (b : Bool) (m m' : LeadStep B S A) (n n' : Exec B BoardError A)
      → Agree m n
      → Agree m' n'
      → Agree (if b then m else m') (if b then n else n')
  if-Agree true m m' n n' h k = h
  if-Agree false m m' n n' h k = k

module _ {S : Type 0} (engine : Engine) (root : ℕ) where
  abbrev Same : {A : Type 0} → LeadStep Database S A → Exec Database BoardError A → Type 0
  Same m n = Agree m n

  abbrev lead_reaches : ℕ → ℕ → LeadStep Database S Bool
  lead_reaches hops current = reaches (sqlite_board engine) root hops current

  parent_step :
      (hops : ℕ)
      → ((k : ℕ) → Same (lead_reaches hops k) (Runs.chain_reaches engine root hops k))
      → (parent : Option ℕ)
      → Same
          (elim parent [
            | none ↦ pure false
            | some above ↦ if above == root then pure true else lead_reaches hops above
          ])
          (elim parent [
            | none ↦ pure false
            | some above ↦
                if above == root then pure true else Runs.chain_reaches engine root hops above
          ])
  parent_step hops further none = pure-Agree false
  parent_step hops further (some above) =
      if-Agree (above == root) (pure true) (lead_reaches hops above) (pure true)
        (Runs.chain_reaches engine root hops above) (pure-Agree true) (further above)

  found_step :
      (hops : ℕ)
      → ((k : ℕ) → Same (lead_reaches hops k) (Runs.chain_reaches engine root hops k))
      → (found : Option TaskRecord)
      → Same
          (elim found [
            | none ↦ pure false
            | some r ↦ elim r.parent_task [
              | none ↦ pure false
              | some above ↦ if above == root then pure true else lead_reaches hops above
            ]
          ])
          (elim found [
            | none ↦ pure false
            | some r ↦ elim r.parent_task [
              | none ↦ pure false
              | some above ↦
                  if above == root then pure true else Runs.chain_reaches engine root hops above
            ]
          ])
  found_step hops further none = pure-Agree false
  found_step hops further (some r) = parent_step hops further r.parent_task

  reaches-Agree :
      (hops current : ℕ)
      → Same (lead_reaches hops current) (Runs.chain_reaches engine root hops current)
  unfolding reaches Runs.chain_reaches
  reaches-Agree zero current = pure-Agree false
  reaches-Agree (suc hops) current =
      bind-Agree (on_store (Reads.task engine current)) (Reads.task engine current) _ _ (λ s. refl)
        (found_step hops (reaches-Agree hops))

  select-Agree :
      (ids : List ℕ)
      → Agree {S = S}
          (select (sqlite_board engine) root ids)
          (Runs.select_descendants engine root ids)
  unfolding select Runs.select_descendants
  select-Agree [] = pure-Agree []
  select-Agree (id ∷ ids) = if-Agree (id == root) _ _ _ _ (select-Agree ids) (
      bind-Agree (lead_reaches max_hops id) (Runs.chain_reaches engine root max_hops id) _ _
        (reaches-Agree max_hops id)
        (λ below.
          bind-Agree (select (sqlite_board engine) root ids)
            (Runs.select_descendants engine root ids) _ _ (select-Agree ids)
            (λ rest. pure-Agree (if below then id ∷ rest else rest))))

  -- On the SQLite board the Lead's `descendants_of` is the board's own one: it returns the same
  -- tasks or the same error, and leaves the Lead and the board in the same state.
  pub descendants_of-on_store :
      (s : LeadState Database S)
      → descendants_of (sqlite_board engine) root s ≡ on_store (Runs.descendants_of engine root) s
  unfolding descendants_of Runs.descendants_of
  descendants_of-on_store =
      bind-Agree (on_store (Reads.task_ids engine)) (Reads.task_ids engine) _ _ (λ s. refl)
        select-Agree
