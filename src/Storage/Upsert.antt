-- ===== src/Storage/Upsert.antt =====
-- `ON CONFLICT .. DO UPDATE` on the bindings of crates/agentmosaic-storage/src/board.rs, as a map from
-- keys to rows.
use mathlib.Core.Option
use research_agent_system.Common.{
  ℕ, Bool, true, false, ◌&&◌, none, some, List, [], ◌∷◌, ◌++◌, any, find, update_where,
  if◌then◌else◌, ◌==◌, nat_eq, string_eq, ◌≡◌, refl, sym, ap, ◌∙◌, subst, arith, ◌||◌,
}
use research_agent_system.Storage.Database.{BindingRow}
use research_agent_system.Storage.Bindings.{is_binding, upsert_row}

module _ {A : Type 0} (update : A → A) where
  -- An update finds the updated row at its own key,
  find-update_where :
      (p : A → Bool) (d : A)
      → ((x : A) → p (update x) ≡ p x)
      → (rows : List A) → any p rows ≡ true
      → find p (update_where p update rows)
        ≡ some (Option.get_or (Option.map update (find p rows)) d)
  find-update_where p d keyed [] h = absurd cc
  find-update_where p d keyed (x ∷ rows) h = by_head (p x) refl h (find-update_where p d keyed rows)
    where
      by_head :
          (b : Bool)
          → p x ≡ b
          → (b || any p rows) ≡ true
          → (any p rows ≡ true
              → find p (update_where p update rows)
                ≡ some (Option.get_or (Option.map update (find p rows)) d))
          → (if p (if b then update x else x)
              then some (if b then update x else x)
              else find p (update_where p update rows))
            ≡ some (Option.get_or (Option.map update (if b then some x else find p rows)) d)
      by_head true q h ih =
          ap (λ b. if b then some (update x) else find p (update_where p update rows)) (keyed x ∙ q)
      by_head false q h ih =
          ap (λ b. if b then some x else find p (update_where p update rows)) q ∙ ih h

  -- and what was there before at every other.
  pub find-update_where_other :
      (p q : A → Bool)
      → ((x : A) → q (update x) ≡ q x)
      → ((x : A) → p x ≡ true → q x ≡ false)
      → (rows : List A) → find q (update_where p update rows) ≡ find q rows
  find-update_where_other p q keyed apart [] = refl
  find-update_where_other p q keyed apart (x ∷ rows) =
      by_head (p x) refl (find-update_where_other p q keyed apart rows)
    where
      by_head :
          (b : Bool)
          → p x ≡ b
          → find q (update_where p update rows) ≡ find q rows
          → (if q (if b then update x else x)
              then some (if b then update x else x)
              else find q (update_where p update rows))
            ≡ (if q x then some x else find q rows)
      by_head true e ih =
          ap (λ c. if c then some (update x) else find q (update_where p update rows))
            (keyed x ∙ apart x e)
          ∙ ih
          ∙ sym (ap (λ c. if c then some x else find q rows) (apart x e))
      by_head false e ih = ap (λ l. if q x then some x else l) ih

pub find-snoc :
    {A : Type 0} (q : A → Bool) (rows : List A) (x : A)
    → find q (rows ++ x ∷ []) ≡ (if any q rows then find q rows else if q x then some x else none)
find-snoc q [] x = refl
find-snoc q (y ∷ rows) x = by_head (q y) (find-snoc q rows x)
  where
    by_head :
        (b : Bool)
        → find q (rows ++ x ∷ [])
          ≡ (if any q rows then find q rows else if q x then some x else none)
        → (if b then some y else find q (rows ++ x ∷ [])) ≡ (
            if b || any q rows
            then if b then some y else find q rows
            else if q x
            then some x
            else none)
    by_head true ih = refl
    by_head false ih = ih

pub find-none :
    {A : Type 0} (q : A → Bool) (rows : List A) → any q rows ≡ false → find q rows ≡ none
find-none q [] h = refl
find-none q (y ∷ rows) h = ground (arith, find-none q rows)

pub same_key :
    (task attempt : ℕ) (r : BindingRow)
    → is_binding task attempt r ≡ true
    → (r.team_task_id ≡ task) × (r.attempt ≡ attempt)
same_key task attempt r h = ground arith

other_key :
    (task attempt : ℕ) (fresh r : BindingRow)
    → is_binding task attempt fresh ≡ false
    → is_binding fresh.team_task_id fresh.attempt r ≡ true
    → is_binding task attempt r ≡ false
other_key task attempt fresh r h e =
    let (t, a) = same_key fresh.team_task_id fresh.attempt r e in
    ap (λ x. x == task && r.attempt == attempt) t
    ∙ ap (λ x. fresh.team_task_id == task && x == attempt) a
    ∙ h

pub own_key : (t a : ℕ) → (t == t && a == a) ≡ true
own_key t a = ground arith

pub if-true : {A : Type 0} {b : Bool} (x y : A) → b ≡ true → (if b then x else y) ≡ x
if-true x y h = ap (λ b. if b then x else y) h

pub if-false : {A : Type 0} {b : Bool} (x y : A) → b ≡ false → (if b then x else y) ≡ y
if-false x y h = ap (λ b. if b then x else y) h

-- An upsert leaves at its key the updated row, or the new one if there was none, and at every other
-- key what was there.
pub find-upsert_row :
    (fresh : BindingRow) (update : BindingRow → BindingRow)
    → ((r : BindingRow) (task attempt : ℕ)
        → is_binding task attempt (update r) ≡ is_binding task attempt r)
    → (rows : List BindingRow) (task attempt : ℕ)
    → find (is_binding task attempt) (upsert_row fresh update rows) ≡ (
        if is_binding task attempt fresh
        then some (Option.get_or (Option.map update (find (is_binding task attempt) rows)) fresh)
        else find (is_binding task attempt) rows)
unfolding upsert_row
find-upsert_row fresh update keyed rows task attempt =
    by_cases (any (is_binding fresh.team_task_id fresh.attempt) rows)
      (is_binding task attempt fresh) refl refl
  where
    by_cases :
        (found mine : Bool)
        → any (is_binding fresh.team_task_id fresh.attempt) rows ≡ found
        → is_binding task attempt fresh ≡ mine
        → find (is_binding task attempt) (
            if found
            then update_where (is_binding fresh.team_task_id fresh.attempt) update rows
            else rows ++ fresh ∷ [])
          ≡ (if mine
              then some
                  (Option.get_or (Option.map update (find (is_binding task attempt) rows)) fresh)
              else find (is_binding task attempt) rows)
    by_cases true true f m =
        let (t, a) = same_key task attempt fresh m in
        subst {A = ℕ × ℕ}
          (λ k.
            find (is_binding k.0 k.1)
              (update_where (is_binding fresh.team_task_id fresh.attempt) update rows)
            ≡ some (Option.get_or (Option.map update (find (is_binding k.0 k.1) rows)) fresh))
          {x = (fresh.team_task_id, fresh.attempt)} {y = (task, attempt)} (λ i. (t i, a i))
          (find-update_where update (is_binding fresh.team_task_id fresh.attempt) fresh
            (λ r. keyed r fresh.team_task_id fresh.attempt) rows f)
    by_cases true false f m =
        find-update_where_other update (is_binding fresh.team_task_id fresh.attempt)
          (is_binding task attempt) (λ r. keyed r task attempt)
          (λ r. other_key task attempt fresh r m) rows
    by_cases false true f m =
        let q = is_binding task attempt in
        let (t, a) = same_key task attempt fresh m in
        let none_there : any q rows ≡ false = sym (λ i. any (is_binding (t i) (a i)) rows) ∙ f in
        find-snoc q rows fresh
        ∙ ap (λ b. if b then find q rows else if q fresh then some fresh else none) none_there
        ∙ ap (λ b. if b then some fresh else none) m
        ∙ ap (λ o. some (Option.get_or (Option.map update o) fresh))
            (sym (find-none q rows none_there))
    by_cases false false f m =
        let q = is_binding task attempt in
        find-snoc q rows fresh
        ∙ ap (λ b. if any q rows then find q rows else if b then some fresh else none) m
        ∙ unless_found (any q rows) refl
      where
        unless_found :
            (b : Bool)
            → any (is_binding task attempt) rows ≡ b
            → (if b then find (is_binding task attempt) rows else none)
              ≡ find (is_binding task attempt) rows
        unless_found true e = refl
        unless_found false e = sym (find-none (is_binding task attempt) rows e)
