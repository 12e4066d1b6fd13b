-- ===== src/Storage/Numbered.antt =====
-- The numbers of the runtime event log of crates/agentmosaic-storage/src/board.rs: the rows of an
-- attempt are numbered from one, and a page is a slice of them.
use research_agent_system.Common.{
  ℕ, zero, suc, ◌+◌, ◌-◌, ◌≤◌, ◌<◌, ◌⊎◌, inl, inr, pos, negsuc, sym, Bool, true, if◌then◌else◌,
  false, List, [], ◌∷◌, ◌++◌, filter, take, any, length, sort_by, insert_by, ◌==◌, nat_eq, ltb, ◌≡◌,
  refl, ap, ◌∙◌, arith, subst,
}
use research_agent_system.Storage.Database.{EventRow}
use research_agent_system.Storage.Journal.{as_i64, is_after, is_event, highest, by_sequence, page}

-- The rows are numbered from `n` on.
abbrev pub Consecutive : ℕ → List EventRow → Type 0
Consecutive n [] = Unit
Consecutive n (r ∷ rows) = (r.sequence ≡ n) × Consecutive (suc n) rows

-- The rows of each attempt are numbered from one.
abbrev pub IsNumbered : List EventRow → Type 0
IsNumbered rows = (task attempt : ℕ) → Consecutive 1 (filter (is_event task attempt) rows)

-- `skip(n)`
unfoldable pub skip : ℕ → List EventRow → List EventRow
skip zero rows = rows
skip (suc n) [] = []
skip (suc n) (r ∷ rows) = skip n rows

pub Consecutive-snoc :
    (n : ℕ) (rows : List EventRow) (r : EventRow)
    → Consecutive n rows
    → r.sequence ≡ n + length rows
    → Consecutive n (rows ++ r ∷ [])
Consecutive-snoc n [] r c h = (omega arith, tt)
Consecutive-snoc n (x ∷ rows) r c h = (c.0, Consecutive-snoc (suc n) rows r c.1 (omega arith))

-- The highest number is the number of rows.
highest-from :
    (n : ℕ) (r : EventRow) (rows : List EventRow)
    → Consecutive n (r ∷ rows)
    → highest (r ∷ rows) ≡ n + length rows
unfolding highest
highest-from n r [] c = ground arith
highest-from n r (x ∷ rows) c = ground (arith, highest-from (suc n) x rows c.1)

pub highest-length : (rows : List EventRow) → Consecutive 1 rows → highest rows ≡ length rows
unfolding highest
highest-length [] c = refl
highest-length (r ∷ rows) c = highest-from 1 r rows c ∙ omega arith

-- No row has a number from the next one on.
pub any-next :
    (n k : ℕ) (rows : List EventRow)
    → Consecutive n rows
    → n + length rows ≤ k
    → any (λ r. r.sequence == k) rows ≡ false
any-next n k [] c h = refl
any-next n k (r ∷ rows) c h = ground (arith, any-next (suc n) k rows c.1)

-- Numbered rows stand in the order of their numbers.
sort-Consecutive :
    (n : ℕ) (rows : List EventRow) → Consecutive n rows → sort_by by_sequence rows ≡ rows
sort-Consecutive n [] c = refl
sort-Consecutive n (r ∷ rows) c =
    ap (insert_by by_sequence r) (sort-Consecutive (suc n) rows c.1) ∙ first n r rows c
  where
    first :
        (n : ℕ) (r : EventRow) (rows : List EventRow)
        → Consecutive n (r ∷ rows)
        → insert_by by_sequence r rows ≡ r ∷ rows
    first n r [] c = refl
    first n r (x ∷ rows) c = ground arith

-- The rows numbered above `after` are those after the first `after`.
after-all :
    (n after : ℕ) (rows : List EventRow)
    → Consecutive n rows
    → suc after ≤ n
    → filter (λ r. ltb after r.sequence) rows ≡ rows
after-all n after [] c h = refl
after-all n after (r ∷ rows) c h = ground (arith, after-all (suc n) after rows c.1)

after-skip :
    (n k after : ℕ) (rows : List EventRow)
    → after ≡ n + k
    → Consecutive (suc n) rows
    → filter (λ r. ltb after r.sequence) rows ≡ skip k rows
unfolding skip
after-skip n zero after rows e c = after-all (suc n) after rows c (omega arith)
after-skip n (suc k) after [] e c = refl
after-skip n (suc k) after (r ∷ rows) e c = ground (arith, after-skip (suc n) k after rows)

skip-Consecutive :
    (n k : ℕ) (rows : List EventRow) → Consecutive n rows → Consecutive (n + k) (skip k rows)
unfolding skip
skip-Consecutive n zero rows c = subst (λ m. Consecutive m rows) (omega arith) c
skip-Consecutive n (suc k) [] c = tt
skip-Consecutive n (suc k) (r ∷ rows) c =
    subst (λ m. Consecutive m (skip k rows)) (omega arith) (skip-Consecutive (suc n) k rows c.1)

-- Below 2^63 the number after which a page starts is itself; from there on the page starts at the
-- first row.
abbrev pub first_row : ℕ → ℕ
first_row after = if ltb after 9223372036854775808 then after else 0

filter-all : (rows : List EventRow) → filter (λ r. true) rows ≡ rows
filter-all [] = refl
filter-all (r ∷ rows) = ap (λ l. r ∷ l) (filter-all rows)

after-first_row :
    (after : ℕ) (rows : List EventRow)
    → Consecutive 1 rows
    → filter (is_after (as_i64 after)) rows ≡ skip (first_row after) rows
unfolding as_i64 skip
after-first_row after rows c = by_size (ltb after 9223372036854775808)
  where
    by_size :
        (b : Bool)
        → filter (is_after (if b then pos after else negsuc (18446744073709551615 - after))) rows
          ≡ skip (if b then after else 0) rows
    by_size true = after-skip 0 after after rows (omega arith) c
    by_size false = filter-all rows

pub page-slice :
    (rows : List EventRow) (task attempt after limit : ℕ)
    → IsNumbered rows
    → page task attempt (as_i64 after) limit rows
      ≡ take limit (skip (first_row after) (filter (is_event task attempt) rows))
unfolding page
page-slice rows task attempt after limit numbered =
    let c = numbered task attempt in
    ap (λ l. take limit (sort_by by_sequence l)) (after-first_row after _ c)
    ∙ ap (take limit)
        (sort-Consecutive (1 + first_row after) _ (skip-Consecutive 1 (first_row after) _ c))

pub take-nil : (n : ℕ) → take {A = EventRow} n [] ≡ []
take-nil zero = refl
take-nil (suc n) = refl

skip-nil : (n : ℕ) → skip n [] ≡ []
unfolding skip
skip-nil zero = refl
skip-nil (suc n) = refl

all-nil : (m n k t : ℕ) → take m [] ++ take n (skip k []) ≡ take {A = EventRow} t []
all-nil m n k t =
    ap (λ l. l ++ take n (skip k [])) (take-nil m)
    ∙ ap (take n) (skip-nil k)
    ∙ take-nil n
    ∙ sym (take-nil t)

-- Two slices that follow each other are one.
take-next :
    (a m n k t : ℕ) (rows : List EventRow)
    → k ≡ a + length (take m (skip a rows))
    → t ≡ m + n
    → take m (skip a rows) ++ take n (skip k rows) ≡ take t (skip a rows)
unfolding skip
take-next zero zero n zero t rows e f = ap (λ x. take x rows) (omega (arith, f))
take-next zero zero n (suc k) t rows e f = absurd (omega arith)
take-next zero (suc m) n k t [] e f = all-nil (suc m) n k t
take-next zero (suc m) n zero t (r ∷ rows) e f = absurd (omega arith)
take-next zero (suc m) n (suc k) zero (r ∷ rows) e f = absurd (omega arith)
take-next zero (suc m) n (suc k) (suc t) (r ∷ rows) e f =
    ap (λ l. r ∷ l) (take-next zero m n k t rows (omega arith) (omega arith))
take-next (suc a) m n k t [] e f = all-nil m n k t
take-next (suc a) m n zero t (r ∷ rows) e f = absurd (omega arith)
take-next (suc a) m n (suc k) t (r ∷ rows) e f = take-next a m n k t rows (omega arith) f

-- A slice ends within the rows, or is empty.
slice-ends :
    (a m : ℕ) (rows : List EventRow)
    → (a + length (take m (skip a rows)) ≤ length rows) ⊎ (length (take m (skip a rows)) ≡ 0)
unfolding skip
slice-ends zero zero rows = inr refl
slice-ends zero (suc m) [] = inr refl
slice-ends zero (suc m) (r ∷ rows) = elim (slice-ends zero m rows) [
  | inl h ↦ inl (omega arith)
  | inr h ↦ inl (omega arith)
]
slice-ends (suc a) m [] = inr (ap (λ l. length {A = EventRow} l) (take-nil m))
slice-ends (suc a) m (r ∷ rows) = elim (slice-ends a m rows) [
  | inl h ↦ inl (omega arith)
  | inr h ↦ inr h
]

pub length-filter-le :
    (p : EventRow → Bool) (rows : List EventRow) → length (filter p rows) ≤ length rows
length-filter-le p [] = omega arith
length-filter-le p (r ∷ rows) = ground (arith, length-filter-le p rows)

first_row-small : (after : ℕ) → first_row after < 9223372036854775808
first_row-small after = ground arith

pub small-first_row : (n : ℕ) → n < 9223372036854775808 → first_row n ≡ n
small-first_row n h = ground arith

-- In a numbered log whose numbers fit an i64, a page is a slice of the attempt's rows in the order
-- of their numbers: after the first `after` of them, as many as the limit allows. If `after` is
-- 2^63 or more then it starts with the first row. And the page that starts behind the last row of a
-- page goes on with the next row: both together are the one page of both limits, so that no event
-- is left out and none repeated.
pub page-eq :
    (rows : List EventRow) (task attempt after m n : ℕ)
    → IsNumbered rows
    → length rows < 9223372036854775808
    → (page task attempt (as_i64 after) m rows
        ≡ take m (skip (first_row after) (filter (is_event task attempt) rows)))
      × (page task attempt (as_i64 after) m rows
            ++ page task attempt
                (as_i64 (first_row after + length (page task attempt (as_i64 after) m rows)))
                n
                rows
          ≡ page task attempt (as_i64 after) (m + n) rows)
page-eq rows task attempt after m n numbered few =
    let mine = filter (is_event task attempt) rows in
    let one = page-slice rows task attempt after m numbered in
    let next = first_row after + length (page task attempt (as_i64 after) m rows) in
    let ends : next ≡ first_row after + length (take m (skip (first_row after) mine)) =
      ap (λ l. first_row after + length {A = EventRow} l) one in
    let start : first_row next ≡ next =
      small-first_row next (within mine ends (length-filter-le (is_event task attempt) rows)) in
    (
      one,
      (λ i. one i ++ page-slice rows task attempt next n numbered i)
          ∙ take-next (first_row after) m n (first_row next) (m + n) mine (start ∙ ends) refl
          ∙ sym (page-slice rows task attempt after (m + n) numbered),
    )
  where
    within :
        (mine : List EventRow) {next : ℕ}
        → next ≡ first_row after + length (take m (skip (first_row after) mine))
        → length mine ≤ length rows
        → next < 9223372036854775808
    within mine e less = elim (slice-ends (first_row after) m mine) [
      | inl h ↦ omega (arith, e, h, few, less)
      | inr h ↦ omega (arith, e, h, first_row-small after)
    ]
