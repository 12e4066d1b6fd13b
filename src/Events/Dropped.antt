-- ===== src/Events/Dropped.antt =====
-- What a drop of the last item keeps of an event of crates/agentmosaic-team/src/runtime_event.rs.
use mathlib.Core.Option
use research_agent_system.Common.{
  suc, String, Bool, none, some, List, [], ◌∷◌, ◌++◌, length, length-append, append-nil,
  append_assoc, subst, ◌≡◌, refl, sym, ap, ◌∙◌, arith,
}
use research_agent_system.Events.RuntimeEvent.{
  RuntimePlanItem, RuntimePermissionOption, RuntimeEvent, plan_updated, permission_requested, kind,
  policy,
}
use research_agent_system.Events.Bounded.{pop, drop_last, droppable}
use research_agent_system.Events.Within.{ItemFits, OptionFits, IsWithin}
use research_agent_system.Events.Shrink.{pop-some, pop-none, front-fits}

module _ {F : Type 0} where
  -- The same event, but for items dropped from the end of its list.
  abbrev pub IsShortOf : RuntimeEvent F → RuntimeEvent F → Type 0
  IsShortOf (plan_updated all) e =
      (items rest : List RuntimePlanItem) × (e ≡ plan_updated items) × (items ++ rest ≡ all)
  IsShortOf (permission_requested id action all) e =
      (options rest : List RuntimePermissionOption) × (e ≡ permission_requested id action options)
      × (options ++ rest ≡ all)
  IsShortOf whole e = e ≡ whole

  pub IsShortOf-refl : (e : RuntimeEvent F) → IsShortOf e e
  IsShortOf-refl (plan_updated items) = (items, [], refl, append-nil items)
  IsShortOf-refl (permission_requested id action options) = (options, [], refl, append-nil options)
  IsShortOf-refl e = refl

  -- What a drop does to the list.
  drop-plan :
      (items : List RuntimePlanItem) (y : RuntimeEvent F)
      → drop_last (plan_updated items) ≡ some y
      → (ys : List RuntimePlanItem) × (z : RuntimePlanItem) × (y ≡ plan_updated ys)
        × (ys ++ z ∷ [] ≡ items)
  unfolding drop_last
  drop-plan items y h =
      let (ys, e, p) = (Option.map-eq-some_iff plan_updated (pop items)).0 h in
      let (z, q) = pop-some items ys e in (ys, z, sym p, q)

  drop-options :
      (id action : String) (options : List RuntimePermissionOption) (y : RuntimeEvent F)
      → drop_last (permission_requested id action options) ≡ some y
      → (ys : List RuntimePermissionOption) × (z : RuntimePermissionOption) × (y
          ≡ permission_requested id action ys)
        × (ys ++ z ∷ [] ≡ options)
  unfolding drop_last
  drop-options id action options y h =
      let (ys, e, p) =
        (Option.map-eq-some_iff (permission_requested id action) (pop options)).0 h in
      let (z, q) = pop-some options ys e in (ys, z, sym p, q)

  pub drop_last-IsShortOf :
      (whole e y : RuntimeEvent F) → drop_last e ≡ some y → IsShortOf whole e → IsShortOf whole y
  unfolding drop_last
  drop_last-IsShortOf (plan_updated all) e y h (items, rest, p, q) =
      let (ys, z, r, t) = drop-plan items y (ap drop_last (sym p) ∙ h) in
      (ys, z ∷ rest, r, sym (append_assoc ys (z ∷ []) rest) ∙ ap (λ l. l ++ rest) t ∙ q)
  drop_last-IsShortOf (permission_requested id action all) e y h (items, rest, p, q) =
      let (ys, z, r, t) = drop-options id action items y (ap drop_last (sym p) ∙ h) in
      (ys, z ∷ rest, r, sym (append_assoc ys (z ∷ []) rest) ∙ ap (λ l. l ++ rest) t ∙ q)
  drop_last-IsShortOf whole e y h p = absurd (Option.none-ne-some _ (ap drop_last (sym p) ∙ h))

  -- A drop takes one item away.
  pub droppable-drop_last :
      (e y : RuntimeEvent F) → drop_last e ≡ some y → droppable e ≡ suc (droppable y)
  unfolding drop_last droppable
  droppable-drop_last (plan_updated items) y h =
      let (ys, z, r, t) = drop-plan items y h in
      omega (arith, ap length t, length-append ys (z ∷ []), ap droppable r)
  droppable-drop_last (permission_requested id action options) y h =
      let (ys, z, r, t) = drop-options id action options y h in
      omega (arith, ap length t, length-append ys (z ∷ []), ap droppable r)
  droppable-drop_last e y h = absurd (Option.none-ne-some _ h)

  pub drop_last-none : (e : RuntimeEvent F) → drop_last e ≡ none → droppable e ≡ 0
  unfolding drop_last droppable
  drop_last-none (plan_updated items) h =
      pop-none items ((Option.map-eq-none_iff plan_updated (pop items)).0 h)
  drop_last-none (permission_requested id action options) h =
      pop-none options ((Option.map-eq-none_iff (permission_requested id action) (pop options)).0 h)
  drop_last-none e h = refl

  pub IsShortOf-kind :
      (whole e : RuntimeEvent F)
      → IsShortOf whole e
      → (kind e ≡ kind whole) × (policy e ≡ policy whole)
  unfolding kind policy
  IsShortOf-kind (plan_updated all) e (items, rest, p, q) = rw p (refl, refl)
  IsShortOf-kind (permission_requested id action all) e (items, rest, p, q) = rw p (refl, refl)
  IsShortOf-kind whole e p = rw p (refl, refl)

  pub IsShortOf-IsWithin :
      (is_finite : F → Bool) (whole e : RuntimeEvent F)
      → IsShortOf whole e
      → IsWithin is_finite whole
      → IsWithin is_finite e
  IsShortOf-IsWithin f (plan_updated all) e (items, rest, p, q) h =
      subst (IsWithin f) (sym p) (front-fits items rest all ItemFits h.0 h.1 q)
  IsShortOf-IsWithin f (permission_requested id action all) e (options, rest, p, q) h =
      subst (IsWithin f) (sym p) (
        let (short, fit) = front-fits options rest all OptionFits h.2 h.3 q in
        (h.0, h.1, short, fit))
  IsShortOf-IsWithin f whole e p h = subst (IsWithin f) (sym p) h
