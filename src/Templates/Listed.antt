-- ===== src/Templates/Listed.antt =====
-- What the single checks of bindPlanTemplate (packages/control/src/templates/templates.ts) find.
use mathlib.Core.List.{Memᴰ}
use aurora_ai_native.Prelude.{
  String, ◌≡◌, refl, sym, ap, ◌∙◌, ◌⊎◌, inl, inr, true, some, List, [], ◌∷◌, arith, eq_iff, ◌==◌,
  Dict, lookup, insert, lookup-insert, Bool-cases, &&-eq-true,
}
use aurora_ai_native.Lanes.{CapabilityPlanStatus, plan_ready, plan_blocked}
use aurora_ai_native.Templates.Types.{
  PlanTemplateStatus, template_active, template_invalidated, PlanTemplateMatchCriteria,
  PlanTemplateRequirementCompatibility, PlanTemplate,
}
use aurora_ai_native.Templates.Bind.{
  equal_match_criteria, by_requirement, compatibility_of, is_template_active, is_plan_ready,
}

by_requirement-listed :
    (rs : List PlanTemplateRequirementCompatibility) (d : Dict PlanTemplateRequirementCompatibility)
    (id : String) (r : PlanTemplateRequirementCompatibility)
    → lookup id (by_requirement rs d) ≡ some r
    → (Memᴰ r rs × (r.requirement_id ≡ id)) ⊎ (lookup id d ≡ some r)
unfolding by_requirement
by_requirement-listed [] d id r h = inr h
by_requirement-listed (q ∷ rs) d id r h =
    elim (by_requirement-listed rs (insert q.requirement_id q d) id r h) [
      | inl (later, same) ↦ inl (Memᴰ.tail later, same)
      | inr here ↦
          let e = sym (lookup-insert id q.requirement_id q d) ∙ here in
          elim (Bool-cases (q.requirement_id == id)) [
            | inl same ↦
                let k = rw same at e in
                let is_q : r ≡ q = ground arith in
                inl (
                  Memᴰ.head is_q,
                  ap (λ (x : PlanTemplateRequirementCompatibility). x.requirement_id) is_q
                      ∙ (eq_iff q.requirement_id id).0 same,
                )
            | inr other ↦ inr (rw other at e)
          ]
    ]

pub compatibility_of-listed :
    (template : PlanTemplate) (id : String) (r : PlanTemplateRequirementCompatibility)
    → compatibility_of template id ≡ some r
    → Memᴰ r template.requirements × (r.requirement_id ≡ id)
unfolding compatibility_of lookup
compatibility_of-listed template id r h =
    elim (by_requirement-listed template.requirements [] id r h) [
      | inl listed ↦ listed
      | inr absent ↦ ground arith
    ]

pub is_active-status :
    (status : PlanTemplateStatus) → is_template_active status ≡ true → status ≡ template_active
is_active-status template_active h = refl
is_active-status template_invalidated h = ground arith

pub is_ready-status :
    (status : CapabilityPlanStatus) → is_plan_ready status ≡ true → status ≡ plan_ready
is_ready-status plan_ready h = refl
is_ready-status plan_blocked h = ground arith

pub criteria-equal :
    (left right : PlanTemplateMatchCriteria)
    → equal_match_criteria left right ≡ true
    → (left.intent_kind ≡ right.intent_kind)
      × (left.task_kind ≡ right.task_kind)
      × (left.input_contract_version ≡ right.input_contract_version)
unfolding equal_match_criteria
criteria-equal left right h =
    let (h2, contract) = &&-eq-true _ _ h in
    let (intent, task) = &&-eq-true _ _ h2 in
    (
      (eq_iff left.intent_kind right.intent_kind).0 intent,
      (eq_iff left.task_kind right.task_kind).0 task,
      (eq_iff left.input_contract_version right.input_contract_version).0 contract,
    )
