-- ===== src/Partners/Workflows.antt =====
-- `execute_workflow` of app/services/partner_integrations.py: the steps of a workflow, and the
-- compensation of those that were done when one fails.
pub mod Laws
use thuso_wechat_ls.Base.{
  Bool, true, Option, none, some, List, [], ◌∷◌, String, ◌<>◌, if◌then◌else◌, Exec, Result, ok, err,
  Kind, pure, raise, raise_if, lift, ◌>>=◌, ◌>>◌, runtime_error,
}
use thuso_wechat_ls.Base.Json.{
  Value, null, str, arr, obj, Items, nil, cons, Fields, end, field, Python, get, truthy, or_else,
  str_of, set_field,
}
use thuso_wechat_ls.Partners.Template.{render}
use thuso_wechat_ls.Partners.World.{World}
use thuso_wechat_ls.Partners.Integrations.{PartnerIntegration}
use thuso_wechat_ls.Partners.Operations.{Session, Adapters, execute_partner}

-- How the loop over the steps ends, with the results so far and the steps done, the latest first.
pub data Outcome : Type 0 where
  finished : (results : Fields) → Outcome
  failed : Kind → String → (results : Fields) → (completed_steps : List (Fields × Fields)) → Outcome

-- `run operation payload` is `execute_partner` for this configuration and trace.
module _ {S : Type 0} (py : Python) (trace_id : String) (payload : Fields)
    (run : String → Fields → Exec S (Fields × Bool)) where
  abbrev pub step_payload : Fields → Fields → Value
  step_payload step results =
      render py (or_else (get "payload_template" step) (str "{{payload}}")) (
        field "payload" (obj payload)
          (field "steps" (obj results) (field "trace_id" (str trace_id) end)))

  abbrev pub object_payload : Value → Value → Result Fields
  object_payload operation (obj fs) = ok fs
  object_payload operation v =
      err runtime_error ("Workflow step " <> str_of py operation <> " payload must be an object")

  -- The body of the loop: the name under which the result is stored, and the result.
  unfoldable pub run_step : Fields → Fields → Exec S (String × Fields)
  run_step step results = do
    let operation = get "operation" step
    if truthy operation
        then (do
          fs ← lift (object_payload operation (step_payload step results))
          result ← run (str_of py operation) fs
          pure (str_of py (or_else (get "store_as" step) operation), result.0))
        else raise runtime_error "Partner workflow step requires an operation"

  unfoldable pub run_steps : Items → Fields → List (Fields × Fields) → S → Outcome × S
  unfolding run_step
  run_steps nil results completed s = (finished results, s)
  run_steps (cons (obj step) steps) results completed s =
      let (r, s') = run_step step results s in
      elim r [
        | ok (name, result) ↦
            run_steps steps (set_field name (obj result) results) ((step, result) ∷ completed) s'
        | err k m ↦ (failed k m results completed, s')
      ]
  run_steps (cons v steps) results completed s =
      (failed runtime_error "Partner workflow step must be an object" results completed, s)

  abbrev pub compensation_payload : Fields → Fields → Fields → Value
  compensation_payload step previous results =
      render py (or_else (get "compensation_payload_template" step) (str "{{previous}}")) (
        field "payload" (obj payload) (
          field "previous" (obj previous)
            (field "steps" (obj results) (field "trace_id" (str trace_id) end))))

  -- A payload that is no object is skipped, and an error of the call is dropped.
  abbrev pub call_compensation : Value → Value → S → S
  call_compensation compensation (obj fs) s = (run (str_of py compensation) fs s).1
  call_compensation compensation v s = s

  unfoldable pub compensate_step : Fields → Fields → Fields → S → S
  compensate_step step previous results s =
      let compensation = get "compensation_operation" step in
      if truthy compensation
      then call_compensation compensation (compensation_payload step previous results) s
      else s

  -- `for step, previous_result in reversed(completed_steps)`
  unfoldable pub compensate : List (Fields × Fields) → Fields → S → S
  unfolding compensate_step
  compensate [] results s = s
  compensate ((step, previous) ∷ completed) results s =
      compensate completed results (compensate_step step previous results s)

  abbrev pub conclude : String → Outcome × S → Result (Fields × Bool) × S
  conclude workflow_name (finished results, s) =
      (ok (field "workflow" (str workflow_name) (field "steps" (obj results) end), true), s)
  conclude workflow_name (failed k m results completed, s) =
      (err k m, compensate completed results s)

  unfoldable pub run_workflow : String → Value → Exec S (Fields × Bool)
  unfolding run_steps compensate
  run_workflow workflow_name (arr (cons step steps)) s =
      conclude workflow_name (run_steps (cons step steps) end [] s)
  run_workflow workflow_name v s =
      (err runtime_error ("Partner workflow not configured: " <> workflow_name), s)

unfoldable pub execute_workflow :
    Python
    → World
    → Adapters
    → PartnerIntegration
    → (workflow_name trace_id : String) → Fields
    → Exec Session (Fields × Bool)
unfolding run_workflow
execute_workflow py w adapters config workflow_name trace_id payload =
    run_workflow py trace_id payload
      (λ operation fs. execute_partner py w adapters config operation trace_id fs) workflow_name
      (get workflow_name config.workflow_configs)
