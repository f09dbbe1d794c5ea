-- ===== src/Partners/Workflows/Laws.antt =====
-- Which calls a workflow of app/services/partner_integrations.py makes, and in which order.
use mathlib.Core.Path.{subst}
use mathlib.Core.List.{append_assoc, append-nil}
use thuso_wechat_ls.Base.{
  ◌≡◌, refl, sym, ap, ◌∙◌, ◌⊎◌, inl, inr, Bool, List, [], ◌∷◌, ◌++◌, String, Exec, Result, ok, err,
  Bool-cases, lift, ◌>>=◌, if◌then◌else◌,
}
use thuso_wechat_ls.Base.Json.{
  Value, null, boolean, number, str, arr, obj, Items, nil, cons, Fields, end, Python, get, truthy,
  str_of, set_field, or_else,
}
use thuso_wechat_ls.Partners.Workflows.{
  Outcome, finished, failed, run_step, run_steps, compensate, compensate_step, run_workflow,
  conclude, step_payload, object_payload, compensation_payload, call_compensation,
}

-- The operations, with what is left of each call written down behind those that were made.
abbrev pub logged {ℓ} :
    {S : Type ℓ}
    → (String → Fields → Exec S (Fields × Bool))
    → String
    → Fields
    → Exec (S × List String) (Fields × Bool)
logged run operation fs (s, l) =
    let (r, s') = run operation fs s in (r, (s', l ++ (operation ∷ [])))

-- The steps, in order, before the others.
abbrev pub objects : List (Fields × Fields) → Items → Items
objects [] rest = rest
objects ((step, result) ∷ done) rest = cons (obj step) (objects done rest)

abbrev pub reversed_onto : List (Fields × Fields) → List (Fields × Fields) → List (Fields × Fields)
reversed_onto [] completed = completed
reversed_onto (x ∷ done) completed = reversed_onto done (x ∷ completed)

module _ {S : Type 0} (py : Python) (trace_id : String) (payload : Fields)
    (run : String → Fields → Exec S (Fields × Bool)) where
  abbrev pub operation_of : Fields → String
  operation_of step = str_of py (get "operation" step)

  abbrev pub operations : List (Fields × Fields) → List String
  operations [] = []
  operations ((step, result) ∷ done) = operation_of step ∷ operations done

  abbrev pub items_operations : Items → List String
  items_operations nil = []
  items_operations (cons (obj step) steps) = operation_of step ∷ items_operations steps
  items_operations (cons v steps) = items_operations steps

  abbrev pub first_operation : Items → List String
  first_operation (cons (obj step) steps) = operation_of step ∷ []
  first_operation steps = []

  -- The compensations of the steps that have one, with an object for its payload.
  abbrev pub compensation_of : Value → Value → List String
  compensation_of compensation (obj fs) = str_of py compensation ∷ []
  compensation_of compensation v = []

  abbrev pub step_compensation : Fields → Fields → Fields → List String
  step_compensation step previous results =
      if truthy (get "compensation_operation" step)
      then compensation_of (get "compensation_operation" step)
          (compensation_payload py trace_id payload (logged run) step previous results)
      else []

  abbrev pub compensations : List (Fields × Fields) → Fields → List String
  compensations [] results = []
  compensations ((step, previous) ∷ completed) results =
      step_compensation step previous results ++ compensations completed results

  -- A call of the operation of a step, or none where the step fails before it.
  abbrev StepCalls : Fields → List String → Result (String × Fields) × (S × List String) → Type 0
  StepCalls step l (ok x, (s, l')) = l' ≡ l ++ (operation_of step ∷ [])
  StepCalls step l (err k m, (s, l')) = (l' ≡ l) ⊎ (l' ≡ l ++ (operation_of step ∷ []))

  called :
      (step : Fields) (l : List String) (name : String) (r : Result (Fields × Bool) × S)
      → StepCalls step l (
          ◌>>=◌
            (λ (t : S × List String). (r.0, (r.1, l ++ (operation_of step ∷ []))))
            (λ (result : Fields × Bool) t. (ok (name, result.0), t))
            (r.1, l))
  called step l name (ok result, s) = refl
  called step l name (err k m, s) = inr refl

  object_called :
      (step : Fields) (s : S) (l : List String) (name : String) (r : Result Fields)
      → StepCalls step l (
          (lift r >>= λ fs.
          logged run (operation_of step) fs >>= λ result t. (ok (name, result.0), t))
            (s, l))
  object_called step s l name (ok fs) = called step l name (run (operation_of step) fs s)
  object_called step s l name (err k m) = inl refl

  run_step-StepCalls :
      (step results : Fields) (s : S) (l : List String)
      → StepCalls step l (run_step py trace_id payload (logged run) step results (s, l))
  unfolding run_step
  run_step-StepCalls step results s l = elim (Bool-cases (truthy (get "operation" step))) [
    | inl e ↦ rw e (
        object_called step s l (str_of py (or_else (get "store_as" step) (get "operation" step))) (
          object_payload py trace_id payload (logged run) (get "operation" step)
            (step_payload py trace_id payload (logged run) step results)))
    | inr e ↦ rw e (inl refl)
  ]

  call_logged :
      (compensation v : Value) (s : S) (l : List String)
      → (s' : S) × (call_compensation py trace_id payload (logged run) compensation v (s, l)
          ≡ (s', l ++ compensation_of compensation v))
  call_logged compensation (obj fs) s l = ((run (str_of py compensation) fs s).1, refl)
  call_logged compensation (arr v) s l = (s, ap (λ t. (s, t)) (sym (append-nil l)))
  call_logged compensation (str v) s l = (s, ap (λ t. (s, t)) (sym (append-nil l)))
  call_logged compensation (number v) s l = (s, ap (λ t. (s, t)) (sym (append-nil l)))
  call_logged compensation (boolean v) s l = (s, ap (λ t. (s, t)) (sym (append-nil l)))
  call_logged compensation null s l = (s, ap (λ t. (s, t)) (sym (append-nil l)))

  compensate_step_lem :
      (step previous results : Fields) (s : S) (l : List String)
      → (s' : S) × (compensate_step py trace_id payload (logged run) step previous results (s, l)
          ≡ (s', l ++ step_compensation step previous results))
  unfolding compensate_step
  compensate_step_lem step previous results s l =
      elim (Bool-cases (truthy (get "compensation_operation" step))) [
        | inl e ↦ rw e (
            call_logged (get "compensation_operation" step)
              (compensation_payload py trace_id payload (logged run) step previous results) s l)
        | inr e ↦ rw e (s, ap (λ t. (s, t)) (sym (append-nil l)))
      ]

  compensate_lem :
      (completed : List (Fields × Fields)) (results : Fields) (s : S) (l : List String)
      → (compensate py trace_id payload (logged run) completed results (s, l)).1
        ≡ l ++ compensations completed results
  unfolding compensate
  compensate_lem [] results s l = sym (append-nil l)
  compensate_lem ((step, previous) ∷ completed) results s l =
      let (s', e) = compensate_step_lem step previous results s l in
      ap (λ t. (compensate py trace_id payload (logged run) completed results t).1) e
      ∙ compensate_lem completed results s' (l ++ step_compensation step previous results)
      ∙ append_assoc l (step_compensation step previous results) (compensations completed results)

  -- What the loop over the steps has called, by how it ends: all of the steps in order, or the steps
  -- that were done and at most the one that failed.
  pub record Stopped (steps : Items) (completed completed' : List (Fields × Fields))
      (l l' : List String) : Type 0 where
    pub done : List (Fields × Fields)
    pub rest : Items
    pub last : List String
    pub in_order : steps ≡ objects done rest
    pub behind : completed' ≡ reversed_onto done completed
    pub at_most_one : (last ≡ []) ⊎ (last ≡ first_operation rest)
    pub calls : l' ≡ l ++ (operations done ++ last)

  abbrev Loop : Items → List (Fields × Fields) → List String → Outcome × (S × List String) → Type 0
  Loop steps completed l (finished results, (s, l')) = l' ≡ l ++ items_operations steps
  Loop steps completed l (failed k m results completed', (s, l')) =
      Stopped steps completed completed' l l'

  no_object :
      (steps : Items) (completed : List (Fields × Fields)) (l : List String)
      → Stopped steps completed completed l l
  no_object steps completed l = record {
    done = [];
    rest = steps;
    last = [];
    in_order = refl;
    behind = refl;
    at_most_one = inl refl;
    calls = sym (append-nil l);
  }

  -- The rest of the loop, after a step with this outcome.
  abbrev step_outcome :
      Fields
      → Items
      → Fields
      → List (Fields × Fields)
      → Result (String × Fields) × (S × List String)
      → Outcome × (S × List String)
  step_outcome step steps results completed r = elim r.0 [
    | ok (name, result) ↦
        run_steps py trace_id payload (logged run) steps (set_field name (obj result) results)
          ((step, result) ∷ completed) r.1
    | err k m ↦ (failed k m results completed, r.1)
  ]

  one_more :
      (step result : Fields) (steps : Items) (completed : List (Fields × Fields)) (l : List String)
      (o : Outcome × (S × List String))
      → Loop steps ((step, result) ∷ completed) (l ++ (operation_of step ∷ [])) o
      → Loop (cons (obj step) steps) completed l o
  one_more step result steps completed l (finished results, (s, l')) h =
      h ∙ append_assoc l (operation_of step ∷ []) (items_operations steps)
  one_more step result steps completed l (failed k m results completed', (s, l')) h = record {
    done = (step, result) ∷ h.done;
    rest = h.rest;
    last = h.last;
    in_order = ap (cons (obj step)) h.in_order;
    behind = h.behind;
    at_most_one = h.at_most_one;
    calls = h.calls ∙ append_assoc l (operation_of step ∷ []) (operations h.done ++ h.last);
  }

  failed_step :
      (step : Fields) (steps : Items) (completed : List (Fields × Fields)) (l l' : List String)
      → (l' ≡ l) ⊎ (l' ≡ l ++ (operation_of step ∷ []))
      → Stopped (cons (obj step) steps) completed completed l l'
  failed_step step steps completed l l' (inl e) =
      subst (Stopped (cons (obj step) steps) completed completed l) (sym e)
        (no_object (cons (obj step) steps) completed l)
  failed_step step steps completed l l' (inr e) = record {
    done = [];
    rest = cons (obj step) steps;
    last = operation_of step ∷ [];
    in_order = refl;
    behind = refl;
    at_most_one = inr refl;
    calls = e;
  }

  after_step :
      (step : Fields) (steps : Items) (results : Fields) (completed : List (Fields × Fields))
      (l : List String) (r : Result (String × Fields) × (S × List String))
      → ((results' : Fields) (completed' : List (Fields × Fields)) (s' : S) (l' : List String)
          → Loop steps completed' l'
              (run_steps py trace_id payload (logged run) steps results' completed' (s', l')))
      → StepCalls step l r
      → Loop (cons (obj step) steps) completed l (step_outcome step steps results completed r)
  after_step step steps results completed l (ok (name, result), (s, l')) ih e =
      one_more step result steps completed l
        (run_steps py trace_id payload (logged run) steps (set_field name (obj result) results)
          ((step, result) ∷ completed) (s, l'))
        (subst
          (λ t. Loop steps ((step, result) ∷ completed) t (
            run_steps py trace_id payload (logged run) steps (set_field name (obj result) results)
              ((step, result) ∷ completed) (s, l')))
          e (ih (set_field name (obj result) results) ((step, result) ∷ completed) s l'))
  after_step step steps results completed l (err k m, (s, l')) ih e =
      failed_step step steps completed l l' e

  run_steps-Loop :
      (steps : Items) (results : Fields) (completed : List (Fields × Fields)) (s : S)
      (l : List String)
      → Loop steps completed l
          (run_steps py trace_id payload (logged run) steps results completed (s, l))
  unfolding run_steps
  run_steps-Loop nil results completed s l = sym (append-nil l)
  run_steps-Loop (cons (obj step) steps) results completed s l =
      after_step step steps results completed l
        (run_step py trace_id payload (logged run) step results (s, l))
        (λ results' completed' s' l'. run_steps-Loop steps results' completed' s' l')
        (run_step-StepCalls step results s l)
  run_steps-Loop (cons null steps) results completed s l = no_object (cons null steps) completed l
  run_steps-Loop (cons (boolean b) steps) results completed s l =
      no_object (cons (boolean b) steps) completed l
  run_steps-Loop (cons (number n) steps) results completed s l =
      no_object (cons (number n) steps) completed l
  run_steps-Loop (cons (str t) steps) results completed s l =
      no_object (cons (str t) steps) completed l
  run_steps-Loop (cons (arr v) steps) results completed s l =
      no_object (cons (arr v) steps) completed l

  -- The calls of a workflow, by its outcome.
  pub record Compensated (steps : Items) (calls : List String) : Type 0 where
    pub done : List (Fields × Fields)
    pub rest : Items
    pub last : List String
    pub results : Fields
    pub in_order : steps ≡ objects done rest
    pub at_most_one : (last ≡ []) ⊎ (last ≡ first_operation rest)
    pub made : calls ≡ (operations done ++ last) ++ compensations (reversed_onto done []) results

  abbrev pub Calls : Items → Result (Fields × Bool) × (S × List String) → Type 0
  Calls steps (ok r, (s, l)) = l ≡ items_operations steps
  Calls steps (err k m, (s, l)) = Compensated steps l

  concluded :
      (workflow_name : String) (steps : Items) (o : Outcome × (S × List String))
      → Loop steps [] [] o
      → Calls steps (conclude py trace_id payload (logged run) workflow_name o)
  concluded workflow_name steps (finished results, (s, l)) h = h
  concluded workflow_name steps (failed k m results completed, (s, l)) h = record {
    done = h.done;
    rest = h.rest;
    last = h.last;
    results = results;
    in_order = h.in_order;
    at_most_one = h.at_most_one;
    made =
        compensate_lem completed results s l
        ∙ ap (λ t. t ++ compensations completed results) h.calls
        ∙ ap (λ c. (operations h.done ++ h.last) ++ compensations c results) h.behind;
  }

  -- Which operations a workflow calls, whatever they do: where it goes through, those of its steps, in
  -- order. Where it fails, those of the steps that were done, in order, with the one that failed unless
  -- that failed before its call, and then, from the latest back, the compensation of each step that was
  -- done, of those that have one with an object for its payload; no other.
  pub run_workflow-Calls :
      (workflow_name : String) (step : Value) (steps : Items) (s : S)
      → Calls (cons step steps) (
          run_workflow py trace_id payload
            (logged run)
            workflow_name
            (arr (cons step steps))
            (s, []))
  unfolding run_workflow
  run_workflow-Calls workflow_name step steps s =
      concluded workflow_name (cons step steps)
        (run_steps py trace_id payload (logged run) (cons step steps) end [] (s, []))
        (run_steps-Loop (cons step steps) end [] s [])
