-- ===== src/Agents/Repair.antt =====
-- agents/graph.py: the loop of validate_execute and repair_sql. The answers of the query service to
-- the proposals, one after another, are a parameter.
use tenant_intelligence_plat.Base.{
  ℕ, zero, suc, ◌≡◌, refl, String, Bool, true, false, not, ◌&&◌, Option, none, some, List, [], ◌∷◌,
  is_empty, all, str_eq, ◌==◌, if◌then◌else◌, inl, inr, Bool-cases,
}
use tenant_intelligence_plat.Agents.Routing.{Node, generate_answer, repair_sql, persist_result}

-- the rows of a query, or SafeQueryRejectedError with the codes of the execution
pub data ExecutionAnswer : Type 0 where
  returned : ExecutionAnswer
  rejected : List String → ExecutionAnswer

-- the keys of the state that route_execution reads; `has_rows` is that masked_rows is set
pub record ExecutionState : Type 0 where
  pub has_rows : Bool
  pub safe_error_codes : List String
  pub repair_count : ℕ

abbrev pub or_rejected : List String → List String
or_rejected [] = "QUERY_REJECTED" ∷ []
or_rejected (code ∷ codes) = code ∷ codes

-- `validate_execute`
abbrev pub after_execution : ExecutionAnswer → ExecutionState → ExecutionState
after_execution returned s = record s { has_rows = true; safe_error_codes = [] }
after_execution (rejected codes) s = record s { safe_error_codes = or_rejected codes }

abbrev pub is_repairable : List String → Bool
is_repairable codes = not (is_empty codes) && all (str_eq "INVALID_SQL") codes

abbrev pub route_execution : ExecutionState → Node
route_execution s =
    if s.has_rows
    then generate_answer
    else if s.repair_count == 0 && is_repairable s.safe_error_codes
    then repair_sql
    else persist_result

-- `repair_sql`
abbrev pub repaired : ExecutionState → ExecutionState
repaired s = record s { repair_count = 1 }

abbrev pub is_repair : Node → Bool
is_repair repair_sql = true
is_repair _ = false

-- the node after the loop, and how many proposals were executed
unfoldable pub execute_loop : ℕ → (ℕ → ExecutionAnswer) → ℕ → ExecutionState → Option (Node × ℕ)
execute_loop zero answers n s = none
execute_loop (suc fuel) answers n s =
    let after = after_execution (answers n) s in
    let again = execute_loop fuel answers (suc n) (repaired after) in
    if is_repair (route_execution after) then again else some (route_execution after, suc n)

-- the state at the first proposal, which load_context has prepared
abbrev pub unexecuted : ExecutionState
unexecuted = record { has_rows = false; safe_error_codes = []; repair_count = 0 }

-- the end of the loop that an answer leads to
abbrev pub end_of : ExecutionAnswer → Node
end_of returned = generate_answer
end_of (rejected codes) = persist_result

abbrev pub asks_repair : ExecutionAnswer → Bool
asks_repair returned = false
asks_repair (rejected codes) = is_repairable codes

second-end :
    (fuel : ℕ) (answers : ℕ → ExecutionAnswer) (codes : List String) (answer : ExecutionAnswer)
    → answers 1 ≡ answer
    → execute_loop
        (suc fuel)
        answers
        1
        (record { has_rows = false; safe_error_codes = codes; repair_count = 1 })
      ≡ some (end_of answer, 2)
unfolding execute_loop
second-end fuel answers codes returned e = rw e refl
second-end fuel answers codes (rejected others) e = rw e refl

first-end :
    (fuel : ℕ) (answers : ℕ → ExecutionAnswer) (answer : ExecutionAnswer)
    → answers 0 ≡ answer
    → execute_loop (suc (suc fuel)) answers 0 unexecuted
      ≡ some (if asks_repair answer then (end_of (answers 1), 2) else (end_of answer, 1))
unfolding execute_loop
first-end fuel answers returned e = rw e refl
first-end fuel answers (rejected []) e = rw e refl
first-end fuel answers (rejected (code ∷ codes)) e =
    elim (Bool-cases (is_repairable (code ∷ codes))) [
      | inl again ↦ rw (e, again) (second-end fuel answers (code ∷ codes) (answers 1) refl)
      | inr never ↦ rw (e, never) refl
    ]

-- The loop ends on two units of fuel, whatever the query service answers: after a second proposal
-- where the first was rejected with codes that are all INVALID_SQL, at least one, else after the
-- first; in generate_answer where the last answer has rows, else in persist_result.
pub execute_loop-ends :
    (fuel : ℕ) (answers : ℕ → ExecutionAnswer)
    → execute_loop (suc (suc fuel)) answers 0 unexecuted
      ≡ some (if asks_repair (answers 0) then (end_of (answers 1), 2) else (end_of (answers 0), 1))
execute_loop-ends fuel answers = first-end fuel answers (answers 0) refl
