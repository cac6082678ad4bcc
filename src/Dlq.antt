-- ===== src/Dlq.antt =====
-- The dead letter queue: app/services/dlq/service.py over the table of app/models/dlq.py. The id
-- of a new row is the one after the last, error texts are cut as in the source, the traceback is an
-- argument.
use gift_hub.Prelude.{
  ℕ, suc, ◌==◌, String, Bool, Option, none, some, List, [], ◌∷◌, ◌++◌, find, update_rows,
}
use gift_hub.Prelude.Dict.{Dict}
use gift_hub.Prelude.Texts.{take_chars}

pub data DlqStatus : Type 0 where
  exhausted retrying resolved cancelled : DlqStatus

pub record FailedJob : Type 0 where
  pub id : ℕ
  pub job_type : String
  pub order_id : Option ℕ
  pub payload : Dict String
  pub error_message : String
  pub traceback : String
  pub attempts : ℕ
  pub status : DlqStatus
  pub resolution_notes : Option String
  pub resolved_by : Option ℕ
  pub correlation_id : String
  pub created_at : ℕ
  pub resolved_at : Option ℕ

-- The identity that the database gives to the next row.
abbrev pub next_id : List FailedJob → ℕ
next_id [] = 1
next_id (j ∷ []) = suc j.id
next_id (j ∷ k ∷ js) = next_id (k ∷ js)

-- The arguments of `record_failed_job`, its defaults filled in by the caller.
pub record Job : Type 0 where
  pub job_type : String
  pub payload : Dict String
  pub error_message : String
  pub traceback : String
  pub order_id : Option ℕ
  pub attempts : ℕ
  pub correlation_id : String

unfoldable pub record_failed_job : ℕ → Job → List FailedJob → List FailedJob
record_failed_job now j jobs =
    jobs
    ++ record {
      id = next_id jobs;
      job_type = j.job_type;
      order_id = j.order_id;
      payload = j.payload;
      error_message = take_chars 2000 j.error_message;
      traceback = take_chars 4000 j.traceback;
      attempts = j.attempts;
      status = exhausted;
      resolution_notes = none;
      resolved_by = none;
      correlation_id = j.correlation_id;
      created_at = now;
      resolved_at = none;
    }
      ∷ []

abbrev pub has_id : ℕ → FailedJob → Bool
has_id i j = j.id == i

-- `session.get`, then the change of the row that was found.
unfoldable pub mark_retrying : ℕ → Option ℕ → List FailedJob → Option FailedJob × List FailedJob
mark_retrying i admin jobs =
    let change = λ (j : FailedJob). record j { status = retrying; resolved_by = admin } in
    let jobs' = update_rows (has_id i) change jobs in (find (has_id i) jobs', jobs')

unfoldable pub resolve_job : ℕ → ℕ → ℕ → String → List FailedJob → Option FailedJob × List FailedJob
resolve_job now i admin notes jobs =
    let change = λ (j : FailedJob). record j {
      status = resolved;
      resolved_by = some admin;
      resolution_notes = some notes;
      resolved_at = some now;
    } in
    let jobs' = update_rows (has_id i) change jobs in (find (has_id i) jobs', jobs')
