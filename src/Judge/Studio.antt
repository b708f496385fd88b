-- ===== src/Judge/Studio.antt =====
-- The agent studio: backend/app/api/prompts.py, whose rows are prompt bodies, and
-- backend/app/api/output_schemas.py, whose rows are output schemas. The two are one model, over the
-- content and its check. The audit log and the columns that only it reads are left out.
pub mod Activation
pub mod Invariant
pub mod Alone
use call_audit_supervisor.Common.{
  ℕ, suc, ◌+◌, Bool, true, false, not, ◌&&◌, ◌||◌, Option, none, some, List, [], ◌∷◌, ◌++◌, String,
  filter, find?, any, update_where, ◌==◌, str_eq, if◌then◌else◌,
}
use call_audit_supervisor.Common.Codes.{Text, codes, text_eq, is_empty, strip, lower}
use call_audit_supervisor.Judge.Scope.{Scoped}
use call_audit_supervisor.Judge.Prompts.{Stored, agents}

-- The status of the answer.
pub data Status : Type 0 where
  ok created no_content not_found conflict unprocessable : Status

-- `is_not_distinct_from`: two columns that may both be null.
abbrev pub same_id : Option ℕ → Option ℕ → Bool
same_id none none = true
same_id (some a) (some b) = a == b
same_id _ _ = false

-- `_check_agent` and `_check_stage`
abbrev pub known_agent : String → Bool
known_agent ag = any (λ a. str_eq a ag) agents

-- `s.endswith(suffix)`
abbrev pub ends_with : Text → Text → Bool
ends_with suffix [] = is_empty suffix
ends_with suffix (c ∷ s) = text_eq suffix (c ∷ s) || ends_with suffix s

pub record Table (A : Type 0) : Type 0 where
  pub rows : List (Scoped (Stored A))
  pub next_id : ℕ

module _ {A : Type 0} where
  -- The agent and the exact scope of two rows are the same.
  unfoldable pub same_slot : Scoped (Stored A) → Scoped (Stored A) → Bool
  same_slot r s =
      str_eq r.payload.agent s.payload.agent
      && same_id r.portfolio_id s.portfolio_id
      && same_id r.agent_id s.agent_id

  abbrev pub clash : Scoped (Stored A) → Scoped (Stored A) → Bool
  clash r s = r.payload.in_use && s.payload.in_use && same_slot r s

  abbrev pub has_id : ℕ → Scoped (Stored A) → Bool
  has_id k r = r.payload.id == k

  abbrev pub with_use : Bool → Scoped (Stored A) → Scoped (Stored A)
  with_use b r = record r { payload = record r.payload { in_use = b } }

  -- The partial unique index of the rows in use, which the commit checks.
  abbrev no_clash : Scoped (Stored A) → List (Scoped (Stored A)) → Bool
  no_clash r [] = true
  no_clash r (s ∷ rows) = not (clash r s) && no_clash r rows

  unfoldable pub index_holds : List (Scoped (Stored A)) → Bool
  unfolding same_slot
  index_holds [] = true
  index_holds (r ∷ rows) = no_clash r rows && index_holds rows

  -- `list_prompts`: the rows of the exact scope, of one agent when it is named; the order is left
  -- out.
  unfoldable pub list_rows :
      Option String → Option ℕ → Option ℕ → List (Scoped (Stored A)) → List (Scoped (Stored A))
  list_rows agent pid aid rows =
      filter (λ r. same_id r.portfolio_id pid && same_id r.agent_id aid && of_agent agent r) rows
    where
      of_agent : Option String → Scoped (Stored A) → Bool
      of_agent none r = true
      of_agent (some ag) r = if str_eq ag "" then true else str_eq r.payload.agent ag

  abbrev new_row : String → Option ℕ → Option ℕ → A → ℕ → Scoped (Stored A)
  new_row agent pid aid content id = record {
    portfolio_id = pid;
    agent_id = aid;
    payload = record { id = id; agent = agent; in_use = false; content = content };
  }

  abbrev add_row : String → Option ℕ → Option ℕ → A → Table A → Table A
  add_row agent pid aid content t = record {
    rows = t.rows ++ new_row agent pid aid content t.next_id ∷ [];
    next_id = t.next_id + 1;
  }

  -- `create_prompt`, and `create_output_schema` with the check of the schema.
  unfoldable pub create : (A → Bool) → String → Option ℕ → Option ℕ → A → Table A → Status × Table A
  create is_valid agent pid aid content t =
      if known_agent agent && is_valid content
      then (created, add_row agent pid aid content t)
      else (unprocessable, t)

  abbrev commit_use : Scoped (Stored A) → Table A → List (Scoped (Stored A)) → Status × Table A
  commit_use p t rows = if index_holds rows then (ok, record t { rows = rows }) else (conflict, t)

  abbrev activate_row : Option (Scoped (Stored A)) → ℕ → Table A → Status × Table A
  activate_row none k t = (not_found, t)
  activate_row (some p) k t =
      commit_use p t (
        update_where (has_id k) (with_use true)
          (update_where (same_slot p) (with_use false) t.rows))

  -- `activate_prompt`: the others of the slot are taken out of use, then the row is put in use; the
  -- commit rolls back if the index refuses it.
  unfoldable pub activate : ℕ → Table A → Status × Table A
  unfolding same_slot index_holds
  activate k t = activate_row (find? (has_id k) t.rows) k t

  abbrev deactivate_row : Option (Scoped (Stored A)) → ℕ → Table A → Status × Table A
  deactivate_row none k t = (not_found, t)
  deactivate_row (some p) k t =
      (no_content, record t { rows = update_where (has_id k) (with_use false) t.rows })

  unfoldable pub deactivate : ℕ → Table A → Status × Table A
  deactivate k t = deactivate_row (find? (has_id k) t.rows) k t

  abbrev delete_row : Option (Scoped (Stored A)) → ℕ → Table A → Status × Table A
  delete_row none k t = (not_found, t)
  delete_row (some p) k t = (no_content, record t { rows = filter (λ r. not (has_id k r)) t.rows })

  unfoldable pub delete : ℕ → Table A → Status × Table A
  delete k t = delete_row (find? (has_id k) t.rows) k t

-- `upload_prompt`: the file is a text whose bytes the caller has decoded, if they are UTF-8. The row
-- is a global one.
abbrev is_markdown : Text → Bool
is_markdown name =
    ends_with (codes ".md") name
    || ends_with (codes ".markdown") name
    || ends_with (codes ".txt") name

abbrev has_text : Option String → Bool
has_text none = false
has_text (some content) = not (is_empty (strip (codes content)))

abbrev upload_content : Option String → String
upload_content none = ""
upload_content (some content) = content

unfoldable pub upload : String → String → Option String → Table String → Status × Table String
upload agent filename decoded t =
    if known_agent agent && is_markdown (lower (codes filename)) && has_text decoded
    then (created, add_row agent none none (upload_content decoded) t)
    else (unprocessable, t)
