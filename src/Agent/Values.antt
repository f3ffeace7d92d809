-- ===== src/Agent/Values.antt =====
-- agent/src/agent/workflows/workflow_support.py, state.py: the values that a workflow's state, the
-- replies of tools and resumptions hold.
use kdt_ai_2_hands_on_experi.Common.{ℕ, zero, Bool, true, false, Option, none, some}
use kdt_ai_2_hands_on_experi.Common.Int.{ℤ, pos}

-- A text: one that the workflows compare with, `empty`, any other one, or `f"{a}:{b}"`.
pub data Word : Type 0 where
  empty extracted always error : Word
  resolved selection_required no_accounts selected cancelled cancelled_return : Word
  valid invalid limit_exceeded submitted : Word
  ready_for_confirmation correction_required blocked unchanged completed : Word
  approved change_requested from_account to_account amount account alias : Word
  authentication_required verified failed expired retriable retry : Word
  reauthentication_required : Word
  another : ℕ → Word
  joined : Word → Word → Word

-- A JSON value; `other` is neither null nor an integer nor a text, with its truth value.
pub data Value : Type 0 where
  null : Value
  integer : ℤ → Value
  text : Word → Value
  other : (truth : Bool) → ℕ → Value

abbrev pub is_null : Value → Bool
is_null null = true
is_null _ = false

-- `isinstance(value, str) and value`
abbrev pub is_text : Value → Bool
is_text (text empty) = false
is_text (text w) = true
is_text _ = false

-- `bool(value)`
abbrev pub truthy : Value → Bool
truthy null = false
truthy (integer (pos zero)) = false
truthy (integer n) = true
truthy (text empty) = false
truthy (text w) = true
truthy (other truth n) = truth

-- A resumption overwrites what it names: `{**data, **resume_values}`.
abbrev pub merged : Option Value → Value → Value
merged none old = old
merged (some new) old = new

-- What a step waits for from a tool: an error, with its safe message if it has one, or a result.
pub data ToolReply (A : Type 0) : Type 0 where
  failed_with : Option ℕ → ToolReply A
  replied : A → ToolReply A

abbrev pub default_message : ℕ
default_message = 0

-- `build_tool_error_update`
abbrev pub safe_message : Option ℕ → ℕ
safe_message none = default_message
safe_message (some m) = m

pub data Status : Type 0 where
  running completed_status blocked_status workflow_failed : Status

-- What a step returns: the merged data, the key of its route, and a new status.
pub record Update (Data : Type 0) : Type 0 where
  pub new_data : Data
  pub route_key : Word
  pub status : Option Status

abbrev pub goes : {Data : Type 0} → Word → Data → Update Data
goes route d = record { new_data = d; route_key = route; status = none }

abbrev pub ends : {Data : Type 0} → Status → Word → Data → Update Data
ends status route d = record { new_data = d; route_key = route; status = some status }
