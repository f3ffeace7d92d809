-- ===== src/Gateway/Recipient.antt =====
-- Recipients of transfers to others: the `_resolve_*_recipient` of agent_tools/transfer_service.py and
-- repository/recipient_candidate_repository.py.
pub mod Laws
use kdt_ai_2_hands_on_experi.Common.{
  ℕ, Bool, true, false, not, Option, none, some, List, [], ◌∷◌, ◌&&◌, ◌==◌, leb, if◌then◌else◌,
}
use kdt_ai_2_hands_on_experi.Gateway.Rows.{
  Account, CandidateStatus, Confirmation, ConfirmationOperation, ConfirmationStatus,
  ExecutionContext, FixedData, RecipientCandidate, Store, status_eq, operation_eq,
}
use kdt_ai_2_hands_on_experi.Gateway.Service.{Error, Result, ok, err}
use kdt_ai_2_hands_on_experi.Gateway.Transfer.{get_account}

abbrev pub is_verified : CandidateStatus → Bool
is_verified CandidateStatus.verified = true
is_verified CandidateStatus.consumed = false

-- `get_recipient_candidate_by_id`
abbrev pub get_candidate : ℕ → List RecipientCandidate → Option RecipientCandidate
get_candidate k [] = none
get_candidate k (c ∷ rest) = if k == c.id then some c else get_candidate k rest

abbrev consume_verified : RecipientCandidate → RecipientCandidate
consume_verified c =
    if is_verified c.status then record c { status = CandidateStatus.consumed } else c

abbrev pub consume : ℕ → List RecipientCandidate → List RecipientCandidate
consume k [] = []
consume k (c ∷ rest) = (if k == c.id then consume_verified c else c) ∷ consume k rest

abbrev pub is_usable : Option RecipientCandidate → Bool
is_usable none = false
is_usable (some c) = is_verified c.status

-- `mark_candidate_consumed`: a conditional UPDATE; the flag says whether a row was changed.
unfoldable pub mark_candidate_consumed : RecipientCandidate → Store → Bool × Store
mark_candidate_consumed c s = (
  is_usable (get_candidate c.id s.candidates),
  record s { candidates = consume c.id s.candidates },
)

-- The WHERE clause of `get_executed_external_transfers`
abbrev pub is_executed_external : ℕ → Confirmation → Bool
is_executed_external user c =
    c.user_id == user
    && status_eq c.status ConfirmationStatus.executed
    && operation_eq c.operation ConfirmationOperation.external_transfer

abbrev pub or_name : List ℕ → Option (List ℕ) → Option (List ℕ)
or_name [] previous = previous
or_name (x ∷ xs) previous = some (x ∷ xs)

abbrev pub name_in : ℕ → FixedData → Option (List ℕ) → Option (List ℕ)
name_in k (FixedData.external_data from r name amount) previous =
    if r == k then or_name name previous else previous
name_in k _ previous = previous

-- The loop of `_resolve_existing_recipient`: the name in the last row that has one. The rows come in
-- the order in which the database returns them.
abbrev pub recipient_name_from : ℕ → ℕ → List Confirmation → Option (List ℕ) → Option (List ℕ)
recipient_name_from user k [] name = name
recipient_name_from user k (c ∷ rest) name =
    recipient_name_from user k rest
      (if is_executed_external user c then name_in k c.fixed_data name else name)

or_not_found : Option (List ℕ) → Option Account → Result (Account × List ℕ)
or_not_found none a = err Error.recipient_not_found
or_not_found (some name) none = err Error.recipient_not_found
or_not_found (some name) (some a) = ok (a, name)

-- `_resolve_existing_recipient`
unfoldable pub resolve_existing_recipient :
    ExecutionContext → Option ℕ → Store → Result (Account × List ℕ)
unfolding or_not_found
resolve_existing_recipient ctx none s = err Error.recipient_not_found
resolve_existing_recipient ctx (some k) s =
    or_not_found (recipient_name_from ctx.user_id k s.confirmations none) (get_account k s.accounts)

candidate_account :
    RecipientCandidate → Option Account → Result (Account × List ℕ × RecipientCandidate)
candidate_account c none = err Error.recipient_not_found
candidate_account c (some a) = ok (a, c.resolved_name, c)

check_candidate :
    ExecutionContext
    → ℕ
    → Store
    → Option RecipientCandidate
    → Result (Account × List ℕ × RecipientCandidate)
unfolding candidate_account
check_candidate ctx now s none = err Error.recipient_not_found
check_candidate ctx now s (some c) =
    if not (c.user_id == ctx.user_id)
    then err Error.recipient_not_found
    else if not (is_verified c.status)
    then err Error.recipient_candidate_expired
    else if leb c.expires_at now
    then err Error.recipient_candidate_expired
    else candidate_account c (get_account c.recipient_account_id s.accounts)

-- `_resolve_candidate_recipient`
unfoldable pub resolve_candidate_recipient :
    ExecutionContext → Option ℕ → ℕ → Store → Result (Account × List ℕ × RecipientCandidate)
unfolding check_candidate
resolve_candidate_recipient ctx none now s = err Error.recipient_not_found
resolve_candidate_recipient ctx (some k) now s =
    check_candidate ctx now s (get_candidate k s.candidates)
