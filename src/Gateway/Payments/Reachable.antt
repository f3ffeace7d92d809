-- ===== src/Gateway/Payments/Reachable.antt =====
-- In every state that the gateway and the bank can reach, an executed transfer is paid.
use kdt_ai_2_hands_on_experi.Common.{◌≡◌, sym, subst, []}
use kdt_ai_2_hands_on_experi.Common.Texts.{Text}
use kdt_ai_2_hands_on_experi.Gateway.Rows.{Store}
use kdt_ai_2_hands_on_experi.Gateway.Bank.{Bank}
use kdt_ai_2_hands_on_experi.Gateway.Payments.{Request, serve}
use kdt_ai_2_hands_on_experi.Gateway.Payments.Paid.{IsPaid}
use kdt_ai_2_hands_on_experi.Gateway.Payments.Served.{serve-IsPaid}

-- The states of the gateway and the bank that requests lead to, from a gateway with accounts only.
pub data Reachable (bank : Bank) (lower : Text → Text) : Store × bank.State → Type 0 where
  start : (s : Store) (st : bank.State) → s.confirmations ≡ [] → Reachable bank lower (s, st)
  step :
      {w : Store × bank.State} (r : Request)
      → Reachable bank lower w
      → Reachable bank lower (serve bank lower r w)

-- In every state that the gateway and the bank can reach by preparations, decisions, authentications,
-- executions, changes of settings and the calls of other clients of the bank, in any order, every
-- executed confirmation of a transfer is paid: the bank has recorded a transfer under the
-- confirmation's own key for the amount that the confirmation fixes.
pub Reachable-IsPaid :
    {bank : Bank} {lower : Text → Text} {w : Store × bank.State}
    → Reachable bank lower w
    → IsPaid bank w.1 w.0.confirmations
Reachable-IsPaid {bank = bank} (start s st e) =
    subst (IsPaid bank st) (sym e) (λ k c found moves executed. cc)
Reachable-IsPaid {bank = bank} {lower = lower} (step {w = w} r h) =
    serve-IsPaid bank lower r w.0 w.1 (Reachable-IsPaid h)
