-- ===== src/Financial/Tests/Days.antt =====
-- The end-of-day batch over the town.
use kdt_ai_2_hands_on_experi.Common.Lists.{All}
use kdt_ai_2_hands_on_experi.Financial.Closing.{run_daily_closing}
use kdt_ai_2_hands_on_experi.Financial.Closing.Laws.{ClosesAt, run_daily_closing-ClosesAt}
use kdt_ai_2_hands_on_experi.Financial.Tests.Town.{town, town-IsBank}

run_daily_closing-ClosesAt_example :
    All (ClosesAt town 20260105) (run_daily_closing 20260105 town).0
run_daily_closing-ClosesAt_example = run_daily_closing-ClosesAt 20260105 town town-IsBank.ledger
