-- ===== src/Financial/Cards/Usage.antt =====
-- The unsettled usage of a card under new charges and new settlements.
use kdt_ai_2_hands_on_experi.Common.{
  ℕ, ◌≡◌, ◌≤◌, refl, true, none, some, List, [], ◌∷◌, arith, is_some,
}
use kdt_ai_2_hands_on_experi.Common.Int.{pos, ◌≤ℤ◌, int_laws}
use kdt_ai_2_hands_on_experi.Common.Lists.{All}
use kdt_ai_2_hands_on_experi.Financial.Rows.{Card, CardLedgerEntry, Db, max_rowid}
use kdt_ai_2_hands_on_experi.Financial.Queries.{
  get_card, get_card_watermark, get_unsettled_usage, last_charge_rowid, or_zero,
}
use kdt_ai_2_hands_on_experi.Financial.Cards.{charge_rowids, unsettled}

-- The foreign key of the charges.
abbrev pub KnownCharges : List Card → List CardLedgerEntry → Type 0
KnownCharges cards = All (λ e. is_some (get_card e.card_id cards) ≡ true)

pub record IsCards (db : Db) : Type 0 where
  pub within :
      (k : ℕ) (c : Card)
      → get_card k db.cards ≡ some c
      → (pos 0 ≤ℤ c.limit) × (unsettled k db ≤ℤ c.limit)
  pub known : KnownCharges db.cards db.card_ledger_entries
  pub below :
      (k : ℕ)
      → get_card_watermark k db.transactions ≤ max_rowid (charge_rowids db.card_ledger_entries)

-- Above the card's last rowid nothing is unsettled.
pub usage-above_last :
    (k w : ℕ) (es : List CardLedgerEntry)
    → or_zero (last_charge_rowid k es) ≤ w
    → get_unsettled_usage k w es ≡ pos 0
usage-above_last k w [] h = refl
usage-above_last k w (e ∷ es) h = grind (int_laws, usage-above_last k w es)

pub usage-unknown :
    (k w : ℕ) (cards : List Card) (es : List CardLedgerEntry)
    → get_card k cards ≡ none
    → KnownCharges cards es
    → get_unsettled_usage k w es ≡ pos 0
usage-unknown k w cards [] h known = refl
usage-unknown k w cards (e ∷ es) h known =
    grind (int_laws, usage-unknown k w cards es h known.1, known.0)

pub last_charge_rowid-le_max :
    (k : ℕ) (es : List CardLedgerEntry)
    → or_zero (last_charge_rowid k es) ≤ max_rowid (charge_rowids es)
last_charge_rowid-le_max k [] = omega arith
last_charge_rowid-le_max k (e ∷ es) = ground (arith, last_charge_rowid-le_max k es)

pub KnownCharges-cons :
    (c : Card) (cards : List Card) (es : List CardLedgerEntry)
    → KnownCharges cards es
    → KnownCharges (c ∷ cards) es
KnownCharges-cons c cards [] h = tt
KnownCharges-cons c cards (e ∷ es) h = ground (arith, KnownCharges-cons c cards es h.1)
