-- ===== src/Gateway/Setting/Alias/Laws.antt =====
-- Normalising an alias.
use kdt_ai_2_hands_on_experi.Common.{◌≡◌, ◌↔◌, sym, ap, ◌∙◌, true}
use kdt_ai_2_hands_on_experi.Common.Texts.{Text, split}
use kdt_ai_2_hands_on_experi.Common.Texts.Words.{split-IsWord, split-join}
use kdt_ai_2_hands_on_experi.Common.Texts.Tidy.{is_tidy, is_tidy-join, join-split}
use kdt_ai_2_hands_on_experi.Gateway.Setting.Alias.{normalize_alias}

-- A normalised alias is tidy: its only blanks are single spaces between letters. It splits into the
-- words of the alias, and exactly the tidy aliases are left as they are.
pub normalize_alias-is_tidy :
    (alias : Text)
    → (is_tidy (normalize_alias alias) ≡ true)
      × (split (normalize_alias alias) ≡ split alias)
      × ((normalize_alias alias ≡ alias) ↔ (is_tidy alias ≡ true))
unfolding normalize_alias
normalize_alias-is_tidy alias =
    let words = split-IsWord alias in
    let tidy = is_tidy-join (split alias) words in
    (
      tidy,
      split-join (split alias) words,
      ((λ same. ap is_tidy (sym same) ∙ tidy), join-split alias),
    )
