-- ===== src/Gateway/Setting/Alias.antt =====
-- services/agent_tools/policy_constants.py and setting_service.py: the policy on account aliases.
pub mod Laws
use kdt_ai_2_hands_on_experi.Common.{
  ℕ, ◌≡◌, refl, Bool, true, false, not, ◌&&◌, ◌||◌, ◌==◌, leb, if◌then◌else◌, Option, none, some,
  List, [], ◌∷◌,
}
use kdt_ai_2_hands_on_experi.Common.Texts.{
  Text, contains, join, length_of, split, split_from, text_eq,
}
use kdt_ai_2_hands_on_experi.Gateway.Rows.{Account}

-- A blank run becomes one blank, and the ends have none.
unfoldable pub normalize_alias : Text → Text
unfolding join split_from
normalize_alias alias = join (split alias)

abbrev pub alias_min_length : ℕ
alias_min_length = 1

abbrev pub alias_max_length : ℕ
alias_max_length = 20

-- "admin", "관리자" and "테스트"
abbrev pub alias_forbidden_words : List Text
alias_forbidden_words =
    (b'a' ∷ b'd' ∷ b'm' ∷ b'i' ∷ b'n' ∷ [])
    ∷ (0xAD00 ∷ 0xB9AC ∷ 0xC790 ∷ [])
    ∷ (0xD14C ∷ 0xC2A4 ∷ 0xD2B8 ∷ [])
    ∷ []

abbrev pub any_contained : (Text → Text) → List Text → Text → Bool
any_contained lower [] text = false
any_contained lower (word ∷ words) text =
    contains (lower word) text || any_contained lower words text

-- Unicode's table of lower-case letters is the argument `lower`.
unfoldable pub is_alias_forbidden : (lower : Text → Text) → Text → Bool
unfolding normalize_alias
is_alias_forbidden lower alias =
    any_contained lower alias_forbidden_words (lower (normalize_alias alias))

abbrev pub has_alias : Text → Option Text → Bool
has_alias alias none = false
has_alias alias (some a) = text_eq a alias

-- `alias_exists_for_user`
unfoldable pub alias_exists_for_user : (user : ℕ) → Text → (exclude : ℕ) → List Account → Bool
alias_exists_for_user user alias exclude [] = false
alias_exists_for_user user alias exclude (a ∷ rest) =
    (a.user_id == user && has_alias alias a.alias && not (a.id == exclude))
    || alias_exists_for_user user alias exclude rest

pub data AliasViolation : Type 0 where
  length forbidden duplicated : AliasViolation

-- `_alias_policy_violation`
unfoldable pub alias_policy_violation :
    (lower : Text → Text) → (user : ℕ) → Account → Text → List Account → Option AliasViolation
unfolding is_alias_forbidden alias_exists_for_user
alias_policy_violation lower user a alias accounts =
    if not (leb alias_min_length (length_of alias) && leb (length_of alias) alias_max_length)
    then some AliasViolation.length
    else if is_alias_forbidden lower alias
    then some AliasViolation.forbidden
    else if alias_exists_for_user user alias a.id accounts
    then some AliasViolation.duplicated
    else none

-- The stored alias, normalised, is the new one.
unfoldable pub is_unchanged : Option Text → Text → Bool
unfolding normalize_alias
is_unchanged none alias = false
is_unchanged (some old) alias = text_eq (normalize_alias old) alias
