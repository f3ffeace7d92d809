-- ===== src/Common/Texts/Tidy.antt =====
-- Texts without a blank too many: what joins words by single blanks, and what such a join gives back.
use kdt_ai_2_hands_on_experi.Common.{
  ℕ, ◌≡◌, ◌≢◌, refl, sym, ap, ◌∙◌, Bool, true, false, not, ◌&&◌, ◌==◌, if◌then◌else◌, List, [], ◌∷◌,
  ◌++◌, arith, Bool-cases, inl, inr,
}
use kdt_ai_2_hands_on_experi.Common.Lists.{All}
use kdt_ai_2_hands_on_experi.Common.Texts.{Text, add_word, is_space, join, split, split_from}
use kdt_ai_2_hands_on_experi.Common.Texts.Words.{IsWord, NoSpace}
use mathlib.Core.List.{append_assoc, append-nil}

-- Every blank is a space between two letters; `after_letter` says whether a letter stands before.
abbrev pub tidy_from : (after_letter : Bool) → Text → Bool
tidy_from after [] = after
tidy_from true (c ∷ s) =
    let blank = tidy_from false s in
    let letter = tidy_from true s in if is_space c then c == 32 && blank else letter
tidy_from false (c ∷ s) = not (is_space c) && tidy_from true s

abbrev pub is_tidy : Text → Bool
is_tidy [] = true
is_tidy (c ∷ s) = tidy_from false (c ∷ s)

tidy_from-word : (w rest : Text) → NoSpace w → tidy_from true (w ++ rest) ≡ tidy_from true rest
tidy_from-word [] rest h = refl
tidy_from-word (c ∷ w) rest h = rw (h.0) (tidy_from-word w rest h.1)

tidy_from-first : (w rest : Text) → IsWord w → tidy_from false (w ++ rest) ≡ tidy_from true rest
tidy_from-first [] rest h = absurd (h.0 refl)
tidy_from-first (c ∷ w) rest h = rw (h.1.0) (tidy_from-word w rest h.1.1)

tidy_from-join :
    (w : Text) (words : List Text)
    → All IsWord (w ∷ words)
    → tidy_from false (join (w ∷ words)) ≡ true
unfolding join
tidy_from-join w [] h = ap (tidy_from false) (sym (append-nil w)) ∙ tidy_from-first w [] h.0
tidy_from-join w (v ∷ words) h =
    tidy_from-first w (32 ∷ join (v ∷ words)) h.0 ∙ tidy_from-join v words h.1

is_tidy-of_from : (s : Text) → tidy_from false s ≡ true → is_tidy s ≡ true
is_tidy-of_from [] h = refl
is_tidy-of_from (c ∷ s) h = h

-- Words joined by single blanks are tidy.
pub is_tidy-join : (words : List Text) → All IsWord words → is_tidy (join words) ≡ true
unfolding join
is_tidy-join [] h = refl
is_tidy-join (w ∷ words) h = is_tidy-of_from (join (w ∷ words)) (tidy_from-join w words h)

join-cons :
    (w t : Text) (words : List Text) → t ≢ [] → join words ≡ t → join (w ∷ words) ≡ w ++ 32 ∷ t
unfolding join
join-cons w t [] some_text h = absurd (some_text (sym h))
join-cons w t (v ∷ words) some_text h = ap (λ x. w ++ 32 ∷ x) h

add_word-word : (w : Text) (words : List Text) → w ≢ [] → add_word w words ≡ w ∷ words
add_word-word [] words h = absurd (h refl)
add_word-word (c ∷ w) words h = refl

append-letter : (w : Text) (c : ℕ) → w ++ c ∷ [] ≢ []
append-letter [] c e = cc
append-letter (d ∷ w) c e = cc

join-split_from :
    (word s : Text) → word ≢ [] → tidy_from true s ≡ true → join (split_from word s) ≡ word ++ s
unfolding join split_from
join-split_from word [] h tidy = rw (add_word-word word [] h) (sym (append-nil word))
join-split_from word (c ∷ []) h tidy = elim (Bool-cases (is_space c)) [
  | inl blank ↦ ground (arith, tidy, blank)
  | inr letter ↦ rw letter (
      join-split_from (word ++ c ∷ []) [] (append-letter word c) refl ∙ append-nil (word ++ c ∷ []))
]
join-split_from word (c ∷ d ∷ s) h tidy = elim (Bool-cases (is_space c)) [
  | inl blank ↦
      let space : c ≡ 32 = ground (arith, tidy, blank) in
      let letter : is_space d ≡ false = ground (arith, tidy, blank) in
      let rest : tidy_from true s ≡ true = ground (arith, tidy, blank) in
      rw (blank, add_word-word word (split (d ∷ s)) h, space)
        (join-cons word (d ∷ s) (split (d ∷ s)) (λ e. cc)
          (rw letter (join-split_from (d ∷ []) s (λ e. cc) rest)))
  | inr letter ↦ rw letter (
      join-split_from (word ++ c ∷ []) (d ∷ s) (append-letter word c) (ground (arith, tidy, letter))
      ∙ append_assoc word (c ∷ []) (d ∷ s))
]

-- A tidy text is the join of its words.
pub join-split : (s : Text) → is_tidy s ≡ true → join (split s) ≡ s
unfolding join split_from
join-split [] tidy = refl
join-split (c ∷ s) tidy =
    let letter : is_space c ≡ false = ground (arith, tidy) in
    rw letter (join-split_from (c ∷ []) s (λ e. cc) (ground (arith, tidy)))
