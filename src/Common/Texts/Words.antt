-- ===== src/Common/Texts/Words.antt =====
-- Words that are joined by single blanks are found again by `split`.
use kdt_ai_2_hands_on_experi.Common.{
  ◌≡◌, ◌≢◌, refl, sym, ap, ◌∙◌, false, List, [], ◌∷◌, ◌++◌, Bool-cases, inl, inr,
}
use kdt_ai_2_hands_on_experi.Common.Lists.{All}
use kdt_ai_2_hands_on_experi.Common.Texts.{Text, add_word, is_space, join, split, split_from}
use mathlib.Core.List.{append_assoc, append-nil}

abbrev pub NoSpace : Text → Type 0
NoSpace = All (λ c. is_space c ≡ false)

abbrev pub IsWord : Text → Type 0
IsWord w = (w ≢ []) × NoSpace w

NoSpace-append : (s t : Text) → NoSpace s → NoSpace t → NoSpace (s ++ t)
NoSpace-append [] t hs ht = ht
NoSpace-append (c ∷ s) t hs ht = (hs.0, NoSpace-append s t hs.1 ht)

add_word-IsWord :
    (w : Text) (words : List Text) → NoSpace w → All IsWord words → All IsWord (add_word w words)
add_word-IsWord [] words h hs = hs
add_word-IsWord (c ∷ w) words h hs = (((λ e. cc), h), hs)

split_from-IsWord : (word s : Text) → NoSpace word → All IsWord (split_from word s)
unfolding split_from
split_from-IsWord word [] h = add_word-IsWord word [] h tt
split_from-IsWord word (c ∷ s) h = elim (Bool-cases (is_space c)) [
  | inl blank ↦ rw blank (add_word-IsWord word _ h (split_from-IsWord [] s tt))
  | inr letter ↦
      rw letter (split_from-IsWord (word ++ c ∷ []) s (NoSpace-append word (c ∷ []) h (letter, tt)))
]

-- The words of a text are not empty and have no blank.
pub split-IsWord : (s : Text) → All IsWord (split s)
split-IsWord s = split_from-IsWord [] s tt

split_from-letters :
    (word w rest : Text) → NoSpace w → split_from word (w ++ rest) ≡ split_from (word ++ w) rest
unfolding split_from
split_from-letters word [] rest h = ap (λ x. split_from x rest) (sym (append-nil word))
split_from-letters word (c ∷ w) rest h = rw (h.0) (
    split_from-letters (word ++ c ∷ []) w rest h.1
    ∙ ap (λ x. split_from x rest) (append_assoc word (c ∷ []) w))

add_word-word : (w : Text) (words : List Text) → w ≢ [] → add_word w words ≡ w ∷ words
add_word-word [] words h = absurd (h refl)
add_word-word (c ∷ w) words h = refl

split_from-blank : (w rest : Text) → w ≢ [] → split_from w (32 ∷ rest) ≡ w ∷ split rest
unfolding split_from
split_from-blank w rest h = add_word-word w (split_from [] rest) h

split_from-end : (w : Text) → w ≢ [] → split_from w [] ≡ w ∷ []
unfolding split_from
split_from-end w h = add_word-word w [] h

split-nil : split [] ≡ []
unfolding split_from
split-nil = refl

-- Splitting what was joined gives the words back.
pub split-join : (words : List Text) → All IsWord words → split (join words) ≡ words
unfolding join
split-join [] h = split-nil
split-join (w ∷ []) h =
    ap split (sym (append-nil w)) ∙ split_from-letters [] w [] h.0.1 ∙ split_from-end w h.0.0
split-join (w ∷ v ∷ words) h =
    split_from-letters [] w (32 ∷ join (v ∷ words)) h.0.1
    ∙ split_from-blank w (join (v ∷ words)) h.0.0
    ∙ ap (λ x. w ∷ x) (split-join (v ∷ words) h.1)
