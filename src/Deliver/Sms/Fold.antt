-- ===== src/Deliver/Sms/Fold.antt =====
-- `gsmFold` makes a text one line of the alphabet, and never nothing out of something.
use calendar_digest.Prelude.{
  true, false, List, [], ◌∷◌, keep_if, All, ◌≡◌, refl, sym, ap, ◌∙◌, ◌⊎◌, inl, inr, Bool-cases,
}
use calendar_digest.Prelude.Chars.{Text}
use calendar_digest.Prelude.Words.{is_empty, fields, join}
use calendar_digest.Prelude.Fields.{
  one_space, All-fields, All-join, fields-IsWord, fields-join, join-is_empty,
}
use calendar_digest.Deliver.Sms.{is_gsm, is_basic, gsm_part, gsm_fold}

-- The text is its words with one space between them.
abbrev pub IsLine : Text → Type 0
IsLine s = join one_space (fields s) ≡ s

abbrev pub IsGsm : Text → Type 0
IsGsm = All (λ r. is_gsm r ≡ true)

IsLine-join : (s : Text) → IsLine (join one_space (fields s))
IsLine-join s = ap (join one_space) (fields-join (fields s) (fields-IsWord s))

keep_if-IsGsm : (s : Text) → IsGsm (keep_if is_gsm s)
keep_if-IsGsm [] = tt
keep_if-IsGsm (r ∷ s) = elim (Bool-cases (is_gsm r)) [
  | inl e ↦ rw e (e, keep_if-IsGsm s)
  | inr e ↦ rw e (keep_if-IsGsm s)
]

gsm_part-IsGsm : (s : Text) → IsGsm (gsm_part s)
unfolding gsm_part
gsm_part-IsGsm s = keep_if-IsGsm _

space_is_gsm : is_gsm b' ' ≡ true
unfolding is_basic
space_is_gsm = refl

empty_words : (ws : List Text) → is_empty ws ≡ true → ws ≡ []
empty_words [] h = refl
empty_words (w ∷ ws) h = cc

empty_part :
    (s : Text) → is_empty (join one_space (fields (gsm_part s))) ≡ true → fields (gsm_part s) ≡ []
empty_part s h =
    empty_words (fields (gsm_part s))
      (sym (join-is_empty (fields (gsm_part s)) (fields-IsWord (gsm_part s))) ∙ h)

-- What `gsmFold` returns is one line; it is in the alphabet, unless no word of the text has a
-- character there; and it is empty only for a text without words.
pub gsm_fold_lem :
    (s : Text)
    → IsLine (gsm_fold s)
      × (IsGsm (gsm_fold s) ⊎ (fields (gsm_part s) ≡ []))
      × ((is_empty (gsm_fold s) ≡ false) ⊎ (fields s ≡ []))
unfolding gsm_fold
gsm_fold_lem s = elim (Bool-cases (is_empty (join one_space (fields (gsm_part s))))) [
  | inr e ↦ rw e (
    IsLine-join (gsm_part s),
    inl (
        All-join (λ r. is_gsm r ≡ true) (fields (gsm_part s)) space_is_gsm
          (All-fields (λ r. is_gsm r ≡ true) (gsm_part s) (gsm_part-IsGsm s))),
    inl e,
  )
  | inl e ↦ rw e (
    IsLine-join s,
    inr (empty_part s e),
    elim (Bool-cases (is_empty (fields s))) [
      | inl none ↦ inr (empty_words (fields s) none)
      | inr some ↦ inl (join-is_empty (fields s) (fields-IsWord s) ∙ some)
    ],
  )
]
