-- ===== src/Deliver/Redact.antt =====
-- internal/notify/telegram.go: `redactToken`, which takes the bot token out of the text of a
-- transport error.
use calendar_digest.Prelude.{
  ℕ, zero, suc, ◌-◌, Bool, true, false, ◌||◌, if◌then◌else◌, length, [], ◌∷◌, ◌++◌, ◌≡◌, ◌↔◌, refl,
  ap, subst, ◌∙◌, inl, inr, arith, Bool-cases,
}
use calendar_digest.Prelude.Chars.{Text, codes, text_eq, text_eq_refl, text_eq_sound}
use calendar_digest.Prelude.Words.{is_empty, Lacks}
use calendar_digest.Prelude.Affixes.{has_prefix}

-- Go's `strings.Contains` and, for a text that is not empty, `strings.ReplaceAll`: `behind` is what
-- is left of an occurrence that has been replaced.
unfoldable pub contains : Text → Text → Bool
contains [] t = is_empty t
contains (a ∷ s) t = has_prefix (a ∷ s) t || contains s t

unfoldable pub replace_from : ℕ → Text → Text → Text → Text
replace_from behind [] old new = []
replace_from (suc behind) (a ∷ s) old new = replace_from behind s old new
replace_from zero (a ∷ s) old new =
    let replaced = replace_from (length old - 1) s old new in
    let kept = replace_from zero s old new in
    if has_prefix (a ∷ s) old then new ++ replaced else a ∷ kept

abbrev pub replace_all : Text → Text → Text → Text
replace_all s old new = replace_from zero s old new

-- The error as it came, or `errors.New` of a text.
pub data Redacted (E : Type 0) : Type 0 where
  unchanged : E → Redacted E
  renewed : Text → Redacted E

abbrev pub redacted_text : {E : Type 0} → (E → Text) → Redacted E → Text
redacted_text error (unchanged err) = error err
redacted_text error (renewed msg) = msg

unfoldable pub redact_token : {E : Type 0} → (E → Text) → E → Text → Redacted E
redact_token error err token =
    if is_empty token
    then unchanged err
    else let msg = error err in
      let redacted = replace_all msg token (codes "REDACTED") in
      if text_eq redacted msg then unchanged err else renewed redacted

replace_miss :
    (a : ℕ) (s old new : Text)
    → has_prefix (a ∷ s) old ≡ false
    → replace_from zero (a ∷ s) old new ≡ a ∷ replace_from zero s old new
unfolding replace_from
replace_miss a s old new e = rw e refl

-- What replacing makes the start of a text without `r` was the start of it.
prefix-replace :
    (old new : Text) (r : ℕ) (s t : Text)
    → Lacks r t
    → has_prefix (replace_from zero s old (r ∷ new)) t ≡ true
    → has_prefix s t ≡ true
unfolding has_prefix replace_from
prefix-replace old new r s [] h p = refl
prefix-replace old new r [] (b ∷ t) h p = p
prefix-replace old new r (a ∷ s) (b ∷ t) h p = elim (Bool-cases (has_prefix (a ∷ s) old)) [
  | inl e ↦ ground (arith, e)
  | inr e ↦ ground (arith, e, prefix-replace old new r s t)
]

contains-append :
    (new s : Text) (c : ℕ) (t : Text)
    → Lacks c new
    → contains s (c ∷ t) ≡ false
    → contains (new ++ s) (c ∷ t) ≡ false
unfolding contains has_prefix
contains-append [] s c t h k = k
contains-append (a ∷ new) s c t h k = ground (arith, contains-append new s c t)

replace-gone :
    (behind : ℕ) (s : Text) (c : ℕ) (t : Text) (r : ℕ) (new : Text)
    → Lacks c (r ∷ new)
    → Lacks r (c ∷ t)
    → contains (replace_from behind s (c ∷ t) (r ∷ new)) (c ∷ t) ≡ false
unfolding contains replace_from has_prefix
replace-gone behind [] c t r new h k = refl
replace-gone (suc behind) (a ∷ s) c t r new h k = replace-gone behind s c t r new h k
replace-gone zero (a ∷ s) c t r new h k = elim (Bool-cases (has_prefix (a ∷ s) (c ∷ t))) [
  | inl e ↦ rw e (
      contains-append (r ∷ new) (replace_from (length (c ∷ t) - 1) s (c ∷ t) (r ∷ new)) c t h
        (replace-gone (length (c ∷ t) - 1) s c t r new h k))
  | inr e ↦
      rw (replace_miss a s (c ∷ t) (r ∷ new) e)
        (ground (arith, e, prefix-replace (c ∷ t) new r s t, replace-gone zero s c t r new h k))
]

replace-none : (s old new : Text) → contains s old ≡ false → replace_from zero s old new ≡ s
unfolding contains replace_from
replace-none [] old new h = refl
replace-none (a ∷ s) old new h = elim (Bool-cases (has_prefix (a ∷ s) old)) [
  | inl e ↦ ground (arith, e)
  | inr e ↦
      replace_miss a s old new e ∙ ap (λ x. a ∷ x) (replace-none s old new (ground (arith, e)))
]

redact-gone :
    {E : Type 0} (error : E → Text) (err : E) (c : ℕ) (t : Text)
    → Lacks c (codes "REDACTED")
    → Lacks b'R' (c ∷ t)
    → contains (redacted_text error (redact_token error err (c ∷ t))) (c ∷ t) ≡ false
unfolding redact_token
redact-gone error err c t h k =
    let gone = replace-gone zero (error err) c t b'R' (codes "EDACTED") h k in
    elim (Bool-cases (text_eq (replace_all (error err) (c ∷ t) (codes "REDACTED")) (error err))) [
      | inl e ↦ rw e (
          subst (λ s. contains s (c ∷ t) ≡ false)
            (text_eq_sound (replace_all (error err) (c ∷ t) (codes "REDACTED")) (error err) e) gone)
      | inr e ↦ rw e gone
    ]

-- With a token whose first character is not one of `REDACTED`, and that has no `R`: the text of the
-- error that `redactToken` returns does not contain the token, and the error is returned as it came
-- exactly if its text does not contain it.
pub redact_token-Hides :
    {E : Type 0} (error : E → Text) (err : E) (c : ℕ) (t : Text)
    → Lacks c (codes "REDACTED")
    → Lacks b'R' (c ∷ t)
    → (contains (redacted_text error (redact_token error err (c ∷ t))) (c ∷ t) ≡ false)
      × ((redact_token error err (c ∷ t) ≡ unchanged err) ↔ (contains (error err) (c ∷ t) ≡ false))
unfolding redact_token
redact_token-Hides error err c t h k =
    let gone = redact-gone error err c t h k in
    (
      gone,
      (
        λ q. subst (λ x. contains (redacted_text error x) (c ∷ t) ≡ false) q gone,
        λ n.
            rw (replace-none (error err) (c ∷ t) (codes "REDACTED") n, text_eq_refl (error err))
              refl,
      ),
    )
