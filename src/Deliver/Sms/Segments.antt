-- ===== src/Deliver/Sms/Segments.antt =====
-- `SMSSegments` counts as few segments as hold the text.
use calendar_digest.Prelude.{
  ℕ, ◌+◌, ◌*◌, ◌≤◌, ◌<◌, ◌==◌, ltb, Bool, true, false, ◌&&◌, if◌then◌else◌, [], ◌∷◌, ◌≡◌, sym,
  subst, ◌⊎◌, inl, inr, arith, Bool-cases,
}
use calendar_digest.Prelude.Chars.{Text}
use calendar_digest.Deliver.Sms.{
  is_basic, is_extended, is_gsm, count_septets, count_units, segments_for, sms_segments,
}

abbrev pub all_gsm : Text → Bool
all_gsm [] = true
all_gsm (r ∷ s) = is_gsm r && all_gsm s

-- The septets of the characters in the alphabet: one, or two behind an escape.
abbrev pub septets : Text → ℕ
septets [] = 0
septets (r ∷ s) = (if is_basic r then 1 else if is_extended r then 2 else 0) + septets s

-- The UTF-16 code units: two for a character above U+FFFF.
abbrev pub units : Text → ℕ
units [] = 0
units (r ∷ s) = (if ltb 0xffff r then 2 else 1) + units s

-- How long a text is in the encoding that it is sent in.
abbrev pub encoded : Text → ℕ
encoded s = if all_gsm s then septets s else units s

-- What a number of segments holds: GSM-7 or UCS-2, a single segment or several.
abbrev pub capacity : Bool → ℕ → ℕ
capacity gsm n =
    if n == 0
    then 0
    else if n == 1
    then (if gsm then 160 else 70)
    else (if gsm then 153 * n else 67 * n)

count_septets-eq :
    (s : Text) (n : ℕ) (g : Bool) → count_septets s n g ≡ (n + septets s, g && all_gsm s)
unfolding count_septets
count_septets-eq [] n g = ground arith
count_septets-eq (r ∷ s) n g = elim (Bool-cases (is_basic r)) [
  | inl b ↦ rw b (ground (arith, count_septets-eq s (n + 1) g))
  | inr b ↦ elim (Bool-cases (is_extended r)) [
    | inl e ↦ rw (b, e) (ground (arith, count_septets-eq s (n + 2) g))
    | inr e ↦ rw (b, e) (ground (arith, count_septets-eq s n false))
  ]
]

count_units-eq : (s : Text) (n : ℕ) → count_units s n ≡ n + units s
unfolding count_units
count_units-eq [] n = omega arith
count_units-eq (r ∷ s) n = ground (arith, count_units-eq s (n + 1), count_units-eq s (n + 1 + 1))

encoded_pos : (r : ℕ) (s : Text) → 0 < encoded (r ∷ s)
encoded_pos r s = ground arith

sms_segments-cons :
    (r : ℕ) (s : Text)
    → sms_segments (r ∷ s) ≡ (
        if all_gsm (r ∷ s)
        then segments_for (septets (r ∷ s)) 160 153
        else segments_for (units (r ∷ s)) 70 67)
unfolding sms_segments
sms_segments-cons r s =
    rw (count_septets-eq (r ∷ s) 0 true, count_units-eq (r ∷ s) 0) (ground arith)

gsm_fits : (n : ℕ) → 0 < n → n ≤ capacity true (segments_for n 160 153)
unfolding segments_for
gsm_fits n h = ground arith

gsm_fewer : (n : ℕ) → 0 < n → (m : ℕ) → (segments_for n 160 153 ≤ m) ⊎ (capacity true m < n)
unfolding segments_for
gsm_fewer n h m = ground arith

ucs_fits : (n : ℕ) → 0 < n → n ≤ capacity false (segments_for n 70 67)
unfolding segments_for
ucs_fits n h = ground arith

ucs_fewer : (n : ℕ) → 0 < n → (m : ℕ) → (segments_for n 70 67 ≤ m) ⊎ (capacity false m < n)
unfolding segments_for
ucs_fewer n h m = ground arith

empty_fits : encoded [] ≤ capacity (all_gsm []) (sms_segments [])
unfolding sms_segments
empty_fits = omega arith

empty_none : (m : ℕ) → sms_segments [] ≤ m
unfolding sms_segments
empty_none m = omega arith

-- `n` segments hold `size`, and no fewer do.
abbrev pub IsLeast : Bool → ℕ → ℕ → Type 0
IsLeast gsm size n = (size ≤ capacity gsm n) × ((m : ℕ) → (n ≤ m) ⊎ (capacity gsm m < size))

IsLeast-cases :
    (g : Bool) (p u : ℕ)
    → 0 < (if g then p else u)
    → IsLeast g (if g then p else u) (if g then segments_for p 160 153 else segments_for u 70 67)
IsLeast-cases true p u h = (gsm_fits p h, gsm_fewer p h)
IsLeast-cases false p u h = (ucs_fits u h, ucs_fewer u h)

-- `SMSSegments` counts the segments that hold a text in its encoding, and no fewer hold it.
pub sms_segments-IsLeast : (s : Text) → IsLeast (all_gsm s) (encoded s) (sms_segments s)
sms_segments-IsLeast [] = (empty_fits, λ m. inl (empty_none m))
sms_segments-IsLeast (r ∷ s) =
    subst (IsLeast (all_gsm (r ∷ s)) (encoded (r ∷ s))) (sym (sms_segments-cons r s))
      (IsLeast-cases (all_gsm (r ∷ s)) (septets (r ∷ s)) (units (r ∷ s)) (encoded_pos r s))
