-- ===== src/Deliver/Sms/Render.antt =====
-- `SMSRenderer.Render` names as many events as one segment allows.
use calendar_digest.Prelude.{
  ℕ, zero, suc, ◌≤◌, ◌<◌, ◌==◌, leb, false, List, [], ◌∷◌, ◌++◌, map, length, ◌≡◌, refl, subst, ap,
  ◌⊎◌, inl, inr, arith, Bool-cases,
}
use calendar_digest.Prelude.Chars.{Text}
use calendar_digest.Jobs.Deps.{Digest}
use calendar_digest.Deliver.Message.{detail_url, event_count}
use calendar_digest.Deliver.Sms.{
  sms_segments, candidate, fit, with_link, prefix_of, entries_of, render_sms,
}

-- The message `out` is that with the first `n` of `k` entries, the most that fit in one segment, or,
-- where not even one fits, it is `last`.
abbrev pub IsFitted : (ℕ → Text) → Text → ℕ → Text → Type 0
IsFitted message last k out =
    ((n : ℕ) × (1 ≤ n)
      × (n ≤ k)
      × (out ≡ message n)
      × (sms_segments (message n) ≤ 1)
      × ((m : ℕ) → (m ≤ n) ⊎ ((k < m) ⊎ (1 < sms_segments (message m)))))
    ⊎ ((out ≡ last) × ((m : ℕ) → (m < 1) ⊎ ((k < m) ⊎ (1 < sms_segments (message m)))))

-- No message that names more of the first `k` entries fits.
abbrev Beyond : (ℕ → Text) → ℕ → ℕ → Type 0
Beyond message k m = (k < m) ⊎ (1 < sms_segments (message m))

module _ (message : ℕ → Text) (k : ℕ) (long : leb (sms_segments (message (suc k))) 1 ≡ false) where
  Beyond-suc : (m : ℕ) → Beyond message k m → Beyond message (suc k) m
  Beyond-suc m (inr h) = inr h
  Beyond-suc m (inl h) = elim (Bool-cases (m == suc k)) [
    | inl same ↦
        let p : suc k ≡ m = ground arith in
        inr (subst (λ x. 1 < sms_segments (message x)) p (ground arith))
    | inr other ↦ inl (ground arith)
  ]

  IsFitted-suc : (last out : Text) → IsFitted message last k out → IsFitted message last (suc k) out
  IsFitted-suc last out (inl (n, lo, hi, same, fits, most)) = inl (
    n,
    lo,
    omega arith,
    same,
    fits,
    λ m. elim (most m) [ inl le ↦ inl le | inr h ↦ inr (Beyond-suc m h) ],
  )
  IsFitted-suc last out (inr (same, most)) =
      inr (same, λ m. elim (most m) [ inl lt ↦ inl lt | inr h ↦ inr (Beyond-suc m h) ])

module _ (prefix url : Text) (entries : List Text) (last : Text) where
  fit-IsFitted :
      (k : ℕ) → IsFitted (candidate prefix url entries) last k (fit prefix url entries last k)
  unfolding fit
  fit-IsFitted zero = inr (refl, λ m. ground arith)
  fit-IsFitted (suc k) =
      let ih = fit-IsFitted k in
      elim (Bool-cases (leb (sms_segments (candidate prefix url entries (suc k))) 1)) [
        | inl e ↦
            rw e (inl (suc k, omega arith, omega arith, refl, ground arith, λ m. ground arith))
        | inr e ↦ rw e (
            IsFitted-suc (candidate prefix url entries) k e last (fit prefix url entries last k) ih)
      ]

length-map : {A B : Type 0} (f : A → B) (xs : List A) → length (map f xs) ≡ length xs
length-map f [] = refl
length-map f (x ∷ xs) = ap suc (length-map f xs)

-- For a day with events, the SMS is the message that names the most events, from the first on, that
-- fit in one segment with the link; where not even one event fits, it is their number.
pub render_sms-IsFitted :
    (base_url : Text) (d : Digest)
    → 1 ≤ length d.events
    → IsFitted
        (candidate (prefix_of d) (detail_url base_url d.token) (entries_of d))
        (with_link (prefix_of d ++ event_count d) (detail_url base_url d.token))
        (length d.events)
        (render_sms base_url d)
unfolding render_sms
render_sms-IsFitted base_url d h =
    let some_events : (length d.events == 0) ≡ false = ground arith in
    let url = detail_url base_url d.token in
    let last = with_link (prefix_of d ++ event_count d) url in
    rw some_events (
      subst
        (λ k.
          IsFitted (candidate (prefix_of d) url (entries_of d)) last k
            (fit (prefix_of d) url (entries_of d) last (length (entries_of d))))
        (length-map _ d.events)
        (fit-IsFitted (prefix_of d) url (entries_of d) last (length (entries_of d))))
