-- ===== src/Boot/Health.antt =====
-- internal/cmd/healthcheck_cmd.go: the probe of the container. `fetch` is the status that a GET of a
-- URL is answered with in time, if it is.
use calendar_digest.Prelude.{
  ℕ, suc, ◌<◌, ◌^◌, ◌==◌, if◌then◌else◌, ◌++◌, ◌∷◌, [], Option, none, some, ◌≡◌, refl, ◌⊎◌, inl,
  inr, arith, subst, ap, ◌∙◌, Option-cases, ◌↔◌, true, false, Bool-cases,
}
use calendar_digest.Prelude.Chars.{Text, codes, decimal}
use calendar_digest.Prelude.Words.{is_empty}
use calendar_digest.Prelude.Ints.{ℤ, pos, negsuc, parse_int, parse_int-decimal}

pub data HealthError : Type 0 where
  invalid_port no_answer bad_status : HealthError

-- An integer as `%d` prints it.
unfoldable pub format_int : ℤ → Text
format_int (pos n) = decimal n
format_int (negsuc n) = b'-' ∷ decimal (suc n)

-- The port of the environment, or the default one.
unfoldable pub probe_port : Text → Option ℤ
probe_port value = if is_empty value then some (pos 9898) else parse_int value

unfoldable pub probe_url : ℤ → Text
probe_url port = codes "http://127.0.0.1:" ++ (format_int port ++ codes "/healthz")

unfoldable pub probe : (Text → Option ℕ) → ℤ → HealthError ⊎ Unit {0}
probe fetch port = elim (fetch (probe_url port)) [
  | none ↦ inl no_answer
  | some status ↦ if status == 200 then inr tt else inl bad_status
]

-- `HealthcheckCmd.Run`, with the value of `SERVER_PORT`.
unfoldable pub health_run : (Text → Option ℕ) → Text → HealthError ⊎ Unit {0}
health_run fetch value = elim (probe_port value) [
  | none ↦ inl invalid_port
  | some port ↦ probe fetch port
]

decimal-not_empty : (n : ℕ) → n < 2 ^ 63 → is_empty (decimal n) ≡ false
unfolding parse_int
decimal-not_empty n small = elim (Bool-cases (is_empty (decimal n))) [
  | inr e ↦ e
  | inl e ↦
      let bad : decimal n ≡ [] = nothing (decimal n) e in
      let read : parse_int [] ≡ some (pos n) =
        subst (λ s. parse_int s ≡ some (pos n)) bad (parse_int-decimal n small) in
      cc
]
  where
    nothing : (s : Text) → is_empty s ≡ true → s ≡ []
    nothing [] h = refl
    nothing (x ∷ s) h = cc

probe_port-decimal : (n : ℕ) → n < 2 ^ 63 → probe_port (decimal n) ≡ some (pos n)
unfolding probe_port
probe_port-decimal n small = rw (decimal-not_empty n small) (parse_int-decimal n small)

probe_iff :
    (fetch : Text → Option ℕ) (port : ℤ)
    → (probe fetch port ≡ inr tt) ↔ (fetch (probe_url port) ≡ some 200)
unfolding probe
probe_iff fetch port = elim (Option-cases (fetch (probe_url port))) [
  | inl e ↦ ((λ h. let bad : inl no_answer ≡ inr tt = rw (e, probe) at h in cc), (λ q. cc))
  | inr (status, e) ↦ (
    (λ h.
        let same : (if status == 200 then inr tt else inl bad_status) ≡ inr tt =
          rw (e, probe) at h in
        let is : status ≡ 200 = ground arith in e ∙ ap some is),
    (λ q. rw (q, probe) refl),
  )
]

-- With a port that fits a signed 64-bit integer, as text, in the environment: the probe succeeds
-- exactly if the health page at that port answers 200.
pub health_run_iff :
    (fetch : Text → Option ℕ) (n : ℕ)
    → n < 2 ^ 63
    → (health_run fetch (decimal n) ≡ inr tt)
      ↔ (fetch (codes "http://127.0.0.1:" ++ (decimal n ++ codes "/healthz")) ≡ some 200)
unfolding health_run probe_url format_int
health_run_iff fetch n small = rw (health_run, probe_port-decimal n small) (probe_iff fetch (pos n))
