-- ===== src/Deliver/Notifiers/Channels.antt =====
-- Which channels a configuration registers, and what that means for a delivery.
use calendar_digest.Prelude.{
  Bool, true, false, not, ◌&&◌, ◌||◌, if◌then◌else◌, List, [], ◌∷◌, ◌++◌, In, In-append-split,
  In-append-left, In-append-right, none, some, ◌≡◌, ◌≢◌, refl, sym, ap, subst, ◌↔◌, ◌⊎◌, inl, inr,
  arith, Bool-cases, Option-cases,
}
use calendar_digest.Prelude.Chars.{Text, codes, text_eq, text_eq_sound, text_eq_complete}
use calendar_digest.Prelude.Words.{is_empty}
use calendar_digest.Store.Models.{NotificationTargets}
use calendar_digest.Store.Tx.{ok}
use calendar_digest.Store.Recipients.{get_target}
use calendar_digest.Jobs.Deps.{Deps, World, SendArgs, Digest, Notifier, done, notifier_for}
use calendar_digest.Jobs.Send.{send_work, send_work-Ends, digest_of}
use calendar_digest.Config.{EmailConf, Conf}
use calendar_digest.Deliver.Message.{decode_target}
use calendar_digest.Deliver.Sms.{send_sms}
use calendar_digest.Deliver.Senders.{Outside}
use calendar_digest.Deliver.Notifiers.{telegram_notifiers, email_notifiers, build_notifiers}

-- The configuration has what the email provider needs.
abbrev pub has_email : EmailConf → Bool
has_email e =
    not (is_empty e.from)
    && ((text_eq e.provider (codes "smtp") && not (is_empty e.host))
        || (text_eq e.provider (codes "cloudflare")
            && (not (is_empty e.account_id) && not (is_empty e.api_token))))

-- The configuration reaches the channel: the bot has a token, or email has what its provider needs.
abbrev pub Reaches : Conf → Text → Type 0
Reaches c kind =
    ((kind ≡ codes "telegram") × (is_empty c.app_conf.telegram_bot_token ≡ false))
    ⊎ ((kind ≡ codes "email") × (has_email c.email ≡ true))

abbrev kinds : List (Text × Notifier) → List Text
kinds [] = []
kinds ((k, n) ∷ ns) = k ∷ kinds ns

kinds-append : (ms ns : List (Text × Notifier)) → kinds (ms ++ ns) ≡ kinds ms ++ kinds ns
kinds-append [] ns = refl
kinds-append ((k, m) ∷ ms) ns = ap (λ r. k ∷ r) (kinds-append ms ns)

registered-In :
    (kind : Text) (ns : List (Text × Notifier)) → (notifier_for kind ns ≢ none) ↔ In kind (kinds ns)
unfolding notifier_for
registered-In kind [] = (λ h. h refl, λ m. absurd m)
registered-In kind ((k, n) ∷ ns) = elim (Bool-cases (text_eq k kind)) [
  | inl e ↦ rw e (λ h. inl (sym (text_eq_sound k kind e)), λ m. λ q. cc)
  | inr e ↦
      let rest = registered-In kind ns in
      rw e (
        λ h. inr (rest.0 h),
        λ m. elim m [
          | inl same ↦ let bad = text_eq_complete k kind (sym same) in cc
          | inr i ↦ rest.1 i
        ],
      )
]

exclusive :
    (provider : Text)
    → (text_eq provider (codes "smtp") && text_eq provider (codes "cloudflare")) ≡ false
unfolding text_eq
exclusive provider = elim (Bool-cases (text_eq provider (codes "smtp"))) [
  | inr e ↦ rw e refl
  | inl e ↦
      subst (λ p. (text_eq p (codes "smtp") && text_eq p (codes "cloudflare")) ≡ false)
        (sym (text_eq_sound provider (codes "smtp") e)) refl
]

email-kinds :
    (no_from no_host no_account no_token smtp cloudflare : Bool) (x y : Notifier)
    → (smtp && cloudflare) ≡ false
    → kinds (
        if no_from
        then []
        else if smtp && no_host
        then []
        else if cloudflare && (no_account || no_token)
        then []
        else if smtp
        then (codes "email", x) ∷ []
        else if cloudflare
        then (codes "email", y) ∷ []
        else [])
      ≡ (if not no_from
            && ((smtp && not no_host) || (cloudflare && (not no_account && not no_token)))
          then codes "email" ∷ []
          else [])
email-kinds no_from no_host no_account no_token smtp cloudflare x y h = ground arith

In-if : (b : Bool) (kind k : Text) → In kind (if b then k ∷ [] else []) ↔ ((kind ≡ k) × (b ≡ true))
In-if true kind k = (λ m. elim m [ inl e ↦ (e, refl) | inr n ↦ absurd n ], λ (e, h). inl e)
In-if false kind k = (λ m. absurd m, λ (e, h). cc)

In-append : (kind : Text) (xs ys : List Text) → In kind (xs ++ ys) ↔ (In kind xs ⊎ In kind ys)
In-append kind xs ys = (
  In-append-split kind xs ys,
  λ m. elim m [ inl l ↦ In-append-left kind xs ys l | inr r ↦ In-append-right kind xs ys r ],
)

module _ (o : Outside) (c : Conf) where
  telegram-kinds :
      kinds (telegram_notifiers o c)
      ≡ (if not (is_empty c.app_conf.telegram_bot_token) then codes "telegram" ∷ [] else [])
  unfolding telegram_notifiers
  telegram-kinds = elim (Bool-cases (is_empty c.app_conf.telegram_bot_token)) [
    | inl e ↦ rw e refl
    | inr e ↦ rw e refl
  ]

  email_notifiers-kinds :
      kinds (email_notifiers o c) ≡ (if has_email c.email then codes "email" ∷ [] else [])
  unfolding email_notifiers
  email_notifiers-kinds =
      email-kinds (is_empty c.email.from) (is_empty c.email.host) (is_empty c.email.account_id)
        (is_empty c.email.api_token) (text_eq c.email.provider (codes "smtp"))
        (text_eq c.email.provider (codes "cloudflare")) _ _ (exclusive c.email.provider)

  Reaches-In :
      (kind : Text)
      → In kind (kinds (telegram_notifiers o c ++ email_notifiers o c)) ↔ Reaches c kind
  Reaches-In kind =
      let both = In-append kind (kinds (telegram_notifiers o c)) (kinds (email_notifiers o c)) in
      let telegram = In-if (not (is_empty c.app_conf.telegram_bot_token)) kind (codes "telegram") in
      let email = In-if (has_email c.email) kind (codes "email") in
      let split = kinds-append (telegram_notifiers o c) (email_notifiers o c) in
      (
        λ m. elim (both.0 (subst (In kind) split m)) [
          | inl q ↦
              let (e, h) = telegram.0 (subst (In kind) telegram-kinds q) in
              inl (e, ground (arith, h))
          | inr q ↦ inr (email.0 (subst (In kind) email_notifiers-kinds q))
        ],
        λ r. subst (In kind) (sym split) (
            both.1 (elim r [
              | inl (e, h) ↦
                  inl (subst (In kind) (sym telegram-kinds) (telegram.1 (e, ground (arith, h))))
              | inr q ↦ inr (subst (In kind) (sym email_notifiers-kinds) (email.1 q))
            ])),
      )

  -- A channel is registered exactly if it is SMS or one that the configuration reaches: Telegram
  -- with a bot token; email with a sender and either the provider "smtp" with a host or the
  -- provider "cloudflare" with an account and a token.
  pub build_notifiers-Reaches :
      (kind : Text)
      → (notifier_for kind (build_notifiers o c) ≢ none) ↔ ((kind ≡ codes "sms") ⊎ Reaches c kind)
  unfolding build_notifiers
  build_notifiers-Reaches kind =
      let registered = registered-In kind (build_notifiers o c) in
      let reached = Reaches-In kind in
      (
        λ h. elim (registered.0 h) [ inl e ↦ inl e | inr m ↦ inr (reached.0 m) ],
        λ h. registered.1 (elim h [ inl e ↦ inl e | inr r ↦ inr (reached.1 r) ]),
      )

  sms_only :
      (notify : Notifier)
      → notifier_for (codes "sms") (build_notifiers o c) ≡ some notify
      → send_sms o.unmarshal ≡ notify
  unfolding build_notifiers notifier_for text_eq
  sms_only notify e = cc

  sms_refused : (config : Text) (d : Digest) → send_sms o.unmarshal config d ≡ false
  unfolding send_sms
  sms_refused config d = elim (Option-cases (decode_target o.unmarshal config (codes "phone"))) [
    | inl e ↦ rw (e, send_sms) refl
    | inr (phone, e) ↦ rw (e, send_sms) refl
  ]

  -- A delivery is done only to a target of a channel that the configuration reaches, which SMS never
  -- is; to any other target it fails, and changes nothing.
  pub send_work-Reaches :
      (d : Deps) (a : SendArgs) (w : World)
      → d.notifiers ≡ build_notifiers o c
      → ((target : NotificationTargets) × ((get_target a.target_id w.tables).0 ≡ ok target)
          × Reaches c target.kind)
        ⊎ (((send_work d a w).0 ≢ done) × ((send_work d a w).1 ≡ w))
  send_work-Reaches d a w e = elim (send_work-Ends d a w) [
    | inr (n, out, same) ↦ inr (n, same)
    | inl (finished, x) ↦
        let v = x.delivery in
        let found : notifier_for v.target.kind (build_notifiers o c) ≡ some v.notify =
          subst (λ ns. notifier_for v.target.kind ns ≡ some v.notify) e v.notifier_found in
        elim ((build_notifiers-Reaches v.target.kind).0 (λ q. cc)) [
          | inr r ↦ inl (v.target, v.target_found, r)
          | inl sms ↦
              let same =
                sms_only v.notify
                  (subst (λ k. notifier_for k (build_notifiers o c) ≡ some v.notify) sms found) in
              let refused =
                sms_refused v.target.config (digest_of v.recipient v.snapshot v.events) in
              let taken : send_sms o.unmarshal v.target.config
                    (digest_of v.recipient v.snapshot v.events)
                  ≡ true =
                subst (λ n. n v.target.config (digest_of v.recipient v.snapshot v.events) ≡ true)
                  (sym same) v.accepted in
              cc
        ]
  ]
