-- ===== src/Ui/Creates.antt =====
-- What the forms store: a new recipient, and a target that its notifier can address.
use calendar_digest.Prelude.{
  ℕ, ◌<◌, ◌^◌, ◌==◌, Bool, true, false, ◌⊎◌, Option-cases, List, ◌++◌, keep_if, Option, none, some,
  ◌≡◌, refl, ap, ◌∙◌, inl, inr, arith, Bool-cases,
}
use calendar_digest.Prelude.Chars.{Text, codes, text_eq, text_eq_sound, decimal}
use calendar_digest.Prelude.Words.{is_empty}
use calendar_digest.Prelude.Ints.{parse_int-decimal}
use calendar_digest.Prelude.Sorting.{sort_by}
use calendar_digest.Store.Models.{Recipients, NotificationTargets}
use calendar_digest.Store.Tables.{next_id, scan_one}
use calendar_digest.Store.Tables.Rows.{first_row-append, next_id-fresh}
use calendar_digest.Store.Tx.{ok}
use calendar_digest.Store.Snapshots.Consistent.{has_recipient}
use calendar_digest.Store.Recipients.{
  RecipientFields, with_fields, is_recipient, is_target, is_kind, get_recipient, get_target,
  create_recipient, create_target, list_targets, by_kind, telegram, email, sms,
}
use calendar_digest.Jobs.Deps.{Digest}
use calendar_digest.Deliver.Email.{Email, render_email, send_email}
use calendar_digest.Deliver.Telegram.{render_telegram, send_telegram}
use calendar_digest.Deliver.Message.{decode_target}
use calendar_digest.Ui.Views.{redirect, form_page}
use calendar_digest.Ui.Forms.{address_key}
use calendar_digest.Ui.Accepts.{IsAccepted, problems-IsAccepted}
use calendar_digest.Ui.Pages.{Pages, Site, recipient_from_path}
use calendar_digest.Ui.Recipients.{edit_view, recipient_create, recipient_edit}
use calendar_digest.Ui.Targets.{TargetFields, create_loaded, show_targets}

-- The id that the next recipient gets.
abbrev pub new_id : Site → ℕ
new_id s = next_id (λ (r : Recipients). r.id) s.world.tables.recipients

module _ (p : Pages) (f : RecipientFields) (s : Site) (accepted : IsAccepted p.load_location f)
    (small : new_id s < 2 ^ 63) where
  created : recipient_create p (some f) s ≡ (
    redirect (codes "/app/recipients/" ++ decimal (new_id s)),
    record {
      world = record s.world { tables = (create_recipient f s.world.tables).1 };
      flash = codes "Recipient added. It has no channels yet, so it will receive nothing.";
    },
  )
  unfolding recipient_create create_recipient
  created = rw ((problems-IsAccepted p.load_location f).1 accepted) refl

  -- An accepted new recipient is stored with what was typed, and the visitor is sent to a path at
  -- which the form shows that recipient, while ids fit in 64 bits.
  pub recipient_create-opens :
      (targets : List NotificationTargets) × ((recipient_create p (some f) s).0
        ≡ redirect (codes "/app/recipients/" ++ decimal (new_id s)))
      × ((recipient_edit p (decimal (new_id s)) (recipient_create p (some f) s).1).0
          ≡ form_page (edit_view p (with_fields (new_id s) f) targets))
  unfolding recipient_edit recipient_from_path get_recipient list_targets create_recipient
  recipient_create-opens =
      let row = with_fields (new_id s) f in
      let found =
        first_row-append (is_recipient (new_id s)) s.world.tables.recipients row
          (next_id-fresh (λ (r : Recipients). r.id) s.world.tables.recipients) (ground arith) in
      (
        sort_by by_kind (
            keep_if (λ (g : NotificationTargets). g.recipient_id == new_id s)
              s.world.tables.targets),
        ap (λ x. x.0) created,
        ap (λ x. (recipient_edit p (decimal (new_id s)) x.1).0) created
            ∙ rw (parse_int-decimal (new_id s) small, recipient_from_path) (rw found refl),
      )

decoded :
    (unmarshal : Text → Text → Option Text) (config key address : Text)
    → unmarshal key config ≡ some address
    → is_empty address ≡ false
    → decode_target unmarshal config key ≡ some address
unfolding decode_target
decoded unmarshal config key address e given = rw (e, decode_target) (rw given refl)

-- What `EmailNotifier.Send` hands to its sender.
abbrev pub mailed : (Text → Email → Bool) → Text → Option Email → Bool
mailed sender address none = false
mailed sender address (some mail) = sender address mail

-- The notifier of the kind reads the address from the config: Telegram and email hand the message to
-- their transport for it, and SMS, which has no transport, finds it.
abbrev pub IsAddressed : (Text → Text → Option Text) → Text → Text → Text → Type 0
IsAddressed unmarshal kind config address =
    ((kind ≡ telegram)
      × ((bot : Text → Text → Bool) (base_url : Text) (d : Digest)
          → send_telegram unmarshal bot base_url config d
            ≡ bot address (render_telegram base_url d)))
    ⊎ (((kind ≡ email)
          × ((sender : Text → Email → Bool) (base_url : Text) (d : Digest)
              → send_email unmarshal sender base_url config d
                ≡ mailed sender address (render_email base_url d)))
        ⊎ ((kind ≡ sms) × (decode_target unmarshal config (codes "phone") ≡ some address)))

email_addressed :
    (unmarshal : Text → Text → Option Text) (config address base_url : Text)
    (sender : Text → Email → Bool) (d : Digest)
    → decode_target unmarshal config (codes "address") ≡ some address
    → send_email unmarshal sender base_url config d
      ≡ mailed sender address (render_email base_url d)
unfolding send_email
email_addressed unmarshal config address base_url sender d found =
    rw (found, send_email)
      (elim (Option-cases (render_email base_url d)) [
        | inl e ↦ rw e refl
        | inr (mail, e) ↦ rw e refl
      ])

-- The key of the form is that of the notifier.
key-IsAddressed :
    (unmarshal : Text → Text → Option Text) (kind : Text)
    → is_kind kind ≡ true
    → (key : Text) × (address_key kind ≡ some key)
      × ((config address : Text)
          → decode_target unmarshal config key ≡ some address
          → IsAddressed unmarshal kind config address)
unfolding address_key send_telegram
key-IsAddressed unmarshal kind h = elim (Bool-cases (text_eq kind telegram)) [
  | inl e ↦ (
    codes "chat_id",
    rw e refl,
    λ config address found.
        inl (text_eq_sound kind telegram e, λ bot base_url d. rw (found, send_telegram) refl),
  )
  | inr n ↦ elim (Bool-cases (text_eq kind email)) [
    | inl e ↦ (
      codes "address",
      rw (n, e) refl,
      λ config address found. inr (
          inl (
            text_eq_sound kind email e,
            λ sender base_url d. email_addressed unmarshal config address base_url sender d found,
          )),
    )
    | inr m ↦
        let e : text_eq kind sms ≡ true = ground (arith, n, m, h) in
        (
          codes "phone",
          rw (n, m, e) refl,
          λ config address found. inr (inr (text_eq_sound kind sms e, found)),
        )
  ]
]

-- A new target of a kind that there is, with an address, for a recipient that there is, if a config
-- can be written and is read back as it was written: the target is stored, switched on, and the
-- notifier of its kind finds in its config the address that was typed.
pub create_target-IsAddressed :
    (p : Pages) (unmarshal : Text → Text → Option Text) (f : TargetFields) (r : Recipients)
    (s : Site)
    → ((field value : Text)
        → (written : Text) × (p.marshal field value ≡ some written)
          × (unmarshal field written ≡ some value))
    → has_recipient s.world.tables r.id ≡ true
    → is_kind f.kind ≡ true
    → is_empty f.address ≡ false
    → (g : NotificationTargets) × ((get_target g.id (create_loaded p (some f) r s).1.world.tables).0
        ≡ ok g)
      × (g.recipient_id ≡ r.id)
      × (g.kind ≡ f.kind)
      × (g.enabled ≡ true)
      × IsAddressed unmarshal f.kind g.config f.address
unfolding create_loaded show_targets create_target get_target list_targets
create_target-IsAddressed p unmarshal f r s reads owner kind given =
    let (key, known, addressed) = key-IsAddressed unmarshal f.kind kind in
    let (config, written, read) = reads key f.address in
    let g : NotificationTargets = record {
      id = next_id (λ (x : NotificationTargets). x.id) s.world.tables.targets;
      recipient_id = r.id;
      kind = f.kind;
      config = config;
      enabled = true;
    } in
    let found =
      first_row-append (is_target g.id) s.world.tables.targets g
        (next_id-fresh (λ (x : NotificationTargets). x.id) s.world.tables.targets) (ground arith) in
    (
      g,
      rw (known, create_loaded)
          (rw given (rw (written, create_loaded) (rw (kind, owner) (ap scan_one found)))),
      refl,
      refl,
      refl,
      addressed config f.address (decoded unmarshal config key f.address read given),
    )
