-- ===== src/Store/Recipients.antt =====
-- internal/store/recipients.sql.go and targets.sql.go: the queries on recipients and
-- notification_targets. Deleting a recipient cascades to its targets and snapshots.
use calendar_digest.Prelude.{
  ℕ, ◌==◌, ltb, Bool, not, ◌&&◌, ◌||◌, if◌then◌else◌, List, [], ◌∷◌, ◌++◌, keep_if, any, ◌≡◌, ◌⊎◌,
  inl, inr, ap, arith, Option-cases,
}
use calendar_digest.Prelude.Chars.{Text, codes, text_eq, text_lt}
use calendar_digest.Prelude.Sorting.{sort_by}
use calendar_digest.Store.Models.{Recipients, NotificationTargets, DigestSnapshots}
use calendar_digest.Store.Tables.{Tables, next_id, first_row, update_rows, scan_one}
use calendar_digest.Store.Tables.Rows.{first_row-some}
use calendar_digest.Store.Tx.{Body, ok, err, constraint, no_rows}

abbrev pub is_recipient : ℕ → Recipients → Bool
is_recipient id r = r.id == id

pub record RecipientFields : Type 0 where
  pub name : Text
  pub calendar_id : Text
  pub notify_time : Text
  pub tz : Text
  pub enabled : Bool

abbrev pub with_fields : ℕ → RecipientFields → Recipients
with_fields id f = record {
  id = id;
  name = f.name;
  calendar_id = f.calendar_id;
  notify_time = f.notify_time;
  tz = f.tz;
  enabled = f.enabled;
}

unfoldable pub create_recipient : RecipientFields → Body Tables Recipients
create_recipient f t =
    let row = with_fields (next_id (λ (r : Recipients). r.id) t.recipients) f in
    (ok row, record t { recipients = t.recipients ++ row ∷ [] })

unfoldable pub delete_recipient : ℕ → Body Tables (Unit {0})
delete_recipient id t = (
  ok tt,
  record t {
    recipients = keep_if (λ (r : Recipients). not (r.id == id)) t.recipients;
    targets = keep_if (λ (g : NotificationTargets). not (g.recipient_id == id)) t.targets;
    snapshots = keep_if (λ (s : DigestSnapshots). not (s.recipient_id == id)) t.snapshots;
  },
)

unfoldable pub get_recipient : ℕ → Body Tables Recipients
get_recipient id t = (scan_one (first_row (is_recipient id) t.recipients), t)

abbrev pub by_name : Recipients → Recipients → Bool
by_name a b = text_lt a.name b.name

unfoldable pub list_enabled_recipients : Body Tables (List Recipients)
list_enabled_recipients t =
    (ok (sort_by by_name (keep_if (λ (r : Recipients). r.enabled) t.recipients)), t)

unfoldable pub list_recipients : Body Tables (List Recipients)
list_recipients t = (ok (sort_by by_name t.recipients), t)

unfoldable pub set_recipient_enabled : Bool → ℕ → Body Tables (Unit {0})
set_recipient_enabled enabled id t = (
  ok tt,
  record t {
    recipients = update_rows (is_recipient id) (λ r. record r { enabled = enabled }) t.recipients;
  },
)

-- UPDATE … RETURNING: the row as written, if there is one.
unfoldable pub update_recipient : ℕ → RecipientFields → Body Tables Recipients
update_recipient id f t =
    let rows = update_rows (is_recipient id) (λ _. with_fields id f) t.recipients in
    (scan_one (first_row (is_recipient id) rows), record t { recipients = rows })

abbrev pub is_target : ℕ → NotificationTargets → Bool
is_target id g = g.id == id

abbrev pub telegram : Text
telegram = codes "telegram"

abbrev pub email : Text
email = codes "email"

abbrev pub sms : Text
sms = codes "sms"

-- CHECK (kind IN ('telegram', 'email', 'sms')).
abbrev pub is_kind : Text → Bool
is_kind k = text_eq k telegram || text_eq k email || text_eq k sms

unfoldable pub create_target : ℕ → Text → Text → Bool → Body Tables NotificationTargets
create_target recipient_id kind config enabled t =
    let row : NotificationTargets = record {
      id = next_id (λ (g : NotificationTargets). g.id) t.targets;
      recipient_id = recipient_id;
      kind = kind;
      config = config;
      enabled = enabled;
    } in
    if is_kind kind && any (is_recipient recipient_id) t.recipients
    then (ok row, record t { targets = t.targets ++ row ∷ [] })
    else (err constraint, t)

unfoldable pub delete_target : ℕ → Body Tables (Unit {0})
delete_target id t = (ok tt, record t { targets = keep_if (λ g. not (is_target id g)) t.targets })

unfoldable pub get_target : ℕ → Body Tables NotificationTargets
get_target id t = (scan_one (first_row (is_target id) t.targets), t)

abbrev by_owner : NotificationTargets → NotificationTargets → Bool
by_owner a b =
    ltb a.recipient_id b.recipient_id || ((a.recipient_id == b.recipient_id) && ltb a.id b.id)

unfoldable pub list_all_targets : Body Tables (List NotificationTargets)
list_all_targets t = (ok (sort_by by_owner t.targets), t)

abbrev pub by_kind : NotificationTargets → NotificationTargets → Bool
by_kind a b = text_lt a.kind b.kind

abbrev pub is_enabled_for : ℕ → NotificationTargets → Bool
is_enabled_for recipient_id g = (g.recipient_id == recipient_id) && g.enabled

unfoldable pub list_enabled_targets : ℕ → Body Tables (List NotificationTargets)
list_enabled_targets recipient_id t =
    (ok (sort_by by_kind (keep_if (is_enabled_for recipient_id) t.targets)), t)

unfoldable pub list_targets : ℕ → Body Tables (List NotificationTargets)
list_targets recipient_id t = (
  ok (
      sort_by by_kind
        (keep_if (λ (g : NotificationTargets). g.recipient_id == recipient_id) t.targets)),
  t,
)

unfoldable pub set_target_enabled : Bool → ℕ → Body Tables (Unit {0})
set_target_enabled enabled id t = (
  ok tt,
  record t { targets = update_rows (is_target id) (λ g. record g { enabled = enabled }) t.targets },
)

unfoldable pub update_target_config : Text → ℕ → Body Tables NotificationTargets
update_target_config config id t =
    let rows =
      update_rows (is_target id) (λ (g : NotificationTargets). record g { config = config })
        t.targets in
    (scan_one (first_row (is_target id) rows), record t { targets = rows })

-- Reading a recipient finds its first row, or ends in `no_rows`.
pub get_recipient-cases :
    (id : ℕ) (t : Tables)
    → ((get_recipient id t).0 ≡ err no_rows)
      ⊎ ((r : Recipients) × ((get_recipient id t).0 ≡ ok r) × (r.id ≡ id))
unfolding get_recipient
get_recipient-cases id t = elim (Option-cases (first_row (is_recipient id) t.recipients)) [
  | inl n ↦ inl (ap scan_one n)
  | inr (r, e) ↦ inr (
    r,
    ap scan_one e,
    let (_, p) = first_row-some (is_recipient id) t.recipients r e in ground arith,
  )
]
