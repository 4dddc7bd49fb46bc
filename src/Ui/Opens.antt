-- ===== src/Ui/Opens.antt =====
-- What a link opens: the page of a captured day, and the form of a new recipient.
use calendar_digest.Prelude.{
  Bool, true, false, List, In, All-In, any, Option, none, some, ◌≡◌, refl, sym, ap, ◌∙◌, ◌⊎◌, inl,
  inr, arith, Bool-cases, Option-cases,
}
use calendar_digest.Prelude.Chars.{Text, text_eq_sound}
use calendar_digest.Clock.Civil.{Date}
use calendar_digest.Clock.Layout.{parse_date}
use calendar_digest.Calendar.Event.{Event}
use calendar_digest.Store.Models.{Recipients, DigestSnapshots}
use calendar_digest.Store.Tables.{first_row}
use calendar_digest.Store.Tables.Rows.{first_row-any, first_row-none, first_row-In}
use calendar_digest.Store.Recipients.{is_recipient, get_recipient}
use calendar_digest.Store.Snapshots.{has_token, find_snapshot_by_token}
use calendar_digest.Store.Snapshots.Consistent.{IsConsistent}
use calendar_digest.Ui.Views.{not_found, server_error, digest_page, DigestView}
use calendar_digest.Ui.Pages.{Pages, Site}
use calendar_digest.Ui.Detail.{digest_view, show_snapshot, digest_detail}

-- The page of a snapshot, if its events and its date can be read, and an error otherwise.
abbrev Shows : Pages → Site → Text → DigestSnapshots → Recipients → Type 0
Shows p s token x r =
    ((events : List Event) × (view : DigestView) × (p.decode x.events ≡ some events)
      × (digest_view p r x events ≡ some view)
      × (digest_detail p token s ≡ (digest_page view, s)))
    ⊎ (((p.decode x.events ≡ none) ⊎ (parse_date x.digest_date ≡ none))
        × (digest_detail p token s ≡ (server_error, s)))

-- The link of a snapshot: its token is the one of the link, and its recipient is the one shown.
pub record IsOpened (p : Pages) (s : Site) (token : Text) : Type 0 where
  pub snapshot : DigestSnapshots
  pub recipient : Recipients
  pub stored : In snapshot s.world.tables.snapshots
  pub same_token : snapshot.token ≡ token
  pub owner : recipient.id ≡ snapshot.recipient_id
  pub shown : Shows p s token snapshot recipient

abbrev is_there : {A : Type 0} → Option A → Bool
is_there none = false
is_there (some a) = true

digest_view-is_there :
    (p : Pages) (r : Recipients) (x : DigestSnapshots) (events : List Event) (d : Date)
    → parse_date x.digest_date ≡ some d
    → is_there (digest_view p r x events) ≡ true
unfolding digest_view
digest_view-is_there p r x events d e = rw (e, digest_view) refl

digest_view-none :
    (p : Pages) (r : Recipients) (x : DigestSnapshots) (events : List Event)
    → digest_view p r x events ≡ none
    → parse_date x.digest_date ≡ none
digest_view-none p r x events h = elim (Option-cases (parse_date x.digest_date)) [
  | inl e ↦ e
  | inr (d, e) ↦
      let bad : false ≡ true = sym (ap is_there h) ∙ digest_view-is_there p r x events d e in cc
]

module _ (p : Pages) (s : Site) (token : Text) (x : DigestSnapshots) (r : Recipients)
    (found : first_row (has_token token) s.world.tables.snapshots ≡ some x)
    (got : first_row (is_recipient x.recipient_id) s.world.tables.recipients ≡ some r) where
  digest_detail-Shows : Shows p s token x r
  unfolding digest_detail find_snapshot_by_token show_snapshot get_recipient
  digest_detail-Shows = elim (Option-cases (p.decode x.events)) [
    | inl e ↦ inr (inl e, rw found (rw (got, e, show_snapshot) refl))
    | inr (events, e) ↦ elim (Option-cases (digest_view p r x events)) [
      | inl v ↦ inr (
        inr (digest_view-none p r x events v),
        rw found (rw (got, e, show_snapshot) (rw (v, show_snapshot) refl)),
      )
      | inr (view, v) ↦
          inl
            (events, view, e, v, rw found (rw (got, e, show_snapshot) (rw (v, show_snapshot) refl)))
    ]
  ]

-- Where no snapshot has the token, whether it was removed or never there, the answer is that there
-- is no page. Otherwise, in a consistent database, the token opens the page of its snapshot and the
-- snapshot's recipient, or there is a server error, where the events or the date cannot be read.
pub digest_detail-opens :
    (p : Pages) (s : Site) (token : Text)
    → IsConsistent s.world.tables
    → ((any (has_token token) s.world.tables.snapshots ≡ false)
        × (digest_detail p token s ≡ (not_found, s)))
      ⊎ IsOpened p s token
unfolding digest_detail find_snapshot_by_token
digest_detail-opens p s token c =
    elim (Bool-cases (any (has_token token) s.world.tables.snapshots)) [
      | inr absent ↦
          inl (absent, rw (first_row-none (has_token token) s.world.tables.snapshots absent) refl)
      | inl there ↦
          let (x, found, known) = first_row-any (has_token token) s.world.tables.snapshots there in
          let listed = first_row-In (has_token token) s.world.tables.snapshots x found in
          let (r, got, mine) =
            first_row-any (is_recipient x.recipient_id) s.world.tables.recipients
              (All-In _ x s.world.tables.snapshots c.owned listed) in
          inr (record {
            snapshot = x;
            recipient = r;
            stored = listed;
            same_token = text_eq_sound x.token token known;
            owner = ground arith;
            shown = digest_detail-Shows p s token x r found got;
          })
    ]
