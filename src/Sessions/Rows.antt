-- ===== src/Sessions/Rows.antt =====
-- What the statements on one row leave in the tables, crates/relayterm-db/src/repositories/terminal_session.rs.
use relay_term.Prelude.{ℕ, ◌≡◌, refl, ap, ◌∙◌, Option, some, ℕ_discrete}
use relay_term.Prelude.Assoc.{modify, get-modify_self}
use mathlib.Core.Option
use relay_term.Sessions.{
  TerminalSession, TerminalSessionAttachment, TerminalSessionStatus, Store, find, mark, set_status,
  find_attachment, detach_row, mark_attachment_detached,
}

-- The store after `set_status` on a row that is there.
abbrev pub with_status : ℕ → TerminalSessionStatus → Option ℕ → ℕ → Store → Store
with_status id status closed_at now s = record s {
  sessions = modify ℕ_discrete id (mark status closed_at now) s.sessions;
}

pub set_status-some :
    (id : ℕ) (status : TerminalSessionStatus) (closed_at : Option ℕ) (now : ℕ) (s : Store)
    (row : TerminalSession)
    → find id s ≡ some row
    → set_status id status closed_at now s ≡ some (with_status id status closed_at now s)
unfolding set_status find
set_status-some id status closed_at now s row e = rw (e, set_status) refl

pub find-with_status :
    (id : ℕ) (status : TerminalSessionStatus) (closed_at : Option ℕ) (now : ℕ) (s : Store)
    (row : TerminalSession)
    → find id s ≡ some row
    → find id (with_status id status closed_at now s) ≡ some (mark status closed_at now row)
unfolding find
find-with_status id status closed_at now s row e =
    get-modify_self ℕ_discrete id _ s.sessions ∙ ap (Option.map (mark status closed_at now)) e

abbrev pub with_detached : ℕ → ℕ → Option ℕ → Store → Store
with_detached id now last_seen_seq s = record s {
  attachments = modify ℕ_discrete id (detach_row now last_seen_seq) s.attachments;
}

pub mark_attachment_detached-some :
    (id now : ℕ) (last_seen_seq : Option ℕ) (s : Store) (row : TerminalSessionAttachment)
    → find_attachment id s ≡ some row
    → mark_attachment_detached id now last_seen_seq s ≡ some (with_detached id now last_seen_seq s)
unfolding mark_attachment_detached find_attachment
mark_attachment_detached-some id now last_seen_seq s row e = rw (e, mark_attachment_detached) refl

pub find_attachment-with_detached :
    (id now : ℕ) (last_seen_seq : Option ℕ) (s : Store) (row : TerminalSessionAttachment)
    → find_attachment id s ≡ some row
    → find_attachment id (with_detached id now last_seen_seq s)
      ≡ some (detach_row now last_seen_seq row)
unfolding find_attachment
find_attachment-with_detached id now last_seen_seq s row e =
    get-modify_self ℕ_discrete id _ s.attachments ∙ ap (Option.map (detach_row now last_seen_seq)) e

pub owner-mark :
    (status : TerminalSessionStatus) (closed_at : Option ℕ) (now : ℕ) (row : TerminalSession)
    → (mark status closed_at now row).owner_id ≡ row.owner_id
unfolding mark
owner-mark status closed_at now row = refl

pub status-mark :
    (status : TerminalSessionStatus) (closed_at : Option ℕ) (now : ℕ) (row : TerminalSession)
    → (mark status closed_at now row).status ≡ status
unfolding mark
status-mark status closed_at now row = refl

pub id-mark :
    (status : TerminalSessionStatus) (closed_at : Option ℕ) (now : ℕ) (row : TerminalSession)
    → (mark status closed_at now row).id ≡ row.id
unfolding mark
id-mark status closed_at now row = refl

-- A detach does not touch the rows of the sessions.
pub find-with_detached :
    (id attachment_id now : ℕ) (seen : Option ℕ) (s : Store) (row : TerminalSession)
    → find id s ≡ some row
    → find id (with_detached attachment_id now seen s) ≡ some row
unfolding find
find-with_detached id attachment_id now seen s row e = e
