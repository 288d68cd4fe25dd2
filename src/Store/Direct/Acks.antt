-- ===== src/Store/Direct/Acks.antt =====
-- internal/repository/mysql/direct_chat.go: acknowledging a direct message.
use mathlib.Core.Path.{subst}
use meshserver.Base.{
  ℕ, ◌≡◌, refl, sym, ◌∙◌, Bool, true, false, ◌&&◌, some, List, [], ◌∷◌, arith, ◌==◌, Bool-cases,
  inl, inr,
}
use meshserver.Base.Tables.{find, count, find-update_where, find-holds}
use meshserver.Base.Text.{Text}
use meshserver.Base.Errors.{Error}
use meshserver.Base.Exec.{Result, ok, err, ◌>>=◌, or_err, or_err-ok}
use meshserver.Model.Rows.{User, DirectMessage}
use meshserver.Model.Database.{Database}
use meshserver.Store.Direct.Conversations.{is_some, find_user}
use meshserver.Store.Direct.Messages.{
  DirectMessageView, AckOutcome, ack_outcome, has_message_id, is_known_user, is_unacked_for,
  set_acked, write_ack, load_direct_message_row, get_direct_message_by_message_id, update_ack,
  ack_loaded, ack_direct_message,
}

abbrev loads : Text → Database → DirectMessage → Bool
loads mid db m =
    has_message_id mid m
    && (is_known_user m.sender_user_id db && is_known_user m.recipient_user_id db)

-- A message that is loaded stands in the table, with the external ids of its users.
load-ok :
    (mid : Text) (db : Database) (v : DirectMessageView)
    → get_direct_message_by_message_id mid db ≡ ok v
    → (m : DirectMessage) × (su : User) × (ru : User) × (find (loads mid db) db.direct_messages
        ≡ some m)
      × (find_user m.sender_user_id db ≡ some su)
      × (find_user m.recipient_user_id db ≡ some ru)
      × (v
          ≡ record { row = m; sender_external_id = su.user_id; recipient_external_id = ru.user_id })
unfolding get_direct_message_by_message_id load_direct_message_row
load-ok mid db v h =
    let (m, found, h1) = or_err-ok _ _ _ h in
    let (su, s, h2) = or_err-ok _ _ _ h1 in
    let (ru, r, h3) = or_err-ok _ _ _ h2 in (m, su, ru, found, s, r, cc)

-- A row that is found and meets another condition is counted there.
count-found :
    (p q : DirectMessage → Bool) (ms : List DirectMessage) (m : DirectMessage)
    → find p ms ≡ some m
    → q m ≡ true
    → (count q ms == 0) ≡ false
unfolding find count
count-found p q [] m e h = cc
count-found p q (x ∷ ms) m e h = ground (arith, count-found p q ms m)

-- The written message, loaded again.
load-write_ack :
    (mid : Text) (recipient at : ℕ) (db : Database) (v : DirectMessageView)
    → get_direct_message_by_message_id mid db ≡ ok v
    → is_unacked_for mid recipient v.row ≡ true
    → get_direct_message_by_message_id mid (write_ack mid recipient at db)
      ≡ ok (record v { row = set_acked at v.row })
load-write_ack mid recipient at db v h unacked =
    let (m, su, ru, found, s, r, e) = load-ok mid db v h in
    let unacked' : is_unacked_for mid recipient m ≡ true = ground (arith, unacked, e) in
    unfold get_direct_message_by_message_id load_direct_message_row or_err ◌>>=◌ in
    rw
      (find-update_where (loads mid db) (is_unacked_for mid recipient) (set_acked at)
        db.direct_messages (λ x. refl))
      (rw found (rw unacked' (rw s (rw r (cc e)))))

module _ (between : Database → Database) (mid : Text) (recipient at' : ℕ) where
  -- An acknowledged message: the call says so and writes nothing.
  ack-acked :
      (db : Database) (v : DirectMessageView)
      → get_direct_message_by_message_id mid db ≡ ok v
      → (v.row.recipient_user_id == recipient) ≡ true
      → is_some v.row.recipient_acked_at_ms ≡ true
      → ack_direct_message between mid recipient at' db ≡ (ok (ack_outcome true v), db)
  unfolding ack_direct_message ack_loaded
  ack-acked db v h mine acked = rw h (rw mine (rw acked))

module _ (mid : Text) (recipient at : ℕ) (db : Database) where
  abbrev acked : Result AckOutcome × Database
  acked = ack_direct_message (λ d. d) mid recipient at db

  ack-fresh :
      (v : DirectMessageView)
      → get_direct_message_by_message_id mid db ≡ ok v
      → (v.row.recipient_user_id == recipient) ≡ true
      → is_some v.row.recipient_acked_at_ms ≡ false
      → acked ≡ (ok (ack_outcome false v), write_ack mid recipient at db)
  unfolding ack_direct_message ack_loaded update_ack
  ack-fresh v h mine open_ =
      let (m, su, ru, found, s, r, e) = load-ok mid db v h in
      let holds = find-holds (loads mid db) db.direct_messages found in
      let unacked : is_unacked_for mid recipient m ≡ true = ground (arith, holds, e, mine, open_) in
      rw h (
        rw mine (
          rw open_ (
            rw (
              count-found (loads mid db) (is_unacked_for mid recipient) db.direct_messages m found
                unacked))))

  unacked :
      (v : DirectMessageView)
      → get_direct_message_by_message_id mid db ≡ ok v
      → (v.row.recipient_user_id == recipient) ≡ true
      → is_some v.row.recipient_acked_at_ms ≡ false
      → is_unacked_for mid recipient v.row ≡ true
  unacked v h mine open_ =
      let (m, su, ru, found, s, r, e) = load-ok mid db v h in
      ground (arith, find-holds (loads mid db) db.direct_messages found, e, mine, open_)

  ack-missing : (e : Error) → get_direct_message_by_message_id mid db ≡ err e → acked ≡ (err e, db)
  unfolding ack_direct_message ack_loaded
  ack-missing e l = rw l

  ack-other :
      (v : DirectMessageView)
      → get_direct_message_by_message_id mid db ≡ ok v
      → (v.row.recipient_user_id == recipient) ≡ false
      → acked ≡ (err Error.direct_chat_forbidden, db)
  unfolding ack_direct_message ack_loaded
  ack-other v l other = rw l (rw other)

  -- The recipient's acknowledgement, when nobody else writes in between, is stored once: any later
  -- acknowledgement by the recipient, whatever others do, answers "already acknowledged" for the
  -- same sender and conversation, and changes nothing.
  pub ack_direct_message-again :
      (between : Database → Database) (at' : ℕ) (o : AckOutcome)
      → acked.0 ≡ ok o
      → ack_direct_message between mid recipient at' acked.1
        ≡ (ok (record o { already_acked = true }), acked.1)
  ack_direct_message-again between at' o h = go (get_direct_message_by_message_id mid db) refl h
    where
      Answers : Result AckOutcome × Database → Type 0
      Answers r =
          r.0 ≡ ok o
          → ack_direct_message between mid recipient at' r.1
            ≡ (ok (record o { already_acked = true }), r.1)

      mine_case :
          (v : DirectMessageView)
          → get_direct_message_by_message_id mid db ≡ ok v
          → (v.row.recipient_user_id == recipient) ≡ true
          → Answers acked
      mine_case v l mine = elim (Bool-cases (is_some v.row.recipient_acked_at_ms)) [
        | inl done ↦
            subst Answers (sym (ack-acked (λ d. d) mid recipient at db v l mine done))
              (λ e. ack-acked between mid recipient at' db v l mine done ∙ cc e)
        | inr open_ ↦ subst Answers (sym (ack-fresh v l mine open_)) (λ e.
            ack-acked between mid recipient at' (write_ack mid recipient at db)
              (record v { row = set_acked at v.row })
              (load-write_ack mid recipient at db v l (unacked v l mine open_)) mine refl
            ∙ cc e)
      ]

      go :
          (r : Result DirectMessageView)
          → get_direct_message_by_message_id mid db ≡ r
          → Answers acked
      go (err e) l = subst Answers (sym (ack-missing e l)) (λ h. cc h)
      go (ok v) l = elim (Bool-cases (v.row.recipient_user_id == recipient)) [
        | inl mine ↦ mine_case v l mine
        | inr other ↦ subst Answers (sym (ack-other v l other)) (λ h. cc h)
      ]
