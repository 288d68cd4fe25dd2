-- ===== src/Service/Channels/Admission.antt =====
-- internal/service/messaging.go: which messages SendMessage accepts.
use meshserver.Base.{
  ℕ, ◌+◌, ◌*◌, ◌≤◌, ◌<◌, ◌≡◌, refl, sym, ◌∙◌, ap, Bool, true, false, not, ◌||◌, some, arith, ltb,
  length,
}
use meshserver.Base.Text.{Text, trim_space, len}
use meshserver.Base.Errors.{Error}
use meshserver.Base.Exec.{Result, ok, err, guard, guard-ok, bind-ok, reads, Exec, and_then-err}
use meshserver.Model.Enums.{is_broadcast, is_manager}
use meshserver.Model.Rows.{Channel, Permission}
use meshserver.Model.Database.{Database}
use meshserver.Store.Channels.{get_permission}
use meshserver.Store.Messages.{MessageView, get_by_channel_id, get_last_message_time}
use meshserver.Service.Channels.{
  Limits, AttachmentInput, SendMessageInput, no_items, check_kind, slow_mode_allows,
  validate_message, admit, send_message,
}

-- What the service asks of a message and its sender, on their own terms.
abbrev pub IsPermitted :
    Limits → ℕ → Channel → Permission → ℕ → SendMessageInput → Database → Type 0
IsPermitted cfg now ch perm user_id in_ db =
    (perm.can_view ≡ true)
    × (perm.can_send_message ≡ true)
    × (no_items in_.images ≡ false → perm.can_send_image ≡ true)
    × (no_items in_.files ≡ false → perm.can_send_file ≡ true)
    × (is_broadcast ch.channel_type ≡ true → is_manager perm.role ≡ true)
    × ((8 ≤ len (trim_space in_.client_msg_id)) × (len (trim_space in_.client_msg_id) ≤ 64))
    × (len (trim_space in_.text) ≤ cfg.max_text_len)
    × ((length in_.images ≤ cfg.max_images_per_message)
        × (length in_.files ≤ cfg.max_files_per_message))
    × ((last : ℕ)
        → 0 < ch.slow_mode_seconds
        → get_last_message_time ch.id user_id db ≡ some last
        → last + ch.slow_mode_seconds * 1000 ≤ now)

guard-true : (b : Bool) (e : Error) {u : Unit {0}} → guard b e ≡ ok u → b ≡ true
unfolding guard
guard-true true e h = refl
guard-true false e h = cc

module _ (cfg : Limits) (now : ℕ) (user_id : ℕ) (in_ : SendMessageInput) (db : Database) where
  check_kind-ok :
      (perm : Permission) (u : Unit {0})
      → (no_items in_.images || no_items in_.files) ≡ true
      → check_kind perm in_ ≡ ok u
      → (no_items in_.images ≡ false → perm.can_send_image ≡ true)
        × (no_items in_.files ≡ false → perm.can_send_file ≡ true)
  unfolding check_kind
  check_kind-ok perm u one h = (
    (λ e. guard-true perm.can_send_image Error.forbidden (sym (only_images e) ∙ h)),
    (λ e. guard-true perm.can_send_file Error.forbidden (sym (only_files e) ∙ h)),
  )
    where
      only_images :
          no_items in_.images ≡ false
          → check_kind perm in_ ≡ guard perm.can_send_image Error.forbidden
      only_images e = rw e refl

      only_files :
          no_items in_.files ≡ false
          → check_kind perm in_ ≡ guard perm.can_send_file Error.forbidden
      only_files e = let i : no_items in_.images ≡ true = ground (arith, one, e) in rw (e, i) refl

  validate_message-ok :
      (ch : Channel) (perm : Permission) (u : Unit {0})
      → perm.can_view ≡ true
      → validate_message cfg now ch perm user_id in_ db ≡ ok u
      → IsPermitted cfg now ch perm user_id in_ db
  unfolding validate_message
  validate_message-ok ch perm u view h =
      let (size, h1) = guard-ok _ _ _ h in
      let (text, h2) = guard-ok _ _ _ h1 in
      let (images, h3) = guard-ok _ _ _ h2 in
      let (files, h4) = guard-ok _ _ _ h3 in
      let (one, h5) = guard-ok _ _ _ h4 in
      let (content, h6) = guard-ok _ _ _ h5 in
      let (x, kind, h7) = bind-ok (check_kind perm in_) _ h6 in
      let (send, h8) = guard-ok _ _ _ h7 in
      let (role, h9) = guard-ok _ _ _ h8 in
      let (image, file) = check_kind-ok perm x one kind in
      (
        view,
        send,
        image,
        file,
        (λ e. ground (arith, role, e)),
        (ground (arith, size), ground (arith, size)),
        ground (arith, text),
        (ground (arith, images), ground (arith, files)),
        (λ last on e. slow last on e (guard-true _ _ h9)),
      )
    where
      slow :
          (last : ℕ)
          → 0 < ch.slow_mode_seconds
          → get_last_message_time ch.id user_id db ≡ some last
          → (not (ltb 0 ch.slow_mode_seconds)
              || slow_mode_allows now ch.slow_mode_seconds (get_last_message_time ch.id user_id db))
            ≡ true
          → last + ch.slow_mode_seconds * 1000 ≤ now
      slow last on e h =
          let h' : (not (ltb 0 ch.slow_mode_seconds)
                || slow_mode_allows now ch.slow_mode_seconds (some last))
              ≡ true =
            ap
              (λ o. not (ltb 0 ch.slow_mode_seconds) || slow_mode_allows now ch.slow_mode_seconds o)
              (sym e)
            ∙ h in
          ground (arith, h')

module _ (save : ℕ → Bool → AttachmentInput → Exec Database ℕ) (cfg : Limits) (now : ℕ) (mid : Text)
    (user_id : ℕ) (in_ : SendMessageInput) (db : Database) where
  -- If SendMessage returns a message, then the channel exists, the sender is a member of it, and the
  -- permission there, the limits of the configuration and the slow mode of the channel all allow it.
  pub send_message-IsPermitted :
      (v : MessageView)
      → (send_message save cfg now mid user_id in_ db).0 ≡ ok v
      → (ch : Channel) × (perm : Permission) × (get_by_channel_id in_.channel_id db ≡ ok ch)
        × (get_permission in_.channel_id user_id db ≡ ok perm)
        × IsPermitted cfg now ch perm user_id in_ db
  send_message-IsPermitted v h = go (admit cfg now user_id in_ db) refl
    where
      refused :
          (e : Error)
          → admit cfg now user_id in_ db ≡ err e
          → send_message save cfg now mid user_id in_ db ≡ (err e, db)
      refused e a =
          unfold send_message in
          and_then-err (reads (admit cfg now user_id in_)) _ db (ap (λ r. (r, db)) a)

      go :
          (r : Result (Unit {0}))
          → admit cfg now user_id in_ db ≡ r
          → (ch : Channel) × (perm : Permission) × (get_by_channel_id in_.channel_id db ≡ ok ch)
            × (get_permission in_.channel_id user_id db ≡ ok perm)
            × IsPermitted cfg now ch perm user_id in_ db
      go (err e) a = absurd (cc (sym h ∙ ap (λ x. x.0) (refused e a)))
      go (ok u) a =
          unfold admit in
          let (ch, found, h1) = bind-ok (get_by_channel_id in_.channel_id db) _ a in
          let (perm, granted, h2) = bind-ok (get_permission in_.channel_id user_id db) _ h1 in
          let (view, h3) = guard-ok _ _ _ h2 in
          (ch, perm, found, granted, validate_message-ok cfg now user_id in_ db ch perm u view h3)
