-- ===== src/Auth/Replay.antt =====
-- internal/auth/service.go: a proof is accepted once.
use meshserver.Base.{
  ℕ, ◌≤◌, ◌≡◌, refl, sym, ◌∙◌, ap, Bool, Option, none, some, List, [], ◌∷◌, arith, ◌==◌, Bool-cases,
  inl, inr,
}
use meshserver.Base.Tables.{count, update_where}
use meshserver.Base.Text.{Text}
use meshserver.Base.Errors.{Error}
use meshserver.Base.Exec.{Result, ok, err, reads, and_then, and_then-ok, and_then-err}
use meshserver.Model.Rows.{User, Nonce}
use meshserver.Model.Database.{Database}
use meshserver.Store.Reads.{is_usable, set_used, use_nonce}
use meshserver.Store.Users.{insert_or_touch, create_if_not_exists_by_peer_id, update_login}
use meshserver.Auth.{Scheme, VerifyInput, check_proof, consume_nonce, log_in, verify_challenge}

-- The rows that one login marked are usable at no later time, and the others were not usable.
count-usable_again :
    (hash client node : Text) (now later : ℕ) (ns : List Nonce)
    → now ≤ later
    → count
        (is_usable hash client node later)
        (update_where (is_usable hash client node now) (set_used now) ns)
      ≡ 0
unfolding count update_where
count-usable_again hash client node now later [] h = refl
count-usable_again hash client node now later (n ∷ ns) h =
    ground (arith, count-usable_again hash client node now later ns h)

nonces_of-insert_or_touch :
    (now : ℕ) (uid peer_id pubkey : Text) (o : Option User) (d : Database)
    → (insert_or_touch now uid peer_id pubkey o d).auth_nonces ≡ d.auth_nonces
unfolding insert_or_touch
nonces_of-insert_or_touch now uid peer_id pubkey none d = refl
nonces_of-insert_or_touch now uid peer_id pubkey (some u) d = refl

nonces_of-create :
    (now : ℕ) (uid peer_id pubkey : Text) (d : Database)
    → (create_if_not_exists_by_peer_id now uid peer_id pubkey d).1.auth_nonces ≡ d.auth_nonces
unfolding create_if_not_exists_by_peer_id
nonces_of-create now uid peer_id pubkey d = nonces_of-insert_or_touch now uid peer_id pubkey _ d

module _ (crypto : Scheme) (protocol_id : Text) (in_ : VerifyInput) where
  nonces_of-log_in :
      (now stored_at : ℕ) (uid : Text) (d : Database)
      → (log_in crypto protocol_id now stored_at uid in_ d).1.auth_nonces ≡ d.auth_nonces
  unfolding log_in update_login
  nonces_of-log_in now stored_at uid d =
      go
        (create_if_not_exists_by_peer_id stored_at uid in_.challenge.client_peer_id in_.public_key
          d)
        refl
    where
      go :
          (r : Result User × Database)
          → create_if_not_exists_by_peer_id stored_at uid in_.challenge.client_peer_id
              in_.public_key d
            ≡ r
          → (log_in crypto protocol_id now stored_at uid in_ d).1.auth_nonces ≡ d.auth_nonces
      go (ok user, d') e =
          ap (λ r. r.1.auth_nonces)
            (and_then-ok
              (create_if_not_exists_by_peer_id stored_at uid in_.challenge.client_peer_id
                in_.public_key)
              _ d e)
          ∙ sym (ap (λ r. r.1.auth_nonces) e)
          ∙ nonces_of-create stored_at uid in_.challenge.client_peer_id in_.public_key d
      go (err x, d') e =
          ap (λ r. r.1.auth_nonces)
            (and_then-err
              (create_if_not_exists_by_peer_id stored_at uid in_.challenge.client_peer_id
                in_.public_key)
              _ d e)
          ∙ sym (ap (λ r. r.1.auth_nonces) e)
          ∙ nonces_of-create stored_at uid in_.challenge.client_peer_id in_.public_key d

  usable : ℕ → Nonce → Bool
  usable =
      is_usable (crypto.nonce_hash in_.challenge.nonce) in_.challenge.client_peer_id
        in_.challenge.node_peer_id

  -- What an accepted proof leaves: the nonces with the rows of this one marked.
  accepted-nonces :
      (now stored_at : ℕ) (uid : Text) (db : Database) (user : User)
      → (verify_challenge crypto protocol_id now stored_at uid in_ db).0 ≡ ok user
      → (verify_challenge crypto protocol_id now stored_at uid in_ db).1.auth_nonces
        ≡ update_where (usable now) (set_used now) db.auth_nonces
  accepted-nonces now stored_at uid db user h =
      checked (check_proof crypto protocol_id now in_) refl
    where
      run : Result User × Database
      run = verify_challenge crypto protocol_id now stored_at uid in_ db

      Marked : Type 0
      Marked = run.1.auth_nonces ≡ update_where (usable now) (set_used now) db.auth_nonces

      marked : Database
      marked = record db { auth_nonces = update_where (usable now) (set_used now) db.auth_nonces }

      behind :
          (u : Unit {0})
          → check_proof crypto protocol_id now in_ ≡ ok u
          → run
            ≡ and_then
                (consume_nonce crypto protocol_id now in_)
                (λ v. log_in crypto protocol_id now stored_at uid in_)
                db
      behind u c =
          unfold verify_challenge in
          and_then-ok (reads (λ x. check_proof crypto protocol_id now in_)) _ db
            (ap (λ r. (r, db)) c)

      consumed : (u : Unit {0}) → check_proof crypto protocol_id now in_ ≡ ok u → Marked
      consumed u c = elim (Bool-cases (count (usable now) db.auth_nonces == 0)) [
        | inl spent ↦
            let refused : run ≡ (err Error.not_found, db) =
              behind u c
              ∙ and_then-err (consume_nonce crypto protocol_id now in_) _ db
                  (unfold consume_nonce use_nonce usable in rw spent refl) in
            absurd (cc (sym h ∙ ap (λ r. r.0) refused))
        | inr fresh ↦
            let used : run ≡ log_in crypto protocol_id now stored_at uid in_ marked =
              behind u c
              ∙ and_then-ok (consume_nonce crypto protocol_id now in_) _ db
                  (unfold consume_nonce use_nonce usable in rw fresh refl) in
            ap (λ r. r.1.auth_nonces) used ∙ nonces_of-log_in now stored_at uid marked
      ]

      checked : (r : Result (Unit {0})) → check_proof crypto protocol_id now in_ ≡ r → Marked
      checked (ok u) c = consumed u c
      checked (err e) c =
          let refused : run ≡ (err e, db) =
            unfold verify_challenge in
            and_then-err (reads (λ x. check_proof crypto protocol_id now in_)) _ db
              (ap (λ r. (r, db)) c) in
          absurd (cc (sym h ∙ ap (λ r. r.0) refused))

  -- A database whose nonce is spent refuses the proof.
  refused-spent :
      (later stored_at : ℕ) (uid : Text) (d : Database)
      → count (usable later) d.auth_nonces ≡ 0
      → (e : Error) × (verify_challenge crypto protocol_id later stored_at uid in_ d ≡ (err e, d))
  unfolding verify_challenge
  refused-spent later stored_at uid d none_left = go (check_proof crypto protocol_id later in_) refl
    where
      spent : consume_nonce crypto protocol_id later in_ d ≡ (err Error.not_found, d)
      spent = unfold consume_nonce use_nonce usable in rw none_left refl

      go :
          (r : Result (Unit {0}))
          → check_proof crypto protocol_id later in_ ≡ r
          → (e : Error) × (verify_challenge crypto protocol_id later stored_at uid in_ d
              ≡ (err e, d))
      go (err e) c = (
        e,
        and_then-err (reads (λ x. check_proof crypto protocol_id later in_)) _ d
            (ap (λ r. (r, d)) c),
      )
      go (ok u) c = (
        Error.not_found,
        and_then-ok (reads (λ x. check_proof crypto protocol_id later in_)) _ d (ap (λ r. (r, d)) c)
            ∙ and_then-err (consume_nonce crypto protocol_id later in_) _ d spent,
      )

  -- If a proof was accepted, then it is refused at any later time, by the check of the proof or
  -- because its nonce is spent, and the refusal writes nothing.
  pub verify_challenge-once :
      (now later stored_at stored_at' : ℕ) (uid uid' : Text) (db : Database) (user : User)
      → now ≤ later
      → (verify_challenge crypto protocol_id now stored_at uid in_ db).0 ≡ ok user
      → (e : Error) × (verify_challenge crypto protocol_id later stored_at' uid' in_
            (verify_challenge crypto protocol_id now stored_at uid in_ db).1
          ≡ (err e, (verify_challenge crypto protocol_id now stored_at uid in_ db).1))
  unfolding usable
  verify_challenge-once now later stored_at stored_at' uid uid' db user le h =
      refused-spent later stored_at' uid' _ (
        ap (count (usable later)) (accepted-nonces now stored_at uid db user h)
        ∙ count-usable_again _ _ _ now later db.auth_nonces le)
