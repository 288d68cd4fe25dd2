-- ===== src/Auth.antt =====
-- internal/auth/service.go: challenge and response. The signature scheme of libp2p and the hash of the
-- nonce are parameters. Byte strings are lists of numbers below 256.
pub mod Replay
use meshserver.Base.{
  ℕ, zero, suc, ◌+◌, ◌-◌, ◌*◌, ◌/◌, ◌%◌, Bool, not, ◌||◌, Option, List, [], ◌∷◌, ◌++◌, ltb, ◌==◌,
  if◌then◌else◌,
}
use meshserver.Base.Text.{Text, codes, text_eq}
use meshserver.Base.Errors.{Error}
use meshserver.Base.Exec.{Result, ok, ◌>>=◌, ◌>>◌, guard, or_err, Exec, reads, value, and_then}
use meshserver.Model.Rows.{User}
use meshserver.Model.Database.{Database}
use meshserver.Store.Reads.{store_nonce, use_nonce}
use meshserver.Store.Users.{create_if_not_exists_by_peer_id, update_login}

pub record Challenge : Type 0 where
  pub client_peer_id : Text
  pub node_peer_id : Text
  pub nonce : List ℕ
  pub issued_at : ℕ
  pub expires_at : ℕ

pub record VerifyInput : Type 0 where
  pub challenge : Challenge
  pub signature : List ℕ
  pub public_key : List ℕ

-- The decimal digits that `%d` prints; a number has fewer of them than itself plus one.
decimal_digits : ℕ → ℕ → Text
decimal_digits zero n = []
decimal_digits (suc fuel) n =
    let front = decimal_digits fuel (n / 10) in
    if ltb n 10 then (48 + n) ∷ [] else front ++ ((48 + n % 10) ∷ [])

unfoldable pub decimal : ℕ → Text
unfolding decimal_digits
decimal n = decimal_digits (suc n) n

-- The alphabet of base64.StdEncoding.
abbrev base64_char : ℕ → ℕ
base64_char i =
    if ltb i 26
    then 65 + i
    else if ltb i 52
    then 97 + (i - 26)
    else if ltb i 62
    then 48 + (i - 52)
    else if i == 62
    then 43
    else 47

unfoldable pub base64 : List ℕ → Text
base64 [] = []
base64 (a ∷ []) = base64_char (a / 4) ∷ base64_char (a % 4 * 16) ∷ 61 ∷ 61 ∷ []
base64 (a ∷ b ∷ []) =
    base64_char (a / 4) ∷ base64_char (a % 4 * 16 + b / 16) ∷ base64_char (b % 16 * 4) ∷ 61 ∷ []
base64 (a ∷ b ∷ c ∷ rest) =
    base64_char (a / 4)
    ∷ base64_char (a % 4 * 16 + b / 16)
    ∷ base64_char (b % 16 * 4 + c / 64)
    ∷ base64_char (c % 64)
    ∷ base64 rest

unfoldable pub build_challenge_payload : Text → Challenge → Text
build_challenge_payload protocol_id c =
    codes "protocol_id="
    ++ protocol_id
    ++ codes "\nclient_peer_id="
    ++ c.client_peer_id
    ++ codes "\nnode_peer_id="
    ++ c.node_peer_id
    ++ codes "\nnonce="
    ++ base64 c.nonce
    ++ codes "\nissued_at_ms="
    ++ decimal c.issued_at
    ++ codes "\nexpires_at_ms="
    ++ decimal c.expires_at
    ++ codes "\n"

-- UnmarshalPublicKey, IDFromPublicKey and Verify of libp2p, and the hexadecimal SHA-256.
pub record Scheme : Type 1 where
  pub Key : Type 0
  pub unmarshal : List ℕ → Option Key
  pub peer_id_of : Key → Option Text
  pub verify : Key → Text → List ℕ → Option Bool
  pub nonce_hash : List ℕ → Text

module _ (crypto : Scheme) (protocol_id : Text) where
  -- `nonce` is what rand.Read draws.
  unfoldable pub issue_challenge : ℕ → ℕ → List ℕ → Text → Text → Exec Database (Challenge × Text)
  issue_challenge now ttl nonce client node =
      let c : Challenge = record {
        client_peer_id = client;
        node_peer_id = node;
        nonce = nonce;
        issued_at = now;
        expires_at = now + ttl;
      } in
      and_then (store_nonce (crypto.nonce_hash nonce) client node now (now + ttl))
        (λ u. value (c, build_challenge_payload protocol_id c))

  -- The checks on the request alone: the time, the key, the peer id and the signature.
  unfoldable pub check_proof : ℕ → VerifyInput → Result (Unit {0})
  check_proof now in_ = do
    guard (not (ltb in_.challenge.expires_at now || ltb (now + 60000) in_.challenge.issued_at))
        Error.challenge_expired
    key ← or_err (crypto.unmarshal in_.public_key) Error.bad_public_key
    derived ← or_err (crypto.peer_id_of key) Error.bad_public_key
    guard (text_eq derived in_.challenge.client_peer_id) Error.peer_id_mismatch
    valid ←
        or_err (crypto.verify key (build_challenge_payload protocol_id in_.challenge) in_.signature)
          Error.bad_signature
    guard valid Error.bad_signature

  unfoldable pub consume_nonce : ℕ → VerifyInput → Exec Database (Unit {0})
  consume_nonce now in_ =
      use_nonce (crypto.nonce_hash in_.challenge.nonce) in_.challenge.client_peer_id
        in_.challenge.node_peer_id now

  -- The user of the peer, created if it is new, with its login recorded. `now` of CreateIfNotExists…
  -- is the store's clock.
  unfoldable pub log_in : ℕ → ℕ → Text → VerifyInput → Exec Database User
  log_in now stored_at uid in_ =
      and_then
        (create_if_not_exists_by_peer_id stored_at uid in_.challenge.client_peer_id in_.public_key)
        (λ user db. (ok user, update_login user.id in_.public_key now db))

  -- The session id that is drawn behind it is left out of the answer.
  unfoldable pub verify_challenge : ℕ → ℕ → Text → VerifyInput → Exec Database User
  verify_challenge now stored_at uid in_ =
      and_then (reads (λ db. check_proof now in_))
        (λ u. and_then (consume_nonce now in_) (λ v. log_in now stored_at uid in_))
