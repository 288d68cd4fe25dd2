-- ===== src/Tests/Auth.antt =====
-- A login with a scheme in which a key is its own peer id and signs by repeating the payload.
use meshserver.Base.{ℕ, ◌≡◌, refl, some, List, [], ◌∷◌, arith}
use meshserver.Base.Tables.{find, count, update_where}
use meshserver.Base.Text.{codes, text_eq}
use meshserver.Base.Errors.{Error}
use meshserver.Base.Exec.{ok, err, ◌>>=◌, guard, or_err}
use meshserver.Model.Database.{Database}
use meshserver.Store.Reads.{use_nonce}
use meshserver.Store.Users.{
  get_by_peer_id, insert_or_touch, create_if_not_exists_by_peer_id, update_login, touch_user,
}
use meshserver.Auth.{
  Scheme, Challenge, VerifyInput, build_challenge_payload, base64, decimal, check_proof,
  consume_nonce, log_in, verify_challenge,
}
use meshserver.Auth.Replay.{verify_challenge-once}
use meshserver.Tests.Data.{talking, user, nonce}

abbrev pub echo : Scheme
echo = record {
  Key = List ℕ;
  unmarshal = λ bytes. some bytes;
  peer_id_of = λ key. some key;
  verify = λ key payload signature. some (text_eq payload signature);
  nonce_hash = λ bytes. bytes;
}

abbrev challenge : Challenge
challenge = record {
  client_peer_id = codes "ann";
  node_peer_id = codes "node";
  nonce = codes "h";
  issued_at = 0;
  expires_at = 100;
}

abbrev proof : VerifyInput
proof = record {
  challenge = challenge;
  signature =
      codes
        "protocol_id=p\nclient_peer_id=ann\nnode_peer_id=node\nnonce=aA==\nissued_at_ms=0\nexpires_at_ms=100\n";
  public_key = codes "ann";
}

abbrev challenged : Database
challenged = record talking { auth_nonces = nonce (codes "h") ∷ [] }

payload : build_challenge_payload (codes "p") challenge ≡ proof.signature
unfolding build_challenge_payload base64 decimal
payload = refl

logged_in :
    (verify_challenge echo (codes "p") 50 51 (codes "x") proof challenged).0
    ≡ ok (touch_user 51 (codes "ann") (user 1 (codes "ann")))
unfolding verify_challenge check_proof consume_nonce log_in use_nonce build_challenge_payload base64
    decimal create_if_not_exists_by_peer_id insert_or_touch get_by_peer_id update_login find count
    update_where text_eq or_err guard ◌>>=◌
logged_in = refl

verify_challenge-once_example :
    (e : Error) × (verify_challenge echo
        (codes "p")
        60
        61
        (codes "y")
        proof
        (verify_challenge echo (codes "p") 50 51 (codes "x") proof challenged).1
      ≡ (err e, (verify_challenge echo (codes "p") 50 51 (codes "x") proof challenged).1))
verify_challenge-once_example =
    verify_challenge-once echo (codes "p") proof 50 60 51 61 (codes "x") (codes "y") challenged
      (touch_user 51 (codes "ann") (user 1 (codes "ann"))) (omega arith) logged_in
