-- ===== src/Protocol.antt =====
-- internal/protocol/codec.go: envelopes on a stream of bytes, each after its length. Protobuf's Marshal
-- and Unmarshal are parameters; reading and writing the stream fail only where the bytes end.
pub mod Frames
pub mod Streams
pub mod Limits
use meshserver.Base.{
  ℕ, ◌+◌, ◌*◌, ◌/◌, ◌%◌, ◌^◌, Option, none, some, List, [], ◌∷◌, ◌++◌, length, take, drop, ◌==◌,
  ltb, leb, if◌then◌else◌,
}
use meshserver.Base.Text.{Text}
use meshserver.Base.Errors.{Error}
use meshserver.Base.Exec.{Result, ok, err, guard, or_err, Exec, reads, and_then, ◌>>=◌}

-- The message type and the body are protobuf's.
pub record Envelope (M : Type 0) : Type 0 where
  pub version : ℕ
  pub msg_type : M
  pub request_id : Text
  pub timestamp_ms : ℕ
  pub body : List ℕ

-- proto.Marshal and proto.Unmarshal for one type of message; none is an error.
pub record Codec (E : Type 0) : Type 0 where
  pub marshal : E → Option (List ℕ)
  pub unmarshal : List ℕ → Option E

-- 8 << 20
abbrev pub max_envelope_bytes : ℕ
max_envelope_bytes = 8 * 2 ^ 20

-- `binary.Write` and `binary.Read` of a uint32 in big-endian order.
unfoldable pub put_uint32 : ℕ → List ℕ
put_uint32 n = n / 2 ^ 24 % 256 ∷ n / 2 ^ 16 % 256 ∷ n / 2 ^ 8 % 256 ∷ n % 256 ∷ []

unfoldable pub get_uint32 : List ℕ → ℕ
get_uint32 [] = 0
get_uint32 (b ∷ bs) = b * 256 ^ length bs + get_uint32 bs

-- `io.ReadFull`: nothing at all is an end of the stream, less than was asked for an unexpected one.
unfoldable pub read_full : ℕ → Exec (List ℕ) (List ℕ)
read_full k s =
    if k == 0
    then (ok [], s)
    else if length s == 0
    then (err Error.end_of_stream, s)
    else if ltb (length s) k
    then (err Error.unexpected_eof, [])
    else (ok (take k s), drop k s)

module _ {E : Type 0} (codec : Codec E) where
  unfoldable pub read_envelope : Exec (List ℕ) E
  read_envelope = and_then (read_full 4) (λ header.
      and_then
        (reads (λ s. guard (leb (get_uint32 header) max_envelope_bytes) Error.envelope_too_large))
        (λ u.
          and_then (read_full (get_uint32 header))
            (λ payload. reads (λ s. or_err (codec.unmarshal payload) Error.bad_envelope))))

  abbrev pub send : List ℕ → Exec (List ℕ) (Unit {0})
  send bytes s = (ok tt, s ++ bytes)

  -- The length is converted to uint32.
  unfoldable pub write_envelope : E → Exec (List ℕ) (Unit {0})
  write_envelope e = and_then (reads (λ s. or_err (codec.marshal e) Error.bad_envelope)) (λ payload.
      and_then
        (reads (λ s. guard (leb (length payload) max_envelope_bytes) Error.envelope_too_large))
        (λ u. and_then (send (put_uint32 (length payload % 2 ^ 32))) (λ v. send payload)))

-- `currentEnvelopeVersion` is 1; `now` is the time in milliseconds.
unfoldable pub new_envelope : {M B : Type 0} → Codec B → ℕ → M → Text → B → Result (Envelope M)
new_envelope codec now msg_type request_id body = do
  payload ← or_err (codec.marshal body) Error.bad_envelope
  ok (record {
    version = 1;
    msg_type = msg_type;
    request_id = request_id;
    timestamp_ms = now;
    body = payload;
  })
