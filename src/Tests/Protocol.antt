-- ===== src/Tests/Protocol.antt =====
-- A protocol whose messages are their own bytes.
use meshserver.Base.{ℕ, ◌≡◌, refl, sym, some, List, [], ◌∷◌, ◌++◌, take, arith}
use meshserver.Base.Errors.{Error}
use meshserver.Base.Exec.{ok, err, guard, or_err}
use meshserver.Protocol.{Codec, put_uint32, read_envelope, write_envelope}
use meshserver.Protocol.Frames.{frame}
use meshserver.Protocol.Streams.{write_all, read_all, read_all-write_all}
use meshserver.Protocol.Limits.{read_envelope-refuses, read_envelope-cut}

abbrev bytes : Codec (List ℕ)
bytes = record { marshal = λ b. some b; unmarshal = λ b. some b }

abbrev two : List (List ℕ)
two = (7 ∷ 8 ∷ []) ∷ [] ∷ []

both_written : (write_all bytes two []).0 ≡ ok tt
unfolding write_envelope guard or_err
both_written = refl

read_all-write_all_example : read_all bytes 2 (write_all bytes two []).1 ≡ (ok two, [])
read_all-write_all_example = read_all-write_all bytes two (λ e b h. sym h) both_written

read_envelope-refuses_example :
    read_envelope bytes (put_uint32 8388609 ++ 1 ∷ []) ≡ (err Error.envelope_too_large, 1 ∷ [])
read_envelope-refuses_example =
    read_envelope-refuses bytes 8388609 (1 ∷ []) (omega arith) (omega arith)

read_envelope-cut_example :
    (e : Error) × (read_envelope bytes (take 5 (frame (7 ∷ 8 ∷ []))) ≡ (err e, []))
read_envelope-cut_example = read_envelope-cut bytes (7 ∷ 8 ∷ []) 5 (omega arith) (omega arith)
