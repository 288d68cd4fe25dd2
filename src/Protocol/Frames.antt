-- ===== src/Protocol/Frames.antt =====
-- internal/protocol/codec.go: what ReadEnvelope finds where WriteEnvelope wrote.
use meshserver.Base.{
  ℕ, ◌^◌, ◌%◌, ◌≤◌, ◌<◌, ◌≡◌, refl, ap, ◌∙◌, Bool, true, false, Option, none, some, List, [], ◌∷◌,
  ◌++◌, length, take, drop, length-append, arith, leb, if◌then◌else◌,
}
use meshserver.Base.Errors.{Error}
use meshserver.Base.Exec.{
  Result, ok, err, guard, or_err, Exec, reads, and_then, and_then-ok, and_then-err,
}
use meshserver.Protocol.{
  Codec, max_envelope_bytes, put_uint32, get_uint32, read_full, read_envelope, write_envelope, send,
}

-- proto.Unmarshal reads what proto.Marshal wrote.
abbrev pub Decodes : {E : Type 0} → Codec E → Type 0
Decodes {E} codec =
    (e : E) (bytes : List ℕ) → codec.marshal e ≡ some bytes → codec.unmarshal bytes ≡ some e

abbrev pub frame : List ℕ → List ℕ
frame payload = put_uint32 (length payload % 2 ^ 32) ++ payload

pub get_uint32-put_uint32 : (n : ℕ) → n < 2 ^ 32 → get_uint32 (put_uint32 n) ≡ n
unfolding get_uint32 put_uint32
get_uint32-put_uint32 n h = omega arith

take-append : (xs rest : List ℕ) → take (length xs) (xs ++ rest) ≡ xs
take-append [] rest = refl
take-append (x ∷ xs) rest = ap (◌∷◌ x) (take-append xs rest)

drop-append : (xs rest : List ℕ) → drop (length xs) (xs ++ rest) ≡ rest
drop-append [] rest = refl
drop-append (x ∷ xs) rest = drop-append xs rest

pub append-nil : (xs : List ℕ) → xs ++ [] ≡ xs
append-nil [] = refl
append-nil (x ∷ xs) = ap (◌∷◌ x) (append-nil xs)

pub append_assoc : (xs ys zs : List ℕ) → (xs ++ ys) ++ zs ≡ xs ++ (ys ++ zs)
append_assoc [] ys zs = refl
append_assoc (x ∷ xs) ys zs = ap (◌∷◌ x) (append_assoc xs ys zs)

pub read_full-append : (xs rest : List ℕ) → read_full (length xs) (xs ++ rest) ≡ (ok xs, rest)
unfolding read_full
read_full-append [] rest = refl
read_full-append (x ∷ xs) rest =
    ground (arith, length-append xs rest, take-append xs rest, drop-append xs rest)

-- Fewer bytes than are asked for are an error.
pub read_full-short :
    (k : ℕ) (s : List ℕ) → length s < k → (e : Error) × (read_full k s ≡ (err e, []))
unfolding read_full
read_full-short k [] h = (Error.end_of_stream, ground (arith, h))
read_full-short k (x ∷ xs) h = (Error.unexpected_eof, ground (arith, h))

-- The length in front of a payload that fits.
module _ (payload : List ℕ) (fits : length payload ≤ max_envelope_bytes) where
  pub announced : get_uint32 (put_uint32 (length payload % 2 ^ 32)) ≡ length payload
  announced = get_uint32-put_uint32 (length payload % 2 ^ 32) (omega arith) ∙ omega (arith, fits)

  pub announced_fits :
      leb (get_uint32 (put_uint32 (length payload % 2 ^ 32))) max_envelope_bytes ≡ true
  announced_fits = ap (λ k. leb k max_envelope_bytes) announced ∙ ground (arith, fits)

module _ {E : Type 0} (codec : Codec E) where
  pub read_envelope-frame :
      (e : E) (payload rest : List ℕ)
      → codec.unmarshal payload ≡ some e
      → length payload ≤ max_envelope_bytes
      → read_envelope codec (frame payload ++ rest) ≡ (ok e, rest)
  unfolding read_envelope put_uint32 guard or_err
  read_envelope-frame e payload rest decoded fits =
      and_then-ok (read_full 4) _ (header ++ payload ++ rest)
        (read_full-append header (payload ++ rest))
      ∙ and_then-ok
          (reads (λ s. guard (leb (get_uint32 header) max_envelope_bytes) Error.envelope_too_large))
          _ (payload ++ rest)
          (ap (λ b. (guard b Error.envelope_too_large, payload ++ rest))
            (announced_fits payload fits))
      ∙ and_then-ok (read_full (get_uint32 header)) _ (payload ++ rest) (
          ap (λ k. read_full k (payload ++ rest)) (announced payload fits)
          ∙ read_full-append payload rest)
      ∙ ap (λ o. (or_err o Error.bad_envelope, rest)) decoded
    where
      header : List ℕ
      header = put_uint32 (length payload % 2 ^ 32)

  -- What a successful write did.
  pub write_envelope-frame :
      (e : E) (s : List ℕ)
      → (write_envelope codec e s).0 ≡ ok tt
      → (payload : List ℕ) × (codec.marshal e ≡ some payload)
        × (length payload ≤ max_envelope_bytes)
        × (write_envelope codec e s ≡ (ok tt, s ++ frame payload))
  unfolding write_envelope guard or_err
  write_envelope-frame e s h = go (codec.marshal e) refl
    where
      Wrote : Type 0
      Wrote =
          (payload : List ℕ) × (codec.marshal e ≡ some payload)
          × (length payload ≤ max_envelope_bytes)
          × (write_envelope codec e s ≡ (ok tt, s ++ frame payload))

      checked : List ℕ → Exec (List ℕ) (Unit {0})
      checked p =
          and_then (reads (λ s. guard (leb (length p) max_envelope_bytes) Error.envelope_too_large))
            (λ u. and_then (send codec (put_uint32 (length p % 2 ^ 32))) (λ v. send codec p))

      marshalled : (p : List ℕ) → codec.marshal e ≡ some p → write_envelope codec e s ≡ checked p s
      marshalled p m =
          and_then-ok (reads (λ s. or_err (codec.marshal e) Error.bad_envelope)) checked s
            (ap (λ o. (or_err o Error.bad_envelope, s)) m)

      passed :
          (p : List ℕ) (b : Bool)
          → leb (length p) max_envelope_bytes ≡ b
          → checked p s ≡ (
              if b
              then (ok tt, (s ++ put_uint32 (length p % 2 ^ 32)) ++ p)
              else (err Error.envelope_too_large, s))
      passed p true h =
          and_then-ok
            (reads (λ s. guard (leb (length p) max_envelope_bytes) Error.envelope_too_large)) _ s
            (ap (λ b. (guard b Error.envelope_too_large, s)) h)
      passed p false h =
          and_then-err
            (reads (λ s. guard (leb (length p) max_envelope_bytes) Error.envelope_too_large)) _ s
            (ap (λ b. (guard b Error.envelope_too_large, s)) h)

      failed : {why : Error} → write_envelope codec e s ≡ (err why, s) → Wrote
      failed no_write = absurd (cc (h, ap (λ (r : Result (Unit {0}) × List ℕ). r.0) no_write))

      sized :
          (p : List ℕ)
          → codec.marshal e ≡ some p
          → (b : Bool) → leb (length p) max_envelope_bytes ≡ b
          → Wrote
      sized p m true b = (
        p,
        m,
        ground (arith, b),
        marshalled p m ∙ passed p true b ∙ ap (λ t. (ok tt, t)) (append_assoc s _ p),
      )
      sized p m false b = failed (marshalled p m ∙ passed p false b)

      go : (o : Option (List ℕ)) → codec.marshal e ≡ o → Wrote
      go none m = failed (
          and_then-err (reads (λ s. or_err (codec.marshal e) Error.bad_envelope)) _ s
            (ap (λ o. (or_err o Error.bad_envelope, s)) m))
      go (some p) m = sized p m (leb (length p) max_envelope_bytes) refl
