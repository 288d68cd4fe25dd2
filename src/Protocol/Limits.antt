-- ===== src/Protocol/Limits.antt =====
-- internal/protocol/codec.go: frames that are too long or break off.
use mathlib.Core.Path.{subst}
use meshserver.Base.{
  ℕ, suc, ◌+◌, ◌^◌, ◌%◌, ◌≤◌, ◌<◌, ◌≡◌, ap, ◌∙◌, false, List, [], ◌++◌, length, take, length-take,
  ltb→lt, Bool-cases, inl, inr, ◌-◌, arith, ltb, leb,
}
use meshserver.Base.Errors.{Error}
use meshserver.Base.Exec.{err, guard, reads, and_then-ok, and_then-err}
use meshserver.Protocol.{
  Codec, max_envelope_bytes, put_uint32, get_uint32, read_full, read_envelope,
}
use meshserver.Protocol.Frames.{
  frame, get_uint32-put_uint32, read_full-append, read_full-short, announced, announced_fits,
}

-- A length above 8 MiB is refused before any of its bytes is read.
pub read_envelope-refuses :
    {E : Type 0} (codec : Codec E) (n : ℕ) (rest : List ℕ)
    → max_envelope_bytes < n
    → n < 2 ^ 32
    → read_envelope codec (put_uint32 n ++ rest) ≡ (err Error.envelope_too_large, rest)
unfolding read_envelope put_uint32 guard
read_envelope-refuses codec n rest large bound =
    and_then-ok (read_full 4) _ (put_uint32 n ++ rest) (read_full-append (put_uint32 n) rest)
    ∙ and_then-err
        (reads (λ s.
          guard (leb (get_uint32 (put_uint32 n)) max_envelope_bytes) Error.envelope_too_large))
        _ rest (ap (λ b. (guard b Error.envelope_too_large, rest)) refused)
  where
    refused : leb (get_uint32 (put_uint32 n)) max_envelope_bytes ≡ false
    refused =
        ap (λ k. leb k max_envelope_bytes) (get_uint32-put_uint32 n bound) ∙ ground (arith, large)

module _ {E : Type 0} (codec : Codec E) (payload : List ℕ) where
  cut_in_header :
      (k : ℕ) → k < 4 → (e : Error) × (read_envelope codec (take k (frame payload)) ≡ (err e, []))
  unfolding read_envelope
  cut_in_header k h =
      early (
        read_full-short 4 (take k (frame payload))
          (omega (arith, length-take k (frame payload), h)))
    where
      early :
          (e : Error) × (read_full 4 (take k (frame payload)) ≡ (err e, []))
          → (e : Error) × (read_envelope codec (take k (frame payload)) ≡ (err e, []))
      early (e, short) = (e, and_then-err (read_full 4) _ (take k (frame payload)) short)

  cut_in_payload :
      (j : ℕ)
      → length payload ≤ max_envelope_bytes
      → j < length payload
      → (e : Error) × (read_envelope codec (take (suc (suc (suc (suc j)))) (frame payload))
          ≡ (err e, []))
  unfolding read_envelope put_uint32 guard
  cut_in_payload j fits h = late (
      read_full-short (get_uint32 header) (take j payload)
        (omega (arith, length-take j payload, announced payload fits, h)))
    where
      header : List ℕ
      header = put_uint32 (length payload % 2 ^ 32)

      late :
          (e : Error) × (read_full (get_uint32 header) (take j payload) ≡ (err e, []))
          → (e : Error) × (read_envelope codec (header ++ take j payload) ≡ (err e, []))
      late (e, short) = (
        e,
        and_then-ok (read_full 4) _ (header ++ take j payload)
              (read_full-append header (take j payload))
            ∙ and_then-ok
                (reads (λ s.
                  guard (leb (get_uint32 header) max_envelope_bytes) Error.envelope_too_large))
                _ (take j payload)
                (ap (λ b. (guard b Error.envelope_too_large, take j payload))
                  (announced_fits payload fits))
            ∙ and_then-err (read_full (get_uint32 header)) _ (take j payload) short,
      )

-- A frame that breaks off anywhere is an error, never an envelope of fewer bytes.
pub read_envelope-cut :
    {E : Type 0} (codec : Codec E) (payload : List ℕ) (k : ℕ)
    → length payload ≤ max_envelope_bytes
    → k < 4 + length payload
    → (e : Error) × (read_envelope codec (take k (frame payload)) ≡ (err e, []))
read_envelope-cut codec payload k fits h = elim (Bool-cases (ltb k 4)) [
  | inl few ↦ cut_in_header codec payload k (ltb→lt k 4 few)
  | inr more ↦
      subst (λ (i : ℕ). (e : Error) × (read_envelope codec (take i (frame payload)) ≡ (err e, [])))
        {x = suc (suc (suc (suc (k - 4))))} (ground (arith, more))
        (cut_in_payload codec payload (k - 4) fits (ground (arith, more, h)))
]
