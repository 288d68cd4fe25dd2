-- ===== src/Protocol/Streams.antt =====
-- internal/protocol/codec.go: a stream of envelopes, written and read.
use meshserver.Base.{ℕ, zero, suc, ◌≤◌, ◌≡◌, refl, sym, ap, ◌∙◌, some, List, [], ◌∷◌, ◌++◌, length}
use meshserver.Base.Exec.{Result, ok, err, Exec, and_then, and_then-ok, continue}
use meshserver.Protocol.{Codec, max_envelope_bytes, read_envelope, write_envelope}
use meshserver.Protocol.Frames.{
  Decodes, frame, append-nil, append_assoc, read_envelope-frame, write_envelope-frame,
}

module _ {E : Type 0} (codec : Codec E) where
  -- A sender that writes one envelope after the other, and a receiver that reads as many.
  abbrev pub write_all : List E → Exec (List ℕ) (Unit {0})
  write_all [] s = (ok tt, s)
  write_all (e ∷ es) s = and_then (write_envelope codec e) (λ u. write_all es) s

  abbrev pub read_all : ℕ → Exec (List ℕ) (List E)
  read_all zero s = (ok [], s)
  read_all (suc n) s =
      and_then (read_envelope codec) (λ e. and_then (read_all n) (λ es t. (ok (e ∷ es), t))) s

  abbrev Sent : List E → List ℕ → Type 0
  Sent es s =
      (bytes : List ℕ) × (write_all es s ≡ (ok tt, s ++ bytes))
      × ((rest : List ℕ) → read_all (length es) (bytes ++ rest) ≡ (ok es, rest))

  sent-all : Decodes codec → (es : List E) (s : List ℕ) → (write_all es s).0 ≡ ok tt → Sent es s
  sent-all law [] s h = ([], ap (λ t. (ok tt, t)) (sym (append-nil s)), λ rest. refl)
  sent-all law (e ∷ es) s h =
      joined (λ p. sent-all law es (s ++ frame p))
        (write_envelope-frame codec e s (first (write_envelope codec e s) h))
    where
      first :
          (r : Result (Unit {0}) × List ℕ)
          → (continue (λ u. write_all es) r.0 r.1).0 ≡ ok tt
          → r.0 ≡ ok tt
      first (ok u, t) h = refl
      first (err x, t) h = cc

      added :
          (p : List ℕ)
          → codec.marshal e ≡ some p
          → length p ≤ max_envelope_bytes
          → write_all (e ∷ es) s ≡ write_all es (s ++ frame p)
          → Sent es (s ++ frame p)
          → Sent (e ∷ es) s
      added p m fits w (bytes, w', reads_back) = (
        frame p ++ bytes,
        w ∙ w' ∙ ap (λ t. (ok tt, t)) (append_assoc s (frame p) bytes),
        λ rest.
            ap (read_all (suc (length es))) (append_assoc (frame p) bytes rest)
            ∙ and_then-ok (read_envelope codec)
                (λ x. and_then (read_all (length es)) (λ xs t. (ok (x ∷ xs), t)))
                (frame p ++ (bytes ++ rest))
                (read_envelope-frame codec e p (bytes ++ rest) (law e p m) fits)
            ∙ and_then-ok (read_all (length es)) (λ xs t. (ok (e ∷ xs), t)) (bytes ++ rest)
                (reads_back rest),
      )

      joined :
          ((p : List ℕ) → (write_all es (s ++ frame p)).0 ≡ ok tt → Sent es (s ++ frame p))
          → (payload : List ℕ) × (codec.marshal e ≡ some payload)
            × (length payload ≤ max_envelope_bytes)
            × (write_envelope codec e s ≡ (ok tt, s ++ frame payload))
          → Sent (e ∷ es) s
      joined later (p, m, fits, w) =
          added p m fits (and_then-ok (write_envelope codec e) (λ u. write_all es) s w) (
            later p (
              ap (λ (r : Result (Unit {0}) × List ℕ). r.0)
                (sym (and_then-ok (write_envelope codec e) (λ u. write_all es) s w))
              ∙ h))

-- If protobuf reads what it wrote, then whatever envelopes were written without an error come back in
-- their order, none more and none less, with nothing left on the stream.
pub read_all-write_all :
    {E : Type 0} (codec : Codec E) (es : List E)
    → Decodes codec
    → (write_all codec es []).0 ≡ ok tt
    → read_all codec (length es) (write_all codec es []).1 ≡ (ok es, [])
read_all-write_all codec es law h = received (sent-all codec law es [] h)
  where
    received : Sent codec es [] → read_all codec (length es) (write_all codec es []).1 ≡ (ok es, [])
    received (bytes, w, reads_back) =
        ap (λ (r : Result (Unit {0}) × List ℕ). read_all codec (length es) r.1) w
        ∙ ap (read_all codec (length es)) (sym (append-nil bytes))
        ∙ reads_back []
