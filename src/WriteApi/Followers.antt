-- ===== src/WriteApi/Followers.antt =====
-- pkg/api/write.go: an instance that does not lead writes nothing and notices no request.
use timescale_prometheus.Election.{Election}
use timescale_prometheus.WriteApi.{
  Calls, Server, WriteRequest, Status, ok, ignored, is_writer, ingest_body, write_body, write,
  write_all,
}
use timescale_prometheus.Prelude.{
  ◌≡◌, refl, ap, ◌∙◌, true, false, none, some, List, [], ◌∷◌, arith, inl, inr, Option-cases,
}

-- Two servers that differ in nothing but the state of the election.
unfoldable pub IsUntouched : {S I : Type 0} → Server S I → Server S I → Type 0
IsUntouched s s' = (s'.inserter ≡ s.inserter) × (s'.last_request ≡ s.last_request)

module _ {S I E B T : Type 0} (api : Election S E) (calls : Calls B T I E) where
  -- The election says that the instance does not lead, now and after each question.
  pub record IsFollower (Follows : S → Type 0) : Type 0 where
    pub refused : (e : S) → Follows e → (api.is_leader e).0 ≡ false
    pub stays : (e : S) → Follows e → Follows (api.is_leader e).2

  write_follower :
      (s : Server S I) (e : S) (r : WriteRequest B)
      → s.election ≡ some e
      → (api.is_leader e).0 ≡ false
      → write api calls s r ≡ (ignored, record s { election = some (api.is_leader e).2 })
  unfolding write is_writer
  write_follower s e r at out = elim (Option-cases (api.is_leader e).1) [
    | inl f ↦ ground arith
    | inr (err, f) ↦ ground arith
  ]

  -- As long as the election refuses an instance, no request is ingested and the time of the last
  -- request stays as it was, however many requests arrive.
  pub write_all_follower :
      (Follows : S → Type 0)
      → IsFollower Follows
      → (s : Server S I) (e : S) (rs : List (WriteRequest B)) → s.election ≡ some e
      → Follows e
      → IsUntouched s (write_all api calls s rs)
  unfolding write_all IsUntouched
  write_all_follower Follows laws s e [] at h = (refl, refl)
  write_all_follower Follows laws s e (r ∷ rs) at h =
      let s1 = record s { election = some (api.is_leader e).2 } in
      let q = write_follower s e r at (laws.refused e h) in
      let (a, b) =
        write_all_follower Follows laws s1 (api.is_leader e).2 rs refl (laws.stays e h) in
      let step = ap (λ (x : Status × Server S I). write_all api calls x.1 rs) q in
      (
        ap (λ (x : Server S I). x.inserter) step ∙ a,
        ap (λ (x : Server S I). x.last_request) step ∙ b,
      )

  -- A request whose body can be read, to an instance that leads or has no election, sets the time
  -- of the last request; if it is answered ok, it was decompressed, parsed and ingested without an
  -- error.
  pub write_leader :
      (s : Server S I) (r : WriteRequest B) (body : B)
      → let (should_write, err, s') = is_writer api calls s in
        should_write ≡ true
        → err ≡ none
        → r.body ≡ some body
        → let (status, s'') = write api calls s r in
          (s''.last_request ≡ r.time)
          × (status ≡ ok
              → (text : B) × (series : T) × (calls.decode body ≡ some text)
                × (calls.unmarshal text ≡ some series)
                × (calls.ingest series s'.inserter ≡ (none, s''.inserter)))
  unfolding write write_body ingest_body
  write_leader s r body leads fine read = elim (Option-cases (calls.decode body)) [
    | inl e ↦ (ground arith, λ h. absurd (ground arith))
    | inr (text, e) ↦ elim (Option-cases (calls.unmarshal text)) [
      | inl f ↦ (ground arith, λ h. absurd (ground arith))
      | inr (series, f) ↦
          elim (Option-cases (calls.ingest series (is_writer api calls s).2.inserter).0) [
            | inl g ↦ (ground arith, λ h. (text, series, e, f, ground arith))
            | inr (err, g) ↦ (ground arith, λ h. absurd (ground arith))
          ]
    ]
  ]
