-- ===== src/Tests/Joining.antt =====
-- A candidate's prepared join request, sent and checked.
use weaver.Crypto.Join
use weaver.Crypto.Member
use weaver.Crypto.Endpoint
use weaver.Crypto.Join.Prepared
use weaver.Prelude.{Bytes, ◌≡◌, ◌↔◌, ◌∷◌, [], arith, refl}
use weaver.Crypto.Join.Prepared.{PreparedJoinRequest}
use weaver.Crypto.Join.{has_zero_key, VerifiedJoinRequest}
use weaver.Tests.Toy.{toy, network, fit, member, toy-IsSound, root}
use weaver.Prelude.Results.{ok}
use weaver.Crypto.Laws.{length-root_network}
use weaver.Tests.Issuing.{by_root}
use weaver.Crypto.Join.Candidate

abbrev endpoint : Bytes
endpoint = fit 32 (5 ∷ [])

abbrev nonce : Bytes
nonce = fit 32 (6 ∷ [])

abbrev pub sent : PreparedJoinRequest
sent = Candidate.prepared network member (fit 32 (9 ∷ [])) endpoint nonce 1 200

sent_created : Candidate.create network member (fit 32 (9 ∷ [])) endpoint nonce 1 200 ≡ ok sent
unfolding Candidate.create Candidate.prepared Join.create Endpoint.issue_for_join has_zero_key
sent_created = refl

verify-create_example :
    (Prepared.from_bytes (Prepared.to_bytes sent) ≡ ok sent)
    × (Candidate.verify sent network 150 ≡ ok (record { payload = sent.request.payload }))
verify-create_example =
    Candidate.verify-create network member (fit 32 (9 ∷ [])) endpoint nonce 1 200 toy-IsSound
      (length-root_network toy-IsSound root) refl refl refl (omega arith) (omega arith) 150
      (omega arith) sent_created

verify_join_iff_example :
    (Join.verify sent.request network 150 ≡ ok (record { payload = sent.request.payload })) ↔ (
      Join.Verify.IsAuthentic sent.request network 150
      × (◌≡◌ {A = VerifiedJoinRequest}
          (record { payload = sent.request.payload })
          (record { payload = sent.request.payload })))
verify_join_iff_example =
    Join.Verify.verify_join_iff sent.request network 150 (record { payload = sent.request.payload })

verify_for_join_iff_example :
    (Endpoint.verify_for_join sent.endpoint_binding
        (record { payload = sent.request.payload })
        network
        150
      ≡ ok tt)
    ↔ Endpoint.Verify.IsJoinBound sent.endpoint_binding
        (record { payload = sent.request.payload })
        network
        150
verify_for_join_iff_example =
    Endpoint.Verify.verify_for_join_iff sent.endpoint_binding
      (record { payload = sent.request.payload }) network 150

verify-IsBound_iff_example :
    (Endpoint.verify sent.endpoint_binding (Member.Verify.verified by_root) network endpoint 150
      ≡ ok tt)
    ↔ Endpoint.Verify.IsBound sent.endpoint_binding
        (Member.Verify.verified by_root)
        network
        endpoint
        150
verify-IsBound_iff_example =
    Endpoint.Verify.verify-IsBound_iff sent.endpoint_binding (Member.Verify.verified by_root)
      network endpoint 150
