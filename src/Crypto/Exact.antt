-- ===== src/Crypto/Exact.antt =====
-- Reading signed objects of crates/weaver-crypto/src/lib.rs: the payload that the checks inspect is
-- the one that the signed bytes encode, and nothing of the input is lost.
use weaver.Crypto.Admin
use weaver.Crypto.Member
use weaver.Crypto.Endpoint
use weaver.Crypto.Join
use weaver.Crypto.App
use weaver.Crypto.{append_signature, signature_len}
use weaver.Prelude.{Bytes, ◌≡◌, length, ◌+◌, take, take-append-drop}
use weaver.Crypto.Admin.{AdminCertificate}
use weaver.Crypto.Member.{MemberCertificate}
use weaver.Crypto.Endpoint.{EndpointBinding}
use weaver.Crypto.Join.{JoinRequest}
use weaver.Crypto.App.{AppRegistration}
use weaver.Prelude.Results.{ok, >>=-eq-ok, ok-injective}
use weaver.Crypto.Admin.Codec.{decode_admin_payload, admin_payload_len}
use weaver.Crypto.Member.Codec.{decode_member_payload, member_payload_len}
use weaver.Crypto.Endpoint.Codec.{decode_endpoint_payload, endpoint_payload_len}
use weaver.Crypto.Join.Codec.{decode_join_request_payload, join_request_payload_len}
use weaver.Crypto.App.Codec.{decode_app_registration_payload, app_reg_payload_len}
use weaver.Crypto.Laws.{guard_length}

-- A byte string that reads as an administrator's certificate is that object's bytes; it is
-- admin_payload_len + 64 bytes long, and the payload of the object is what its signed bytes decode to.
pub to_bytes-from_bytes_admin :
    (bytes : Bytes) (self : AdminCertificate)
    → Admin.from_bytes bytes ≡ ok self
    → (Admin.to_bytes self ≡ bytes)
      × (decode_admin_payload self.signed_payload ≡ ok self.payload)
      × (length bytes ≡ admin_payload_len + 64)
unfolding Admin.from_bytes Admin.to_bytes append_signature
to_bytes-from_bytes_admin bytes self h =
    let (l, h) = guard_length _ (length bytes) (admin_payload_len + signature_len) _ h in
    let (p, d, h) = >>=-eq-ok (decode_admin_payload (take admin_payload_len bytes)) _ h in
    let e = ok-injective h in (rw (← e) (take-append-drop admin_payload_len bytes), rw (← e) d, l)

-- A byte string that reads as a member's certificate is that object's bytes; it is
-- member_payload_len + 64 bytes long, and the payload of the object is what its signed bytes decode to.
pub to_bytes-from_bytes_member :
    (bytes : Bytes) (self : MemberCertificate)
    → Member.from_bytes bytes ≡ ok self
    → (Member.to_bytes self ≡ bytes)
      × (decode_member_payload self.signed_payload ≡ ok self.payload)
      × (length bytes ≡ member_payload_len + 64)
unfolding Member.from_bytes Member.to_bytes append_signature
to_bytes-from_bytes_member bytes self h =
    let (l, h) = guard_length _ (length bytes) (member_payload_len + signature_len) _ h in
    let (p, d, h) = >>=-eq-ok (decode_member_payload (take member_payload_len bytes)) _ h in
    let e = ok-injective h in (rw (← e) (take-append-drop member_payload_len bytes), rw (← e) d, l)

-- A byte string that reads as an endpoint binding is that object's bytes; it is
-- endpoint_payload_len + 64 bytes long, and the payload of the object is what its signed bytes decode to.
pub to_bytes-from_bytes_endpoint :
    (bytes : Bytes) (self : EndpointBinding)
    → Endpoint.from_bytes bytes ≡ ok self
    → (Endpoint.to_bytes self ≡ bytes)
      × (decode_endpoint_payload self.signed_payload ≡ ok self.payload)
      × (length bytes ≡ endpoint_payload_len + 64)
unfolding Endpoint.from_bytes Endpoint.to_bytes append_signature
to_bytes-from_bytes_endpoint bytes self h =
    let (l, h) = guard_length _ (length bytes) (endpoint_payload_len + signature_len) _ h in
    let (p, d, h) = >>=-eq-ok (decode_endpoint_payload (take endpoint_payload_len bytes)) _ h in
    let e = ok-injective h in
    (rw (← e) (take-append-drop endpoint_payload_len bytes), rw (← e) d, l)

-- A byte string that reads as a join request is that object's bytes; it is
-- join_request_payload_len + 64 bytes long, and the payload of the object is what its signed bytes decode to.
pub to_bytes-from_bytes_join :
    (bytes : Bytes) (self : JoinRequest)
    → Join.from_bytes bytes ≡ ok self
    → (Join.to_bytes self ≡ bytes)
      × (decode_join_request_payload self.signed_payload ≡ ok self.payload)
      × (length bytes ≡ join_request_payload_len + 64)
unfolding Join.from_bytes Join.to_bytes append_signature
to_bytes-from_bytes_join bytes self h =
    let (l, h) = guard_length _ (length bytes) (join_request_payload_len + signature_len) _ h in
    let (p, d, h) =
      >>=-eq-ok (decode_join_request_payload (take join_request_payload_len bytes)) _ h in
    let e = ok-injective h in
    (rw (← e) (take-append-drop join_request_payload_len bytes), rw (← e) d, l)

-- A byte string that reads as an application registration is that object's bytes; it is
-- app_reg_payload_len + 64 bytes long, and the payload of the object is what its signed bytes decode to.
pub to_bytes-from_bytes_app :
    (bytes : Bytes) (self : AppRegistration)
    → App.from_bytes bytes ≡ ok self
    → (App.to_bytes self ≡ bytes)
      × (decode_app_registration_payload self.signed_payload ≡ ok self.payload)
      × (length bytes ≡ app_reg_payload_len + 64)
unfolding App.from_bytes App.to_bytes append_signature
to_bytes-from_bytes_app bytes self h =
    let (l, h) = guard_length _ (length bytes) (app_reg_payload_len + signature_len) _ h in
    let (p, d, h) =
      >>=-eq-ok (decode_app_registration_payload (take app_reg_payload_len bytes)) _ h in
    let e = ok-injective h in (rw (← e) (take-append-drop app_reg_payload_len bytes), rw (← e) d, l)
