-- ===== src/Rml/Exchange.antt =====
-- firmware_core/rml/rml.c: requests for a lost message.
use mathlib.Core.List.{append-nil}
use rivr.Common.{ℕ, bit_xor, refl, inl, inr, some, List, [], arith, Bool-cases}
use rivr.Common.{bit_xor-lt, IsU16, IsU32, u32, ◌*◌, ◌^◌, ◌<◌, ◌≡◌, ◌==◌}
use rivr.Rml.{Message, Stats, encode, decode}
use rivr.Rml.Wire.{IsMessage, rml_decode-encode}
unfoldable use rivr.Rml.Wire.{received}
use rivr.Rml.Payload.{Repair}
unfoldable use rivr.Rml.Payload.{make_repair_request, repair_request_decode}

pub record IsRepair (r : Repair) : Type 0 where
  pub missing_fits : IsU32 r.missing_msg_id
  pub thread_fits : IsU32 r.thread_id
  pub sender_fits : IsU16 r.sender_id

repair_request_decode-received :
    (sender target : ℕ) (r : Repair)
    → IsRepair r
    → repair_request_decode (received (make_repair_request sender target r)) ≡ some r
unfolding repair_request_decode received make_repair_request
repair_request_decode-received sender target r v = ground arith

request-IsMessage :
    (sender target : ℕ) (r : Repair)
    → IsRepair r
    → IsU16 sender
    → IsU16 target
    → IsMessage (make_repair_request sender target r)
unfolding make_repair_request
request-IsMessage sender target r v hs ht =
    let two = bit_xor-lt 32 r.missing_msg_id r.thread_id v.missing_fits v.thread_fits in
    let high : u32 (sender * 65536) < 2 ^ 32 = omega arith in
    let id : ℕ = bit_xor (bit_xor r.missing_msg_id r.thread_id) (u32 (sender * 65536)) in
    let small : id < 4294967296 =
      bit_xor-lt 32 (bit_xor r.missing_msg_id r.thread_id) (u32 (sender * 65536)) two high in
    record {
      kind_fits = omega arith;
      flags_fits = omega arith;
      msg_id_fits = elim (Bool-cases (id == 0)) [ inl z ↦ rw z (omega arith) | inr z ↦ rw z small ];
      thread_id_fits = v.thread_fits;
      prev_id_fits = v.missing_fits;
      sender_id_fits = hs;
      target_id_fits = ht;
      intent_fits = omega arith;
      priority_fits = omega arith;
      ttl_fits = omega arith;
      reliability_fits = omega arith;
      expires_s_fits = omega arith;
      payload_full = refl;
    }

-- A request for a lost message that `rml_make_repair_request` made, sent by `rml_encode` and received
-- by `rml_decode`, is taken apart by `rml_repair_request_decode` to the same ids. The ids and the
-- addresses fit their types.
pub repair_request-travels :
    (st st' : Stats) (sender target cap : ℕ) (r : Repair) {frame : List ℕ}
    → IsRepair r
    → IsU16 sender
    → IsU16 target
    → encode st (make_repair_request sender target r) cap ≡ (st', some frame)
    → (m : Message) × (decode st' frame ≡ (st, some m)) × (repair_request_decode m ≡ some r)
repair_request-travels st st' sender target cap r {frame} v hs ht e =
    let m = make_repair_request sender target r in
    (
      received m,
      rw append-nil at
          (rml_decode-encode st st' m [] cap (request-IsMessage sender target r v hs ht) e),
      repair_request_decode-received sender target r v,
    )
