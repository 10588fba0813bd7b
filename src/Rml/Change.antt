-- ===== src/Rml/Change.antt =====
-- firmware_core/rml/rml.c: changes to a text.
use mathlib.Core.List.{append-nil}
use rivr.Common.{ℕ, refl, sym, ap, inl, inr, some, List, [], arith, Option-cases, length}
use rivr.Common.{take, replicate, length-append, length-take, length-replicate}
use rivr.Common.{take-append, take_all, IsU8, IsU16, IsU32, ◌+◌, ◌-◌, ◌*◌, ◌/◌}
use rivr.Common.{◌%◌, ◌≤◌, ◌≡◌, ◌∙◌, ◌∷◌, ◌++◌}
use rivr.Rml.{Message, Stats, put_u16, padded, encode, decode}
use rivr.Rml.Wire.{IsMessage, rml_decode-encode}
unfoldable use rivr.Rml.Wire.{received}
use rivr.Rml.Payload.{Delta}
use rivr.Rml.Payload.{blank, type_delta}
unfoldable use rivr.Rml.Payload.{delta_payload_encode, delta_payload_decode, make_delta}

-- Every field fits its C type, and the array has its size.
pub record IsDelta (e : Delta) : Type 0 where
  pub op_fits : IsU8 e.op
  pub offset_fits : IsU16 e.offset
  pub delete_len_fits : IsU16 e.delete_len
  pub full : length e.bytes ≡ 160

-- The change that the receiver sees.
abbrev pub read_delta : Delta → Delta
read_delta e = record e { bytes = padded e.data_len e.bytes }

-- `rml_delta_payload_decode` reads back what `rml_delta_payload_encode` wrote for a change whose
-- fields fit their types and whose array has 160 bytes: its fields, and its text with zeros behind
-- it, whatever follows.
pub decode-delta_payload_encode :
    (e : Delta) (rest : List ℕ) (cap : ℕ) {bytes : List ℕ}
    → IsDelta e
    → delta_payload_encode e cap ≡ some bytes
    → delta_payload_decode (bytes ++ rest) ≡ some (read_delta e)
unfolding delta_payload_encode delta_payload_decode
decode-delta_payload_encode e rest cap {bytes} v h =
    let small : e.data_len ≤ 160 = ground (arith, h) in
    let text : List ℕ = take e.data_len e.bytes in
    let len : length text ≡ e.data_len = omega (arith, length-take e.data_len e.bytes, v.full) in
    let same : bytes ≡ e.op ∷ put_u16 e.offset (put_u16 e.delete_len (put_u16 e.data_len text)) =
      ground (arith, h) in
    let place : take e.data_len (text ++ rest) ≡ text =
      ap (λ n. take n (text ++ rest)) (sym len) ∙ take-append text rest in
    let words : e.data_len % 256 + e.data_len / 256 * 256 ≡ e.data_len = omega arith in
    rw same (rw words (ground (arith, place, length-append text rest)))

take-padded : (n : ℕ) (xs : List ℕ) → n ≤ length xs → take n (padded n xs) ≡ take n xs
take-padded n xs h =
    let len : length (take n xs) ≡ n = omega (arith, length-take n xs) in
    ap (λ k. take k (padded n xs)) (sym len) ∙ take-append (take n xs) (replicate (160 - n) 0)

length-padded : (n : ℕ) (xs : List ℕ) → n ≤ length xs → n ≤ 160 → length (padded n xs) ≡ 160
length-padded n xs h h' = omega (
  arith,
  length-append (take n xs) (replicate (160 - n) 0),
  length-take n xs,
  length-replicate {A = ℕ} (160 - n) 0,
)

-- The payload of a received message is the one that was sent.
received-payload :
    (m : Message) (bytes : List ℕ)
    → m.payload_len ≡ length bytes
    → m.payload ≡ padded (length bytes) bytes
    → length bytes ≤ 160
    → take m.payload_len (received m).payload ≡ bytes
unfolding received
received-payload m bytes en ep h =
    let n : ℕ = length bytes in
    let full = length-padded n bytes (omega arith) h in
    rw (en, ep)
      (take-padded n (padded n bytes) (omega (arith, full))
        ∙ take-padded n bytes (omega arith)
        ∙ take_all bytes)

-- What `rml_make_delta` makes of an encoded change.
abbrev delta_message : ℕ → ℕ → ℕ → ℕ → ℕ → List ℕ → Message
delta_message sender target thread msg_id prev_id bytes =
    record (blank type_delta thread sender target) {
      msg_id = msg_id;
      prev_id = prev_id;
      intent = 1;
      priority = 3;
      ttl = 8;
      reliability = 3;
      payload_len = length bytes;
      payload = padded (length bytes) bytes;
    }

delta-IsMessage :
    (sender target thread msg_id prev_id : ℕ) (bytes : List ℕ)
    → IsU16 sender
    → IsU16 target
    → IsU32 thread
    → IsU32 msg_id
    → IsU32 prev_id
    → length bytes ≤ 160
    → IsMessage (delta_message sender target thread msg_id prev_id bytes)
delta-IsMessage sender target thread msg_id prev_id bytes hs ht hth hm hp h = record {
  kind_fits = omega arith;
  flags_fits = omega arith;
  msg_id_fits = hm;
  thread_id_fits = hth;
  prev_id_fits = hp;
  sender_id_fits = hs;
  target_id_fits = ht;
  intent_fits = omega arith;
  priority_fits = omega arith;
  ttl_fits = omega arith;
  reliability_fits = omega arith;
  expires_s_fits = omega arith;
  payload_full = length-padded (length bytes) bytes (omega arith) h;
}

length-delta_payload_encode :
    (e : Delta) (bytes : List ℕ)
    → IsDelta e
    → delta_payload_encode e 160 ≡ some bytes
    → length bytes ≤ 160
unfolding delta_payload_encode
length-delta_payload_encode e bytes v h = ground (arith, h, length-take e.data_len e.bytes)

-- A change that `rml_make_delta` put into a message, sent by `rml_encode` and received by
-- `rml_decode`, is taken apart by `rml_delta_payload_decode` to the same change, its text with zeros
-- behind it. The fields and ids fit their types and the array of the change has 160 bytes.
pub delta-travels :
    (st st' : Stats) (sender target thread msg_id prev_id cap : ℕ) (e : Delta) {m : Message}
    {frame : List ℕ}
    → IsDelta e
    → IsU16 sender
    → IsU16 target
    → IsU32 thread
    → IsU32 msg_id
    → IsU32 prev_id
    → make_delta sender target thread msg_id prev_id e ≡ some m
    → encode st m cap ≡ (st', some frame)
    → (m' : Message) × (decode st' frame ≡ (st, some m'))
      × (delta_payload_decode (take m'.payload_len m'.payload) ≡ some (read_delta e))
unfolding make_delta received
delta-travels st st' sender target thread msg_id prev_id cap e {m} {frame} v hs ht hth hm hp made
      enc =
    elim (Option-cases (delta_payload_encode e 160)) [
      | inl gone ↦ absurd (ground (arith, made, gone))
      | inr (bytes, there) ↦
          let m1 : Message = delta_message sender target thread msg_id prev_id bytes in
          let small = length-delta_payload_encode e bytes v there in
          let same : m ≡ m1 = ground (arith, made, there) in
          let enc1 : encode st m1 cap ≡ (st', some frame) =
            ap (λ x. encode st x cap) (sym same) ∙ enc in
          let fits : IsMessage m1 =
            delta-IsMessage sender target thread msg_id prev_id bytes hs ht hth hm hp small in
          let text = received-payload m1 bytes refl refl small in
          (
            received m1,
            rw append-nil at (rml_decode-encode st st' m1 [] cap fits enc1),
            ap delta_payload_decode (text ∙ sym (append-nil bytes))
                ∙ decode-delta_payload_encode e [] 160 v there,
          )
    ]
