-- ===== src/Rml/Thread.antt =====
-- firmware_core/rml/rml_policy.c: the cache of texts, and changes to a text. The text arrays have
-- 160 bytes.
use mathlib.Core.List.{map}
use rivr.Common.{ℕ, Bool, true, false, not, Option, none, some, List, [], ltb, leb, set}
use rivr.Common.{take, drop, replicate, u16, u32, ◌+◌, ◌-◌, ◌*◌, ◌%◌, ◌&&◌, ◌||◌, ◌∷◌}
use rivr.Common.{◌++◌, ◌==◌, if◌then◌else◌}
use rivr.Rml.{Message, max_payload, padded}
use rivr.Rml.Payload.{Delta}

-- RML_THREAD_CACHE_SIZE, RML_THREAD_TEXT_MAX, `rml_delta_op_t`
abbrev pub cache_size : ℕ
cache_size = 16

abbrev pub text_max : ℕ
text_max = 160

abbrev pub delta_append : ℕ
delta_append = 1

abbrev pub delta_replace : ℕ
delta_replace = 2

abbrev pub delta_delete_range : ℕ
delta_delete_range = 3

-- `rml_thread_entry_t`
pub record Entry : Type 0 where
  pub used : Bool
  pub sender_id : ℕ
  pub thread_id : ℕ
  pub msg_id : ℕ
  pub prev_id : ℕ
  pub timestamp_ms : ℕ
  pub soft_expire_ms : ℕ
  pub payload_len : ℕ
  pub payload : List ℕ

-- `rml_thread_cache_t`
pub record Cache : Type 0 where
  pub entries : List Entry
  pub next_slot : ℕ

abbrev pub empty : Entry
empty = record {
  used = false;
  sender_id = 0;
  thread_id = 0;
  msg_id = 0;
  prev_id = 0;
  timestamp_ms = 0;
  soft_expire_ms = 0;
  payload_len = 0;
  payload = replicate text_max 0;
}

-- `rml_thread_cache_reset`
abbrev pub zero_cache : Cache
zero_cache = record { entries = replicate cache_size empty; next_slot = 0 }

-- The body of the loop of `rml_thread_expire`.
abbrev pub expire_entry : ℕ → Entry → Entry
expire_entry now_ms e =
    if e.used && (not (e.soft_expire_ms == 0) && leb e.soft_expire_ms now_ms) then empty else e

-- `rml_thread_expire`
unfoldable pub expire : Cache → ℕ → Cache
expire c now_ms =
    if now_ms == 0 then c else record c { entries = map (expire_entry now_ms) c.entries }

abbrev pub in_thread : Entry → ℕ → ℕ → Bool
in_thread e sender_id thread_id = e.used && (e.sender_id == sender_id && e.thread_id == thread_id)

-- The loop of `rml_thread_cache_get`, with the best entry so far.
unfoldable pub get_from : List Entry → ℕ → ℕ → Option Entry → Option Entry
get_from [] sender_id thread_id best = best
get_from (e ∷ es) sender_id thread_id best =
    let later : Bool = elim best [ none ↦ true | some b ↦ leb b.timestamp_ms e.timestamp_ms ] in
    get_from es sender_id thread_id
      (if in_thread e sender_id thread_id && later then some e else best)

-- `rml_thread_cache_get`
unfoldable pub get : Cache → ℕ → ℕ → Option Entry
get c sender_id thread_id = get_from c.entries sender_id thread_id none

-- The loop of `rml_thread_find_msg`: the index of the entry.
unfoldable pub find_from : List Entry → ℕ → ℕ → ℕ → ℕ → Option ℕ
find_from [] sender_id thread_id msg_id i = none
find_from (e ∷ es) sender_id thread_id msg_id i =
    let rest = find_from es sender_id thread_id msg_id (i + 1) in
    if in_thread e sender_id thread_id && e.msg_id == msg_id then some i else rest

-- `rml_thread_find_msg`
unfoldable pub find_msg : Cache → ℕ → ℕ → ℕ → Option ℕ
find_msg c sender_id thread_id msg_id = find_from c.entries sender_id thread_id msg_id 0

-- What `rml_thread_store` writes into its entry.
abbrev pub stored : Message → List ℕ → ℕ → ℕ → Entry
stored msg payload payload_len now_ms = record {
  used = true;
  sender_id = msg.sender_id;
  thread_id = msg.thread_id;
  msg_id = msg.msg_id;
  prev_id = msg.prev_id;
  timestamp_ms = now_ms;
  soft_expire_ms = if msg.soft_ttl_s == 0 then 0 else u32 (now_ms + u32 (msg.soft_ttl_s * 1000));
  payload_len = payload_len;
  payload = padded payload_len payload;
}

-- The loop over the entries that a message supersedes.
abbrev pub supersede : Message → List Entry → List Entry
supersede msg es =
    if msg.supersedes
    then map (λ e. if in_thread e msg.sender_id msg.thread_id then empty else e) es
    else es

-- `rml_thread_store`: the cache, if the text fits.
unfoldable pub store : Cache → Message → List ℕ → ℕ → ℕ → Option Cache
store c msg payload payload_len now_ms =
    let e = stored msg payload payload_len now_ms in
    if ltb text_max payload_len
    then none
    else elim (find_msg c msg.sender_id msg.thread_id msg.msg_id) [
      | some i ↦ some (record c { entries = set c.entries i e })
      | none ↦ some (record {
        entries = set (supersede msg c.entries) c.next_slot e;
        next_slot = u16 ((c.next_slot + 1) % cache_size);
      })
    ]

-- The text of an entry.
abbrev pub text : Entry → List ℕ
text e = take e.payload_len e.payload

-- `rml_apply_delta`: the bytes written to the front of `out`, if it returns true.
unfoldable pub apply_delta : Entry → Delta → Option (List ℕ)
apply_delta base delta =
    let tail_off = u16 (delta.offset + delta.delete_len) in
    let tail_len = u16 (base.payload_len - tail_off) in
    let front = take delta.offset base.payload in
    let back = take tail_len (drop tail_off base.payload) in
    let added = take delta.data_len delta.bytes in
    if ltb max_payload delta.data_len || ltb base.payload_len delta.offset
    then none
    else if delta.op == delta_append
    then (if ltb text_max (base.payload_len + delta.data_len)
        then none
        else some (text base ++ added))
    else if delta.op == delta_replace
    then (if ltb base.payload_len (delta.offset + delta.delete_len)
        then none
        else if ltb text_max (delta.offset + delta.data_len + tail_len)
        then none
        else some (front ++ (added ++ back)))
    else if delta.op == delta_delete_range
    then (if ltb base.payload_len (delta.offset + delta.delete_len) || not (delta.data_len == 0)
        then none
        else some (front ++ back))
    else none
