-- ===== src/SendQueue/Expiry.antt =====
-- firmware_core/send_queue.c: the queue as a list of messages, oldest first, and what expiry leaves.
use rivr.Common.{ℕ, zero, suc, refl, sym, ap, inl, inr, true, List, [], arith, ltb, leb}
use rivr.Common.{Bool-cases, length, get_or, set, take, length-set, get_or-set_ne, inc32}
use rivr.Common.{sub32, ◌+◌, ◌-◌, ◌%◌, ◌≤◌, ◌<◌, ◌≡◌, ◌∙◌, ◌∷◌, ◌++◌, if◌then◌else◌}
use rivr.Metrics.{Metrics}
use rivr.SendQueue.{Entry, Queue, empty, entry_at, next, remove_head}
unfoldable use rivr.SendQueue.{expire_rounds, expire}

-- A message without the unused part of its array.
pub record Message : Type 0 where
  pub bytes : List ℕ
  pub len : ℕ
  pub toa_us : ℕ
  pub enqueued_ms : ℕ

abbrev pub message_of : Entry → Message
message_of e = record {
  bytes = take e.len e.frame;
  len = e.len;
  toa_us = e.toa_us;
  enqueued_ms = e.enqueued_ms;
}

-- The messages of `n` slots from `head` on, around the end of the array.
unfoldable pub messages : List Entry → ℕ → ℕ → List Message
messages es head zero = []
messages es head (suc n) = message_of (get_or es head empty) ∷ messages es ((head + 1) % 16) n

abbrev pub contents : Queue → List Message
contents sq = messages sq.entries sq.head sq.count

-- The slots from `head` on are taken.
unfoldable pub Taken : List Entry → ℕ → ℕ → Type 0
Taken es head zero = Unit
Taken es head (suc n) = ((get_or es head empty).valid ≡ true) × Taken es ((head + 1) % 16) n

pub record IsValid (sq : Queue) : Type 0 where
  pub size : length sq.entries ≡ 16
  pub head_in : sq.head < 16
  pub tail_in : sq.tail ≡ (sq.head + sq.count) % 16
  pub room : sq.count ≤ 16
  pub taken : Taken sq.entries sq.head sq.count

-- The messages from the first on that is at most two minutes old.
unfoldable pub drop_stale : ℕ → List Message → List Message
drop_stale now_ms [] = []
drop_stale now_ms (x ∷ xs) =
    let rest = drop_stale now_ms xs in
    if leb (sub32 now_ms x.enqueued_ms) 120000 then x ∷ xs else rest

-- A write outside the slots of the queue.
pub messages-set :
    (n : ℕ) (es : List Entry) (head i : ℕ) (v : Entry)
    → head < 16
    → i < 16
    → n ≤ (i + 16 - head) % 16
    → messages (set es i v) head n ≡ messages es head n
unfolding messages
messages-set zero es head i v h1 h2 h3 = refl
messages-set (suc n) es head i v h1 h2 h3 =
    rw
      (
        get_or-set_ne es i head v empty (λ e. absurd (omega arith)),
        messages-set n es ((head + 1) % 16) i v (omega arith) h2 (omega arith),
      )
      refl

pub Taken-set :
    (n : ℕ) (es : List Entry) (head i : ℕ) (v : Entry)
    → head < 16
    → i < 16
    → n ≤ (i + 16 - head) % 16
    → Taken es head n
    → Taken (set es i v) head n
unfolding Taken
Taken-set zero es head i v h1 h2 h3 t = t
Taken-set (suc n) es head i v h1 h2 h3 t = (
  ap (λ e. e.valid) (get_or-set_ne es i head v empty (λ e. absurd (omega arith))) ∙ t.0,
  Taken-set n es ((head + 1) % 16) i v (omega arith) h2 (omega arith) t.1,
)

-- A slot added at the end.
pub messages-snoc :
    (n : ℕ) (es : List Entry) (head : ℕ)
    → head < 16
    → messages es head (suc n)
      ≡ messages es head n ++ message_of (get_or es ((head + n) % 16) empty) ∷ []
unfolding messages
messages-snoc zero es head h = let e : (head + 0) % 16 ≡ head = omega arith in rw e refl
messages-snoc (suc n) es head h =
    let e : ((head + 1) % 16 + n) % 16 ≡ (head + suc n) % 16 = omega arith in
    rw (messages-snoc n es ((head + 1) % 16) (omega arith), e) refl

pub Taken-snoc :
    (n : ℕ) (es : List Entry) (head : ℕ)
    → head < 16
    → Taken es head n
    → (get_or es ((head + n) % 16) empty).valid ≡ true
    → Taken es head (suc n)
unfolding Taken
Taken-snoc zero es head h t last =
    let e : (head + 0) % 16 ≡ head = omega arith in
    (ap (λ i. (get_or es i empty).valid) (sym e) ∙ last, t)
Taken-snoc (suc n) es head h t last =
    let e : ((head + 1) % 16 + n) % 16 ≡ (head + suc n) % 16 = omega arith in
    (
      t.0,
      Taken-snoc n es ((head + 1) % 16) (omega arith) t.1
          (ap (λ i. (get_or es i empty).valid) e ∙ last),
    )

-- The head removed.
pub remove_head-IsValid :
    (sq : Queue) (n : ℕ)
    → IsValid sq
    → sq.count ≡ suc n
    → IsValid (remove_head sq)
      × (contents sq ≡ message_of (entry_at sq sq.head) ∷ contents (remove_head sq))
      × ((entry_at sq sq.head).valid ≡ true)
unfolding messages Taken
remove_head-IsValid sq n v h =
    let size = v.size in
    let head_in = v.head_in in
    let tail_in = v.tail_in in
    let room = v.room in
    let step : next sq.head ≡ (sq.head + 1) % 16 = omega arith in
    let less : sq.count - 1 ≡ n = omega arith in
    let apart : n ≤ (sq.head + 16 - (sq.head + 1) % 16) % 16 = omega arith in
    let t : Taken sq.entries sq.head (suc n) = rw h at v.taken in
    let same =
      messages-set n sq.entries ((sq.head + 1) % 16) sq.head empty (omega arith) head_in apart in
    (
      record {
        size = length-set sq.entries sq.head empty ∙ size;
        head_in = omega arith;
        tail_in = omega arith;
        room = omega arith;
        taken =
            rw (step, less)
              (Taken-set n sq.entries ((sq.head + 1) % 16) sq.head empty (omega arith) head_in apart
                t.1);
      },
      rw (less, h, step, same) refl,
      t.0,
    )

-- What a run of the expiry loop leaves: a valid queue of the messages from the first fresh one on.
expire_rounds-IsValid :
    (n : ℕ) (sq : Queue) (m : Metrics) (now_ms : ℕ)
    → IsValid sq
    → sq.count ≡ n
    → IsValid (expire_rounds n sq m now_ms).0
      × (contents (expire_rounds n sq m now_ms).0 ≡ drop_stale now_ms (contents sq))
unfolding expire_rounds drop_stale messages
expire_rounds-IsValid zero sq m now_ms v h = (v, rw h refl)
expire_rounds-IsValid (suc n) sq m now_ms v h =
    let removed = remove_head-IsValid sq n v h in
    let less : sq.count - 1 ≡ n = omega arith in
    let some_left : ltb 0 sq.count ≡ true = ground arith in
    let rest =
      expire_rounds-IsValid n (remove_head sq) (record m { sq_expired = inc32 m.sq_expired }) now_ms
        removed.0 less in
    elim (Bool-cases (leb (sub32 now_ms (entry_at sq sq.head).enqueued_ms) 120000)) [
      | inl e ↦ rw (some_left, removed.2, e) (v, rw (removed.1, e) refl)
      | inr e ↦ rw (some_left, removed.2, e) (rest.0, rw (removed.1, e) rest.1)
    ]

pub expire-IsValid :
    (sq : Queue) (m : Metrics) (now_ms : ℕ)
    → IsValid sq
    → IsValid (expire sq m now_ms).0
      × (contents (expire sq m now_ms).0 ≡ drop_stale now_ms (contents sq))
unfolding expire
expire-IsValid sq m now_ms v = expire_rounds-IsValid sq.count sq m now_ms v refl

pub length-messages : (n : ℕ) (es : List Entry) (head : ℕ) → length (messages es head n) ≡ n
unfolding messages
length-messages zero es head = refl
length-messages (suc n) es head = ap suc (length-messages n es ((head + 1) % 16))
