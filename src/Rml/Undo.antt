-- ===== src/Rml/Undo.antt =====
-- firmware_core/rml/rml_policy.c: a change to a text, and the change that takes it back.
use mathlib.Core.List.{append_assoc}
use mathlib.Core.Path.{ap₂}
use rivr.Common.{ℕ, zero, suc, refl, sym, ap, some, List, [], arith, length, take, drop}
use rivr.Common.{length-append, length-drop, length-take, take-append, drop-append}
use rivr.Common.{take-append-drop, take_all, take_add, u16, ◌+◌, ◌-◌, ◌≤◌, ◌≡◌, ◌∙◌, ◌∷◌}
use rivr.Common.{◌++◌}
use rivr.Rml.Payload.{Delta}
use rivr.Rml.Thread.{Entry, text, delta_replace}
unfoldable use rivr.Rml.Thread.{apply_delta}

drop-nil : (n : ℕ) → drop {A = ℕ} n [] ≡ []
drop-nil zero = refl
drop-nil (suc n) = refl

drop-drop : (a b : ℕ) (xs : List ℕ) → drop b (drop a xs) ≡ drop (a + b) xs
drop-drop zero b xs = let e : b ≡ 0 + b = omega arith in ap (λ k. drop k xs) e
drop-drop (suc a) b [] = drop-nil b ∙ sym (drop-nil (suc a + b))
drop-drop (suc a) b (x ∷ xs) =
    let e : suc (a + b) ≡ suc a + b = omega arith in drop-drop a b xs ∙ ap (λ k. drop k (x ∷ xs)) e

-- The pieces of a list that three lists and a rest make.
take_first : (n : ℕ) (xs ys : List ℕ) → length xs ≡ n → take n (xs ++ ys) ≡ xs
take_first n xs ys e = ap (λ k. take k (xs ++ ys)) (sym e) ∙ take-append xs ys

drop_first : (n : ℕ) (xs ys : List ℕ) → length xs ≡ n → drop n (xs ++ ys) ≡ ys
drop_first n xs ys e = ap (λ k. drop k (xs ++ ys)) (sym e) ∙ drop-append xs ys

-- A text up to its length `o + (d + t)`, in three pieces.
three_pieces :
    (o d t : ℕ) (xs : List ℕ)
    → take (o + (d + t)) xs ≡ take o xs ++ (take d (drop o xs) ++ take t (drop (o + d) xs))
three_pieces o d t xs =
    take_add o (d + t) xs
    ∙ ap (λ l. take o xs ++ l)
        (take_add d t (drop o xs) ∙ ap (λ l. take d (drop o xs) ++ take t l) (drop-drop o d xs))

-- The change that puts back what a replacement took out of a text.
unfoldable pub inverse : Entry → Delta → Delta
inverse base d = record {
  op = delta_replace;
  offset = d.offset;
  delete_len = d.data_len;
  data_len = d.delete_len;
  bytes = take d.delete_len (drop d.offset base.payload);
}

-- What a replacement writes, and when it is carried out.
replace_cases :
    (base : Entry) (d : Delta) {bytes : List ℕ}
    → d.op ≡ delta_replace
    → base.payload_len ≤ 160
    → apply_delta base d ≡ some bytes
    → (d.data_len ≤ 160)
      × (d.offset + d.delete_len ≤ base.payload_len)
      × (bytes
          ≡ take d.offset base.payload
            ++ (take d.data_len d.bytes
                ++ take
                    (base.payload_len - (d.offset + d.delete_len))
                    (drop (d.offset + d.delete_len) base.payload)))
      × (d.offset + d.data_len + (base.payload_len - (d.offset + d.delete_len)) ≤ 160)
unfolding apply_delta
replace_cases base d {bytes} hop hm h =
    let within : d.offset + d.delete_len ≤ base.payload_len = ground (arith, h) in
    let off : u16 (d.offset + d.delete_len) ≡ d.offset + d.delete_len = omega arith in
    let len : u16 (base.payload_len - (d.offset + d.delete_len))
        ≡ base.payload_len - (d.offset + d.delete_len) =
      omega arith in
    ground (arith, rw (off, len, apply_delta) at h)

replace_runs :
    (base : Entry) (d : Delta)
    → d.op ≡ delta_replace
    → base.payload_len ≤ 160
    → d.data_len ≤ 160
    → d.offset + d.delete_len ≤ base.payload_len
    → d.offset + d.data_len + (base.payload_len - (d.offset + d.delete_len)) ≤ 160
    → apply_delta base d
      ≡ some (
          take d.offset base.payload
          ++ (take d.data_len d.bytes
              ++ take
                  (base.payload_len - (d.offset + d.delete_len))
                  (drop (d.offset + d.delete_len) base.payload)))
unfolding apply_delta
replace_runs base d hop hm hd ho hs =
    let off : u16 (d.offset + d.delete_len) ≡ d.offset + d.delete_len = omega arith in
    let len : u16 (base.payload_len - (d.offset + d.delete_len))
        ≡ base.payload_len - (d.offset + d.delete_len) =
      omega arith in
    rw (off, len, apply_delta) (ground arith)

-- If rml_apply_delta carries out a replacement on an entry whose payload array holds its text, and
-- whose change holds its text, then the inverse change is carried out on the result, and gives the
-- text of the entry back.
pub apply_delta-inverse :
    (base after : Entry) (d : Delta) {bytes : List ℕ}
    → d.op ≡ delta_replace
    → base.payload_len ≤ length base.payload
    → base.payload_len ≤ 160
    → d.data_len ≤ length d.bytes
    → apply_delta base d ≡ some bytes
    → after.payload_len ≡ length bytes
    → text after ≡ bytes
    → apply_delta after (inverse base d) ≡ some (text base)
unfolding inverse
apply_delta-inverse base after d {bytes} hop hl hm hd h ha ht =
    let (small, within, made, fits) = replace_cases base d hop hm h in
    let o = d.offset in
    let n = d.data_len in
    let k = d.delete_len in
    let t = base.payload_len - (o + k) in
    let front = take o base.payload in
    let added = take n d.bytes in
    let back = take t (drop (o + k) base.payload) in
    let lf : length front ≡ o = omega (arith, length-take o base.payload) in
    let la : length added ≡ n = omega (arith, length-take n d.bytes) in
    let lb : length back ≡ t =
      omega (arith, length-take t (drop (o + k) base.payload), length-drop (o + k) base.payload) in
    let size : length bytes ≡ o + (n + t) =
      ap length made
      ∙ omega (arith, length-append front (added ++ back), length-append added back) in
    let rest = drop after.payload_len after.payload in
    let whole : after.payload ≡ front ++ (added ++ (back ++ rest)) =
      sym (take-append-drop after.payload_len after.payload)
      ∙ ap (λ l. l ++ rest) (ht ∙ made)
      ∙ append_assoc front (added ++ back) rest
      ∙ ap (λ l. front ++ l) (append_assoc added back rest) in
    let left : after.payload_len - (o + n) ≡ t = omega (arith, ha, size) in
    let cut : List ℕ = take k (drop o base.payload) in
    let lc : length cut ≡ k =
      omega (arith, length-take k (drop o base.payload), length-drop o base.payload) in
    let one : take o after.payload ≡ front =
      ap (λ l. take o l) whole ∙ take_first o front (added ++ (back ++ rest)) lf in
    let two : take k cut ≡ cut = ap (λ m. take m cut) (sym lc) ∙ take_all cut in
    let beyond : drop (o + n) after.payload ≡ back ++ rest =
      sym (drop-drop o n after.payload)
      ∙ ap (λ l. drop n (drop o l)) whole
      ∙ ap (λ l. drop n l) (drop_first o front (added ++ (back ++ rest)) lf)
      ∙ drop_first n added (back ++ rest) la in
    let three : take (after.payload_len - (o + n)) (drop (o + n) after.payload) ≡ back =
      ap (λ m. take m (drop (o + n) after.payload)) left
      ∙ ap (λ l. take t l) beyond
      ∙ take_first t back rest lb in
    let sum : o + (k + t) ≡ base.payload_len = omega arith in
    replace_runs after (inverse base d) refl (omega (arith, ha, size)) (omega arith)
      (omega (arith, ha, size)) (omega (arith, left))
    ∙ ap some (
        ap₂ ◌++◌ one (ap₂ ◌++◌ two three)
        ∙ sym (three_pieces o k t base.payload)
        ∙ ap (λ m. take m base.payload) sum)
