-- ===== src/ApiValidation/Text/Appends.antt =====
-- What the appending functions leave in the buffer.
use mathlib.Core.List.{append_assoc}
use cedar_switch_3i4o_power.Common.{
  ℕ, zero, suc, ◌+◌, ◌<◌, ◌≤◌, ◌≡◌, ◌⊎◌, refl, sym, ap, ◌∙◌, false, Option, none, some, [], ◌∷◌,
  ◌++◌, Bytes, write, length-write, take-write, take-write_before, append_nil, length, get_or,
  get_or-write_one, length-append, take, leb, arith, Bool-cases, inl, inr,
}
use cedar_switch_3i4o_power.ApiValidation.Text.{
  escape_byte, append_bytes, api_json_append_escaped, append_literal,
}

-- The text of a string with every byte escaped.
unfoldable pub escape_text : Bytes → Bytes
unfolding escape_byte
escape_text [] = []
escape_text (c ∷ s) = escape_byte c ++ escape_text s

-- What a call that is to append `text` at `pos` does: with room for the text and a terminator it
-- writes it behind what was there, and else fails; what stood before `pos` and the size stay.
pub record Appends (buf : Bytes) (pos : ℕ) (text : Bytes) (result : Option ℕ × Bytes) : Type 0 where
  pub size : length result.1 ≡ length buf
  pub before : take pos result.1 ≡ take pos buf
  pub outcome :
      ((pos + length text < length buf)
        × (result.0 ≡ some (pos + length text))
        × (take (pos + length text) result.1 ≡ take pos buf ++ text))
      ⊎ ((length buf ≤ pos + length text) × (result.0 ≡ none))

take-take : (n k : ℕ) (xs : Bytes) → n ≤ k → take n (take k xs) ≡ take n xs
take-take zero k xs h = refl
take-take (suc n) zero xs h = absurd (omega arith)
take-take (suc n) (suc k) [] h = refl
take-take (suc n) (suc k) (x ∷ xs) h = ap (◌∷◌ x) (take-take n k xs (omega arith))

-- A part that failed makes the whole fail.
pub Appends-stop :
    (buf buf1 : Bytes) (pos : ℕ) (p t : Bytes)
    → Appends buf pos p (none, buf1)
    → Appends buf pos (p ++ t) (none, buf1)
Appends-stop buf buf1 pos p t h = record {
  size = h.size;
  before = h.before;
  outcome = inr (elim h.outcome [
    | inl fine ↦ absurd (let bad = fine.1 in cc)
    | inr over ↦ (omega (arith, length-append p t, over.0), refl)
  ]);
}

-- A part, and then the rest behind it.
pub Appends-seq :
    (buf buf1 : Bytes) (pos n : ℕ) (p t : Bytes) (result : Option ℕ × Bytes)
    → Appends buf pos p (some n, buf1)
    → Appends buf1 n t result
    → Appends buf pos (p ++ t) result
Appends-seq buf buf1 pos n p t result h k = elim h.outcome [
  | inr over ↦ absurd (let bad = over.1 in cc)
  | inl fine ↦
      let (room, at, text_there) = fine in
      let n_is : n ≡ pos + length p = ground arith in
      let both = length-append p t in
      let shown : take n buf1 ≡ take pos buf ++ p = ap (λ (i : ℕ). take i buf1) n_is ∙ text_there in
      record {
        size = k.size ∙ h.size;
        before =
            sym (take-take pos n result.1 (omega arith))
            ∙ ap (take pos) k.before
            ∙ take-take pos n buf1 (omega arith)
            ∙ h.before;
        outcome = elim k.outcome [
          | inr over ↦ inr (omega (arith, both, over.0, h.size), over.1)
          | inl (room', at', shown') ↦ inl (
            omega (arith, both, h.size),
            at' ∙ ap (λ (i : ℕ). some i) (omega (arith, both)),
            ap (λ (i : ℕ). take i result.1) {y = n + length t} (omega (arith, both))
                ∙ shown'
                ∙ ap (λ (bs : Bytes). bs ++ t) shown
                ∙ append_assoc (take pos buf) p t,
          )
        ];
      }
]

-- One write, and the position behind it.
Appends-write :
    (buf : Bytes) (pos : ℕ) (src : Bytes)
    → pos + length src < length buf
    → Appends buf pos src (some (pos + length src), write buf pos src)
Appends-write buf pos src room = record {
  size = length-write buf pos src;
  before = take-write_before buf pos src pos (omega arith);
  outcome = inl (room, refl, take-write buf pos src (pos + length src) refl (omega arith));
}

Appends-none :
    (buf : Bytes) (pos : ℕ) (text : Bytes)
    → length buf ≤ pos + length text
    → Appends buf pos text (none, buf)
Appends-none buf pos text over = record { size = refl; before = refl; outcome = inr (over, refl) }

pub Appends-end :
    (buf : Bytes) (pos : ℕ)
    → pos < length buf
    → Appends buf pos [] (some pos, write buf pos (0 ∷ []))
Appends-end buf pos room = record {
  size = length-write buf pos (0 ∷ []);
  before = take-write_before buf pos (0 ∷ []) pos (omega arith);
  outcome = inl (
    omega arith,
    ap (λ (i : ℕ). some i) (omega arith),
    ap (λ (i : ℕ). take i (write buf pos (0 ∷ []))) {y = pos} (omega arith)
        ∙ take-write_before buf pos (0 ∷ []) pos (omega arith)
        ∙ sym (append_nil (take pos buf)),
  );
}

pub append_literal-Appends :
    (buf : Bytes) (cap pos : ℕ) (src : Bytes)
    → length buf ≡ cap
    → Appends buf pos src (append_literal buf cap pos src)
unfolding append_literal
append_literal-Appends buf cap pos src size = elim (Bool-cases (leb cap (pos + length src))) [
  | inl over ↦ rw over (Appends-none buf pos src (ground arith))
  | inr fine ↦ rw fine (Appends-write buf pos src (ground arith))
]

append_bytes-Appends :
    (s buf : Bytes) (cap pos : ℕ)
    → length buf ≡ cap
    → pos < cap
    → Appends buf pos (escape_text s) (append_bytes buf cap pos s)
unfolding append_bytes escape_text
append_bytes-Appends [] buf cap pos size room = Appends-end buf pos (omega arith)
append_bytes-Appends (c ∷ s) buf cap pos size room =
    let piece = escape_byte c in
    elim (Bool-cases (leb cap (pos + length piece))) [
      | inl over ↦ rw over (
          Appends-stop buf buf pos piece (escape_text s)
            (Appends-none buf pos piece (ground arith)))
      | inr fine ↦
          let inside : pos + length piece < cap = ground arith in
          let first = Appends-write buf pos piece (omega arith) in
          rw fine (
            Appends-seq buf (write buf pos piece) pos (pos + length piece) piece (escape_text s) _
              first
              (append_bytes-Appends s (write buf pos piece) cap (pos + length piece)
                (length-write buf pos piece ∙ size) inside))
    ]

-- A string is appended with each byte escaped, whole or not at all past its end of room: nothing
-- before the position changes and nothing is written outside the buffer. (The position is inside.)
pub api_json_append_escaped-Appends :
    (buf : Bytes) (pos : ℕ) (s : Bytes)
    → pos < length buf
    → Appends buf pos (escape_text s) (api_json_append_escaped buf (length buf) pos (some s))
unfolding api_json_append_escaped
api_json_append_escaped-Appends buf pos s room =
    let inside : leb (length buf) pos ≡ false = ground arith in
    rw inside (append_bytes-Appends s buf (length buf) pos refl room)

append_bytes-ended :
    (s buf : Bytes) (cap pos n : ℕ)
    → length buf ≡ cap
    → pos < cap
    → (append_bytes buf cap pos s).0 ≡ some n
    → get_or (append_bytes buf cap pos s).1 n 1 ≡ 0
unfolding append_bytes
append_bytes-ended [] buf cap pos n size room e =
    let at : pos ≡ n = ground arith in rw (← at) (get_or-write_one buf pos 0 1 (omega arith))
append_bytes-ended (c ∷ s) buf cap pos n size room e =
    let next = pos + length (escape_byte c) in
    elim (Bool-cases (leb cap next)) [
      | inl over ↦ absurd (let stopped = rw over at e in cc)
      | inr fine ↦
          let more = rw fine at e in
          rw fine (
            append_bytes-ended s (write buf pos (escape_byte c)) cap next n
              (length-write buf pos (escape_byte c) ∙ size) (ground arith) more)
    ]

-- Where the string fits, a terminator stands behind it.
pub api_json_append_escaped_ended :
    (buf : Bytes) (pos n : ℕ) (s : Bytes)
    → pos < length buf
    → (api_json_append_escaped buf (length buf) pos (some s)).0 ≡ some n
    → get_or (api_json_append_escaped buf (length buf) pos (some s)).1 n 1 ≡ 0
unfolding api_json_append_escaped
api_json_append_escaped_ended buf pos n s room e =
    let inside : leb (length buf) pos ≡ false = ground arith in
    rw inside (append_bytes-ended s buf (length buf) pos n refl room (rw inside at e))
