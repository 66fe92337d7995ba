-- ===== src/ApiValidation/Text/ErrorJson.antt =====
-- What `api_error_to_json` leaves in the buffer.
use cedar_switch_3i4o_power.Common.{
  ℕ, ◌+◌, ◌<◌, ◌≤◌, ◌≡◌, ◌⊎◌, refl, ap, ◌∙◌, false, not, Option, none, some, List, [], ◌∷◌, ◌++◌,
  Bytes, get_or-write_one, length, take, get_or, ◌==◌, arith, inl, inr,
}
use cedar_switch_3i4o_power.ApiValidation.Errors.{ApiError, code_in_range, error_count}
use cedar_switch_3i4o_power.ApiValidation.Text.{
  Piece, literal, escaped, append_piece, append_pieces, error_pieces, api_error_to_json,
}
use cedar_switch_3i4o_power.ApiValidation.Text.Appends.{
  escape_text, Appends, Appends-seq, Appends-stop, Appends-end, append_literal-Appends,
  api_json_append_escaped-Appends,
}

-- The text of a piece, and of a row of them.
abbrev pub piece_text : Piece → Bytes
piece_text (literal src) = src
piece_text (escaped src) = escape_text src

abbrev pub pieces_text : List Piece → Bytes
pieces_text [] = []
pieces_text (p ∷ ps) = piece_text p ++ pieces_text ps

append_piece-Appends :
    (buf : Bytes) (pos : ℕ) (p : Piece)
    → pos < length buf
    → Appends buf pos (piece_text p) (append_piece buf (length buf) pos p)
unfolding append_piece
append_piece-Appends buf pos (literal src) room =
    append_literal-Appends buf (length buf) pos src refl
append_piece-Appends buf pos (escaped src) room = api_json_append_escaped-Appends buf pos src room

-- A position that a call gives lies inside the buffer.
position_inside :
    (buf : Bytes) (pos next : ℕ) (text : Bytes) (result : Option ℕ × Bytes)
    → Appends buf pos text result
    → result.0 ≡ some next
    → next < length result.1
position_inside buf pos next text result h e =
    let size = h.size in let outcome = h.outcome in ground arith

-- The end of a row of pieces: the terminator.
record Ends (buf : Bytes) (pos : ℕ) (text : Bytes) (result : Option ℕ × Bytes) : Type 0 where
  appends : Appends buf pos text result
  terminated : (n : ℕ) → result.0 ≡ some n → get_or result.1 n 1 ≡ 0

-- A piece, and the row behind it.
Ends-seq :
    (buf : Bytes) (cap pos : ℕ) (text more : Bytes) (ps : List Piece) (done : Option ℕ × Bytes)
    → Appends buf pos text done
    → ((n : ℕ) → done.0 ≡ some n → Ends done.1 n more (append_pieces done.1 cap n ps))
    → Ends buf pos
        (text ++ more)
        (elim done.0 [ none ↦ (none, done.1) | some next ↦ append_pieces done.1 cap next ps ])
Ends-seq buf cap pos text more ps (none, buf1) first rest = record {
  appends = Appends-stop buf buf1 pos text more first;
  terminated = λ n e. cc;
}
Ends-seq buf cap pos text more ps (some n, buf1) first rest =
    let last = rest n refl in
    record {
      appends = Appends-seq buf buf1 pos n text more _ first last.appends;
      terminated = last.terminated;
    }

append_pieces-Ends :
    (ps : List Piece) (buf : Bytes) (cap pos : ℕ)
    → length buf ≡ cap
    → pos < cap
    → Ends buf pos (pieces_text ps) (append_pieces buf cap pos ps)
unfolding append_pieces
append_pieces-Ends [] buf cap pos size room = record {
  appends = Appends-end buf pos (omega arith);
  terminated =
      λ n e. let at : n ≡ pos = ground arith in rw at (get_or-write_one buf pos 0 1 (omega arith));
}
append_pieces-Ends (p ∷ ps) buf cap pos size room =
    let done = append_piece buf cap pos p in
    let first : Appends buf pos (piece_text p) done =
      rw (← size) (append_piece-Appends buf pos p (omega arith)) in
    Ends-seq buf cap pos (piece_text p) (pieces_text ps) ps done first λ n e.
      append_pieces-Ends ps done.1 cap n (first.size ∙ size)
        (omega (arith, position_inside buf pos n (piece_text p) done first e, first.size, size))

-- The result is the whole text with its terminator, or a failure.
pub record Written (buf text : Bytes) (result : Option ℕ × Bytes) : Type 0 where
  pub size : length result.1 ≡ length buf
  pub outcome :
      ((length text < length buf)
        × (result.0 ≡ some (length text))
        × (take (length text) result.1 ≡ text)
        × (get_or result.1 (length text) 1 ≡ 0))
      ⊎ ((length buf ≤ length text) × (result.0 ≡ none))

-- For a known code and a buffer that is not empty, the error body is written whole, with its length
-- returned and a terminator behind it, exactly if the buffer has room for both; otherwise the result
-- is -ENOMEM. The buffer keeps its size.
pub api_error_to_json-Written :
    (err : ApiError) (buf : Bytes)
    → err.code < error_count
    → 0 < length buf
    → Written buf (pieces_text (error_pieces err)) (api_error_to_json err buf (length buf))
unfolding api_error_to_json
api_error_to_json-Written err buf known room =
    let text = pieces_text (error_pieces err) in
    let some_room : (length buf == 0) ≡ false = ground arith in
    let in_range : not (code_in_range err.code) ≡ false = unfold code_in_range in ground arith in
    let ends = append_pieces-Ends (error_pieces err) buf (length buf) 0 refl room in
    rw (some_room, in_range)
      (record {
        size = ends.appends.size;
        outcome = elim ends.appends.outcome [
          | inr over ↦ inr (omega (arith, over.0), over.1)
          | inl (fits, at, shown) ↦
              let at_text : (append_pieces buf (length buf) 0 (error_pieces err)).0
                  ≡ some (length text) =
                at ∙ ap (λ (i : ℕ). some i) (omega arith) in
              inl (
                omega arith,
                at_text,
                ap (λ (i : ℕ). take i (append_pieces buf (length buf) 0 (error_pieces err)).1)
                      {x = length text} {y = 0 + length text} (omega arith)
                    ∙ shown,
                ends.terminated (length text) at_text,
              )
        ];
      })
