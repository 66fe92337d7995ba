-- ===== src/LogStore/Record/ReadBack.antt =====
-- A record that an append put into a ring is read as the entry it was made of.
use cedar_switch_3i4o_power.Common.{
  ℕ, zero, suc, ◌+◌, ◌/◌, ◌%◌, ◌^◌, ◌<◌, ◌≤◌, ◌≡◌, refl, sym, ap, ◌∙◌, min, Bool, ◌||◌, [], ◌∷◌,
  ◌++◌, Bytes, length, take, take_all, drop, take-append, drop-append_skip, get_or, ltb, ◌==◌,
  if◌then◌else◌, arith,
}
use cedar_switch_3i4o_power.LogStore.ByteOrder.{ByteOrder}
use cedar_switch_3i4o_power.LogStore.Types.{LogRecord, text_max, module_max}
use cedar_switch_3i4o_power.LogStore.Ring.{Ring, ring_get}
use cedar_switch_3i4o_power.LogStore.State.{add64}
use cedar_switch_3i4o_power.LogStore.Append.{
  LogEntry, header, hdr_size, trailer_size, round_up, record_max, stored_or_empty, is_given,
}
use cedar_switch_3i4o_power.LogStore.Append.Log.{window-split}
use cedar_switch_3i4o_power.LogStore.Append.Grow.{frame}
use cedar_switch_3i4o_power.LogStore.Append.Refine.{frame_of, length-header, length-stored_or_empty}
use cedar_switch_3i4o_power.LogStore.Ring.Window.{window, ring_get-window}
use cedar_switch_3i4o_power.LogStore.Record.{copy_record}

-- The flags byte, taken apart.
flags_kind :
    (kind : ℕ) (m t : Bool)
    → kind < 4
    → (kind + (if m then 2 ^ 6 else 0) + (if t then 2 ^ 7 else 0)) % 8 ≡ kind
flags_kind kind m t h = ground arith

flags_truncated :
    (kind : ℕ) (m t : Bool)
    → kind < 4
    → ((kind + (if m then 2 ^ 6 else 0) + (if t then 2 ^ 7 else 0)) / 2 ^ 7 % 2 == 1) ≡ t
flags_truncated kind m t h = ground arith

flags_module :
    (kind : ℕ) (m t : Bool)
    → kind < 4
    → ((kind + (if m then 2 ^ 6 else 0) + (if t then 2 ^ 7 else 0)) / 2 ^ 6 % 2 == 1) ≡ m
flags_module kind m t h = ground arith

get_or_past :
    (xs ys : Bytes) (n k j : ℕ) → length xs ≡ n → k ≡ n + j → get_or (xs ++ ys) k 0 ≡ get_or ys j 0
get_or_past [] ys n k j h e = ap (λ (i : ℕ). get_or ys i 0) {y = j} (omega arith)
get_or_past (x ∷ xs) ys n zero j h e = absurd (omega arith)
get_or_past (x ∷ xs) ys zero (suc k) j h e = absurd (omega arith)
get_or_past (x ∷ xs) ys (suc n) (suc k) j h e = get_or_past xs ys n k j (omega arith) (omega arith)

module _ (order : ByteOrder) where
  open order use {put_le, get_le, length-put_le, get_le-put_le}

  -- The header's numbers stand where they are read.
  record HasFields (hdr : Bytes) (level flags mlen source tlen generation seq uptime : ℕ)
      : Type 0 where
    level_at : get_or hdr 2 0 ≡ level
    flags_at : get_or hdr 3 0 ≡ flags
    mlen_at : get_or hdr 4 0 ≡ mlen
    source_at : get_or hdr 5 0 ≡ source
    tlen_at : take 2 (drop 6 hdr) ≡ put_le 2 tlen
    generation_at : take 4 (drop 8 hdr) ≡ put_le 4 generation
    seq_at : take 8 (drop 12 hdr) ≡ put_le 8 seq
    uptime_at : take 8 (drop 20 hdr) ≡ put_le 8 uptime

  header-HasFields :
      (total level flags mlen source tlen generation seq uptime : ℕ)
      → HasFields
          (put_le 2 total
            ++ ((level ∷ flags ∷ mlen ∷ source ∷ [])
                ++ (put_le 2 tlen ++ (put_le 4 generation ++ (put_le 8 seq ++ put_le 8 uptime)))))
          level
          flags
          mlen
          source
          tlen
          generation
          seq
          uptime
  header-HasFields total level flags mlen source tlen generation seq uptime =
      let d = put_le 8 uptime in
      let c = put_le 8 seq ++ d in
      let b = put_le 4 generation ++ c in
      let a = put_le 2 tlen ++ b in
      let bytes = (level ∷ flags ∷ mlen ∷ source ∷ []) ++ a in
      let t2 = length-put_le 2 total in
      let s6 = drop-append_skip 6 2 4 (put_le 2 total) bytes refl t2 in
      let s8 =
        drop-append_skip 8 2 6 (put_le 2 total) bytes refl t2
        ∙ drop-append_skip 2 2 0 (put_le 2 tlen) b refl (length-put_le 2 tlen) in
      let s12 =
        drop-append_skip 12 2 10 (put_le 2 total) bytes refl t2
        ∙ drop-append_skip 6 2 4 (put_le 2 tlen) b refl (length-put_le 2 tlen)
        ∙ drop-append_skip 4 4 0 (put_le 4 generation) c refl (length-put_le 4 generation) in
      let s20 =
        drop-append_skip 20 2 18 (put_le 2 total) bytes refl t2
        ∙ drop-append_skip 14 2 12 (put_le 2 tlen) b refl (length-put_le 2 tlen)
        ∙ drop-append_skip 12 4 8 (put_le 4 generation) c refl (length-put_le 4 generation)
        ∙ drop-append_skip 8 8 0 (put_le 8 seq) d refl (length-put_le 8 seq) in
      record {
        level_at = get_or_past (put_le 2 total) bytes 2 2 0 t2 refl;
        flags_at = get_or_past (put_le 2 total) bytes 2 3 1 t2 refl;
        mlen_at = get_or_past (put_le 2 total) bytes 2 4 2 t2 refl;
        source_at = get_or_past (put_le 2 total) bytes 2 5 3 t2 refl;
        tlen_at = ap (take 2) s6 ∙ take-append 2 (put_le 2 tlen) b (length-put_le 2 tlen);
        generation_at =
            ap (take 4) s8 ∙ take-append 4 (put_le 4 generation) c (length-put_le 4 generation);
        seq_at = ap (take 8) s12 ∙ take-append 8 (put_le 8 seq) d (length-put_le 8 seq);
        uptime_at = ap (take 8) s20 ∙ take_all 8 d (omega (arith, length-put_le 8 uptime));
      }

  -- What a reader is to get of an entry.
  unfoldable pub record_of : LogEntry → ℕ → LogRecord
  record_of e seq = record {
    source = e.source;
    level = e.level;
    kind = e.kind;
    truncated = e.truncated || ltb text_max e.text_len;
    has_module = is_given e.module_name;
    generation = e.generation;
    seq = seq;
    uptime_ms = e.uptime_ms;
    module_name = stored_or_empty e.module_name e.module_len module_max;
    text = stored_or_empty e.text e.text_len text_max;
  }

  -- Where a ring shows the record that an append makes of an entry, `copy_record` reads that entry
  -- back, its module and text cut as the append cuts them. (The entry's kind is one of the four, its
  -- generation has 32 bits, and its time, its sequence number and the position have 64.)
  pub copy_record-frame_of :
      (e : LogEntry) (seq : ℕ) (r : Ring) (pos : ℕ)
      → length r.buf ≡ r.size
      → record_max ≤ r.size
      → pos + record_max < 2 ^ 64
      → e.kind < 4
      → e.generation < 2 ^ 32
      → seq < 2 ^ 64
      → e.uptime_ms < 2 ^ 64
      → window r.buf r.size pos (length (frame_of order e seq)) ≡ frame_of order e seq
      → copy_record order r pos (ring_get r.buf r.size pos hdr_size) ≡ record_of e seq
  unfolding copy_record record_of frame_of frame
  copy_record-frame_of e seq r pos whole room below kind_small gen_small seq_small up_small shown =
      let text = stored_or_empty e.text e.text_len text_max in
      let name = stored_or_empty e.module_name e.module_len module_max in
      let total = round_up (hdr_size + length name + length text) + trailer_size in
      let cut = e.truncated || ltb text_max e.text_len in
      let flags =
        e.kind + (if is_given e.module_name then 2 ^ 6 else 0) + (if cut then 2 ^ 7 else 0) in
      let hdr = header order e total (length name) (length text) seq in
      let t_max = length-stored_or_empty e.text e.text_len text_max in
      let n_max = length-stored_or_empty e.module_name e.module_len module_max in
      let hdr_len = length-header order e total (length name) (length text) seq in
      let (hdr_shown, later) = window-split r.buf r.size pos hdr _ shown in
      let (name_shown, last) = window-split r.buf r.size (pos + length hdr) name _ later in
      let text_shown = (window-split r.buf r.size (pos + length hdr + length name) text _ last).0 in
      let h : HasFields hdr e.level flags (length name % 256) e.source (length text) e.generation
          seq e.uptime_ms =
        unfold header in
        header-HasFields total e.level flags (length name % 256) e.source (length text) e.generation
          seq e.uptime_ms in
      let hdr_read : ring_get r.buf r.size pos hdr_size ≡ hdr =
        ring_get-window r.buf r.size pos hdr_size whole (omega arith) (omega arith)
        ∙ ap (window r.buf r.size pos) (sym hdr_len)
        ∙ hdr_shown in
      let at_name : add64 pos hdr_size ≡ pos + length hdr = omega arith in
      let at_text : add64 (pos + length hdr) (length name) ≡ pos + length hdr + length name =
        omega arith in
      let name_read : ring_get r.buf r.size (pos + length hdr) (length name) ≡ name =
        ring_get-window r.buf r.size (pos + length hdr) (length name) whole (omega arith)
          (omega arith)
        ∙ name_shown in
      let text_read : ring_get r.buf r.size (pos + length hdr + length name) (length text) ≡ text =
        ring_get-window r.buf r.size (pos + length hdr + length name) (length text) whole
          (omega arith) (omega arith)
        ∙ text_shown in
      let mlen_is : min (length name % 256) module_max ≡ length name = omega arith in
      let tlen_is : min (length text) text_max ≡ length text = omega arith in
      rw (
        hdr_read,
        h.flags_at,
        h.mlen_at,
        h.tlen_at,
        h.source_at,
        h.level_at,
        h.generation_at,
        h.seq_at,
        h.uptime_at,
        get_le-put_le 2 (length text) (omega arith),
        get_le-put_le 4 e.generation (omega arith),
        get_le-put_le 8 seq (omega arith),
        get_le-put_le 8 e.uptime_ms (omega arith),
        flags_kind e.kind (is_given e.module_name) cut kind_small,
        flags_truncated e.kind (is_given e.module_name) cut kind_small,
        flags_module e.kind (is_given e.module_name) cut kind_small,
        mlen_is,
        tlen_is,
        at_name,
        at_text,
        name_read,
        text_read,
      )
