-- ===== src/Session/Frames.antt =====
-- writeFrame and readJSONFrame: one message in one line of at most 4096 bytes. `marshal` and `unmarshal`
-- are encoding/json's for the type of the message.
use transferly.Prelude.{
  ℕ, zero, suc, ◌+◌, ◌≡◌, ◌≤◌, ◌<◌, refl, sym, ap, ◌∙◌, false, [], ◌∷◌, ◌++◌, append_assoc,
  append-nil, Option, none, some, Bytes, arith, ltb, ◌==◌, if◌then◌else◌, length, take, drop,
  take-append-drop, length-drop, Result, ok, fail, ◌>>=◌, Bool-cases, ◌⊎◌, inl, inr,
}
use transferly.Text.Utf8.{has}
use transferly.Session.{
  maximum_frame_bytes, Writer, IsWriter, IsUp, WireError, marshal_failed, frame_too_large,
  write_failed, short_write, ended, invalid_frame,
}

-- The loop of writeFrame, on the bytes that are left and those on the wire. Each round takes a byte, so
-- one more round than there are bytes is fuel enough: `write_all_complete`.
unfoldable pub write_all : Writer → ℕ → ℕ → Bytes → Bytes → Result WireError (Unit {0}) × Bytes
write_all w zero call encoded wire = (fail short_write, wire)
write_all w (suc fuel) call [] wire = (ok tt, wire)
write_all w (suc fuel) call (c ∷ s) wire =
    let answer = w call (c ∷ s) in
    let out = wire ++ take answer.count (c ∷ s) in
    let rest = write_all w fuel (suc call) (drop answer.count (c ∷ s)) out in
    if answer.fails
    then (fail write_failed, out)
    else if answer.count == 0
    then (fail short_write, out)
    else rest

-- `reader.ReadSlice('\n')` of bufio with a buffer of `room` bytes, and what is left unread.
unfoldable pub read_slice : ℕ → Bytes → Result WireError (Bytes × Bytes)
read_slice zero wire = fail frame_too_large
read_slice (suc room) [] = fail ended
read_slice (suc room) (c ∷ s) =
    let rest = read_slice room s in
    if c == 10 then ok (10 ∷ [], s) else rest >>= λ (line, left). ok (c ∷ line, left)

unfoldable pub parsed {ℓ} : {M : Type ℓ} → Option M → Bytes → Result WireError (M × Bytes)
parsed none left = fail invalid_frame
parsed (some m) left = ok (m, left)

-- The bytes of a frame, unless the encoding fails or is too large.
unfoldable pub frame : Option Bytes → Result WireError Bytes
frame none = fail marshal_failed
frame (some encoded) =
    if ltb maximum_frame_bytes (length encoded + 1)
    then fail frame_too_large
    else ok (encoded ++ 10 ∷ [])

unfoldable pub write_bytes :
    Writer → Result WireError Bytes → Bytes → Result WireError (Unit {0}) × Bytes
write_bytes w (fail e) wire = (fail e, wire)
write_bytes w (ok encoded) wire = write_all w (suc (length encoded)) 0 encoded wire

-- writeFrame
unfoldable pub write_frame {ℓ} :
    {M : Type ℓ} → (M → Option Bytes) → Writer → M → Bytes → Result WireError (Unit {0}) × Bytes
write_frame marshal w m wire = write_bytes w (frame (marshal m)) wire

-- readJSONFrame
unfoldable pub read_json_frame {ℓ} :
    {M : Type ℓ} → (Bytes → Option M) → Bytes → Result WireError (M × Bytes)
read_json_frame unmarshal wire =
    read_slice maximum_frame_bytes wire >>= λ (line, left). parsed (unmarshal line) left

write_all-ok :
    (w : Writer) (fuel call : ℕ) (s wire : Bytes)
    → (write_all w fuel call s wire).0 ≡ ok tt
    → (write_all w fuel call s wire).1 ≡ wire ++ s
unfolding write_all
write_all-ok w zero call s wire h = cc
write_all-ok w (suc fuel) call [] wire h = sym (append-nil wire)
write_all-ok w (suc fuel) call (c ∷ s) wire h =
    let n = (w call (c ∷ s)).count in
    ground (
      arith,
      write_all-ok w fuel (suc call) (drop n (c ∷ s)) (wire ++ take n (c ∷ s)),
      append_assoc wire (take n (c ∷ s)) (drop n (c ∷ s)),
      take-append-drop n (c ∷ s),
    )

-- A writer that reports no error gets all of it, however few bytes it takes at a time.
write_all_complete :
    (w : Writer) (fuel call : ℕ) (s wire : Bytes)
    → IsWriter w
    → IsUp w
    → length s < fuel
    → (write_all w fuel call s wire).0 ≡ ok tt
unfolding write_all
write_all_complete w zero call s wire a b h = ground arith
write_all_complete w (suc fuel) call [] wire a b h = refl
write_all_complete w (suc fuel) call (c ∷ s) wire a b h =
    let n = (w call (c ∷ s)).count in
    let some_taken = a.takes_some call (c ∷ s) (omega arith) in
    let up = b.no_error call (c ∷ s) in
    let shorter = length-drop n (c ∷ s) in
    ground (
      arith,
      write_all_complete w fuel (suc call) (drop n (c ∷ s)) (wire ++ take n (c ∷ s)) a b
          (omega arith),
    )

read_slice-line :
    (room : ℕ) (line rest : Bytes)
    → has 10 line ≡ false
    → length line < room
    → read_slice room (line ++ 10 ∷ rest) ≡ ok (line ++ 10 ∷ [], rest)
unfolding read_slice
read_slice-line zero line rest h l = ground arith
read_slice-line (suc room) [] rest h l = refl
read_slice-line (suc room) (c ∷ line) rest h l = ground (arith, read_slice-line room line rest)

-- A message that was written without an error, whatever parts the writer took it in, is what the other
-- side reads from the wire, and all that follows on the wire is left for the next read. The encoding of the
-- message has no newline, and unmarshalling it with the newline gives the message again.
pub write_frame-read_json_frame {ℓ} :
    {M : Type ℓ} (marshal : M → Option Bytes) (unmarshal : Bytes → Option M) (w : Writer) (m : M)
    (encoded rest : Bytes)
    → marshal m ≡ some encoded
    → has 10 encoded ≡ false
    → unmarshal (encoded ++ 10 ∷ []) ≡ some m
    → (write_frame marshal w m []).0 ≡ ok tt
    → read_json_frame unmarshal ((write_frame marshal w m []).1 ++ rest) ≡ ok (m, rest)
unfolding write_frame write_bytes read_json_frame parsed frame
write_frame-read_json_frame marshal unmarshal w m encoded rest e n u h =
    elim (Bool-cases (ltb maximum_frame_bytes (length encoded + 1))) [
      | inl large ↦
          let refused : frame (marshal m) ≡ fail frame_too_large = rw (e, frame, large) refl in
          let lost : (fail frame_too_large) ≡ ok tt =
            sym (ap (λ x. (write_bytes w x []).0) refused) ∙ h in
          cc (lost)
      | inr small ↦
          let b = encoded ++ 10 ∷ [] in
          let framed : frame (marshal m) ≡ ok b = rw (e, frame, small) refl in
          let written : (write_all w (suc (length b)) 0 b []).0 ≡ ok tt = cc (h, framed) in
          let wire : (write_frame marshal w m []).1 ≡ b =
            ap (λ x. (write_bytes w x []).1) framed
            ∙ write_all-ok w (suc (length b)) 0 b [] written in
          let line : read_slice maximum_frame_bytes (b ++ rest) ≡ ok (b, rest) =
            ap (read_slice maximum_frame_bytes) (append_assoc encoded (10 ∷ []) rest)
            ∙ read_slice-line maximum_frame_bytes encoded rest n (ground arith) in
          rw (wire, line, u, parsed) refl
    ]

-- A message is written on every connection that reports no error exactly when its line is within 4096
-- bytes; a longer one is refused before anything of it is on the wire.
pub write_frame-bound {ℓ} :
    {M : Type ℓ} (marshal : M → Option Bytes) (w : Writer) (m : M) (encoded wire : Bytes)
    → IsWriter w
    → IsUp w
    → marshal m ≡ some encoded
    → ((length encoded + 1 ≤ maximum_frame_bytes)
        × (write_frame marshal w m wire ≡ (ok tt, wire ++ (encoded ++ 10 ∷ []))))
      ⊎ ((maximum_frame_bytes < length encoded + 1)
          × (write_frame marshal w m wire ≡ (fail frame_too_large, wire)))
unfolding write_frame write_bytes frame
write_frame-bound marshal w m encoded wire a b e =
    elim (Bool-cases (ltb maximum_frame_bytes (length encoded + 1))) [
      | inl large ↦ inr (ground arith, rw (e, frame, large, write_bytes) refl)
      | inr small ↦
          let s = encoded ++ 10 ∷ [] in
          let written = write_all_complete w (suc (length s)) 0 s wire a b (omega arith) in
          let out = write_all-ok w (suc (length s)) 0 s wire written in
          inl (ground arith, rw (e, frame, small, write_bytes) (λ i. (written i, out i)))
    ]
