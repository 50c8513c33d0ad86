-- ===== src/Session/Copies.antt =====
-- What copyStreamBuffer moves.
use transferly.Prelude.{
  ℕ, zero, suc, ◌-◌, ◌≡◌, ◌≤◌, ◌<◌, refl, sym, subst, ap, ◌∙◌, Bool, false, ◌++◌, append_assoc,
  append-nil, Bytes, arith, ◌==◌, length, length-take, length-drop, take, drop, take-all,
  take-parts, drop-parts, ok, Bool-cases, ◌⊎◌, inl, inr,
}
use transferly.Session.{Writer}
use transferly.Session.Streams.{Copied, chunk_of, copy_loop, copy_stream_buffer}

-- A round that goes on copied a whole chunk.
copy_loop-step :
    (done : ℕ → Bool) (w : Writer) (buffer fuel call remaining : ℕ) (source destination : Bytes)
    → (copy_loop done w buffer (suc fuel) call remaining source destination).outcome ≡ ok tt
    → (remaining ≡ 0)
      ⊎ ((length (take (chunk_of buffer remaining) source) ≡ chunk_of buffer remaining)
          × (0 < chunk_of buffer remaining)
          × ((w call (take (chunk_of buffer remaining) source)).count ≡ chunk_of buffer remaining)
          × (copy_loop done w buffer (suc fuel) call remaining source destination
              ≡ copy_loop done w buffer fuel
                  (suc call)
                  (remaining - chunk_of buffer remaining)
                  (drop (chunk_of buffer remaining) source)
                  (destination
                    ++ take (chunk_of buffer remaining) (take (chunk_of buffer remaining) source))))
unfolding copy_loop
copy_loop-step done w buffer fuel call remaining source destination h =
    ground (arith, length-take (chunk_of buffer remaining) source)

copy_loop-nothing :
    (done : ℕ → Bool) (w : Writer) (buffer fuel call : ℕ) (source destination : Bytes)
    → copy_loop done w buffer fuel call 0 source destination
      ≡ record { outcome = ok tt; source = source; destination = destination }
unfolding copy_loop
copy_loop-nothing done w buffer zero call source destination = refl
copy_loop-nothing done w buffer (suc fuel) call source destination = refl

-- All of `size` bytes moved from the source to the destination.
pub record IsCopy (size : ℕ) (source destination : Bytes) (c : Copied) : Type 0 where
  pub enough : size ≤ length source
  pub left : c.source ≡ drop size source
  pub copied : c.destination ≡ destination ++ take size source

nothing-IsCopy :
    (size : ℕ) (source destination : Bytes)
    → size ≡ 0
    → IsCopy size source destination
        (record { outcome = ok tt; source = source; destination = destination })
nothing-IsCopy size source destination h = record {
  enough = omega arith;
  left = rw h refl;
  copied = rw h (sym (append-nil destination));
}

join-IsCopy :
    (k size : ℕ) (source destination : Bytes) (c : Copied)
    → k ≤ size
    → length (take k source) ≡ k
    → IsCopy (size - k) (drop k source) (destination ++ take k (take k source)) c
    → IsCopy size source destination c
join-IsCopy k size source destination c l whole p = record {
  enough = ground (arith, p.enough, length-take k source, length-drop k source);
  left = p.left ∙ drop-parts k size source l;
  copied =
      p.copied
      ∙ append_assoc destination (take k (take k source)) (take (size - k) (drop k source))
      ∙ ap (λ x. destination ++ (x ++ take (size - k) (drop k source)))
          (take-all k (take k source) (omega arith))
      ∙ ap (λ x. destination ++ x) (take-parts k size source l);
}

IsCopy-determines :
    (size : ℕ) (source destination : Bytes) (c : Copied)
    → c.outcome ≡ ok tt
    → IsCopy size source destination c
    → c ≡ record {
      outcome = ok tt;
      source = drop size source;
      destination = destination ++ take size source;
    }
IsCopy-determines size source destination c h p i = record {
  outcome = h i;
  source = p.left i;
  destination = p.copied i;
}

chunk_of-below : (buffer remaining : ℕ) → chunk_of buffer remaining ≤ remaining
unfolding chunk_of
chunk_of-below buffer remaining = ground arith

copy_loop-ok :
    (done : ℕ → Bool) (w : Writer) (buffer fuel call remaining : ℕ) (source destination : Bytes)
    → remaining ≤ fuel
    → (copy_loop done w buffer fuel call remaining source destination).outcome ≡ ok tt
    → IsCopy remaining source destination
        (copy_loop done w buffer fuel call remaining source destination)
copy_loop-ok done w buffer zero call remaining source destination l h =
    let over : remaining ≡ 0 = omega arith in
    rw (over, copy_loop-nothing done w buffer 0 call source destination)
      (nothing-IsCopy 0 source destination refl)
copy_loop-ok done w buffer (suc fuel) call remaining source destination l h =
    let k = chunk_of buffer remaining in
    elim (copy_loop-step done w buffer fuel call remaining source destination h) [
      | inl over ↦
          rw (over, copy_loop-nothing done w buffer (suc fuel) call source destination)
            (nothing-IsCopy 0 source destination refl)
      | inr (whole, some_read, taken, next) ↦
          subst (IsCopy remaining source destination) (sym next) (
            join-IsCopy k remaining source destination _ (chunk_of-below buffer remaining) whole (
              copy_loop-ok done w buffer fuel (suc call) (remaining - k) (drop k source)
                (destination ++ take k (take k source)) (omega arith)
                (ap (λ x. x.outcome) (sym next) ∙ h)))
    ]

-- copyStreamBuffer that reports no error has moved exactly `size` bytes: the source had as many, the
-- destination got them in their order and nothing else, and what follows them is left in the source.
pub copy_stream_buffer-IsCopy :
    (done : ℕ → Bool) (w : Writer) (buffer size : ℕ) (source destination : Bytes)
    → (copy_stream_buffer done w buffer size source destination).outcome ≡ ok tt
    → IsCopy size source destination (copy_stream_buffer done w buffer size source destination)
unfolding copy_stream_buffer
copy_stream_buffer-IsCopy done w buffer size source destination h =
    elim (Bool-cases (buffer == 0)) [
      | inl empty ↦ cc (rw (empty, copy_stream_buffer) at h)
      | inr full ↦
          rw (full, copy_stream_buffer)
            (copy_loop-ok done w buffer size 0 size source destination (omega arith)
              (rw (full, copy_stream_buffer) at h))
    ]

-- A `Write` that takes all it is given and reports no error.
pub record IsWhole (w : Writer) : Type 0 where
  pub takes_all : (call : ℕ) (s : Bytes) → w call s ≡ record { count = length s; fails = false }

copy_loop_complete :
    (done : ℕ → Bool) (w : Writer) (buffer fuel call remaining : ℕ) (source destination : Bytes)
    → 0 < buffer
    → ((call : ℕ) → done call ≡ false)
    → IsWhole w
    → remaining ≤ length source
    → (copy_loop done w buffer fuel call remaining source destination).outcome ≡ ok tt
unfolding copy_loop chunk_of
copy_loop_complete done w buffer zero call remaining source destination b d a l = refl
copy_loop_complete done w buffer (suc fuel) call remaining source destination b d a l =
    let k = chunk_of buffer remaining in
    ground (
      arith,
      d call,
      a.takes_all call (take k source),
      length-take k source,
      length-drop k source,
      copy_loop_complete done w buffer fuel (suc call) (remaining - length (take k source))
          (drop k source) (destination ++ take (w call (take k source)).count (take k source)) b d
          a,
    )

-- A copy from a source that has enough bytes, with a buffer and a context that is never done, to a
-- destination that takes what it is given, ends without an error and moves exactly `size` bytes.
pub copy_stream_buffer_complete :
    (done : ℕ → Bool) (w : Writer) (buffer size : ℕ) (source destination : Bytes)
    → 0 < buffer
    → ((call : ℕ) → done call ≡ false)
    → IsWhole w
    → size ≤ length source
    → copy_stream_buffer done w buffer size source destination ≡ record {
      outcome = ok tt;
      source = drop size source;
      destination = destination ++ take size source;
    }
unfolding copy_stream_buffer
copy_stream_buffer_complete done w buffer size source destination b d a l =
    let full : (buffer == 0) ≡ false = ground arith in
    let looped = copy_loop done w buffer size 0 size source destination in
    let fine = copy_loop_complete done w buffer size 0 size source destination b d a l in
    rw (full, copy_stream_buffer)
      (IsCopy-determines size source destination looped fine
        (copy_loop-ok done w buffer size 0 size source destination (omega arith) fine))
