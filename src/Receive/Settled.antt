-- ===== src/Receive/Settled.antt =====
-- An offer whose files have one outcome at most, and what keeps it so.
use transferly.Prelude.{
  ◌+◌, ◌≡◌, refl, ap, sym, subst, ◌∙◌, true, false, inl, inr, List, [], ◌∷◌, none, some, Bytes,
  same, same_iff, arith, if◌then◌else◌, length, any, lookup, insert, delete, lookup-insert,
  lookup-delete, Bool-cases,
}
use transferly.Protocol.{Message, IncomingOffer, ReceivingFile, Attempt}
use transferly.Receive.Files.{remove_incoming_stream, has_outcome}
use transferly.Receive.Handlers.{send}

-- No text twice.
abbrev pub IsOnce : List Bytes → Type 0
IsOnce [] = Unit
IsOnce (k ∷ ks) = (any (same k) ks ≡ false) × IsOnce ks

-- The outcomes are counted, none is there twice, and no file has an outcome and a stream.
pub record IsSettled (o : IncomingOffer) : Type 0 where
  pub counted : o.completed_file + o.failed_file ≡ length o.file_outcomes
  pub once : IsOnce o.file_outcomes
  pub closed : (k : Bytes) → any (same k) o.file_outcomes ≡ true → lookup k o.receiving_files ≡ none

abbrev pub Settles : Attempt → Type 0
Settles a = (o : IncomingOffer) → a.incoming ≡ some o → IsSettled o

pub put-Settles :
    (a : Attempt) (p : IncomingOffer) → IsSettled p → Settles (record a { incoming = some p })
put-Settles a p s o h = let e : p ≡ o = cc (h) in subst IsSettled e s

pub send-Settles : (m : Message) (a : Attempt) → Settles a → Settles (send m a).1
unfolding send
send-Settles m a s = elim (Bool-cases a.wire_up) [
  | inl up ↦ (λ o h. s o (h' up o h))
  | inr down ↦ (λ o h. s o (g' down o h))
]
  where
    h' :
        a.wire_up ≡ true
        → (o : IncomingOffer) → (send m a).1.incoming ≡ some o
        → a.incoming ≡ some o
    h' up o h = ground (arith, up, h)

    g' :
        a.wire_up ≡ false
        → (o : IncomingOffer) → (send m a).1.incoming ≡ some o
        → a.incoming ≡ some o
    g' down o h = ground (arith, down, h)

-- A stream of a file without an outcome.
pub insert-IsSettled :
    (o : IncomingOffer) (k : Bytes) (f : ReceivingFile)
    → any (same k) o.file_outcomes ≡ false
    → IsSettled o
    → IsSettled (record o { receiving_files = insert k f o.receiving_files })
insert-IsSettled o k f fresh s = record {
  counted = s.counted;
  once = s.once;
  closed = λ j h. lookup-insert k j f o.receiving_files ∙ apart j h;
}
  where
    apart :
        (j : Bytes)
        → any (same j) o.file_outcomes ≡ true
        → (if same k j then some f else lookup j o.receiving_files) ≡ none
    apart j h = elim (Bool-cases (same k j)) [
      | inl this ↦
          let e : k ≡ j = ground (arith, same_iff k j) in
          let t : false ≡ true = sym fresh ∙ ap (λ x. any (same x) o.file_outcomes) e ∙ h in cc (t)
      | inr other ↦ rw other (s.closed j h)
    ]

module _ (sha : Bytes → Bytes) (key : Bytes → Bytes) where
  -- One more outcome, without the stream.
  pub outcome-IsSettled :
      (o p : IncomingOffer) (path : Bytes)
      → has_outcome key path o ≡ false
      → IsSettled o
      → p.file_outcomes ≡ key path ∷ o.file_outcomes
      → p.receiving_files ≡ delete (key path) o.receiving_files
      → p.completed_file + p.failed_file ≡ o.completed_file + o.failed_file + 1
      → IsSettled p
  outcome-IsSettled o p path fresh s outcomes streams count = record {
    counted = count ∙ ap (λ n. n + 1) s.counted ∙ sym (ap length outcomes ∙ omega arith);
    once = subst IsOnce (sym outcomes) (fresh, s.once);
    closed = λ k h.
        ap (lookup k) streams
        ∙ lookup-delete (key path) k o.receiving_files
        ∙ gone k (sym (ap (any (same k)) outcomes) ∙ h);
  }
    where
      gone :
          (k : Bytes)
          → any (same k) (key path ∷ o.file_outcomes) ≡ true
          → (if same (key path) k then none else lookup k o.receiving_files) ≡ none
      gone k h = elim (Bool-cases (same (key path) k)) [
        | inl this ↦ rw this refl
        | inr other ↦
            rw other (s.closed k (ground (arith, h, same_iff k (key path), same_iff (key path) k)))
      ]

  pub remove-IsSettled :
      (o : IncomingOffer) (path : Bytes)
      → IsSettled o
      → IsSettled (remove_incoming_stream key path o)
  unfolding remove_incoming_stream
  remove-IsSettled o path s = record {
    counted = s.counted;
    once = s.once;
    closed = λ k h. lookup-delete (key path) k o.receiving_files ∙ gone k (s.closed k h);
  }
    where
      gone :
          (k : Bytes)
          → lookup k o.receiving_files ≡ none
          → (if same (key path) k then none else lookup k o.receiving_files) ≡ none
      gone k h = elim (Bool-cases (same (key path) k)) [
        | inl this ↦ rw this refl
        | inr other ↦ rw other h
      ]
