-- ===== src/Protocol/Stream.antt =====
-- `FramedReader` turns the byte stream back into the messages, however the stream is cut.
use mathlib.Core.List.{append-nil, append_assoc}
use dist_res_engine.Base.{
  ℕ, zero, suc, ◌≡◌, ◌≢◌, refl, sym, ap, ◌∙◌, Option, none, some, List, [], ◌∷◌, ◌++◌, map, All,
  arith, Option-cases, inl, inr, length, nat_eq,
}
use dist_res_engine.Protocol.Wire.{Json, Fields, obj, dumps}
use dist_res_engine.Protocol.Wire.Ascii.{AllPrintable, dumps-AllPrintable}
use dist_res_engine.Protocol.{
  delimiter, encode, Recv, chunk, reset, FramedReader, line, closed, split_line, read_frame,
  Received, message, disconnected, read_message,
}

-- No delimiter among the bytes.
abbrev pub IsFree : List ℕ → Type 0
IsFree bs = All (λ b. b ≢ 10) bs

printable-IsFree : (bs : List ℕ) → AllPrintable bs → IsFree bs
printable-IsFree [] h = tt
printable-IsFree (b ∷ bs) h = (omega arith, printable-IsFree bs h.1)

split_line-line : (l rest : List ℕ) → IsFree l → split_line (l ++ delimiter ∷ rest) ≡ some (l, rest)
unfolding split_line
split_line-line [] rest h = ground arith
split_line-line (b ∷ l) rest h = ground (arith, split_line-line l rest h.1)

split_line-free : (l : List ℕ) → IsFree l → split_line l ≡ none
unfolding split_line
split_line-free [] h = refl
split_line-free (b ∷ l) h = ground (arith, split_line-free l h.1)

split_line-append :
    (b c : List ℕ) {l rest : List ℕ}
    → split_line b ≡ some (l, rest)
    → split_line (b ++ c) ≡ some (l, rest ++ c)
unfolding split_line
split_line-append [] c e = cc
split_line-append (x ∷ b) c {l} {rest} e = elim (Option-cases (split_line b)) [
  | inl f ↦ ground arith
  | inr ((l', rest'), f) ↦ ground (arith, split_line-append b c {l = l'} {rest = rest'} f)
]

IsFree-left : (xs ys : List ℕ) → IsFree (xs ++ ys) → IsFree xs
IsFree-left [] ys h = tt
IsFree-left (x ∷ xs) ys h = (h.0, IsFree-left xs ys h.1)

-- The bytes that are still to come.
abbrev pub pending : List Recv → List ℕ
pending [] = []
pending (chunk c ∷ rs) = c ++ pending rs
pending (reset ∷ rs) = pending rs

-- Each `recv` to come returns some bytes, until the peer closes.
abbrev pub IsLive : List Recv → Type 0
IsLive [] = Unit
IsLive (chunk [] ∷ rs) = ⊥
IsLive (chunk (b ∷ bs) ∷ rs) = IsLive rs
IsLive (reset ∷ rs) = ⊥

-- A reader from which these bytes are to come.
abbrev pub Holds : FramedReader → List ℕ → Type 0
Holds r bs = IsLive r.incoming × (r.buffer ++ pending r.incoming ≡ bs)

read_frame_line :
    (buffer : List ℕ) (rs : List Recv) (l rest : List ℕ)
    → IsFree l
    → IsLive rs
    → buffer ++ pending rs ≡ l ++ delimiter ∷ rest
    → (r : FramedReader) × (read_frame buffer rs ≡ (line l, r)) × Holds r rest
unfolding read_frame
read_frame_line buffer [] l rest free live e =
    let e' : split_line buffer ≡ some (l, rest) =
      ap split_line (sym (append-nil buffer) ∙ e) ∙ split_line-line l rest free in
    (record { incoming = []; buffer = rest }, rw (e', read_frame) refl, (tt, append-nil rest))
read_frame_line buffer (reset ∷ rs) l rest free live e = absurd live
read_frame_line buffer (chunk [] ∷ rs) l rest free live e = absurd live
read_frame_line buffer (chunk (b ∷ bs) ∷ rs) l rest free live e =
    elim (Option-cases (split_line buffer)) [
      | inl f ↦
          let (r, q, h) =
            read_frame_line (buffer ++ b ∷ bs) rs l rest free live
              (append_assoc buffer (b ∷ bs) (pending rs) ∙ e) in
          (r, rw (f, read_frame) q, h)
      | inr ((l', rest'), f) ↦
          let same =
            sym (split_line-append buffer (b ∷ bs ++ pending rs) f)
            ∙ ap split_line e
            ∙ split_line-line l rest free in
          (
            record { incoming = chunk (b ∷ bs) ∷ rs; buffer = rest' },
            rw (f, read_frame) (ground (arith, same)),
            (live, ground (arith, same)),
          )
    ]

read_frame_end :
    (buffer : List ℕ) (rs : List Recv)
    → IsLive rs
    → IsFree (buffer ++ pending rs)
    → (read_frame buffer rs).0 ≡ closed
unfolding read_frame
read_frame_end buffer [] live free =
    let e = split_line-free buffer (IsFree-left buffer [] free) in rw (e, read_frame) refl
read_frame_end buffer (reset ∷ rs) live free = absurd live
read_frame_end buffer (chunk [] ∷ rs) live free = absurd live
read_frame_end buffer (chunk (b ∷ bs) ∷ rs) live free =
    let e = split_line-free buffer (IsFree-left buffer (b ∷ bs ++ pending rs) free) in
    rw (e, read_frame)
      (read_frame_end (buffer ++ b ∷ bs) rs live
        (rw (append_assoc buffer (b ∷ bs) (pending rs)) free))

-- What the sender writes to the socket.
unfoldable pub stream : List Fields → List ℕ
unfolding encode
stream [] = []
stream (m ∷ ms) = encode m ++ stream ms

module _ (loads : List ℕ → Option Json) where
  -- The messages that a loop around `read_message` gets, up to the first call that returns none.
  unfoldable pub receive_all : ℕ → FramedReader → List Received
  receive_all zero r = []
  receive_all (suc fuel) r =
      let (got, r') = read_message loads r in
      elim got [ message j ↦ message j ∷ receive_all fuel r' | other ↦ other ∷ [] ]

  read_message_line :
      (r r' : FramedReader) (l : List ℕ) (j : Json)
      → read_frame r.buffer r.incoming ≡ (line l, r')
      → loads l ≡ some j
      → read_message loads r ≡ (message j, r')
  unfolding read_message
  read_message_line r r' l j e f = ground (arith, e, f)

  receive_all_message :
      (fuel : ℕ) (r r' : FramedReader) (j : Json)
      → read_message loads r ≡ (message j, r')
      → receive_all (suc fuel) r ≡ message j ∷ receive_all fuel r'
  unfolding receive_all
  receive_all_message fuel r r' j e = ground (arith, e)

  receive_all_end :
      (fuel : ℕ) (r : FramedReader)
      → (read_frame r.buffer r.incoming).0 ≡ closed
      → receive_all (suc fuel) r ≡ disconnected ∷ []
  unfolding receive_all read_message
  receive_all_end fuel r e = ground (arith, e)

  -- Framing is exact: where `loads` reads back what `dumps` wrote for each of the messages `ms`,
  -- and the bytes to come are the encoded `ms` and behind them some bytes with no delimiter, cut
  -- into pieces at any places, a loop around `read_message` gets the messages `ms`, in order and
  -- each once, and then the end of the connection.
  pub receive_all-stream :
      (ms : List Fields) (tail : List ℕ) (r : FramedReader)
      → All (λ m. loads (dumps (obj m)) ≡ some (obj m)) ms
      → IsFree tail
      → Holds r (stream ms ++ tail)
      → receive_all (suc (length ms)) r ≡ map (λ m. message (obj m)) ms ++ disconnected ∷ []
  unfolding receive_all stream
  receive_all-stream [] tail r reads free h =
      receive_all_end 0 r (read_frame_end r.buffer r.incoming h.0 (rw (h.1) free))
  receive_all-stream (m ∷ ms) tail r reads free h =
      let (r', e, h') =
        read_frame_line r.buffer r.incoming (dumps (obj m)) (stream ms ++ tail)
          (printable-IsFree _ (dumps-AllPrintable (obj m))) h.0 (h.1 ∙ simp append_assoc) in
      receive_all_message (suc (length ms)) r r' (obj m) (read_message_line r r' _ _ e reads.0)
      ∙ (ap (◌∷◌ (message (obj m))) (receive_all-stream ms tail r' reads.1 free h'))
