-- ===== src/Logging/Buffer.antt =====
-- The line buffer of `Log::log` (software/src/logging.cc): when a line fits, and when it does not.
use packet_filter.Base.{
  ℕ, zero, suc, ◌+◌, ◌-◌, ◌%◌, ◌^◌, ◌≤◌, ◌<◌, false, ltb, ◌==◌, not, ◌&&◌, if◌then◌else◌, List, [],
  ◌∷◌, ◌++◌, length, length-append, take, some, ◌≡◌, refl, ap, ◌∙◌, lt→ltb, arith,
}
use Prim.Native.Nat.{min}
use packet_filter.Logging.{
  Level, ℤ, is_filtered, level_str, LineBuf, log_buf_size, empty_buf, print_piece, log,
}

take_all : (n : ℕ) (xs : List ℕ) → length xs ≤ n → take n xs ≡ xs
take_all zero [] h = refl
take_all zero (x ∷ xs) h = absurd (omega arith)
take_all (suc n) [] h = refl
take_all (suc n) (x ∷ xs) h = ap (◌∷◌ x) (take_all n xs (omega arith))

-- A buffer that holds a text of the length of its offset.
pub record IsWhole (text : List ℕ) (b : LineBuf) : Type 0 where
  pub shown : b.shown ≡ text
  pub offset : b.offset ≡ length text
  pub inside : b.beyond ≡ false

room_at : (offset : ℕ) → offset ≤ 4096 → (4096 + (2 ^ 64 - offset)) % 2 ^ 64 ≡ 4096 - offset
room_at offset h = omega arith

in_bounds :
    (offset n : ℕ)
    → offset < 4096
    → let written : ℕ = if 4096 - offset == 0 then 0 else min n (4096 - offset - 1) + 1 in
      (ltb 4096 (offset + written) && not (written == 0)) ≡ false
in_bounds offset n h = ground arith

-- A piece that fits is added.
print_piece-IsWhole :
    (piece text : List ℕ) (b : LineBuf)
    → length text + length piece < 4096
    → IsWhole text b
    → IsWhole (text ++ piece) (print_piece piece b)
unfolding print_piece
print_piece-IsWhole piece text b fits whole =
    let o : b.offset ≡ length text = whole.offset in
    let room = room_at b.offset (omega arith) in
    record {
      shown =
          rw
            (
              lt→ltb b.offset 4096 (omega arith),
              room,
              take_all (4096 - b.offset - 1) piece (omega arith),
            )
            (ap (λ (t : List ℕ). t ++ piece) whole.shown);
      offset = omega (arith, length-append text piece);
      inside = rw (whole.inside, room) (in_bounds b.offset (length piece) (omega arith));
    }

-- What stands before the message.
abbrev pub header : Level → List ℕ → List ℕ → List ℕ
header level place stamp =
    ((level_str level ++ (b' ' ∷ [])) ++ place) ++ (stamp ++ (b' ' ∷ b'|' ∷ b' ' ∷ []))

-- A piece that need not fit, in a buffer that is not full.
after_message :
    (piece text : List ℕ) (b : LineBuf)
    → length text < 4096
    → length piece < 2 ^ 63
    → IsWhole text b
    → ((print_piece piece b).offset ≡ length text + length piece)
      × ((print_piece piece b).beyond ≡ false)
unfolding print_piece
after_message piece text b short small whole =
    let o : b.offset ≡ length text = whole.offset in
    let room = room_at b.offset (omega arith) in
    (omega arith, rw (whole.inside, room) (in_bounds b.offset (length piece) (omega arith)))

-- The newline goes behind the end exactly if the text before it did not fit.
newline_beyond :
    (b : LineBuf)
    → b.offset < 2 ^ 63 + 4096
    → b.beyond ≡ false
    → (print_piece (10 ∷ []) b).beyond ≡ ltb log_buf_size b.offset
unfolding print_piece
newline_beyond b small inside = rw inside (newline b.offset small)
  where
    newline :
        (offset : ℕ)
        → offset < 2 ^ 63 + 4096
        → let room = (4096 + (2 ^ 64 - offset)) % 2 ^ 64 in
          let written : ℕ = if room == 0 then 0 else min 1 (room - 1) + 1 in
          (ltb 4096 (offset + written) && not (written == 0)) ≡ ltb 4096 offset
    newline offset h = ground arith

one_letter : (level : Level) → length (level_str level ++ (b' ' ∷ [])) ≡ 2
one_letter Level.fatal = refl
one_letter _ = refl

pub header_length :
    (level : Level) (place stamp : List ℕ)
    → length (header level place stamp) ≡ 2 + length place + (length stamp + 3)
header_length level place stamp = omega (
  arith,
  one_letter level,
  length-append (level_str level ++ (b' ' ∷ [])) place,
  length-append ((level_str level ++ (b' ' ∷ [])) ++ place) (stamp ++ (b' ' ∷ b'|' ∷ b' ' ∷ [])),
  length-append stamp (b' ' ∷ b'|' ∷ b' ' ∷ []),
)

empty-IsWhole : IsWhole [] empty_buf
empty-IsWhole = record { shown = refl; offset = refl; inside = refl }

abbrev headed : Level → List ℕ → List ℕ → LineBuf
headed level place stamp =
    print_piece (stamp ++ (b' ' ∷ b'|' ∷ b' ' ∷ []))
      (print_piece place (print_piece (level_str level ++ (b' ' ∷ [])) empty_buf))

header-IsWhole :
    (level : Level) (place stamp : List ℕ)
    → length (header level place stamp) < 4096
    → IsWhole (header level place stamp) (headed level place stamp)
header-IsWhole level place stamp short =
    let letter = level_str level ++ (b' ' ∷ []) in
    let size = header_length level place stamp in
    let one = one_letter level in
    let two = length-append letter place in
    let mark = length-append stamp (b' ' ∷ b'|' ∷ b' ' ∷ []) in
    print_piece-IsWhole (stamp ++ (b' ' ∷ b'|' ∷ b' ' ∷ [])) (letter ++ place) _ (omega arith) (
      print_piece-IsWhole place letter _ (omega arith)
        (print_piece-IsWhole letter [] empty_buf (omega arith) empty-IsWhole))

-- A line whose level passes and whose header and message are shorter than `log_buf` by two bytes is
-- printed whole: the header, the message and a newline, with no byte behind the buffer.
pub log-IsWhole :
    (log_level : ℤ) (level : Level) (place stamp message : List ℕ)
    → is_filtered log_level level ≡ false
    → length (header level place stamp) + length message + 1 < log_buf_size
    → (b : LineBuf) × (log log_level level place stamp message ≡ some b)
      × IsWhole ((header level place stamp ++ message) ++ (10 ∷ [])) b
unfolding log
log-IsWhole log_level level place stamp message passes fits = (
  print_piece (10 ∷ []) (print_piece message (headed level place stamp)),
  rw passes,
  print_piece-IsWhole (10 ∷ []) (header level place stamp ++ message) _
      (omega (arith, length-append (header level place stamp) message))
      (print_piece-IsWhole message (header level place stamp) _ (omega arith)
        (header-IsWhole level place stamp (omega arith))),
)

-- A line whose level passes, whose header fits and whose message has a length that an `int` holds:
-- bytes are written behind the end of `log_buf` exactly if header and message together are longer
-- than its 4096 bytes.
pub log-beyond :
    (log_level : ℤ) (level : Level) (place stamp message : List ℕ)
    → is_filtered log_level level ≡ false
    → length (header level place stamp) < log_buf_size
    → length message < 2 ^ 31
    → (b : LineBuf) × (log log_level level place stamp message ≡ some b)
      × (b.beyond ≡ ltb log_buf_size (length (header level place stamp) + length message))
unfolding log
log-beyond log_level level place stamp message passes short small =
    let (offset, inside) =
      after_message message (header level place stamp) (headed level place stamp) short
        (omega arith) (header-IsWhole level place stamp short) in
    (
      print_piece (10 ∷ []) (print_piece message (headed level place stamp)),
      rw passes,
      newline_beyond (print_piece message (headed level place stamp)) (omega arith) inside
          ∙ ap (ltb log_buf_size) offset,
    )
