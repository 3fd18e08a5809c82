-- ===== src/Client/Receiver/Shown.antt =====
-- src/protocol.c and replies/client.c: what the server formats is what the client shows.
use multi_client_chat_server.Prelude.{
  ℕ, zero, suc, ◌+◌, ◌/◌, ◌%◌, ◌≤◌, ◌≡◌, refl, ap, subst, ◌∙◌, arith, pos, true, Option, some, [],
  ◌∷◌, ◌++◌, Text, codes, text_eq, ltb, Bool-cases, inl, inr, All, length, length-append,
  take_of_length_le,
}
use multi_client_chat_server.Protocol.Tokens.{space, strtok, skip_spaces, split_word, word_of}
use multi_client_chat_server.Protocol.Number.{
  is_numeral, is_digit, is_space, all_digits, some_digits, unsigned, skip_blanks,
}
use multi_client_chat_server.Protocol.Format.{
  max_line_len, digits_onto, decimal, decimal_int, format_pm_reply, format_msg_reply_id,
}
use multi_client_chat_server.Handler.Lines.{IsWord, strtok-append}
use multi_client_chat_server.Handler.Listing.Overflow.{length-decimal}
use multi_client_chat_server.Display.{message, direct}
use multi_client_chat_server.Client.{Terminal, text_at, strip_line_end, shows}
use multi_client_chat_server.Client.Replies.{show_pm, show_msg, room_shown}
use multi_client_chat_server.Client.Receiver.{show_reply, show_line, handle_server_line}
use multi_client_chat_server.Client.Receiver.Rewind.{strip_line_end-append}

abbrev IsDigit : ℕ → Type 0
IsDigit c = (b'0' ≤ c) × (c ≤ b'9')

digits_onto-cons :
    (f n : ℕ) (rest : Text)
    → All IsDigit rest
    → (c : ℕ) × (s : Text) × (digits_onto (suc f) n rest ≡ c ∷ s) × IsDigit c × All IsDigit s
unfolding digits_onto
digits_onto-cons zero n rest h = elim (Bool-cases (ltb n 10)) [
  | inl small ↦ (b'0' + n, rest, ground (arith, small), ground (arith, small), h)
  | inr large ↦ (b'0' + n % 10, rest, ground (arith, large), omega arith, h)
]
digits_onto-cons (suc f) n rest h = elim (Bool-cases (ltb n 10)) [
  | inl small ↦ (b'0' + n, rest, ground (arith, small), ground (arith, small), h)
  | inr large ↦
      let (c, s, e, d, ds) =
        digits_onto-cons f (n / 10) ((b'0' + n % 10) ∷ rest) (omega arith, h) in
      (c, s, rw large e, d, ds)
]

all_digits-true : (s : Text) → All IsDigit s → all_digits s ≡ true
unfolding all_digits is_digit
all_digits-true [] h = refl
all_digits-true (c ∷ s) h = ground (arith, all_digits-true s h.1, h.0)

numeral_of_digits : (c : ℕ) (s : Text) → IsDigit c → All IsDigit s → is_numeral (c ∷ s) ≡ true
unfolding is_numeral all_digits some_digits unsigned skip_blanks is_digit is_space
numeral_of_digits c s h hs = ground (arith, all_digits-true s hs)

IsWord-digits : (s : Text) → All IsDigit s → IsWord s
IsWord-digits [] h = tt
IsWord-digits (c ∷ s) h = (omega (arith, h.0), IsWord-digits s h.1)

-- The text of a reply, before the newline that every reply ends with.
pub strip_line_end-newline : (s : Text) → strip_line_end (s ++ (b'\n' ∷ [])) ≡ strip_line_end s
unfolding strip_line_end
strip_line_end-newline [] = refl
strip_line_end-newline (c ∷ s) = rw (strip_line_end-newline s) refl

line_pm :
    (t : Terminal) (c : ℕ) (s : Text)
    → show_line t (codes "PM_FROM " ++ (c ∷ s)) ≡ some (show_pm t (some (c ∷ s)))
unfolding show_line show_reply strtok split_word skip_spaces word_of text_eq
line_pm t c s = refl

line_msg :
    (t : Terminal) (c : ℕ) (s : Text)
    → show_line t (codes "MSG " ++ (c ∷ s)) ≡ some (show_msg t (some (c ∷ s)))
unfolding show_line show_reply strtok split_word skip_spaces word_of text_eq
line_msg t c s = refl

show_pm_lem :
    (t : Terminal) (rest rest1 : Option Text) (s : Text)
    → strtok rest ≡ (some s, rest1)
    → show_pm t rest ≡ shows t (direct s (text_at rest1))
unfolding show_pm
show_pm_lem t rest rest1 s h =
    let e : (strtok rest).0 ≡ some s = ap (λ p. p.0) h in
    let r : (strtok rest).1 ≡ rest1 = ap (λ p. p.1) h in rw (e, show_pm) (rw r refl)

-- A number, and a sender behind it.
show_msg_lem :
    (t : Terminal) (rest : Option Text) (c : ℕ) (r : Text) (rest2 : Option Text) (w s : Text)
    → strtok rest ≡ (some w, some (c ∷ r))
    → is_numeral w ≡ true
    → strtok (some (c ∷ r)) ≡ (some s, rest2)
    → length (codes "[" ++ (w ++ (codes "] " ++ text_at rest2))) ≤ 431
    → show_msg t rest
      ≡ shows t (
          message (room_shown t.current_room) s (codes "[" ++ (w ++ (codes "] " ++ text_at rest2))))
unfolding show_msg
show_msg_lem t rest c r rest2 w s h n k short =
    let e : (strtok rest).0 ≡ some w = ap (λ p. p.0) h in
    let r' : (strtok rest).1 ≡ some (c ∷ r) = ap (λ p. p.1) h in
    let k0 : (strtok (some (c ∷ r))).0 ≡ some s = ap (λ p. p.0) k in
    let k1 : (strtok (some (c ∷ r))).1 ≡ rest2 = ap (λ p. p.1) k in
    let whole = take_of_length_le 431 (codes "[" ++ (w ++ (codes "] " ++ text_at rest2))) short in
    rw (e, show_msg)
      (rw (r', n)
        (rw k0 (rw (r', k1) (ap (λ z. shows t (message (room_shown t.current_room) s z)) whole))))

module _ (t : Terminal) (c : ℕ) (w text : Text) (word : IsWord (c ∷ w)) where
  pub shows_pm :
      show_line t (codes "PM_FROM " ++ ((c ∷ w) ++ (space ∷ text)))
      ≡ some (shows t (direct (c ∷ w) text))
  shows_pm =
      line_pm t c (w ++ (space ∷ text))
      ∙ ap some (show_pm_lem t _ _ (c ∷ w) (strtok-append c w text word))

  shows_msg :
      (d : ℕ) (id : Text)
      → IsDigit d
      → All IsDigit id
      → length id ≤ 20
      → length text ≤ 400
      → show_line t (codes "MSG " ++ ((d ∷ id) ++ (space ∷ ((c ∷ w) ++ (space ∷ text)))))
        ≡ some (
            shows t (
              message
                (room_shown t.current_room)
                (c ∷ w)
                (codes "[" ++ ((d ∷ id) ++ (codes "] " ++ text)))))
  shows_msg d id hd hid short fits =
      line_msg t d (id ++ (space ∷ ((c ∷ w) ++ (space ∷ text))))
      ∙ ap some (
          show_msg_lem t _ c (w ++ (space ∷ text)) _ (d ∷ id) (c ∷ w)
            (strtok-append d id ((c ∷ w) ++ (space ∷ text)) (IsWord-digits (d ∷ id) (hd, hid)))
            (numeral_of_digits d id hd hid) (strtok-append c w text word)
            (omega (arith, length-append id (codes "] " ++ text))))

  module _ (clean : strip_line_end text ≡ text) where
    strip_pm :
        strip_line_end (codes "PM_FROM" ++ (space ∷ ((c ∷ w) ++ (space ∷ (text ++ (b'\n' ∷ []))))))
        ≡ codes "PM_FROM " ++ ((c ∷ w) ++ (space ∷ text))
    strip_pm =
        strip_line_end-append (codes "PM_FROM") ((c ∷ w) ++ (space ∷ (text ++ (b'\n' ∷ []))))
        ∙ ap (λ z. codes "PM_FROM" ++ (space ∷ z))
            (strip_line_end-append (c ∷ w) (text ++ (b'\n' ∷ []))
              ∙ ap (λ z. (c ∷ w) ++ (space ∷ z)) (strip_line_end-newline text ∙ clean))

    strip_msg :
        (id : Text)
        → strip_line_end (
            codes "MSG"
            ++ (space ∷ (id ++ (space ∷ ((c ∷ w) ++ (space ∷ (text ++ (b'\n' ∷ []))))))))
          ≡ codes "MSG " ++ (id ++ (space ∷ ((c ∷ w) ++ (space ∷ text))))
    strip_msg id =
        strip_line_end-append (codes "MSG")
          (id ++ (space ∷ ((c ∷ w) ++ (space ∷ (text ++ (b'\n' ∷ []))))))
        ∙ ap (λ z. codes "MSG" ++ (space ∷ z))
            (strip_line_end-append id ((c ∷ w) ++ (space ∷ (text ++ (b'\n' ∷ []))))
              ∙ ap (λ z. id ++ (space ∷ z))
                  (strip_line_end-append (c ∷ w) (text ++ (b'\n' ∷ []))
                    ∙ ap (λ z. (c ∷ w) ++ (space ∷ z)) (strip_line_end-newline text ∙ clean)))

-- A private message and a room message, formatted by the server and read by the client, are shown with the
-- sender and the text byte for byte, the room message with its id in front: for a sender that is a word of
-- at most 31 bytes, a text of at most 400 bytes that does not end with a newline or a carriage return, and an
-- id that is not negative.
pub replies_shown :
    (t : Terminal) (n c : ℕ) (w text : Text)
    → IsWord (c ∷ w)
    → strip_line_end text ≡ text
    → length (c ∷ w) ≤ 31
    → length text ≤ 400
    → (handle_server_line t (format_pm_reply max_line_len (c ∷ w) text)
        ≡ some (shows t (direct (c ∷ w) text)))
      × (handle_server_line t (format_msg_reply_id max_line_len (pos n) (c ∷ w) text)
          ≡ some (
              shows t (
                message
                  (room_shown t.current_room)
                  (c ∷ w)
                  (codes "[" ++ (decimal n ++ (codes "] " ++ text))))))
unfolding handle_server_line format_pm_reply format_msg_reply_id decimal_int decimal
replies_shown t n c w text word clean short fits =
    let (d, id, e, hd, hid) = digits_onto-cons 19 n [] tt in
    let long : length (d ∷ id) ≤ 21 = subst (λ z. length z ≤ 21) e (length-decimal n) in
    let tail = text ++ (b'\n' ∷ []) in
    let ends = length-append text (b'\n' ∷ []) in
    let named = length-append (c ∷ w) (space ∷ tail) in
    let pm_whole =
      take_of_length_le 511 (codes "PM_FROM" ++ (space ∷ ((c ∷ w) ++ (space ∷ tail))))
        (omega (arith, ends, named)) in
    let msg_whole =
      take_of_length_le 511
        (codes "MSG" ++ (space ∷ ((d ∷ id) ++ (space ∷ ((c ∷ w) ++ (space ∷ tail))))))
        (omega (
          arith,
          ends,
          named,
          length-append (d ∷ id) (space ∷ ((c ∷ w) ++ (space ∷ tail))),
          long,
        )) in
    (
      ap (λ z. show_line t (strip_line_end z)) pm_whole
          ∙ ap (show_line t) (strip_pm t c w text word clean)
          ∙ shows_pm t c w text word,
      rw e (
          ap (λ z. show_line t (strip_line_end z)) msg_whole
          ∙ ap (show_line t) (strip_msg t c w text word clean (d ∷ id))
          ∙ shows_msg t c w text word d id hd hid (omega (arith, long)) fits),
    )
